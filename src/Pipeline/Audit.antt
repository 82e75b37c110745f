-- ===== src/Pipeline/Audit.antt =====
-- crates/waf-pipeline/src/lib.rs: what a run leaves in the context, the score and its audit trail.
use rust_waf.Common.{
  ℕ, ◌+◌, ◌%◌, ◌^◌, ◌<◌, Bool, List, [], ◌∷◌, ◌++◌, append_assoc, append-nil, Option, none, some,
  ◌≡◌, refl, sym, ap, ◌∙◌, ◌≢◌, ◌⊎◌, inl, inr, arith, Bytes,
}
use rust_waf.Core.Decision.{
  Severity, ScoreItem, Decision, Phase, WafMode, SeverityScores, points_for,
}
use rust_waf.Core.Context.{RequestContext, ScoreContribution}
use rust_waf.Pipeline.{
  Pipeline, PipelineVerdict, Run, accumulate, accumulate_items, threshold_check, enforce,
  apply_decision, run_loop, conclude, run_phases_filtered, last_rule_id,
}
use rust_waf.Pipeline.Rule.{run_loop-rule}

abbrev pub total : List ScoreContribution → ℕ
total [] = 0
total (c ∷ cs) = c.points + total cs

-- `b` is `a` with more contributions recorded and their points added to the score.
pub record Audited (a b : RequestContext) : Type 0 where
  pub added : List ScoreContribution
  pub recorded : b.score_contributions ≡ a.score_contributions ++ added
  pub summed : b.score ≡ (a.score + total added) % 2 ^ 32
  pub framed : record b { score = a.score; score_contributions = a.score_contributions } ≡ a

total-append : (xs ys : List ScoreContribution) → total (xs ++ ys) ≡ total xs + total ys
total-append [] ys = omega arith
total-append (x ∷ xs) ys = omega (arith, total-append xs ys)

Audited-refl : (a : RequestContext) → a.score < 2 ^ 32 → Audited a a
Audited-refl a h = record {
  added = [];
  recorded = sym (append-nil _);
  summed = omega arith;
  framed = refl;
}

Audited-trans : (a b c : RequestContext) → Audited a b → Audited b c → Audited a c
Audited-trans a b c h k = record {
  added = h.added ++ k.added;
  recorded =
      k.recorded
      ∙ ap (λ (l : List ScoreContribution). l ++ k.added) h.recorded
      ∙ append_assoc a.score_contributions h.added k.added;
  summed = omega (arith, h.summed, k.summed, total-append h.added k.added);
  framed =
      ap
        (λ (d : RequestContext). record d {
          score = a.score;
          score_contributions = a.score_contributions;
        })
        k.framed
      ∙ h.framed;
}

accumulate-Audited :
    (a : RequestContext) (module_id rule_id : Bytes) (s : Option Severity) (points : ℕ)
    → Audited a (accumulate a module_id rule_id s points)
unfolding accumulate
accumulate-Audited a module_id rule_id s points = record {
  added = record { module_id = module_id; rule_id = rule_id; severity = s; points = points } ∷ [];
  recorded = refl;
  summed = omega arith;
  framed = refl;
}

accumulate_items-Audited :
    (p : SeverityScores) (a : RequestContext) (module_id : Bytes) (items : List ScoreItem)
    → a.score < 2 ^ 32
    → Audited a (accumulate_items p a module_id items)
unfolding accumulate_items
accumulate_items-Audited p a module_id [] h = Audited-refl a h
accumulate_items-Audited p a module_id (item ∷ items) h =
    let b = accumulate a module_id item.rule_id (some item.severity) (points_for p item.severity) in
    let one =
      accumulate-Audited a module_id item.rule_id (some item.severity)
        (points_for p item.severity) in
    Audited-trans a b _ one
      (accumulate_items-Audited p b module_id items (omega (arith, one.summed)))

-- The relation that a run keeps: while the score is a `u32`, it is audited, and if no verdict
-- stands then nothing was added, or the score is below the threshold of a blocking pipeline.
record Keeps {W : Type 0} (p : Pipeline W) (a : RequestContext) (v : Option PipelineVerdict)
    (b : RequestContext) : Type 0 where
  audited : a.score < 2 ^ 32 → Audited a b
  real : v ≢ some PipelineVerdict.allow
  observing : p.mode ≡ WafMode.detection_only → v ≡ none
  quiet :
      p.mode ≡ WafMode.blocking
      → v ≡ none
      → ((b.score_contributions ≡ a.score_contributions) × (b.score ≡ a.score))
        ⊎ (b.score < p.block_threshold)

conclude_allow :
    {W : Type 0} (mode : WafMode) (r : Run W)
    → mode ≡ WafMode.blocking
    → r.block_verdict ≢ some PipelineVerdict.allow
    → (conclude mode r).verdict ≡ PipelineVerdict.allow
    → r.block_verdict ≡ none
unfolding conclude
conclude_allow mode r e real h = ground arith

module _ {W : Type 0} (p : Pipeline W) where
  Keeps-start : (a : RequestContext) → Keeps p a none a
  Keeps-start a = record {
    audited = Audited-refl a;
    real = λ e. cc;
    observing = λ _. refl;
    quiet = λ _ _. inl (refl, refl);
  }

  Keeps-join :
      (a b c : RequestContext) (v : Option PipelineVerdict)
      → Keeps p a none b
      → Keeps p b v c
      → Keeps p a v c
  Keeps-join a b c v h k = record {
    audited = λ small.
        let ab = h.audited small in Audited-trans a b c ab (k.audited (omega (arith, ab.summed)));
    real = k.real;
    observing = k.observing;
    quiet = λ mode none_yet. later (k.quiet mode none_yet) (h.quiet mode refl);
  }
    where
      later :
          ((c.score_contributions ≡ b.score_contributions) × (c.score ≡ b.score))
            ⊎ (c.score < p.block_threshold)
          → ((b.score_contributions ≡ a.score_contributions) × (b.score ≡ a.score))
            ⊎ (b.score < p.block_threshold)
          → ((c.score_contributions ≡ a.score_contributions) × (c.score ≡ a.score))
            ⊎ (c.score < p.block_threshold)
      later (inr below) _ = inr below
      later (inl (same, eq)) (inr below) = inr (omega arith)
      later (inl (same, eq)) (inl (same', eq')) = inl (same ∙ same', eq ∙ eq')

  -- No verdict from the threshold check means that the score is below it.
  threshold_check-none :
      (a : RequestContext) (rule_id : Bytes)
      → p.mode ≡ WafMode.blocking
      → threshold_check p a rule_id ≡ none
      → a.score < p.block_threshold
  unfolding threshold_check
  threshold_check-none a rule_id mode h = ground arith

  threshold_check-ne-allow :
      (a : RequestContext) (rule_id : Bytes)
      → threshold_check p a rule_id ≢ some PipelineVerdict.allow
  unfolding threshold_check
  threshold_check-ne-allow a rule_id h = ground arith

  Keeps-each :
      (a : RequestContext) (module_id : Bytes) (d : Decision)
      → Keeps p a (apply_decision p a module_id d).1 (apply_decision p a module_id d).0
  unfolding apply_decision enforce threshold_check
  Keeps-each a module_id Decision.allow = Keeps-start a
  Keeps-each a module_id (Decision.monitor r) = Keeps-start a
  Keeps-each a module_id (Decision.score r points) = record {
    audited = λ _. accumulate-Audited a module_id r none points;
    real = threshold_check-ne-allow (accumulate a module_id r none points) r;
    observing = ground arith;
    quiet = λ mode quiet.
        inr (threshold_check-none (accumulate a module_id r none points) r mode quiet);
  }
  Keeps-each a module_id (Decision.scores items) = record {
    audited = λ small. accumulate_items-Audited p.severity_scores a module_id items small;
    real =
        threshold_check-ne-allow (accumulate_items p.severity_scores a module_id items)
          (last_rule_id [] items);
    observing = ground arith;
    quiet = λ mode quiet. inr (
        threshold_check-none (accumulate_items p.severity_scores a module_id items)
          (last_rule_id [] items) mode quiet);
  }
  Keeps-each a module_id (Decision.block r why) = record {
    audited = Audited-refl a;
    real = ground arith;
    observing = ground arith;
    quiet = λ _ _. inl (refl, refl);
  }
  Keeps-each a module_id (Decision.reject r why s after) = record {
    audited = Audited-refl a;
    real = ground arith;
    observing = ground arith;
    quiet = λ _ _. inl (refl, refl);
  }

  -- A run of any phases, gated or not, that starts with a score below 2^32 keeps the audit: the
  -- recorded contributions are extended, the score is the old one plus their points modulo 2^32,
  -- and no other part of the request changes.
  pub run_phases_filtered-Audited :
      (phases : List Phase) (only : Bool) (a : RequestContext) (w : W)
      → a.score < 2 ^ 32
      → Audited a (run_phases_filtered p phases only a w).context
  unfolding run_phases_filtered conclude
  run_phases_filtered-Audited phases only a w =
      (run_loop-rule p (Keeps p) Keeps-start Keeps-join Keeps-each phases only a w).audited

  -- In blocking mode, a run that allows the request either recorded no contribution and left the
  -- score as it was, or leaves a score below the threshold.
  pub run_phases_filtered_allow :
      (phases : List Phase) (only : Bool) (a : RequestContext) (w : W)
      → p.mode ≡ WafMode.blocking
      → (run_phases_filtered p phases only a w).verdict ≡ PipelineVerdict.allow
      → (((run_phases_filtered p phases only a w).context.score_contributions
            ≡ a.score_contributions)
          × ((run_phases_filtered p phases only a w).context.score ≡ a.score))
        ⊎ ((run_phases_filtered p phases only a w).context.score < p.block_threshold)
  unfolding run_phases_filtered conclude
  run_phases_filtered_allow phases only a w mode ok =
      let k = run_loop-rule p (Keeps p) Keeps-start Keeps-join Keeps-each phases only a w in
      k.quiet mode (conclude_allow p.mode (run_loop p phases only a w) mode k.real ok)

  -- The loop's verdict is never `Allow`, and in detection-only mode there is none.
  pub run_loop-ne-allow :
      (phases : List Phase) (only : Bool) (a : RequestContext) (w : W)
      → (run_loop p phases only a w).block_verdict ≢ some PipelineVerdict.allow
  run_loop-ne-allow phases only a w =
      (run_loop-rule p (Keeps p) Keeps-start Keeps-join Keeps-each phases only a w).real

  pub run_loop-none :
      (phases : List Phase) (only : Bool) (a : RequestContext) (w : W)
      → p.mode ≡ WafMode.detection_only
      → (run_loop p phases only a w).block_verdict ≡ none
  run_loop-none phases only a w =
      (run_loop-rule p (Keeps p) Keeps-start Keeps-join Keeps-each phases only a w).observing
