-- ===== src/Pipeline/Gate.antt =====
-- crates/waf-pipeline/src/lib.rs: `run_inspection_gated`, the fast path that runs only the
-- structural modules when no content rule can match.
use rust_waf.Common.{
  ℕ, Bool, true, false, List, [], ◌∷◌, ◌++◌, Option, none, some, ◌≡◌, refl, sym, ap, ◌∙◌, subst,
  inl, inr, arith, Bytes, if◌then◌else◌, Bool-cases, keep,
}
use rust_waf.Core.Decision.{Severity, ScoreItem, Decision, Phase, SeverityScores, points_for}
use rust_waf.Core.Context.{RequestContext, ScoreContribution}
use rust_waf.Pipeline.{
  Pipeline, PipelineVerdict, WafModule, Outcome, Run, accumulate, accumulate_items, settle,
  apply_decision, inspect_module, selected, conclude, unless_broken, run_phases_filtered,
  run_phases, run_inspection, run_inspection_gated, inspection_phases,
}
use rust_waf.Pipeline.Schedule.{schedule, run_list, run_loop-run_list}
use mathlib.Core.Path.{ap₂}

-- The two contexts differ in the score and its audit at most.
abbrev SameRequest : RequestContext → RequestContext → Type 0
SameRequest a b = record a { score = b.score; score_contributions = b.score_contributions } ≡ b

rescore-SameRequest :
    (a b : RequestContext) (score : ℕ) (contributions : List ScoreContribution)
    → SameRequest a b
    → SameRequest a (record b { score = score; score_contributions = contributions })
rescore-SameRequest a b score contributions h =
    ap (λ (d : RequestContext). record d { score = score; score_contributions = contributions }) h

accumulate-SameRequest :
    (a b : RequestContext) (module_id rule_id : Bytes) (s : Option Severity) (points : ℕ)
    → SameRequest a b
    → SameRequest a (accumulate b module_id rule_id s points)
unfolding accumulate
accumulate-SameRequest a b module_id rule_id s points h = rescore-SameRequest a b _ _ h

accumulate_items-SameRequest :
    (s : SeverityScores) (a : RequestContext) (module_id : Bytes) (items : List ScoreItem)
    (b : RequestContext)
    → SameRequest a b
    → SameRequest a (accumulate_items s b module_id items)
unfolding accumulate_items
accumulate_items-SameRequest s a module_id [] b h = h
accumulate_items-SameRequest s a module_id (item ∷ items) b h =
    accumulate_items-SameRequest s a module_id items
      (accumulate b module_id item.rule_id (some item.severity) (points_for s item.severity))
      (accumulate-SameRequest a b module_id item.rule_id _ _ h)

module _ {W : Type 0} where
  -- On the request of `a`, whatever its score so far, the module allows and touches no state.
  abbrev pub Idle : RequestContext → WafModule W → Type 0
  Idle a m =
      (score : ℕ) (contributions : List ScoreContribution) (w : W)
      → m.inspect (record a { score = score; score_contributions = contributions }) w
        ≡ (Outcome.decided Decision.allow, w)

  abbrev pub ContentIdle : RequestContext → List (WafModule W) → Type 0
  ContentIdle a [] = Unit {0}
  ContentIdle a (m ∷ ms) = (m.structural ≡ false → Idle a m) × ContentIdle a ms

  abbrev structural_part : List (WafModule W) → List (WafModule W)
  structural_part = keep (λ m. m.structural)

  apply_decision-SameRequest :
      (p : Pipeline W) (a b : RequestContext) (module_id : Bytes) (d : Decision)
      → SameRequest a b
      → SameRequest a (apply_decision p b module_id d).0
  unfolding apply_decision accumulate
  apply_decision-SameRequest p a b module_id (Decision.scores items) h =
      accumulate_items-SameRequest p.severity_scores a module_id items b h
  apply_decision-SameRequest p a b module_id (Decision.score r n) h =
      accumulate-SameRequest a b module_id r none n h
  apply_decision-SameRequest p a b module_id Decision.allow h = h
  apply_decision-SameRequest p a b module_id _ h = h

  Idle-step :
      (p : Pipeline W) (a b : RequestContext) (w : W) (m : WafModule W)
      → SameRequest a b
      → Idle a m
      → inspect_module p m b w ≡ record { context = b; world = w; block_verdict = none }
  unfolding inspect_module settle apply_decision
  Idle-step p a b w m same idle =
      ap
        (λ (o : Outcome × W).
          let s = apply_decision p b m.id (settle p m.id o.0) in
          record { context = s.0; world = o.1; block_verdict = s.1 })
        (subst (λ (c : RequestContext). m.inspect c w ≡ (Outcome.decided Decision.allow, w)) same
          (idle b.score b.score_contributions w))

  same_after :
      (b : RequestContext) (w : W) (v : Option PipelineVerdict) (f g : RequestContext → W → Run W)
      → f b w ≡ g b w
      → unless_broken (record { context = b; world = w; block_verdict = v }) f
        ≡ unless_broken (record { context = b; world = w; block_verdict = v }) g
  same_after b w none f g h = h
  same_after b w (some v) f g h = refl

  inspect_module-SameRequest :
      (p : Pipeline W) (a b : RequestContext) (w : W) (m : WafModule W)
      → SameRequest a b
      → SameRequest a (inspect_module p m b w).context
  unfolding inspect_module
  inspect_module-SameRequest p a b w m same =
      apply_decision-SameRequest p a b m.id (settle p m.id (m.inspect b w).0) same

  run_list-structural :
      (p : Pipeline W) (a : RequestContext) (ms : List (WafModule W)) (b : RequestContext) (w : W)
      → SameRequest a b
      → ContentIdle a ms
      → run_list p ms b w ≡ run_list p (structural_part ms) b w
  unfolding run_list
  run_list-structural p a [] b w same idle = refl
  run_list-structural p a (m ∷ ms) b w same (idle, rest) =
      let r = inspect_module p m b w in
      let split =
        λ (t : Bool). run_list p (if t then m ∷ structural_part ms else structural_part ms) b w in
      elim (Bool-cases m.structural) [
        | inl kept ↦
            same_after r.context r.world r.block_verdict (run_list p ms)
              (run_list p (structural_part ms))
              (run_list-structural p a ms r.context r.world
                (inspect_module-SameRequest p a b w m same) rest)
            ∙ ap split (sym kept)
        | inr content ↦
            ap (λ (x : Run W). unless_broken x (run_list p ms))
              (Idle-step p a b w m same (idle content))
            ∙ run_list-structural p a ms b w same rest
            ∙ ap split (sym content)
      ]

  structural_part-append :
      (xs ys : List (WafModule W))
      → structural_part (xs ++ ys) ≡ structural_part xs ++ structural_part ys
  structural_part-append [] ys = refl
  structural_part-append (x ∷ xs) ys = ground (arith, structural_part-append xs ys)

  keep-selected :
      (phase : Phase) (ms : List (WafModule W))
      → keep (selected phase true) ms ≡ structural_part (keep (selected phase false) ms)
  keep-selected phase [] = refl
  keep-selected phase (m ∷ ms) = ground (arith, keep-selected phase ms)

  schedule-structural :
      (ms : List (WafModule W)) (phases : List Phase)
      → schedule ms phases true ≡ structural_part (schedule ms phases false)
  schedule-structural ms [] = refl
  schedule-structural ms (phase ∷ phases) =
      rw (structural_part-append (keep (selected phase false) ms) (schedule ms phases false))
        (ap₂ (◌++◌) (keep-selected phase ms) (schedule-structural ms phases))

  ContentIdle-append :
      (a : RequestContext) (xs ys : List (WafModule W))
      → ContentIdle a xs
      → ContentIdle a ys
      → ContentIdle a (xs ++ ys)
  ContentIdle-append a [] ys h k = k
  ContentIdle-append a (x ∷ xs) ys (h, hs) k = (h, ContentIdle-append a xs ys hs k)

  ContentIdle-keep :
      (a : RequestContext) (f : WafModule W → Bool) (ms : List (WafModule W))
      → ContentIdle a ms
      → ContentIdle a (keep f ms)
  ContentIdle-keep a f [] h = tt
  ContentIdle-keep a f (m ∷ ms) (h, hs) = elim (Bool-cases (f m)) [
    | inl hit ↦ rw hit (h, ContentIdle-keep a f ms hs)
    | inr skip ↦ rw skip (ContentIdle-keep a f ms hs)
  ]

  ContentIdle-schedule :
      (a : RequestContext) (ms : List (WafModule W)) (phases : List Phase)
      → ContentIdle a ms
      → ContentIdle a (schedule ms phases false)
  ContentIdle-schedule a ms [] h = tt
  ContentIdle-schedule a ms (phase ∷ phases) h =
      ContentIdle-append a _ _ (ContentIdle-keep a (selected phase false) ms h)
        (ContentIdle-schedule a ms phases h)

  -- The fast path is equivalent to full inspection: if every content module would allow this
  -- request, whatever its score, and touches no shared state, then running only the structural
  -- modules gives the same verdict, the same context and the same shared state.
  pub run_inspection_gated-skip :
      (p : Pipeline W) (a : RequestContext) (w : W)
      → ContentIdle a p.modules
      → run_inspection_gated p false a w ≡ run_inspection_gated p true a w
  unfolding run_inspection_gated run_inspection run_phases run_phases_filtered
  run_inspection_gated-skip p a w idle = ap (conclude p.mode) (
      run_loop-run_list p inspection_phases true a w
      ∙ ap (λ (ms : List (WafModule W)). run_list p ms a w)
          (schedule-structural p.modules inspection_phases)
      ∙ sym (
          run_list-structural p a (schedule p.modules inspection_phases false) a w refl
            (ContentIdle-schedule a p.modules inspection_phases idle))
      ∙ sym (run_loop-run_list p inspection_phases false a w))
