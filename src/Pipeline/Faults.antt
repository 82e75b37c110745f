-- ===== src/Pipeline/Faults.antt =====
-- crates/waf-pipeline/src/lib.rs: a module that panics, under each `on_internal_error` policy.
use rust_waf.Common.{
  Bool, List, [], ◌∷◌, ◌++◌, Option, none, some, ◌≡◌, refl, sym, ap, ◌∙◌, subst, ◌≢◌, inl, inr,
  arith, Bytes, Bool-cases, keep,
}
use rust_waf.Core.Decision.{Decision, Phase, FailMode, WafMode}
use rust_waf.Core.Context.{RequestContext}
use rust_waf.Pipeline.{
  Pipeline, PipelineVerdict, WafModule, Outcome, Run, threshold_check, enforce, settle,
  apply_decision, inspect_module, selected, run_loop, conclude, unless_broken, run_phases_filtered,
}
use rust_waf.Pipeline.Schedule.{
  schedule, run_list, run_list-append, run_loop-run_list, unless_broken-cong,
}
use rust_waf.Pipeline.Audit.{run_loop-ne-allow}

abbrev pub with_modules : {W : Type 0} → Pipeline W → List (WafModule W) → Pipeline W
with_modules p ms = record p { modules = ms }

module _ {W : Type 0} where
  -- The module panics on every request and leaves the shared state alone.
  abbrev pub Panics : WafModule W → Type 0
  Panics m = (a : RequestContext) (w : W) → m.inspect a w ≡ (Outcome.panicked, w)

  apply_decision-with_modules :
      (p : Pipeline W) (ms : List (WafModule W)) (a : RequestContext) (module_id : Bytes)
      (d : Decision)
      → apply_decision (with_modules p ms) a module_id d ≡ apply_decision p a module_id d
  unfolding apply_decision threshold_check enforce
  apply_decision-with_modules p ms a module_id Decision.allow = refl
  apply_decision-with_modules p ms a module_id _ = refl

  settle-with_modules :
      (p : Pipeline W) (ms : List (WafModule W)) (module_id : Bytes) (o : Outcome)
      → settle (with_modules p ms) module_id o ≡ settle p module_id o
  unfolding settle
  settle-with_modules p ms module_id (Outcome.decided d) = refl
  settle-with_modules p ms module_id Outcome.panicked = refl

  inspect_module-with_modules :
      (p : Pipeline W) (ms : List (WafModule W)) (m : WafModule W) (a : RequestContext) (w : W)
      → inspect_module (with_modules p ms) m a w ≡ inspect_module p m a w
  unfolding inspect_module
  inspect_module-with_modules p ms m a w =
      let o = (m.inspect a w).0 in
      ap
        (λ (s : RequestContext × Option PipelineVerdict). record {
          context = s.0;
          world = (m.inspect a w).1;
          block_verdict = s.1;
        })
        (ap (apply_decision (with_modules p ms) a m.id) (settle-with_modules p ms m.id o)
          ∙ apply_decision-with_modules p ms a m.id (settle p m.id o))

  run_list-with_modules :
      (p : Pipeline W) (ms xs : List (WafModule W)) (a : RequestContext) (w : W)
      → run_list (with_modules p ms) xs a w ≡ run_list p xs a w
  unfolding run_list
  run_list-with_modules p ms [] a w = refl
  run_list-with_modules p ms (x ∷ xs) a w =
      ap (λ (r : Run W). unless_broken r (run_list (with_modules p ms) xs))
        (inspect_module-with_modules p ms x a w)
      ∙ unless_broken-cong (inspect_module p x a w) (λ b w'. run_list-with_modules p ms xs b w')

  keep-append :
      (f : WafModule W → Bool) (xs ys : List (WafModule W))
      → keep f (xs ++ ys) ≡ keep f xs ++ keep f ys
  keep-append f [] ys = refl
  keep-append f (x ∷ xs) ys = ground (arith, keep-append f xs ys)

  -- Under `fail_open` a panicking module is a module that is not there.
  panic_step :
      (p : Pipeline W) (m : WafModule W) (a : RequestContext) (w : W)
      → p.on_internal_error ≡ FailMode.fail_open
      → Panics m
      → inspect_module p m a w ≡ record { context = a; world = w; block_verdict = none }
  unfolding inspect_module settle apply_decision
  panic_step p m a w policy panics =
      ap
        (λ (o : Outcome × W).
          let s = apply_decision p a m.id (settle p m.id o.0) in
          record { context = s.0; world = o.1; block_verdict = s.1 })
        (panics a w)
      ∙ rw policy

  run_list-panic :
      (p : Pipeline W) (xs ys : List (WafModule W)) (m : WafModule W) (a : RequestContext) (w : W)
      → p.on_internal_error ≡ FailMode.fail_open
      → Panics m
      → run_list p (xs ++ (m ∷ ys)) a w ≡ run_list p (xs ++ ys) a w
  unfolding run_list
  run_list-panic p [] ys m a w policy panics =
      ap (λ (r : Run W). unless_broken r (run_list p ys)) (panic_step p m a w policy panics)
  run_list-panic p (x ∷ xs) ys m a w policy panics =
      unless_broken-cong (inspect_module p x a w)
        (λ b w'. run_list-panic p xs ys m b w' policy panics)

  run_list-keep-panic :
      (p : Pipeline W) (f : WafModule W → Bool) (xs ys : List (WafModule W)) (m : WafModule W)
      (a : RequestContext) (w : W)
      → p.on_internal_error ≡ FailMode.fail_open
      → Panics m
      → run_list p (keep f (xs ++ (m ∷ ys))) a w ≡ run_list p (keep f (xs ++ ys)) a w
  run_list-keep-panic p f xs ys m a w policy panics =
      rw (keep-append f xs (m ∷ ys), keep-append f xs ys)
        (elim (Bool-cases (f m)) [
          | inl hit ↦ rw hit (run_list-panic p (keep f xs) (keep f ys) m a w policy panics)
          | inr skip ↦ rw skip refl
        ])

  run_list-schedule-panic :
      (p : Pipeline W) (xs ys : List (WafModule W)) (m : WafModule W) (phases : List Phase)
      (only : Bool) (a : RequestContext) (w : W)
      → p.on_internal_error ≡ FailMode.fail_open
      → Panics m
      → run_list p (schedule (xs ++ (m ∷ ys)) phases only) a w
        ≡ run_list p (schedule (xs ++ ys) phases only) a w
  run_list-schedule-panic p xs ys m [] only a w policy panics = refl
  run_list-schedule-panic p xs ys m (phase ∷ phases) only a w policy panics =
      let f = selected phase only in
      let rest = schedule (xs ++ (m ∷ ys)) phases only in
      let rest' = schedule (xs ++ ys) phases only in
      run_list-append p (keep f (xs ++ (m ∷ ys))) rest a w
      ∙ ap (λ (r : Run W). unless_broken r (run_list p rest))
          (run_list-keep-panic p f xs ys m a w policy panics)
      ∙ unless_broken-cong (run_list p (keep f (xs ++ ys)) a w)
          (λ b w'. run_list-schedule-panic p xs ys m phases only b w' policy panics)
      ∙ sym (run_list-append p (keep f (xs ++ ys)) rest' a w)

  -- Under `fail_open`, a module that panics on every request and leaves the shared state alone is
  -- skipped: wherever it is registered, a run of any phases is that of the pipeline without it.
  pub run_phases_filtered-panic :
      (p : Pipeline W) (xs ys : List (WafModule W)) (m : WafModule W) (phases : List Phase)
      (only : Bool) (a : RequestContext) (w : W)
      → p.on_internal_error ≡ FailMode.fail_open
      → Panics m
      → run_phases_filtered (with_modules p (xs ++ (m ∷ ys))) phases only a w
        ≡ run_phases_filtered (with_modules p (xs ++ ys)) phases only a w
  unfolding run_phases_filtered
  run_phases_filtered-panic p xs ys m phases only a w policy panics = ap (conclude p.mode) (
      run_loop-run_list (with_modules p (xs ++ (m ∷ ys))) phases only a w
      ∙ run_list-with_modules p (xs ++ (m ∷ ys)) (schedule (xs ++ (m ∷ ys)) phases only) a w
      ∙ run_list-schedule-panic p xs ys m phases only a w policy panics
      ∙ sym (run_list-with_modules p (xs ++ ys) (schedule (xs ++ ys) phases only) a w)
      ∙ sym (run_loop-run_list (with_modules p (xs ++ ys)) phases only a w))

  panic_blocks :
      (p : Pipeline W) (m : WafModule W) (a : RequestContext) (w : W)
      → p.mode ≡ WafMode.blocking
      → p.on_internal_error ≡ FailMode.fail_closed
      → Panics m
      → (inspect_module p m a w).block_verdict ≢ none
  unfolding inspect_module settle apply_decision enforce
  panic_blocks p m a w mode policy panics h = ground (arith, panics a w)

  broken-ne-none :
      (b : RequestContext) (w : W) (v : Option PipelineVerdict) (next : RequestContext → W → Run W)
      → ((c : RequestContext) (w' : W) → (next c w').block_verdict ≢ none)
      → (unless_broken (record { context = b; world = w; block_verdict = v }) next).block_verdict
        ≢ none
  broken-ne-none b w none next h = h b w
  broken-ne-none b w (some v) next h = λ e. cc

  blocked-ne-none :
      (b : RequestContext) (w : W) (v : Option PipelineVerdict) (next : RequestContext → W → Run W)
      → v ≢ none
      → (unless_broken (record { context = b; world = w; block_verdict = v }) next).block_verdict
        ≢ none
  blocked-ne-none b w none next h = absurd (h refl)
  blocked-ne-none b w (some v) next h = λ e. cc

  run_list-ne-none :
      (p : Pipeline W) (xs ys : List (WafModule W)) (m : WafModule W)
      → p.mode ≡ WafMode.blocking
      → p.on_internal_error ≡ FailMode.fail_closed
      → Panics m
      → (a : RequestContext) (w : W) → (run_list p (xs ++ (m ∷ ys)) a w).block_verdict ≢ none
  unfolding run_list
  run_list-ne-none p [] ys m mode policy panics a w =
      let r = inspect_module p m a w in
      blocked-ne-none r.context r.world r.block_verdict (run_list p ys)
        (panic_blocks p m a w mode policy panics)
  run_list-ne-none p (x ∷ xs) ys m mode policy panics a w =
      let r = inspect_module p x a w in
      broken-ne-none r.context r.world r.block_verdict (run_list p (xs ++ (m ∷ ys)))
        (run_list-ne-none p xs ys m mode policy panics)

  conclude-ne-allow :
      (mode : WafMode) (r : Run W)
      → mode ≡ WafMode.blocking
      → r.block_verdict ≢ none
      → r.block_verdict ≢ some PipelineVerdict.allow
      → (conclude mode r).verdict ≢ PipelineVerdict.allow
  unfolding conclude
  conclude-ne-allow mode r e h k = ground arith

  -- Under `fail_closed`, a blocking run whose schedule holds a module that panics on every request
  -- never allows the request, whatever the other modules decide.
  pub run_phases_filtered-ne-allow :
      (p : Pipeline W) (xs ys : List (WafModule W)) (m : WafModule W) (phases : List Phase)
      (only : Bool) (a : RequestContext) (w : W)
      → p.mode ≡ WafMode.blocking
      → p.on_internal_error ≡ FailMode.fail_closed
      → Panics m
      → schedule p.modules phases only ≡ xs ++ (m ∷ ys)
      → (run_phases_filtered p phases only a w).verdict ≢ PipelineVerdict.allow
  unfolding run_phases_filtered
  run_phases_filtered-ne-allow p xs ys m phases only a w mode policy panics place =
      let same =
        run_loop-run_list p phases only a w
        ∙ ap (λ (ms : List (WafModule W)). run_list p ms a w) place in
      conclude-ne-allow p.mode (run_loop p phases only a w) mode
        (subst (λ (r : Run W). r.block_verdict ≢ none) (sym same)
          (run_list-ne-none p xs ys m mode policy panics a w))
        (run_loop-ne-allow p phases only a w)
