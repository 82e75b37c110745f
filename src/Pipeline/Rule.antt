-- ===== src/Pipeline/Rule.antt =====
-- crates/waf-pipeline/src/lib.rs: the induction over the loops of `run_phases_filtered`.
use rust_waf.Common.{Bool, List, [], ◌∷◌, Option, none, some, inl, inr, Bytes, Bool-cases}
use rust_waf.Core.Decision.{Decision, Phase}
use rust_waf.Core.Context.{RequestContext}
use rust_waf.Pipeline.{
  Pipeline, PipelineVerdict, WafModule, Run, settle, apply_decision, inspect_module, selected,
  run_modules, run_loop, unless_broken,
}

-- What holds of each decision, and composes while no verdict stands, holds of a whole run.
module _ {κ} {W : Type 0} (p : Pipeline W)
    (Q : RequestContext → Option PipelineVerdict → RequestContext → Type κ)
    (start : (a : RequestContext) → Q a none a)
    (join : (a b c : RequestContext) (v : Option PipelineVerdict) → Q a none b → Q b v c → Q a v c)
    (each : (a : RequestContext) (module_id : Bytes) (d : Decision)
      → Q a (apply_decision p a module_id d).1 (apply_decision p a module_id d).0) where
  abbrev Holds : RequestContext → Run W → Type κ
  Holds a r = Q a r.block_verdict r.context

  inspect_module-rule :
      (m : WafModule W) (a : RequestContext) (w : W) → Holds a (inspect_module p m a w)
  unfolding inspect_module
  inspect_module-rule m a w = each a m.id (settle p m.id (m.inspect a w).0)

  -- The case split on the verdict of the first part.
  join_broken :
      (a b : RequestContext) (w : W) (v : Option PipelineVerdict)
      (continue : RequestContext → W → Run W)
      → Q a v b
      → Holds b (continue b w)
      → Holds a (unless_broken (record { context = b; world = w; block_verdict = v }) continue)
  join_broken a b w none continue h rest = join a b _ _ h rest
  join_broken a b w (some v) continue h rest = h

  pub run_modules-rule :
      (phase : Phase) (only : Bool) (ms : List (WafModule W)) (a : RequestContext) (w : W)
      → Holds a (run_modules p phase only ms a w)
  unfolding run_modules
  run_modules-rule phase only [] a w = start a
  run_modules-rule phase only (m ∷ ms) a w = elim (Bool-cases (selected phase only m)) [
    | inr skip ↦ rw skip (run_modules-rule phase only ms a w)
    | inl hit ↦
        let r = inspect_module p m a w in
        rw hit (
          join_broken a r.context r.world r.block_verdict (run_modules p phase only ms)
            (inspect_module-rule m a w) (run_modules-rule phase only ms r.context r.world))
  ]

  pub run_loop-rule :
      (phases : List Phase) (only : Bool) (a : RequestContext) (w : W)
      → Holds a (run_loop p phases only a w)
  unfolding run_loop
  run_loop-rule [] only a w = start a
  run_loop-rule (phase ∷ phases) only a w =
      let r = run_modules p phase only p.modules a w in
      join_broken a r.context r.world r.block_verdict (run_loop p phases only)
        (run_modules-rule phase only p.modules a w) (run_loop-rule phases only r.context r.world)
