-- ===== src/Pipeline/Phases.antt =====
-- crates/waf-pipeline/src/lib.rs: the proxy's two calls, before and after normalization.
use rust_waf.Common.{Bool, false, List, [], ◌∷◌, ◌++◌, none, some, ◌≡◌, sym, ap, ◌∙◌, ◌≢◌, arith}
use rust_waf.Core.Decision.{Phase, WafMode}
use rust_waf.Core.Context.{RequestContext}
use rust_waf.Pipeline.{
  Pipeline, PipelineVerdict, WafModule, Run, Report, run_loop, conclude, unless_broken,
  run_phases_filtered, run_phases, run, run_connection, run_inspection, inspection_phases,
}
use rust_waf.Pipeline.Schedule.{
  schedule, run_list, run_list-append, run_loop-run_list, schedule-append, unless_broken-cong,
}
use rust_waf.Pipeline.Audit.{run_loop-ne-allow, run_loop-none}

-- The second call is made if the first allows the request.
abbrev pub then_if_allowed : {W : Type 0} → Report W → (RequestContext → W → Report W) → Report W
then_if_allowed r next = elim r.verdict [
  | PipelineVerdict.allow ↦ next r.context r.world
  | PipelineVerdict.block _ _ ↦ r
  | PipelineVerdict.reject _ _ _ _ ↦ r
]

module _ {W : Type 0} (p : Pipeline W) where
  conclude-broken :
      (mode : WafMode) (r : Run W) (next : RequestContext → W → Run W)
      → r.block_verdict ≢ some PipelineVerdict.allow
      → (mode ≡ WafMode.detection_only → r.block_verdict ≡ none)
      → conclude mode (unless_broken r next)
        ≡ then_if_allowed (conclude mode r) (λ b w. conclude mode (next b w))
  unfolding conclude
  conclude-broken mode r next real observing = ground arith

  run_loop-append :
      (ps qs : List Phase) (only : Bool) (a : RequestContext) (w : W)
      → run_loop p (ps ++ qs) only a w ≡ unless_broken (run_loop p ps only a w) (run_loop p qs only)
  run_loop-append ps qs only a w =
      run_loop-run_list p (ps ++ qs) only a w
      ∙ ap (λ (ms : List (WafModule W)). run_list p ms a w) (schedule-append p.modules ps qs only)
      ∙ run_list-append p (schedule p.modules ps only) (schedule p.modules qs only) a w
      ∙ ap (λ (r : Run W). unless_broken r (run_list p (schedule p.modules qs only)))
          (sym (run_loop-run_list p ps only a w))
      ∙ unless_broken-cong (run_loop p ps only a w) (λ b w'. sym (run_loop-run_list p qs only b w'))

  -- Running the phases `ps` and then, if the request is allowed, the phases `qs` on the context
  -- and shared state that they leave, is running all of them.
  pub run_phases-append :
      (ps qs : List Phase) (a : RequestContext) (w : W)
      → run_phases p (ps ++ qs) a w ≡ then_if_allowed (run_phases p ps a w) (run_phases p qs)
  unfolding run_phases run_phases_filtered
  run_phases-append ps qs a w =
      ap (conclude p.mode) (run_loop-append ps qs false a w)
      ∙ conclude-broken p.mode (run_loop p ps false a w) (run_loop p qs false)
          (run_loop-ne-allow p ps false a w) (run_loop-none p ps false a w)

  -- The proxy's split run, `run_connection` before normalization and `run_inspection` after it if
  -- the request is allowed, is the whole-pipeline `run` when nothing changes the context between.
  pub run-split :
      (a : RequestContext) (w : W)
      → run p a w ≡ then_if_allowed (run_connection p a w) (run_inspection p)
  unfolding run run_connection run_inspection
  run-split a w = run_phases-append (Phase.connection ∷ []) inspection_phases a w
