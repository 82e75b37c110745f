-- ===== src/Pipeline/Modes.antt =====
-- crates/waf-pipeline/src/lib.rs: a detection-only run, against a fold that never stops.
use rust_waf.Common.{Bool, List, [], ◌∷◌, Option, none, ◌≡◌, refl, ap, ◌∙◌, arith, Bytes}
use rust_waf.Core.Decision.{Decision, Phase, WafMode}
use rust_waf.Core.Context.{RequestContext}
use rust_waf.Pipeline.{
  Pipeline, PipelineVerdict, WafModule, threshold_check, enforce, settle, apply_decision,
  inspect_module, conclude, unless_broken, run_phases_filtered,
}
use rust_waf.Pipeline.Schedule.{schedule, run_list, run_loop-run_list}

module _ {W : Type 0} where
  -- Every module of the list inspects and contributes, whatever the ones before it decided.
  unfoldable pub observe : Pipeline W → List (WafModule W) → RequestContext → W → RequestContext × W
  observe p [] a w = (a, w)
  observe p (m ∷ ms) a w =
      let (outcome, w') = m.inspect a w in
      observe p ms (apply_decision p a m.id (settle p m.id outcome)).0 w'

  -- In detection-only mode no decision yields a verdict.
  apply_decision-none :
      (p : Pipeline W) (a : RequestContext) (module_id : Bytes) (d : Decision)
      → p.mode ≡ WafMode.detection_only
      → (apply_decision p a module_id d).1 ≡ none
  unfolding apply_decision threshold_check enforce
  apply_decision-none p a module_id Decision.allow mode = refl
  apply_decision-none p a module_id _ mode = ground arith

  run_list-observe :
      (p : Pipeline W) (ms : List (WafModule W)) (a : RequestContext) (w : W)
      → p.mode ≡ WafMode.detection_only
      → run_list p ms a w ≡ record {
        context = (observe p ms a w).0;
        world = (observe p ms a w).1;
        block_verdict = none;
      }
  unfolding run_list observe inspect_module
  run_list-observe p [] a w mode = refl
  run_list-observe p (m ∷ ms) a w mode =
      let d = settle p m.id (m.inspect a w).0 in
      let step = apply_decision p a m.id d in
      ap
        (λ (v : Option PipelineVerdict).
          unless_broken (record { context = step.0; world = (m.inspect a w).1; block_verdict = v })
            (run_list p ms))
        (apply_decision-none p a m.id d mode)
      ∙ run_list-observe p ms step.0 (m.inspect a w).1 mode

  -- A detection-only run of any phases allows the request, and every scheduled module runs: the
  -- context and the shared state are those of a pass over the schedule that never stops.
  pub run_phases_filtered-observe :
      (p : Pipeline W) (phases : List Phase) (only : Bool) (a : RequestContext) (w : W)
      → p.mode ≡ WafMode.detection_only
      → run_phases_filtered p phases only a w ≡ record {
        context = (observe p (schedule p.modules phases only) a w).0;
        world = (observe p (schedule p.modules phases only) a w).1;
        verdict = PipelineVerdict.allow;
      }
  unfolding run_phases_filtered conclude
  run_phases_filtered-observe p phases only a w mode =
      ap (conclude p.mode) (
        run_loop-run_list p phases only a w
        ∙ run_list-observe p (schedule p.modules phases only) a w mode)
      ∙ rw mode
