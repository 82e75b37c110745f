-- ===== src/Tests/Verdicts.antt =====
-- crates/waf-pipeline/src/lib.rs: runs of small pipelines.
use rust_waf.Common.{
  ℕ, ◌<◌, true, false, [], ◌∷◌, ◌++◌, some, ◌≡◌, refl, ◌≢◌, ◌⊎◌, arith, codes, decimal,
}
use rust_waf.Core.Decision.{Phase, FailMode, WafMode}
use rust_waf.Core.Context.{RequestContext}
use rust_waf.Pipeline.{
  Pipeline, PipelineVerdict, run_loop, run_phases_filtered, run_phases, run, run_inspection_gated,
  phase_order,
}
use rust_waf.Pipeline.Schedule.{schedule, run_list, run_loop-run_list}
use rust_waf.Pipeline.Audit.{Audited, run_phases_filtered-Audited, run_phases_filtered_allow}
use rust_waf.Pipeline.Modes.{observe, run_phases_filtered-observe}
use rust_waf.Pipeline.Phases.{then_if_allowed, run_phases-append}
use rust_waf.Pipeline.Faults.{with_modules, run_phases_filtered-panic, run_phases_filtered-ne-allow}
use rust_waf.Pipeline.Gate.{run_inspection_gated-skip}
use rust_waf.Tests.Requests.{request, scorer, refuser, allower, breaker, pipeline}

abbrev two_scorers : Pipeline ℕ
two_scorers = pipeline (scorer ∷ scorer ∷ refuser ∷ []) WafMode.blocking FailMode.fail_open

abbrev watching : Pipeline ℕ
watching = pipeline (scorer ∷ scorer ∷ refuser ∷ []) WafMode.detection_only FailMode.fail_open

abbrev guarded : Pipeline ℕ
guarded = pipeline (allower ∷ refuser ∷ []) WafMode.blocking FailMode.fail_open

abbrev closed : Pipeline ℕ
closed = pipeline (scorer ∷ breaker ∷ []) WafMode.blocking FailMode.fail_closed

-- The second scorer reaches the threshold of ten, and the third module is not run.
threshold_stops :
    (run two_scorers request 0).verdict
    ≡ PipelineVerdict.block (codes "r-5") (codes "anomaly score 10 >= threshold 10")
unfolding run decimal
threshold_stops = refl

detection_only_allows : (run watching request 0).verdict ≡ PipelineVerdict.allow
unfolding run
detection_only_allows = refl

gate_keeps_structural :
    (run_inspection_gated guarded false request 0).verdict
    ≡ PipelineVerdict.reject (codes "no") (codes "refused") 429 (some 1)
unfolding run_inspection_gated
gate_keeps_structural = refl

run_loop-run_list_example :
    run_loop two_scorers phase_order false request 0
    ≡ run_list two_scorers (schedule two_scorers.modules phase_order false) request 0
run_loop-run_list_example = run_loop-run_list two_scorers phase_order false request 0

run_phases_filtered-Audited_example :
    Audited request (run_phases_filtered two_scorers phase_order false request 0).context
run_phases_filtered-Audited_example =
    run_phases_filtered-Audited two_scorers phase_order false request 0 (omega arith)

abbrev one_scorer : Pipeline ℕ
one_scorer = with_modules two_scorers (scorer ∷ [])

one_scorer_allows :
    (run_phases_filtered one_scorer phase_order false request 0).verdict ≡ PipelineVerdict.allow
unfolding run_phases_filtered
one_scorer_allows = refl

abbrev after_one : RequestContext
after_one = (run_phases_filtered one_scorer phase_order false request 0).context

run_phases_filtered_allow_example :
    ((after_one.score_contributions ≡ request.score_contributions)
      × (after_one.score ≡ request.score))
    ⊎ (after_one.score < two_scorers.block_threshold)
run_phases_filtered_allow_example =
    run_phases_filtered_allow one_scorer phase_order false request 0 refl one_scorer_allows

run_phases_filtered-observe_example :
    run_phases_filtered watching phase_order false request 0 ≡ record {
      context = (observe watching (schedule watching.modules phase_order false) request 0).0;
      world = (observe watching (schedule watching.modules phase_order false) request 0).1;
      verdict = PipelineVerdict.allow;
    }
run_phases_filtered-observe_example =
    run_phases_filtered-observe watching phase_order false request 0 refl

run_phases-append_example :
    run_phases two_scorers ((Phase.headers ∷ []) ++ (Phase.body ∷ [])) request 0
    ≡ then_if_allowed
        (run_phases two_scorers (Phase.headers ∷ []) request 0)
        (run_phases two_scorers (Phase.body ∷ []))
run_phases-append_example =
    run_phases-append two_scorers (Phase.headers ∷ []) (Phase.body ∷ []) request 0

run_phases_filtered-panic_example :
    run_phases_filtered
      (with_modules two_scorers ((scorer ∷ []) ++ (breaker ∷ (refuser ∷ []))))
      phase_order
      false
      request
      0
    ≡ run_phases_filtered
        (with_modules two_scorers ((scorer ∷ []) ++ (refuser ∷ [])))
        phase_order
        false
        request
        0
run_phases_filtered-panic_example =
    run_phases_filtered-panic two_scorers (scorer ∷ []) (refuser ∷ []) breaker phase_order false
      request 0 refl (λ a w. refl)

run_phases_filtered-ne-allow_example :
    (run_phases_filtered closed phase_order false request 0).verdict ≢ PipelineVerdict.allow
run_phases_filtered-ne-allow_example =
    run_phases_filtered-ne-allow closed (scorer ∷ []) [] breaker phase_order false request 0 refl
      refl (λ a w. refl) refl

run_inspection_gated-skip_example :
    run_inspection_gated guarded false request 0 ≡ run_inspection_gated guarded true request 0
run_inspection_gated-skip_example =
    run_inspection_gated-skip guarded request 0 ((λ e s cs w. refl), ((λ e. cc), tt))
