-- ===== src/Pipeline.antt =====
-- crates/waf-pipeline/src/lib.rs: the phased run of the modules, and the anomaly score.
--
-- `W` is what the modules share behind `&self` (the rate limiter's buckets, say): `inspect` gets it
-- and returns it. A panic that `catch_unwind` catches is the outcome `panicked`. The log lines of
-- `tracing` are left out. `ctx.score += points` is the wrapping addition of a release build.
mod Rule
pub mod Schedule
pub mod Audit
pub mod Modes
pub mod Phases
pub mod Faults
pub mod Gate
pub mod Overflow
use rust_waf.Common.{
  ℕ, ◌+◌, ◌%◌, ◌^◌, Bool, true, false, not, ◌&&◌, ◌||◌, List, [], ◌∷◌, ◌++◌, Option, none, some,
  Bytes, codes, ltb, if◌then◌else◌, decimal,
}
use rust_waf.Core.Decision.{
  Severity, ScoreItem, Decision, Phase, FailMode, WafMode, SeverityScores, points_for,
}
use rust_waf.Core.Decision.Phase.{connection, request_line, headers, body, response}
use rust_waf.Core.Context.{RequestContext, ScoreContribution}

pub data PipelineVerdict : Type 0 where
  allow : PipelineVerdict
  block : (rule_id reason : Bytes) → PipelineVerdict
  reject : (rule_id reason : Bytes) (status : ℕ) (retry_after : Option ℕ) → PipelineVerdict

pub data Outcome : Type 0 where
  decided : Decision → Outcome
  panicked : Outcome

pub record WafModule (W : Type 0) : Type 0 where
  pub id : Bytes
  pub phase : Phase
  pub structural : Bool
  pub inspect : RequestContext → W → Outcome × W

pub record Pipeline (W : Type 0) : Type 0 where
  pub modules : List (WafModule W)
  pub block_threshold : ℕ
  pub mode : WafMode
  pub severity_scores : SeverityScores
  pub on_internal_error : FailMode

-- The loop's variables.
pub record Run (W : Type 0) : Type 0 where
  pub context : RequestContext
  pub world : W
  pub block_verdict : Option PipelineVerdict

-- The verdict of a run, with the context and the shared state that it leaves.
pub record Report (W : Type 0) : Type 0 where
  pub context : RequestContext
  pub world : W
  pub verdict : PipelineVerdict

abbrev pub phase_order : List Phase
phase_order = connection ∷ request_line ∷ headers ∷ body ∷ response ∷ []

abbrev pub inspection_phases : List Phase
inspection_phases = request_line ∷ headers ∷ body ∷ response ∷ []

abbrev pub same_phase : Phase → Phase → Bool
same_phase connection connection = true
same_phase request_line request_line = true
same_phase headers headers = true
same_phase body body = true
same_phase response response = true
same_phase _ _ = false

abbrev pub u32_add : ℕ → ℕ → ℕ
u32_add a b = (a + b) % 2 ^ 32

unfoldable pub accumulate : RequestContext → Bytes → Bytes → Option Severity → ℕ → RequestContext
accumulate ctx module_id rule_id severity points = record ctx {
  score = u32_add ctx.score points;
  score_contributions =
      ctx.score_contributions
      ++ record { module_id = module_id; rule_id = rule_id; severity = severity; points = points }
        ∷ [];
}

-- The loop over the items of `Decision::Scores`.
unfoldable pub accumulate_items :
    SeverityScores → RequestContext → Bytes → List ScoreItem → RequestContext
unfolding accumulate points_for
accumulate_items weights ctx module_id [] = ctx
accumulate_items weights ctx module_id (item ∷ items) =
    accumulate_items weights
      (accumulate ctx module_id item.rule_id (some item.severity)
        (points_for weights item.severity))
      module_id items

abbrev pub last_rule_id : Bytes → List ScoreItem → Bytes
last_rule_id last [] = last
last_rule_id last (item ∷ items) = last_rule_id item.rule_id items

module _ {W : Type 0} where
  unfoldable pub threshold_check : Pipeline W → RequestContext → Bytes → Option PipelineVerdict
  threshold_check p ctx rule_id = if ltb ctx.score p.block_threshold then none else elim p.mode [
    | WafMode.blocking ↦ some (
        PipelineVerdict.block rule_id (
          codes "anomaly score "
          ++ (decimal ctx.score ++ (codes " >= threshold " ++ decimal p.block_threshold))))
    | WafMode.detection_only ↦ none
  ]

  -- `on_internal_error` turns a panic into a decision.
  unfoldable pub settle : Pipeline W → Bytes → Outcome → Decision
  settle p module_id (Outcome.decided d) = d
  settle p module_id Outcome.panicked = elim p.on_internal_error [
    | FailMode.fail_open ↦ Decision.allow
    | FailMode.fail_closed ↦
        Decision.block (codes "internal-error")
          (codes "module " ++ (module_id ++ codes " panicked"))
  ]

  -- The verdict is taken in blocking mode only.
  unfoldable pub enforce : Pipeline W → PipelineVerdict → Option PipelineVerdict
  enforce p v = elim p.mode [ WafMode.blocking ↦ some v | WafMode.detection_only ↦ none ]

  -- The `match decision` of the loop: the context, and the verdict that breaks out of it.
  unfoldable pub apply_decision :
      Pipeline W → RequestContext → Bytes → Decision → RequestContext × Option PipelineVerdict
  unfolding accumulate accumulate_items threshold_check enforce
  apply_decision p ctx module_id Decision.allow = (ctx, none)
  apply_decision p ctx module_id (Decision.monitor rule_id) = (ctx, none)
  apply_decision p ctx module_id (Decision.score rule_id points) =
      let ctx' = accumulate ctx module_id rule_id none points in
      (ctx', threshold_check p ctx' rule_id)
  apply_decision p ctx module_id (Decision.scores items) =
      let ctx' = accumulate_items p.severity_scores ctx module_id items in
      (ctx', threshold_check p ctx' (last_rule_id [] items))
  apply_decision p ctx module_id (Decision.block rule_id reason) =
      (ctx, enforce p (PipelineVerdict.block rule_id reason))
  apply_decision p ctx module_id (Decision.reject rule_id reason status retry_after) =
      (ctx, enforce p (PipelineVerdict.reject rule_id reason status retry_after))

  unfoldable pub inspect_module : Pipeline W → WafModule W → RequestContext → W → Run W
  unfolding settle apply_decision
  inspect_module p m ctx w =
      let (outcome, w') = m.inspect ctx w in
      let (ctx', verdict) = apply_decision p ctx m.id (settle p m.id outcome) in
      record { context = ctx'; world = w'; block_verdict = verdict }

  abbrev pub selected : Phase → Bool → WafModule W → Bool
  selected phase structural_only m =
      same_phase m.phase phase && (not structural_only || m.structural)

  -- `break 'pipeline` leaves both loops: what is left is run only while no verdict stands.
  abbrev pub unless_broken : Run W → (RequestContext → W → Run W) → Run W
  unless_broken r continue = elim r.block_verdict [ none ↦ continue r.context r.world | some v ↦ r ]

  unfoldable pub run_modules :
      Pipeline W → Phase → Bool → List (WafModule W) → RequestContext → W → Run W
  unfolding inspect_module
  run_modules p phase only [] ctx w = record { context = ctx; world = w; block_verdict = none }
  run_modules p phase only (m ∷ ms) ctx w =
      let rest = run_modules p phase only ms in
      if selected phase only m then unless_broken (inspect_module p m ctx w) rest else rest ctx w

  unfoldable pub run_loop : Pipeline W → List Phase → Bool → RequestContext → W → Run W
  unfolding run_modules
  run_loop p [] only ctx w = record { context = ctx; world = w; block_verdict = none }
  run_loop p (phase ∷ phases) only ctx w =
      unless_broken (run_modules p phase only p.modules ctx w) (run_loop p phases only)

  unfoldable pub conclude : WafMode → Run W → Report W
  conclude mode r = record {
    context = r.context;
    world = r.world;
    verdict = elim mode [
      | WafMode.blocking ↦ elim r.block_verdict [ none ↦ PipelineVerdict.allow | some v ↦ v ]
      | WafMode.detection_only ↦ PipelineVerdict.allow
    ];
  }

  unfoldable pub run_phases_filtered :
      Pipeline W → List Phase → Bool → RequestContext → W → Report W
  unfolding run_loop conclude
  run_phases_filtered p phases only ctx w = conclude p.mode (run_loop p phases only ctx w)

  unfoldable pub run_phases : Pipeline W → List Phase → RequestContext → W → Report W
  unfolding run_phases_filtered
  run_phases p phases = run_phases_filtered p phases false

  unfoldable pub run : Pipeline W → RequestContext → W → Report W
  unfolding run_phases
  run p = run_phases p phase_order

  unfoldable pub run_connection : Pipeline W → RequestContext → W → Report W
  unfolding run_phases
  run_connection p = run_phases p (connection ∷ [])

  unfoldable pub run_inspection : Pipeline W → RequestContext → W → Report W
  unfolding run_phases
  run_inspection p = run_phases p inspection_phases

  unfoldable pub run_inspection_gated : Pipeline W → Bool → RequestContext → W → Report W
  unfolding run_inspection run_phases_filtered
  run_inspection_gated p inspect ctx w =
      if inspect then run_inspection p ctx w else run_phases_filtered p inspection_phases true ctx w
