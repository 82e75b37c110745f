-- ===== src/Pipeline/Schedule.antt =====
-- crates/waf-pipeline/src/lib.rs: the two loops with their labelled break, as one pass over the
-- modules that the phases select, in phase order and, in a phase, in the order of registration.
use rust_waf.Common.{
  Bool, List, [], ◌∷◌, ◌++◌, append_assoc, none, ◌≡◌, refl, sym, ap, ◌∙◌, inl, inr, arith,
  Bool-cases, keep,
}
use rust_waf.Core.Decision.{Phase}
use rust_waf.Core.Context.{RequestContext}
use rust_waf.Pipeline.{
  Pipeline, WafModule, Run, inspect_module, selected, run_modules, run_loop, unless_broken,
}
use mathlib.Core.Path.{fun_ext}

module _ {W : Type 0} where
  abbrev pub schedule : List (WafModule W) → List Phase → Bool → List (WafModule W)
  schedule ms [] only = []
  schedule ms (phase ∷ phases) only = keep (selected phase only) ms ++ schedule ms phases only

  -- One pass that stops at the first verdict.
  unfoldable pub run_list : Pipeline W → List (WafModule W) → RequestContext → W → Run W
  run_list p [] a w = record { context = a; world = w; block_verdict = none }
  run_list p (m ∷ ms) a w = unless_broken (inspect_module p m a w) (run_list p ms)

  broken_assoc :
      (r : Run W) (f g : RequestContext → W → Run W)
      → unless_broken (unless_broken r f) g ≡ unless_broken r (λ b w. unless_broken (f b w) g)
  broken_assoc r f g = ground arith

  pub unless_broken-cong :
      (r : Run W) {f g : RequestContext → W → Run W}
      → ((b : RequestContext) (w : W) → f b w ≡ g b w)
      → unless_broken r f ≡ unless_broken r g
  unless_broken-cong r h = ap (unless_broken r) (fun_ext λ b. fun_ext λ w. h b w)

  pub run_list-append :
      (p : Pipeline W) (xs ys : List (WafModule W)) (a : RequestContext) (w : W)
      → run_list p (xs ++ ys) a w ≡ unless_broken (run_list p xs a w) (run_list p ys)
  unfolding run_list
  run_list-append p [] ys a w = refl
  run_list-append p (x ∷ xs) ys a w =
      unless_broken-cong (inspect_module p x a w) (λ b w'. run_list-append p xs ys b w')
      ∙ sym (broken_assoc (inspect_module p x a w) (run_list p xs) (run_list p ys))

  run_modules-run_list :
      (p : Pipeline W) (phase : Phase) (only : Bool) (ms : List (WafModule W)) (a : RequestContext)
      (w : W)
      → run_modules p phase only ms a w ≡ run_list p (keep (selected phase only) ms) a w
  unfolding run_modules run_list
  run_modules-run_list p phase only [] a w = refl
  run_modules-run_list p phase only (m ∷ ms) a w = elim (Bool-cases (selected phase only m)) [
    | inr skip ↦ rw skip (run_modules-run_list p phase only ms a w)
    | inl hit ↦ rw hit (
        unless_broken-cong (inspect_module p m a w)
          (λ b w'. run_modules-run_list p phase only ms b w'))
  ]

  -- The nested loops over phases and modules, with `break 'pipeline`, are one pass over the
  -- schedule that stops at the first verdict.
  pub run_loop-run_list :
      (p : Pipeline W) (phases : List Phase) (only : Bool) (a : RequestContext) (w : W)
      → run_loop p phases only a w ≡ run_list p (schedule p.modules phases only) a w
  unfolding run_loop run_list
  run_loop-run_list p [] only a w = refl
  run_loop-run_list p (phase ∷ phases) only a w =
      ap (λ (r : Run W). unless_broken r (run_loop p phases only))
        (run_modules-run_list p phase only p.modules a w)
      ∙ unless_broken-cong (run_list p (keep (selected phase only) p.modules) a w)
          (λ b w'. run_loop-run_list p phases only b w')
      ∙ sym (
          run_list-append p (keep (selected phase only) p.modules) (schedule p.modules phases only)
            a w)

  pub schedule-append :
      (ms : List (WafModule W)) (ps qs : List Phase) (only : Bool)
      → schedule ms (ps ++ qs) only ≡ schedule ms ps only ++ schedule ms qs only
  schedule-append ms [] qs only = refl
  schedule-append ms (p ∷ ps) qs only =
      rw (schedule-append ms ps qs only) (sym (append_assoc _ (schedule ms ps only) _))
