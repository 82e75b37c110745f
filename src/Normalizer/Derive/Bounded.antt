-- ===== src/Normalizer/Derive/Bounded.antt =====
-- crates/waf-normalizer/src/url.rs: how many variants a value can have.
use rust_waf.Common.{
  ℕ, zero, suc, ◌-◌, ◌≤◌, false, List, [], ◌∷◌, ◌++◌, ◌≡◌, refl, ap, inl, inr, arith, Bytes,
  Option-cases,
}
use rust_waf.Normalizer.Percent.{percent_overlong_fixpoint}
use rust_waf.Normalizer.Percent.Fixpoint.{percent_overlong_fixpoint-budget}
use rust_waf.Normalizer.Derive.{decode_candidate, canonical_of, expand_from}

module _ (nfkc : Bytes → Bytes) where
  -- More fuel than the budget changes nothing.
  pub expand_from-fuel :
      (f g : ℕ) (value : Bytes) (budget : ℕ) (out : List Bytes)
      → budget ≤ f
      → budget ≤ g
      → expand_from nfkc f value budget out ≡ expand_from nfkc g value budget out
  unfolding expand_from
  expand_from-fuel zero zero value budget out hf hg = refl
  expand_from-fuel zero (suc g) value zero out hf hg = refl
  expand_from-fuel (suc f) zero value zero out hf hg = refl
  expand_from-fuel zero (suc g) value (suc budget) out hf hg = elim hf [ ]
  expand_from-fuel (suc f) zero value (suc budget) out hf hg = elim hg [ ]
  expand_from-fuel (suc f) (suc g) value budget out hf hg =
      elim (Option-cases (decode_candidate value budget)) [
        | inl stop ↦ rw (stop, expand_from) refl
        | inr (decoded, go) ↦
            let (spent, shorter) = percent_overlong_fixpoint-budget decoded false (budget - 1) in
            let d = percent_overlong_fixpoint decoded false (budget - 1) in
            rw (go, expand_from)
              (ap (λ (l : List Bytes). l ++ (canonical_of nfkc d ∷ []))
                (expand_from-fuel f g (canonical_of nfkc d) d.budget out (omega arith)
                  (omega arith)))
      ]
