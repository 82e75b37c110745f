-- ===== src/Normalizer/Percent/Fixpoint.antt =====
-- crates/waf-normalizer/src/url.rs: the shared budget of `percent_overlong_fixpoint`, and what is
-- left when the budget was enough.
use rust_waf.Common.{
  ℕ, zero, suc, ◌+◌, ◌≤◌, ◌<◌, Bool, false, ◌&&◌, ◌≡◌, refl, ap, inl, inr, arith, Bytes, bytes_eq,
  bytes_eq_iff, ◌==◌, Bool-cases, length,
}
use rust_waf.Normalizer.Percent.{
  still_percent_encoded, decode_pass, Decoded, fixpoint_from, percent_overlong_fixpoint,
}
use rust_waf.Normalizer.Percent.Shrink.{
  has_overlong, length-decode_pass, decode_pass-still, decode_pass-eq,
}

-- A fixed point of a pass, which decodes `+` in form encoding before the first change only.
abbrev IsFixed : Bool → Decoded → Type 0
IsFixed plus d = decode_pass (plus && d.passes == 0) d.bytes ≡ d.bytes

record Accounts (plus : Bool) (passes budget : ℕ) (s : Bytes) (d : Decoded) : Type 0 where
  spent : d.passes + d.budget ≡ passes + budget
  shorter : length d.bytes ≤ length s
  fixed : 0 < d.budget → IsFixed plus d

fixpoint_from-Accounts :
    (plus : Bool) (passes budget : ℕ) (s : Bytes)
    → Accounts plus passes budget s (fixpoint_from plus passes budget s)
unfolding fixpoint_from
fixpoint_from-Accounts plus passes zero s = record {
  spent = refl;
  shorter = omega arith;
  fixed = λ h. elim h [ ];
}
fixpoint_from-Accounts plus passes (suc budget) s =
    let next = decode_pass (plus && passes == 0) s in
    elim (Bool-cases (bytes_eq next s)) [
      | inl same ↦ rw same (record {
        spent = refl;
        shorter = omega arith;
        fixed = λ _. (bytes_eq_iff next s).0 same;
      })
      | inr changed ↦
          let r = fixpoint_from-Accounts plus (passes + 1) budget next in
          rw changed (record {
            spent = omega (arith, r.spent);
            shorter = omega (arith, r.shorter, length-decode_pass (plus && passes == 0) s);
            fixed = r.fixed;
          })
    ]

-- The fixed point spends one unit of the budget for each pass that changes something, and never
-- lengthens its input.
pub percent_overlong_fixpoint-budget :
    (raw : Bytes) (plus : Bool) (budget : ℕ)
    → let d = percent_overlong_fixpoint raw plus budget in
      (d.passes + d.budget ≡ budget) × (length d.bytes ≤ length raw)
unfolding percent_overlong_fixpoint
percent_overlong_fixpoint-budget raw plus budget =
    let a = fixpoint_from-Accounts plus 0 budget raw in (omega (arith, a.spent), a.shorter)

decode_pass-clean :
    (p : Bool) (s : Bytes)
    → decode_pass p s ≡ s
    → (still_percent_encoded s ≡ false) × (has_overlong s ≡ false)
decode_pass-clean p s e =
    let (no_escape, no_pair) = decode_pass-still p s (omega (arith, ap length e)) in
    (no_escape, rw (decode_pass-eq p s no_pair e) at no_pair)

-- If the fixed point leaves any of the budget, the bytes it returns hold no percent escape and no
-- overlong pair.
pub percent_overlong_fixpoint_lem :
    (raw : Bytes) (plus : Bool) (budget : ℕ)
    → 0 < (percent_overlong_fixpoint raw plus budget).budget
    → (still_percent_encoded (percent_overlong_fixpoint raw plus budget).bytes ≡ false)
      × (has_overlong (percent_overlong_fixpoint raw plus budget).bytes ≡ false)
unfolding percent_overlong_fixpoint
percent_overlong_fixpoint_lem raw plus budget left =
    let d = fixpoint_from plus 0 budget raw in
    let a = fixpoint_from-Accounts plus 0 budget raw in
    decode_pass-clean (plus && d.passes == 0) d.bytes (a.fixed left)
