-- ===== src/Normalizer/Derive/Strips/Shorter.antt =====
-- crates/waf-normalizer/src/url.rs: a strip that changes a text makes it shorter.
use rust_waf.Common.{
  ℕ, zero, suc, ◌+◌, ◌≤◌, ◌<◌, Bool, true, false, [], ◌∷◌, ◌++◌, Option, none, some, ◌≡◌, ap, ◌⊎◌,
  inl, inr, arith, Bytes, ◌==◌, if◌then◌else◌, Option-cases, length, any, length-append,
}
use rust_waf.Normalizer.Derive.Strips.{
  strip_from, then_some, tag_at, strip_midtoken_tags, is_ctrl, controls_at, strip_midtoken_controls,
  joint_at, strip_vbscript_concat,
}

one : Bool → ℕ
one true = 1
one false = 0

-- Every byte is copied or dropped, and a byte is dropped when the loop notes a change.
one-le : (b : Bool) → one b ≤ 1
unfolding one
one-le true = omega arith
one-le false = omega arith

strip_from-length :
    (at : Bytes → ℕ → Bytes → Option ℕ) (skip : ℕ) (out : Bytes) (changed : Bool) (s : Bytes)
    → length (strip_from at skip out changed s).0 + one (strip_from at skip out changed s).1
      ≤ length out + one changed + length s
unfolding strip_from one
strip_from-length at skip out changed [] = omega arith
strip_from-length at (suc skip) out changed (c ∷ s) =
    omega (arith, strip_from-length at skip out changed s)
strip_from-length at zero out changed (c ∷ s) = elim (Option-cases (at out c s)) [
  | inl copied ↦
      rw (copied, strip_from)
        (omega (
          arith,
          strip_from-length at zero (out ++ (c ∷ [])) changed s,
          length-append {0} out (c ∷ []),
        ))
  | inr (n, found) ↦
      rw (found, strip_from) (omega (arith, strip_from-length at n out true s, one-le changed))
]

then_some-lt :
    (r : Bytes × Bool) (n : ℕ) (t : Bytes)
    → length r.0 + one r.1 ≤ n
    → then_some r ≡ some t
    → length t < n
unfolding one
then_some-lt (out, true) n t h e = let same : out ≡ t = cc in omega (arith, ap length same)
then_some-lt (out, false) n t h e = cc

found-lt :
    (at : Bytes → ℕ → Bytes → Option ℕ) (test : Bool) (s t : Bytes)
    → (if test then then_some (strip_from at 0 [] false s) else none) ≡ some t
    → length t < length s
unfolding one
found-lt at true s t e =
    then_some-lt (strip_from at 0 [] false s) (length s) t
      (omega (arith, strip_from-length at 0 [] false s)) e
found-lt at false s t e = cc

-- Whatever counts as alphanumeric, a variant that one of the three strips gives is shorter than the
-- text it is made from.
pub strip-lt :
    (ends_alphanumeric : Bytes → Bool) (s t : Bytes)
    → (strip_midtoken_tags ends_alphanumeric s ≡ some t)
      ⊎ ((strip_midtoken_controls ends_alphanumeric s ≡ some t)
          ⊎ (strip_vbscript_concat s ≡ some t))
    → length t < length s
unfolding strip_midtoken_tags strip_midtoken_controls strip_vbscript_concat
strip-lt ends s t (inl e) = found-lt (tag_at ends) (any (λ c. c == b'<') s) s t e
strip-lt ends s t (inr (inl e)) = found-lt (controls_at ends) (any is_ctrl s) s t e
strip-lt ends s t (inr (inr e)) = found-lt joint_at (any (λ c. c == b'&') s) s t e
