-- ===== src/Detection/Crs/Transform/Panics.antt =====
-- crates/waf-detection/src/crs/transform.rs: a `%u` before a character that it cuts.
use rust_waf.Common.{
  ℕ, suc, Bool, true, not, List, [], ◌∷◌, ◌++◌, Option, none, ◌≡◌, refl, ap, arith, Bytes, leb,
  ◌==◌, within, length, all,
}
use mathlib.Core.Option
use rust_waf.Normalizer.Percent.{percent_decode}
use rust_waf.Detection.Crs.Ast.{Transform}
use rust_waf.Detection.Crs.Transform.{
  and_then, Escape, u_escape_at, u_escapes_from, decode_u_escapes, apply_one, apply,
}

abbrev pub no_percent : ℕ → Bool
no_percent c = not (c == b'%')

u_escape_at-verbatim : (c : ℕ) (s : Bytes) → no_percent c ≡ true → u_escape_at c s ≡ Escape.verbatim
unfolding u_escape_at
u_escape_at-verbatim c [] h = refl
u_escape_at-verbatim c (u ∷ s) h = ground (arith, h)

-- A `%u` and, behind any three bytes, a character that the fourth one begins and a continuation byte
-- goes on with.
abbrev pub cut_escape : ℕ → ℕ → ℕ → ℕ → ℕ → Bytes → Bytes
cut_escape x y z lead cont rest = b'%' ∷ b'u' ∷ x ∷ y ∷ z ∷ lead ∷ cont ∷ rest

u_escape_at-panic :
    (x y z lead cont : ℕ) (rest : Bytes)
    → within 0x80 0xBF cont ≡ true
    → u_escape_at b'%' (b'u' ∷ x ∷ y ∷ z ∷ lead ∷ cont ∷ rest) ≡ Escape.panic
unfolding u_escape_at
u_escape_at-panic x y z lead cont rest h =
    let long : leb 4 (suc (suc (suc (suc (suc (length rest)))))) ≡ true = ground arith in
    rw (long, h) refl

cut_escape-panic :
    (x y z lead cont : ℕ) (rest : Bytes)
    → within 0x80 0xBF cont ≡ true
    → u_escapes_from 0 (cut_escape x y z lead cont rest) ≡ none
unfolding u_escapes_from
cut_escape-panic x y z lead cont rest h = rw (at_percent, u_escapes_from) refl
  where
    at_percent : u_escape_at b'%' (b'u' ∷ x ∷ y ∷ z ∷ lead ∷ cont ∷ rest) ≡ Escape.panic
    at_percent = u_escape_at-panic x y z lead cont rest h

u_escapes_from-behind :
    (before t : Bytes)
    → all no_percent before ≡ true
    → u_escapes_from 0 t ≡ none
    → u_escapes_from 0 (before ++ t) ≡ none
unfolding u_escapes_from
u_escapes_from-behind [] t h fault = fault
u_escapes_from-behind (c ∷ s) t h fault =
    rw (u_escape_at-verbatim c (s ++ t) (ground (arith, h)), u_escapes_from)
      (ap (Option.map (λ (out : Bytes). c ∷ out))
        (u_escapes_from-behind s t (ground (arith, h)) fault))

-- A text with no `%` before it, a cut escape and anything behind panics under `t:urlDecodeUni`,
-- whatever transforms follow.
pub apply-cut_escape :
    (before rest : Bytes) (x y z lead cont : ℕ) (pipeline : List Transform)
    → all no_percent before ≡ true
    → within 0x80 0xBF cont ≡ true
    → apply (before ++ cut_escape x y z lead cont rest) (Transform.url_decode_uni ∷ pipeline) ≡ none
unfolding apply apply_one decode_u_escapes
apply-cut_escape before rest x y z lead cont pipeline h k =
    ap
      (λ (r : Option Bytes).
        and_then (Option.map (λ (d : Bytes). (percent_decode d true).0) r) λ s. apply s pipeline)
      (u_escapes_from-behind before (cut_escape x y z lead cont rest) h
        (cut_escape-panic x y z lead cont rest k))
