-- ===== src/Normalizer/Derive/Entities/Structural.antt =====
-- crates/waf-normalizer/src/url.rs: the decoder of entities makes no structural character.
use rust_waf.Common.{
  ℕ, zero, suc, ◌+◌, ◌≤◌, ◌<◌, Bool, true, false, ◌&&◌, [], ◌∷◌, ◌++◌, Option, none, some, ◌≡◌, ap,
  subst, inl, inr, arith, Bytes, codes, ltb, leb, ◌==◌, if◌then◌else◌, Bool-cases, Option-cases,
  length, any, split_once, strip_prefix,
}
use mathlib.Core.Option
use rust_waf.Common.Chars.{encode_utf8}
use rust_waf.Normalizer.Derive.Entities.{
  is_structural, and_then, char_of, unless_structural, in_window, entity_at, entities_from,
  html_entity_decode_evasion,
}

abbrev pub count : ℕ → Bytes → ℕ
count k [] = 0
count k (c ∷ s) = (if c == k then 1 else 0) + count k s

count-append : (k : ℕ) (s t : Bytes) → count k (s ++ t) ≡ count k s + count k t
count-append k [] t = omega arith
count-append k (c ∷ s) t = omega (arith, count-append k s t)

encode_utf8-count :
    (k ch : ℕ) → is_structural k ≡ true → is_structural ch ≡ false → count k (encode_utf8 ch) ≡ 0
encode_utf8-count k ch hk hc =
    let small : k < 128 = ground (arith, hk) in
    elim (Bool-cases (ltb ch 0x80)) [
      | inl ascii ↦ rw ascii (ground (arith, hk, hc))
      | inr two ↦ rw two (elim (Bool-cases (ltb ch 0x800)) [
        | inl e ↦ rw e (ground (arith, small))
        | inr three ↦ rw three (elim (Bool-cases (ltb ch 0x10000)) [
          | inl e ↦ rw e (ground (arith, small))
          | inr four ↦ rw four (ground (arith, small))
        ])
      ])
    ]

-- What an entity decodes to is not structural.
abbrev Harmless : Option (ℕ × ℕ) → Type 0
Harmless none = 0 ≤ 0
Harmless (some (ch, n)) = is_structural ch ≡ false

unless_structural-Harmless :
    (n c : ℕ) → Harmless (Option.map (λ (c' : ℕ). (c', n)) (unless_structural c))
unless_structural-Harmless n c = elim (Bool-cases (is_structural c)) [
  | inl structural ↦ rw (structural, Harmless) (omega arith)
  | inr other ↦ rw (other, Harmless) other
]

in_window-Harmless : (r : Option (Bytes × Bytes)) → Harmless (in_window r)
in_window-Harmless none = omega arith
in_window-Harmless (some (ent, rest)) =
    by_length (leb (length ent) 31) (char_of ent (strip_prefix (codes "#") ent))
  where
    by_length :
        (short : Bool) (c : Option ℕ)
        → Harmless (
            if short
            then Option.map (λ (c' : ℕ). (c', length ent + 1)) (and_then c unless_structural)
            else none)
    by_length false c = omega arith
    by_length true none = omega arith
    by_length true (some c) = unless_structural-Harmless (length ent + 1) c

entity_at-Harmless : (c : ℕ) (s : Bytes) → Harmless (entity_at c s)
unfolding entity_at
entity_at-Harmless c s = by_test (c == b'&')
  where
    by_test : (amp : Bool) → Harmless (if amp then in_window (split_once b';' s) else none)
    by_test true = in_window-Harmless (split_once b';' s)
    by_test false = omega arith

entities_from-count :
    (k : ℕ)
    → is_structural k ≡ true
    → (skip : ℕ) (s : Bytes) → count k (entities_from skip s).0 ≤ count k s
unfolding entities_from
entities_from-count k hk skip [] = omega arith
entities_from-count k hk (suc skip) (c ∷ s) = omega (arith, entities_from-count k hk skip s)
entities_from-count k hk zero (c ∷ s) = elim (Option-cases (entity_at c s)) [
  | inl kept ↦ rw (kept, entities_from) (omega (arith, entities_from-count k hk zero s))
  | inr ((ch, n), found) ↦
      rw (found, entities_from)
        (omega (
          arith,
          count-append k (encode_utf8 ch) (entities_from n s).0,
          encode_utf8-count k ch hk (subst Harmless found (entity_at-Harmless c s)),
          entities_from-count k hk n s,
        ))
]

-- The decoded variant has no more of any of the five structural characters than the text itself.
pub html_entity_decode_evasion-count :
    (k : ℕ) (s t : Bytes)
    → is_structural k ≡ true
    → html_entity_decode_evasion s ≡ some t
    → count k t ≤ count k s
unfolding html_entity_decode_evasion
html_entity_decode_evasion-count k s t hk e =
    by_test (any (λ c. c == b'&') s && (entities_from 0 s).1) e
  where
    by_test :
        (changed : Bool)
        → (if changed then some (entities_from 0 s).0 else none) ≡ some t
        → count k t ≤ count k s
    by_test true same =
        let out : (entities_from 0 s).0 ≡ t = cc in
        omega (arith, ap (count k) out, entities_from-count k hk 0 s)
    by_test false same = cc
