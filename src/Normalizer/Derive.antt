-- ===== src/Normalizer/Derive.antt =====
-- crates/waf-normalizer/src/url.rs: the variants of a value that only the inspection sees.
--
-- NFKC is the argument `nfkc`, and `ends_alphanumeric` says whether the last character of a text is
-- alphanumeric by Unicode's table.
pub mod Base64
pub mod Entities
pub mod Strips
pub mod Bounded
use rust_waf.Common.{
  ℕ, zero, suc, ◌+◌, ◌-◌, ◌*◌, ◌/◌, ◌%◌, ◌^◌, ◌≤◌, ◌<◌, min, max, Bool, true, false, not, ◌&&◌,
  ◌||◌, List, [], ◌∷◌, ◌++◌, map, append_assoc, append-nil, Option, none, some, ◌≡◌, refl, sym, ap,
  ◌∙◌, subst, ◌≢◌, ◌↔◌, ◌⊎◌, inl, inr, arith, Bytes, codes, bytes_eq, bytes_eq_iff, is_ascii_digit,
  is_ascii_alphabetic, is_ascii_alphanumeric, to_ascii_lowercase, eq_ignore_ascii_case, starts_with,
  ltb, leb, ◌==◌, within, if◌then◌else◌, ltb→lt, lt→ltb, ==_iff, Bool-cases, Option-cases, length,
  get_elem?, take, drop, any, all, keep, find, is_empty, length-append, take-append-drop,
  length-take, length-drop, length-keep-le, decimal, parse_uint, white_len, trim_start, trim_end,
  trim, split, split_once, strip_prefix, strip_prefix_iff, ends_with, cons_head,
}
use rust_waf.Common.Utf8.{from_utf8_lossy}
use rust_waf.Normalizer.Percent.{Decoded, percent_overlong_fixpoint, pipeline_cap}
use rust_waf.Normalizer.Derive.Base64.{is_base64_candidate, base64_decode, mostly_printable}
use rust_waf.Normalizer.Derive.Entities.{html_entity_decode_evasion}
use rust_waf.Normalizer.Derive.Strips.{
  strip_midtoken_tags, strip_midtoken_controls, strip_vbscript_concat,
}

abbrev pub base64_min_len : ℕ
base64_min_len = 12

abbrev pub if_printable : Option Bytes → Option Bytes
if_printable none = none
if_printable (some decoded) = if mostly_printable decoded then some decoded else none

-- What is worth a look behind a value, if the budget allows one.
unfoldable pub decode_candidate : Bytes → ℕ → Option Bytes
unfolding is_base64_candidate base64_decode mostly_printable
decode_candidate value budget =
    if budget == 0 || not (is_base64_candidate value base64_min_len)
    then none
    else if_printable (base64_decode value)

abbrev pub or_nothing : Option Bytes → List Bytes
or_nothing none = []
or_nothing (some s) = s ∷ []

module _ (nfkc : Bytes → Bytes) where
  unfoldable pub canonical_of : Decoded → Bytes
  canonical_of d = nfkc (from_utf8_lossy d.bytes)

  -- Each round spends a unit of the budget, so the budget is fuel enough.
  unfoldable pub expand_from : ℕ → Bytes → ℕ → List Bytes → List Bytes
  unfolding decode_candidate canonical_of percent_overlong_fixpoint
  expand_from zero value budget out = out
  expand_from (suc fuel) value budget out = elim (decode_candidate value budget) [
    | none ↦ out
    | some decoded ↦
        expand_from fuel (canonical_of (percent_overlong_fixpoint decoded false (budget - 1)))
          (percent_overlong_fixpoint decoded false (budget - 1)).budget out
        ++ (canonical_of (percent_overlong_fixpoint decoded false (budget - 1)) ∷ [])
  ]

  unfoldable pub expand_base64 : Bytes → ℕ → List Bytes → List Bytes
  unfolding expand_from
  expand_base64 value budget out = expand_from budget value budget out

  unfoldable pub base64_derived : Bytes → List Bytes
  unfolding expand_base64
  base64_derived value = expand_base64 value pipeline_cap []

  unfoldable pub json_leaf_derived : Bytes → List Bytes
  unfolding expand_base64 canonical_of html_entity_decode_evasion percent_overlong_fixpoint
  json_leaf_derived raw =
      let d = percent_overlong_fixpoint raw false pipeline_cap in
      let canonical = canonical_of d in
      expand_base64 canonical d.budget []
      ++ (or_nothing (html_entity_decode_evasion canonical)
          ++ (if bytes_eq canonical raw then [] else canonical ∷ []))

  module _ (ends_alphanumeric : Bytes → Bool) where
    -- The structural transforms of one text.
    unfoldable pub transformed : Bytes → List Bytes
    unfolding html_entity_decode_evasion strip_midtoken_tags strip_midtoken_controls
        strip_vbscript_concat
    transformed d =
        or_nothing (html_entity_decode_evasion d)
        ++ (or_nothing (strip_midtoken_tags ends_alphanumeric d)
            ++ (or_nothing (strip_midtoken_controls ends_alphanumeric d)
                ++ or_nothing (strip_vbscript_concat d)))

    abbrev pub composed : List Bytes → List Bytes
    composed [] = []
    composed (d ∷ ds) = transformed d ++ composed ds

    abbrev pub entity_variants : Option Bytes → List Bytes
    entity_variants none = []
    entity_variants (some ent) = base64_derived ent ++ (ent ∷ [])

    unfoldable pub derive_variants : Bytes → List Bytes
    unfolding transformed base64_derived
    derive_variants value =
        base64_derived value
        ++ (composed (base64_derived value)
            ++ (entity_variants (html_entity_decode_evasion value)
                ++ (or_nothing (strip_midtoken_tags ends_alphanumeric value)
                    ++ (or_nothing (strip_midtoken_controls ends_alphanumeric value)
                        ++ or_nothing (strip_vbscript_concat value)))))
