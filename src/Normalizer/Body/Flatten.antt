-- ===== src/Normalizer/Body/Flatten.antt =====
-- crates/waf-normalizer/src/body.rs: `flatten_json`, limited in depth.
pub mod Depth
use rust_waf.Common.{
  ℕ, zero, suc, ◌+◌, ◌-◌, ◌*◌, ◌/◌, ◌%◌, ◌^◌, ◌≤◌, ◌<◌, min, max, Bool, true, false, not, ◌&&◌,
  ◌||◌, List, [], ◌∷◌, ◌++◌, map, append_assoc, append-nil, Option, none, some, ◌≡◌, refl, sym, ap,
  ◌∙◌, subst, ◌≢◌, ◌↔◌, ◌⊎◌, inl, inr, arith, Bytes, codes, bytes_eq, bytes_eq_iff, is_ascii_digit,
  is_ascii_alphabetic, is_ascii_alphanumeric, to_ascii_lowercase, eq_ignore_ascii_case, starts_with,
  ltb, leb, ◌==◌, within, if◌then◌else◌, ltb→lt, lt→ltb, ==_iff, Bool-cases, Option-cases, length,
  get_elem?, take, drop, any, all, keep, find, is_empty, length-append, take-append-drop,
  length-take, length-drop, length-keep-le, decimal, parse_uint, white_len, trim_start, trim_end,
  trim, split, split_once, strip_prefix, ends_with, cons_head,
}
use rust_waf.Core.Config.{LimitsConfig}
use rust_waf.Normalizer.Json.{Value, Elements, Members}
use rust_waf.Normalizer.Query.{NormalizationError, Result, ok, err}

abbrev pub Pairs : Type 0
Pairs = List (Bytes × Bytes)

-- `?` on a result.
infixl 5 ◌>>=◌
abbrev pub ◌>>=◌ {ℓ κ} : {A : Type ℓ} {B : Type κ} → Result A → (A → Result B) → Result B
ok a >>= f = f a
err e >>= f = err e

-- `format!("{prefix}.{k}")`, or the key alone at the top.
abbrev pub key_under : Bytes → Bytes → Bytes
key_under prefix k = if is_empty prefix then k else prefix ++ (b'.' ∷ k)

abbrev pub too_deep {ℓ} : {A : Type ℓ} → ℕ → ℕ → Result A → Result A
too_deep depth max_depth r =
    if ltb max_depth depth then err (NormalizationError.json_depth_exceeded max_depth) else r

unfoldable mutual
  pub flatten_json : Value → Bytes → Pairs → ℕ → ℕ → Result Pairs
  flatten_json (Value.object members) prefix out depth max_depth =
      let rest = flatten_members members prefix out depth max_depth in too_deep depth max_depth rest
  flatten_json (Value.array elements) prefix out depth max_depth =
      let rest = flatten_elements elements 0 prefix out depth max_depth in
      too_deep depth max_depth rest
  flatten_json (Value.string s) prefix out depth max_depth = ok (out ++ ((prefix, s) ∷ []))
  flatten_json Value.null prefix out depth max_depth = ok (out ++ ((prefix, codes "null") ∷ []))
  flatten_json (Value.bool true) prefix out depth max_depth =
      ok (out ++ ((prefix, codes "true") ∷ []))
  flatten_json (Value.bool false) prefix out depth max_depth =
      ok (out ++ ((prefix, codes "false") ∷ []))
  flatten_json (Value.number n) prefix out depth max_depth = ok (out ++ ((prefix, n) ∷ []))

  pub flatten_elements : Elements → ℕ → Bytes → Pairs → ℕ → ℕ → Result Pairs
  flatten_elements Elements.no_more i prefix out depth max_depth = ok out
  flatten_elements (Elements.element v rest) i prefix out depth max_depth =
      flatten_json v (key_under prefix (decimal i)) out (depth + 1) max_depth >>= λ out'.
      flatten_elements rest (i + 1) prefix out' depth max_depth

  pub flatten_members : Members → Bytes → Pairs → ℕ → ℕ → Result Pairs
  flatten_members Members.no_member prefix out depth max_depth = ok out
  flatten_members (Members.member k v rest) prefix out depth max_depth =
      flatten_json v (key_under prefix k) out (depth + 1) max_depth >>= λ out'.
      flatten_members rest prefix out' depth max_depth

unfoldable pub flatten_value : Value → LimitsConfig → Result Pairs
unfolding flatten_json
flatten_value value limits = flatten_json value [] [] 1 limits.max_json_depth
