-- ===== src/Normalizer/Query.antt =====
-- crates/waf-normalizer/src/url.rs: `parse_query` and `parse_cookies_limited`.
--
-- The variants that `derive_variants` adds for inspection are the argument `derive_variants`, and
-- NFKC is `nfkc`.
pub mod Limits
use mathlib.Core.Option
use rust_waf.Common.{
  ℕ, zero, suc, ◌+◌, ◌-◌, ◌*◌, ◌/◌, ◌%◌, ◌^◌, ◌≤◌, ◌<◌, min, max, Bool, true, false, not, ◌&&◌,
  ◌||◌, List, [], ◌∷◌, ◌++◌, map, append_assoc, append-nil, Option, none, some, ◌≡◌, refl, sym, ap,
  ◌∙◌, subst, ◌≢◌, ◌↔◌, ◌⊎◌, inl, inr, arith, Bytes, codes, bytes_eq, bytes_eq_iff, is_ascii_digit,
  is_ascii_alphabetic, is_ascii_alphanumeric, to_ascii_lowercase, eq_ignore_ascii_case, starts_with,
  ltb, leb, ◌==◌, within, if◌then◌else◌, ltb→lt, lt→ltb, ==_iff, Bool-cases, Option-cases, length,
  get_elem?, take, drop, any, all, keep, find, is_empty, length-append, take-append-drop,
  length-take, length-drop, length-keep-le, decimal, parse_uint, white_len, trim_start, trim_end,
  trim, split, split_once, strip_prefix, ends_with, cons_head,
}
use rust_waf.Core.Config.{LimitsConfig}
use rust_waf.Normalizer.Percent.{canonicalize_value}

pub data NormalizationError : Type 0 where
  body_too_large : (limit actual : ℕ) → NormalizationError
  too_many_headers : (limit : ℕ) → NormalizationError
  header_too_large : (limit actual : ℕ) → NormalizationError
  too_many_params : (limit : ℕ) → NormalizationError
  too_many_cookies : (limit : ℕ) → NormalizationError
  json_depth_exceeded : (limit : ℕ) → NormalizationError
  json_parse_error : Bytes → NormalizationError
  multipart_error : Bytes → NormalizationError

pub data Result {ℓ} (A : Type ℓ) : Type ℓ where
  ok : A → Result A
  err : NormalizationError → Result A

-- The key and the value at the first `=`, or all of the pair and nothing.
unfoldable pub key_value : Bytes → Bytes × Bytes
key_value pair = elim (split_once b'=' pair) [ some kv ↦ kv | none ↦ (pair, []) ]

pub record ParsedQuery : Type 0 where
  pub params : List (Bytes × Bytes)
  pub double_enc : Bool
  pub derived : List Bytes

abbrev pub nothing : ParsedQuery
nothing = record { params = []; double_enc = false; derived = [] }

unfoldable pub cookie_pair : Bytes → Bytes × Bytes
cookie_pair pair = elim (split_once b'=' pair) [
  | some kv ↦ (trim kv.0, trim kv.1)
  | none ↦ (pair, [])
]

-- The loop over the `;`-separated pairs of a Cookie header, with the cookies so far.
unfoldable pub cookies_from : ℕ → List (Bytes × Bytes) → List Bytes → Result (List (Bytes × Bytes))
unfolding cookie_pair
cookies_from max_cookies cookies [] = ok cookies
cookies_from max_cookies cookies (raw ∷ pairs) =
    let pair = trim raw in
    let skip = cookies_from max_cookies cookies pairs in
    let take_it = cookies_from max_cookies (cookies ++ (cookie_pair pair ∷ [])) pairs in
    if is_empty pair
    then skip
    else if leb max_cookies (length cookies)
    then err (NormalizationError.too_many_cookies max_cookies)
    else take_it

unfoldable pub parse_cookies_limited : Bytes → ℕ → Result (List (Bytes × Bytes))
unfolding cookies_from
parse_cookies_limited cookie_header max_cookies =
    cookies_from max_cookies [] (split b';' cookie_header)

module _ (nfkc : Bytes → Bytes) (derive_variants : Bytes → List Bytes) where
  -- A decoded pair, appended to what the loop has.
  unfoldable pub add_pair : ParsedQuery → Bytes → ParsedQuery
  unfolding key_value
  add_pair q pair =
      let (k, v) = key_value pair in
      let (dk, de_k) = canonicalize_value nfkc k true in
      let (dv, de_v) = canonicalize_value nfkc v true in
      record {
        params = q.params ++ ((dk, dv) ∷ []);
        double_enc = q.double_enc || (de_k || de_v);
        derived = q.derived ++ derive_variants dv;
      }

  unfoldable pub query_from : LimitsConfig → ParsedQuery → List Bytes → Result ParsedQuery
  unfolding add_pair
  query_from limits q [] = ok q
  query_from limits q (pair ∷ pairs) =
      let skip = query_from limits q pairs in
      let take_it = query_from limits (add_pair q pair) pairs in
      if is_empty pair
      then skip
      else if leb limits.max_params (length q.params)
      then err (NormalizationError.too_many_params limits.max_params)
      else take_it

  unfoldable pub parse_query : Bytes → LimitsConfig → Result ParsedQuery
  unfolding query_from
  parse_query query limits = query_from limits nothing (split b'&' query)
