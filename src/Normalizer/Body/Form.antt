-- ===== src/Normalizer/Body/Form.antt =====
-- crates/waf-normalizer/src/body.rs: `parse_form_urlencoded`.
use rust_waf.Common.{
  true, List, [], ◌∷◌, ◌++◌, none, some, ◌≡◌, refl, ap, ◌∙◌, inl, inr, Bytes, leb, if◌then◌else◌,
  Bool-cases, length, is_empty, split,
}
use rust_waf.Core.Context.{ParsedBody}
use rust_waf.Common.Utf8.{from_utf8}
use rust_waf.Core.Config.{LimitsConfig}
use rust_waf.Normalizer.Percent.{canonicalize_value}
use rust_waf.Normalizer.Query.{
  NormalizationError, Result, ok, err, key_value, ParsedQuery, nothing, add_pair, query_from,
  parse_query,
}
use rust_waf.Normalizer.Body.Flatten.{Pairs, ◌>>=◌}

-- `from_utf8(..).unwrap_or("")`
abbrev pub text_or_empty : Bytes → Bytes
text_or_empty b = elim (from_utf8 b) [ some s ↦ s | none ↦ [] ]

module _ (nfkc : Bytes → Bytes) where
  unfoldable pub form_pair : Bytes → Bytes × Bytes
  unfolding key_value
  form_pair pair = (
    (canonicalize_value nfkc (key_value pair).0 true).0,
    (canonicalize_value nfkc (key_value pair).1 true).0,
  )

  unfoldable pub form_from : LimitsConfig → Pairs → List Bytes → Result Pairs
  unfolding form_pair
  form_from limits params [] = ok params
  form_from limits params (pair ∷ pairs) =
      let skip = form_from limits params pairs in
      let take_it = form_from limits (params ++ (form_pair pair ∷ [])) pairs in
      if is_empty pair
      then skip
      else if leb limits.max_params (length params)
      then err (NormalizationError.too_many_params limits.max_params)
      else take_it

  unfoldable pub parse_form_urlencoded : Bytes → LimitsConfig → Result ParsedBody
  unfolding form_from
  parse_form_urlencoded body limits =
      form_from limits [] (split b'&' (text_or_empty body)) >>= λ params.
      ok (ParsedBody.form_url_encoded params)

module _ (nfkc : Bytes → Bytes) (derive_variants : Bytes → List Bytes) (limits : LimitsConfig) where
  form_from-query_from :
      (pairs : List Bytes) (q : ParsedQuery)
      → form_from nfkc limits q.params pairs
        ≡ (query_from nfkc derive_variants limits q pairs >>= λ q'. ok q'.params)
  unfolding form_from query_from form_pair add_pair
  form_from-query_from [] q = refl
  form_from-query_from (pair ∷ pairs) q = elim (Bool-cases (is_empty pair)) [
    | inl skip ↦ rw skip (form_from-query_from pairs q)
    | inr named ↦ elim (Bool-cases (leb limits.max_params (length q.params))) [
      | inl full ↦ rw (named, full) refl
      | inr room ↦
          rw (named, room) (form_from-query_from pairs (add_pair nfkc derive_variants q pair))
    ]
  ]

  -- A form body and a query string of the same text give the same pairs, and meet the same limit.
  pub parse_form_urlencoded-parse_query :
      (body : Bytes)
      → parse_form_urlencoded nfkc body limits ≡ (
          parse_query nfkc derive_variants (text_or_empty body) limits >>= λ q.
          ok (ParsedBody.form_url_encoded q.params))
  unfolding parse_form_urlencoded parse_query
  parse_form_urlencoded-parse_query body =
      ap (λ (r : Result Pairs). r >>= λ params. ok (ParsedBody.form_url_encoded params))
        (form_from-query_from (split b'&' (text_or_empty body)) nothing)
      ∙ regroup (query_from nfkc derive_variants limits nothing (split b'&' (text_or_empty body)))
    where
      regroup :
          (r : Result ParsedQuery)
          → ((r >>= λ q. ok q.params) >>= λ params. ok (ParsedBody.form_url_encoded params))
            ≡ (r >>= λ q. ok (ParsedBody.form_url_encoded q.params))
      regroup (ok q) = refl
      regroup (err e) = refl
