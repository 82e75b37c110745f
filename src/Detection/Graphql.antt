-- ===== src/Detection/Graphql.antt =====
-- crates/waf-detection/src/graphql.rs: the caps on the shape of GraphQL operations.
use rust_waf.Common.{
  ℕ, zero, suc, ◌+◌, ◌-◌, ◌*◌, ◌/◌, ◌%◌, ◌^◌, ◌≤◌, ◌<◌, min, max, Bool, true, false, not, ◌&&◌,
  ◌||◌, List, [], ◌∷◌, ◌++◌, map, append_assoc, append-nil, Option, none, some, ◌≡◌, refl, sym, ap,
  ◌∙◌, subst, ◌≢◌, ◌↔◌, ◌⊎◌, inl, inr, arith, Bytes, codes, bytes_eq, bytes_eq_iff, is_ascii_digit,
  is_ascii_alphabetic, is_ascii_alphanumeric, to_ascii_lowercase, eq_ignore_ascii_case, starts_with,
  ltb, leb, ◌==◌, within, if◌then◌else◌, ltb→lt, lt→ltb, ==_iff, Bool-cases, Option-cases, length,
  get_elem?, take, drop, any, all, keep, find, is_empty, length-append, take-append-drop,
  length-take, length-drop, length-keep-le, decimal, parse_uint, white_len, trim_start, trim_end,
  trim, split, split_once, strip_prefix, ends_with, cons_head,
}
use rust_waf.Core.Decision.{
  Severity, ScoreItem, Decision, Phase, FailMode, WafMode, SeverityScores, points_for,
}
use rust_waf.Core.Context.{
  IpAddr, MultipartField, ParsedBody, Normalized, RequestContext, ScoreContribution,
}
use mathlib.Core.Option
use rust_waf.Common.Utf8.{from_utf8}
use rust_waf.Core.Config.{GraphqlConfig}
use rust_waf.Normalizer.Graphql.{GraphqlStats, graphql_lex}
use rust_waf.Normalizer.Json.{Value}
use rust_waf.Normalizer.Graphql.Envelope.{unwrap_query_envelope}
pub mod Caps

unfoldable pub content_type : RequestContext → Bytes
content_type ctx =
    elim (find (λ (h : Bytes × Bytes). bytes_eq h.0 (codes "content-type"))
      ctx.normalized.headers) [ none ↦ [] | some h ↦ h.1 ]

-- `query`, or `<index>.query`.
unfoldable pub is_graphql_query_key : Bytes → Bool
is_graphql_query_key k =
    let prefix = take (length k - 6) k in
    bytes_eq k (codes "query")
    || (ends_with (codes ".query") k && (not (is_empty prefix) && all is_ascii_digit prefix))

unfoldable pub reject : Bytes → Decision
reject reason = Decision.reject (codes "graphql") reason 400 none

abbrev pub values_where : (Bytes → Bool) → List (Bytes × Bytes) → List Bytes
values_where p pairs = map (λ (h : Bytes × Bytes). h.1) (keep (λ (h : Bytes × Bytes). p h.0) pairs)

unfoldable pub raw_document : ParsedBody → List Bytes
raw_document (ParsedBody.raw b) = elim (from_utf8 b) [ none ↦ [] | some s ↦ s ∷ [] ]
raw_document _ = []

unfoldable pub json_documents : ParsedBody → List Bytes
unfolding is_graphql_query_key
json_documents (ParsedBody.json_flattened pairs) = values_where is_graphql_query_key pairs
json_documents _ = []

unfoldable pub get_documents : RequestContext → List Bytes
get_documents ctx =
    if eq_ignore_ascii_case ctx.method (codes "GET")
    then values_where (λ k. bytes_eq k (codes "query")) ctx.normalized.query_params
    else []

-- The operations of the request before their envelopes are unwrapped.
unfoldable pub carriers : GraphqlConfig → RequestContext → List Bytes
unfolding content_type raw_document json_documents get_documents
carriers cfg ctx =
    if starts_with (codes "application/graphql") (trim_start (content_type ctx))
    then raw_document ctx.normalized.body
    else if any (λ p. eq_ignore_ascii_case ctx.normalized.path p) cfg.paths
    then json_documents ctx.normalized.body ++ get_documents ctx
    else []

-- The first cap that the shape exceeds.
unfoldable pub exceeded : GraphqlConfig → GraphqlStats → Option Decision
unfolding reject
exceeded cfg st =
    if ltb cfg.max_depth st.max_depth
    then some (reject (codes "graphql query nesting depth exceeds limit"))
    else if ltb cfg.max_aliases st.aliases
    then some (reject (codes "graphql alias count exceeds limit"))
    else if ltb cfg.max_fields st.fields
    then some (reject (codes "graphql field/complexity exceeds limit"))
    else if ltb cfg.max_directives st.directives
    then some (reject (codes "graphql directive count exceeds limit"))
    else if cfg.block_introspection && st.has_introspection
    then some (
        Decision.block (codes "graphql-introspection")
          (codes "graphql schema introspection is blocked"))
    else none

abbrev pub first_of : Option Decision → Option Decision → Option Decision
first_of none rest = rest
first_of (some d) rest = some d

-- One operation's shape and then the rest; `none` is a lexer that does not end.
abbrev pub judge_shape : GraphqlConfig → Option Decision → Option GraphqlStats → Option Decision
judge_shape cfg rest none = none
judge_shape cfg rest (some st) = first_of (exceeded cfg st) rest

unfoldable pub judge_operations : GraphqlConfig → List Bytes → Option Decision
unfolding exceeded
judge_operations cfg [] = some Decision.allow
judge_operations cfg (op ∷ ops) = judge_shape cfg (judge_operations cfg ops) (graphql_lex op)

-- The batch cap compares `ops.len() as u32`.
unfoldable pub judge : GraphqlConfig → List Bytes → Option Decision
unfolding reject judge_operations
judge cfg ops =
    if is_empty ops
    then some Decision.allow
    else if ltb cfg.max_batch (length ops % 2 ^ 32)
    then some (reject (codes "graphql batch operation count exceeds limit"))
    else judge_operations cfg ops

module _ (from_str : Bytes → Option Value) where
  unfoldable pub expand : List Bytes → List Bytes
  expand [] = []
  expand (c ∷ cs) =
      let rest = expand cs in
      elim (unwrap_query_envelope from_str c) [ some docs ↦ docs ++ rest | none ↦ c ∷ rest ]

  unfoldable pub operations : GraphqlConfig → RequestContext → List Bytes
  unfolding expand carriers
  operations cfg ctx = expand (carriers cfg ctx)

  unfoldable pub inspect : GraphqlConfig → RequestContext → Option Decision
  unfolding judge operations
  inspect cfg ctx = if cfg.enabled then judge cfg (operations cfg ctx) else some Decision.allow
