-- ===== src/Tests/Operations.antt =====
-- crates/waf-detection/src/graphql.rs: the GraphQL module on a request with a GET query.
use rust_waf.Common.{
  trim_start, ◌%◌, ◌^◌, ◌≤◌, true, false, [], ◌∷◌, map, Option, none, some, ◌≡◌, refl, ◌↔◌, ◌⊎◌,
  Bytes, codes, bytes_eq, if◌then◌else◌, length,
}
use rust_waf.Core.Decision.{Decision}
use rust_waf.Core.Context.{RequestContext}
use rust_waf.Core.Config.{GraphqlConfig}
use rust_waf.Core.Config.Defaults.{graphql_default}
use rust_waf.Normalizer.Graphql.{graphql_lex}
use rust_waf.Normalizer.Json.{Value, Members}
use rust_waf.Normalizer.Graphql.Envelope.{unwrap_query_envelope}
use rust_waf.Detection.Graphql.{is_graphql_query_key, operations, inspect}
use rust_waf.Detection.Graphql.Caps.{EachWithinCaps, inspect-EachWithinCaps}
use rust_waf.Tests.Requests.{request}

-- `{"query":"{a{b}}"}`, once as a text and once parsed.
abbrev envelope : Bytes
envelope = codes "{\"query\":\"{a{b}}\"}"

abbrev parsed : Value
parsed =
    Value.object (Members.member (codes "query") (Value.string (codes "{a{b}}")) Members.no_member)

abbrev from_str : Bytes → Option Value
from_str s = if bytes_eq s envelope then some parsed else none

abbrev shallow : GraphqlConfig
shallow = record graphql_default { enabled = true; max_depth = 1 }

abbrev get_request : RequestContext
get_request = record request {
  normalized = record (request.normalized) {
    path = codes "/graphql";
    query_params = (codes "query", envelope) ∷ [];
  };
}

-- The document in the envelope is the one that is judged.
envelope_is_unwrapped :
    inspect from_str shallow get_request
    ≡ some (
        Decision.reject
          (codes "graphql")
          (codes "graphql query nesting depth exceeds limit")
          400
          none)
unfolding inspect trim_start unwrap_query_envelope graphql_lex
envelope_is_unwrapped = refl

keys_of_operations :
    map is_graphql_query_key
      (codes "query" ∷ codes "0.query" ∷ codes "variables.query" ∷ codes ".query" ∷ [])
    ≡ true ∷ true ∷ false ∷ false ∷ []
unfolding is_graphql_query_key
keys_of_operations = refl

inspect-EachWithinCaps_example : (inspect from_str shallow get_request ≡ some Decision.allow) ↔ (
    (operations from_str shallow get_request ≡ [])
    ⊎ ((length (operations from_str shallow get_request) % 2 ^ 32 ≤ shallow.max_batch)
        × EachWithinCaps shallow (operations from_str shallow get_request)))
inspect-EachWithinCaps_example = inspect-EachWithinCaps from_str shallow get_request refl
