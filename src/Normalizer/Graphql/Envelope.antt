-- ===== src/Normalizer/Graphql/Envelope.antt =====
-- crates/waf-normalizer/src/graphql.rs: the JSON envelope around a GraphQL document.
--
-- `serde_json::from_str` is the argument `from_str`.
use rust_waf.Common.{
  Bool, ◌||◌, List, [], ◌∷◌, ◌++◌, Option, none, some, Bytes, codes, starts_with, if◌then◌else◌,
  is_empty, trim_start,
}
use rust_waf.Normalizer.Json.{Value, Elements, get}

abbrev pub text_of : Option Value → List Bytes
text_of (some (Value.string q)) = q ∷ []
text_of _ = []

-- What `push_query_leaf` pushes.
unfoldable pub query_leaf : Value → List Bytes
unfolding get
query_leaf (Value.object members) = text_of (get (codes "query") members)
query_leaf _ = []

unfoldable pub query_leaves : Elements → List Bytes
unfolding query_leaf
query_leaves Elements.no_more = []
query_leaves (Elements.element v rest) = query_leaf v ++ query_leaves rest

unfoldable pub leaves_of : Value → List Bytes
unfolding query_leaf query_leaves
leaves_of (Value.array elements) = query_leaves elements
leaves_of (Value.object members) = query_leaf (Value.object members)
leaves_of _ = []

abbrev pub opens_json : Bytes → Bool
opens_json s = starts_with (b'{' ∷ []) s || starts_with (b'[' ∷ []) s

unfoldable pub unless_empty : List Bytes → Option (List Bytes)
unless_empty out = if is_empty out then none else some out

unfoldable pub unwrap_query_envelope : (Bytes → Option Value) → Bytes → Option (List Bytes)
unfolding leaves_of unless_empty
unwrap_query_envelope from_str s =
    if opens_json (trim_start s)
    then elim (from_str (trim_start s)) [
      | none ↦ none
      | some value ↦ unless_empty (leaves_of value)
    ]
    else none
