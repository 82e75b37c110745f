-- ===== src/Detection/Crs/Parse/Variables.antt =====
-- crates/waf-detection/src/crs/parse.rs: the variables, the operator and the transforms of a rule.
use rust_waf.Common.{
  zero, suc, Bool, true, false, not, ◌||◌, List, [], ◌∷◌, ◌++◌, map, Option, none, some, Bytes,
  codes, starts_with, ◌==◌, if◌then◌else◌, keep, is_empty, white_len, trim_start, trim, split,
  split_once, strip_prefix,
}
use mathlib.Core.Option
use rust_waf.Common.Chars.{to_lower, to_upper, is_char_boundary, split_whitespace}
use rust_waf.Detection.Crs.Ast.{Transform, Operator, TargetKind, Variable, match_text}

abbrev pub transform_names : List (Bytes × Transform)
transform_names =
    (codes "none", Transform.none)
    ∷ (codes "lowercase", Transform.lowercase)
    ∷ (codes "urldecode", Transform.url_decode)
    ∷ (codes "urldecodeuni", Transform.url_decode_uni)
    ∷ (codes "htmlentitydecode", Transform.html_entity_decode)
    ∷ (codes "compresswhitespace", Transform.compress_whitespace)
    ∷ (codes "removewhitespace", Transform.remove_whitespace)
    ∷ (codes "removenulls", Transform.remove_nulls)
    ∷ (codes "normalizepath", Transform.normalize_path)
    ∷ (codes "normalisepath", Transform.normalize_path)
    ∷ (codes "base64decode", Transform.base64_decode)
    ∷ (codes "base64decodeext", Transform.base64_decode)
    ∷ []

unfoldable pub map_transform : Bytes → Transform
map_transform name =
    let word = to_lower (trim name) in match_text word transform_names (Transform.unsupported word)

-- `t:none` clears what stands before it, the defaults included.
abbrev pub add_transform : List Transform → Transform → List Transform
add_transform list Transform.none = []
add_transform list t = list ++ (t ∷ [])

unfoldable pub resolve_transforms : List Transform → List Transform → List Transform
resolve_transforms list [] = list
resolve_transforms list (t ∷ rule) = resolve_transforms (add_transform list t) rule

abbrev pub target_names : List (Bytes × TargetKind)
target_names =
    (codes "ARGS", TargetKind.args)
    ∷ (codes "ARGS_NAMES", TargetKind.args_names)
    ∷ (codes "ARGS_GET", TargetKind.args_get)
    ∷ (codes "ARGS_POST", TargetKind.args_post)
    ∷ (codes "REQUEST_HEADERS", TargetKind.request_headers)
    ∷ (codes "REQUEST_HEADERS_NAMES", TargetKind.request_headers_names)
    ∷ (codes "REQUEST_COOKIES", TargetKind.request_cookies)
    ∷ (codes "REQUEST_COOKIES_NAMES", TargetKind.request_cookies_names)
    ∷ (codes "REQUEST_URI", TargetKind.request_uri)
    ∷ (codes "REQUEST_URI_RAW", TargetKind.request_uri_raw)
    ∷ (codes "REQUEST_FILENAME", TargetKind.request_filename)
    ∷ (codes "QUERY_STRING", TargetKind.query_string)
    ∷ (codes "REQUEST_METHOD", TargetKind.request_method)
    ∷ (codes "REQUEST_PROTOCOL", TargetKind.request_protocol)
    ∷ (codes "REQUEST_LINE", TargetKind.request_line)
    ∷ (codes "REQUEST_BODY", TargetKind.request_body)
    ∷ []

unfoldable pub map_target : Bytes → TargetKind
map_target name =
    let word = to_upper (trim name) in match_text word target_names (TargetKind.unsupported word)

-- The marks before a name, in any number and order, and the rest.
pub record Marks : Type 0 where
  pub negated : Bool
  pub count : Bool
  pub rest : Bytes

unfoldable pub strip_marks : Bool → Bool → Bytes → Marks
strip_marks negated count [] = record { negated = negated; count = count; rest = [] }
strip_marks negated count (c ∷ s) =
    let exclusion = strip_marks true count s in
    let counted = strip_marks negated true s in
    if c == b'!'
    then exclusion
    else if c == b'&'
    then counted
    else record { negated = negated; count = count; rest = c ∷ s }

-- `:Name`, or a regular expression, which is no selector here.
abbrev pub selector_of : Bytes → Option Bytes
selector_of sel = if starts_with (codes "/") sel || is_empty sel then none else some sel

abbrev pub with_selector : Marks → Option (Bytes × Bytes) → Variable
with_selector m (some (name, sel)) = record {
  kind = map_target name;
  selector = selector_of sel;
  negated = m.negated;
  count = m.count;
  regex_selector = starts_with (codes "/") sel;
}
with_selector m none = record {
  kind = map_target m.rest;
  selector = none;
  negated = m.negated;
  count = m.count;
  regex_selector = false;
}

unfoldable pub parse_variable : Bytes → Variable
unfolding strip_marks map_target
parse_variable piece =
    let m = strip_marks false false (trim piece) in with_selector m (split_once b':' m.rest)

unfoldable pub parse_variables : Bytes → List Variable
unfolding parse_variable
parse_variables tok = map parse_variable (keep (λ s. not (is_empty s)) (split b'|' tok))

abbrev pub operator_names : List (Bytes × (Bytes → Operator))
operator_names =
    (codes "rx", λ arg. Operator.rx arg)
    ∷ (codes "pm", λ arg. Operator.pm (split_whitespace arg))
    ∷ (codes "pmf", λ arg. Operator.pm_from_file (trim arg))
    ∷ (codes "pmfromfile", λ arg. Operator.pm_from_file (trim arg))
    ∷ (codes "contains", λ arg. Operator.contains arg)
    ∷ (codes "beginswith", λ arg. Operator.begins_with arg)
    ∷ (codes "endswith", λ arg. Operator.ends_with arg)
    ∷ (codes "within", λ arg. Operator.within arg)
    ∷ (codes "streq", λ arg. Operator.str_eq arg)
    ∷ []

abbrev pub operator_of : Bytes × Bytes → Operator
operator_of (op, arg) =
    let word = to_lower op in match_text word operator_names (λ arg'. Operator.unsupported word) arg

-- The name of an operator and its argument, one byte behind the end of the name. A White_Space
-- character of more bytes ends the name too, and the slice inside it panics: `none`.
unfoldable pub name_and_arg : Bytes → Bytes → Option (Bytes × Bytes)
unfolding white_len
name_and_arg name [] = some (name, [])
name_and_arg name (c ∷ s) = elim (white_len (c ∷ s)) [
  | zero ↦ name_and_arg (name ++ (c ∷ [])) s
  | suc n ↦ if is_char_boundary s then some (name, s) else none
]

abbrev pub named_operator : Bytes → Option Bytes → Option Operator
named_operator s none = some (Operator.rx s)
named_operator s (some rest) = Option.map operator_of (name_and_arg [] rest)

-- A text without its mark, and whether it had one.
abbrev pub negation : Bytes → Bool × Bytes
negation [] = (false, [])
negation (c ∷ s) = if c == b'!' then (true, trim_start s) else (false, c ∷ s)

-- `none` is the panic of the slice.
unfoldable pub parse_operator : Bytes → Option (Bool × Operator)
unfolding name_and_arg
parse_operator tok =
    let (negated, s) = negation (trim_start tok) in
    Option.map (λ (op : Operator). (negated, op)) (named_operator s (strip_prefix (codes "@") s))
