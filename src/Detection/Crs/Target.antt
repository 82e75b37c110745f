-- ===== src/Detection/Crs/Target.antt =====
-- crates/waf-detection/src/crs/target.rs: the values of a request that a rule looks at.
use rust_waf.Common.{
  ℕ, Bool, true, false, not, ◌&&◌, List, [], ◌∷◌, ◌++◌, map, Option, none, some, Bytes, codes,
  bytes_eq, eq_ignore_ascii_case, ◌==◌, if◌then◌else◌, any, find, is_empty, split,
}
use mathlib.Core.Option
use rust_waf.Core.Context.{RequestContext}
use rust_waf.Common.Utf8.{from_utf8, from_utf8_lossy}
use rust_waf.Common.Chars.{to_lower, contains}
use rust_waf.Normalizer.Percent.{percent_decode}
use rust_waf.Normalizer.Query.{key_value}
use rust_waf.Detection.Crs.Ast.{TargetKind, Variable}

abbrev pub Entries : Type 0
Entries = List (Bytes × Bytes)

abbrev pub split_pairs : List Bytes → Entries
split_pairs [] = []
split_pairs (pair ∷ pairs) =
    let rest = split_pairs pairs in
    if is_empty pair
    then rest
    else ((percent_decode (key_value pair).0 true).0, (percent_decode (key_value pair).1 true).0)
      ∷ rest

unfoldable pub split_args : Bytes → Entries
unfolding key_value
split_args s = split_pairs (split b'&' s)

abbrev pub args_in : Option Bytes → Entries
args_in none = []
args_in (some s) = split_args s

unfoldable pub query_args : RequestContext → Entries
unfolding split_args
query_args ctx = args_in ctx.query

unfoldable pub header : RequestContext → Bytes → Option Bytes
header ctx name =
    Option.map (λ (h : Bytes × Bytes). h.1)
      (find (λ (h : Bytes × Bytes). eq_ignore_ascii_case h.0 name) ctx.headers)

abbrev pub names_form : Option Bytes → Bool
names_form none = false
names_form (some ct) = contains (codes "application/x-www-form-urlencoded") (to_lower ct)

unfoldable pub is_form_urlencoded : RequestContext → Bool
unfolding header contains
is_form_urlencoded ctx = names_form (header ctx (codes "content-type"))

unfoldable pub post_args : RequestContext → Entries
unfolding split_args is_form_urlencoded
post_args ctx = if is_form_urlencoded ctx then args_in (from_utf8 ctx.body) else []

abbrev pub with_query : Bytes → Option Bytes → Bytes
with_query path none = path
with_query path (some q) = path ++ (b'?' ∷ q)

unfoldable pub raw_uri : RequestContext → Bytes
raw_uri ctx = with_query ctx.path ctx.query

abbrev pub or_default : Option Bytes → Bytes
or_default none = []
or_default (some q) = q

abbrev pub names_of : Entries → Entries
names_of entries = map (λ (e : Bytes × Bytes). (e.0, e.0)) entries

unfoldable pub entries : TargetKind → RequestContext → Entries
unfolding query_args post_args raw_uri
entries TargetKind.args ctx = query_args ctx ++ post_args ctx
entries TargetKind.args_get ctx = query_args ctx
entries TargetKind.args_post ctx = post_args ctx
entries TargetKind.args_names ctx = names_of (query_args ctx ++ post_args ctx)
entries TargetKind.request_headers ctx = ctx.headers
entries TargetKind.request_headers_names ctx = names_of ctx.headers
entries TargetKind.request_cookies ctx =
    map (λ (e : Bytes × Bytes). (e.0, (percent_decode e.1 false).0)) ctx.cookies
entries TargetKind.request_cookies_names ctx = names_of ctx.cookies
entries TargetKind.request_uri ctx = (codes "REQUEST_URI", raw_uri ctx) ∷ []
entries TargetKind.request_uri_raw ctx = (codes "REQUEST_URI", raw_uri ctx) ∷ []
entries TargetKind.request_filename ctx =
    (codes "REQUEST_FILENAME", (percent_decode ctx.path false).0) ∷ []
entries TargetKind.query_string ctx = (codes "QUERY_STRING", or_default ctx.query) ∷ []
entries TargetKind.request_method ctx = (codes "REQUEST_METHOD", ctx.method) ∷ []
entries TargetKind.request_protocol ctx = (codes "REQUEST_PROTOCOL", ctx.http_version) ∷ []
entries TargetKind.request_line ctx =
    (codes "REQUEST_LINE", ctx.method ++ (b' ' ∷ (raw_uri ctx ++ (b' ' ∷ ctx.http_version)))) ∷ []
entries TargetKind.request_body ctx = (codes "REQUEST_BODY", from_utf8_lossy ctx.body) ∷ []
entries (TargetKind.unsupported name) ctx = []

-- `==` on kinds, as `derive(PartialEq)` makes it: the place in the list, and the name of an
-- unsupported one.
abbrev pub kind_index : TargetKind → ℕ
kind_index TargetKind.args = 0
kind_index TargetKind.args_names = 1
kind_index TargetKind.args_get = 2
kind_index TargetKind.args_post = 3
kind_index TargetKind.request_headers = 4
kind_index TargetKind.request_headers_names = 5
kind_index TargetKind.request_cookies = 6
kind_index TargetKind.request_cookies_names = 7
kind_index TargetKind.request_uri = 8
kind_index TargetKind.request_uri_raw = 9
kind_index TargetKind.request_filename = 10
kind_index TargetKind.query_string = 11
kind_index TargetKind.request_method = 12
kind_index TargetKind.request_protocol = 13
kind_index TargetKind.request_line = 14
kind_index TargetKind.request_body = 15
kind_index (TargetKind.unsupported name) = 16

abbrev pub unsupported_name : TargetKind → Bytes
unsupported_name (TargetKind.unsupported name) = name
unsupported_name _ = []

unfoldable pub same_kind : TargetKind → TargetKind → Bool
same_kind k l = kind_index k == kind_index l && bytes_eq (unsupported_name k) (unsupported_name l)

abbrev pub exclusion : TargetKind → Option Bytes → List (TargetKind × Bytes)
exclusion kind none = []
exclusion kind (some sel) = (kind, to_lower sel) ∷ []

abbrev pub exclusions_of : List Variable → List (TargetKind × Bytes)
exclusions_of [] = []
exclusions_of (v ∷ vars) =
    (if v.negated then exclusion v.kind v.selector else []) ++ exclusions_of vars

abbrev pub selects : Option Bytes → Bytes → Bool
selects none name = true
selects (some sel) name = eq_ignore_ascii_case name sel

abbrev pub is_excluded : List (TargetKind × Bytes) → TargetKind → Bytes → Bool
is_excluded exclusions kind name =
    any (λ (e : TargetKind × Bytes). same_kind e.0 kind && eq_ignore_ascii_case name e.1) exclusions

-- The values of one variable.
abbrev pub values_in : List (TargetKind × Bytes) → Variable → Entries → List Bytes
values_in exclusions v [] = []
values_in exclusions v ((name, value) ∷ rest) =
    let more = values_in exclusions v rest in
    if not (selects v.selector name)
    then more
    else if is_excluded exclusions v.kind name
    then more
    else value ∷ more

abbrev pub values_from : List (TargetKind × Bytes) → List Variable → RequestContext → List Bytes
values_from exclusions [] ctx = []
values_from exclusions (v ∷ vars) ctx =
    (if v.negated then [] else values_in exclusions v (entries v.kind ctx))
    ++ values_from exclusions vars ctx

unfoldable pub collect_values : List Variable → RequestContext → List Bytes
unfolding entries same_kind
collect_values vars ctx = values_from (exclusions_of vars) vars ctx
