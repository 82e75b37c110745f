-- ===== src/Normalizer/Body/Multipart.antt =====
-- crates/waf-normalizer/src/body.rs: `parse_multipart`. A position in the body is the rest of it.
pub mod Total
use rust_waf.Common.{
  ℕ, zero, suc, ◌+◌, ◌-◌, ◌*◌, ◌/◌, ◌%◌, ◌^◌, ◌≤◌, ◌<◌, min, max, Bool, true, false, not, ◌&&◌,
  ◌||◌, List, [], ◌∷◌, ◌++◌, map, append_assoc, append-nil, Option, none, some, ◌≡◌, refl, sym, ap,
  ◌∙◌, subst, ◌≢◌, ◌↔◌, ◌⊎◌, inl, inr, arith, Bytes, codes, bytes_eq, bytes_eq_iff, is_ascii_digit,
  is_ascii_alphabetic, is_ascii_alphanumeric, to_ascii_lowercase, eq_ignore_ascii_case, starts_with,
  ltb, leb, ◌==◌, within, if◌then◌else◌, ltb→lt, lt→ltb, ==_iff, Bool-cases, Option-cases, length,
  get_elem?, take, drop, any, all, keep, find, is_empty, length-append, take-append-drop,
  length-take, length-drop, length-keep-le, decimal, parse_uint, white_len, trim_start, trim_end,
  trim, split, split_once, strip_prefix, ends_with, cons_head,
}
use rust_waf.Core.Context.{
  IpAddr, MultipartField, ParsedBody, Normalized, RequestContext, ScoreContribution,
}
use mathlib.Core.Option
use mathlib.Core.List.{reverse}
use rust_waf.Common.Utf8.{from_utf8}
use rust_waf.Normalizer.Query.{NormalizationError, Result, ok, err}

-- What stands before the first occurrence of a needle, and what stands behind it.
unfoldable pub find_from : Bytes → Bytes → Option (Bytes × Bytes)
find_from needle [] = none
find_from needle (c ∷ s) =
    let later = Option.map (λ (r : Bytes × Bytes). (c ∷ r.0, r.1)) (find_from needle s) in
    elim (strip_prefix needle (c ∷ s)) [ some after ↦ some ([], after) | none ↦ later ]

unfoldable pub find_bytes : Bytes → Bytes → Option (Bytes × Bytes)
unfolding find_from
find_bytes needle s = if is_empty needle then none else find_from needle s

abbrev pub to_first : ℕ → List (Bytes × Bytes) → List (Bytes × Bytes)
to_first a [] = []
to_first a ((line, rest) ∷ lines) = (a ∷ line, rest) ∷ lines

-- Each line that CR LF ends, with what stands behind it, as `find_crlf` finds them one by one.
unfoldable pub crlf_lines : Bytes → List (Bytes × Bytes)
crlf_lines [] = []
crlf_lines (a ∷ []) = []
crlf_lines (a ∷ b ∷ s) =
    let more = crlf_lines s in
    let longer = to_first a (crlf_lines (b ∷ s)) in
    if a == b'\r' && b == b'\n' then ([], s) ∷ more else longer

-- A header line at its first colon; `none` where a side is not UTF-8, which ends the parsing.
unfoldable pub header_of : Bytes → Option (List (Bytes × Bytes))
header_of line = elim (split_once b':' line) [
  | none ↦ some []
  | some (name, value) ↦ elim (from_utf8 name) [
    | none ↦ none
    | some n ↦ Option.map (λ v. (trim n, trim v) ∷ []) (from_utf8 value)
  ]
]

-- The headers of a part up to the empty line, and what stands behind it.
unfoldable pub headers_from :
    List (Bytes × Bytes) → List (Bytes × Bytes) → Option (List (Bytes × Bytes) × Bytes)
unfolding header_of
headers_from headers [] = none
headers_from headers (([], rest) ∷ lines) = some (headers, rest)
headers_from headers ((c ∷ line, rest) ∷ lines) = elim (header_of (c ∷ line)) [
  | none ↦ none
  | some more ↦ headers_from (headers ++ more) lines
]

unfoldable pub parse_part_headers : Bytes → Option (List (Bytes × Bytes) × Bytes)
unfolding crlf_lines headers_from
parse_part_headers s = headers_from [] (crlf_lines s)

-- `trim_matches('"')`
abbrev pub drop_quotes : Bytes → Bytes
drop_quotes [] = []
drop_quotes (c ∷ s) = let rest = drop_quotes s in if c == b'"' then rest else c ∷ s

abbrev pub trim_quotes : Bytes → Bytes
trim_quotes s = reverse (drop_quotes (reverse (drop_quotes s)))

-- What the headers of a part say of it.
pub record Part : Type 0 where
  pub name : Bytes
  pub filename : Option Bytes
  pub content_type : Option Bytes

abbrev pub no_part : Part
no_part = record { name = []; filename = none; content_type = none }

-- Where the walk over the parts goes on: nowhere, or with a field more or less.
pub data Next : Type 0 where
  stop : Next
  part : List MultipartField → Bytes → Next

module _ (to_lowercase : Bytes → Bytes) where
  unfoldable pub take_param : Part → Bytes → Part
  take_param p param = elim (split_once b'=' (trim param)) [
    | none ↦ p
    | some (key, value) ↦
        let k = to_lowercase (trim key) in
        let v = trim_quotes (trim value) in
        if bytes_eq k (codes "name")
        then record p { name = v }
        else if bytes_eq k (codes "filename")
        then record p { filename = some v }
        else p
  ]

  unfoldable pub take_params : Part → List Bytes → Part
  unfolding take_param
  take_params p [] = p
  take_params p (param ∷ params) = take_params (take_param p param) params

  unfoldable pub take_header : Part → Bytes × Bytes → Part
  unfolding take_params
  take_header p (name, value) =
      if bytes_eq (to_lowercase name) (codes "content-disposition")
      then take_params p (split b';' value)
      else if bytes_eq (to_lowercase name) (codes "content-type")
      then record p { content_type = some value }
      else p

  unfoldable pub take_headers : Part → List (Bytes × Bytes) → Part
  unfolding take_header
  take_headers p [] = p
  take_headers p (h ∷ hs) = take_headers (take_header p h) hs

  -- The field of a part with its headers and its payload, if it has a name.
  unfoldable pub field_of : List (Bytes × Bytes) → Bytes → List MultipartField
  unfolding take_headers
  field_of headers payload =
      let p = take_headers no_part headers in
      if is_empty p.name
      then []
      else record {
        name = p.name;
        filename = p.filename;
        content_type = p.content_type;
        payload = payload;
      }
        ∷ []

  -- A part behind its boundary and the CR LF.
  unfoldable pub part_at : Bytes → Bytes → Next
  unfolding parse_part_headers field_of find_bytes
  part_at inter_boundary s = elim (parse_part_headers s) [
    | none ↦ Next.stop
    | some (headers, start) ↦ elim (find_bytes inter_boundary start) [
      | none ↦ Next.stop
      | some (payload, rest) ↦ Next.part (field_of headers payload) rest
    ]
  ]

  -- Behind a boundary: the end, a part, or neither, which ends the walk too.
  unfoldable pub next_part : Bytes → Bytes → Next
  unfolding part_at
  next_part inter_boundary (a ∷ b ∷ s) =
      if a == b'-' && b == b'-'
      then Next.stop
      else if a == b'\r' && b == b'\n'
      then part_at inter_boundary s
      else Next.stop
  next_part inter_boundary _ = Next.stop

  unfoldable pub parts_from : ℕ → Bytes → List MultipartField → Bytes → Option (List MultipartField)
  unfolding next_part
  parts_from zero inter_boundary fields s = none
  parts_from (suc fuel) inter_boundary fields s = elim (next_part inter_boundary s) [
    | Next.stop ↦ some fields
    | Next.part more rest ↦ parts_from fuel inter_boundary (fields ++ more) rest
  ]

  -- Fuel for a body: a round for each byte, and one to see the end.
  unfoldable pub parse_multipart : Bytes → Bytes → Option ParsedBody
  unfolding parts_from find_bytes
  parse_multipart body boundary = elim (find_bytes (codes "--" ++ boundary) body) [
    | none ↦ some (ParsedBody.multipart [])
    | some (before, rest) ↦
        Option.map ParsedBody.multipart
          (parts_from (suc (length body)) (codes "\r\n--" ++ boundary) [] rest)
  ]

  unfoldable pub boundary_in : List Bytes → Option Bytes
  boundary_in [] = none
  boundary_in (piece ∷ pieces) =
      let rest = boundary_in pieces in
      let p = trim piece in
      if starts_with (codes "boundary=") (to_lowercase p)
      then some (trim_quotes (drop 9 p))
      else rest

  unfoldable pub extract_boundary : Bytes → Option Bytes
  unfolding boundary_in
  extract_boundary ct = boundary_in (split b';' ct)
