-- ===== src/Detection/Crs/Transform.antt =====
-- crates/waf-detection/src/crs/transform.rs. `none` is a panic of the slice in `decode_u_escapes`.
pub mod Panics
use rust_waf.Common.{
  ℕ, zero, suc, ◌+◌, ◌-◌, ◌*◌, ◌/◌, ◌%◌, ◌^◌, ◌≤◌, ◌<◌, min, max, Bool, true, false, not, ◌&&◌,
  ◌||◌, List, [], ◌∷◌, ◌++◌, map, append_assoc, append-nil, Option, none, some, ◌≡◌, refl, sym, ap,
  ◌∙◌, subst, ◌≢◌, ◌↔◌, ◌⊎◌, inl, inr, arith, Bytes, codes, bytes_eq, bytes_eq_iff, is_ascii_digit,
  is_ascii_alphabetic, is_ascii_alphanumeric, to_ascii_lowercase, eq_ignore_ascii_case, starts_with,
  ltb, leb, ◌==◌, within, if◌then◌else◌, ltb→lt, lt→ltb, ==_iff, Bool-cases, Option-cases, length,
  get_elem?, take, drop, any, all, keep, find, is_empty, length-append, take-append-drop,
  length-take, length-drop, length-keep-le, decimal, parse_uint, white_len, trim_start, trim_end,
  trim, split, split_once, strip_prefix, strip_prefix_iff, ends_with, cons_head,
}
use mathlib.Core.Option
use mathlib.Core.List.{reverse}
use rust_waf.Common.Utf8.{from_utf8_lossy}
use rust_waf.Common.Chars.{
  from_u32, encode_utf8, is_ascii_hexdigit, from_str_radix_16, is_char_boundary, to_lower,
}
use rust_waf.Normalizer.Percent.{percent_decode}
use rust_waf.Normalizer.Path.{push_segments}
use rust_waf.Normalizer.Derive.Base64.{base64_decode}
use rust_waf.Detection.Crs.Ast.{Transform, match_text}

-- `skip` bytes of a White_Space character are still to come, and the one before was one or not.
unfoldable pub compress_from : ℕ → Bool → Bytes → Bytes
unfolding white_len
compress_from skip in_ws [] = []
compress_from (suc skip) in_ws (c ∷ s) = compress_from skip in_ws s
compress_from zero in_ws (c ∷ s) = elim (white_len (c ∷ s)) [
  | zero ↦ c ∷ compress_from zero false s
  | suc n ↦ if in_ws then compress_from n true s else b' ' ∷ compress_from n true s
]

unfoldable pub compress_whitespace : Bytes → Bytes
unfolding compress_from
compress_whitespace s = compress_from 0 false s

unfoldable pub remove_whitespace : ℕ → Bytes → Bytes
unfolding white_len
remove_whitespace skip [] = []
remove_whitespace (suc skip) (c ∷ s) = remove_whitespace skip s
remove_whitespace zero (c ∷ s) = elim (white_len (c ∷ s)) [
  | zero ↦ c ∷ remove_whitespace zero s
  | suc n ↦ remove_whitespace n s
]

abbrev pub and_then : {A B : Type 0} → Option A → (A → Option B) → Option B
and_then none f = none
and_then (some a) f = f a

-- What a `%` stands for: itself, a character behind a `%u`, or a slice inside a character.
pub data Escape : Type 0 where
  verbatim panic : Escape
  char : ℕ → Escape

abbrev pub escape_of : Option ℕ → Escape
escape_of none = Escape.verbatim
escape_of (some ch) = Escape.char ch

-- At a byte, with at least `n` bytes behind it.
unfoldable pub u_escape_at : ℕ → Bytes → Escape
unfolding from_str_radix_16
u_escape_at c (u ∷ s) =
    if c == b'%' && leb 4 (length s) && (u == b'u' || u == b'U')
    then if is_char_boundary (drop 4 s)
      then escape_of (and_then (from_str_radix_16 (take 4 s)) from_u32)
      else Escape.panic
    else Escape.verbatim
u_escape_at c [] = Escape.verbatim

unfoldable pub u_escapes_from : ℕ → Bytes → Option Bytes
unfolding u_escape_at
u_escapes_from skip [] = some []
u_escapes_from (suc skip) (c ∷ s) = u_escapes_from skip s
u_escapes_from zero (c ∷ s) = elim (u_escape_at c s) [
  | Escape.verbatim ↦ Option.map (λ out. c ∷ out) (u_escapes_from zero s)
  | Escape.panic ↦ none
  | Escape.char ch ↦ Option.map (λ out. encode_utf8 ch ++ out) (u_escapes_from 5 s)
]

unfoldable pub decode_u_escapes : Bytes → Option Bytes
unfolding u_escapes_from
decode_u_escapes s = u_escapes_from 0 s

-- The bytes at the front that pass a test, `n` at most.
abbrev pub take_while : ℕ → (ℕ → Bool) → Bytes → Bytes
take_while zero p s = []
take_while (suc n) p [] = []
take_while (suc n) p (c ∷ s) = let rest = c ∷ take_while n p s in if p c then rest else []

abbrev pub named_entities : List (Bytes × Option ℕ)
named_entities =
    (codes "lt", some b'<')
    ∷ (codes "gt", some b'>')
    ∷ (codes "amp", some b'&')
    ∷ (codes "quot", some b'"')
    ∷ (codes "apos", some b'\'')
    ∷ (codes "nbsp", some 0xA0)
    ∷ (codes "tab", some b'\t')
    ∷ (codes "newline", some b'\n')
    ∷ (codes "sol", some b'/')
    ∷ (codes "bsol", some 92)
    ∷ (codes "colon", some b':')
    ∷ (codes "semi", some b';')
    ∷ (codes "lpar", some b'(')
    ∷ (codes "rpar", some b')')
    ∷ (codes "equals", some b'=')
    ∷ []

unfoldable pub named_entity : Bytes → Option ℕ
named_entity name = match_text name named_entities none

-- A `;` behind an entity is taken with it.
abbrev pub with_semicolon : ℕ → Bytes → ℕ
with_semicolon n [] = n
with_semicolon n (c ∷ s) = if c == b';' then n + 1 else n

-- The digits behind `start` bytes, and the character that they stand for.
abbrev pub number_at : ℕ → Bytes → (Bytes → Option ℕ) → Bytes → Option (ℕ × ℕ)
number_at start digits read s =
    if is_empty digits
    then none
    else Option.map
        (λ (ch : ℕ). (ch, with_semicolon (start + length digits) (drop (length digits) s)))
        (and_then (read digits) from_u32)

abbrev pub u32_max : ℕ
u32_max = 4294967295

-- Behind `&#`.
abbrev pub numeric_entity : Bytes → Option (ℕ × ℕ)
numeric_entity [] = none
numeric_entity (c ∷ s) =
    if c == b'x' || c == b'X'
    then number_at 2 (take_while 8 is_ascii_hexdigit s) from_str_radix_16 s
    else number_at 1 (take_while 8 is_ascii_digit (c ∷ s)) (parse_uint u32_max) (c ∷ s)

-- The character of the entity behind a `&`, and the bytes that it takes there.
unfoldable pub decode_entity : Bytes → Option (ℕ × ℕ)
unfolding named_entity from_str_radix_16
decode_entity (c ∷ d ∷ s) =
    if c == b'#'
    then numeric_entity (d ∷ s)
    else let name = take_while 10 is_ascii_alphabetic (c ∷ d ∷ s) in
      Option.map (λ (ch : ℕ). (ch, with_semicolon (length name) (drop (length name) (c ∷ d ∷ s))))
        (named_entity name)
decode_entity _ = none

abbrev pub entity_at : ℕ → Bytes → Option (ℕ × ℕ)
entity_at c s = if c == b'&' then decode_entity s else none

unfoldable pub html_from : ℕ → Bytes → Bytes
unfolding decode_entity
html_from skip [] = []
html_from (suc skip) (c ∷ s) = html_from skip s
html_from zero (c ∷ s) = elim (entity_at c s) [
  | none ↦ c ∷ html_from zero s
  | some (ch, n) ↦ encode_utf8 ch ++ html_from n s
]

unfoldable pub html_entity_decode : Bytes → Bytes
unfolding html_from
html_entity_decode s = html_from 0 s

abbrev pub join : List Bytes → Bytes
join [] = []
join (seg ∷ []) = seg
join (seg ∷ next ∷ segs) = seg ++ (b'/' ∷ join (next ∷ segs))

-- Resolves segments and keeps the slashes at both ends, and the case.
unfoldable pub normalize_path : Bytes → Bytes
unfolding push_segments
normalize_path s =
    let joined = join (reverse (push_segments [] (split b'/' s))) in
    (if starts_with (codes "/") s then codes "/" else [])
    ++ (joined ++ (if ends_with (codes "/") s && not (is_empty joined) then codes "/" else []))

abbrev pub or_unchanged : Bytes → Option Bytes → Bytes
or_unchanged s none = s
or_unchanged s (some bytes) = from_utf8_lossy bytes

unfoldable pub apply_one : Bytes → Transform → Option Bytes
unfolding decode_u_escapes html_entity_decode compress_whitespace normalize_path
apply_one s Transform.none = some s
apply_one s (Transform.unsupported name) = some s
apply_one s Transform.lowercase = some (to_lower s)
apply_one s Transform.url_decode = some (percent_decode s true).0
apply_one s Transform.url_decode_uni =
    Option.map (λ (d : Bytes). (percent_decode d true).0) (decode_u_escapes s)
apply_one s Transform.html_entity_decode = some (html_entity_decode s)
apply_one s Transform.compress_whitespace = some (compress_whitespace s)
apply_one s Transform.remove_whitespace = some (remove_whitespace 0 s)
apply_one s Transform.remove_nulls = some (keep (λ c. not (c == 0)) s)
apply_one s Transform.normalize_path = some (normalize_path s)
apply_one s Transform.base64_decode = some (or_unchanged s (base64_decode (trim s)))

unfoldable pub apply : Bytes → List Transform → Option Bytes
unfolding apply_one
apply s [] = some s
apply s (t ∷ pipeline) = and_then (apply_one s t) λ s'. apply s' pipeline
