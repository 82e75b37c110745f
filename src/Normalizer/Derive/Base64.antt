-- ===== src/Normalizer/Derive/Base64.antt =====
-- crates/waf-normalizer/src/url.rs: what counts as base64, and its decoding.
pub mod RoundTrip
use rust_waf.Common.{
  ℕ, zero, suc, ◌+◌, ◌-◌, ◌*◌, ◌/◌, ◌%◌, ◌^◌, ◌≤◌, ◌<◌, min, max, Bool, true, false, not, ◌&&◌,
  ◌||◌, List, [], ◌∷◌, ◌++◌, map, append_assoc, append-nil, Option, none, some, ◌≡◌, refl, sym, ap,
  ◌∙◌, subst, ◌≢◌, ◌↔◌, ◌⊎◌, inl, inr, arith, Bytes, codes, bytes_eq, bytes_eq_iff, is_ascii_digit,
  is_ascii_alphabetic, is_ascii_alphanumeric, to_ascii_lowercase, eq_ignore_ascii_case, starts_with,
  ltb, leb, ◌==◌, within, if◌then◌else◌, ltb→lt, lt→ltb, ==_iff, Bool-cases, Option-cases, length,
  get_elem?, take, drop, any, all, keep, find, is_empty, length-append, take-append-drop,
  length-take, length-drop, length-keep-le, decimal, parse_uint, white_len, trim_start, trim_end,
  trim, split, split_once, strip_prefix, strip_prefix_iff, ends_with, cons_head,
}
use mathlib.Core.Option
use mathlib.Core.List.{reverse}

-- `trim_end_matches('=')`, on the reversed text.
abbrev pub drop_padding : Bytes → Bytes
drop_padding [] = []
drop_padding (c ∷ s) = let rest = drop_padding s in if c == b'=' then rest else c ∷ s

unfoldable pub trim_padding : Bytes → Bytes
trim_padding s = reverse (drop_padding (reverse s))

abbrev pub in_alphabet : ℕ → Bool
in_alphabet c = is_ascii_alphanumeric c || c == b'+' || c == b'/'

unfoldable pub is_base64_candidate : Bytes → ℕ → Bool
unfolding trim_padding
is_base64_candidate s len_min =
    not (ltb (length s) len_min)
    && (not (is_empty (trim_padding s))
        && (not (length (trim_padding s) % 4 == 1) && all in_alphabet (trim_padding s)))

-- The value of a letter of the alphabet.
unfoldable pub val : ℕ → Option ℕ
val c =
    if within b'A' b'Z' c
    then some (c - b'A')
    else if within b'a' b'z' c
    then some (c - b'a' + 26)
    else if within b'0' b'9' c
    then some (c - b'0' + 52)
    else if c == b'+'
    then some 62
    else if c == b'/'
    then some 63
    else none

-- `buf` and `bits` once a letter is in: `<<` on u32 drops what it shifts out.
abbrev pub shift_in : ℕ → ℕ → ℕ
shift_in buf v = (buf * 64 + v) % 4294967296

abbrev pub or_none : {A B : Type 0} → Option A → (A → Option B) → Option B
or_none none f = none
or_none (some a) f = f a

abbrev pub emit : ℕ → Option Bytes → Option Bytes
emit byte none = none
emit byte (some out) = some (byte ∷ out)

-- With fewer than 8 bits over from the letters before.
unfoldable pub decode_from : ℕ → ℕ → Bytes → Option Bytes
decode_from buf bits [] = some []
decode_from buf bits (c ∷ s) = or_none (val c) λ v.
    let waits = decode_from (shift_in buf v) (bits + 6) s in
    let byte =
      emit (shift_in buf v / 2 ^ (bits + 6 - 8) % 256)
        (decode_from (shift_in buf v) (bits + 6 - 8) s) in
    if leb 8 (bits + 6) then byte else waits

unfoldable pub base64_decode : Bytes → Option Bytes
unfolding decode_from val trim_padding
base64_decode s = decode_from 0 0 (trim_padding s)

abbrev pub printable : ℕ → Bool
printable c = c == b'\r' || c == b'\n' || c == b'\t' || within 0x20 0x7E c

unfoldable pub mostly_printable : Bytes → Bool
mostly_printable [] = false
mostly_printable (c ∷ s) = leb 90 (length (keep printable (c ∷ s)) * 100 / length (c ∷ s))
