-- ===== src/Normalizer/Percent.antt =====
-- crates/waf-normalizer/src/url.rs: percent decoding, overlong UTF-8 and the shared fixed point.
--
-- Bytes are numbers below 256. NFKC, of the crate unicode-normalization, is the argument `nfkc`.
pub mod Shrink
pub mod Fixpoint
use Prim.Native.Nat.{bit_and, bit_or}
use rust_waf.Common.{
  ℕ, zero, suc, ◌+◌, ◌-◌, ◌*◌, ◌/◌, ◌%◌, ◌^◌, ◌≤◌, ◌<◌, min, max, Bool, true, false, not, ◌&&◌,
  ◌||◌, List, [], ◌∷◌, ◌++◌, map, append_assoc, append-nil, Option, none, some, ◌≡◌, refl, sym, ap,
  ◌∙◌, subst, ◌≢◌, ◌↔◌, ◌⊎◌, inl, inr, arith, Bytes, codes, bytes_eq, bytes_eq_iff, is_ascii_digit,
  is_ascii_alphabetic, is_ascii_alphanumeric, to_ascii_lowercase, eq_ignore_ascii_case, starts_with,
  ltb, leb, ◌==◌, within, if◌then◌else◌, ltb→lt, lt→ltb, ==_iff, Bool-cases, Option-cases, length,
  get_elem?, take, drop, any, all, keep, find, is_empty, length-append, take-append-drop,
  length-take, length-drop, length-keep-le, decimal, parse_uint, white_len, trim_start, trim_end,
  trim, split, split_once, strip_prefix, ends_with, cons_head,
}
use rust_waf.Common.Utf8.{from_utf8_lossy}

abbrev pub is_hex : ℕ → Bool
is_hex b = is_ascii_digit b || within b'a' b'f' b || within b'A' b'F' b

unfoldable pub hex_val : ℕ → ℕ
hex_val b =
    if is_ascii_digit b
    then b - b'0'
    else if within b'a' b'f' b
    then b - b'a' + 10
    else if within b'A' b'F' b
    then b - b'A' + 10
    else 0

-- `(hex_val(h) << 4) | hex_val(l)` on `u8`.
unfoldable pub hex_pair : ℕ → ℕ → ℕ
unfolding hex_val
hex_pair h l = bit_or (hex_val h * 2 ^ 4 % 2 ^ 8) (hex_val l)

-- `b[i] == b'%' && is_hex(b[i + 1]) && is_hex(b[i + 2])`
unfoldable pub is_escape : ℕ → ℕ → ℕ → Bool
is_escape a b c = a == b'%' && is_hex b && is_hex c

unfoldable pub still_percent_encoded : Bytes → Bool
still_percent_encoded [] = false
still_percent_encoded (a ∷ []) = false
still_percent_encoded (a ∷ b ∷ []) = false
still_percent_encoded (a ∷ b ∷ c ∷ s) = is_escape a b c || still_percent_encoded (b ∷ c ∷ s)

-- `b[i] == b'+' && plus_as_space`
unfoldable pub is_space : Bool → ℕ → Bool
is_space plus a = a == b'+' && plus

unfoldable pub percent_decode_bytes : Bool → Bytes → Bytes
percent_decode_bytes plus [] = []
percent_decode_bytes plus (a ∷ []) = (if is_space plus a then b' ' else a) ∷ []
percent_decode_bytes plus (a ∷ b ∷ []) =
    (if is_space plus a then b' ' else a) ∷ percent_decode_bytes plus (b ∷ [])
percent_decode_bytes plus (a ∷ b ∷ c ∷ s) =
    let decoded = hex_pair b c ∷ percent_decode_bytes plus s in
    let kept = percent_decode_bytes plus (b ∷ c ∷ s) in
    if is_space plus a then b' ' ∷ kept else if is_escape a b c then decoded else a ∷ kept

-- The public single pass, to text; and whether the text is still encoded.
unfoldable pub percent_decode : Bytes → Bool → Bytes × Bool
unfolding percent_decode_bytes still_percent_encoded from_utf8_lossy
percent_decode input plus_as_space =
    let decoded = from_utf8_lossy (percent_decode_bytes plus_as_space input) in
    (decoded, still_percent_encoded decoded)

-- `((b & 0x1F) << 6) | (b2 & 0x3F)` on `u8`.
unfoldable pub overlong_byte : ℕ → ℕ → ℕ
overlong_byte b b2 = bit_or (bit_and b 0x1F * 2 ^ 6 % 2 ^ 8) (bit_and b2 0x3F)

-- A lead byte that only an overlong sequence has, and a continuation byte.
unfoldable pub is_overlong : ℕ → ℕ → Bool
is_overlong a b = (a == 0xC0 || a == 0xC1) && within 0x80 0xBF b

unfoldable pub collapse_overlong : Bytes → Bytes
collapse_overlong [] = []
collapse_overlong (a ∷ []) = a ∷ []
collapse_overlong (a ∷ b ∷ s) =
    let collapsed = overlong_byte a b ∷ collapse_overlong s in
    let kept = collapse_overlong (b ∷ s) in if is_overlong a b then collapsed else a ∷ kept

abbrev pub pipeline_cap : ℕ
pipeline_cap = 5

unfoldable pub decode_pass : Bool → Bytes → Bytes
unfolding percent_decode_bytes collapse_overlong
decode_pass plus bytes = collapse_overlong (percent_decode_bytes plus bytes)

-- The result of the loop: the bytes, the passes applied and the budget that is left.
pub record Decoded : Type 0 where
  pub bytes : Bytes
  pub passes : ℕ
  pub budget : ℕ

-- `while *budget > 0`: the budget is the recursion's measure.
unfoldable pub fixpoint_from : Bool → ℕ → ℕ → Bytes → Decoded
unfolding decode_pass
fixpoint_from plus passes zero bytes = record { bytes = bytes; passes = passes; budget = 0 }
fixpoint_from plus passes (suc budget) bytes =
    let next = decode_pass (plus && passes == 0) bytes in
    let rest = fixpoint_from plus (passes + 1) budget next in
    if bytes_eq next bytes
    then record { bytes = bytes; passes = passes; budget = suc budget }
    else rest

unfoldable pub percent_overlong_fixpoint : Bytes → Bool → ℕ → Decoded
unfolding fixpoint_from
percent_overlong_fixpoint raw plus_as_space budget = fixpoint_from plus_as_space 0 budget raw

unfoldable pub decode_overlong_utf8 : Bytes → Bytes
unfolding collapse_overlong from_utf8_lossy
decode_overlong_utf8 input = from_utf8_lossy (collapse_overlong input)

module _ (nfkc : Bytes → Bytes) where
  unfoldable pub canonicalize_value : Bytes → Bool → Bytes × Bool
  unfolding percent_overlong_fixpoint from_utf8_lossy
  canonicalize_value raw plus_as_space =
      let d = percent_overlong_fixpoint raw plus_as_space pipeline_cap in
      (nfkc (from_utf8_lossy d.bytes), leb 2 d.passes)

  unfoldable pub canonicalize_multipart_field : Bytes → Bytes
  unfolding canonicalize_value
  canonicalize_multipart_field raw = (canonicalize_value raw false).0
