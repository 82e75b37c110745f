-- ===== src/Common/Chars.antt =====
-- Characters and searches of Rust's standard library, on UTF-8 bytes.
use Prim.Native.Nat.{ℕ, zero, suc, ◌+◌, ◌-◌, ◌*◌, ◌/◌, ◌%◌}
use mathlib.Core.Bool.{Bool, true, not, ◌||◌}
use mathlib.Core.List.{List, [], ◌∷◌, ◌++◌, map}
use mathlib.Core.Option.{Option, none, some}
use rust_waf.Common.Tests.{ltb, leb, ◌==◌, within, if◌then◌else◌}
use rust_waf.Common.Lists.{length, take}
use rust_waf.Common.Slices.{Bytes, starts_with, is_ascii_digit, to_ascii_lowercase}
use rust_waf.Common.Text.{white_len, split, ends_with}

-- `char::from_u32`: no surrogate, and nothing past the last code point.
abbrev pub from_u32 : ℕ → Option ℕ
from_u32 n = if ltb n 0xD800 || within 0xE000 0x10FFFF n then some n else none

-- `String::push` of a character.
abbrev pub encode_utf8 : ℕ → Bytes
encode_utf8 n =
    if ltb n 0x80
    then n ∷ []
    else if ltb n 0x800
    then (0xC0 + n / 64) ∷ (0x80 + n % 64) ∷ []
    else if ltb n 0x10000
    then (0xE0 + n / 4096) ∷ (0x80 + n / 64 % 64) ∷ (0x80 + n % 64) ∷ []
    else (0xF0 + n / 262144) ∷ (0x80 + n / 4096 % 64) ∷ (0x80 + n / 64 % 64) ∷ (0x80 + n % 64) ∷ []

abbrev pub is_ascii_hexdigit : ℕ → Bool
is_ascii_hexdigit c = is_ascii_digit c || within b'a' b'f' c || within b'A' b'F' c

abbrev pub digit_value : ℕ → ℕ
digit_value c = if is_ascii_digit c then c - 48 else if leb 97 c then c - 87 else c - 55

hex_digits : ℕ → Bytes → Option ℕ
hex_digits n [] = some n
hex_digits n (c ∷ s) =
    let rest = hex_digits (n * 16 + digit_value c) s in if is_ascii_hexdigit c then rest else none

unsigned_hex : Bytes → Option ℕ
unfolding hex_digits
unsigned_hex [] = none
unsigned_hex (c ∷ []) = hex_digits 0 (c ∷ [])
unsigned_hex (c ∷ d ∷ s) = if c == b'+' then hex_digits 0 (d ∷ s) else hex_digits 0 (c ∷ d ∷ s)

abbrev in_u32 : Option ℕ → Option ℕ
in_u32 none = none
in_u32 (some n) = if leb n 0xFFFFFFFF then some n else none

-- `u32::from_str_radix(s, 16)`: an optional `+`, then one digit or more.
unfoldable pub from_str_radix_16 : Bytes → Option ℕ
unfolding unsigned_hex
from_str_radix_16 s = in_u32 (unsigned_hex s)

-- A slice may start or end before this rest of a text.
abbrev pub is_char_boundary : Bytes → Bool
is_char_boundary [] = true
is_char_boundary (c ∷ s) = not (within 0x80 0xBF c)

-- `str::contains`
unfoldable pub contains : Bytes → Bytes → Bool
contains needle [] = starts_with needle []
contains needle (c ∷ s) = starts_with needle (c ∷ s) || contains needle s

abbrev pub to_lower : Bytes → Bytes
to_lower s = map to_ascii_lowercase s

abbrev pub to_ascii_uppercase : ℕ → ℕ
to_ascii_uppercase c = if within b'a' b'z' c then c - 32 else c

abbrev pub to_upper : Bytes → Bytes
to_upper s = map to_ascii_uppercase s

abbrev pub push_word : Bytes → List Bytes → List Bytes
push_word [] words = words
push_word (c ∷ word) words = (c ∷ word) ∷ words

-- `split_whitespace`; `skip` bytes of a White_Space character are still to come.
words_from : ℕ → Bytes → Bytes → List Bytes
unfolding white_len
words_from skip word [] = push_word word []
words_from (suc skip) word (c ∷ s) = words_from skip word s
words_from zero word (c ∷ s) = elim (white_len (c ∷ s)) [
  | zero ↦ words_from zero (word ++ (c ∷ [])) s
  | suc n ↦ push_word word (words_from n [] s)
]

unfoldable pub split_whitespace : Bytes → List Bytes
unfolding words_from
split_whitespace = words_from 0 []

abbrev strip_cr : Bytes → Bytes
strip_cr line = if ends_with (b'\r' ∷ []) line then take (length line - 1) line else line

abbrev ended : List Bytes → List Bytes
ended [] = []
ended ([] ∷ []) = []
ended ((c ∷ line) ∷ []) = (c ∷ line) ∷ []
ended (line ∷ next ∷ lines) = strip_cr line ∷ ended (next ∷ lines)

-- `str::lines`
unfoldable pub lines : Bytes → List Bytes
lines s = ended (split b'\n' s)
