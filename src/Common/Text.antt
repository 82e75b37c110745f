-- ===== src/Common/Text.antt =====
-- The `str` operations of the standard library that the code calls, on UTF-8 bytes. The separators
-- and prefixes that the code passes are ASCII, so cutting at a byte never cuts a character.
use Prim.Native.Nat.{ℕ, zero, suc}
use mathlib.Core.Bool.{Bool, ◌&&◌, ◌||◌}
use mathlib.Core.Path.{◌≡◌}
use mathlib.Core.Logic.{◌↔◌}
use native.Mathlib.Omega.{arith}
use mathlib.Core.List.{List, [], ◌∷◌, ◌++◌, reverse}
use mathlib.Core.Option.{Option, none, some}
use mathlib.Core.Option
use rust_waf.Common.Tests.{◌==◌, within, if◌then◌else◌}
use rust_waf.Common.Slices.{Bytes, starts_with}

-- The length in bytes of the White_Space character at the front, or 0.
unfoldable pub white_len : Bytes → ℕ
white_len [] = 0
white_len (a ∷ []) = if within 9 13 a || a == 32 then 1 else 0
white_len (a ∷ b ∷ []) =
    if within 9 13 a || a == 32 then 1 else if a == 0xC2 && (b == 0x85 || b == 0xA0) then 2 else 0
white_len (a ∷ b ∷ c ∷ _) =
    if within 9 13 a || a == 32
    then 1
    else if a == 0xC2 && (b == 0x85 || b == 0xA0)
    then 2
    else if (a == 0xE1 && b == 0x9A && c == 0x80)
        || (a == 0xE2 && b == 0x80 && (within 0x80 0x8A c || within 0xA8 0xA9 c || c == 0xAF))
        || (a == 0xE2 && b == 0x81 && c == 0x9F)
        || (a == 0xE3 && b == 0x80 && c == 0x80)
    then 3
    else 0

-- The same for the last character, on the reversed bytes.
unfoldable pub white_len_back : Bytes → ℕ
unfolding white_len
white_len_back [] = 0
white_len_back (a ∷ []) = white_len (a ∷ [])
white_len_back (b ∷ a ∷ []) =
    if white_len (b ∷ []) == 1 then 1 else if white_len (a ∷ b ∷ []) == 2 then 2 else 0
white_len_back (c ∷ b ∷ a ∷ _) =
    if white_len (c ∷ []) == 1
    then 1
    else if white_len (b ∷ c ∷ []) == 2
    then 2
    else if white_len (a ∷ b ∷ c ∷ []) == 3
    then 3
    else 0

-- `skip` bytes of a character that is being dropped are still to come.
trim_front : (Bytes → ℕ) → ℕ → Bytes → Bytes
trim_front len skip [] = []
trim_front len (suc skip) (c ∷ s) = trim_front len skip s
trim_front len zero (c ∷ s) = elim (len (c ∷ s)) [ zero ↦ c ∷ s | suc n ↦ trim_front len n s ]

unfoldable pub trim_start : Bytes → Bytes
unfolding trim_front white_len
trim_start = trim_front white_len 0

unfoldable pub trim_end : Bytes → Bytes
unfolding trim_front white_len_back
trim_end s = reverse (trim_front white_len_back 0 (reverse s))

unfoldable pub trim : Bytes → Bytes
unfolding trim_start trim_end
trim s = trim_end (trim_start s)

-- `split(sep)`: one piece more than there are separators.
abbrev pub cons_head : ℕ → List Bytes → List Bytes
cons_head c [] = (c ∷ []) ∷ []
cons_head c (p ∷ ps) = (c ∷ p) ∷ ps

unfoldable pub split : ℕ → Bytes → List Bytes
split sep [] = [] ∷ []
split sep (c ∷ s) = let rest = split sep s in if c == sep then [] ∷ rest else cons_head c rest

-- `find(sep)` and the slices before and after it, as `split_once(sep)` gives them.
unfoldable pub split_once : ℕ → Bytes → Option (Bytes × Bytes)
split_once sep [] = none
split_once sep (c ∷ s) =
    let rest = Option.map (λ (r : Bytes × Bytes). (c ∷ r.0, r.1)) (split_once sep s) in
    if c == sep then some ([], s) else rest

unfoldable pub strip_prefix : Bytes → Bytes → Option Bytes
strip_prefix [] s = some s
strip_prefix (p ∷ ps) [] = none
strip_prefix (p ∷ ps) (c ∷ s) = let rest = strip_prefix ps s in if p == c then rest else none

abbrev pub ends_with : Bytes → Bytes → Bool
ends_with suffix s = starts_with (reverse suffix) (reverse s)

pub strip_prefix_iff : (p s r : Bytes) → (strip_prefix p s ≡ some r) ↔ (s ≡ p ++ r)
unfolding strip_prefix
strip_prefix_iff [] s r = ground arith
strip_prefix_iff (x ∷ p) [] r = ground arith
strip_prefix_iff (x ∷ p) (c ∷ s) r = ground (arith, strip_prefix_iff p s r)
