-- ===== src/Common/Utf8.antt =====
-- `std::str::from_utf8` and `String::from_utf8_lossy`: the division of bytes into well-formed
-- characters and the longest starts of ill-formed ones.
use Prim.Native.Nat.{ℕ, zero, suc}
use mathlib.Core.Path.{◌≡◌, refl, ap}
use mathlib.Core.Bool.{Bool, true, false, ◌&&◌, ◌||◌}
use mathlib.Core.List.{[], ◌∷◌}
use mathlib.Core.Option.{Option, none, some}
use native.Mathlib.Omega.{arith}
use rust_waf.Common.Tests.{ltb, ◌==◌, within, if◌then◌else◌}
use rust_waf.Common.Slices.{Bytes}

-- A read past the end gives 0, which no character continues with.
abbrev byte_at : Bytes → ℕ → ℕ
byte_at [] i = 0
byte_at (c ∷ s) zero = c
byte_at (c ∷ s) (suc i) = byte_at s i

abbrev is_continuation : ℕ → Bool
is_continuation = within 0x80 0xBF

-- Which second bytes may follow a leading byte of three or four.
second_of_three : ℕ → ℕ → Bool
second_of_three a b =
    (a == 0xE0 && within 0xA0 0xBF b)
    || (within 0xE1 0xEC a && within 0x80 0xBF b)
    || (a == 0xED && within 0x80 0x9F b)
    || (within 0xEE 0xEF a && within 0x80 0xBF b)

second_of_four : ℕ → ℕ → Bool
second_of_four a b =
    (a == 0xF0 && within 0x90 0xBF b)
    || (within 0xF1 0xF3 a && within 0x80 0xBF b)
    || (a == 0xF4 && within 0x80 0x8F b)

-- Whether a character stands at the front, and how many bytes behind the first one belong to it, or
-- to the ill-formed start that one replacement character stands for.
chunk : ℕ → Bytes → Bool × ℕ
unfolding second_of_three second_of_four
chunk a s =
    if ltb a 0x80
    then (true, 0)
    else if within 0xC2 0xDF a
    then if is_continuation (byte_at s 0) then (true, 1) else (false, 0)
    else if within 0xE0 0xEF a
    then if second_of_three a (byte_at s 0)
      then if is_continuation (byte_at s 1) then (true, 2) else (false, 1)
      else (false, 0)
    else if within 0xF0 0xF4 a
    then if second_of_four a (byte_at s 0)
      then if is_continuation (byte_at s 1)
        then if is_continuation (byte_at s 2) then (true, 3) else (false, 2)
        else (false, 1)
      else (false, 0)
    else (false, 0)

-- `rest` bytes of a character are still to come.
utf8_from : ℕ → Bytes → Bool
utf8_from rest [] = true
utf8_from (suc rest) (c ∷ s) = utf8_from rest s
utf8_from zero (c ∷ s) = (chunk c s).0 && utf8_from (chunk c s).1 s

lossy_from : Bool → ℕ → Bytes → Bytes
lossy_from keep rest [] = []
lossy_from true (suc rest) (c ∷ s) = c ∷ lossy_from true rest s
lossy_from false (suc rest) (c ∷ s) = lossy_from false rest s
lossy_from keep zero (c ∷ s) =
    let more = lossy_from (chunk c s).0 (chunk c s).1 s in
    if (chunk c s).0 then c ∷ more else 0xEF ∷ 0xBF ∷ 0xBD ∷ more

unfoldable pub is_utf8 : Bytes → Bool
unfolding utf8_from chunk
is_utf8 = utf8_from 0

unfoldable pub from_utf8 : Bytes → Option Bytes
unfolding is_utf8
from_utf8 s = if is_utf8 s then some s else none

unfoldable pub from_utf8_lossy : Bytes → Bytes
unfolding lossy_from chunk
from_utf8_lossy = lossy_from true 0

lossy_from-utf8_from : (rest : ℕ) (s : Bytes) → utf8_from rest s ≡ true → lossy_from true rest s ≡ s
unfolding utf8_from lossy_from
lossy_from-utf8_from rest [] h = refl
lossy_from-utf8_from (suc rest) (c ∷ s) h = ap (◌∷◌ c) (lossy_from-utf8_from rest s h)
lossy_from-utf8_from zero (c ∷ s) h = ground (arith, lossy_from-utf8_from (chunk c s).1 s)

-- Well-formed text is not changed.
pub from_utf8_lossy-is_utf8 : (s : Bytes) → is_utf8 s ≡ true → from_utf8_lossy s ≡ s
unfolding from_utf8_lossy is_utf8
from_utf8_lossy-is_utf8 s h = lossy_from-utf8_from 0 s h
