-- ===== src/Common/Decimal.antt =====
-- The decimal text of a number, as `format!("{}", n)` writes it.
use Prim.Native.Nat.{ℕ, zero, suc, ◌+◌, ◌/◌, ◌%◌, ◌*◌, ◌-◌}
use mathlib.Core.Option.{Option, none, some}
use mathlib.Core.List.{[], ◌∷◌}
use rust_waf.Common.Tests.{ltb, leb, ◌==◌, if◌then◌else◌}
use rust_waf.Common.Slices.{Bytes, is_ascii_digit}

-- Each round drops a digit, so `n` rounds are enough for `n`.
decimal_from : ℕ → ℕ → Bytes → Bytes
decimal_from zero n digits = (b'0' + n % 10) ∷ digits
decimal_from (suc fuel) n digits =
    let more = decimal_from fuel (n / 10) ((b'0' + n % 10) ∷ digits) in
    if ltb n 10 then (b'0' + n % 10) ∷ digits else more

unfoldable pub decimal : ℕ → Bytes
unfolding decimal_from
decimal n = decimal_from n n []

-- `str::parse` into an unsigned integer with the greatest value `top`: an optional `+`, then one
-- digit or more, and `Err` on any other byte or beyond `top`.
parse_digits : ℕ → Bytes → Option ℕ
parse_digits n [] = some n
parse_digits n (c ∷ s) =
    let rest = parse_digits (n * 10 + (c - b'0')) s in if is_ascii_digit c then rest else none

parse_unsigned : Bytes → Option ℕ
unfolding parse_digits
parse_unsigned [] = none
parse_unsigned (c ∷ []) = parse_digits 0 (c ∷ [])
parse_unsigned (c ∷ d ∷ s) =
    if c == b'+' then parse_digits 0 (d ∷ s) else parse_digits 0 (c ∷ d ∷ s)

unfoldable pub parse_uint : ℕ → Bytes → Option ℕ
unfolding parse_unsigned
parse_uint top s = elim (parse_unsigned s) [
  | none ↦ none
  | some n ↦ if leb n top then some n else none
]
