-- ===== src/Common/Bits.antt =====
-- `&` with a mask of leading ones, as a division. The library has no law of `bit_and` at variables
-- but the definition by digits that the native operation stands for.
use Prim.Native.Nat.{
  ℕ, zero, suc, ◌+◌, ◌-◌, ◌*◌, ◌/◌, ◌%◌, ◌^◌, ◌≤◌, ◌<◌, min, bit_and, digits, bit_and-bitwise,
}
use mathlib.Core.Path.{◌≡◌, refl, sym, ap, ◌∙◌}
use mathlib.Core.Bool.{Bool, true, ◌&&◌}
use mathlib.Core.Logic.{inl, inr}
use native.Mathlib.Omega.{arith}
use native.Mathlib.Nat.{pow-suc}
use rust_waf.Common.Tests.{◌==◌, ==_iff, Bool-cases}

-- What `bit_and` computes by, given a number of digits to read.
abbrev conjunction : (count a b : ℕ) → ℕ
conjunction count a b = digits (λ _. zero) min count a b

-- A number needs no more digits than its value.
one_more : (count a b : ℕ) → a ≤ count → conjunction count a b ≡ conjunction (suc count) a b
one_more zero zero b enough = refl
one_more zero (suc a) b enough = elim enough [ ]
one_more (suc count) zero b enough = refl
one_more (suc count) (suc a) b enough =
    ap (λ (rest : ℕ). rest * 2 + min (suc a % 2) (b % 2))
      (one_more count (suc a / 2) (b / 2) (omega arith))

any_more :
    (extra count total a b : ℕ)
    → a ≤ count
    → total ≡ extra + count
    → conjunction count a b ≡ conjunction total a b
any_more zero count total a b enough sum =
    ap (λ (n : ℕ). conjunction n a b) {y = total} (omega arith)
any_more (suc extra) count total a b enough sum =
    one_more count a b enough ∙ any_more extra (suc count) total a b (omega arith) (omega arith)

-- The lowest digit of a conjunction, and the rest.
bit_and_digit : (a b : ℕ) → bit_and a b ≡ bit_and (a / 2) (b / 2) * 2 + min (a % 2) (b % 2)
bit_and_digit zero b = omega (arith, bit_and-bitwise 0 b, bit_and-bitwise 0 (b / 2))
bit_and_digit (suc a) b =
    let half = suc a / 2 in
    bit_and-bitwise (suc a) b
    ∙ ap (λ (rest : ℕ). rest * 2 + min (suc a % 2) (b % 2))
        (sym (any_more (a - half) half a half (b / 2) (omega arith) (omega arith))
          ∙ sym (bit_and-bitwise half (b / 2)))

-- `p` ones followed by `k` zeros.
abbrev pub ones : ℕ → ℕ
ones zero = 0
ones (suc p) = 2 * ones p + 1

abbrev pub high_mask : ℕ → ℕ → ℕ
high_mask p zero = ones p
high_mask p (suc k) = 2 * high_mask p k

bit_and-ones : (p a : ℕ) → a < 2 ^ p → bit_and a (ones p) ≡ a
bit_and-ones zero zero h = refl
bit_and-ones zero (suc a) h = absurd (omega arith)
bit_and-ones (suc p) a h = omega (
  arith,
  bit_and_digit a (ones (suc p)),
  ap (bit_and (a / 2)) half,
  bit_and-ones p (a / 2) (omega (arith, pow-suc 2 p)),
)
  where
    half : (2 * ones p + 1) / 2 ≡ ones p
    half = omega arith

-- What is left of `a` when its `k` lowest binary digits are dropped, and `k` zeros behind `x`.
abbrev pub drop_digits : ℕ → ℕ → ℕ
drop_digits zero a = a
drop_digits (suc k) a = drop_digits k (a / 2)

abbrev pub add_zeros : ℕ → ℕ → ℕ
add_zeros zero x = x
add_zeros (suc k) x = 2 * add_zeros k x

pub bit_and-high_mask :
    (p k a : ℕ)
    → a < add_zeros k (2 ^ p)
    → bit_and a (high_mask p k) ≡ add_zeros k (drop_digits k a)
bit_and-high_mask p zero a h = bit_and-ones p a h
bit_and-high_mask p (suc k) a h = omega (
  arith,
  bit_and_digit a (high_mask p (suc k)),
  ap (bit_and (a / 2)) half,
  bit_and-high_mask p k (a / 2) (omega arith),
)
  where
    half : (2 * high_mask p k) / 2 ≡ high_mask p k
    half = omega arith

pub add_zeros-injective : (k x y : ℕ) → add_zeros k x ≡ add_zeros k y → x ≡ y
add_zeros-injective zero x y h = h
add_zeros-injective (suc k) x y h = add_zeros-injective k x y (omega arith)

-- The test holds for every number up to `last`: a table to be evaluated.
unfoldable pub table : ℕ → (ℕ → Bool) → Bool
table zero holds = holds 0
table (suc last) holds = table last holds && holds (suc last)

pub table-entry :
    (last : ℕ) (holds : ℕ → Bool) → table last holds ≡ true → (i : ℕ) → i ≤ last → holds i ≡ true
unfolding table
table-entry zero holds full zero within_range = full
table-entry zero holds full (suc i) within_range = elim within_range [ ]
table-entry (suc last) holds full i within_range = elim (Bool-cases (i == suc last)) [
  | inl top ↦ rw ((==_iff i (suc last)).0 top) (ground (arith, full))
  | inr lower ↦ table-entry last holds (ground (arith, full)) i (ground (arith, lower))
]
