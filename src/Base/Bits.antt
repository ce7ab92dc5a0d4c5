-- ===== src/Base/Bits.antt =====
-- Masks of ones: `a & (2 ^ k - 1)` is `a % 2 ^ k` for the masks that the programs use.
use Prim.Native.Nat.{ℕ, zero, suc, ◌+◌, ◌*◌, ◌/◌, ◌%◌, ◌≤◌, min, bit_and, digits, bit_and-bitwise}
use mathlib.Core.Path.{◌≡◌, refl}
use native.Mathlib.Omega.{arith}

-- The recursion over binary digits behind `bit_and`, with `n` rounds at most.
abbrev anding : ℕ → ℕ → ℕ → ℕ
anding n x y = digits (λ y. zero) min n x y

-- Any two counts of rounds that are enough for `x` give the same.
rounds_enough : (m n x y : ℕ) → x ≤ m → x ≤ n → anding m x y ≡ anding n x y
rounds_enough zero zero x y p q = refl
rounds_enough zero (suc n) zero y p q = refl
rounds_enough zero (suc n) (suc x) y p q = absurd (omega arith)
rounds_enough (suc m) zero zero y p q = refl
rounds_enough (suc m) zero (suc x) y p q = absurd (omega arith)
rounds_enough (suc m) (suc n) zero y p q = refl
rounds_enough (suc m) (suc n) (suc x) y p q =
    omega (arith, rounds_enough m n (suc x / 2) (y / 2) (omega arith) (omega arith))

zero-and : (y : ℕ) → bit_and 0 y ≡ 0
zero-and y = bit_and-bitwise 0 y

-- The last digit apart from the others.
halves : (x y : ℕ) → bit_and x y ≡ bit_and (x / 2) (y / 2) * 2 + min (x % 2) (y % 2)
halves zero y = omega (arith, zero-and y, zero-and (y / 2))
halves (suc x) y = omega (
  arith,
  bit_and-bitwise (suc x) y,
  bit_and-bitwise (suc x / 2) (y / 2),
  rounds_enough x (suc x / 2) (suc x / 2) (y / 2) (omega arith) (omega arith),
)

and-zero_upto : (n x : ℕ) → x ≤ n → bit_and x 0 ≡ 0
and-zero_upto n zero h = zero-and 0
and-zero_upto zero (suc x) h = absurd (omega arith)
and-zero_upto (suc n) (suc x) h =
    omega (arith, halves (suc x) 0, and-zero_upto n (suc x / 2) (omega arith))

-- a & 1, a & 3 and so on.
and_1 : (a : ℕ) → bit_and a 1 ≡ a % 2
and_1 a = omega (arith, halves a 1, and-zero_upto (a / 2) (a / 2) (omega arith))

pub and_7 : (a : ℕ) → bit_and a 7 ≡ a % 8
and_7 a = omega (arith, halves a 7, halves (a / 2) 3, and_1 (a / 2 / 2))

and_127 : (a : ℕ) → bit_and a 127 ≡ a % 128
and_127 a = omega (
  arith,
  halves a 127,
  halves (a / 2) 63,
  halves (a / 2 / 2) 31,
  halves (a / 2 / 2 / 2) 15,
  and_7 (a / 2 / 2 / 2 / 2),
)

pub and_8191 : (a : ℕ) → bit_and a 8191 ≡ a % 8192
and_8191 a = omega (
  arith,
  halves a 8191,
  halves (a / 2) 4095,
  halves (a / 2 / 2) 2047,
  halves (a / 2 / 2 / 2) 1023,
  halves (a / 2 / 2 / 2 / 2) 511,
  halves (a / 2 / 2 / 2 / 2 / 2) 255,
  and_127 (a / 2 / 2 / 2 / 2 / 2 / 2),
)
