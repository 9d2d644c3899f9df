-- ===== src/Prelude/Bits.antt =====
-- Masks of ones: `x & (2^k - 1)` is the remainder by 2^k.
use native.Mathlib.Decide.{dec_lt}
use Prim.Native.Nat.{min, bit_and, digits, bit_and-bitwise}
use http_file_sharing.Prelude.{ℕ, zero, suc, ◌+◌, ◌*◌, ◌/◌, ◌%◌, ◌≤◌, ◌≡◌, refl, ◌∙◌, arith}

-- The digit recursion that bit_and stands for, with a bound on the digits.
abbrev meet : ℕ → ℕ → ℕ → ℕ
meet bound x y = digits (λ d. zero) min bound x y

meet_bound : (m x y : ℕ) → x ≤ m → meet (suc m) x y ≡ meet m x y
meet_bound zero zero y h = refl
meet_bound zero (suc x) y h = absurd (omega arith)
meet_bound (suc m) zero y h = refl
meet_bound (suc m) (suc x) y h = omega (arith, meet_bound m (suc x / 2) (y / 2) (omega arith))

meet_le : (n m x y : ℕ) → x ≤ m → m ≤ n → meet n x y ≡ meet m x y
meet_le zero m x y h le = let e : m ≡ 0 = omega arith in rw e
meet_le (suc n) m x y h le = elim (dec_lt m (suc n)) [
  | yes lt ↦ meet_bound n x y (omega arith) ∙ meet_le n m x y h (omega arith)
  | no ge ↦ let e : m ≡ suc n = omega arith in rw e
]

-- One digit of a conjunction.
bit_and_digit : (x y : ℕ) → bit_and x y ≡ 2 * bit_and (x / 2) (y / 2) + min (x % 2) (y % 2)
bit_and_digit zero y = omega (arith, bit_and-bitwise 0 y, bit_and-bitwise (0 / 2) (y / 2))
bit_and_digit (suc x) y = omega (
  arith,
  bit_and-bitwise (suc x) y,
  bit_and-bitwise (suc x / 2) (y / 2),
  meet_le x (suc x / 2) (suc x / 2) (y / 2) (omega arith) (omega arith),
)

no_digits : (n x : ℕ) → x ≤ n → bit_and x 0 ≡ 0
no_digits zero x h = let e : x ≡ 0 = omega arith in rw e (bit_and-bitwise 0 0)
no_digits (suc n) x h = omega (arith, bit_and_digit x 0, no_digits n (x / 2))

mask_3 : (x : ℕ) → bit_and x 3 ≡ x % 4
mask_3 x = omega (
  arith,
  bit_and_digit x 3,
  bit_and_digit (x / 2) 1,
  no_digits (x / 2 / 2) (x / 2 / 2) (omega arith),
)

mask_31 : (x : ℕ) → bit_and x 31 ≡ x % 32
mask_31 x = omega (
  arith,
  bit_and_digit x 31,
  bit_and_digit (x / 2) 15,
  bit_and_digit (x / 2 / 2) 7,
  mask_3 (x / 2 / 2 / 2),
)

mask_127 : (x : ℕ) → bit_and x 127 ≡ x % 128
mask_127 x = omega (arith, bit_and_digit x 127, bit_and_digit (x / 2) 63, mask_31 (x / 2 / 2))

-- The mask of the ten lowest bits.
pub bit_and_1023 : (x : ℕ) → bit_and x 1023 ≡ x % 1024
bit_and_1023 x = omega (
  arith,
  bit_and_digit x 1023,
  bit_and_digit (x / 2) 511,
  bit_and_digit (x / 2 / 2) 255,
  mask_127 (x / 2 / 2 / 2),
)
