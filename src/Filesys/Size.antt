-- ===== src/Filesys/Size.antt =====
-- What bytes_human_readable prints.
use http_file_sharing.Prelude.{
  ℕ, zero, suc, ◌+◌, ◌*◌, ◌/◌, ◌%◌, ◌^◌, ◌≤◌, ◌<◌, ◌≡◌, refl, ◌∙◌, inl, inr, true, false, some, [],
  ◌∷◌, ◌++◌, arith, ltb, leb, if◌then◌else◌, Bool-cases, get_or, Bytes, codes, decimal,
}
use Prim.Native.Nat.{bit_and}
use native.Mathlib.Nat.{mul-le-mul_right}
use http_file_sharing.Prelude.Bits.{bit_and_1023}
use http_file_sharing.Filesys.{last_n_bits_set, human_loop, sizes, bytes_human_readable}

-- 1024 to the power of k.
abbrev pub kilo : ℕ → ℕ
kilo zero = 1
kilo (suc k) = 1024 * kilo k

-- The number of bytes, divided k times by 1024.
abbrev pub scaled : ℕ → ℕ → ℕ
scaled bytes zero = bytes
scaled bytes (suc k) = scaled bytes k / 1024

-- The remainder of the last of k divisions.
abbrev pub last_rem : ℕ → ℕ → ℕ
last_rem bytes zero = 0
last_rem bytes (suc k) = scaled bytes k % 1024

scaled_bounds :
    (bytes k : ℕ) → (scaled bytes k * kilo k ≤ bytes) × (bytes < (scaled bytes k + 1) * kilo k)
scaled_bounds bytes zero = omega arith
scaled_bounds bytes (suc k) =
    let (low, high) = scaled_bounds bytes k in
    let q = scaled bytes k / 1024 in
    let fits : 1024 * q ≤ scaled bytes k = omega arith in
    let room : scaled bytes k + 1 ≤ 1024 * (q + 1) = omega arith in
    (
      omega (arith, low, mul-le-mul_right (kilo k) fits),
      omega (arith, high, mul-le-mul_right (kilo k) room),
    )

-- The mask and the shift are the remainder and the quotient that the comments name.
human_round :
    (quot : ℕ) → (bit_and quot (last_n_bits_set 10) ≡ quot % 1024) × (quot / 2 ^ 10 ≡ quot / 1024)
human_round quot = (bit_and_1023 quot, refl)

human_loop_lem :
    (f bytes k : ℕ)
    → scaled bytes k < kilo (suc f)
    → (n : ℕ) × (n ≤ k + f)
      × (k ≤ n)
      × (human_loop (suc f) (scaled bytes k) (last_rem bytes k) k
          ≡ some (scaled bytes n, last_rem bytes n, n))
      × (scaled bytes n ≤ 1024)
unfolding human_loop
human_loop_lem zero bytes k h =
    let small : ltb 1024 (scaled bytes k) ≡ false = ground arith in
    (k, omega arith, omega arith, rw small, omega arith)
human_loop_lem (suc f) bytes k h = elim (Bool-cases (ltb 1024 (scaled bytes k))) [
  | inr small ↦ (k, omega arith, omega arith, rw small, ground arith)
  | inl large ↦
      let smaller : scaled bytes (suc k) < kilo (suc f) = omega arith in
      let (n, few, more, result, fits) = human_loop_lem f bytes (suc k) smaller in
      let step : k + 1 ≡ suc k = omega arith in
      (n, omega arith, omega arith, rw (large, bit_and_1023 (scaled bytes k), step) result, fits)
]

-- The unit of a number of divisions.
abbrev pub unit_of : ℕ → Bytes
unit_of k = get_or sizes (if leb 5 k then 4 else k) []

-- For a 64-bit size the loop ends within its rounds: the text is a number of at most 1024, a dot,
-- the remainder of the last of k ≤ 6 divisions by 1024, and the unit of k, which is TB from 4 on.
-- The number is the size in units of 1024^k bytes, rounded down.
pub bytes_human_readable_lem :
    (bytes : ℕ)
    → bytes < 2 ^ 64
    → (k : ℕ) × (k ≤ 6)
      × (bytes_human_readable bytes
          ≡ some (
              decimal (scaled bytes k)
              ++ (b'.' ∷ (decimal (last_rem bytes k) ++ (b' ' ∷ unit_of k)))))
      × (scaled bytes k ≤ 1024)
      × (scaled bytes k * kilo k ≤ bytes)
      × (bytes < (scaled bytes k + 1) * kilo k)
unfolding bytes_human_readable
bytes_human_readable_lem bytes h =
    let (k, few, more, result, fits) = human_loop_lem 6 bytes 0 (omega arith) in
    let (low, high) = scaled_bounds bytes k in (k, omega arith, rw result, fits, low, high)

-- A size of 1025 TB or more is divided at least five times.
huge_order :
    (bytes k : ℕ)
    → scaled bytes k ≤ 1024
    → bytes < (scaled bytes k + 1) * kilo k
    → 1025 * 2 ^ 40 ≤ bytes
    → 5 ≤ k
huge_order bytes zero fits high large = absurd (omega arith)
huge_order bytes (suc zero) fits high large = absurd (omega arith)
huge_order bytes (suc (suc zero)) fits high large = absurd (omega arith)
huge_order bytes (suc (suc (suc zero))) fits high large = absurd (omega arith)
huge_order bytes (suc (suc (suc (suc zero)))) fits high large = absurd (omega arith)
huge_order bytes (suc (suc (suc (suc (suc k))))) fits high large = omega arith

unit_huge : (k : ℕ) → 5 ≤ k → unit_of k ≡ codes "TB"
unit_huge k h = let e : leb 5 k ≡ true = ground arith in rw e

-- From 1025 TB on the printed number is wrong: for such a 64-bit size the unit is still TB, and
-- the number in front of the dot is below the size in units of 2^40 bytes, rounded down.
pub bytes_human_readable_huge :
    (bytes : ℕ)
    → bytes < 2 ^ 64
    → 1025 * 2 ^ 40 ≤ bytes
    → (quot : ℕ) × (rem : ℕ) × (bytes_human_readable bytes
        ≡ some (decimal quot ++ (b'.' ∷ (decimal rem ++ (b' ' ∷ codes "TB")))))
      × (quot < bytes / 2 ^ 40)
bytes_human_readable_huge bytes h large =
    let (k, few, result, fits, low, high) = bytes_human_readable_lem bytes h in
    (
      scaled bytes k,
      last_rem bytes k,
      result ∙ rw (unit_huge k (huge_order bytes k fits high large)),
      omega arith,
    )
