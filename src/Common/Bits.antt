-- ===== src/Common/Bits.antt =====
-- `bit_or` of numbers with no common digit is their sum; `bit_and` with 1 is the parity.
use Prim.Native.Nat.{ℕ, zero, suc, ◌+◌, ◌*◌, ◌/◌, ◌%◌, ◌^◌, ◌≤◌, ◌<◌, max}
use Prim.Native.Nat.{bit_and, bit_or, digits, bit_or-bitwise}
use mathlib.Core.Path.{◌≡◌, refl}
use mathlib.Core.Bool.{Bool, true, ◌&&◌}
use model_crypt.Common.Tests.{◌==◌}
use native.Mathlib.Omega.{arith}
use native.Mathlib.Nat.{pow-suc}

abbrev or_digits : ℕ → ℕ → ℕ → ℕ
or_digits n a b = digits (λ b. b) max n a b

-- Any fuel that the first number does not exceed gives the same digits.
or_digits_fuel : (n m x y : ℕ) → x ≤ n → x ≤ m → or_digits n x y ≡ or_digits m x y
or_digits_fuel (suc n) (suc m) (suc x) y low low' =
    omega (arith, or_digits_fuel n m (suc x / 2) (y / 2) (omega arith) (omega arith))
or_digits_fuel (suc n) zero (suc x) y low low' = absurd (omega arith)
or_digits_fuel zero (suc m) (suc x) y low low' = absurd (omega arith)
or_digits_fuel (suc n) (suc m) zero y low low' = refl
or_digits_fuel (suc n) zero zero y low low' = refl
or_digits_fuel zero (suc m) zero y low low' = refl
or_digits_fuel zero zero x y low low' = refl

zero-bit_or : (b : ℕ) → bit_or 0 b ≡ b
zero-bit_or b = bit_or-bitwise 0 b

bit_or_step : (a b : ℕ) → bit_or a b ≡ bit_or (a / 2) (b / 2) * 2 + max (a % 2) (b % 2)
bit_or_step zero b = omega (arith, zero-bit_or b, zero-bit_or (b / 2))
bit_or_step (suc a) b = omega (
  arith,
  bit_or-bitwise (suc a) b,
  bit_or-bitwise (suc a / 2) (b / 2),
  or_digits_fuel a (suc a / 2) (suc a / 2) (b / 2) (omega arith) (omega arith),
)

-- A number below `2 ^ k` and a multiple of `2 ^ k` share no digit.
pub bit_or_disjoint : (k x y : ℕ) → x < 2 ^ k → bit_or x (y * 2 ^ k) ≡ x + y * 2 ^ k
bit_or_disjoint zero zero y h = omega (arith, zero-bit_or (y * 2 ^ 0))
bit_or_disjoint zero (suc x) y h = absurd (omega arith)
bit_or_disjoint (suc k) x y h =
    let d : 2 ^ suc k ≡ 2 * 2 ^ k = rw (pow-suc 2 k) (omega arith) in
    let e : y * 2 ^ suc k ≡ 2 * (y * 2 ^ k) = rw d (omega arith) in
    let half : (2 * (y * 2 ^ k)) / 2 ≡ y * 2 ^ k = omega arith in
    rw (e, bit_or_step x (2 * (y * 2 ^ k)), half)
      (omega (arith, bit_or_disjoint k (x / 2) y (omega arith)))

-- Over a small range, check every value by evaluation.
agree_below : (f g : ℕ → ℕ) → ℕ → Bool
agree_below f g zero = true
agree_below f g (suc n) = (f n == g n) && agree_below f g n

agree_below_sound : (f g : ℕ → ℕ) (n : ℕ) → agree_below f g n ≡ true → (i : ℕ) → i < n → f i ≡ g i
unfolding agree_below
agree_below_sound f g zero e i h = absurd (omega arith)
agree_below_sound f g (suc n) e i h = ground (arith, agree_below_sound f g n (ground arith) i)

-- The flag bit of a byte, and the bits beside it.
pub bit_and_one : (b : ℕ) → b < 256 → bit_and b 1 ≡ b % 2
unfolding agree_below
bit_and_one = agree_below_sound _ _ 256 refl

pub bit_and_others : (b : ℕ) → b < 256 → bit_and b 0xfe ≡ b / 2 * 2
unfolding agree_below
bit_and_others = agree_below_sound _ _ 256 refl
