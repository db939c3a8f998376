-- ===== src/Base/Bits.antt =====
-- `|` of numbers whose digits do not overlap, and the halves of a `u128`.
use Prim.Native.Nat.{
  ℕ, zero, suc, ◌+◌, ◌*◌, ◌/◌, ◌%◌, ◌^◌, ◌≤◌, ◌<◌, max, bit_or, digits, bit_or-bitwise,
}
use mathlib.Core.Path.{◌≡◌, refl, ap}
use native.Mathlib.Nat.{pow-suc}
use native.Mathlib.Omega.{arith}

abbrev or_digits : ℕ → ℕ → ℕ → ℕ
or_digits = digits (λ b. b) max

or_digits_fuel : (n m a b : ℕ) → a ≤ n → a ≤ m → or_digits n a b ≡ or_digits m a b
or_digits_fuel zero zero a b p q = refl
or_digits_fuel zero (suc m) zero b p q = refl
or_digits_fuel zero (suc m) (suc a) b p q = absurd (omega arith)
or_digits_fuel (suc n) zero zero b p q = refl
or_digits_fuel (suc n) zero (suc a) b p q = absurd (omega arith)
or_digits_fuel (suc n) (suc m) zero b p q = refl
or_digits_fuel (suc n) (suc m) (suc a) b p q =
    omega (arith, or_digits_fuel n m (suc a / 2) (b / 2) (omega arith) (omega arith))

zero-bit_or : (b : ℕ) → bit_or 0 b ≡ b
zero-bit_or b = bit_or-bitwise 0 b

-- the lowest digit, and the others
bit_or_step : (a b : ℕ) → bit_or a b ≡ bit_or (a / 2) (b / 2) * 2 + max (a % 2) (b % 2)
bit_or_step zero b = omega (arith, zero-bit_or b, zero-bit_or (b / 2))
bit_or_step (suc a) b = omega (
  arith,
  bit_or-bitwise (suc a) b,
  bit_or-bitwise (suc a / 2) (b / 2),
  or_digits_fuel a (suc a / 2) (suc a / 2) (b / 2) (omega arith) (omega arith),
)

bit_or-zero_fuel : (n a : ℕ) → a ≤ n → bit_or a 0 ≡ a
bit_or-zero_fuel n zero h = refl
bit_or-zero_fuel zero (suc a) h = absurd (omega arith)
bit_or-zero_fuel (suc n) (suc a) h =
    omega (arith, bit_or_step (suc a) 0, bit_or-zero_fuel n (suc a / 2) (omega arith))

-- A number shifted past the digits of another: `|` is the sum.
pub bit_or-shifted : (k h l : ℕ) → l < 2 ^ k → bit_or (h * 2 ^ k) l ≡ h * 2 ^ k + l
bit_or-shifted zero h l lt =
    let none_left : l ≡ 0 = omega arith in
    let whole : h * 2 ^ 0 ≡ h = omega arith in
    rw (none_left, whole) (omega (arith, bit_or-zero_fuel h h (omega arith)))
bit_or-shifted (suc k) h l lt =
    let x = h * 2 ^ k in
    let double : h * 2 ^ suc k ≡ x * 2 = rw pow-suc (omega arith) in
    let half : x * 2 / 2 ≡ x = omega arith in
    let below : l / 2 < 2 ^ k = omega (arith, pow-suc 2 k) in
    rw double (
      omega (
        arith,
        bit_or_step (x * 2) l,
        ap (λ (t : ℕ). bit_or t (l / 2)) half,
        bit_or-shifted k h (l / 2) below,
      ))

-- `((hi as u128) << u64::BITS) | lo as u128`
unfoldable pub join_u64 : ℕ → ℕ → ℕ
join_u64 hi lo = bit_or (hi * 2 ^ 64) lo

pub join_u64-sum : (hi lo : ℕ) → lo < 2 ^ 64 → join_u64 hi lo ≡ hi * 2 ^ 64 + lo
unfolding join_u64
join_u64-sum hi lo h = bit_or-shifted 64 hi lo h

-- `(x >> u64::BITS) as u64` and `x as u64`
abbrev pub high_u64 : ℕ → ℕ
high_u64 x = x / 2 ^ 64 % 2 ^ 64

abbrev pub low_u64 : ℕ → ℕ
low_u64 x = x % 2 ^ 64

pub join_u64-halves : (x : ℕ) → x < 2 ^ 128 → join_u64 (high_u64 x) (low_u64 x) ≡ x
join_u64-halves x h = rw (join_u64-sum (high_u64 x) (low_u64 x) (omega arith)) (omega arith)

pub halves-join_u64 :
    (hi lo : ℕ)
    → hi < 2 ^ 64
    → lo < 2 ^ 64
    → (high_u64 (join_u64 hi lo) ≡ hi) × (low_u64 (join_u64 hi lo) ≡ lo)
halves-join_u64 hi lo h l = rw (join_u64-sum hi lo l) (omega arith)
