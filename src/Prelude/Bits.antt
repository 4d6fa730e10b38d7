-- ===== src/Prelude/Bits.antt =====
-- `&`, `|` and `^` on unsigned words as arithmetic: masks of low bits, and fields side by side.
use Prim.Native.Nat.{ℕ, zero, suc, ◌+◌, ◌*◌, ◌/◌, ◌%◌, ◌^◌, ◌≤◌, ◌<◌, min, max}
use Prim.Native.Nat.{bit_and, bit_or, digits, bitwise, bit_and-bitwise, bit_or-bitwise}
use mathlib.Core.Path.{◌≡◌, refl, ap}
use native.Mathlib.Nat.{pow-suc}
use native.Mathlib.Omega.{arith}

-- Fuel above the first operand changes nothing.
module _ (e : ℕ → ℕ) (g : ℕ → ℕ → ℕ) where
  digits_enough : (j a b : ℕ) → a ≤ j → digits e g j a b ≡ bitwise e g a b
  digits_enough j a b h = same j a a b h (omega arith)
    where
      same : (m n x y : ℕ) → x ≤ m → x ≤ n → digits e g m x y ≡ digits e g n x y
      same zero zero x y p q = refl
      same zero (suc n) zero y p q = refl
      same zero (suc n) (suc x) y p q = absurd (omega arith)
      same (suc m) zero zero y p q = refl
      same (suc m) zero (suc x) y p q = absurd (omega arith)
      same (suc m) (suc n) zero y p q = refl
      same (suc m) (suc n) (suc x) y p q =
          ap (λ (t : ℕ). t * 2 + g (suc x % 2) (y % 2))
            (same m n (suc x / 2) (y / 2) (omega arith) (omega arith))

-- The last binary digit apart.
pub bit_and_halves : (a b : ℕ) → bit_and a b ≡ 2 * bit_and (a / 2) (b / 2) + min (a % 2) (b % 2)
bit_and_halves zero b = omega (arith, bit_and-bitwise 0 b, bit_and-bitwise 0 (b / 2))
bit_and_halves (suc a) b = omega (
  arith,
  bit_and-bitwise (suc a) b,
  bit_and-bitwise (suc a / 2) (b / 2),
  digits_enough (λ y. 0) min a (suc a / 2) (b / 2) (omega arith),
)

pub bit_or_halves : (a b : ℕ) → bit_or a b ≡ 2 * bit_or (a / 2) (b / 2) + max (a % 2) (b % 2)
bit_or_halves zero b = omega (arith, bit_or-bitwise 0 b, bit_or-bitwise 0 (b / 2))
bit_or_halves (suc a) b = omega (
  arith,
  bit_or-bitwise (suc a) b,
  bit_or-bitwise (suc a / 2) (b / 2),
  digits_enough (λ y. y) max a (suc a / 2) (b / 2) (omega arith),
)

double_shift : (q k : ℕ) → q * 2 ^ suc k ≡ 2 * (q * 2 ^ k)
double_shift q k = omega (arith, ap (λ (t : ℕ). q * t) (pow-suc 2 k))

-- `low | (high << k)` is a sum where `low` fits in `k` bits.
pub bit_or_shifted : (k low high : ℕ) → low < 2 ^ k → bit_or low (high * 2 ^ k) ≡ low + high * 2 ^ k
bit_or_shifted zero zero high h = omega (arith, bit_or-bitwise 0 (high * 2 ^ 0))
bit_or_shifted zero (suc low) high h = absurd (omega arith)
bit_or_shifted (suc k) low high h = omega (
  arith,
  bit_or_halves low (high * 2 ^ suc k),
  double_shift high k,
  pow-suc 2 k,
  ap (bit_or (low / 2)) (half (high * 2 ^ k) (high * 2 ^ suc k) (double_shift high k)),
  bit_or_shifted k (low / 2) high (omega (arith, pow-suc 2 k)),
)
  where
    half : (x y : ℕ) → y ≡ 2 * x → y / 2 ≡ x
    half x y e = omega arith

bit_and-zero_below : (n a : ℕ) → a ≤ n → bit_and a 0 ≡ 0
bit_and-zero_below zero zero h = refl
bit_and-zero_below zero (suc a) h = absurd (omega arith)
bit_and-zero_below (suc n) zero h = refl
bit_and-zero_below (suc n) (suc a) h =
    omega (arith, bit_and_halves (suc a) 0, bit_and-zero_below n (suc a / 2) (omega arith))

-- One more bit of mask.
bit_and_mask_step : (a m : ℕ) → bit_and a (2 * m + 1) ≡ 2 * bit_and (a / 2) m + a % 2
bit_and_mask_step a m =
    omega (arith, bit_and_halves a (2 * m + 1), ap (bit_and (a / 2)) (half m (2 * m + 1) refl))
  where
    half : (x y : ℕ) → y ≡ 2 * x + 1 → y / 2 ≡ x
    half x y e = omega arith

pub bit_and_1 : (a : ℕ) → bit_and a 1 ≡ a % 2
bit_and_1 a = omega (arith, bit_and_mask_step a 0, bit_and-zero_below (a / 2) (a / 2) (omega arith))

pub bit_and_3 : (a : ℕ) → bit_and a 0x03 ≡ a % 4
bit_and_3 a = omega (arith, bit_and_mask_step a 1, bit_and_1 (a / 2))

pub bit_and_7 : (a : ℕ) → bit_and a 0x07 ≡ a % 8
bit_and_7 a = omega (arith, bit_and_mask_step a 3, bit_and_3 (a / 2))

pub bit_and_15 : (a : ℕ) → bit_and a 0x0f ≡ a % 16
bit_and_15 a = omega (arith, bit_and_mask_step a 7, bit_and_7 (a / 2))

pub bit_and_31 : (a : ℕ) → bit_and a 31 ≡ a % 32
bit_and_31 a = omega (arith, bit_and_mask_step a 15, bit_and_15 (a / 2))

pub bit_and_63 : (a : ℕ) → bit_and a 0x3f ≡ a % 64
bit_and_63 a =
    omega (arith, bit_and_mask_step a 31, bit_and_mask_step (a / 2) 15, bit_and_15 (a / 2 / 2))

pub bit_and_127 : (a : ℕ) → bit_and a 0x7f ≡ a % 128
bit_and_127 a = omega (arith, bit_and_mask_step a 63, bit_and_63 (a / 2))

pub bit_and_255 : (a : ℕ) → bit_and a 0xff ≡ a % 256
bit_and_255 a = omega (arith, bit_and_mask_step a 127, bit_and_127 (a / 2))

-- A mask with its last bit clear.
bit_and_even_mask : (a m : ℕ) → bit_and a (2 * m) ≡ 2 * bit_and (a / 2) m
bit_and_even_mask a m =
    omega (arith, bit_and_halves a (2 * m), ap (bit_and (a / 2)) (half m (2 * m) refl))
  where
    half : (x y : ℕ) → y ≡ 2 * x → y / 2 ≡ x
    half x y e = omega arith

-- The top bit of a byte, which a varint uses to say that another byte follows.
pub bit_and_128 : (a : ℕ) → bit_and a 0x80 ≡ 128 * (a / 128 % 2)
bit_and_128 a = omega (
  arith,
  bit_and_even_mask a 64,
  bit_and_even_mask (a / 2) 32,
  bit_and_even_mask (a / 2 / 2) 16,
  bit_and_even_mask (a / 2 / 2 / 2) 8,
  bit_and_even_mask (a / 2 / 2 / 2 / 2) 4,
  bit_and_even_mask (a / 2 / 2 / 2 / 2 / 2) 2,
  bit_and_even_mask (a / 2 / 2 / 2 / 2 / 2 / 2) 1,
  bit_and_1 (a / 2 / 2 / 2 / 2 / 2 / 2 / 2),
)

-- Bits four to six of a byte.
pub bit_and_112 : (a : ℕ) → bit_and a 0x70 ≡ 16 * (a / 16 % 8)
bit_and_112 a = omega (
  arith,
  bit_and_even_mask a 56,
  bit_and_even_mask (a / 2) 28,
  bit_and_even_mask (a / 2 / 2) 14,
  bit_and_even_mask (a / 2 / 2 / 2) 7,
  bit_and_7 (a / 2 / 2 / 2 / 2),
)

bit_or-zero_below : (n a : ℕ) → a ≤ n → bit_or a 0 ≡ a
bit_or-zero_below zero zero h = refl
bit_or-zero_below zero (suc a) h = absurd (omega arith)
bit_or-zero_below (suc n) zero h = refl
bit_or-zero_below (suc n) (suc a) h =
    omega (arith, bit_or_halves (suc a) 0, bit_or-zero_below n (suc a / 2) (omega arith))

-- `(word << 3) | low` for three low bits.
pub bit_or_low3 : (q low : ℕ) → low < 8 → bit_or (8 * q) low ≡ 8 * q + low
bit_or_low3 q low h = omega (
  arith,
  bit_or_halves (8 * q) low,
  ap (λ (x : ℕ). bit_or x (low / 2)) (half (4 * q) (8 * q) (omega arith)),
  bit_or_halves (4 * q) (low / 2),
  ap (λ (x : ℕ). bit_or x (low / 2 / 2)) (half (2 * q) (4 * q) (omega arith)),
  bit_or_halves (2 * q) (low / 2 / 2),
  ap (λ (x : ℕ). bit_or x (low / 2 / 2 / 2)) (half q (2 * q) (omega arith)),
  ap (bit_or q) (high_zero low h),
  bit_or-zero_below q q (omega arith),
)
  where
    half : (x y : ℕ) → y ≡ 2 * x → y / 2 ≡ x
    half x y e = omega arith

    high_zero : (l : ℕ) → l < 8 → l / 2 / 2 / 2 ≡ 0
    high_zero l lt = omega arith
