-- ===== src/Nanopb/Decode/Required/Bits.antt =====
-- The bits of a word, one by one, and the words whose bits are all set.
use prj_movie_dbapp.Prelude.{
  ℕ, zero, suc, ◌+◌, ◌-◌, ◌*◌, ◌/◌, ◌%◌, ◌^◌, ◌<◌, ◌≡◌, refl, ap, ◌∙◌, Bool, true, false, ◌&&◌,
  ◌||◌, arith, ◌==◌, bit_or,
}
use native.Mathlib.Nat.{pow-suc}
use prj_movie_dbapp.Prelude.Bits.{bit_or_halves}

-- Whether the bit is set.
unfoldable pub bit : ℕ → ℕ → Bool
bit w zero = w % 2 == 1
bit w (suc i) = bit (w / 2) i

pub bit-bit_or : (i a b : ℕ) → bit (bit_or a b) i ≡ (bit a i || bit b i)
unfolding bit
bit-bit_or zero a b = ground (arith, bit_or_halves a b)
bit-bit_or (suc i) a b =
    ap (λ w. bit w i) (omega (arith, bit_or_halves a b)) ∙ bit-bit_or i (a / 2) (b / 2)

pub bit-zero : (i : ℕ) → bit 0 i ≡ false
unfolding bit
bit-zero zero = refl
bit-zero (suc i) = bit-zero i

pub bit-pow : (k i : ℕ) → bit (2 ^ k) i ≡ (k == i)
unfolding bit
bit-pow zero zero = refl
bit-pow zero (suc i) = bit-zero i ∙ ground arith
bit-pow (suc k) zero = ground (arith, pow-suc 2 k)
bit-pow (suc k) (suc i) =
    ap (λ w. bit w i) (omega (arith, pow-suc 2 k)) ∙ (bit-pow k i ∙ ground arith)

pub bit_or-lt : (n a b : ℕ) → a < 2 ^ n → b < 2 ^ n → bit_or a b < 2 ^ n
bit_or-lt zero zero zero ha hb = omega arith
bit_or-lt zero zero (suc b) ha hb = absurd (omega arith)
bit_or-lt zero (suc a) b ha hb = absurd (omega arith)
bit_or-lt (suc n) a b ha hb = omega (
  arith,
  bit_or_halves a b,
  pow-suc 2 n,
  bit_or-lt n (a / 2) (b / 2) (omega (arith, pow-suc 2 n)) (omega (arith, pow-suc 2 n)),
)

pub pow_one_or_more : (n : ℕ) → 0 < 2 ^ n
pow_one_or_more zero = omega arith
pow_one_or_more (suc n) = omega (arith, pow-suc 2 n, pow_one_or_more n)

pub pow_lt : (k n : ℕ) → k < n → 2 ^ k < 2 ^ n
pow_lt k zero h = absurd (omega arith)
pow_lt zero (suc n) h = omega (arith, pow-suc 2 n, pow_one_or_more n)
pow_lt (suc k) (suc n) h = omega (arith, pow-suc 2 n, pow-suc 2 k, pow_lt k n (omega arith))

-- All of the indices below n.
unfoldable pub all_below : ℕ → (ℕ → Bool) → Bool
all_below zero f = true
all_below (suc n) f = f 0 && all_below n (λ i. f (suc i))

pub all_below-same :
    (n : ℕ) (f g : ℕ → Bool) → ((i : ℕ) → i < n → f i ≡ g i) → all_below n f ≡ all_below n g
unfolding all_below
all_below-same zero f g h = refl
all_below-same (suc n) f g h = rw (h 0 (omega arith)) (
    ap (λ b. g 0 && b)
      (all_below-same n (λ i. f (suc i)) (λ i. g (suc i)) λ i lt. h (suc i) (omega arith)))

pub all_below-add :
    (a b : ℕ) (f : ℕ → Bool) → all_below (a + b) f ≡ (all_below a f && all_below b (λ i. f (a + i)))
unfolding all_below
all_below-add zero b f =
    ap (λ k. all_below k f) (omega arith)
    ∙ all_below-same b f (λ i. f (0 + i)) λ i lt. ap f (omega arith)
all_below-add (suc a) b f =
    ap (λ k. all_below k f) (suc_sum a b)
    ∙ rw (all_below-add a b (λ i. f (suc i))) (
        rw (all_below-same b (λ i. f (suc a + i)) (λ i. f (suc (a + i))) λ i lt. ap f (suc_sum a i))
          (assoc (f 0) (all_below a λ i. f (suc i)) _))
  where
    suc_sum : (a b : ℕ) → suc a + b ≡ suc (a + b)
    suc_sum a b = omega arith

    assoc : (x y z : Bool) → (x && (y && z)) ≡ ((x && y) && z)
    assoc true y z = refl
    assoc false y z = refl

-- A word of n bits is full where all of its bits are set.
pub full-bits : (n w : ℕ) → w < 2 ^ n → (w == 2 ^ n - 1) ≡ all_below n (bit w)
unfolding all_below bit
full-bits zero w h = ground arith
full-bits (suc n) w h =
    rw (← full-bits n (w / 2) (omega (arith, pow-suc 2 n)))
      (halve (2 ^ n) (2 ^ suc n) h (pow-suc 2 n))
  where
    halve : (p q : ℕ) → w < q → q ≡ p * 2 → (w == q - 1) ≡ (w % 2 == 1 && (w / 2 == p - 1))
    halve p q lt e = ground arith

pub or_swap : (a b : Bool) → (a || b) ≡ (b || a)
or_swap true true = refl
or_swap true false = refl
or_swap false true = refl
or_swap false false = refl
