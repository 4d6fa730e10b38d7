-- ===== src/Nanopb/Decode/Required/Marks.antt =====
-- MovieDBApp/Pods/nanopb/pb_decode.c: what the two words of `fields_seen` hold of the required fields
-- that were seen.
use prj_movie_dbapp.Prelude.{
  ℕ, ◌+◌, ◌-◌, ◌^◌, ◌≤◌, ◌<◌, ◌≡◌, ap, ◌∙◌, Bool, false, ◌||◌, List, [], ◌∷◌, arith, ◌==◌, bit_or,
}
use Prim.Native.Nat.{min}
use prj_movie_dbapp.Prelude.Bits.{bit_and_31}
use prj_movie_dbapp.Nanopb.Decode.Required.Bits.{
  bit, bit-bit_or, bit-zero, bit-pow, bit_or-lt, pow_one_or_more, pow_lt, or_swap,
}
use prj_movie_dbapp.Nanopb.Decode.Required.{none_seen, mark_seen}

unfoldable pub elem : ℕ → List ℕ → Bool
elem i [] = false
elem i (x ∷ xs) = x == i || elem i xs

-- `fields_seen` after the required fields of these indices, the last one first.
unfoldable pub mark_all : List ℕ → List ℕ
mark_all [] = none_seen
mark_all (i ∷ is) = mark_seen i (mark_all is)

-- The words hold the indices, all of which are below the count.
pub record Marked (count : ℕ) (is : List ℕ) (low high : ℕ) : Type 0 where
  pub low_fits : low < 2 ^ min 32 count
  pub high_fits : high < 2 ^ (min 64 count - 32)
  pub low_bits : (i : ℕ) → i < 32 → bit low i ≡ elem i is
  pub high_bits : (i : ℕ) → i < 32 → bit high i ≡ elem (32 + i) is

pub mark-low :
    (i low high : ℕ) → i < 32 → mark_seen i (low ∷ high ∷ []) ≡ bit_or low (2 ^ i) ∷ high ∷ []
unfolding mark_seen
mark-low i low high h = rw (bit_and_31 i) (ground arith)

pub mark-high :
    (i low high : ℕ)
    → 32 ≤ i
    → i < 64
    → mark_seen i (low ∷ high ∷ []) ≡ low ∷ bit_or high (2 ^ (i - 32)) ∷ []
unfolding mark_seen
mark-high i low high h k = rw (bit_and_31 i) (ground arith)

pub mark-none : (i : ℕ) (seen : List ℕ) → 64 ≤ i → mark_seen i seen ≡ seen
unfolding mark_seen
mark-none i seen h = ground arith

module _ (count : ℕ) where
  pub none-Marked : Marked count [] 0 0
  unfolding elem
  none-Marked = record {
    low_fits = pow_one_or_more (min 32 count);
    high_fits = pow_one_or_more (min 64 count - 32);
    low_bits = λ i lt. bit-zero i;
    high_bits = λ i lt. bit-zero i;
  }

  or-bits : (w k j : ℕ) (b : Bool) → bit w j ≡ b → bit (bit_or w (2 ^ k)) j ≡ (k == j || b)
  or-bits w k j b e = bit-bit_or j w (2 ^ k) ∙ rw (bit-pow k j) (rw e (or_swap b (k == j)))

  other_bits : (k j : ℕ) {b c : Bool} → (k == j) ≡ false → b ≡ c → b ≡ (k == j || c)
  other_bits k j ne e = rw ne e

  pub low-Marked :
      {is : List ℕ} {low high : ℕ} (k : ℕ)
      → k < 32
      → k < count
      → Marked count is low high
      → Marked count (k ∷ is) (bit_or low (2 ^ k)) high
  unfolding elem
  low-Marked {is} {low} k h hc v = record {
    low_fits =
        bit_or-lt (min 32 count) low (2 ^ k) v.low_fits (pow_lt k (min 32 count) (omega arith));
    high_fits = v.high_fits;
    low_bits = λ i lt. or-bits low k i (elem i is) (v.low_bits i lt);
    high_bits = λ i lt. other_bits k (32 + i) (ground arith) (v.high_bits i lt);
  }

  pub high-Marked :
      {is : List ℕ} {low high : ℕ} (k : ℕ)
      → 32 ≤ k
      → k < 64
      → k < count
      → Marked count is low high
      → Marked count (k ∷ is) low (bit_or high (2 ^ (k - 32)))
  unfolding elem
  high-Marked {is} {high = high} k h h' hc v = record {
    low_fits = v.low_fits;
    high_fits =
        bit_or-lt (min 64 count - 32) high (2 ^ (k - 32)) v.high_fits
          (pow_lt (k - 32) (min 64 count - 32) (omega arith));
    low_bits = λ i lt. other_bits k i (ground arith) (v.low_bits i lt);
    high_bits = λ i lt.
        or-bits high (k - 32) i (elem (32 + i) is) (v.high_bits i lt)
        ∙ ap (λ b. b || elem (32 + i) is) (ground arith);
  }

  pub none-beyond :
      {is : List ℕ} {low high : ℕ} (k : ℕ)
      → 64 ≤ k
      → Marked count is low high
      → Marked count (k ∷ is) low high
  unfolding elem
  none-beyond k h v = record {
    low_fits = v.low_fits;
    high_fits = v.high_fits;
    low_bits = λ i lt. other_bits k i (ground arith) (v.low_bits i lt);
    high_bits = λ i lt. other_bits k (32 + i) (ground arith) (v.high_bits i lt);
  }
