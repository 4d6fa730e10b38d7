-- ===== src/Nanopb/Decode/Required/Mask.antt =====
-- MovieDBApp/Pods/nanopb/pb_decode.c: what the two words of `fields_seen` say of the required
-- fields.
use prj_movie_dbapp.Prelude.{
  ℕ, zero, suc, ◌+◌, ◌-◌, ◌/◌, ◌%◌, ◌^◌, ◌≤◌, ◌<◌, ◌≡◌, refl, sym, ap, ◌∙◌, Bool, true, false, ◌&&◌,
  ◌||◌, List, [], ◌∷◌, arith, ltb, ◌==◌, if◌then◌else◌, bit_or, dec_lt, get_or,
}
use Prim.Native.Nat.{min}
use native.Mathlib.Nat.{pow-suc, div-div-eq-div-mul}
use prj_movie_dbapp.Prelude.Bits.{bit_and_31}
use prj_movie_dbapp.Nanopb.Decode.Required.Bits.{
  bit, pow_one_or_more, all_below, all_below-same, all_below-add, full-bits,
}
use prj_movie_dbapp.Nanopb.Decode.Required.{
  max_required_fields, allbits, mark_seen, words_full, last_word_full, required_present,
}
use prj_movie_dbapp.Nanopb.Decode.Required.Marks.{
  elem, mark_all, Marked, mark-low, mark-high, mark-none, none-Marked, low-Marked, high-Marked,
  none-beyond,
}

module _ (count : ℕ) where
  -- Every index is below the count.
  abbrev pub AllBelow : List ℕ → Type 0
  AllBelow [] = Unit
  AllBelow (i ∷ is) = (i < count) × AllBelow is

  Words : List ℕ → List ℕ → Type 0
  Words is seen = (low : ℕ) × (high : ℕ) × (seen ≡ low ∷ high ∷ []) × Marked count is low high

  mark-Words :
      (k : ℕ) (is seen : List ℕ) → k < count → Words is seen → Words (k ∷ is) (mark_seen k seen)
  unfolding Words
  mark-Words k is seen hc (low, high, e, v) = elim (dec_lt k 32) [
    | yes small ↦ (
      bit_or low (2 ^ k),
      high,
      ap (mark_seen k) e ∙ mark-low k low high small,
      low-Marked count k small hc v,
    )
    | no big ↦ elim (dec_lt k 64) [
      | yes small ↦ (
        low,
        bit_or high (2 ^ (k - 32)),
        ap (mark_seen k) e ∙ mark-high k low high (omega arith) small,
        high-Marked count k (omega arith) small hc v,
      )
      | no huge ↦ (low, high, mark-none k _ (omega arith) ∙ e, none-beyond count k (omega arith) v)
    ]
  ]

  mark_all-Words : (is : List ℕ) → AllBelow is → Words is (mark_all is)
  unfolding mark_all Words
  mark_all-Words [] h = (0, 0, refl, none-Marked count)
  mark_all-Words (i ∷ is) h = mark-Words i is (mark_all is) (h.0) (mark_all-Words is (h.1))

-- `allbits >> k`
shifted : (k j : ℕ) → k + j ≡ 32 → allbits / 2 ^ k ≡ 2 ^ j - 1
shifted zero j h = ap (λ n. 2 ^ n - 1) {x = 32} (omega arith)
shifted (suc k) j h =
    ap (λ n. allbits / n) (pow-suc 2 k)
    ∙ (sym (div-div-eq-div-mul allbits (2 ^ k) 2)
        ∙ (ap (λ n. n / 2) (shifted k (suc j) (omega arith))
            ∙ omega (arith, pow-suc 2 j, pow_one_or_more j)))

-- The check of the last word, with r bits.
last_bits :
    (w r : ℕ) → r < 32 → w < 2 ^ r → (r == 0 || w == allbits / 2 ^ (32 - r)) ≡ all_below r (bit w)
last_bits w zero h lt = ground (arith, full-bits 0 w lt)
last_bits w (suc r) h lt =
    rw (nonzero r)
      (ap (λ k. w == k) (shifted (32 - suc r) (suc r) (omega arith)) ∙ full-bits (suc r) w lt)
  where
    nonzero : (r : ℕ) → (suc r == 0) ≡ false
    nonzero r = ground arith

-- The checks of `count`, split into whole words and bits.
parts :
    (n q r : ℕ) (seen : List ℕ)
    → n / 2 ^ 5 ≡ q
    → n % 32 ≡ r
    → (words_full (n / 2 ^ 5) seen && last_word_full n seen)
      ≡ (words_full q seen && (r == 0 || get_or seen q 0 == allbits / 2 ^ (32 - r)))
unfolding last_word_full
parts n q r seen hq hr = rw (bit_and_31 n) (rw hq (rw hr refl))

module _ {x y x' y' : Bool} where
  and_true : x ≡ x' → y ≡ y' → ((x && true) && y) ≡ (x' && y')
  and_true e f = rw e (rw f (unit x'))
    where
      unit : (b : Bool) → ((b && true) && y') ≡ (b && y')
      unit true = refl
      unit false = refl

  and_trues : x ≡ x' → y ≡ y' → ((x && (y && true)) && true) ≡ (x' && y')
  and_trues e f = rw e (rw f (units x' y'))
    where
      units : (b c : Bool) → ((b && (c && true)) && true) ≡ (b && c)
      units true true = refl
      units true false = refl
      units false c = refl

module _ (count : ℕ) (is : List ℕ) (low high : ℕ) (v : Marked count is low high) where
  low_all : (n : ℕ) → n ≤ 32 → all_below n (bit low) ≡ all_below n (λ i. elem i is)
  low_all n h = all_below-same n (bit low) (λ i. elem i is) λ i lt. v.low_bits i (omega arith)

  high_all : (n : ℕ) → n ≤ 32 → all_below n (bit high) ≡ all_below n (λ i. elem (32 + i) is)
  high_all n h =
      all_below-same n (bit high) (λ i. elem (32 + i) is) λ i lt. v.high_bits i (omega arith)

  low_fits_in : (n : ℕ) → min 32 count ≡ n → low < 2 ^ n
  low_fits_in n e = rw (← e) v.low_fits

  high_fits_in : (n : ℕ) → min 64 count - 32 ≡ n → high < 2 ^ n
  high_fits_in n e = rw (← e) v.high_fits

  full_low : 32 ≤ count → (low == allbits) ≡ all_below 32 (λ i. elem i is)
  full_low h = full-bits 32 low (low_fits_in 32 (omega arith)) ∙ low_all 32 (omega arith)

  split_low :
      (n r : ℕ)
      → 32 + r ≡ n
      → (all_below 32 (λ i. elem i is) && all_below r (λ i. elem (32 + i) is))
        ≡ all_below n (λ i. elem i is)
  split_low n r h =
      sym (all_below-add 32 r (λ i. elem i is)) ∙ ap (λ k. all_below k (λ i. elem i is)) h

  words_check :
      (n : ℕ)
      → min 64 count ≡ n
      → (words_full (n / 2 ^ 5) (low ∷ high ∷ []) && last_word_full n (low ∷ high ∷ []))
        ≡ all_below n (λ i. elem i is)
  unfolding words_full
  words_check n e = elim (dec_lt n 32) [
    | yes h ↦
        parts n 0 n (low ∷ high ∷ []) (omega arith) (omega arith)
        ∙ (last_bits low n h (low_fits_in n (omega arith)) ∙ low_all n (omega arith))
    | no h ↦ elim (dec_lt n 64) [
      | yes k ↦
          parts n 1 (n - 32) (low ∷ high ∷ []) (omega arith) (omega arith)
          ∙ (and_true (full_low (omega arith)) (
                last_bits high (n - 32) (omega arith) (high_fits_in (n - 32) (omega arith))
                ∙ high_all (n - 32) (omega arith))
              ∙ split_low n (n - 32) (omega arith))
      | no k ↦
          parts n 2 0 (low ∷ high ∷ []) (omega arith) (omega arith)
          ∙ (and_trues (full_low (omega arith))
                (full-bits 32 high (high_fits_in 32 (omega arith)) ∙ high_all 32 (omega arith))
              ∙ split_low n 32 (omega arith))
    ]
  ]

-- Where pb_decode_noinit found the required fields of some indices, all of them below the count
-- of required fields, its check of `fields_seen` succeeds exactly where each index below the
-- count, or below 64 if the count is larger, is among them.
pub required_present-all :
    (count : ℕ) (is : List ℕ)
    → AllBelow count is
    → required_present count (mark_all is) ≡ all_below (min 64 count) (λ i. elem i is)
unfolding required_present Words
required_present-all count is h =
    let (low, high, e, v) = mark_all-Words count is h in
    ap (required_present count) e
    ∙ rw (capped count) (words_check count is low high v (min 64 count) refl)
  where
    capped : (n : ℕ) → (if ltb max_required_fields n then max_required_fields else n) ≡ min 64 n
    capped n = ground arith
