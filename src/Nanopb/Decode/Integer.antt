-- ===== src/Nanopb/Decode/Integer.antt =====
-- MovieDBApp/Pods/nanopb/pb_decode.c and pb_encode.c: the values of an integer field of one, two,
-- four or eight bytes are loaded, stored and cast without loss.
use prj_movie_dbapp.Prelude.{
  ℕ, zero, suc, ◌+◌, ◌%◌, ◌^◌, ◌<◌, ◌≡◌, ◌≢◌, sym, ap, ◌∙◌, inl, inr, ◌⊎◌, none, some, arith, ◌==◌,
  if◌then◌else◌,
}
use mathlib.Core.Path.{subst}
use prj_movie_dbapp.Nanopb.Field.{Memory, load_word, sign_extend}
use prj_movie_dbapp.Nanopb.Encode.Scalar.{load_unsigned, load_signed}
use prj_movie_dbapp.Nanopb.Istream.{Istream, got}
use prj_movie_dbapp.Nanopb.Decode.Scalar.{store_word, store_clamped, store_signed, store_unsigned}
use prj_movie_dbapp.Nanopb.Decode.Stored.{
  load_word-store_word, narrow_1, narrow_2, narrow_4, narrow_8,
}

load_word-below : (m : Memory) (a n : ℕ) → load_word m a n < 256 ^ n
unfolding load_word
load_word-below m a zero = omega arith
load_word-below m a (suc n) = omega (arith, load_word-below m (a + 1) n)

-- The values of an integer field, by its size; a signed one as 64 bits.
pub data Unsigned : ℕ → ℕ → Type 0 where
  uint8 : {v : ℕ} → v < 2 ^ 8 → Unsigned 1 v
  uint16 : {v : ℕ} → v < 2 ^ 16 → Unsigned 2 v
  uint32 : {v : ℕ} → v < 2 ^ 32 → Unsigned 4 v
  uint64 : {v : ℕ} → v < 2 ^ 64 → Unsigned 8 v

pub data Signed : ℕ → ℕ → Type 0 where
  int8 : {x v : ℕ} → x < 2 ^ 8 → v ≡ sign_extend 8 x → Signed 1 v
  int16 : {x v : ℕ} → x < 2 ^ 16 → v ≡ sign_extend 16 x → Signed 2 v
  int32 : {x v : ℕ} → x < 2 ^ 32 → v ≡ sign_extend 32 x → Signed 4 v
  int64 : {v : ℕ} → v < 2 ^ 64 → Signed 8 v

some-injective : {x v : ℕ} → some x ≡ some v → x ≡ v
some-injective e = cc

none-ne_some : {v : ℕ} → none ≢ some v
none-ne_some e = cc

-- The size is one that load_unsigned and load_signed know.
size_cases :
    (n : ℕ)
    → (n ≡ 1) ⊎ ((n ≡ 2) ⊎ ((n ≡ 4) ⊎ ((n ≡ 8) ⊎ ((n ≢ 1) × ((n ≢ 2) × ((n ≢ 4) × (n ≢ 8)))))))
size_cases n = ground arith

module _ (m : Memory) (src v n : ℕ) where
  no_unsigned : n ≢ 1 → n ≢ 2 → n ≢ 4 → n ≢ 8 → load_unsigned m n src ≡ none
  unfolding load_unsigned
  no_unsigned n1 n2 n4 n8 = ground arith

  no_signed : n ≢ 1 → n ≢ 2 → n ≢ 4 → n ≢ 8 → load_signed m n src ≡ none
  unfolding load_signed
  no_signed n1 n2 n4 n8 = ground arith

  pub Unsigned-load : load_unsigned m n src ≡ some v → Unsigned n v
  unfolding load_unsigned
  Unsigned-load e = elim (size_cases n) [
    | inl e1 ↦
        subst (λ k. Unsigned k v) (sym e1)
          (uint8 (
            omega (
              arith,
              load_word-below m src 1,
              some-injective (subst (λ k. load_unsigned m k src ≡ some v) e1 e),
            )))
    | inr (inl e2) ↦
        subst (λ k. Unsigned k v) (sym e2)
          (uint16 (
            omega (
              arith,
              load_word-below m src 2,
              some-injective (subst (λ k. load_unsigned m k src ≡ some v) e2 e),
            )))
    | inr (inr (inl e4)) ↦
        subst (λ k. Unsigned k v) (sym e4)
          (uint32 (
            omega (
              arith,
              load_word-below m src 4,
              some-injective (subst (λ k. load_unsigned m k src ≡ some v) e4 e),
            )))
    | inr (inr (inr (inl e8))) ↦
        subst (λ k. Unsigned k v) (sym e8)
          (uint64 (
            omega (
              arith,
              load_word-below m src 8,
              some-injective (subst (λ k. load_unsigned m k src ≡ some v) e8 e),
            )))
    | inr (inr (inr (inr (n1, (n2, (n4, n8)))))) ↦
        absurd (none-ne_some (sym (no_unsigned n1 n2 n4 n8) ∙ e))
  ]

  pub Signed-load : load_signed m n src ≡ some v → Signed n v
  unfolding load_signed
  Signed-load e = elim (size_cases n) [
    | inl e1 ↦
        subst (λ k. Signed k v) (sym e1)
          (int8 (load_word-below m src 1)
            (sym (some-injective (subst (λ k. load_signed m k src ≡ some v) e1 e))))
    | inr (inl e2) ↦
        subst (λ k. Signed k v) (sym e2)
          (int16 (load_word-below m src 2)
            (sym (some-injective (subst (λ k. load_signed m k src ≡ some v) e2 e))))
    | inr (inr (inl e4)) ↦
        subst (λ k. Signed k v) (sym e4)
          (int32 (load_word-below m src 4)
            (sym (some-injective (subst (λ k. load_signed m k src ≡ some v) e4 e))))
    | inr (inr (inr (inl e8))) ↦
        subst (λ k. Signed k v) (sym e8)
          (int64 (
            omega (
              arith,
              load_word-below m src 8,
              some-injective (subst (λ k. load_signed m k src ≡ some v) e8 e),
            )))
    | inr (inr (inr (inr (n1, (n2, (n4, n8)))))) ↦
        absurd (none-ne_some (sym (no_signed n1 n2 n4 n8) ∙ e))
  ]

module _ (m : Memory) (dest : ℕ) where
  pub load_unsigned-store :
      (n v : ℕ) → Unsigned n v → load_unsigned (store_word m dest n v) n dest ≡ some v
  unfolding load_unsigned
  load_unsigned-store n v (uint8 h) =
      ap some (omega (arith, load_word-store_word 1 m dest v, narrow_1 v))
  load_unsigned-store n v (uint16 h) =
      ap some (omega (arith, load_word-store_word 2 m dest v, narrow_2 v))
  load_unsigned-store n v (uint32 h) =
      ap some (omega (arith, load_word-store_word 4 m dest v, narrow_4 v))
  load_unsigned-store n v (uint64 h) =
      ap some (omega (arith, load_word-store_word 8 m dest v, narrow_8 v))

  pub load_signed-store :
      (n v : ℕ) → Signed n v → load_signed (store_word m dest n v) n dest ≡ some v
  unfolding load_signed
  load_signed-store n v (int8 h e) = ground (arith, load_word-store_word 1 m dest v, narrow_1 v)
  load_signed-store n v (int16 h e) = ground (arith, load_word-store_word 2 m dest v, narrow_2 v)
  load_signed-store n v (int32 h e) = ground (arith, load_word-store_word 4 m dest v, narrow_4 v)
  load_signed-store n v (int64 h) =
      ap some (omega (arith, load_word-store_word 8 m dest v, narrow_8 v))

  module _ {S : Type 0} (s : Istream S) where
    pub store_unsigned-fits :
        (n v : ℕ)
        → Unsigned n v
        → store_unsigned n v dest m s ≡ ((got tt, s), store_word m dest n v)
    unfolding store_unsigned store_clamped
    store_unsigned-fits n v (uint8 h) = ground arith
    store_unsigned-fits n v (uint16 h) = ground arith
    store_unsigned-fits n v (uint32 h) = ground arith
    store_unsigned-fits n v (uint64 h) = ground arith

    pub store_signed-fits :
        (n v : ℕ) → Signed n v → store_signed n v dest m s ≡ ((got tt, s), store_word m dest n v)
    unfolding store_signed store_clamped
    store_signed-fits n v (int8 h e) = ground arith
    store_signed-fits n v (int16 h e) = ground arith
    store_signed-fits n v (int32 h e) = ground arith
    store_signed-fits n v (int64 h) = ground arith

pub Signed-cast : (n v : ℕ) → Signed n v → (if n == 8 then v else sign_extend 32 (v % 2 ^ 32)) ≡ v
Signed-cast n v (int8 h e) = ground arith
Signed-cast n v (int16 h e) = ground arith
Signed-cast n v (int32 h e) = ground arith
Signed-cast n v (int64 h) = ground arith

pub Signed-below : (n v : ℕ) → Signed n v → v < 2 ^ 64
Signed-below n v (int8 h e) = ground arith
Signed-below n v (int16 h e) = ground arith
Signed-below n v (int32 h e) = ground arith
Signed-below n v (int64 h) = h

pub Unsigned-below : (n v : ℕ) → Unsigned n v → v < 2 ^ 64
Unsigned-below n v (uint8 h) = omega arith
Unsigned-below n v (uint16 h) = omega arith
Unsigned-below n v (uint32 h) = omega arith
Unsigned-below n v (uint64 h) = h
