-- ===== src/Nanopb/Decode/Stored.antt =====
-- A word that is stored in memory is loaded again.
use prj_movie_dbapp.Prelude.{
  ℕ, zero, suc, ◌+◌, ◌*◌, ◌/◌, ◌%◌, ◌^◌, ◌<◌, ◌≡◌, refl, ◌∙◌, List, [], ◌∷◌, arith, bit_and,
}
use prj_movie_dbapp.Prelude.Bits.{bit_and_255}
use prj_movie_dbapp.Nanopb.Field.{Memory, load_word}
use prj_movie_dbapp.Nanopb.Encode.Primitive.{word_bytes}
use prj_movie_dbapp.Nanopb.Decode.Scalar.{store_byte, store_bytes, store_word}

store_bytes-before : (m : Memory) (p a : ℕ) (bs : List ℕ) → a < p → store_bytes m p bs a ≡ m a
unfolding store_bytes store_byte
store_bytes-before m p a [] h = refl
store_bytes-before m p a (b ∷ bs) h =
    store_bytes-before (store_byte m p b) (p + 1) a bs (omega arith) ∙ ground arith

-- The low n bytes of a number.
pub narrow : ℕ → ℕ → ℕ
narrow zero v = 0
narrow (suc n) v = v % 256 + 256 * narrow n (v / 256)

-- The bytes of a word are loaded as they were stored.
pub load_word-store_word :
    (n : ℕ) (m : Memory) (p v : ℕ) → load_word (store_word m p n v) p n ≡ narrow n v
unfolding load_word store_word store_bytes word_bytes narrow
load_word-store_word zero m p v = refl
load_word-store_word (suc n) m p v = omega (
  arith,
  bit_and_255 v,
  lowest m p (bit_and v 0xff) (word_bytes n (v / 2 ^ 8)),
  load_word-store_word n (store_byte m p (bit_and v 0xff)) (p + 1) (v / 2 ^ 8),
)
  where
    lowest : (m : Memory) (p b : ℕ) (bs : List ℕ) → store_bytes (store_byte m p b) (p + 1) bs p ≡ b
    lowest m p b bs =
        store_bytes-before (store_byte m p b) (p + 1) p bs (omega arith)
        ∙ (unfold store_byte in ground arith)

module _ (v : ℕ) where
  pub narrow_1 : narrow 1 v ≡ v % 2 ^ 8
  unfolding narrow
  narrow_1 = omega arith

  pub narrow_2 : narrow 2 v ≡ v % 2 ^ 16
  unfolding narrow
  narrow_2 = omega arith

  pub narrow_4 : narrow 4 v ≡ v % 2 ^ 32
  unfolding narrow
  narrow_4 = omega arith

  pub narrow_8 : narrow 8 v ≡ v % 2 ^ 64
  unfolding narrow
  narrow_8 = omega arith
