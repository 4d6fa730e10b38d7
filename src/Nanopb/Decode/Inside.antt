-- ===== src/Nanopb/Decode/Inside.antt =====
-- MovieDBApp/Pods/nanopb/pb_decode.c: the field decoders write only inside a static field.
use prj_movie_dbapp.Prelude.{
  ℕ, ◌+◌, ◌≤◌, ◌<◌, ◌≡◌, refl, ◌∙◌, Bool, true, false, List, [], ◌∷◌, arith, ◌==◌, if◌then◌else◌,
  length,
}
use prj_movie_dbapp.Nanopb.Field.{Field, Memory}
use prj_movie_dbapp.Nanopb.Encode.Primitive.{word_bytes}
use prj_movie_dbapp.Nanopb.Encode.Values.{length-word_bytes}
use prj_movie_dbapp.Nanopb.Istream.{Istream, Outcome, got, failed, stuck}
use prj_movie_dbapp.Nanopb.Decode.Varint.{pb_decode_varint, pb_decode_svarint}
use prj_movie_dbapp.Nanopb.Decode.Scalar.{
  store_byte, store_bytes, store_word, Loaded, with_value, store_clamped, store_signed,
  store_unsigned, pb_dec_varint, pb_dec_uvarint, pb_dec_svarint,
}

-- The memory below `dest`, and from `dest + size` on, is what it was.
pub record Inside (dest size : ℕ) (before after : Memory) : Type 0 where
  pub below : (a : ℕ) → a < dest → after a ≡ before a
  pub above : (a : ℕ) → dest + size ≤ a → after a ≡ before a

pub Inside-refl : (dest size : ℕ) (m : Memory) → Inside dest size m m
Inside-refl dest size m = record { below = λ a h. refl; above = λ a h. refl }

pub Inside-trans :
    {dest size : ℕ} {m n k : Memory}
    → Inside dest size m n
    → Inside dest size n k
    → Inside dest size m k
Inside-trans h k = record {
  below = λ a lt. k.below a lt ∙ h.below a lt;
  above = λ a le. k.above a le ∙ h.above a le;
}

pub Inside-store_byte :
    (dest size : ℕ) (m : Memory) (p b : ℕ)
    → dest ≤ p
    → p < dest + size
    → Inside dest size m (store_byte m p b)
unfolding store_byte
Inside-store_byte dest size m p b h k = record {
  below = λ a lt. ground arith;
  above = λ a le. ground arith;
}

pub Inside-store_bytes :
    (dest size : ℕ) (m : Memory) (p : ℕ) (bs : List ℕ)
    → dest ≤ p
    → p + length bs ≤ dest + size
    → Inside dest size m (store_bytes m p bs)
unfolding store_bytes
Inside-store_bytes dest size m p [] h k = Inside-refl dest size m
Inside-store_bytes dest size m p (b ∷ bs) h k =
    Inside-trans (Inside-store_byte dest size m p b h (omega arith))
      (Inside-store_bytes dest size (store_byte m p b) (p + 1) bs (omega arith) (omega arith))

pub Inside-store_word :
    (dest size : ℕ) (m : Memory) (p n v : ℕ)
    → dest ≤ p
    → p + n ≤ dest + size
    → Inside dest size m (store_word m p n v)
unfolding store_word
Inside-store_word dest size m p n v h k =
    Inside-store_bytes dest size m p (word_bytes n v) h (omega (arith, length-word_bytes n v))

module _ {S : Type 0} (dest size : ℕ) (m : Memory) where
  pub Inside-if :
      (c : Bool) (x y : Loaded S)
      → (c ≡ true → Inside dest size m (x.1))
      → (c ≡ false → Inside dest size m (y.1))
      → Inside dest size m ((if c then x else y).1)
  Inside-if true x y hx hy = hx refl
  Inside-if false x y hx hy = hy refl

  pub Inside-with_value :
      {A : Type 0} (r : Outcome A × Istream S) (k : A → Memory → Istream S → Loaded S)
      → ((a : A) (s : Istream S) → r ≡ (got a, s) → Inside dest size m ((k a m s).1))
      → Inside dest size m ((with_value r m k).1)
  unfolding with_value
  Inside-with_value (got a, s) k h = h a s refl
  Inside-with_value (failed, s) k h = Inside-refl dest size m
  Inside-with_value (stuck, s) k h = Inside-refl dest size m

  Inside-store_clamped :
      (n clamped value : ℕ) (s : Istream S)
      → n ≡ size
      → Inside dest size m ((store_clamped n clamped value dest m s).1)
  unfolding store_clamped
  Inside-store_clamped n clamped value s e =
      Inside-store_word dest size m dest n value (omega arith) (omega arith)

  Inside-store_signed :
      (value : ℕ) (s : Istream S) → Inside dest size m ((store_signed size value dest m s).1)
  unfolding store_signed
  Inside-store_signed value s =
      Inside-if (size == 8) _ _ (λ e. Inside-store_clamped 8 _ value s (ground arith))
        λ e8.
          Inside-if (size == 4) _ _ (λ e. Inside-store_clamped 4 _ value s (ground arith))
            λ e4.
              Inside-if (size == 2) _ _ (λ e. Inside-store_clamped 2 _ value s (ground arith))
                λ e2.
                  Inside-if (size == 1) _ _ (λ e. Inside-store_clamped 1 _ value s (ground arith))
                    λ e1. Inside-refl dest size m

  Inside-store_unsigned :
      (value : ℕ) (s : Istream S) → Inside dest size m ((store_unsigned size value dest m s).1)
  unfolding store_unsigned
  Inside-store_unsigned value s =
      Inside-if (size == 8) _ _ (λ e. Inside-store_clamped 8 _ value s (ground arith))
        λ e8.
          Inside-if (size == 4) _ _ (λ e. Inside-store_clamped 4 _ value s (ground arith))
            λ e4.
              Inside-if (size == 2) _ _ (λ e. Inside-store_clamped 2 _ value s (ground arith))
                λ e2.
                  Inside-if (size == 1) _ _ (λ e. Inside-store_clamped 1 _ value s (ground arith))
                    λ e1. Inside-refl dest size m

-- On every stream, whatever its callback does, pb_dec_varint, pb_dec_uvarint and pb_dec_svarint
-- write only the data_size bytes of the field, also where they fail.
pub dec_integers-Inside :
    {S : Type 0} (field : Field) (dest : ℕ) (m : Memory) (s : Istream S)
    → Inside dest field.data_size m ((pb_dec_varint field dest m s).1)
      × (Inside dest field.data_size m ((pb_dec_uvarint field dest m s).1)
          × Inside dest field.data_size m ((pb_dec_svarint field dest m s).1))
unfolding pb_dec_varint pb_dec_uvarint pb_dec_svarint
dec_integers-Inside field dest m s = (
  Inside-with_value dest field.data_size m (pb_decode_varint s) _
      λ value s' e. Inside-store_signed dest field.data_size m _ s',
  (
    Inside-with_value dest field.data_size m (pb_decode_varint s) _
        λ value s' e. Inside-store_unsigned dest field.data_size m value s',
    Inside-with_value dest field.data_size m (pb_decode_svarint s) _
        λ value s' e. Inside-store_signed dest field.data_size m value s',
  ),
)
