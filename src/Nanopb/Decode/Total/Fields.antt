-- ===== src/Nanopb/Decode/Total/Fields.antt =====
-- MovieDBApp/Pods/nanopb/pb_decode.c: the end of the field decoders, and the bytes that the
-- packable ones take.
use prj_movie_dbapp.Prelude.{
  ℕ, ◌+◌, ◌==◌, ◌*◌, ◌/◌, ◌%◌, ◌^◌, ltb, leb, ◌&&◌, ◌||◌, ◌≡◌, refl, Bool, true, false, List,
  if◌then◌else◌,
}
use prj_movie_dbapp.Nanopb.Field.{
  Field, Memory, load_word, pointer_size, size_max, integer_too_large, invalid_data_size,
  bytes_overflow, incorrect_fixed_length_bytes_size, invalid_size, size_too_large, realloc_failed,
  string_overflow,
}
use prj_movie_dbapp.Nanopb.Encode.Scalar.{bytes_offset}
use prj_movie_dbapp.Nanopb.Istream
use prj_movie_dbapp.Nanopb.Istream.{Istream, Outcome, got, failed, stuck}
use prj_movie_dbapp.Nanopb.Decode.Bounds.Loops.{Steady-pb_read}
use prj_movie_dbapp.Nanopb.Decode.Bounds.Fields.{Steady-pb_decode_varint32}
use prj_movie_dbapp.Nanopb.Decode.Scalar.{
  Loaded, store_word, Realloc, store_clamped, store_signed, store_unsigned, pb_dec_varint,
  pb_dec_uvarint, pb_dec_svarint, pb_dec_fixed32, pb_dec_fixed64, read_into,
  pb_dec_fixed_length_bytes, then_at, fill_bytes, fill_string, allocate_field, pb_dec_bytes,
  pb_dec_string,
}
use prj_movie_dbapp.Nanopb.Decode.Action.{pure, return_error, Action, and_do}
use prj_movie_dbapp.Nanopb.Decode.Total.{Settles}
use prj_movie_dbapp.Nanopb.Decode.Total.Rules.{
  Settles-pure, Settles-return_error, Settles-error_after, Settles-modify, Settles-test,
  Settles-same, Settles-memory,
}
use prj_movie_dbapp.Nanopb.Decode.Total.Binds.{Settles->>=}
use prj_movie_dbapp.Nanopb.Decode.Total.Shrinks.{
  Shrinks, Settles-with_value, Shrinks-with_value, Eats-pb_decode_varint, Eats-pb_decode_svarint,
  Eats-pb_decode_fixed32, Eats-pb_decode_fixed64,
}

Settles-store_clamped : (n clamped value dest : ℕ) → Settles (store_clamped n clamped value dest)
unfolding store_clamped
Settles-store_clamped n clamped value dest =
    Settles-same
      {g = λ m s. if clamped == value then pure tt m s else return_error integer_too_large m s}
      (λ m s. outer m s (clamped == value))
      (Settles-test (λ m s. clamped == value) (Settles-pure tt)
        (Settles-return_error integer_too_large))
  where
    outer :
        (m : Memory) (s : Istream (List ℕ)) (c : Bool)
        → (if c then (got tt, s) else Istream.return_error integer_too_large s)
          ≡ (if◌then◌else◌ {A = Loaded (List ℕ)} c
              (pure tt m s)
              (return_error integer_too_large m s)).0
    outer m s true = refl
    outer m s false = refl

Settles-store_signed : (size value dest : ℕ) → Settles (store_signed size value dest)
unfolding store_signed
Settles-store_signed size value dest = Settles-test _ (Settles-store_clamped 8 _ value dest) (
    Settles-test _ (Settles-store_clamped 4 _ value dest) (
      Settles-test _ (Settles-store_clamped 2 _ value dest) (
        Settles-test _ (Settles-store_clamped 1 _ value dest)
          (Settles-return_error invalid_data_size))))

Settles-store_unsigned : (size value dest : ℕ) → Settles (store_unsigned size value dest)
unfolding store_unsigned
Settles-store_unsigned size value dest = Settles-test _ (Settles-store_clamped 8 _ value dest) (
    Settles-test _ (Settles-store_clamped 4 _ value dest) (
      Settles-test _ (Settles-store_clamped 2 _ value dest) (
        Settles-test _ (Settles-store_clamped 1 _ value dest)
          (Settles-return_error invalid_data_size))))

module _ (field : Field) (dest : ℕ) where
  pub Shrinks-pb_dec_varint : Shrinks (pb_dec_varint field dest)
  unfolding pb_dec_varint
  Shrinks-pb_dec_varint =
      Shrinks-with_value Eats-pb_decode_varint λ value. Settles-store_signed field.data_size _ dest

  pub Shrinks-pb_dec_uvarint : Shrinks (pb_dec_uvarint field dest)
  unfolding pb_dec_uvarint
  Shrinks-pb_dec_uvarint =
      Shrinks-with_value Eats-pb_decode_varint
        λ value. Settles-store_unsigned field.data_size value dest

  pub Shrinks-pb_dec_svarint : Shrinks (pb_dec_svarint field dest)
  unfolding pb_dec_svarint
  Shrinks-pb_dec_svarint =
      Shrinks-with_value Eats-pb_decode_svarint
        λ value. Settles-store_signed field.data_size value dest

  pub Shrinks-pb_dec_fixed32 : Shrinks (pb_dec_fixed32 field dest)
  unfolding pb_dec_fixed32
  Shrinks-pb_dec_fixed32 = Shrinks-with_value Eats-pb_decode_fixed32 λ value. Settles-modify _

  pub Shrinks-pb_dec_fixed64 : Shrinks (pb_dec_fixed64 field dest)
  unfolding pb_dec_fixed64
  Shrinks-pb_dec_fixed64 = Shrinks-with_value Eats-pb_decode_fixed64 λ value. Settles-modify _

Settles-read_into : (buf count : ℕ) → Settles (read_into buf count)
unfolding read_into
Settles-read_into buf count =
    Settles-with_value (Steady-pb_read false count) λ bytes. Settles-modify _

Settles-fill_bytes : (size dest : ℕ) → Settles (fill_bytes size dest)
unfolding fill_bytes
Settles-fill_bytes size dest = record {
  run = λ m. (Settles-read_into (dest + bytes_offset) size).run (store_word m dest 4 size);
}

Settles-fill_string : (size dest : ℕ) → Settles (fill_string size dest)
unfolding fill_string
Settles-fill_string size dest = record { run = (Settles-read_into dest size).run }

pub Settles-pb_dec_fixed_length_bytes :
    (field : Field) (dest : ℕ) → Settles (pb_dec_fixed_length_bytes field dest)
unfolding pb_dec_fixed_length_bytes
Settles-pb_dec_fixed_length_bytes field dest = Settles-with_value Steady-pb_decode_varint32 λ size.
    Settles-test _ (Settles-return_error bytes_overflow) (
      Settles-test _ (Settles-modify _) (
        Settles-test _ (Settles-return_error incorrect_fixed_length_bytes_size)
          (Settles-read_into dest field.data_size)))

Settles-then_at :
    (dest : ℕ) {f : Action (List ℕ) (Unit {0})}
    {k : ℕ → Memory → Istream (List ℕ) → Loaded (List ℕ)}
    → Settles f
    → ((p : ℕ) → Settles (k p))
    → Settles (λ m s. then_at dest (f m s) k)
unfolding then_at
Settles-then_at dest {f} {k} hf hk =
    Settles-same (λ m s. same (f m s))
      (Settles->>= hf λ u. Settles-memory λ m. hk (load_word m dest pointer_size))
  where
    same :
        (r : Loaded (List ℕ))
        → (then_at dest r k).0 ≡ (and_do r λ u m. k (load_word m dest pointer_size) m).0
    same ((got u, s), m) = refl
    same ((failed, s), m) = refl
    same ((stuck, s), m) = refl

module _ (realloc : Realloc) where
  pub Settles-allocate_field :
      (p_data data_size array_size : ℕ)
      → Settles (allocate_field realloc p_data data_size array_size)
  unfolding allocate_field
  Settles-allocate_field p_data data_size array_size =
      Settles-test (λ m s. data_size == 0 || array_size == 0) (Settles-return_error invalid_size)
        (Settles-test
          (λ m s.
            (leb (2 ^ 32) data_size || leb (2 ^ 32) array_size)
            && ltb (size_max / array_size) data_size)
          (Settles-return_error size_too_large)
          (Settles-test
            (λ m s.
              (realloc m (load_word m p_data pointer_size) (array_size * data_size % 2 ^ 64)).0
              == 0)
            (Settles-error_after realloc_failed _) (Settles-modify _)))

  pub Settles-pb_dec_bytes : (field : Field) (dest : ℕ) → Settles (pb_dec_bytes realloc field dest)
  unfolding pb_dec_bytes
  Settles-pb_dec_bytes field dest = Settles-with_value Steady-pb_decode_varint32 λ size.
      Settles-test _ (Settles-return_error bytes_overflow) (
        Settles-test _ (Settles-return_error size_too_large) (
          Settles-test _
            (Settles-then_at dest (Settles-allocate_field dest _ 1) (Settles-fill_bytes size))
            (Settles-test _ (Settles-return_error bytes_overflow) (Settles-fill_bytes size dest))))

  pub Settles-pb_dec_string :
      (field : Field) (dest : ℕ) → Settles (pb_dec_string realloc field dest)
  unfolding pb_dec_string
  Settles-pb_dec_string field dest = Settles-with_value Steady-pb_decode_varint32 λ size.
      Settles-test _ (Settles-return_error size_too_large) (
        Settles-test _
          (Settles-then_at dest (Settles-allocate_field dest _ 1) (Settles-fill_string size))
          (Settles-test _ (Settles-return_error string_overflow) (Settles-fill_string size dest)))
