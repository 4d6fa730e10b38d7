-- ===== src/Nanopb/Decode/Scalar.antt =====
-- MovieDBApp/Pods/nanopb/pb_decode.c: the field decoders, less submessages, and allocate_field. They
-- store what they decode into memory.
use prj_movie_dbapp.Prelude.{
  ℕ, ◌+◌, ◌*◌, ◌/◌, ◌%◌, ◌^◌, false, not, ◌&&◌, ◌||◌, List, [], ◌∷◌, ltb, leb, ◌==◌, if◌then◌else◌,
  replicate,
}
use prj_movie_dbapp.Nanopb.Field.Atype
use prj_movie_dbapp.Nanopb.Field.{
  Field, Memory, load_word, sign_extend, pb_atype, pb_size_max, pointer_size, size_max,
  invalid_data_size, integer_too_large, bytes_overflow, string_overflow, size_too_large,
  incorrect_fixed_length_bytes_size, invalid_size, realloc_failed,
}
use prj_movie_dbapp.Nanopb.Encode.Primitive.{word_bytes}
use prj_movie_dbapp.Nanopb.Encode.Scalar.{bytes_offset, bytes_alloc_size}
use prj_movie_dbapp.Nanopb.Istream.{Istream, Outcome, got, failed, stuck, return_error, pb_read}
use prj_movie_dbapp.Nanopb.Decode.Varint.{pb_decode_varint, pb_decode_svarint, pb_decode_varint32}
use prj_movie_dbapp.Nanopb.Decode.Primitive.{pb_decode_fixed32, pb_decode_fixed64}

unfoldable pub store_byte : Memory → ℕ → ℕ → Memory
store_byte m a b = λ x. if x == a then b else m x

unfoldable pub store_bytes : Memory → ℕ → List ℕ → Memory
store_bytes m a [] = m
store_bytes m a (b ∷ bs) = store_bytes (store_byte m a b) (a + 1) bs

-- A little-endian word of n bytes.
unfoldable pub store_word : Memory → ℕ → ℕ → ℕ → Memory
store_word m a n v = store_bytes m a (word_bytes n v)

-- What a call did, with the memory after it.
abbrev pub Loaded : Type 0 → Type 0
Loaded S = (Outcome (Unit {0}) × Istream S) × Memory

-- A field decoder takes the descriptor and the address of the value.
abbrev pub FieldDecoder : Type 0 → Type 0
FieldDecoder S = Field → ℕ → Memory → Istream S → Loaded S

-- `if (!f(stream, &a)) return false; …`, where f does not touch the message.
unfoldable pub with_value :
    {S A : Type 0} → Outcome A × Istream S → Memory → (A → Memory → Istream S → Loaded S) → Loaded S
with_value (got a, s) m k = k a m s
with_value (failed, s) m k = ((failed, s), m)
with_value (stuck, s) m k = ((stuck, s), m)

-- pb_realloc: the new pointer, 0 for NULL, and the memory after the call.
abbrev pub Realloc : Type 0
Realloc = Memory → ℕ → ℕ → ℕ × Memory

module _ {S : Type 0} where
  -- `clamped = *(T*)dest = (T)value; … if (clamped != value)`, for a T of n bytes; `clamped` is the
  -- stored value as 64 bits.
  unfoldable pub store_clamped : ℕ → ℕ → ℕ → ℕ → Memory → Istream S → Loaded S
  store_clamped n clamped value dest m s = (
    if clamped == value then (got tt, s) else return_error integer_too_large s,
    store_word m dest n value,
  )

  unfoldable pub store_signed : ℕ → ℕ → ℕ → Memory → Istream S → Loaded S
  store_signed data_size value dest m s =
      if data_size == 8
      then store_clamped 8 value value dest m s
      else if data_size == 4
      then store_clamped 4 (sign_extend 32 (value % 2 ^ 32)) value dest m s
      else if data_size == 2
      then store_clamped 2 (sign_extend 16 (value % 2 ^ 16)) value dest m s
      else if data_size == 1
      then store_clamped 1 (sign_extend 8 (value % 2 ^ 8)) value dest m s
      else (return_error invalid_data_size s, m)

  unfoldable pub store_unsigned : ℕ → ℕ → ℕ → Memory → Istream S → Loaded S
  store_unsigned data_size value dest m s =
      if data_size == 8
      then store_clamped 8 value value dest m s
      else if data_size == 4
      then store_clamped 4 (value % 2 ^ 32) value dest m s
      else if data_size == 2
      then store_clamped 2 (value % 2 ^ 16) value dest m s
      else if data_size == 1
      then store_clamped 1 (value % 2 ^ 8) value dest m s
      else (return_error invalid_data_size s, m)

  -- A varint of a field of 32 bits or less is cast to int32_t first.
  unfoldable pub pb_dec_varint : FieldDecoder S
  pb_dec_varint field dest m s = with_value (pb_decode_varint s) m λ value.
      store_signed field.data_size
        (if field.data_size == 8 then value else sign_extend 32 (value % 2 ^ 32)) dest

  unfoldable pub pb_dec_uvarint : FieldDecoder S
  pb_dec_uvarint field dest m s =
      with_value (pb_decode_varint s) m λ value. store_unsigned field.data_size value dest

  unfoldable pub pb_dec_svarint : FieldDecoder S
  pb_dec_svarint field dest m s =
      with_value (pb_decode_svarint s) m λ value. store_signed field.data_size value dest

  unfoldable pub pb_dec_fixed32 : FieldDecoder S
  pb_dec_fixed32 field dest m s =
      with_value (pb_decode_fixed32 s) m λ value m s. ((got tt, s), store_word m dest 4 value)

  unfoldable pub pb_dec_fixed64 : FieldDecoder S
  pb_dec_fixed64 field dest m s =
      with_value (pb_decode_fixed64 s) m λ value m s. ((got tt, s), store_word m dest 8 value)

  -- `pb_read(stream, buf, count)`; what a failing callback stored is not kept.
  unfoldable pub read_into : ℕ → ℕ → Memory → Istream S → Loaded S
  read_into buf count m s =
      with_value (pb_read false count s) m λ bytes m s. ((got tt, s), store_bytes m buf bytes)

  unfoldable pub pb_dec_fixed_length_bytes : FieldDecoder S
  pb_dec_fixed_length_bytes field dest m s = with_value (pb_decode_varint32 s) m λ size m s.
      if ltb pb_size_max size
      then (return_error bytes_overflow s, m)
      else if size == 0
      then ((got tt, s), store_bytes m dest (replicate field.data_size 0))
      else if not (size == field.data_size)
      then (return_error incorrect_fixed_length_bytes_size s, m)
      else read_into dest field.data_size m s

  -- After allocate_field, with the pointer that it stored at `dest`.
  unfoldable pub then_at : ℕ → Loaded S → (ℕ → Memory → Istream S → Loaded S) → Loaded S
  then_at dest ((got u, s), m) k = k (load_word m dest pointer_size) m s
  then_at dest ((failed, s), m) k = ((failed, s), m)
  then_at dest ((stuck, s), m) k = ((stuck, s), m)

  -- `bdest->size = size; return pb_read(stream, bdest->bytes, size);`
  unfoldable pub fill_bytes : ℕ → ℕ → Memory → Istream S → Loaded S
  fill_bytes size bdest m = read_into (bdest + bytes_offset) size (store_word m bdest 4 size)

  -- `status = pb_read(stream, dest, size); dest[size] = 0; return status;`
  unfoldable pub fill_string : ℕ → ℕ → Memory → Istream S → Loaded S
  fill_string size dest m s =
      let (result, m') = read_into dest size m s in (result, store_byte m' (dest + size) 0)

  module _ (realloc : Realloc) where
    unfoldable pub allocate_field : ℕ → ℕ → ℕ → Memory → Istream S → Loaded S
    allocate_field p_data data_size array_size m s =
        let (ptr, m') =
          realloc m (load_word m p_data pointer_size) (array_size * data_size % 2 ^ 64) in
        if data_size == 0 || array_size == 0
        then (return_error invalid_size s, m)
        else if (leb (2 ^ 32) data_size || leb (2 ^ 32) array_size)
            && ltb (size_max / array_size) data_size
        then (return_error size_too_large s, m)
        else if ptr == 0
        then (return_error realloc_failed s, m')
        else ((got tt, s), store_word m' p_data pointer_size ptr)

    unfoldable pub pb_dec_bytes : FieldDecoder S
    pb_dec_bytes field dest m s = with_value (pb_decode_varint32 s) m λ size m s.
        let alloc_size = bytes_alloc_size size in
        if ltb pb_size_max size
        then (return_error bytes_overflow s, m)
        else if ltb alloc_size size
        then (return_error size_too_large s, m)
        else if pb_atype field.type == Atype.pointer
        then then_at dest (allocate_field dest alloc_size 1 m s) (fill_bytes size)
        else if ltb field.data_size alloc_size
        then (return_error bytes_overflow s, m)
        else fill_bytes size dest m s

    -- `size + 1` is a uint32_t.
    unfoldable pub pb_dec_string : FieldDecoder S
    pb_dec_string field dest m s = with_value (pb_decode_varint32 s) m λ size m s.
        let alloc_size = (size + 1) % 2 ^ 32 in
        if ltb alloc_size size
        then (return_error size_too_large s, m)
        else if pb_atype field.type == Atype.pointer
        then then_at dest (allocate_field dest alloc_size 1 m s) (fill_string size)
        else if ltb field.data_size alloc_size
        then (return_error string_overflow s, m)
        else fill_string size dest m s
