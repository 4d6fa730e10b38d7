-- ===== src/Nanopb/Encode/Scalar.antt =====
-- MovieDBApp/Pods/nanopb/pb_encode.c: the field encoders of PB_ENCODERS.
use prj_movie_dbapp.Prelude.{
  ℕ, zero, suc, ◌+◌, ◌&&◌, Option, none, some, [], ltb, ◌==◌, if◌then◌else◌,
}
use prj_movie_dbapp.Nanopb.Field.Ltype
use prj_movie_dbapp.Nanopb.Field.Atype
use prj_movie_dbapp.Nanopb.Field.{
  Field, Memory, load_byte, load_bytes, load_word, sign_extend, pb_atype, size_max,
  invalid_data_size, bytes_size_exceeded, invalid_field_descriptor,
}
use prj_movie_dbapp.Nanopb.Ostream.{Encoder, crashed, return_error}
use prj_movie_dbapp.Nanopb.Encode.Primitive.{
  pb_encode_varint, pb_encode_svarint, pb_encode_fixed32, pb_encode_fixed64, pb_encode_string,
}

-- The integer of `data_size` bytes at `src`, widened; `none` is "invalid data_size".
unfoldable pub load_unsigned : Memory → ℕ → ℕ → Option ℕ
load_unsigned m data_size src =
    if data_size == 1
    then some (load_word m src 1)
    else if data_size == 2
    then some (load_word m src 2)
    else if data_size == 4
    then some (load_word m src 4)
    else if data_size == 8
    then some (load_word m src 8)
    else none

unfoldable pub load_signed : Memory → ℕ → ℕ → Option ℕ
load_signed m data_size src =
    if data_size == 1
    then some (sign_extend 8 (load_word m src 1))
    else if data_size == 2
    then some (sign_extend 16 (load_word m src 2))
    else if data_size == 4
    then some (sign_extend 32 (load_word m src 4))
    else if data_size == 8
    then some (load_word m src 8)
    else none

-- `while (size < max_size && *p != '\0') { size++; p++; }`
unfoldable pub string_length : ℕ → Memory → ℕ → ℕ
string_length zero m p = 0
string_length (suc max_size) m p =
    let rest = suc (string_length max_size m (p + 1)) in if load_byte m p == 0 then 0 else rest

-- offsetof(pb_bytes_array_t, bytes)
abbrev pub bytes_offset : ℕ
bytes_offset = 4

-- PB_BYTES_ARRAY_T_ALLOCSIZE
abbrev pub bytes_alloc_size : ℕ → ℕ
bytes_alloc_size n = n + bytes_offset

-- A field encoder takes the descriptor and the address of the value.
abbrev pub FieldEncoder : Type 0 → Type 0
FieldEncoder S = Field → ℕ → Encoder S

module _ {S : Type 0} (m : Memory) where
  unfoldable pub pb_enc_varint : FieldEncoder S
  pb_enc_varint field src = elim (load_signed m field.data_size src) [
    | none ↦ return_error invalid_data_size
    | some value ↦ pb_encode_varint value
  ]

  unfoldable pub pb_enc_uvarint : FieldEncoder S
  pb_enc_uvarint field src = elim (load_unsigned m field.data_size src) [
    | none ↦ return_error invalid_data_size
    | some value ↦ pb_encode_varint value
  ]

  unfoldable pub pb_enc_svarint : FieldEncoder S
  pb_enc_svarint field src = elim (load_signed m field.data_size src) [
    | none ↦ return_error invalid_data_size
    | some value ↦ pb_encode_svarint value
  ]

  unfoldable pub pb_enc_fixed32 : FieldEncoder S
  pb_enc_fixed32 field src = pb_encode_fixed32 m src

  unfoldable pub pb_enc_fixed64 : FieldEncoder S
  pb_enc_fixed64 field src = pb_encode_fixed64 m src

  -- The size of a pb_bytes_array_t stands in its first four bytes.
  unfoldable pub pb_enc_bytes : FieldEncoder S
  pb_enc_bytes field src =
      let size = load_word m src 4 in
      if src == 0
      then pb_encode_string [] 0
      else if pb_atype field.type == Atype.static && ltb field.data_size (bytes_alloc_size size)
      then return_error bytes_size_exceeded
      else pb_encode_string (load_bytes m (src + bytes_offset) size) size

  unfoldable pub pb_enc_string : FieldEncoder S
  pb_enc_string field src =
      let max_size = if pb_atype field.type == Atype.pointer then size_max else field.data_size in
      let size = if src == 0 then 0 else string_length max_size m src in
      pb_encode_string (load_bytes m src size) size

  unfoldable pub pb_enc_fixed_length_bytes : FieldEncoder S
  pb_enc_fixed_length_bytes field src =
      pb_encode_string (load_bytes m src field.data_size) field.data_size

  module _ (pb_encode_submessage : ℕ → ℕ → Encoder S) where
    unfoldable pub pb_enc_submessage : FieldEncoder S
    pb_enc_submessage field src =
        if field.ptr == 0
        then return_error invalid_field_descriptor
        else pb_encode_submessage field.ptr src

    -- PB_ENCODERS[ltype], called: the entry of extensions is NULL, and the table ends at ten.
    unfoldable pub pb_encoders : ℕ → FieldEncoder S
    pb_encoders t field src =
        if t == Ltype.varint
        then pb_enc_varint field src
        else if t == Ltype.uvarint
        then pb_enc_uvarint field src
        else if t == Ltype.svarint
        then pb_enc_svarint field src
        else if t == Ltype.fixed32
        then pb_enc_fixed32 field src
        else if t == Ltype.fixed64
        then pb_enc_fixed64 field src
        else if t == Ltype.bytes
        then pb_enc_bytes field src
        else if t == Ltype.string
        then pb_enc_string field src
        else if t == Ltype.submessage
        then pb_enc_submessage field src
        else if t == Ltype.fixed_length_bytes
        then pb_enc_fixed_length_bytes field src
        else λ s. (crashed, s)
