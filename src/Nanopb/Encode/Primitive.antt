-- ===== src/Nanopb/Encode/Primitive.antt =====
-- MovieDBApp/Pods/nanopb/pb_encode.c: varints, fixed-size words, tags and length-prefixed bytes.
use prj_movie_dbapp.Prelude.{
  ℕ, zero, suc, ◌-◌, ◌*◌, ◌/◌, ◌%◌, ◌^◌, ◌||◌, List, [], ◌∷◌, bit_and, bit_or, leb, ◌==◌,
  if◌then◌else◌, length,
}
use prj_movie_dbapp.Nanopb.Field.Ltype
use prj_movie_dbapp.Nanopb.Field.WireType
use prj_movie_dbapp.Nanopb.Field.{Field, Memory, load_word, pb_ltype, invalid_field_type}
use prj_movie_dbapp.Nanopb.Ostream.{Encoder, ◌>>◌, return_error, pb_write}

-- `while (value) { buffer[i] = (value & 0x7F) | 0x80; value >>= 7; i++; }`, for at most `n` rounds.
unfoldable pub varint_groups : ℕ → ℕ → List ℕ
varint_groups zero value = []
varint_groups (suc n) value =
    let rest = varint_groups n (value / 2 ^ 7) in
    if value == 0 then [] else (bit_or (bit_and value 0x7f) 0x80 % 2 ^ 8) ∷ rest

-- `buffer[i-1] &= 0x7F`
unfoldable pub mask_last : List ℕ → List ℕ
mask_last [] = []
mask_last (b ∷ []) = bit_and b 0x7f ∷ []
mask_last (b ∷ c ∷ rest) = b ∷ mask_last (c ∷ rest)

-- What pb_encode_varint writes; the buffer has ten bytes, enough for every uint64_t.
unfoldable pub varint_buffer : ℕ → List ℕ
varint_buffer value =
    if leb value 0x7f then (value % 2 ^ 8) ∷ [] else mask_last (varint_groups 10 value)

unfoldable pub zigzag : ℕ → ℕ
zigzag value =
    let doubled = value * 2 % 2 ^ 64 in if leb (2 ^ 63) value then 2 ^ 64 - 1 - doubled else doubled

-- `(pb_byte_t)((val >> 8 * i) & 0xFF)` for the i of the n bytes, from the lowest on.
unfoldable pub word_bytes : ℕ → ℕ → List ℕ
word_bytes zero val = []
word_bytes (suc n) val = bit_and val 0xff ∷ word_bytes n (val / 2 ^ 8)

-- `((pb_uint64_t)field_number << 3) | wiretype`
unfoldable pub tag_word : ℕ → ℕ → ℕ
tag_word wiretype field_number = bit_or (field_number * 2 ^ 3 % 2 ^ 64) wiretype

module _ {S : Type 0} where
  unfoldable pub pb_encode_varint : ℕ → Encoder S
  pb_encode_varint value = pb_write (varint_buffer value) (length (varint_buffer value))

  unfoldable pub pb_encode_svarint : ℕ → Encoder S
  pb_encode_svarint value = pb_encode_varint (zigzag value)

  unfoldable pub pb_encode_fixed32 : Memory → ℕ → Encoder S
  pb_encode_fixed32 m value = pb_write (word_bytes 4 (load_word m value 4)) 4

  unfoldable pub pb_encode_fixed64 : Memory → ℕ → Encoder S
  pb_encode_fixed64 m value = pb_write (word_bytes 8 (load_word m value 8)) 8

  unfoldable pub pb_encode_tag : ℕ → ℕ → Encoder S
  pb_encode_tag wiretype field_number = pb_encode_varint (tag_word wiretype field_number)

  unfoldable pub pb_encode_tag_for_field : Field → Encoder S
  pb_encode_tag_for_field field =
      let t = pb_ltype field.type in
      if t == Ltype.varint || t == Ltype.uvarint || t == Ltype.svarint
      then pb_encode_tag WireType.varint field.tag
      else if t == Ltype.fixed32
      then pb_encode_tag WireType.bits32 field.tag
      else if t == Ltype.fixed64
      then pb_encode_tag WireType.bits64 field.tag
      else if t == Ltype.bytes
          || t == Ltype.string
          || t == Ltype.submessage
          || t == Ltype.fixed_length_bytes
      then pb_encode_tag WireType.string field.tag
      else return_error invalid_field_type

  unfoldable pub pb_encode_string : List ℕ → ℕ → Encoder S
  pb_encode_string buffer size = pb_encode_varint size >> pb_write buffer size
