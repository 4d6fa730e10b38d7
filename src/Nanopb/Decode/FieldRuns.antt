-- ===== src/Nanopb/Decode/FieldRuns.antt =====
-- Tests of the field decoders, and the theorems at concrete inputs.
use prj_movie_dbapp.Prelude.{
  ℕ, ◌-◌, ◌^◌, ◌≡◌, refl, none, [], ◌∷◌, ◌++◌, arith, length, ◌==◌, if◌then◌else◌,
}
use prj_movie_dbapp.Nanopb.Field.{Field, Memory, forth, load_word, load_bytes}
use prj_movie_dbapp.Nanopb.Encode.Primitive.{varint_groups, mask_last, varint_buffer, zigzag}
use prj_movie_dbapp.Nanopb.Encode.Scalar.{load_unsigned, load_signed}
use prj_movie_dbapp.Nanopb.Istream.{
  failed, pb_readbyte, call_source, buf_read, first_byte, pb_read, read_bytes,
}
use prj_movie_dbapp.Nanopb.Decode.Varint.{
  pb_decode_varint32, pb_decode_varint32_eof, after_first, varint32_rest,
}
use prj_movie_dbapp.Nanopb.Decode.Bounds.{stream}
use prj_movie_dbapp.Nanopb.Decode.Encoding.{reader}
use prj_movie_dbapp.Nanopb.Decode.Scalar.{
  Realloc, with_value, store_byte, store_bytes, read_into, fill_string, pb_dec_varint,
  pb_dec_uvarint, pb_dec_svarint, pb_dec_bytes, pb_dec_string, pb_dec_fixed_length_bytes,
}
use prj_movie_dbapp.Nanopb.Decode.Inside.{Inside, dec_integers-Inside}
use prj_movie_dbapp.Nanopb.Decode.InsideBuffer.{
  dec_string-Inside, dec_bytes-Inside, dec_fixed_length_bytes-Inside,
}
use prj_movie_dbapp.Nanopb.Decode.Copies.{Copied, dec_uvarint-enc, dec_varint-enc, dec_svarint-enc}

-- A static field of the given type and size.
abbrev field_of_size : ℕ → ℕ → Field
field_of_size type size = record {
  tag = 1;
  type = type;
  data_offset = 0;
  size_offset = forth 0;
  data_size = size;
  array_size = 0;
  ptr = 0;
}

-- Address 8 holds 300, and address 16 holds -2 in two bytes.
abbrev sample : Memory
sample a =
    if a == 8
    then 0x2c
    else if a == 9
    then 0x01
    else if a == 16
    then 0xfe
    else if a == 17
    then 0xff
    else 0

abbrev filled : Memory
filled a = 7

-- No memory is left.
abbrev no_memory : Realloc
no_memory m ptr size = (0, m)

string_run :
    load_bytes
      ((pb_dec_string no_memory
        (field_of_size 7 4)
        100
        filled
        (stream (2 ∷ 104 ∷ 105 ∷ 9 ∷ []) 4 none)).1)
      99
      6
    ≡ 7 ∷ 104 ∷ 105 ∷ 0 ∷ 7 ∷ 7 ∷ []
unfolding load_bytes pb_dec_string with_value pb_decode_varint32 pb_decode_varint32_eof after_first
    varint32_rest pb_readbyte call_source buf_read first_byte fill_string read_into pb_read
    read_bytes store_bytes store_byte
string_run = refl

string_overflow_run :
    ((pb_dec_string no_memory
      (field_of_size 7 2)
      100
      filled
      (stream (2 ∷ 104 ∷ 105 ∷ 9 ∷ []) 4 none)).0
    ).0
    ≡ failed
unfolding pb_dec_string with_value pb_decode_varint32 pb_decode_varint32_eof after_first
    varint32_rest pb_readbyte call_source buf_read first_byte
string_overflow_run = refl

dec_integers-Inside_example :
    Inside 100 2 filled ((pb_dec_varint (field_of_size 0 2) 100 filled (stream (5 ∷ []) 1 none)).1)
    × (Inside 100 2 filled
          ((pb_dec_uvarint (field_of_size 0 2) 100 filled (stream (5 ∷ []) 1 none)).1)
        × Inside 100 2 filled
            ((pb_dec_svarint (field_of_size 0 2) 100 filled (stream (5 ∷ []) 1 none)).1))
dec_integers-Inside_example =
    dec_integers-Inside (field_of_size 0 2) 100 filled (stream (5 ∷ []) 1 none)

dec_string-Inside_example : Inside 100 4 filled (
    (pb_dec_string no_memory (field_of_size 7 4) 100 filled (stream (2 ∷ 104 ∷ 105 ∷ []) 3 none)).1)
dec_string-Inside_example =
    dec_string-Inside no_memory (field_of_size 7 4) 100 filled (2 ∷ 104 ∷ 105 ∷ []) 3 none refl
      (omega arith)

dec_bytes-Inside_example :
    Inside 100 8 filled (
      (pb_dec_bytes no_memory
        (field_of_size 6 8)
        100
        filled
        (stream (2 ∷ 104 ∷ 105 ∷ []) 3 none)).1)
dec_bytes-Inside_example =
    dec_bytes-Inside no_memory (field_of_size 6 8) 100 filled (2 ∷ 104 ∷ 105 ∷ []) 3 none refl
      (omega arith)

dec_fixed_length_bytes-Inside_example : Inside 100 2 filled (
    (pb_dec_fixed_length_bytes
      (field_of_size 10 2)
      100
      filled
      (stream (2 ∷ 104 ∷ 105 ∷ []) 3 none)).1)
dec_fixed_length_bytes-Inside_example =
    dec_fixed_length_bytes-Inside (field_of_size 10 2) 100 filled (2 ∷ 104 ∷ 105 ∷ []) 3 none
      (omega arith)

dec_uvarint-enc_example :
    Copied load_unsigned 2 100 300
      (reader (7 ∷ []) (3 - length (varint_buffer 300)))
      (pb_dec_uvarint (field_of_size 1 2) 100 filled (reader (varint_buffer 300 ++ 7 ∷ []) 3))
dec_uvarint-enc_example =
    dec_uvarint-enc (field_of_size 1 2) 8 100 sample filled 300 3 (7 ∷ [])
      (unfold load_unsigned load_word in refl)
      (unfold varint_buffer varint_groups mask_last in omega arith)

dec_varint-enc_example :
    Copied load_signed 2 100
      (2 ^ 64 - 2)
      (reader [] (10 - length (varint_buffer (2 ^ 64 - 2))))
      (pb_dec_varint (field_of_size 0 2) 100 filled (reader (varint_buffer (2 ^ 64 - 2) ++ []) 10))
dec_varint-enc_example =
    dec_varint-enc (field_of_size 0 2) 16 100 sample filled (2 ^ 64 - 2) 10 []
      (unfold load_signed load_word in refl)
      (unfold varint_buffer varint_groups mask_last in omega arith)

dec_svarint-enc_example :
    Copied load_signed 2 100
      (2 ^ 64 - 2)
      (reader [] (1 - length (varint_buffer (zigzag (2 ^ 64 - 2)))))
      (pb_dec_svarint
        (field_of_size 2 2)
        100
        filled
        (reader (varint_buffer (zigzag (2 ^ 64 - 2)) ++ []) 1))
dec_svarint-enc_example =
    dec_svarint-enc (field_of_size 2 2) 16 100 sample filled (2 ^ 64 - 2) 1 []
      (unfold load_signed load_word in refl)
      (unfold zigzag varint_buffer varint_groups mask_last in omega arith)
