-- ===== src/Nanopb/Decode/Runs.antt =====
-- Tests of the decoder's primitives, and the theorems at concrete inputs.
use prj_movie_dbapp.Prelude.{
  ℕ, ◌-◌, ◌^◌, ◌≡◌, refl, false, none, some, List, [], ◌∷◌, ◌++◌, arith, length, replicate,
}
use prj_movie_dbapp.Nanopb.Field.{varint_overflow}
use prj_movie_dbapp.Nanopb.Field.WireType
use prj_movie_dbapp.Nanopb.Encode.Primitive.{
  varint_groups, mask_last, varint_buffer, zigzag, word_bytes, tag_word,
}
use prj_movie_dbapp.Nanopb.Istream.{got, failed}
use prj_movie_dbapp.Nanopb.Decode.Varint.{
  pb_decode_varint32_eof, pb_decode_varint32, pb_decode_varint, pb_decode_svarint,
}
use prj_movie_dbapp.Nanopb.Decode.Primitive.{
  pb_decode_fixed32, pb_decode_fixed64, pb_decode_tag, pb_skip_field, read_raw_value,
  pb_make_string_substream, pb_close_string_substream,
}
use prj_movie_dbapp.Nanopb.Decode.Bounds.{stream, Advanced, Ends}
use prj_movie_dbapp.Nanopb.Decode.Bounds.Fields.{
  pb_decode_varint-Ends, pb_decode_tag-Ends, pb_skip_field-Ends, read_raw_value-Ends,
}
use prj_movie_dbapp.Nanopb.Decode.Bounds.Substream.{close_substream-Advanced}
use prj_movie_dbapp.Nanopb.Decode.Encoding.{reader}
use prj_movie_dbapp.Nanopb.Decode.RoundTrip.{decode_varint-encode, decode_svarint-encode}
use prj_movie_dbapp.Nanopb.Decode.RoundTrip32.{
  decode_varint32-encode, decode_tag-encode, substream-encode,
}
use prj_movie_dbapp.Nanopb.Decode.Overlong.{overlong, overlong_varint32}
use prj_movie_dbapp.Nanopb.Decode.Fixed.{decode_fixed-encode, string_payload, skip_field-Payload}

buffer_300 : varint_buffer 300 ≡ 0xac ∷ 0x02 ∷ []
unfolding varint_buffer varint_groups mask_last
buffer_300 = refl

zigzag_minus_150 : zigzag (2 ^ 64 - 150) ≡ 299
unfolding zigzag
zigzag_minus_150 = refl

tag_word_2_5 : tag_word 2 5 ≡ 0x2a
unfolding tag_word
tag_word_2_5 = refl

decode_varint-encode_example :
    pb_decode_varint (reader (varint_buffer 300 ++ 7 ∷ []) 3)
    ≡ (got 300, reader (7 ∷ []) (3 - length (varint_buffer 300)))
decode_varint-encode_example =
    decode_varint-encode 300 3 (7 ∷ []) (omega arith)
      (unfold varint_buffer varint_groups mask_last in omega arith)

decode_svarint-encode_example :
    pb_decode_svarint (reader (varint_buffer (zigzag (2 ^ 64 - 150)) ++ []) 2)
    ≡ (got (2 ^ 64 - 150), reader [] (2 - length (varint_buffer (zigzag (2 ^ 64 - 150)))))
decode_svarint-encode_example =
    decode_svarint-encode (2 ^ 64 - 150) 2 [] (omega arith)
      (unfold zigzag varint_buffer varint_groups mask_last in omega arith)

decode_varint32-encode_example :
    pb_decode_varint32_eof (reader (varint_buffer 300 ++ 7 ∷ []) 3)
    ≡ ((got 300, reader (7 ∷ []) (3 - length (varint_buffer 300))), false)
decode_varint32-encode_example =
    decode_varint32-encode 300 3 (7 ∷ []) (omega arith)
      (unfold varint_buffer varint_groups mask_last in omega arith)

decode_tag-encode_example :
    pb_decode_tag (reader (varint_buffer (tag_word 2 5) ++ 1 ∷ []) 2)
    ≡ ((got (2, 5), reader (1 ∷ []) (2 - length (varint_buffer (tag_word 2 5)))), false)
decode_tag-encode_example =
    decode_tag-encode 2 5 2 (1 ∷ []) (omega arith) (omega arith) (omega arith)
      (unfold tag_word varint_buffer varint_groups mask_last in omega arith)

substream-encode_example :
    pb_make_string_substream (reader (varint_buffer 2 ++ 8 ∷ 9 ∷ 10 ∷ []) 4) ≡ (
      got (reader (8 ∷ 9 ∷ 10 ∷ []) 2),
      reader (8 ∷ 9 ∷ 10 ∷ []) (4 - length (varint_buffer 2) - 2),
    )
substream-encode_example =
    substream-encode 2 4 (8 ∷ 9 ∷ 10 ∷ []) (omega arith)
      (unfold varint_buffer varint_groups mask_last in omega arith)

decode_fixed-encode_example :
    (pb_decode_fixed32 (reader (word_bytes 4 70000 ++ []) 8) ≡ (got 70000, reader [] (8 - 4)))
    × (pb_decode_fixed64 (reader (word_bytes 8 (2 ^ 40) ++ []) 8)
        ≡ (got (2 ^ 40), reader [] (8 - 8)))
decode_fixed-encode_example =
    decode_fixed-encode 70000 (2 ^ 40) 8 [] (omega arith) (omega arith) (omega arith)

skip_field-Payload_example :
    pb_skip_field WireType.string (reader ((varint_buffer 2 ++ 8 ∷ 9 ∷ []) ++ 10 ∷ []) 4)
    ≡ (got tt, reader (10 ∷ []) (4 - length (varint_buffer 2 ++ 8 ∷ 9 ∷ [])))
skip_field-Payload_example =
    skip_field-Payload WireType.string 4 (varint_buffer 2 ++ 8 ∷ 9 ∷ []) (10 ∷ [])
      (string_payload (8 ∷ 9 ∷ []) (omega arith))
      (unfold varint_buffer varint_groups mask_last in omega arith)

abbrev broken : List ℕ
broken = 0x80 ∷ 0x80 ∷ 0x80 ∷ []

pb_decode_varint-Ends_example : Ends broken 2 (pb_decode_varint (stream broken 2 none))
pb_decode_varint-Ends_example = pb_decode_varint-Ends broken 2 none (omega arith)

pb_decode_tag-Ends_example : Ends broken 3 ((pb_decode_tag (stream broken 3 none)).0)
pb_decode_tag-Ends_example = pb_decode_tag-Ends broken 3 none (omega arith)

pb_skip_field-Ends_example : Ends broken 2 (pb_skip_field 2 (stream broken 2 none))
pb_skip_field-Ends_example = pb_skip_field-Ends 2 broken 2 none (omega arith)

read_raw_value-Ends_example : Ends broken 3 (read_raw_value 0 2 (stream broken 3 none))
read_raw_value-Ends_example = read_raw_value-Ends 0 2 broken 3 none (omega arith)

one_read : Advanced (8 ∷ 9 ∷ 10 ∷ []) 2 (stream (9 ∷ 10 ∷ []) 1 none)
one_read = record {
  pre = 8 ∷ [];
  rest = 9 ∷ 10 ∷ [];
  err = none;
  split = refl;
  within = omega arith;
  now = refl;
}

close_substream-Advanced_example :
    pb_close_string_substream (stream (9 ∷ 10 ∷ []) 1 none) (stream (8 ∷ 9 ∷ 10 ∷ []) 1 none)
    ≡ (got tt, stream (10 ∷ []) 1 none)
close_substream-Advanced_example =
    close_substream-Advanced (8 ∷ 9 ∷ 10 ∷ []) 2 1 none (stream (9 ∷ 10 ∷ []) 1 none) one_read

overlong_varint32_example :
    (pb_decode_varint32 (reader (overlong 1) 38) ≡ (got 8, reader [] 0))
    × (pb_decode_varint (reader (overlong 1) 38)
        ≡ (failed, stream (replicate 27 0x80 ++ 1 ∷ []) 28 (some varint_overflow)))
overlong_varint32_example = overlong_varint32 1 (omega arith)
