-- ===== src/Nanopb/Encode/Runs.antt =====
-- pb_encode.c on a message of four fields, and the encoder's theorems at it.
use prj_movie_dbapp.Prelude.{
  ℕ, ◌-◌, ◌+◌, ◌≡◌, refl, List, [], ◌∷◌, ◌++◌, Option, some, arith, ◌==◌, if◌then◌else◌, get_or,
  length, replicate,
}
use prj_movie_dbapp.Nanopb.Field.{Field, Memory, forth, back, load_bytes, load_word}
use prj_movie_dbapp.Nanopb.Iter.{
  pb_field_iter_begin, pb_field_iter_next, in_union, iter_advance, prev_size,
}
use prj_movie_dbapp.Nanopb.Ostream.{
  Status, ok, failed, Ostream, Buffer, pb_write, call_sink, buf_write, copy_bytes,
  pb_ostream_from_buffer,
}
use prj_movie_dbapp.Nanopb.Encode.Primitive.{
  varint_buffer, varint_groups, mask_last, word_bytes, pb_encode_varint, pb_encode_fixed32,
  pb_encode_tag, tag_word, pb_encode_tag_for_field, pb_encode_string,
}
use prj_movie_dbapp.Nanopb.Encode.Scalar.{
  load_unsigned, string_length, pb_enc_uvarint, pb_enc_fixed32, pb_enc_string, pb_enc_submessage,
  pb_encoders,
}
use prj_movie_dbapp.Nanopb.Encode.Array.{
  encode_array, entry, encode_packed, encode_items, packed_size, measure, with_size, write_sized,
}
use prj_movie_dbapp.Nanopb.Encode.Basic.{
  Env, crash, implicit_has, has_field, item_count, encode_required, encode_when, encode_by_htype,
  encode_basic_field, encode_field,
}
use prj_movie_dbapp.Nanopb.Encode.Message.{
  encode_fields, encode_one, encode_with, pb_encode, pb_encode_submessage, pb_encode_delimited,
  pb_get_encoded_size, submessage_stream, close_submessage, write_submessage, after_sizing,
}
use prj_movie_dbapp.Nanopb.Encode.Emits.{Uniform-crashed}
use prj_movie_dbapp.Nanopb.Encode.Whole.{UniformEnv}
use prj_movie_dbapp.Nanopb.Encode.SizingPass.{
  Wrote, written, encode_fills_sized_buffer, encode_fails_short_buffer, delimited_prefixes_length,
}

-- { uint32 id = 1; string name = 2; optional Inner inner = 3; repeated uint32 items = 4; } as a
-- structure at address 1000, and { fixed32 word = 1; } inside it.
abbrev structure : List ℕ
structure =
    150 ∷ 0 ∷ 0 ∷ 0 ∷ 104 ∷ 105 ∷ 0 ∷ 0 ∷ 1 ∷ 0 ∷ 0 ∷ 0 ∷ 1 ∷ 2 ∷ 3 ∷ 4 ∷ 2 ∷ 0 ∷ 0 ∷ 0 ∷ 5 ∷ 0 ∷ 0
    ∷ 0 ∷ 44 ∷ 1 ∷ 0 ∷ 0 ∷ []

abbrev memory : Memory
memory a = get_or structure (a - 1000) 0

abbrev field : ℕ → ℕ → ℕ → ℕ → ℕ → ℕ → Field
field tag type data_offset data_size array_size ptr = record {
  tag = tag;
  type = type;
  data_offset = data_offset;
  size_offset = forth 0;
  data_size = data_size;
  array_size = array_size;
  ptr = ptr;
}

abbrev outer_fields : List Field
outer_fields =
    field 1 0x01 0 4 0 0
    ∷ field 2 0x06 0 4 0 0
    ∷ record (field 3 0x17 4 4 0 200) { size_offset = back 3 }
    ∷ record (field 4 0x21 4 4 2 0) { size_offset = back 3 }
    ∷ []

abbrev env : Env Buffer
env = record {
  memory = memory;
  descriptors = λ a. if a == 100 then outer_fields else field 1 0x03 0 4 0 0 ∷ [];
  callback_encode = λ a f p. crash;
  extension_encode = λ a e. crash;
}

env_uniform : UniformEnv env
env_uniform = record { callbacks = λ a f p. Uniform-crashed; extensions = λ a e. Uniform-crashed }

abbrev empty : Buffer
empty = record { cells = []; next = 0 }

abbrev encoded : List ℕ
encoded =
    0x08 ∷ 0x96 ∷ 0x01 ∷ 0x12 ∷ 0x02 ∷ 104 ∷ 105 ∷ 0x1a ∷ 0x05 ∷ 0x0d ∷ 1 ∷ 2 ∷ 3 ∷ 4 ∷ 0x22 ∷ 0x03
    ∷ 5 ∷ 0xac ∷ 0x02 ∷ []

-- The line opens the encoder for the tests below.
sized : Option ℕ
unfolding pb_get_encoded_size pb_encode encode_with pb_field_iter_begin pb_field_iter_next in_union
    iter_advance prev_size encode_fields encode_one encode_field encode_basic_field implicit_has
    encode_by_htype encode_required encode_when has_field item_count pb_encode_tag_for_field
    pb_encode_tag tag_word pb_encode_varint varint_buffer varint_groups mask_last pb_write call_sink
    buf_write copy_bytes pb_encoders pb_enc_uvarint pb_enc_fixed32 pb_enc_string pb_enc_submessage
    load_unsigned load_word load_bytes string_length pb_encode_fixed32 word_bytes pb_encode_string
    encode_array encode_items encode_packed packed_size measure with_size write_sized entry
    pb_encode_submessage after_sizing write_submessage submessage_stream close_submessage
sized = pb_get_encoded_size env 3 empty 100 1000

size_run : pb_get_encoded_size env 3 empty 100 1000 ≡ some 19
unfolding sized
size_run = refl

abbrev buffer : List ℕ
buffer = replicate 20 0

abbrev encoding : Status × Ostream Buffer
encoding = pb_encode env 3 100 1000 (pb_ostream_from_buffer buffer 20)

encode_run : encoding.0 ≡ ok
unfolding sized pb_ostream_from_buffer
encode_run = refl

encode_next : encoding.1.state.next ≡ 19
unfolding sized pb_ostream_from_buffer
encode_next = refl

encode_cells : encoding.1.state.cells ≡ encoded ++ 0 ∷ []
unfolding sized pb_ostream_from_buffer
encode_cells = refl

encode_fills_sized_buffer_example :
    (pb_get_encoded_size env 3 empty 100 1000 ≡ some encoding.1.state.next)
    × Wrote encoding.1.state.next
        (replicate 30 7)
        (written encoding)
        (pb_encode env 3 100 1000 (pb_ostream_from_buffer (replicate 30 7) 19))
encode_fills_sized_buffer_example =
    encode_fills_sized_buffer env env_uniform 3 100 1000 buffer 20 encode_run (omega arith)
      (omega arith) (omega (arith, encode_next)) empty (replicate 30 7) 19
      (omega (arith, encode_next)) (omega arith) (omega arith)

encode_fails_short_buffer_example :
    (pb_encode env 3 100 1000 (pb_ostream_from_buffer (replicate 30 7) 18)).0 ≡ failed
encode_fails_short_buffer_example =
    encode_fails_short_buffer env env_uniform 3 100 1000 buffer 20 encode_run (omega arith)
      (omega arith) (omega (arith, encode_next)) empty 19 (replicate 30 7) 18 size_run (omega arith)

delimited_prefixes_length_example :
    Wrote
      (length (varint_buffer 19) + 19)
      (replicate 30 7)
      (varint_buffer 19 ++ written encoding)
      (pb_encode_delimited env 3 100 1000 (pb_ostream_from_buffer (replicate 30 7) 30))
delimited_prefixes_length_example =
    delimited_prefixes_length env env_uniform 3 100 1000 buffer 20 encode_run (omega arith)
      (omega arith) (omega (arith, encode_next)) empty 19 (replicate 30 7) 30 size_run
      (unfold sized in omega arith) (omega arith) (omega arith)
