-- ===== src/Nanopb/Decode/MessageRuns.antt =====
-- Tests of the message decoder, and the theorems on it at concrete inputs.
use prj_movie_dbapp.Prelude.{
  ℕ, zero, suc, ◌+◌, ◌≡◌, ◌≢◌, ◌<◌, inr, refl, none, some, List, [], ◌∷◌, arith,
}
use prj_movie_dbapp.Nanopb.Decode.Bounds.{stream}
use prj_movie_dbapp.Nanopb.Decode.Action.{close_after, Env, pure, out_of_fuel}
use prj_movie_dbapp.Nanopb.Decode.Defaults.{
  default_data, default_field_with, default_static, each_field, each_message_field,
  pb_field_set_to_default, pb_message_set_to_defaults,
}
use prj_movie_dbapp.Nanopb.Decode.Extension.{decode_by_atype, decode_field}
use prj_movie_dbapp.Nanopb.Decode.Message.{
  MessageDecoder, pb_decode_delimited, count_is_wrong, decode_known, decode_one, decode_rounds,
  decode_with, finish_message, noinit_with, note_required, pb_dec_submessage, pb_decode,
  pb_decode_noinit, pb_decoders, release_failed, track_fixed_count, with_tag,
}
use prj_movie_dbapp.Nanopb.Decode.Primitive.{
  after_word, pb_close_string_substream, pb_decode_tag, pb_make_string_substream, rejoin,
  split_stream, split_tag,
}
use prj_movie_dbapp.Nanopb.Decode.Release.{
  each_item, pb_release, pb_release_single_field, release_field, release_field_with, release_inner,
  release_submessages, release_with, submessage_count,
}
use prj_movie_dbapp.Nanopb.Decode.Required.{
  check_required, last_word_full, mark_seen, req_field_count, required_present, seek_end,
  words_full,
}
use prj_movie_dbapp.Nanopb.Decode.Scalar.{
  pb_dec_uvarint, store_byte, store_bytes, store_clamped, store_unsigned, store_word, with_value,
}
use prj_movie_dbapp.Nanopb.Decode.Static.{decode_static_field}
use prj_movie_dbapp.Nanopb.Decode.Varint.{
  after_first, pb_decode_varint, pb_decode_varint32, pb_decode_varint32_eof, varint32_rest,
  varint_loop,
}
use prj_movie_dbapp.Nanopb.Field.{
  missing_required_field, load_word, Field, Memory, forth, back, last_field,
}
use prj_movie_dbapp.Nanopb.Istream.{got, failed, buf_read, call_source, first_byte, pb_readbyte}
use prj_movie_dbapp.Nanopb.Encode.Primitive.{word_bytes}
use prj_movie_dbapp.Nanopb.Iter.{
  pb_field_iter_find, pb_field_iter_begin, pb_field_iter_next, field_at, field_of, Iter,
}
use prj_movie_dbapp.Nanopb.Decode.Required.Bits.{all_below}
use prj_movie_dbapp.Nanopb.Decode.Required.Count.{check_required-all}
use prj_movie_dbapp.Nanopb.Iter.Find.{Terminated}
use prj_movie_dbapp.Nanopb.Iter.Counted.{required_before, Counted-begin}
use prj_movie_dbapp.Nanopb.Decode.Required.Marks.{elem, mark_all}
use prj_movie_dbapp.Nanopb.Decode.Arrays.{static_array-Inside}
use prj_movie_dbapp.Nanopb.Decode.Entries.{Packable}
use prj_movie_dbapp.Nanopb.Decode.Total.{Halts}
use prj_movie_dbapp.Nanopb.Decode.Total.Updates.{Good, Acyclic}
use prj_movie_dbapp.Nanopb.Decode.Total.Delimited.{pb_decode_delimited-Halts}
use prj_movie_dbapp.Nanopb.Decode.Total.Whole.{pb_decode-Halts}

abbrev field_with : ℕ → ℕ → ℕ → Field
field_with tag type ptr = record {
  tag = tag;
  type = type;
  data_offset = 0;
  size_offset = forth 0;
  data_size = 4;
  array_size = 0;
  ptr = ptr;
}

-- Message 1 has a required number and a required message 2, which has a required number.
abbrev descriptors : ℕ → List Field
descriptors (suc zero) = field_with 1 0x01 0 ∷ field_with 2 0x07 2 ∷ last_field ∷ []
descriptors (suc (suc zero)) = field_with 5 0x01 0 ∷ last_field ∷ []
descriptors a = []

abbrev rank : ℕ → ℕ
rank (suc zero) = 1
rank a = 0

abbrev env : Env
env = record {
  descriptors = descriptors;
  realloc = λ m ptr size. (0, m);
  free = λ m ptr. m;
  callback_decode = λ a field wire_type. pure tt;
  extension_decode = λ a b c d. pure tt;
  frame = λ depth. 500 + depth;
  bound = 2;
}

abbrev zeroed : Memory
zeroed a = 0

last_field-Good : (a : ℕ) → Good rank a last_field
last_field-Good a = record {
  known = refl;
  no_extension = refl;
  no_callback = refl;
  has_size = λ e. absurd (cc);
  deeper = λ e. absurd (cc);
}

number-Good : (a tag : ℕ) → Good rank a (field_with tag 0x01 0)
number-Good a tag = record {
  known = refl;
  no_extension = refl;
  no_callback = refl;
  has_size = λ e. absurd (cc);
  deeper = λ e. absurd (cc);
}

descriptors-Acyclic : Acyclic descriptors rank
descriptors-Acyclic = record { good = good }
  where
    good : (a i : ℕ) → Good rank a (field_at (descriptors a) i)
    good zero i = last_field-Good 0
    good (suc zero) zero = number-Good 1 1
    good (suc zero) (suc zero) = record {
      known = refl;
      no_extension = refl;
      no_callback = refl;
      has_size = λ e. absurd (cc);
      deeper = λ e. omega arith;
    }
    good (suc zero) (suc (suc zero)) = last_field-Good 1
    good (suc zero) (suc (suc (suc i))) = last_field-Good 1
    good (suc (suc zero)) zero = number-Good 2 5
    good (suc (suc zero)) (suc zero) = last_field-Good 2
    good (suc (suc zero)) (suc (suc i)) = last_field-Good 2
    good (suc (suc (suc a))) i = last_field-Good (suc (suc (suc a)))

-- Field 1 is 7, field 2 is a message of two bytes whose field 5 is 9, and a byte follows.
abbrev input : List ℕ
input = 0x08 ∷ 7 ∷ 0x12 ∷ 2 ∷ 0x28 ∷ 9 ∷ 0 ∷ []

rank_small : (a : ℕ) → rank a < 2
rank_small zero = omega arith
rank_small (suc zero) = omega arith
rank_small (suc (suc a)) = omega arith

-- The numbers are where the descriptors say, and nothing is read beyond `bytes_left`.
decode_run :
    let (r, m) = pb_decode env 2 1 100 zeroed (stream input 6 none) in
    (r ≡ (got tt, stream (0 ∷ []) 0 none)) × (load_word m 100 4 ≡ 7) × (load_word m 104 4 ≡ 9)
unfolding word_bytes close_after default_data default_field_with default_static each_field
    each_message_field pb_field_set_to_default pb_message_set_to_defaults decode_by_atype
    decode_field count_is_wrong decode_known decode_one decode_rounds decode_with finish_message
    noinit_with note_required pb_dec_submessage pb_decode pb_decode_noinit pb_decoders
    release_failed track_fixed_count with_tag after_word pb_close_string_substream pb_decode_tag
    pb_make_string_substream rejoin split_stream split_tag each_item pb_release
    pb_release_single_field release_field release_field_with release_inner release_submessages
    release_with submessage_count check_required last_word_full mark_seen req_field_count
    required_present seek_end words_full pb_dec_uvarint store_byte store_bytes store_clamped
    store_unsigned store_word with_value decode_static_field after_first pb_decode_varint
    pb_decode_varint32 pb_decode_varint32_eof varint32_rest varint_loop load_word buf_read
    call_source first_byte pb_readbyte pb_field_iter_find pb_field_iter_next
decode_run = (refl, refl, refl)

-- Without field 2, decoding fails.
missing_run :
    ((pb_decode env 2 1 100 zeroed (stream input 2 none)).0)
    ≡ (failed, stream (0x12 ∷ 2 ∷ 0x28 ∷ 9 ∷ 0 ∷ []) 0 (some missing_required_field))
unfolding word_bytes close_after default_data default_field_with default_static each_field
    each_message_field pb_field_set_to_default pb_message_set_to_defaults decode_by_atype
    decode_field count_is_wrong decode_known decode_one decode_rounds decode_with finish_message
    noinit_with note_required pb_dec_submessage pb_decode pb_decode_noinit pb_decoders
    release_failed track_fixed_count with_tag after_word pb_close_string_substream pb_decode_tag
    pb_make_string_substream rejoin split_stream split_tag each_item pb_release
    pb_release_single_field release_field release_field_with release_inner release_submessages
    release_with submessage_count check_required last_word_full mark_seen req_field_count
    required_present seek_end words_full pb_dec_uvarint store_byte store_bytes store_clamped
    store_unsigned store_word with_value decode_static_field after_first pb_decode_varint
    pb_decode_varint32 pb_decode_varint32_eof varint32_rest varint_loop load_word buf_read
    call_source first_byte pb_readbyte pb_field_iter_find pb_field_iter_next
missing_run = refl

pb_decode-Halts_example : Halts input 6 ((pb_decode env 2 1 100 zeroed (stream input 6 none)).0)
pb_decode-Halts_example =
    pb_decode-Halts env rank 2 1 100 zeroed input 6 none descriptors-Acyclic rank_small
      (omega arith) (omega arith)

-- The message stands behind its length, and bytes of the parent stream follow.
pb_decode_delimited-Halts_example :
    Halts (6 ∷ input) 8 ((pb_decode_delimited env 2 1 100 zeroed (stream (6 ∷ input) 8 none)).0)
pb_decode_delimited-Halts_example =
    pb_decode_delimited-Halts env rank 2 1 100 zeroed (6 ∷ input) 8 none descriptors-Acyclic
      rank_small (omega arith) (omega arith)

descriptors-Terminated : Terminated (descriptors 1) 2
descriptors-Terminated = record { nonzero = λ i h. nonzero i h; ends = refl; listed = omega arith }
  where
    nonzero : (i : ℕ) → i < 2 → (field_at (descriptors 1) i).tag ≢ 0
    nonzero zero h = omega arith
    nonzero (suc zero) h = omega arith
    nonzero (suc (suc i)) h = absurd (omega arith)

check_required-all_example :
    check_required ((pb_field_iter_begin (descriptors 1) 100).1) (mark_all (1 ∷ 0 ∷ []))
    ≡ some (all_below 2 (λ i. elem i (1 ∷ 0 ∷ [])))
unfolding pb_field_iter_begin required_before
check_required-all_example =
    check_required-all (descriptors 1) 2 descriptors-Terminated
      ((pb_field_iter_begin (descriptors 1) 100).1) (1 ∷ 0 ∷ []) refl
      (Counted-begin (descriptors 1) 100) (omega arith) (omega arith, (omega arith, tt))

-- An array of two numbers at 8, with its counter at 4.
abbrev array : Iter
array = record {
  start =
      record {
        tag = 3;
        type = 0x21;
        data_offset = 8;
        size_offset = back 3;
        data_size = 4;
        array_size = 2;
        ptr = 0;
      }
      ∷ last_field
      ∷ [];
  pos = 0;
  required_field_index = 0;
  dest_struct = 0;
  p_data = 8;
  p_size = 4;
}

abbrev no_decoder : MessageDecoder (List ℕ)
no_decoder fields dest = out_of_fuel

array_field : Packable (field_of array)
array_field = record { packable = refl; word32 = λ e. absurd (cc); word64 = λ e. absurd (cc) }

-- Three numbers, packed, for the two entries: the third is refused.
static_array-Inside_example :
    (decode_static_field
        (pb_decoders no_decoder no_decoder env)
        (λ fields dest m. none)
        2
        array
        zeroed
        (stream (3 ∷ 7 ∷ 8 ∷ 9 ∷ []) 4 none)).1
      16
    ≡ 0
static_array-Inside_example =
    static_array-Inside no_decoder no_decoder env (λ fields dest m. none) 2 array array_field refl
      zeroed (stream (3 ∷ 7 ∷ 8 ∷ 9 ∷ []) 4 none) 16 (inr (omega arith)) (inr (omega arith))
