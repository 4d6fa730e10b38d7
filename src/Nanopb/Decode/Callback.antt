-- ===== src/Nanopb/Decode/Callback.antt =====
-- MovieDBApp/Pods/nanopb/pb_decode.c: decode_callback_field.
use prj_movie_dbapp.Prelude.{ℕ, zero, suc, ◌+◌, ◌||◌, List, ◌==◌, if◌then◌else◌, length}
use prj_movie_dbapp.Nanopb.Field.WireType
use prj_movie_dbapp.Nanopb.Field.{load_word, pointer_size, callback_failed}
use prj_movie_dbapp.Nanopb.Iter.{Iter, field_of}
use prj_movie_dbapp.Nanopb.Istream.{Istream, got, failed, stuck, pb_istream_from_buffer}
use prj_movie_dbapp.Nanopb.Decode.Primitive.{
  pb_make_string_substream, pb_close_string_substream, pb_skip_field, read_raw_value,
}
use prj_movie_dbapp.Nanopb.Decode.Scalar.{Loaded}
use prj_movie_dbapp.Nanopb.Decode.Action.{
  Action, Env, pure, return_error, out_of_fuel, on_stream, ◌>>=◌, ◌>>◌,
}

module _ {S : Type 0} where
  -- `do { if (!decode(&substream, …)) … } while (substream.bytes_left);`, for at most `n` rounds.
  unfoldable pub callback_rounds : Action S (Unit {0}) → ℕ → Action S (Unit {0})
  callback_rounds decode zero = out_of_fuel
  callback_rounds decode (suc n) = decode >> λ m s.
      let rest = callback_rounds decode n in if s.bytes_left == 0 then pure tt m s else rest m s

  unfoldable pub close_callback : Loaded S → Istream S → Loaded S
  close_callback ((got u, substream), m) s = (pb_close_string_substream substream s, m)
  close_callback ((failed, substream), m) s = return_error callback_failed m s
  close_callback ((stuck, substream), m) s = ((stuck, s), m)

  -- What a callback made of a scalar's own buffer; the stream is behind it already.
  unfoldable pub scalar_result : Loaded (List ℕ) → Istream S → Loaded S
  scalar_result ((got u, substream), m) s = ((got tt, s), m)
  scalar_result ((failed, substream), m) s = ((failed, s), m)
  scalar_result ((stuck, substream), m) s = ((stuck, s), m)

module _ {S : Type 0} (env : Env) where
  unfoldable pub callback_string : (Action S (Unit {0})) → Action S (Unit {0})
  callback_string decode = on_stream pb_make_string_substream >>= λ substream m s.
      close_callback (callback_rounds decode env.bound m substream) s

  unfoldable pub callback_scalar : ℕ → Action (List ℕ) (Unit {0}) → Action S (Unit {0})
  callback_scalar wire_type decode = on_stream (read_raw_value wire_type 10) >>= λ buffer m s.
      scalar_result (decode m (pb_istream_from_buffer buffer (length buffer))) s

  -- A pb_callback_t holds the function's address, then its argument, whose address is passed.
  unfoldable pub decode_callback_field : ℕ → Iter → Action S (Unit {0})
  decode_callback_field wire_type it m =
      let function = load_word m it.p_data pointer_size in
      let arg = it.p_data + pointer_size in
      if it.p_data == 0 || function == 0
      then on_stream (pb_skip_field wire_type) m
      else if wire_type == WireType.string
      then callback_string (env.callback_decode function (field_of it) arg) m
      else callback_scalar wire_type (env.callback_decode function (field_of it) arg) m
