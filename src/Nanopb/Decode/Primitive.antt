-- ===== src/Nanopb/Decode/Primitive.antt =====
-- MovieDBApp/Pods/nanopb/pb_decode.c: fixed words, tags, skipping of fields, and substreams.
use prj_movie_dbapp.Prelude.{
  ℕ, zero, suc, ◌+◌, ◌-◌, ◌*◌, ◌/◌, ◌%◌, ◌^◌, Bool, true, false, List, [], ◌∷◌, bit_and, ltb, ◌==◌,
  if◌then◌else◌,
}
use prj_movie_dbapp.Nanopb.Field.WireType
use prj_movie_dbapp.Nanopb.Field.{invalid_wire_type, parent_stream_too_short}
use prj_movie_dbapp.Nanopb.Istream.{
  Istream, Outcome, got, failed, stuck, Decoder, and_then, ◌>>=◌, ◌>>◌, pure, return_error,
  first_byte, pb_read,
}
use prj_movie_dbapp.Nanopb.Decode.Varint.{
  continues, pb_decode_varint32_eof, pb_decode_varint32, pb_skip_varint,
}

-- `(uint32_t)bytes[0] << 0 | (uint32_t)bytes[1] << 8 | …`; the bytes do not overlap.
unfoldable pub word_of : List ℕ → ℕ
word_of [] = 0
word_of (b ∷ bs) = b % 256 + 256 * word_of bs

module _ {S : Type 0} where
  unfoldable pub pb_decode_fixed32 : Decoder S ℕ
  pb_decode_fixed32 = pb_read false 4 >>= λ bytes. pure (word_of bytes)

  unfoldable pub pb_decode_fixed64 : Decoder S ℕ
  pb_decode_fixed64 = pb_read false 8 >>= λ bytes. pure (word_of bytes)

  unfoldable pub pb_skip_string : Decoder S (List ℕ)
  pb_skip_string = pb_decode_varint32 >>= λ length. pb_read true length

  -- The tag of a nonzero word; zero ends a message, and sets `*eof`.
  unfoldable pub split_tag : ℕ → Istream S → (Outcome (ℕ × ℕ) × Istream S) × Bool
  split_tag temp s =
      if temp == 0 then ((failed, s), true) else ((got (bit_and temp 7, temp / 2 ^ 3), s), false)

  unfoldable pub after_word : (Outcome ℕ × Istream S) × Bool → (Outcome (ℕ × ℕ) × Istream S) × Bool
  after_word ((got temp, s), eof) = split_tag temp s
  after_word ((failed, s), eof) = ((failed, s), eof)
  after_word ((stuck, s), eof) = ((stuck, s), eof)

  -- The wire type and the tag, and whether `*eof` is set.
  unfoldable pub pb_decode_tag : Istream S → (Outcome (ℕ × ℕ) × Istream S) × Bool
  pb_decode_tag s = after_word (pb_decode_varint32_eof s)

  unfoldable pub pb_skip_field : ℕ → Decoder S (Unit {0})
  pb_skip_field wire_type =
      if wire_type == WireType.varint
      then pb_skip_varint
      else if wire_type == WireType.bits64
      then pb_read true 8 >> pure tt
      else if wire_type == WireType.string
      then pb_skip_string >> pure tt
      else if wire_type == WireType.bits32
      then pb_read true 4 >> pure tt
      else return_error invalid_wire_type

  -- `do { (*size)++; if (*size > max_size) return false; pb_read(stream, buf, 1) } while (*buf++ & 0x80);`
  -- `room` is max_size - *size.
  unfoldable pub read_raw_varint : ℕ → Decoder S (List ℕ)
  read_raw_varint zero s = (failed, s)
  read_raw_varint (suc room) s = and_then (pb_read false 1 s) λ bytes.
      let byte = first_byte bytes in
      let more = read_raw_varint room >>= λ rest. pure (byte ∷ rest) in
      if continues byte then more else pure (byte ∷ [])

  unfoldable pub read_raw_value : ℕ → ℕ → Decoder S (List ℕ)
  read_raw_value wire_type max_size =
      if wire_type == WireType.varint
      then read_raw_varint max_size
      else if wire_type == WireType.bits64
      then pb_read false 8
      else if wire_type == WireType.bits32
      then pb_read false 4
      else return_error invalid_wire_type

  -- The substream; the stream keeps what lies behind it.
  unfoldable pub split_stream : ℕ → Decoder S (Istream S)
  split_stream size s =
      if ltb s.bytes_left size
      then return_error parent_stream_too_short s
      else (got (record s { bytes_left = size }), record s { bytes_left = s.bytes_left - size })

  unfoldable pub pb_make_string_substream : Decoder S (Istream S)
  pb_make_string_substream = pb_decode_varint32 >>= λ size. split_stream size

  unfoldable pub rejoin : Istream S → Decoder S (Unit {0})
  rejoin substream s = (got tt, record s { state = substream.state; errmsg = substream.errmsg })

  -- What is left of the substream is skipped; its error stays there if that fails.
  unfoldable pub pb_close_string_substream : Istream S → Decoder S (Unit {0})
  pb_close_string_substream substream s =
      let skipped = pb_read true substream.bytes_left substream in
      if substream.bytes_left == 0 then rejoin substream s else elim (skipped.0) [
        | got bytes ↦ rejoin (skipped.1) s
        | failed ↦ (failed, s)
        | stuck ↦ (stuck, s)
      ]
