-- ===== src/Nanopb/Decode/Varint.antt =====
-- MovieDBApp/Pods/nanopb/pb_decode.c: varints of 32 and of 64 bits, zigzag, and skipping.
use prj_movie_dbapp.Prelude.{
  ℕ, zero, suc, ◌+◌, ◌-◌, ◌*◌, ◌/◌, ◌%◌, ◌^◌, Bool, false, not, ◌&&◌, ◌||◌, bit_and, bit_or, ltb,
  leb, ◌==◌, if◌then◌else◌,
}
use prj_movie_dbapp.Nanopb.Field.{varint_overflow}
use prj_movie_dbapp.Nanopb.Istream.{
  Istream, Outcome, got, failed, stuck, Decoder, ◌>>=◌, pure, return_error, out_of_fuel, first_byte,
  pb_read, pb_readbyte,
}

-- `byte & 0x80`
abbrev pub continues : ℕ → Bool
continues byte = not (bit_and byte 0x80 == 0)

-- uint_fast8_t has eight bits here: the shift count wraps at 256.
abbrev pub next_bitpos : ℕ → ℕ
next_bitpos bitpos = (bitpos + 7) % 2 ^ 8

-- `result |= (byte & 0x7F) << bitpos`, in a word of w bits.
abbrev pub or_group : ℕ → ℕ → ℕ → ℕ → ℕ
or_group w result byte bitpos = bit_or result (bit_and byte 0x7f * 2 ^ bitpos % 2 ^ w)

-- The check of a byte past bit 32: zeros may follow, and the sign bits of a negative number.
unfoldable pub bad_extension : ℕ → ℕ → ℕ → Bool
bad_extension result byte bitpos =
    let sign_extension = if ltb bitpos 63 then 0xff else 0x01 in
    not (bit_and byte 0x7f == 0) && (result / 2 ^ 31 == 0 || not (byte == sign_extension))

-- The test after the loop: the byte at bit 28 has room for four bits.
unfoldable pub check_last : ℕ → ℕ → ℕ → Bool
check_last result byte bitpos = bitpos == 35 && not (bit_and byte 0x70 == 0)

module _ {S : Type 0} where
  -- The rounds of the loop after its byte was read, and what follows it.
  unfoldable pub varint32_loop : ℕ → ℕ → ℕ → Decoder S ℕ
  varint32_loop zero result bitpos = out_of_fuel
  varint32_loop (suc fuel) result bitpos = do
    byte ← pb_readbyte
    let result' = if leb 32 bitpos then result else or_group 32 result byte bitpos
    let bitpos' = next_bitpos bitpos
    let more = varint32_loop fuel result' bitpos'
    if leb 32 bitpos && bad_extension result byte bitpos
        then return_error varint_overflow
        else if continues byte
        then more
        else if check_last result' byte bitpos'
        then return_error varint_overflow
        else pure result'

  -- After the first byte; each round takes a byte, so there are at most bytes_left.
  unfoldable pub varint32_rest : ℕ → Decoder S ℕ
  varint32_rest byte s =
      if bit_and byte 0x80 == 0
      then pure byte s
      else varint32_loop (s.bytes_left + 1) (bit_and byte 0x7f) 7 s

  -- The end of the input before the first byte sets `*eof`.
  unfoldable pub after_first : Outcome ℕ × Istream S → (Outcome ℕ × Istream S) × Bool
  after_first (got byte, s) = (varint32_rest byte s, false)
  after_first (failed, s) = ((failed, s), s.bytes_left == 0)
  after_first (stuck, s) = ((stuck, s), false)

  -- The value, and whether `*eof` is set.
  unfoldable pub pb_decode_varint32_eof : Istream S → (Outcome ℕ × Istream S) × Bool
  pb_decode_varint32_eof s = after_first (pb_readbyte s)

  unfoldable pub pb_decode_varint32 : Decoder S ℕ
  pb_decode_varint32 s = (pb_decode_varint32_eof s).0

  -- The loop ends after ten bytes, so eleven rounds are enough.
  unfoldable pub varint_loop : ℕ → ℕ → ℕ → Decoder S ℕ
  varint_loop zero result bitpos = out_of_fuel
  varint_loop (suc fuel) result bitpos =
      let round = pb_readbyte >>= λ byte.
      let result' = or_group 64 result byte bitpos in
      let more = varint_loop fuel result' (next_bitpos bitpos) in
      if continues byte then more else pure result' in
      if leb 64 bitpos then return_error varint_overflow else round

  unfoldable pub pb_decode_varint : Decoder S ℕ
  pb_decode_varint = varint_loop 11 0 0

  -- `~(value >> 1)` or `value >> 1`
  unfoldable pub pb_decode_svarint : Decoder S ℕ
  pb_decode_svarint = do
    value ← pb_decode_varint
    pure (if bit_and value 1 == 0 then value / 2 else 2 ^ 64 - 1 - value / 2)

  -- `do { pb_read(stream, &byte, 1) } while (byte & 0x80);`
  unfoldable pub skip_varint_loop : ℕ → Decoder S (Unit {0})
  skip_varint_loop zero = out_of_fuel
  skip_varint_loop (suc fuel) = do
    bytes ← pb_read false 1
    let more = skip_varint_loop fuel
    if continues (first_byte bytes) then more else pure tt

  unfoldable pub pb_skip_varint : Decoder S (Unit {0})
  pb_skip_varint s = skip_varint_loop (s.bytes_left + 1) s
