-- ===== src/Nanopb/Decode/RoundTrip32.antt =====
-- pb_decode_varint32 reads back the 32-bit numbers that pb_encode_varint writes, and the lengths
-- and tags that rest on it.
use prj_movie_dbapp.Prelude.{
  ℕ, zero, suc, ◌+◌, ◌-◌, ◌*◌, ◌/◌, ◌%◌, ◌^◌, ◌≤◌, ◌<◌, ◌≡◌, refl, ◌∙◌, false, List, ◌∷◌, ◌++◌,
  arith, bit_and, length, dec_lt,
}
use mathlib.Core.Path.{subst}
use prj_movie_dbapp.Prelude.Bits.{bit_and_7, bit_and_112, bit_and_127, bit_or_low3}
use prj_movie_dbapp.Nanopb.Encode.Primitive.{varint_buffer, tag_word}
use prj_movie_dbapp.Nanopb.Istream.{got}
use prj_movie_dbapp.Nanopb.Decode.Varint.{
  after_first, varint32_loop, varint32_rest, check_last, pb_decode_varint32_eof, pb_decode_varint32,
}
use prj_movie_dbapp.Nanopb.Decode.Primitive.{
  after_word, split_tag, pb_decode_tag, split_stream, pb_make_string_substream,
}
use prj_movie_dbapp.Nanopb.Decode.Encoding.{
  encoding, varint_buffer-encoding, length-encoding, reader, pb_readbyte-reader, continues-last,
  continues-inner, or_group-add,
}
use prj_movie_dbapp.Nanopb.Decode.RoundTrip.{split_low, low_below}

-- More room than a value needs changes nothing.
encoding-enough : (n m v : ℕ) → v < 128 ^ suc n → n ≤ m → encoding m v ≡ encoding n v
unfolding encoding
encoding-enough zero zero v h le = refl
encoding-enough zero (suc m) v h le = ground arith
encoding-enough (suc n) zero v h le = absurd (omega arith)
encoding-enough (suc n) (suc m) v h le = ground (arith, encoding-enough n m (v / 128))

pub varint_buffer-encoding32 : (v : ℕ) → v < 2 ^ 32 → varint_buffer v ≡ encoding 4 v
varint_buffer-encoding32 v h =
    varint_buffer-encoding v (omega arith) ∙ encoding-enough 4 9 v (omega arith) (omega arith)

-- At bit 28 there is room for four bits.
fits_last :
    (b bitpos : ℕ) → b < 128 → bitpos + 7 ≡ 35 → b * 2 ^ bitpos < 2 ^ 32 → bit_and b 0x70 ≡ 0
fits_last b bitpos hb hp fits =
    omega (arith, bit_and_112 b, subst (λ k. b * 2 ^ k < 2 ^ 32) (shift_28 bitpos hp) fits)
  where
    shift_28 : (p : ℕ) → p + 7 ≡ 35 → p ≡ 28
    shift_28 p e = omega arith

module _ (f result bitpos left : ℕ) (rest : List ℕ) where
  pub varint32_loop-last :
      (b : ℕ)
      → b < 128
      → 0 < left
      → bitpos ≤ 28
      → result < 2 ^ bitpos
      → b * 2 ^ bitpos < 2 ^ 32
      → varint32_loop (suc f) result bitpos (reader (b ∷ rest) left)
        ≡ (got (result + b * 2 ^ bitpos), reader rest (left - 1))
  unfolding varint32_loop check_last
  varint32_loop-last b hb hl hp hr fits = ground (
    arith,
    pb_readbyte-reader b rest left (omega arith) hl,
    continues-last b hb,
    or_group-add 32 result b bitpos hr,
    fits_last b bitpos hb,
  )

  varint32_loop-inner :
      (g : ℕ)
      → g < 128
      → 0 < left
      → bitpos ≤ 28
      → result < 2 ^ bitpos
      → g * 2 ^ bitpos < 2 ^ 32
      → varint32_loop (suc f) result bitpos (reader ((g + 128) ∷ rest) left)
        ≡ varint32_loop f (result + g * 2 ^ bitpos) (bitpos + 7) (reader rest (left - 1))
  unfolding varint32_loop
  varint32_loop-inner g hg hl hp hr fits = ground (
    arith,
    pb_readbyte-reader (g + 128) rest left (omega arith) hl,
    continues-inner g hg,
    or_group-add 32 result (g + 128) bitpos hr,
  )

varint32_loop-encoding :
    (n f v result bitpos left : ℕ) (rest : List ℕ)
    → v < 128 ^ suc n
    → bitpos + 7 * n ≤ 28
    → length (encoding n v) ≤ f
    → result < 2 ^ bitpos
    → v * 2 ^ bitpos < 2 ^ 32
    → length (encoding n v) ≤ left
    → varint32_loop f result bitpos (reader (encoding n v ++ rest) left)
      ≡ (got (result + v * 2 ^ bitpos), reader rest (left - length (encoding n v)))
unfolding encoding
varint32_loop-encoding n zero v result bitpos left rest hv hp hn hr fits hl =
    absurd (omega (arith, length-encoding n v))
varint32_loop-encoding zero (suc f) v result bitpos left rest hv hp hn hr fits hl =
    varint32_loop-last f result bitpos left rest v hv (omega arith) (omega arith) hr fits
varint32_loop-encoding (suc n) (suc f) v result bitpos left rest hv hp hn hr fits hl = ground (
  arith,
  varint32_loop-last f result bitpos left rest v,
  split_low v bitpos,
  low_below result v bitpos hr,
  varint32_loop-inner f result bitpos left (encoding n (v / 128) ++ rest) (v % 128),
  varint32_loop-encoding n f (v / 128) (result + v % 128 * 2 ^ bitpos) (bitpos + 7) (left - 1) rest,
)

-- From a buffer stream without an error, whose `bytes_left` covers the varint,
-- pb_decode_varint32_eof reads back every uint32_t that pb_encode_varint wrote, stops behind it,
-- and does not set `*eof`.
pub decode_varint32-encode :
    (v left : ℕ) (rest : List ℕ)
    → v < 2 ^ 32
    → length (varint_buffer v) ≤ left
    → pb_decode_varint32_eof (reader (varint_buffer v ++ rest) left)
      ≡ ((got v, reader rest (left - length (varint_buffer v))), false)
unfolding pb_decode_varint32_eof after_first varint32_rest encoding
decode_varint32-encode v left rest hv hl = elim (dec_lt v 128) [
  | yes short ↦
      ground (
        arith,
        varint_buffer-encoding32 v hv,
        pb_readbyte-reader v rest left,
        continues-last v short,
      )
  | no long ↦ ground (
    arith,
    varint_buffer-encoding32 v hv,
    pb_readbyte-reader (v % 128 + 128) (encoding 3 (v / 128) ++ rest) left,
    continues-inner (v % 128),
    bit_and_127 (v % 128 + 128),
    varint32_loop-encoding 3 left (v / 128) (v % 128) 7 (left - 1) rest,
  )
]

pub tag_word-sum :
    (wire_type number : ℕ)
    → wire_type < 8
    → number < 2 ^ 29
    → tag_word wire_type number ≡ 8 * number + wire_type
unfolding tag_word
tag_word-sum wire_type number hw hn = rw (small number hn) (bit_or_low3 number wire_type hw)
  where
    small : (n : ℕ) → n < 2 ^ 29 → n * 2 ^ 3 % 2 ^ 64 ≡ 8 * n
    small n h = omega arith

-- From a buffer stream without an error, whose `bytes_left` covers the tag, pb_decode_tag gives
-- back every wire type and every field number from 1 to 2 ^ 29 - 1 that pb_encode_tag wrote.
pub decode_tag-encode :
    (wire_type number left : ℕ) (rest : List ℕ)
    → wire_type < 8
    → 0 < number
    → number < 2 ^ 29
    → length (varint_buffer (tag_word wire_type number)) ≤ left
    → pb_decode_tag (reader (varint_buffer (tag_word wire_type number) ++ rest) left) ≡ (
      (
        got (wire_type, number),
        reader rest (left - length (varint_buffer (tag_word wire_type number))),
      ),
      false,
    )
unfolding pb_decode_tag after_word split_tag
decode_tag-encode wire_type number left rest hw h0 hn hl = ground (
  arith,
  tag_word-sum wire_type number hw hn,
  decode_varint32-encode (tag_word wire_type number) left rest,
  bit_and_7 (tag_word wire_type number),
)

-- Where `bytes_left` of a buffer stream without an error covers a length below 2 ^ 32 and its
-- bytes, pb_make_string_substream splits off the bytes whose length pb_encode_string wrote in
-- front of them, and leaves the stream to count what follows them.
pub substream-encode :
    (size left : ℕ) (rest : List ℕ)
    → size < 2 ^ 32
    → length (varint_buffer size) + size ≤ left
    → pb_make_string_substream (reader (varint_buffer size ++ rest) left)
      ≡ (got (reader rest size), reader rest (left - length (varint_buffer size) - size))
unfolding pb_make_string_substream split_stream pb_decode_varint32
substream-encode size left rest hs hl = ground (arith, decode_varint32-encode size left rest hs)
