-- ===== src/Nanopb/Decode/RoundTrip.antt =====
-- pb_decode_varint, pb_decode_varint32 and pb_decode_svarint read back what pb_encode.c writes.
use prj_movie_dbapp.Prelude.{
  ℕ, zero, suc, ◌+◌, ◌-◌, ◌*◌, ◌/◌, ◌%◌, ◌^◌, ◌≤◌, ◌<◌, ◌≡◌, ap, List, ◌∷◌, ◌++◌, arith, length,
}
use native.Mathlib.Nat.{div-add-mod}
use native.Mathlib.Numerals.{towards_suc}
use prj_movie_dbapp.Prelude.Bits.{bit_and_1}
use prj_movie_dbapp.Nanopb.Encode.Primitive.{varint_buffer, zigzag}
use prj_movie_dbapp.Nanopb.Istream.{got}
use prj_movie_dbapp.Nanopb.Decode.Varint.{varint_loop, pb_decode_varint, pb_decode_svarint}
use prj_movie_dbapp.Nanopb.Decode.Encoding.{
  encoding, varint_buffer-encoding, reader, pb_readbyte-reader, continues-last, continues-inner,
  or_group-add,
}

-- A round of the 64-bit loop on the last byte, and on one before it.
module _ (f result bitpos left : ℕ) (rest : List ℕ) where
  varint_loop-last :
      (b : ℕ)
      → b < 128
      → 0 < left
      → bitpos < 64
      → result < 2 ^ bitpos
      → b * 2 ^ bitpos < 2 ^ 64
      → varint_loop (suc f) result bitpos (reader (b ∷ rest) left)
        ≡ (got (result + b * 2 ^ bitpos), reader rest (left - 1))
  unfolding varint_loop
  varint_loop-last b hb hl hp hr fits = ground (
    arith,
    pb_readbyte-reader b rest left (omega arith) hl,
    continues-last b hb,
    or_group-add 64 result b bitpos hr,
  )

  varint_loop-inner :
      (g : ℕ)
      → g < 128
      → 0 < left
      → bitpos < 64
      → result < 2 ^ bitpos
      → g * 2 ^ bitpos < 2 ^ 64
      → varint_loop (suc f) result bitpos (reader ((g + 128) ∷ rest) left)
        ≡ varint_loop f (result + g * 2 ^ bitpos) (bitpos + 7) (reader rest (left - 1))
  unfolding varint_loop
  varint_loop-inner g hg hl hp hr fits = ground (
    arith,
    pb_readbyte-reader (g + 128) rest left (omega arith) hl,
    continues-inner g hg,
    or_group-add 64 result (g + 128) bitpos hr,
  )

pow_seven : (p : ℕ) → 2 ^ (p + 7) ≡ 128 * 2 ^ p
pow_seven p = simp towards_suc (omega arith)

-- The lowest group of `v`, and what is above it.
pub split_low : (v p : ℕ) → v * 2 ^ p ≡ v % 128 * 2 ^ p + v / 128 * 2 ^ (p + 7)
split_low v p = omega (
  arith,
  ap (λ (t : ℕ). t * 2 ^ p) (div-add-mod v 128),
  ap (λ (t : ℕ). v / 128 * t) (pow_seven p),
)

-- The low groups stay below the bit that comes next.
pub low_below : (result v p : ℕ) → result < 2 ^ p → result + v % 128 * 2 ^ p < 2 ^ (p + 7)
low_below result v p h = omega (arith, pow_seven p, group_mul (v % 128) (2 ^ p) (omega arith))
  where
    group_mul : (g x : ℕ) → g < 128 → g * x ≤ 127 * x
    group_mul g x hg = grind arith

varint_loop-encoding :
    (n f v result bitpos left : ℕ) (rest : List ℕ)
    → v < 128 ^ suc n
    → bitpos + 7 * n ≤ 63
    → n ≤ f
    → result < 2 ^ bitpos
    → v * 2 ^ bitpos < 2 ^ 64
    → length (encoding n v) ≤ left
    → varint_loop (suc f) result bitpos (reader (encoding n v ++ rest) left)
      ≡ (got (result + v * 2 ^ bitpos), reader rest (left - length (encoding n v)))
unfolding encoding
varint_loop-encoding zero f v result bitpos left rest hv hp hn hr fits hl =
    varint_loop-last f result bitpos left rest v hv (omega arith) (omega arith) hr fits
varint_loop-encoding (suc n) zero v result bitpos left rest hv hp hn hr fits hl =
    absurd (omega arith)
varint_loop-encoding (suc n) (suc f) v result bitpos left rest hv hp hn hr fits hl = ground (
  arith,
  varint_loop-last (suc f) result bitpos left rest v,
  split_low v bitpos,
  low_below result v bitpos hr,
  varint_loop-inner (suc f) result bitpos left (encoding n (v / 128) ++ rest) (v % 128),
  varint_loop-encoding n f (v / 128) (result + v % 128 * 2 ^ bitpos) (bitpos + 7) (left - 1) rest,
)

-- From a buffer stream without an error, whose `bytes_left` covers the varint, pb_decode_varint
-- reads back every uint64_t that pb_encode_varint wrote, and stops behind it.
pub decode_varint-encode :
    (v left : ℕ) (rest : List ℕ)
    → v < 2 ^ 64
    → length (varint_buffer v) ≤ left
    → pb_decode_varint (reader (varint_buffer v ++ rest) left)
      ≡ (got v, reader rest (left - length (varint_buffer v)))
unfolding pb_decode_varint
decode_varint-encode v left rest hv hl =
    rw (varint_buffer-encoding v hv)
      (ground (arith, varint_buffer-encoding v hv, varint_loop-encoding 9 10 v 0 0 left rest))

-- From a buffer stream without an error, whose `bytes_left` covers the varint, pb_decode_svarint
-- reads back every int64_t, as its 64-bit pattern, that pb_encode_svarint wrote.
pub decode_svarint-encode :
    (v left : ℕ) (rest : List ℕ)
    → v < 2 ^ 64
    → length (varint_buffer (zigzag v)) ≤ left
    → pb_decode_svarint (reader (varint_buffer (zigzag v) ++ rest) left)
      ≡ (got v, reader rest (left - length (varint_buffer (zigzag v))))
unfolding pb_decode_svarint zigzag
decode_svarint-encode v left rest hv hl =
    ground (arith, bit_and_1 (zigzag v), decode_varint-encode (zigzag v) left rest)
