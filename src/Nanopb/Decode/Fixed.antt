-- ===== src/Nanopb/Decode/Fixed.antt =====
-- MovieDBApp/Pods/nanopb/pb_decode.c: fixed words are read back, and fields are skipped, as
-- pb_encode.c writes them.
use prj_movie_dbapp.Prelude.{
  ℕ, zero, suc, ◌+◌, ◌-◌, ◌/◌, ◌%◌, ◌^◌, ◌≤◌, ◌<◌, ◌≡◌, refl, ap, Bool, true, false, List, [], ◌∷◌,
  ◌++◌, arith, length, take, drop, append_assoc, length-append,
}
use prj_movie_dbapp.Prelude.Bits.{bit_and_255}
use prj_movie_dbapp.Nanopb.Field.WireType
use prj_movie_dbapp.Nanopb.Encode.Primitive.{varint_buffer, word_bytes}
use prj_movie_dbapp.Nanopb.Istream.{
  got, pb_read, skip_bytes, read_bytes, call_source, buf_read, first_byte,
}
use prj_movie_dbapp.Nanopb.Decode.Varint.{skip_varint_loop, pb_skip_varint, pb_decode_varint32}
use prj_movie_dbapp.Nanopb.Decode.Primitive.{
  word_of, pb_decode_fixed32, pb_decode_fixed64, pb_skip_string, pb_skip_field,
}
use prj_movie_dbapp.Nanopb.Decode.Encoding.{
  encoding, varint_buffer-encoding, length-encoding, reader, continues-last, continues-inner,
}
use prj_movie_dbapp.Nanopb.Decode.RoundTrip32.{decode_varint32-encode}
use prj_movie_dbapp.Nanopb.Encode.Values.{length-word_bytes}

word_of-word_bytes : (n v : ℕ) → v < 256 ^ n → word_of (word_bytes n v) ≡ v
unfolding word_of word_bytes
word_of-word_bytes zero v h = omega arith
word_of-word_bytes (suc n) v h =
    omega (arith, bit_and_255 v, word_of-word_bytes n (v / 2 ^ 8) (smaller n v h))
  where
    smaller : (n v : ℕ) → v < 256 ^ suc n → v / 2 ^ 8 < 256 ^ n
    smaller n v h = omega arith

module _ {A : Type 0} where
  take-append : (bs rest : List A) → take (length bs) (bs ++ rest) ≡ bs
  take-append [] rest = refl
  take-append (b ∷ bs) rest = rw (take-append bs rest)

  drop-append : (bs rest : List A) → drop (length bs) (bs ++ rest) ≡ rest
  drop-append [] rest = refl
  drop-append (b ∷ bs) rest = drop-append bs rest

read_bytes-front :
    (bs rest : List ℕ) (left : ℕ)
    → length bs ≤ left
    → read_bytes (length bs) (reader (bs ++ rest) left) ≡ (got bs, reader rest (left - length bs))
unfolding read_bytes call_source buf_read
read_bytes-front bs rest left h = ground (arith, take-append bs rest, drop-append bs rest)

-- A read of bytes that stand at the front, kept or not.
read-front :
    (null : Bool) (bs rest : List ℕ) (n left : ℕ)
    → length bs ≡ n
    → n ≤ left
    → pb_read null n (reader (bs ++ rest) left) ≡ (got bs, reader rest (left - n))
unfolding pb_read skip_bytes
read-front true bs rest n left e h = ground (arith, read_bytes-front bs rest left)
read-front false bs rest n left e h = ground (arith, read_bytes-front bs rest left)

-- From a buffer stream without an error and with eight bytes left, pb_decode_fixed32 and
-- pb_decode_fixed64 give back the 32-bit and the 64-bit words that pb_encode_fixed32 and
-- pb_encode_fixed64 wrote, and stop behind them.
pub decode_fixed-encode :
    (v32 v64 left : ℕ) (rest : List ℕ)
    → v32 < 2 ^ 32
    → v64 < 2 ^ 64
    → 8 ≤ left
    → (pb_decode_fixed32 (reader (word_bytes 4 v32 ++ rest) left)
        ≡ (got v32, reader rest (left - 4)))
      × (pb_decode_fixed64 (reader (word_bytes 8 v64 ++ rest) left)
          ≡ (got v64, reader rest (left - 8)))
unfolding pb_decode_fixed32 pb_decode_fixed64
decode_fixed-encode v32 v64 left rest h32 h64 hl = (
  rw (read-front false (word_bytes 4 v32) rest 4 left (length-word_bytes 4 v32) (omega arith))
      (ap (λ n. (got n, reader rest (left - 4))) (word_of-word_bytes 4 v32 (omega arith))),
  rw (read-front false (word_bytes 8 v64) rest 8 left (length-word_bytes 8 v64) hl)
      (ap (λ n. (got n, reader rest (left - 8))) (word_of-word_bytes 8 v64 (omega arith))),
)

-- The values of the wire format, by their wire type.
pub data Payload : ℕ → List ℕ → Type 0 where
  varint_payload : (v : ℕ) → v < 2 ^ 64 → Payload WireType.varint (varint_buffer v)
  bits64_payload : (bs : List ℕ) → length bs ≡ 8 → Payload WireType.bits64 bs
  bits32_payload : (bs : List ℕ) → length bs ≡ 4 → Payload WireType.bits32 bs
  string_payload :
      (bs : List ℕ) → length bs < 2 ^ 32 → Payload WireType.string (varint_buffer (length bs) ++ bs)

skip_loop-encoding :
    (n f v left : ℕ) (rest : List ℕ)
    → v < 128 ^ suc n
    → length (encoding n v) ≤ f
    → length (encoding n v) ≤ left
    → skip_varint_loop f (reader (encoding n v ++ rest) left)
      ≡ (got tt, reader rest (left - length (encoding n v)))
unfolding skip_varint_loop encoding first_byte
skip_loop-encoding n zero v left rest hv hf hl = absurd (omega (arith, length-encoding n v))
skip_loop-encoding zero (suc f) v left rest hv hf hl =
    ground (arith, read-front false (v ∷ []) rest 1 left refl, continues-last v hv)
skip_loop-encoding (suc n) (suc f) v left rest hv hf hl = ground (
  arith,
  read-front false (v ∷ []) rest 1 left refl,
  continues-last v,
  read-front false ((v % 128 + 128) ∷ []) (encoding n (v / 128) ++ rest) 1 left refl,
  continues-inner (v % 128),
  skip_loop-encoding n f (v / 128) (left - 1) rest,
)

skip_varint-encode :
    (v left : ℕ) (rest : List ℕ)
    → v < 2 ^ 64
    → length (varint_buffer v) ≤ left
    → pb_skip_varint (reader (varint_buffer v ++ rest) left)
      ≡ (got tt, reader rest (left - length (varint_buffer v)))
unfolding pb_skip_varint
skip_varint-encode v left rest hv hl =
    ground (arith, varint_buffer-encoding v hv, skip_loop-encoding 9 (left + 1) v left rest)

skip_string-encode :
    (bs rest : List ℕ) (left : ℕ)
    → length bs < 2 ^ 32
    → length (varint_buffer (length bs)) + length bs ≤ left
    → pb_skip_string (reader (varint_buffer (length bs) ++ (bs ++ rest)) left)
      ≡ (got bs, reader rest (left - length (varint_buffer (length bs)) - length bs))
unfolding pb_skip_string pb_decode_varint32
skip_string-encode bs rest left h hl = ground (
  arith,
  decode_varint32-encode (length bs) left (bs ++ rest) h,
  read-front true bs rest (length bs) (left - length (varint_buffer (length bs))) refl,
)

-- On a buffer stream without an error, pb_skip_field skips every value of the wire format that
-- `bytes_left` covers, and no more.
pub skip_field-Payload :
    (wire_type left : ℕ) (bytes rest : List ℕ)
    → Payload wire_type bytes
    → length bytes ≤ left
    → pb_skip_field wire_type (reader (bytes ++ rest) left)
      ≡ (got tt, reader rest (left - length bytes))
unfolding pb_skip_field
skip_field-Payload wire_type left bytes rest (varint_payload v hv) hl =
    skip_varint-encode v left rest hv hl
skip_field-Payload wire_type left bytes rest (bits64_payload bs e) hl =
    ground (arith, read-front true bs rest 8 left e)
skip_field-Payload wire_type left bytes rest (bits32_payload bs e) hl =
    ground (arith, read-front true bs rest 4 left e)
skip_field-Payload wire_type left bytes rest (string_payload bs h) hl = ground (
  arith,
  append_assoc (varint_buffer (length bs)) bs rest,
  length-append (varint_buffer (length bs)) bs,
  skip_string-encode bs rest left h,
)
