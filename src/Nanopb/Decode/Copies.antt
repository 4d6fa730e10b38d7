-- ===== src/Nanopb/Decode/Copies.antt =====
-- MovieDBApp/Pods/nanopb/pb_decode.c and pb_encode.c: an integer field that was encoded is decoded to
-- the same value in memory.
use prj_movie_dbapp.Prelude.{
  ℕ, ◌-◌, ◌^◌, ◌%◌, ◌≤◌, ◌≡◌, ap, ◌∙◌, Option, some, List, ◌++◌, length, ◌==◌, if◌then◌else◌,
}
use prj_movie_dbapp.Nanopb.Field.{Field, Memory, sign_extend}
use prj_movie_dbapp.Nanopb.Encode.Primitive.{varint_buffer, zigzag}
use prj_movie_dbapp.Nanopb.Encode.Scalar.{load_unsigned, load_signed}
use prj_movie_dbapp.Nanopb.Istream.{Istream, got}
use prj_movie_dbapp.Nanopb.Decode.Encoding.{reader}
use prj_movie_dbapp.Nanopb.Decode.RoundTrip.{decode_varint-encode, decode_svarint-encode}
use prj_movie_dbapp.Nanopb.Decode.Scalar.{
  Loaded, with_value, store_signed, store_unsigned, pb_dec_varint, pb_dec_uvarint, pb_dec_svarint,
}
use prj_movie_dbapp.Nanopb.Decode.Integer.{
  Unsigned-load, Signed-load, load_unsigned-store, load_signed-store, store_unsigned-fits,
  store_signed-fits, Signed-cast, Signed-below, Unsigned-below,
}

-- The field decoder succeeded, behind the varint, and `load` finds the value in the field.
pub record Copied (load : Memory → ℕ → ℕ → Option ℕ) (n dest v : ℕ) (after : Istream (List ℕ))
    (r : Loaded (List ℕ)) : Type 0 where
  pub returned : r.0 ≡ (got tt, after)
  pub loaded : load (r.1) n dest ≡ some v

module _ (field : Field) (src dest : ℕ) (m m' : Memory) (v left : ℕ) (rest : List ℕ) where
  -- If a field holds an unsigned integer that pb_enc_uvarint can load, and `bytes_left` covers
  -- its varint, then pb_dec_uvarint with the same descriptor reads the varint of that integer
  -- from a buffer without an error, stops behind it, and leaves the same integer in the field at
  -- `dest`.
  pub dec_uvarint-enc :
      load_unsigned m field.data_size src ≡ some v
      → length (varint_buffer v) ≤ left
      → Copied load_unsigned field.data_size dest v
          (reader rest (left - length (varint_buffer v)))
          (pb_dec_uvarint field dest m' (reader (varint_buffer v ++ rest) left))
  unfolding pb_dec_uvarint with_value
  dec_uvarint-enc e h =
      let u = Unsigned-load m src v field.data_size e in
      let run = decode_varint-encode v left rest (Unsigned-below field.data_size v u) h in
      let fits =
        store_unsigned-fits m' dest (reader rest (left - length (varint_buffer v))) field.data_size
          v u in
      let decoded =
        ap (λ r. with_value r m' (λ value. store_unsigned field.data_size value dest)) run ∙ fits in
      record {
        returned = ap (λ r. r.0) decoded;
        loaded =
            ap (λ r. load_unsigned (r.1) field.data_size dest) decoded
            ∙ load_unsigned-store m' dest field.data_size v u;
      }

  -- If a field holds a signed integer that pb_enc_varint can load, and `bytes_left` covers its
  -- varint, then pb_dec_varint with the same descriptor reads the varint of that integer from a
  -- buffer without an error, stops behind it, and leaves the same integer in the field at `dest`.
  pub dec_varint-enc :
      load_signed m field.data_size src ≡ some v
      → length (varint_buffer v) ≤ left
      → Copied load_signed field.data_size dest v
          (reader rest (left - length (varint_buffer v)))
          (pb_dec_varint field dest m' (reader (varint_buffer v ++ rest) left))
  unfolding pb_dec_varint with_value
  dec_varint-enc e h =
      let u = Signed-load m src v field.data_size e in
      let n = field.data_size in
      let after = reader rest (left - length (varint_buffer v)) in
      let run = decode_varint-encode v left rest (Signed-below n v u) h in
      let decoded =
        ap
          (λ r. with_value r m' (λ value.
            store_signed n (if n == 8 then value else sign_extend 32 (value % 2 ^ 32)) dest))
          run
        ∙ ap (λ value. store_signed n value dest m' after) (Signed-cast n v u)
        ∙ store_signed-fits m' dest after n v u in
      record {
        returned = ap (λ r. r.0) decoded;
        loaded = ap (λ r. load_signed (r.1) n dest) decoded ∙ load_signed-store m' dest n v u;
      }

  -- If a field holds a signed integer that pb_enc_svarint can load, and `bytes_left` covers its
  -- zigzag varint, then pb_dec_svarint with the same descriptor reads that varint from a buffer
  -- without an error, stops behind it, and leaves the same integer in the field at `dest`.
  pub dec_svarint-enc :
      load_signed m field.data_size src ≡ some v
      → length (varint_buffer (zigzag v)) ≤ left
      → Copied load_signed field.data_size dest v
          (reader rest (left - length (varint_buffer (zigzag v))))
          (pb_dec_svarint field dest m' (reader (varint_buffer (zigzag v) ++ rest) left))
  unfolding pb_dec_svarint with_value
  dec_svarint-enc e h =
      let u = Signed-load m src v field.data_size e in
      let n = field.data_size in
      let run = decode_svarint-encode v left rest (Signed-below n v u) h in
      let decoded =
        ap (λ r. with_value r m' (λ value. store_signed n value dest)) run
        ∙ store_signed-fits m' dest (reader rest (left - length (varint_buffer (zigzag v)))) n v
            u in
      record {
        returned = ap (λ r. r.0) decoded;
        loaded = ap (λ r. load_signed (r.1) n dest) decoded ∙ load_signed-store m' dest n v u;
      }
