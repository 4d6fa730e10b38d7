-- ===== src/Nanopb/Decode/Overlong.antt =====
-- MovieDBApp/Pods/nanopb/pb_decode.c: varints that go on past ten bytes.
use prj_movie_dbapp.Prelude.{
  ℕ, ◌*◌, ◌<◌, ◌≡◌, refl, ap, ◌∙◌, some, List, [], ◌∷◌, ◌++◌, arith, replicate,
}
use prj_movie_dbapp.Nanopb.Field.{varint_overflow}
use prj_movie_dbapp.Nanopb.Istream.{got, failed, buf_read, pb_readbyte, call_source, first_byte}
use prj_movie_dbapp.Nanopb.Decode.Varint.{
  after_first, varint32_loop, varint32_rest, bad_extension, check_last, pb_decode_varint32_eof,
  pb_decode_varint32, varint_loop, pb_decode_varint,
}
use prj_movie_dbapp.Nanopb.Decode.Bounds.{stream}
use prj_movie_dbapp.Nanopb.Decode.Encoding.{reader}
use prj_movie_dbapp.Nanopb.Decode.RoundTrip32.{varint32_loop-last}

-- 37 bytes that say "more follows", and one that ends the varint.
abbrev pub overlong : ℕ → List ℕ
overlong b = replicate 37 0x80 ++ b ∷ []

-- After 37 bytes the shift count has wrapped to 3.
wrapped :
    (b : ℕ) → pb_decode_varint32 (reader (overlong b) 38) ≡ varint32_loop 2 0 3 (reader (b ∷ []) 1)
unfolding pb_decode_varint32 pb_decode_varint32_eof after_first varint32_rest varint32_loop
    bad_extension check_last pb_readbyte call_source buf_read first_byte
wrapped b = refl

-- pb_decode_varint32 takes a varint of 38 bytes whose last byte is any b below 128 for the number
-- 8 * b, because its shift count is a uint_fast8_t and wraps; pb_decode_varint refuses it with
-- "varint overflow" after ten bytes.
pub overlong_varint32 :
    (b : ℕ)
    → b < 128
    → (pb_decode_varint32 (reader (overlong b) 38) ≡ (got (8 * b), reader [] 0))
      × (pb_decode_varint (reader (overlong b) 38)
          ≡ (failed, stream (replicate 27 0x80 ++ b ∷ []) 28 (some varint_overflow)))
unfolding varint_loop pb_decode_varint pb_readbyte call_source buf_read first_byte
overlong_varint32 b h = (
  wrapped b
      ∙ varint32_loop-last 1 0 3 1 [] b h (omega arith) (omega arith) (omega arith) (omega arith)
      ∙ ap (λ n. (got n, reader [] 0)) (omega arith),
  refl,
)
