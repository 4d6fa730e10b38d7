-- ===== src/Nanopb/Encode/SizingPass.antt =====
-- The sizing pass and the writing pass of pb_encode agree, in terms of pb_get_encoded_size and
-- pb_ostream_from_buffer.
use prj_movie_dbapp.Prelude.{
  ℕ, zero, suc, ◌+◌, ◌^◌, ◌≤◌, ◌<◌, ◌≡◌, refl, ap, ◌∙◌, none, some, List, [], ◌∷◌, ◌++◌, arith,
  length, length-append, drop, take, set, Option, sym, dec_lt,
}
use mathlib.Core.Path.{subst}
use prj_movie_dbapp.Nanopb.Ostream.{
  Ostream, Encoder, Status, ok, failed, Buffer, copy_bytes, pb_ostream_from_buffer,
}
use prj_movie_dbapp.Nanopb.Encode.Primitive.{varint_buffer}
use prj_movie_dbapp.Nanopb.Encode.Basic.{Env}
use prj_movie_dbapp.Nanopb.Encode.Message.{
  pb_encode, pb_encode_submessage, pb_encode_delimited, pb_get_encoded_size,
}
use prj_movie_dbapp.Nanopb.Encode.Emits.{put, Emits, Uniform, emits, refuses}
use prj_movie_dbapp.Nanopb.Encode.Submessage.{counted, Emits-pb_encode_submessage}
use prj_movie_dbapp.Nanopb.Encode.Whole.{UniformEnv, Uniform-pb_encode}

copy_bytes-cons :
    (n : ℕ) (bs : List ℕ) (next c : ℕ) (cells : List ℕ)
    → copy_bytes n bs (suc next) (c ∷ cells) ≡ c ∷ copy_bytes n bs next cells
unfolding copy_bytes
copy_bytes-cons zero bs next c cells = refl
copy_bytes-cons (suc n) [] next c cells = refl
copy_bytes-cons (suc n) (b ∷ bs) next c cells =
    ap (λ k. copy_bytes n bs k (c ∷ set cells next b)) (omega arith)
    ∙ copy_bytes-cons n bs (next + 1) c (set cells next b)

-- What a buffer holds once `bs` was written from its start.
pub copy_bytes-front :
    (bs cells : List ℕ)
    → length bs ≤ length cells
    → copy_bytes (length bs) bs 0 cells ≡ bs ++ drop (length bs) cells
unfolding copy_bytes
copy_bytes-front [] cells h = refl
copy_bytes-front (b ∷ bs) [] h = absurd (omega arith)
copy_bytes-front (b ∷ bs) (c ∷ cells) h =
    ap (λ k. copy_bytes (length bs) bs k (b ∷ cells)) (omega arith)
    ∙ copy_bytes-cons (length bs) bs 0 b cells
    ∙ ap (λ rest. b ∷ rest) (copy_bytes-front bs cells (omega arith))

-- A stream over a buffer after `n` bytes were written, and what the buffer holds.
pub record Wrote (n : ℕ) (buf bs : List ℕ) (r : Status × Ostream Buffer) : Type 0 where
  pub status : r.0 ≡ ok
  pub bytes_written : r.1.bytes_written ≡ n
  pub next : r.1.state.next ≡ n
  pub cells : r.1.state.cells ≡ bs ++ drop n buf

-- An encoder that emits `bs`, run on a buffer with room.
Emits-Wrote :
    (m : Encoder Buffer) (n : ℕ) (bs buf : List ℕ) (size : ℕ)
    → n ≡ length bs
    → Emits m bs
    → n ≤ size
    → size ≤ length buf
    → size < 2 ^ 64
    → Wrote n buf bs (m (pb_ostream_from_buffer buf size))
unfolding pb_ostream_from_buffer put
Emits-Wrote m n bs buf size e a fits room h =
    rw (e, a.writes (record { cells = buf; next = 0 }) size 0 (omega arith) h)
      (record {
        status = refl;
        bytes_written = omega arith;
        next = omega arith;
        cells = copy_bytes-front bs buf (omega arith);
      })

-- The bytes that a run left at the front of its buffer.
abbrev pub written : Status × Ostream Buffer → List ℕ
written r = take r.1.state.next r.1.state.cells

take-front : (bs rest : List ℕ) → take (length bs) (bs ++ rest) ≡ bs
take-front [] rest = refl
take-front (b ∷ bs) rest = ap (λ k. b ∷ k) (take-front bs rest)

-- What a run on a buffer that succeeded says of the bytes that the encoder emits.
module _ (m : Encoder Buffer) (buf : List ℕ) (size : ℕ) where
  Emits-length :
      (bs : List ℕ)
      → Emits m bs
      → (m (pb_ostream_from_buffer buf size)).0 ≡ ok
      → (m (pb_ostream_from_buffer buf size)).1.state.next ≡ length bs
  unfolding pb_ostream_from_buffer put
  Emits-length bs a h =
      let same : (m (pb_ostream_from_buffer buf size)).1.state.next ≡ 0 + length bs =
        ap (λ (r : Status × Ostream Buffer). r.1.state.next)
          (a.exact (record { cells = buf; next = 0 }) size 0 (omega arith) h) in
      same ∙ omega arith

  Emits-written :
      (bs : List ℕ)
      → Emits m bs
      → (m (pb_ostream_from_buffer buf size)).0 ≡ ok
      → size ≤ length buf
      → size < 2 ^ 64
      → (m (pb_ostream_from_buffer buf size)).1.state.next < 2 ^ 64
      → written (m (pb_ostream_from_buffer buf size)) ≡ bs
  unfolding pb_ostream_from_buffer put
  Emits-written bs a h room hs short = elim (dec_lt size (length bs)) [
    | yes less ↦ absurd (
        not_both h (
          a.overflows (record { cells = buf; next = 0 }) size 0 (omega arith) (omega (arith, less))
            (omega (arith, short, Emits-length bs a h))))
    | no fits ↦
        ap (λ (r : Status × Ostream Buffer). written r)
          (a.exact (record { cells = buf; next = 0 }) size 0 (omega arith) h)
        ∙ ap (λ k. take k (copy_bytes (length bs) bs 0 buf)) (omega arith)
        ∙ ap (λ cells. take (length bs) cells) (copy_bytes-front bs buf (omega (arith, fits, room)))
        ∙ take-front bs (drop (length bs) buf)
  ]
    where
      not_both : {status : Status} → status ≡ ok → status ≡ failed → ⊥
      not_both p q = absurd (cc)

  Uniform-Emits :
      Uniform m → (m (pb_ostream_from_buffer buf size)).0 ≡ ok → (bs : List ℕ) × Emits m bs
  unfolding pb_ostream_from_buffer
  Uniform-Emits (emits bs a) h = (bs, a)
  Uniform-Emits (refuses r) h =
      absurd (r.unwritten (record { cells = buf; next = 0 }) size 0 (omega arith) h)

some_same : {a b : ℕ} → ◌≡◌ {A = Option ℕ} (some a) (some b) → a ≡ b
some_same p = cc

-- A message that was encoded: into a buffer of `size` bytes, with less than 2 ^ 64 bytes.
module _ (env : Env Buffer) (u : UniformEnv env) (depth fields src : ℕ) (buf : List ℕ) (size : ℕ)
    (encoded : (pb_encode env depth fields src (pb_ostream_from_buffer buf size)).0 ≡ ok)
    (room : size ≤ length buf) (bounded : size < 2 ^ 64)
    (short : (pb_encode env depth fields src (pb_ostream_from_buffer buf size)).1.state.next
      < 2 ^ 64) where
  abbrev run : Status × Ostream Buffer
  run = pb_encode env depth fields src (pb_ostream_from_buffer buf size)

  message-Emits :
      Emits (pb_encode env depth fields src) (written run)
      × (run.1.state.next ≡ length (written run))
  message-Emits =
      let (bs, a) =
        Uniform-Emits (pb_encode env depth fields src) buf size
          (Uniform-pb_encode env u depth fields src) encoded in
      let same =
        Emits-written (pb_encode env depth fields src) buf size bs a encoded room bounded short in
      (
        subst (Emits (pb_encode env depth fields src)) (sym same) a,
        Emits-length (pb_encode env depth fields src) buf size bs a encoded
            ∙ ap (λ (k : List ℕ). length k) (sym same),
      )

  encoded_size : (st : Buffer) → pb_get_encoded_size env depth st fields src ≡ some run.1.state.next
  unfolding pb_get_encoded_size
  encoded_size st =
      let (a, e) = message-Emits in ground (arith, a.sizes st 0 0 none (omega arith), e, short)

  -- Suppose that each callback and extension encoder always appends the same bytes or always
  -- fails, and that pb_encode into one buffer stream, of a size below 2 ^ 64 that the buffer has,
  -- returned true with fewer than 2 ^ 64 bytes. Then pb_get_encoded_size reports the number of
  -- those bytes, and every other such stream of at least that size gets the same bytes at the
  -- front of its buffer: pb_encode returns true, counts them and leaves the rest as it was.
  pub encode_fills_sized_buffer :
      (st : Buffer) (buf' : List ℕ) (size' : ℕ)
      → run.1.state.next ≤ size'
      → size' ≤ length buf'
      → size' < 2 ^ 64
      → (pb_get_encoded_size env depth st fields src ≡ some run.1.state.next)
        × Wrote run.1.state.next buf'
            (written run)
            (pb_encode env depth fields src (pb_ostream_from_buffer buf' size'))
  encode_fills_sized_buffer st buf' size' fits room' h =
      let (a, e) = message-Emits in
      (
        encoded_size st,
        Emits-Wrote (pb_encode env depth fields src) run.1.state.next (written run) buf' size' e a
            fits room' h,
      )

  -- Suppose that each callback and extension encoder always appends the same bytes or always
  -- fails, and that pb_encode into one buffer stream, of a size below 2 ^ 64 that the buffer has,
  -- returned true with fewer than 2 ^ 64 bytes. Then pb_encode returns false into every buffer
  -- stream whose size is below the number that pb_get_encoded_size reports.
  pub encode_fails_short_buffer :
      (st : Buffer) (n : ℕ) (buf' : List ℕ) (size' : ℕ)
      → pb_get_encoded_size env depth st fields src ≡ some n
      → size' < n
      → (pb_encode env depth fields src (pb_ostream_from_buffer buf' size')).0 ≡ failed
  unfolding pb_ostream_from_buffer
  encode_fails_short_buffer st n buf' size' counts less =
      let (a, e) = message-Emits in
      let same = some_same (sym counts ∙ encoded_size st) in
      a.overflows (record { cells = buf'; next = 0 }) size' 0 (omega arith) (omega (arith, same, e))
        (omega (arith, e, short))

  -- Suppose that each callback and extension encoder always appends the same bytes or always
  -- fails, and that pb_encode into one buffer stream, of a size below 2 ^ 64 that the buffer has,
  -- returned true with fewer than 2 ^ 64 bytes. Then pb_encode_delimited, into every such stream
  -- with room for both, returns true and writes the varint of the size that pb_get_encoded_size
  -- reports and, behind it, the bytes that pb_encode wrote; it leaves the rest of the buffer as
  -- it was.
  pub delimited_prefixes_length :
      (st : Buffer) (n : ℕ) (buf' : List ℕ) (size' : ℕ)
      → pb_get_encoded_size env depth st fields src ≡ some n
      → length (varint_buffer n) + n ≤ size'
      → size' ≤ length buf'
      → size' < 2 ^ 64
      → Wrote
          (length (varint_buffer n) + n)
          buf'
          (varint_buffer n ++ written run)
          (pb_encode_delimited env depth fields src (pb_ostream_from_buffer buf' size'))
  unfolding pb_encode_delimited
  delimited_prefixes_length st n buf' size' counts fits room' h =
      let (a, e) = message-Emits in
      let delimited = pb_encode_submessage (pb_encode env depth) fields src in
      let counted_n = some_same (sym counts ∙ encoded_size st) in
      let same : n ≡ counted (written run) =
        counts_short (written run) (counted_n ∙ e) (omega (arith, e, short)) in
      let b : Emits delimited (varint_buffer n ++ written run) =
        rw same (Emits-pb_encode_submessage (pb_encode env depth) fields src (written run) a) in
      Emits-Wrote delimited _ _ buf' size' (len (written run) counted_n e) b fits room' h
    where
      counts_short : {n : ℕ} (bs : List ℕ) → n ≡ length bs → length bs < 2 ^ 64 → n ≡ counted bs
      counts_short bs e h = omega (arith, e, h)

      len :
          {n next : ℕ} (bs : List ℕ)
          → n ≡ next
          → next ≡ length bs
          → length (varint_buffer n) + n ≡ length (varint_buffer n ++ bs)
      len {n} bs e e' = omega (arith, length-append (varint_buffer n) bs)
