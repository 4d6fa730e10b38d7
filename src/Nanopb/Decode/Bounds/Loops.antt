-- ===== src/Nanopb/Decode/Bounds/Loops.antt =====
-- MovieDBApp/Pods/nanopb/pb_decode.c: the reads and the loops of the primitives end on every
-- buffer and stay within `bytes_left`.
use prj_movie_dbapp.Prelude.{
  ℕ, zero, suc, ◌+◌, ◌-◌, ◌*◌, ◌%◌, ◌≤◌, ◌<◌, ◌≡◌, refl, sym, ap, Bool, true, false, Option, List,
  [], ◌∷◌, arith, leb, ◌==◌, bit_and, if◌then◌else◌, length, take, drop, take-append-drop,
  length-take, dec_lt,
}
use mathlib.Core.Path.{subst}
use prj_movie_dbapp.Nanopb.Field.{Message, set_error, end_of_stream, varint_overflow}
use prj_movie_dbapp.Nanopb.Istream.{
  got, failed, Decoder, and_then, ◌>>=◌, buf_read, call_source, read_bytes, skip_bytes, pb_read,
  pb_readbyte, first_byte,
}
use prj_movie_dbapp.Nanopb.Decode.Varint.{
  continues, next_bitpos, or_group, varint32_loop, varint32_rest, varint_loop, pb_decode_varint,
  pb_decode_svarint, skip_varint_loop, pb_skip_varint,
}
use prj_movie_dbapp.Nanopb.Decode.Bounds.{
  stream, Advanced, Advanced-here, Ends, Ends-byte, Steady, Steady-if, Steady-else, Steady-pure,
  Steady-return_error, Steady->>=, SteadyBelow, SteadyBelow-if, SteadyBelow-Steady, steady_rules,
}

-- A read of `count` bytes fails where fewer are left, and takes them off the front otherwise.
pub read_bytes-short :
    (count : ℕ) (input : List ℕ) (left : ℕ) (err : Option Message)
    → left < count
    → read_bytes count (stream input left err)
      ≡ (failed, stream input left (set_error err end_of_stream))
unfolding read_bytes
read_bytes-short count input left err h = ground arith

pub read_bytes-full :
    (count : ℕ) (input : List ℕ) (left : ℕ) (err : Option Message)
    → count ≤ left
    → read_bytes count (stream input left err)
      ≡ (got (take count input), stream (drop count input) (left - count) err)
unfolding read_bytes call_source buf_read
read_bytes-full count input left err h = ground arith

Advanced-take :
    (count : ℕ) (input : List ℕ) (left : ℕ) (err : Option Message)
    → count ≤ left
    → left ≤ length input
    → Advanced input left (stream (drop count input) (left - count) err)
Advanced-take count input left err hc hl = record {
  pre = take count input;
  rest = drop count input;
  err = err;
  split = sym (take-append-drop count input);
  within = omega (arith, length-take count input);
  now = ap (λ k. stream (drop count input) (left - k) err) (omega (arith, length-take count input));
}

pub Steady-read_bytes : (count : ℕ) → Steady (read_bytes count)
Steady-read_bytes count = record {
  run = λ input left err h. elim (dec_lt left count) [
    | yes short ↦
        subst (Ends input left) (sym (read_bytes-short count input left err short))
          (refl, Advanced-here input left (set_error err end_of_stream))
    | no enough ↦
        subst (Ends input left) (sym (read_bytes-full count input left err (omega arith)))
          (refl, Advanced-take count input left err (omega arith) h)
  ];
}

-- A buffer stream is read in one piece, whether or not the bytes are kept.
pub Steady-pb_read : (null : Bool) (count : ℕ) → Steady (pb_read null count)
unfolding pb_read skip_bytes
Steady-pb_read true count = record { run = (Steady-read_bytes count).run }
Steady-pb_read false count = Steady-read_bytes count

pub pb_readbyte-empty :
    (input : List ℕ) (err : Option Message)
    → pb_readbyte (stream input 0 err) ≡ (failed, stream input 0 (set_error err end_of_stream))
unfolding pb_readbyte
pb_readbyte-empty input err = refl

pub pb_readbyte-more :
    (b : ℕ) (rest : List ℕ) (left : ℕ) (err : Option Message)
    → pb_readbyte (stream (b ∷ rest) (suc left) err) ≡ (got (b % 256), stream rest left err)
unfolding pb_readbyte call_source buf_read first_byte
pb_readbyte-more b rest left err = ground arith

read_byte-empty :
    (input : List ℕ) (err : Option Message)
    → pb_read false 1 (stream input 0 err) ≡ (failed, stream input 0 (set_error err end_of_stream))
unfolding pb_read
read_byte-empty input err = read_bytes-short 1 input 0 err (omega arith)

read_byte-more :
    (b : ℕ) (rest : List ℕ) (left : ℕ) (err : Option Message)
    → pb_read false 1 (stream (b ∷ rest) (suc left) err) ≡ (got (b ∷ []), stream rest left err)
unfolding pb_read read_bytes call_source buf_read
read_byte-more b rest left err = ground arith

module _ {A : Type 0} {bound : ℕ} where
  after_readbyte :
      (k : ℕ → Decoder (List ℕ) A)
      → ((byte : ℕ) → SteadyBelow bound (k byte))
      → (input : List ℕ) (left : ℕ) (err : Option Message) → left ≤ length input
      → left < suc bound
      → Ends input left (and_then (pb_readbyte (stream input left err)) k)
  after_readbyte k hk input zero err h hb =
      rw (pb_readbyte-empty input err) (refl, Advanced-here input 0 (set_error err end_of_stream))
  after_readbyte k hk [] (suc left) err h hb = absurd (omega arith)
  after_readbyte k hk (b ∷ rest) (suc left) err h hb = rw (pb_readbyte-more b rest left err) (
      Ends-byte b rest left (k (b % 256) (stream rest left err))
        ((hk (b % 256)).run_below rest left err (omega arith) (omega arith)))

  after_read_byte :
      (k : List ℕ → Decoder (List ℕ) A)
      → ((bytes : List ℕ) → SteadyBelow bound (k bytes))
      → (input : List ℕ) (left : ℕ) (err : Option Message) → left ≤ length input
      → left < suc bound
      → Ends input left (and_then (pb_read false 1 (stream input left err)) k)
  after_read_byte k hk input zero err h hb =
      rw (read_byte-empty input err) (refl, Advanced-here input 0 (set_error err end_of_stream))
  after_read_byte k hk [] (suc left) err h hb = absurd (omega arith)
  after_read_byte k hk (b ∷ rest) (suc left) err h hb = rw (read_byte-more b rest left err) (
      Ends-byte b rest left (k (b ∷ []) (stream rest left err))
        ((hk (b ∷ [])).run_below rest left err (omega arith) (omega arith)))

  -- A byte is read before what is steady below a smaller bound.
  pub SteadyBelow-pb_readbyte :
      {k : ℕ → Decoder (List ℕ) A}
      → ((byte : ℕ) → SteadyBelow bound (k byte))
      → SteadyBelow (suc bound) (pb_readbyte >>= k)
  SteadyBelow-pb_readbyte {k} hk = record { run_below = after_readbyte k hk }

  pub SteadyBelow-read_byte :
      {k : List ℕ → Decoder (List ℕ) A}
      → ((bytes : List ℕ) → SteadyBelow bound (k bytes))
      → SteadyBelow (suc bound) (pb_read false 1 >>= k)
  SteadyBelow-read_byte {k} hk = record { run_below = after_read_byte k hk }

SteadyBelow-zero : {A : Type 0} (m : Decoder (List ℕ) A) → SteadyBelow 0 m
SteadyBelow-zero m = record { run_below = λ input left err h hb. absurd (omega arith) }

pub ruleset below_rules = (
  steady_rules, SteadyBelow-if, SteadyBelow-Steady, SteadyBelow-pb_readbyte, SteadyBelow-read_byte,
)

-- Each round takes a byte.
SteadyBelow-varint32_loop :
    (fuel result bitpos : ℕ) → SteadyBelow fuel (varint32_loop fuel result bitpos)
unfolding varint32_loop
SteadyBelow-varint32_loop zero result bitpos = SteadyBelow-zero _
SteadyBelow-varint32_loop (suc fuel) result bitpos =
    search (below_rules, SteadyBelow-varint32_loop fuel) depth 8

SteadyBelow-skip_varint_loop : (fuel : ℕ) → SteadyBelow fuel (skip_varint_loop fuel)
unfolding skip_varint_loop
SteadyBelow-skip_varint_loop zero = SteadyBelow-zero _
SteadyBelow-skip_varint_loop (suc fuel) = SteadyBelow-read_byte λ bytes.
    SteadyBelow-if (continues (first_byte bytes)) (SteadyBelow-skip_varint_loop fuel)
      (SteadyBelow-Steady (Steady-pure tt))

pub Steady-pb_skip_varint : Steady pb_skip_varint
unfolding pb_skip_varint
Steady-pb_skip_varint = record {
  run = λ input left err h.
      (SteadyBelow-skip_varint_loop (left + 1)).run_below input left err h (omega arith);
}

pub Steady-pb_readbyte : Steady pb_readbyte
Steady-pb_readbyte = record { run = readbyte_run }
  where
    readbyte_run :
        (input : List ℕ) (left : ℕ) (err : Option Message)
        → left ≤ length input
        → Ends input left (pb_readbyte (stream input left err))
    readbyte_run input zero err h =
        rw (pb_readbyte-empty input err) (refl, Advanced-here input 0 (set_error err end_of_stream))
    readbyte_run [] (suc left) err h = absurd (omega arith)
    readbyte_run (b ∷ rest) (suc left) err h = rw (pb_readbyte-more b rest left err) (
        Ends-byte b rest left (got (b % 256), stream rest left err)
          (refl, Advanced-here rest left err))

pub Steady-varint32_rest : (byte : ℕ) → Steady (varint32_rest byte)
unfolding varint32_rest
Steady-varint32_rest byte = record {
  run = λ input left err h. ends input left err h (bit_and byte 0x80 == 0);
}
  where
    ends :
        (input : List ℕ) (left : ℕ) (err : Option Message)
        → left ≤ length input
        → (short : Bool)
        → Ends input left (
            if short
            then (got byte, stream input left err)
            else varint32_loop (left + 1) (bit_and byte 0x7f) 7 (stream input left err))
    ends input left err h true = (refl, Advanced-here input left err)
    ends input left err h false =
        (SteadyBelow-varint32_loop (left + 1) (bit_and byte 0x7f) 7).run_below input left err h
          (omega arith)

-- The loop takes ten bytes at most.
pub Steady-varint_loop :
    (fuel result bitpos : ℕ)
    → bitpos ≤ 70
    → bitpos + 7 * fuel ≡ 77
    → Steady (varint_loop fuel result bitpos)
unfolding varint_loop
Steady-varint_loop zero result bitpos hb hf = absurd (omega arith)
Steady-varint_loop (suc fuel) result bitpos hb hf =
    Steady-else (leb 64 bitpos) (Steady-return_error varint_overflow) λ small.
      Steady->>= Steady-pb_readbyte λ byte.
        Steady-if (continues byte)
          (Steady-varint_loop fuel (or_group 64 result byte bitpos) (next_bitpos bitpos)
            (ground arith) (ground arith))
          (Steady-pure (or_group 64 result byte bitpos))

pub Steady-pb_decode_varint : Steady pb_decode_varint
unfolding pb_decode_varint
Steady-pb_decode_varint = Steady-varint_loop 11 0 0 (omega arith) (omega arith)

pub Steady-pb_decode_svarint : Steady pb_decode_svarint
unfolding pb_decode_svarint
Steady-pb_decode_svarint = search (steady_rules, Steady-pb_decode_varint) depth 8
