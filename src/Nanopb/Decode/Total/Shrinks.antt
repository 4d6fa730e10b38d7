-- ===== src/Nanopb/Decode/Total/Shrinks.antt =====
-- MovieDBApp/Pods/nanopb/pb_decode.c: functions that take a byte at least when they succeed, as
-- the loops of the decoder need them.
use prj_movie_dbapp.Prelude.{
  ℕ, zero, suc, ◌-◌, ◌≤◌, ◌<◌, ◌≡◌, refl, sym, ap, Bool, true, false, Option, List, [], ◌∷◌, arith,
  if◌then◌else◌, length, length-append, dec_lt,
}
use mathlib.Core.Path.{subst}
use prj_movie_dbapp.Nanopb.Field.{Memory, Message}
use prj_movie_dbapp.Nanopb.Istream
use prj_movie_dbapp.Nanopb.Istream.{
  Istream, Outcome, got, failed, stuck, Decoder, and_then, read_bytes, pb_read, pb_readbyte,
}
use prj_movie_dbapp.Nanopb.Decode.Varint.{
  continues, next_bitpos, or_group, varint_loop, pb_decode_varint, pb_decode_svarint,
  pb_decode_varint32, pb_decode_varint32_eof,
}
use prj_movie_dbapp.Nanopb.Decode.Primitive.{pb_decode_fixed32, pb_decode_fixed64, pb_decode_tag}
use prj_movie_dbapp.Nanopb.Decode.Bounds.{
  stream, Ends, Steady, Steady-pure, Steady-if, Steady-return_error, Steady->>=,
}
use prj_movie_dbapp.Nanopb.Decode.Bounds.Loops.{
  pb_readbyte-empty, pb_readbyte-more, read_bytes-short, read_bytes-full, Steady-read_bytes,
  Steady-pb_readbyte, Steady-varint32_rest, Steady-varint_loop,
}
use prj_movie_dbapp.Nanopb.Decode.Bounds.Fields.{
  after_first-bind, after_word-bind, Steady-same, Steady-split_tag,
}
use prj_movie_dbapp.Nanopb.Decode.Scalar.{Loaded, with_value}
use prj_movie_dbapp.Nanopb.Decode.Action.{Action, on_stream, and_do, ◌>>=◌}
use prj_movie_dbapp.Nanopb.Decode.Total.{Settles, SettlesBelow, Less, Post-all}
use prj_movie_dbapp.Nanopb.Decode.Total.Rules.{Settles-on_stream, Settles-same}
use prj_movie_dbapp.Nanopb.Decode.Total.Binds.{Settles->>=, Less-and_do, Halts-and_do-below}

-- A decoder of the stream that takes a byte at least when it succeeds.
pub record Eats {A : Type 0} (d : Decoder (List ℕ) A) : Type 0 where
  pub steady : Steady d
  pub less :
      (input : List ℕ) (left : ℕ) (err : Option Message)
      → left ≤ length input
      → Less left (d (stream input left err))

-- The same of an action.
pub record Shrinks {A : Type 0} (f : Action (List ℕ) A) : Type 0 where
  pub settles : Settles f
  pub less_left :
      (m : Memory) (input : List ℕ) (left : ℕ) (err : Option Message)
      → left ≤ length input
      → Less left ((f m (stream input left err)).0)

module _ {A B : Type 0} where
  -- After a success that took a byte, nothing gives it back.
  Less-and_then :
      (k : A → Decoder (List ℕ) B) (input : List ℕ) (left : ℕ) (r : Outcome A × Istream (List ℕ))
      → ((a : A) → Steady (k a))
      → left ≤ length input
      → Ends input left r
      → Less left r
      → Less left (and_then r k)
  Less-and_then k input left (got a, s) hk h e less ok =
      let adv = e.1 in
      let later = left - length adv.pre in
      let after =
        ((hk a).run adv.rest later adv.err
          (omega (arith, h, adv.within, length-append adv.pre adv.rest, ap length adv.split))).1 in
      subst (λ t. ((k a t).1).bytes_left < left) (sym adv.now)
        (omega (arith, ap (λ t. t.bytes_left) after.now, ap (λ t. t.bytes_left) adv.now, less refl))
  Less-and_then k input left (failed, s) hk h e less ok = absurd (cc)
  Less-and_then k input left (stuck, s) hk h e less ok = absurd (cc)

  pub Eats->>= :
      {d : Decoder (List ℕ) A} {k : A → Decoder (List ℕ) B}
      → Eats d
      → ((a : A) → Steady (k a))
      → Eats (λ s. and_then (d s) k)
  Eats->>= {d} {k} hd hk = record {
    steady = Steady->>= hd.steady hk;
    less = λ input left err h.
        Less-and_then k input left (d (stream input left err)) hk h
          ((hd.steady).run input left err h) (hd.less input left err h);
  }

  pub Shrinks->>= :
      {f : Action (List ℕ) A} {k : A → Action (List ℕ) B}
      → Shrinks f
      → ((a : A) → Settles (k a))
      → Shrinks (f >>= k)
  Shrinks->>= {f} {k} hf hk = record {
    settles = Settles->>= hf.settles hk;
    less_left = λ m input left err h.
        Less-and_do k input left (f m (stream input left err)) hk h
          ((hf.settles).run m input left err h) (hf.less_left m input left err h);
  }

  pub SettlesBelow->>= :
      {bound : ℕ} {f : Action (List ℕ) A} {k : A → Action (List ℕ) B}
      → Shrinks f
      → ((a : A) → SettlesBelow bound (k a))
      → SettlesBelow (suc bound) (f >>= k)
  SettlesBelow->>= {bound} {f} {k} hf hk = record {
    run_below = λ m input left err h hb.
        let r = f m (stream input left err) in
        Halts-and_do-below bound k input left r (Post-all hk (r.0.0)) h hb
          ((hf.settles).run m input left err h) (hf.less_left m input left err h);
  }

module _ {A : Type 0} where
  pub Eats-return_error : (e : Message) → Eats {A = A} (Istream.return_error e)
  Eats-return_error e = record {
    steady = Steady-return_error e;
    less = λ input left err h ok. absurd (cc);
  }

  pub Eats-if : (c : Bool) {d e : Decoder (List ℕ) A} → Eats d → Eats e → Eats (if c then d else e)
  Eats-if true hd he = hd
  Eats-if false hd he = he

  pub Shrinks-on_stream : {d : Decoder (List ℕ) A} → Eats d → Shrinks (on_stream d)
  Shrinks-on_stream h = record { settles = Settles-on_stream h.steady; less_left = λ m. h.less }

  pub Shrinks-same :
      {f g : Action (List ℕ) A}
      → ((m : Memory) (s : Istream (List ℕ)) → (f m s).0 ≡ (g m s).0)
      → Shrinks g
      → Shrinks f
  Shrinks-same same h = record {
    settles = Settles-same same h.settles;
    less_left = λ m input left err le.
        subst (Less left) (sym (same m (stream input left err))) (h.less_left m input left err le);
  }

  pub Eats-same :
      {d e : Decoder (List ℕ) A} → ((s : Istream (List ℕ)) → d s ≡ e s) → Eats e → Eats d
  Eats-same same h = record {
    steady = Steady-same same h.steady;
    less = λ input left err le.
        subst (Less left) (sym (same (stream input left err))) (h.less input left err le);
  }

module _ {A : Type 0} where
  with_value-and_do :
      (r : Outcome A × Istream (List ℕ)) (m : Memory)
      (k : A → Memory → Istream (List ℕ) → Loaded (List ℕ))
      → (with_value r m k).0 ≡ (and_do (r, m) k).0
  unfolding with_value
  with_value-and_do (got a, s) m k = refl
  with_value-and_do (failed, s) m k = refl
  with_value-and_do (stuck, s) m k = refl

  -- The value comes from the stream alone.
  pub Settles-with_value :
      {d : Decoder (List ℕ) A} {k : A → Memory → Istream (List ℕ) → Loaded (List ℕ)}
      → Steady d
      → ((a : A) → Settles (k a))
      → Settles (λ m s. with_value (d s) m k)
  Settles-with_value {d} {k} hd hk =
      Settles-same (λ m s. with_value-and_do (d s) m k) (Settles->>= (Settles-on_stream hd) hk)

  pub Shrinks-with_value :
      {d : Decoder (List ℕ) A} {k : A → Memory → Istream (List ℕ) → Loaded (List ℕ)}
      → Eats d
      → ((a : A) → Settles (k a))
      → Shrinks (λ m s. with_value (d s) m k)
  Shrinks-with_value {d} {k} hd hk =
      Shrinks-same (λ m s. with_value-and_do (d s) m k) (Shrinks->>= (Shrinks-on_stream hd) hk)

pub Eats-pb_readbyte : Eats pb_readbyte
Eats-pb_readbyte = record { steady = Steady-pb_readbyte; less = less_byte }
  where
    less_byte :
        (input : List ℕ) (left : ℕ) (err : Option Message)
        → left ≤ length input
        → Less left (pb_readbyte (stream input left err))
    less_byte input zero err h = rw (pb_readbyte-empty input err) (λ ok. absurd (cc))
    less_byte [] (suc left) err h = absurd (omega arith)
    less_byte (b ∷ rest) (suc left) err h =
        rw (pb_readbyte-more b rest left err) (λ ok. omega arith)

pub Eats-read : (n : ℕ) → Eats (pb_read false (suc n))
unfolding pb_read
Eats-read n = record {
  steady = Steady-read_bytes (suc n);
  less = λ input left err h. elim (dec_lt left (suc n)) [
    | yes short ↦
        subst (Less left) (sym (read_bytes-short (suc n) input left err short)) (λ ok. absurd (cc))
    | no enough ↦
        subst (Less left) (sym (read_bytes-full (suc n) input left err (omega arith)))
          (λ ok. omega arith)
  ];
}

pub Eats-pb_decode_varint : Eats pb_decode_varint
unfolding pb_decode_varint varint_loop
Eats-pb_decode_varint = Eats->>= Eats-pb_readbyte λ byte.
    Steady-if (continues byte)
      (Steady-varint_loop 10 (or_group 64 0 byte 0) (next_bitpos 0) (omega arith) (omega arith))
      (Steady-pure (or_group 64 0 byte 0))

pub Eats-pb_decode_svarint : Eats pb_decode_svarint
unfolding pb_decode_svarint
Eats-pb_decode_svarint = Eats->>= Eats-pb_decode_varint λ value. Steady-pure _

pub Eats-pb_decode_fixed32 : Eats pb_decode_fixed32
unfolding pb_decode_fixed32
Eats-pb_decode_fixed32 = Eats->>= (Eats-read 3) λ bytes. Steady-pure _

pub Eats-pb_decode_fixed64 : Eats pb_decode_fixed64
unfolding pb_decode_fixed64
Eats-pb_decode_fixed64 = Eats->>= (Eats-read 7) λ bytes. Steady-pure _

pub Eats-pb_decode_varint32 : Eats pb_decode_varint32
unfolding pb_decode_varint32 pb_decode_varint32_eof
Eats-pb_decode_varint32 =
    Eats-same (λ s. after_first-bind (pb_readbyte s))
      (Eats->>= Eats-pb_readbyte Steady-varint32_rest)

pub Eats-pb_decode_tag : Eats {A = ℕ × ℕ} (λ s. (pb_decode_tag s).0)
unfolding pb_decode_tag pb_decode_varint32
Eats-pb_decode_tag =
    Eats-same (λ s. after_word-bind (pb_decode_varint32_eof s))
      (Eats->>= Eats-pb_decode_varint32 Steady-split_tag)
