-- ===== src/Nanopb/Encode/Submessage.antt =====
-- MovieDBApp/Pods/nanopb/pb_encode.c: pb_encode_submessage on a sizing stream and on a buffer.
use prj_movie_dbapp.Prelude.{
  ℕ, ◌%◌, ◌^◌, ◌<◌, ◌≡◌, ◌≢◌, refl, sym, ap, ◌∙◌, Bool, true, false, none, some, List, [], ◌==◌,
  ◌++◌, arith, ltb, if◌then◌else◌, length,
}
use prj_movie_dbapp.Nanopb.Field.{Message, submsg_size_changed}
use prj_movie_dbapp.Nanopb.Ostream.{
  Ostream, Encoder, Status, ok, failed, Buffer, add_size, return_error, pb_write,
}
use prj_movie_dbapp.Nanopb.Encode.Primitive.{varint_buffer}
use prj_movie_dbapp.Nanopb.Encode.Message.{
  submessage_stream, close_submessage, write_submessage, after_sizing, pb_encode_submessage,
}
use prj_movie_dbapp.Nanopb.Encode.Emits.{put, writer, Emits, Emits->>, Uniform, emits, refuses}
use prj_movie_dbapp.Nanopb.Encode.Values.{Emits-pb_encode_varint}

-- `size` is the length of `bs`, up to the wrap-around of size_t.
abbrev pub IsSizeOf : ℕ → List ℕ → Type 0
IsSizeOf size bs = (size % 2 ^ 64 ≡ length bs % 2 ^ 64) × (length bs < 2 ^ 64 → size ≡ length bs)

-- What stands behind the length of a submessage.
abbrev submessage_data : Encoder Buffer → ℕ → Encoder Buffer
submessage_data message size s = elim (s.callback) [
  | none ↦ pb_write [] size s
  | some f ↦
      if ltb s.max_size (add_size s.bytes_written size)
      then return_error Message.stream_full s
      else close_submessage s size (message (submessage_stream s size))
]

-- Closing a submessage succeeds only where the submessage did.
close_submessage-ok :
    (s : Ostream Buffer) (size : ℕ) (r : Status × Ostream Buffer)
    → (close_submessage s size r).0 ≡ ok
    → r.0 ≡ ok
unfolding close_submessage
close_submessage-ok s size (ok, t) h = refl
close_submessage-ok s size (failed, t) h = ground arith
close_submessage-ok s size (Status.crashed, t) h = cc
close_submessage-ok s size (Status.stuck, t) h = cc

unless_failed :
    (c : Bool) (x y : Status × Ostream Buffer)
    → x.0 ≡ failed
    → (if c then x else y).0 ≡ ok
    → ((if c then x else y) ≡ y) × (y.0 ≡ ok)
unless_failed true x y e h = absurd (cc)
unless_failed false x y e h = (refl, h)

-- What closing a submessage that emitted `bs` makes of the stream, where it succeeds.
close_submessage-exact :
    (st : Buffer) (max bw size : ℕ) (bs : List ℕ)
    → (close_submessage
        (writer st max bw)
        size
        (ok, writer (put st bs) size (add_size 0 (length bs)))).0
      ≡ ok
    → close_submessage
        (writer st max bw)
        size
        (ok, writer (put st bs) size (add_size 0 (length bs)))
      ≡ (ok, writer (put st bs) max (add_size bw (length bs)))
unfolding close_submessage
close_submessage-exact st max bw size bs h =
    tested (add_size 0 (length bs) == size) h
    ∙ ap (λ k. (ok, writer (put st bs) max k)) (omega arith)
  where
    tested :
        (c : Bool)
        → (if c
            then (ok, writer (put st bs) max (add_size bw (add_size 0 (length bs))))
            else return_error submsg_size_changed
                (writer (put st bs) max (add_size bw (add_size 0 (length bs))))).0
          ≡ ok
        → (if c
            then (ok, writer (put st bs) max (add_size bw (add_size 0 (length bs))))
            else return_error submsg_size_changed
                (writer (put st bs) max (add_size bw (add_size 0 (length bs)))))
          ≡ (ok, writer (put st bs) max (add_size bw (add_size 0 (length bs))))
    tested true h = refl
    tested false h = absurd (cc)

Emits-submessage_data :
    (message : Encoder Buffer) (size : ℕ) (bs : List ℕ)
    → Emits message bs
    → IsSizeOf size bs
    → Emits (submessage_data message size) bs
unfolding pb_write submessage_stream close_submessage
Emits-submessage_data message size bs a h = record {
  sizes = λ st max bw err hb. ground (arith, h.0);
  writes = λ st max bw fits hm.
      let e : size ≡ length bs = h.1 (omega arith) in
      rw e (ground (arith, a.writes st (length bs) 0 (omega arith) (omega arith)));
  overflows =
      λ st max bw lo hi hm. let e : size ≡ length bs = h.1 (omega arith) in rw e (ground arith);
  exact = λ st max bw hb k.
      let run = message (writer st size 0) in
      let (at, closed) =
        unless_failed (ltb max (add_size bw size))
          (return_error Message.stream_full (writer st max bw))
          (close_submessage (writer st max bw) size run) refl k in
      let ran =
        a.exact st size 0 (omega arith) (close_submessage-ok (writer st max bw) size run closed) in
      at
      ∙ ap (close_submessage (writer st max bw) size) ran
      ∙ close_submessage-exact st max bw size bs
          (sym (ap (λ r. (close_submessage (writer st max bw) size r).0) ran) ∙ closed);
}

pub Emits-write_submessage :
    (message : Encoder Buffer) (size : ℕ) (bs : List ℕ)
    → Emits message bs
    → IsSizeOf size bs
    → Emits (write_submessage message size) (varint_buffer size ++ bs)
unfolding write_submessage
Emits-write_submessage message size bs a h =
    Emits->> (varint_buffer size) bs (Emits-pb_encode_varint size)
      (Emits-submessage_data message size bs a h)

-- The size of a run that emits `bs`, as a sizing stream counts it.
abbrev pub counted : List ℕ → ℕ
counted bs = add_size 0 (length bs)

pub IsSizeOf-counted : (bs : List ℕ) → IsSizeOf (counted bs) bs
IsSizeOf-counted bs = (omega arith, λ h. omega arith)

-- A submessage emits its length and then itself, whenever it emits anything.
pub Emits-pb_encode_submessage :
    (encode : ℕ → ℕ → Encoder Buffer) (fields src : ℕ) (bs : List ℕ)
    → Emits (encode fields src) bs
    → Emits (pb_encode_submessage encode fields src) (varint_buffer (counted bs) ++ bs)
unfolding pb_encode_submessage after_sizing
Emits-pb_encode_submessage encode fields src bs a =
    let w = Emits-write_submessage (encode fields src) (counted bs) bs a (IsSizeOf-counted bs) in
    record {
      sizes = λ st max bw err hb. rw (a.sizes st 0 0 none (omega arith)) (w.sizes st max bw err hb);
      writes = λ st max bw h hm. rw (a.sizes st 0 0 none (omega arith)) (w.writes st max bw h hm);
      overflows =
          λ st max bw h o hm. rw (a.sizes st 0 0 none (omega arith)) (w.overflows st max bw h o hm);
      exact = λ st max bw hb h.
          rw (a.sizes st 0 0 none (omega arith))
            (w.exact st max bw hb (rw (a.sizes st 0 0 none (omega arith)) at h));
    }

after_sizing-ne-ok :
    (r : Status × Ostream Buffer) (k : Encoder Buffer) (s : Ostream Buffer)
    → r.0 ≢ ok
    → (after_sizing r k s).0 ≢ ok
unfolding after_sizing
after_sizing-ne-ok (ok, t) k s h = absurd (h refl)
after_sizing-ne-ok (failed, t) k s h = h
after_sizing-ne-ok (Status.crashed, t) k s h = h
after_sizing-ne-ok (Status.stuck, t) k s h = h

pub Uniform-pb_encode_submessage :
    (encode : ℕ → ℕ → Encoder Buffer) (fields src : ℕ)
    → Uniform (encode fields src)
    → Uniform (pb_encode_submessage encode fields src)
unfolding pb_encode_submessage
Uniform-pb_encode_submessage encode fields src (emits bs a) =
    emits _ (unfold pb_encode_submessage in Emits-pb_encode_submessage encode fields src bs a)
Uniform-pb_encode_submessage encode fields src (refuses r) = refuses (record {
  unsized = λ st max bw err hb. after_sizing-ne-ok _ _ _ (r.unsized st 0 0 none (omega arith));
  unwritten = λ st max bw hb. after_sizing-ne-ok _ _ _ (r.unsized st 0 0 none (omega arith));
})
