-- ===== src/Nanopb/Encode/Sized.antt =====
-- MovieDBApp/Pods/nanopb/pb_encode.c: arrays, packed and not, on a sizing stream and on a buffer.
use prj_movie_dbapp.Prelude.{
  ℕ, zero, suc, ◌+◌, ◌*◌, ◌≡◌, ◌≢◌, refl, sym, true, Bool-cases, inl, inr, none, some, List, [],
  ◌++◌, arith, ◌==◌, ==_iff, length, length-append,
}
use prj_movie_dbapp.Nanopb.Field.Ltype
use prj_movie_dbapp.Nanopb.Field.WireType
use prj_movie_dbapp.Nanopb.Field.{Field, Memory, pb_ltype}
use prj_movie_dbapp.Nanopb.Ostream.{Ostream, Encoder, Status, ok, failed, Buffer, pb_write}
use prj_movie_dbapp.Nanopb.Encode.Primitive.{varint_buffer}
use mathlib.Core.Path.{subst}
use prj_movie_dbapp.Nanopb.Encode.Scalar.{pb_encoders}
use prj_movie_dbapp.Nanopb.Encode.Array.{
  encode_items, measure, with_size, packed_size, write_sized, encode_packed, entry, encode_array,
}
use prj_movie_dbapp.Nanopb.Encode.Emits.{
  Emits, Emits->>, Emits-done, Uniform, emits, refuses, Uniform->>, uniform_rules,
}
use prj_movie_dbapp.Nanopb.Encode.Values.{
  Emits-pb_encode_varint, Uniform-pb_encode_tag, Uniform-pb_encoders, Emits-pb_enc_fixed32,
  Emits-pb_enc_fixed64, length-word_bytes, Uniform-pb_encode_tag_for_field,
}
use prj_movie_dbapp.Nanopb.Encode.Submessage.{IsSizeOf, counted, IsSizeOf-counted}

pub Uniform-encode_items :
    (count : ℕ) (func : ℕ → Encoder Buffer) (data_size p : ℕ)
    → ((q : ℕ) → Uniform (func q))
    → Uniform (encode_items count func data_size p)
unfolding encode_items
Uniform-encode_items zero func data_size p u = emits [] Emits-done
Uniform-encode_items (suc count) func data_size p u =
    Uniform->> (u p) (Uniform-encode_items count func data_size (p + data_size) u)

-- Items of one length, such as fixed words.
abbrev pub EmitsOf : ℕ → Encoder Buffer → Type 0
EmitsOf n m = (bs : List ℕ) × Emits m bs × (length bs ≡ n)

pub EmitsOf-encode_items :
    (n count : ℕ) (func : ℕ → Encoder Buffer) (data_size p : ℕ)
    → ((q : ℕ) → EmitsOf n (func q))
    → EmitsOf (n * count) (encode_items count func data_size p)
unfolding encode_items
EmitsOf-encode_items n zero func data_size p u = ([], Emits-done, omega arith)
EmitsOf-encode_items n (suc count) func data_size p u =
    let (xs, a, e) = u p in
    let (ys, b, e') = EmitsOf-encode_items n count func data_size (p + data_size) u in
    (xs ++ ys, Emits->> xs ys a b, omega (arith, length-append xs ys))

-- What stands behind the length of a packed array.
abbrev packed_data : Encoder Buffer → ℕ → Encoder Buffer
packed_data items size s = elim (s.callback) [ none ↦ pb_write [] size s | some f ↦ items s ]

Emits-packed_data :
    (items : Encoder Buffer) (size : ℕ) (bs : List ℕ)
    → Emits items bs
    → IsSizeOf size bs
    → Emits (packed_data items size) bs
unfolding pb_write
Emits-packed_data items size bs a h = record {
  sizes = λ st max bw err hb. ground (arith, h.0);
  writes = a.writes;
  overflows = a.overflows;
  exact = a.exact;
}

pub Emits-write_sized :
    (items : Encoder Buffer) (size : ℕ) (bs : List ℕ)
    → Emits items bs
    → IsSizeOf size bs
    → Emits (write_sized items size) (varint_buffer size ++ bs)
unfolding write_sized
Emits-write_sized items size bs a h =
    Emits->> (varint_buffer size) bs (Emits-pb_encode_varint size)
      (Emits-packed_data items size bs a h)

with_size-ne-ok :
    (r : Status × ℕ) (k : ℕ → Encoder Buffer) (s : Ostream Buffer)
    → r.0 ≢ ok
    → (with_size r k s).0 ≢ ok
unfolding with_size
with_size-ne-ok (ok, n) k s h = absurd (h refl)
with_size-ne-ok (failed, n) k s h = h
with_size-ne-ok (Status.crashed, n) k s h = h
with_size-ne-ok (Status.stuck, n) k s h = h

module _ (items : Encoder Buffer) where
  -- A packed array measured on a sizing stream.
  Uniform-measured :
      Uniform items → Uniform (λ s. with_size (measure items s.state) (write_sized items) s)
  unfolding with_size measure
  Uniform-measured (emits bs a) =
      let w = Emits-write_sized items (counted bs) bs a (IsSizeOf-counted bs) in
      emits (varint_buffer (counted bs) ++ bs) (record {
        sizes =
            λ st max bw err hb. rw (a.sizes st 0 0 none (omega arith)) (w.sizes st max bw err hb);
        writes = λ st max bw h hm. rw (a.sizes st 0 0 none (omega arith)) (w.writes st max bw h hm);
        overflows = λ st max bw h o hm.
            rw (a.sizes st 0 0 none (omega arith)) (w.overflows st max bw h o hm);
        exact = λ st max bw hb h.
            rw (a.sizes st 0 0 none (omega arith))
              (w.exact st max bw hb (rw (a.sizes st 0 0 none (omega arith)) at h));
      })
  Uniform-measured (refuses r) = refuses (record {
    unsized = λ st max bw err hb. with_size-ne-ok _ _ _ (r.unsized st 0 0 none (omega arith));
    unwritten = λ st max bw hb. with_size-ne-ok _ _ _ (r.unsized st 0 0 none (omega arith));
  })

  -- A packed array of fixed words, whose size is known.
  Uniform-known : (n : ℕ) → EmitsOf n items → Uniform (λ s. with_size (ok, n) (write_sized items) s)
  unfolding with_size
  Uniform-known n (bs, a, e) = emits _ (Emits-write_sized items n bs a (rw e (refl, λ h. refl)))

-- Packed or not, an array is uniform if its items are and fixed words have their lengths.
module _ (m : Memory) (field : Field) (func : ℕ → Encoder Buffer) where
  abbrev FixedLengths : Type 0
  FixedLengths =
      ((pb_ltype field.type == Ltype.fixed32) ≡ true → (q : ℕ) → EmitsOf 4 (func q))
      × ((pb_ltype field.type == Ltype.fixed64) ≡ true → (q : ℕ) → EmitsOf 8 (func q))

  Uniform-sized_items :
      (count p : ℕ)
      → ((q : ℕ) → Uniform (func q))
      → FixedLengths
      → let items = encode_items count func field.data_size p in
        Uniform (λ s. with_size (packed_size field count items s.state) (write_sized items) s)
  unfolding packed_size
  Uniform-sized_items count p u fixed = elim (Bool-cases (pb_ltype field.type == Ltype.fixed32)) [
    | inl e ↦ rw e (Uniform-known _ (4 * count) (EmitsOf-encode_items 4 count func _ p (fixed.0 e)))
    | inr e ↦ elim (Bool-cases (pb_ltype field.type == Ltype.fixed64)) [
      | inl f ↦
          rw (e, f)
            (Uniform-known _ (8 * count) (EmitsOf-encode_items 8 count func _ p (fixed.1 f)))
      | inr f ↦ rw (e, f) (Uniform-measured _ (Uniform-encode_items count func _ p u))
    ]
  ]

  pub Uniform-encode_array :
      (count p : ℕ)
      → ((q : ℕ) → Uniform (func q))
      → FixedLengths
      → Uniform (encode_array m field p count func)
  unfolding encode_array encode_packed
  Uniform-encode_array count p u fixed =
      let packed =
        Uniform->> (Uniform-pb_encode_tag WireType.string field.tag)
          (Uniform-sized_items count p u fixed) in
      let unpacked =
        Uniform-encode_items count _ field.data_size p
          (λ q. Uniform->> (Uniform-pb_encode_tag_for_field field) (u (entry m field q))) in
      search (uniform_rules, packed, unpacked)

-- The encoders of fixed words in the table.
module _ (m : Memory) (sub : ℕ → ℕ → Encoder Buffer) (field : Field) (q : ℕ) where
  EmitsOf-fixed32 : (t : ℕ) → (t == Ltype.fixed32) ≡ true → EmitsOf 4 (pb_encoders m sub t field q)
  unfolding pb_encoders
  EmitsOf-fixed32 t e =
      subst (λ k. EmitsOf 4 (pb_encoders m sub k field q)) (sym ((==_iff t Ltype.fixed32).0 e))
        (_, Emits-pb_enc_fixed32 m field q, length-word_bytes 4 _)

  EmitsOf-fixed64 : (t : ℕ) → (t == Ltype.fixed64) ≡ true → EmitsOf 8 (pb_encoders m sub t field q)
  unfolding pb_encoders
  EmitsOf-fixed64 t e =
      subst (λ k. EmitsOf 8 (pb_encoders m sub k field q)) (sym ((==_iff t Ltype.fixed64).0 e))
        (_, Emits-pb_enc_fixed64 m field q, length-word_bytes 8 _)

pub Uniform-array_of :
    (m : Memory) (sub : ℕ → ℕ → Encoder Buffer)
    → ((fields src : ℕ) → Uniform (sub fields src))
    → (field : Field) (count p : ℕ)
    → Uniform (encode_array m field p count (pb_encoders m sub (pb_ltype field.type) field))
Uniform-array_of m sub usub field count p =
    Uniform-encode_array m field _ count p
      (Uniform-pb_encoders m sub usub (pb_ltype field.type) field)
      (
        λ e q. EmitsOf-fixed32 m sub field q (pb_ltype field.type) e,
        λ e q. EmitsOf-fixed64 m sub field q (pb_ltype field.type) e,
      )
