-- ===== src/Nanopb/Decode/Arrays.antt =====
-- MovieDBApp/Pods/nanopb/pb_decode.c: what decode_static_field writes of a repeated field of numbers.
use prj_movie_dbapp.Prelude.{ℕ, ◌*◌, ◌≡◌, refl, Bool, true, false, arith, ◌==◌, if◌then◌else◌}
use prj_movie_dbapp.Nanopb.Field.Ltype
use prj_movie_dbapp.Nanopb.Field.Htype
use prj_movie_dbapp.Nanopb.Field.{Field, Memory, pb_ltype, pb_htype}
use prj_movie_dbapp.Nanopb.Iter.{Iter, field_of}
use prj_movie_dbapp.Nanopb.Istream.{Istream, Outcome, got}
use prj_movie_dbapp.Nanopb.Decode.Primitive.{pb_decode_fixed32, pb_decode_fixed64}
use prj_movie_dbapp.Nanopb.Decode.Scalar.{with_value, store_word, pb_dec_fixed32, pb_dec_fixed64}
use prj_movie_dbapp.Nanopb.Decode.Action.{Action, Env, Update}
use prj_movie_dbapp.Nanopb.Decode.Static.{
  is_packed, static_packed, static_item, decode_static_field,
}
use prj_movie_dbapp.Nanopb.Decode.Message.{MessageDecoder, pb_decoders}
use prj_movie_dbapp.Nanopb.Decode.Inside.{
  Inside, Inside-store_word, Inside-with_value, dec_integers-Inside,
}
use prj_movie_dbapp.Nanopb.Decode.Entries.{
  Outside, Packable, Kept, Kept-choice, Kept-static_packed, Kept-static_item,
}

-- A decoder that writes the bytes of the field only.
record Writes {S : Type 0} (dest size : ℕ) (f : Action S (Unit {0})) : Type 0 where
  inside : (m : Memory) (s : Istream S) → Inside dest size m ((f m s).1)

module _ {S : Type 0} (decode decode_noinit : MessageDecoder S) (env : Env) where
  Writes-if :
      {dest size : ℕ} (c : Bool) {f g : Action S (Unit {0})}
      → (c ≡ true → Writes dest size f)
      → (c ≡ false → Writes dest size g)
      → Writes dest size (if c then f else g)
  Writes-if true hf hg = hf refl
  Writes-if false hf hg = hg refl

  Writes-word :
      {dest size n : ℕ} (d : Istream S → Outcome ℕ × Istream S)
      → size ≡ n
      → Writes dest size
          (λ m s. with_value (d s) m λ value m s. ((got tt, s), store_word m dest n value))
  Writes-word {dest} {size} {n} d e = record {
    inside = λ m s.
        Inside-with_value dest size m (d s) _
          λ value s' e'. Inside-store_word dest size m dest n value (omega arith) (omega arith);
  }

  Writes-pb_decoders :
      (field : Field) (dest : ℕ)
      → Packable field
      → Writes dest field.data_size
          (pb_decoders decode decode_noinit env (pb_ltype field.type) field dest)
  unfolding pb_decoders pb_dec_fixed32 pb_dec_fixed64
  Writes-pb_decoders field dest p =
      let t = pb_ltype field.type in
      Writes-if (t == Ltype.varint)
        (λ e. record { inside = λ m s. (dec_integers-Inside field dest m s).0 })
        λ n0.
          Writes-if (t == Ltype.uvarint)
            (λ e. record { inside = λ m s. (dec_integers-Inside field dest m s).1.0 })
            λ n1.
              Writes-if (t == Ltype.svarint)
                (λ e. record { inside = λ m s. (dec_integers-Inside field dest m s).1.1 })
                λ n2.
                  Writes-if (t == Ltype.fixed32)
                    (λ e. record {
                      inside = (Writes-word {dest = dest} pb_decode_fixed32 (p.word32 e)).inside;
                    })
                    λ n3.
                      Writes-if (t == Ltype.fixed64)
                        (λ e. record {
                          inside =
                              (Writes-word {dest = dest} pb_decode_fixed64 (p.word64 e)).inside;
                        })
                        λ n4. absurd (ground (arith, p.packable))

  -- On every stream and in every memory, decode_static_field of a repeated field of numbers,
  -- packed or not, whose data_size is that of its type where the type is fixed32 or fixed64,
  -- changes no byte outside the array_size entries of data_size bytes at pData and the counter of
  -- four bytes at pSize, also where it fails.
  pub static_array-Inside :
      (defaults : ℕ → ℕ → Update) (wire_type : ℕ) (it : Iter)
      → Packable (field_of it)
      → (pb_htype (field_of it).type == Htype.repeated) ≡ true
      → (m : Memory) (s : Istream S) (a : ℕ)
      → Outside it.p_data ((field_of it).data_size * (field_of it).array_size) a
      → Outside it.p_size 4 a
      → (decode_static_field (pb_decoders decode decode_noinit env) defaults wire_type it m s).1 a
        ≡ m a
  unfolding decode_static_field
  static_array-Inside defaults wire_type it p repeated m s a = kept_all.kept a
    where
      func : ℕ → Action S (Unit {0})
      func dest =
          pb_decoders decode decode_noinit env (pb_ltype (field_of it).type) (field_of it) dest

      writes :
          (dest : ℕ) (m : Memory) (s : Istream S)
          → Inside dest (field_of it).data_size m ((func dest m s).1)
      writes dest = (Writes-pb_decoders (field_of it) dest p).inside

      by_packing :
          (c : Bool)
          → Kept it m (((if c then static_packed func it else static_item func it) m s).1)
      by_packing true = Kept-static_packed it func writes m s
      by_packing false = Kept-static_item it func writes m s

      kept_all :
          Kept it m (
            (decode_static_field
              (pb_decoders decode decode_noinit env)
              defaults
              wire_type
              it
              m
              s).1)
      kept_all =
          let h = pb_htype (field_of it).type in
          Kept-choice it m s (h == Htype.required) _ _ (λ e. absurd (ground arith))
            λ n0.
              Kept-choice it m s (h == Htype.optional) _ _ (λ e. absurd (ground arith))
                λ n1.
                  Kept-choice it m s (h == Htype.repeated) _ _
                    (λ e. by_packing (is_packed wire_type (field_of it)))
                    λ n2. absurd (ground arith)
