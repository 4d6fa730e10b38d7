-- ===== src/Nanopb/Decode/Total/Items.antt =====
-- MovieDBApp/Pods/nanopb/pb_decode.c: the end of decode_static_field and of its loop over an
-- array.
use prj_movie_dbapp.Prelude.{
  ℕ, zero, suc, ◌+◌, ◌%◌, ◌^◌, ◌*◌, ◌≤◌, ◌<◌, ◌≡◌, refl, Bool, true, false, ◌&&◌, ◌||◌, Option,
  List, arith, leb, ◌==◌, if◌then◌else◌, length,
}
use prj_movie_dbapp.Nanopb.Field.Ltype
use prj_movie_dbapp.Nanopb.Field.Htype
use prj_movie_dbapp.Nanopb.Field.WireType
use prj_movie_dbapp.Nanopb.Field.{
  Memory, Message, load_word, pb_ltype, pb_htype, array_overflow, invalid_field_type,
}
use prj_movie_dbapp.Nanopb.Iter.{Iter, field_of}
use prj_movie_dbapp.Nanopb.Istream.{Istream}
use prj_movie_dbapp.Nanopb.Decode.Bounds.{stream}
use prj_movie_dbapp.Nanopb.Decode.Scalar.{FieldDecoder, store_byte, store_word}
use prj_movie_dbapp.Nanopb.Decode.Action.{
  Action, Update, pure, out_of_fuel, modify, ◌>>◌, increment, memset_zero,
}
use prj_movie_dbapp.Nanopb.Decode.Static.{
  is_packed, static_items, static_packed, static_item, static_oneof, decode_static_field,
}
use prj_movie_dbapp.Nanopb.Decode.Total.{Within-here, Halts, Settles, SettlesBelow, Total}
use prj_movie_dbapp.Nanopb.Decode.Total.Rules.{
  Settles-pure, Settles-return_error, Settles-error_after, Settles-if, Settles-test, Settles-modify,
  Settles-on_memory,
}
use prj_movie_dbapp.Nanopb.Decode.Total.Binds.{Settles->>=}
use prj_movie_dbapp.Nanopb.Decode.Total.Shrinks.{Shrinks, SettlesBelow->>=}
use prj_movie_dbapp.Nanopb.Decode.Total.Substream.{Settles-substream, Closes-check_overflow}

module _ {A : Type 0} where
  pub SettlesBelow-Settles : {bound : ℕ} {f : Action (List ℕ) A} → Settles f → SettlesBelow bound f
  SettlesBelow-Settles h = record {
    run_below = λ m input left err le lt. h.run m input left err le;
  }

  pub SettlesBelow-test :
      {bound : ℕ} (c : Memory → Istream (List ℕ) → Bool) {f g : Action (List ℕ) A}
      → SettlesBelow bound f
      → SettlesBelow bound g
      → SettlesBelow bound (λ m s. if c m s then f m s else g m s)
  SettlesBelow-test {bound} c {f} {g} hf hg = record {
    run_below = λ m input left err h lt. branch m input left err h lt (c m (stream input left err));
  }
    where
      branch :
          (m : Memory) (input : List ℕ) (left : ℕ) (err : Option Message)
          → left ≤ length input
          → left < bound
          → (b : Bool)
          → Halts input left
              ((if b then f m (stream input left err) else g m (stream input left err)).0)
      branch m input left err h lt true = hf.run_below m input left err h lt
      branch m input left err h lt false = hg.run_below m input left err h lt

  pub SettlesBelow-modify :
      {bound : ℕ} (g : Memory → Memory) {f : Action (List ℕ) A}
      → SettlesBelow bound f
      → SettlesBelow bound (modify g >> f)
  SettlesBelow-modify g h = record { run_below = λ m. h.run_below (g m) }

  -- At the end of the stream a loop needs no round.
  pub SettlesBelow-end :
      (c : Memory → Istream (List ℕ) → Bool) (a : A) (f : Action (List ℕ) A)
      → SettlesBelow 1 (λ m s. if s.bytes_left == 0 || c m s then pure a m s else f m s)
  SettlesBelow-end c a f = record { run_below = at_end }
    where
      at_end :
          (m : Memory) (input : List ℕ) (left : ℕ) (err : Option Message)
          → left ≤ length input
          → left < 1
          → Halts input left (
              (if left == 0 || c m (stream input left err)
                then pure a m (stream input left err)
                else f m (stream input left err)).0)
      at_end m input zero err h lt = (refl, Within-here input 0 err)
      at_end m input (suc left) err h lt = absurd (omega arith)

  pub SettlesBelow-last :
      (a : A) (f : Action (List ℕ) A)
      → SettlesBelow 1 (λ m s. if s.bytes_left == 0 then pure a m s else f m s)
  SettlesBelow-last a f = record { run_below = at_end }
    where
      at_end :
          (m : Memory) (input : List ℕ) (left : ℕ) (err : Option Message)
          → left ≤ length input
          → left < 1
          → Halts input left (
              (if left == 0
                then pure a m (stream input left err)
                else f m (stream input left err)).0)
      at_end m input zero err h lt = (refl, Within-here input 0 err)
      at_end m input (suc left) err h lt = absurd (omega arith)

module _ (it : Iter) {func : ℕ → Action (List ℕ) (Unit {0})} where
  SettlesBelow-static_items :
      ((item : ℕ) → Shrinks (func item))
      → (fuel : ℕ) → SettlesBelow (suc fuel) (static_items func it fuel)
  unfolding static_items
  SettlesBelow-static_items hf zero =
      SettlesBelow-end (λ m s. leb (field_of it).array_size (load_word m it.p_size 4)) tt
        out_of_fuel
  SettlesBelow-static_items hf (suc fuel) =
      SettlesBelow-test
        (λ m s. s.bytes_left == 0 || leb (field_of it).array_size (load_word m it.p_size 4))
        (SettlesBelow-Settles (Settles-pure tt))
        (record {
          run_below = λ m.
              (SettlesBelow->>=
                  (hf (it.p_data + (field_of it).data_size * load_word m it.p_size 4 % 2 ^ 32))
                  λ u.
                    SettlesBelow-modify (increment it.p_size)
                      (SettlesBelow-static_items hf fuel)).run_below
                m;
        })

  Settles-static_packed : ((item : ℕ) → Shrinks (func item)) → Settles (static_packed func it)
  unfolding static_packed
  Settles-static_packed hf =
      Settles-substream (λ substream. static_items func it substream.bytes_left)
        (λ m rest size err h.
          (SettlesBelow-static_items hf size).run_below m rest size err h (omega arith))
        Closes-check_overflow

  module _ (hf : (item : ℕ) → Settles (func item)) where
    Settles-static_item : Settles (static_item func it)
    unfolding static_item
    Settles-static_item =
        Settles-test (λ m s. leb (field_of it).array_size (load_word m it.p_size 4))
          (Settles-error_after array_overflow (increment it.p_size))
          (record {
            run = λ m.
                (hf (it.p_data + (field_of it).data_size * load_word m it.p_size 4 % 2 ^ 32)).run
                  (increment it.p_size m);
          })

    Settles-static_oneof :
        (defaults : ℕ → ℕ → Update)
        → ((pb_ltype (field_of it).type == Ltype.submessage) ≡ true
            → Total (defaults (field_of it).ptr it.p_data))
        → Settles (static_oneof defaults func it)
    unfolding static_oneof
    Settles-static_oneof defaults hd =
        Settles->>= (Settles-modify λ m. store_word m it.p_size 4 (field_of it).tag) λ u.
          Settles->>=
            (Settles-if (pb_ltype (field_of it).type == Ltype.submessage)
              (λ sub.
                Settles->>= (Settles-modify (memset_zero it.p_data (field_of it).data_size))
                  λ v. Settles-on_memory (hd sub))
              (λ plain. Settles-pure tt))
            λ w. hf it.p_data

pub second-true : (a b : Bool) → (a && b) ≡ true → b ≡ true
second-true true b h = h
second-true false b h = absurd (cc)

module _ (decoders : ℕ → FieldDecoder (List ℕ)) (defaults : ℕ → ℕ → Update) (wire_type : ℕ)
    (it : Iter)
    (hf : (item : ℕ) → Settles (decoders (pb_ltype (field_of it).type) (field_of it) item))
    (hs : leb (pb_ltype (field_of it).type) Ltype.last_packable ≡ true
      → (item : ℕ) → Shrinks (decoders (pb_ltype (field_of it).type) (field_of it) item))
    (hd : (pb_ltype (field_of it).type == Ltype.submessage) ≡ true
      → (p : ℕ) → Total (defaults (field_of it).ptr p)) where
  pub Settles-decode_static_field : Settles (decode_static_field decoders defaults wire_type it)
  unfolding decode_static_field
  Settles-decode_static_field =
      let h = pb_htype (field_of it).type in
      Settles-if (h == Htype.required) (λ required. hf it.p_data)
        λ r.
          Settles-if (h == Htype.optional)
            (λ optional.
              Settles->>=
                (Settles-modify λ m. if it.p_size == it.p_data then m else store_byte m it.p_size 1)
                λ u. hf it.p_data)
            λ o.
              Settles-if (h == Htype.repeated)
                (λ repeated.
                  Settles-if (is_packed wire_type (field_of it))
                    (λ packed.
                      Settles-static_packed it
                        (hs (second-true (wire_type == WireType.string) _ packed)))
                    λ plain. Settles-static_item it hf)
                λ p.
                  Settles-if (h == Htype.oneof)
                    (λ oneof. Settles-static_oneof it hf defaults λ sub. hd sub it.p_data)
                    λ n. Settles-return_error invalid_field_type
