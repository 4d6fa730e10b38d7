-- ===== src/Nanopb/Decode/Total/Pointers.antt =====
-- MovieDBApp/Pods/nanopb/pb_decode.c: the end of decode_pointer_field and of its loop over an
-- array.
use prj_movie_dbapp.Prelude.{
  ℕ, zero, suc, ◌+◌, ◌-◌, ◌/◌, ◌%◌, ◌^◌, ◌≡◌, true, false, not, ◌&&◌, ◌||◌, List, arith, leb, ltb,
  ◌==◌, if◌then◌else◌,
}
use prj_movie_dbapp.Nanopb.Field.Ltype
use prj_movie_dbapp.Nanopb.Field.Htype
use prj_movie_dbapp.Nanopb.Field.WireType
use prj_movie_dbapp.Nanopb.Field.{
  load_word, pb_ltype, pb_htype, pb_size_max, pointer_size, invalid_field_type,
  too_many_array_entries,
}
use prj_movie_dbapp.Nanopb.Iter.{Iter, field_of}
use prj_movie_dbapp.Nanopb.Decode.Scalar.{Realloc, store_word}
use prj_movie_dbapp.Nanopb.Decode.Action.{Action, Update, out_of_fuel, increment}
use prj_movie_dbapp.Nanopb.Decode.Static.{is_packed}
use prj_movie_dbapp.Nanopb.Decode.Pointer.{
  is_string_or_bytes, initialize_pointer_field, pointer_item, reserve, pointer_items,
  pointer_packed, pointer_one, release_duplicate, pointer_value, pointer_single,
  decode_pointer_field,
}
use prj_movie_dbapp.Nanopb.Decode.Total.{Settles, SettlesBelow, Total}
use prj_movie_dbapp.Nanopb.Decode.Total.Rules.{
  Settles-pure, Settles-return_error, Settles-cond, Settles-if, Settles-test, Settles-memory,
  Settles-modify, Settles-on_memory,
}
use prj_movie_dbapp.Nanopb.Decode.Total.Binds.{Settles->>=}
use prj_movie_dbapp.Nanopb.Decode.Total.Shrinks.{Shrinks, SettlesBelow->>=}
use prj_movie_dbapp.Nanopb.Decode.Total.Fields.{Settles-allocate_field}
use prj_movie_dbapp.Nanopb.Decode.Total.Updates.{Total-some, Total-cond, Total-memory}
use prj_movie_dbapp.Nanopb.Decode.Total.Substream.{Settles-substream, Closes-close_items}
use prj_movie_dbapp.Nanopb.Decode.Total.Items.{
  SettlesBelow-Settles, SettlesBelow-test, SettlesBelow-modify, SettlesBelow-last, second-true,
}
use prj_movie_dbapp.Nanopb.Decode.Total.Below.{Shrinks-after, SettlesBelow-after, Shrinks-memory}

module _ (realloc : Realloc) (defaults : ℕ → ℕ → Update) (release : Iter → Update)
    (func : ℕ → Action (List ℕ) (Unit {0})) (it : Iter) (hf : (item : ℕ) → Settles (func item))
    (hd : (pb_ltype (field_of it).type == Ltype.submessage) ≡ true
      → (p : ℕ) → Total (defaults (field_of it).ptr p))
    (hr : Total (release it)) (sized : ((field_of it).data_size == 0) ≡ false) where
  Total-initialize : (item : ℕ) → Total (initialize_pointer_field defaults item (field_of it))
  unfolding initialize_pointer_field
  Total-initialize item =
      Total-cond (is_string_or_bytes (field_of it)) (λ s. Total-some _)
        λ p.
          Total-cond (pb_ltype (field_of it).type == Ltype.submessage)
            (λ sub. record { done = λ m. (hd sub item).done _ }) λ n. Total-some λ m. m

  Settles-pointer_item : (index : ℕ) → Settles (pointer_item realloc defaults release func it index)
  unfolding pointer_item
  Settles-pointer_item index =
      Settles-memory λ m. Settles->>= (Settles-on_memory (Total-initialize _)) λ u. hf _

  Shrinks-pointer_item :
      ((item : ℕ) → Shrinks (func item))
      → (index : ℕ) → Shrinks (pointer_item realloc defaults release func it index)
  unfolding pointer_item
  Shrinks-pointer_item hs index =
      Shrinks-memory λ m. Shrinks-after (Settles-on_memory (Total-initialize _)) λ u. hs _

  Settles-reserve : (allocated : ℕ) → Settles (reserve realloc defaults release func it allocated)
  unfolding reserve
  Settles-reserve allocated =
      let size = (field_of it).data_size in
      Settles-test (λ m s. ltb allocated (load_word m it.p_size 4 + 1))
        (Settles-cond (size == 0) (λ none. absurd (cc))
          λ some. record {
            run = λ m input left err h.
                (Settles->>=
                    (Settles-allocate_field realloc it.p_data size
                      ((allocated + ((left - 1) / size + 1)) % 2 ^ 64))
                    λ u. Settles-pure _).run
                  m input left err h;
          })
        (Settles-pure allocated)

  SettlesBelow-pointer_items :
      ((item : ℕ) → Shrinks (func item))
      → (fuel allocated : ℕ)
      → SettlesBelow (suc fuel) (pointer_items realloc defaults release func it fuel allocated)
  unfolding pointer_items
  SettlesBelow-pointer_items hs zero allocated = SettlesBelow-last true out_of_fuel
  SettlesBelow-pointer_items hs (suc fuel) allocated =
      SettlesBelow-test (λ m s. s.bytes_left == 0) (SettlesBelow-Settles (Settles-pure true))
        (SettlesBelow-after (Settles-reserve allocated) λ allocated'.
          SettlesBelow->>= (Shrinks-memory λ m. Shrinks-pointer_item hs (load_word m it.p_size 4))
            λ u.
              SettlesBelow-test (λ m s. load_word m it.p_size 4 == pb_size_max)
                (SettlesBelow-Settles (Settles-pure false))
                (SettlesBelow-modify (increment it.p_size)
                  (SettlesBelow-pointer_items hs fuel allocated')))

  Settles-pointer_packed :
      ((item : ℕ) → Shrinks (func item)) → Settles (pointer_packed realloc defaults release func it)
  unfolding pointer_packed
  Settles-pointer_packed hs =
      Settles-substream
        (λ substream m.
          pointer_items realloc defaults release func it substream.bytes_left
            (load_word m it.p_size 4) m)
        (λ m rest size err h.
          (SettlesBelow-pointer_items hs size (load_word m it.p_size 4)).run_below m rest size err h
            (omega arith))
        Closes-close_items

  Settles-pointer_one : Settles (pointer_one realloc defaults release func it)
  unfolding pointer_one
  Settles-pointer_one =
      Settles-test (λ m s. load_word m it.p_size 4 == pb_size_max)
        (Settles-return_error too_many_array_entries)
        (Settles->>= (Settles-modify (increment it.p_size)) λ u.
          Settles->>=
            (Settles-memory λ m.
              Settles-allocate_field realloc it.p_data (field_of it).data_size
                (load_word m it.p_size 4))
            λ v.
              Settles-memory
                λ m. Settles-pointer_item ((load_word m it.p_size 4 + pb_size_max) % 2 ^ 32))

  Settles-pointer_value : Settles (pointer_value realloc defaults release func it)
  unfolding pointer_value
  Settles-pointer_value =
      Settles->>=
        (Settles-on_memory
          (Total-memory λ m. Total-initialize (load_word m it.p_data pointer_size)))
        λ u. Settles-memory λ m. hf (load_word m it.p_data pointer_size)

  Settles-release_duplicate : Settles (release_duplicate realloc defaults release func it)
  unfolding release_duplicate
  Settles-release_duplicate =
      Settles-test
        (λ m s.
          pb_ltype (field_of it).type == Ltype.submessage
          && not (load_word m it.p_data pointer_size == 0))
        (Settles-on_memory hr) (Settles-pure tt)

  Settles-pointer_single : Settles (pointer_single realloc defaults release func it)
  unfolding pointer_single
  Settles-pointer_single = Settles->>= Settles-release_duplicate λ u.
      Settles->>=
        (Settles-modify λ m.
          if pb_htype (field_of it).type == Htype.oneof
          then store_word m it.p_size 4 (field_of it).tag
          else m)
        λ v.
          Settles-if (is_string_or_bytes (field_of it)) (λ s. hf it.p_data)
            λ n.
              Settles->>= (Settles-allocate_field realloc it.p_data (field_of it).data_size 1)
                λ w. Settles-pointer_value

  pub Settles-decode_pointer_field :
      (wire_type : ℕ)
      → (leb (pb_ltype (field_of it).type) Ltype.last_packable ≡ true
          → (item : ℕ) → Shrinks (func item))
      → Settles (decode_pointer_field realloc defaults release func it wire_type)
  unfolding decode_pointer_field
  Settles-decode_pointer_field wire_type hs =
      let h = pb_htype (field_of it).type in
      Settles-if (h == Htype.required || h == Htype.optional || h == Htype.oneof)
        (λ single. Settles-pointer_single)
        λ n.
          Settles-if (h == Htype.repeated)
            (λ repeated.
              Settles-if (is_packed wire_type (field_of it))
                (λ packed.
                  Settles-pointer_packed (hs (second-true (wire_type == WireType.string) _ packed)))
                λ plain. Settles-pointer_one)
            λ other. Settles-return_error invalid_field_type
