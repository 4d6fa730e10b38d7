-- ===== src/Nanopb/Decode/Pointer.antt =====
-- MovieDBApp/Pods/nanopb/pb_decode.c: decode_pointer_field, and the initialization of what it
-- allocates.
use prj_movie_dbapp.Prelude.{
  ℕ, zero, suc, ◌+◌, ◌-◌, ◌*◌, ◌/◌, ◌%◌, ◌^◌, Bool, true, false, not, ◌&&◌, ◌||◌, some, ltb, ◌==◌,
  if◌then◌else◌,
}
use prj_movie_dbapp.Nanopb.Field.Ltype
use prj_movie_dbapp.Nanopb.Field.Htype
use prj_movie_dbapp.Nanopb.Field.{
  Field, Memory, load_word, pb_ltype, pb_htype, pb_size_max, pointer_size, invalid_field_type,
  too_many_array_entries,
}
use prj_movie_dbapp.Nanopb.Iter.{Iter, field_of}
use prj_movie_dbapp.Nanopb.Istream.{Istream, Outcome, got, failed, stuck}
use prj_movie_dbapp.Nanopb.Decode.Primitive.{pb_make_string_substream}
use prj_movie_dbapp.Nanopb.Decode.Scalar.{store_word, Loaded, Realloc, allocate_field}
use prj_movie_dbapp.Nanopb.Decode.Action.{
  Action, Update, pure, return_error, out_of_fuel, on_stream, on_memory, modify, ◌>>=◌, ◌>>◌,
  close_after, increment, memset_zero,
}
use prj_movie_dbapp.Nanopb.Decode.Static.{is_packed}

abbrev pub is_string_or_bytes : Field → Bool
is_string_or_bytes field = pb_ltype field.type == Ltype.string || pb_ltype field.type == Ltype.bytes

unfoldable pub initialize_pointer_field : (ℕ → ℕ → Update) → ℕ → Field → Update
initialize_pointer_field defaults item field m =
    if is_string_or_bytes field
    then some (store_word m item pointer_size 0)
    else if pb_ltype field.type == Ltype.submessage
    then defaults field.ptr item (memset_zero item field.data_size m)
    else some m

module _ {S : Type 0} where
  -- `stream->errmsg = "too many array entries"` where the outcome of the loop is false; closing the
  -- substream replaces the message.
  unfoldable pub close_items : (Outcome Bool × Istream S) × Memory → Istream S → Loaded S
  close_items ((got true, substream), m) s = close_after ((got tt, substream), m) s
  close_items ((got false, substream), m) s =
      close_after ((failed, substream), m) (record s { errmsg = some too_many_array_entries })
  close_items ((failed, substream), m) s = close_after ((failed, substream), m) s
  close_items ((stuck, substream), m) s = close_after ((stuck, substream), m) s

-- `func` is the field decoder of PB_DECODERS, `defaults` is pb_message_set_to_defaults, `release` is
-- pb_release_single_field.
module _ {S : Type 0} (realloc : Realloc) (defaults : ℕ → ℕ → Update) (release : Iter → Update)
    (func : ℕ → Action S (Unit {0})) (it : Iter) where
  -- `*(char**)iter->pData + data_size * index`, where the product is a uint32_t, initialized and
  -- decoded.
  unfoldable pub pointer_item : ℕ → Action S (Unit {0})
  pointer_item index m =
      let item = load_word m it.p_data pointer_size + (field_of it).data_size * index % 2 ^ 32 in
      (on_memory (initialize_pointer_field defaults item (field_of it)) >> func item) m

  -- More storage where the array is full; the outcome is the new `allocated_size`.
  unfoldable pub reserve : ℕ → Action S ℕ
  reserve allocated m s =
      let size = (field_of it).data_size in
      let allocated' = (allocated + ((s.bytes_left - 1) / size + 1)) % 2 ^ 64 in
      if ltb allocated (load_word m it.p_size 4 + 1)
      then if size == 0
        then out_of_fuel m s
        else (allocate_field realloc it.p_data size allocated' >> pure allocated') m s
      else pure allocated m s

  -- The loop over a packed array, on the substream; each round takes a byte of it. The outcome is
  -- false if a count reached PB_SIZE_MAX.
  unfoldable pub pointer_items : ℕ → ℕ → Action S Bool
  pointer_items zero allocated m s = if s.bytes_left == 0 then pure true m s else out_of_fuel m s
  pointer_items (suc fuel) allocated m s =
      let next = λ (allocated' : ℕ).
        let rest = modify (increment it.p_size) >> pointer_items fuel allocated' in
        λ (m : Memory) (s : Istream S).
          if load_word m it.p_size 4 == pb_size_max then pure false m s else rest m s in
      let round = reserve allocated >>= λ allocated'.
      (λ m. pointer_item (load_word m it.p_size 4) m) >> next allocated' in
      if s.bytes_left == 0 then pure true m s else round m s

  unfoldable pub pointer_packed : Action S (Unit {0})
  pointer_packed = on_stream pb_make_string_substream >>= λ substream m s.
      close_items (pointer_items substream.bytes_left (load_word m it.p_size 4) m substream) s

  -- `*size - 1` is a pb_size_t.
  unfoldable pub pointer_one : Action S (Unit {0})
  pointer_one m s =
      let grow : Action S (Unit {0}) =
        λ m. allocate_field realloc it.p_data (field_of it).data_size (load_word m it.p_size 4) m in
      if load_word m it.p_size 4 == pb_size_max
      then return_error too_many_array_entries m s
      else (modify (increment it.p_size)
            >> (grow >> λ m. pointer_item ((load_word m it.p_size 4 + pb_size_max) % 2 ^ 32) m))
          m s

  -- A duplicate submessage has its old allocation released first.
  unfoldable pub release_duplicate : Action S (Unit {0})
  release_duplicate m s =
      if pb_ltype (field_of it).type == Ltype.submessage
        && not (load_word m it.p_data pointer_size == 0)
      then on_memory (release it) m s
      else pure tt m s

  -- `initialize_pointer_field(*(void**)iter->pData, iter); return func(…, *(void**)iter->pData);`
  unfoldable pub pointer_value : Action S (Unit {0})
  pointer_value =
      on_memory (λ m.
        initialize_pointer_field defaults (load_word m it.p_data pointer_size) (field_of it) m)
      >> λ m. func (load_word m it.p_data pointer_size) m

  unfoldable pub pointer_single : Action S (Unit {0})
  pointer_single =
      let field = field_of it in
      let note_tag = λ (m : Memory).
        if pb_htype field.type == Htype.oneof then store_word m it.p_size 4 field.tag else m in
      let alloc : Action S (Unit {0}) = allocate_field realloc it.p_data field.data_size 1 in
      release_duplicate
      >> (modify note_tag
          >> (if is_string_or_bytes field then func it.p_data else (alloc >> pointer_value)))

  unfoldable pub decode_pointer_field : ℕ → Action S (Unit {0})
  decode_pointer_field wire_type =
      let h = pb_htype (field_of it).type in
      if h == Htype.required || h == Htype.optional || h == Htype.oneof
      then pointer_single
      else if h == Htype.repeated
      then if is_packed wire_type (field_of it) then pointer_packed else pointer_one
      else return_error invalid_field_type
