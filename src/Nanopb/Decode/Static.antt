-- ===== src/Nanopb/Decode/Static.antt =====
-- MovieDBApp/Pods/nanopb/pb_decode.c: decode_static_field.
use prj_movie_dbapp.Prelude.{
  ℕ, zero, suc, ◌+◌, ◌*◌, ◌%◌, ◌^◌, Bool, not, ◌&&◌, ◌||◌, leb, ◌==◌, if◌then◌else◌,
}
use prj_movie_dbapp.Nanopb.Field.Ltype
use prj_movie_dbapp.Nanopb.Field.Htype
use prj_movie_dbapp.Nanopb.Field.WireType
use prj_movie_dbapp.Nanopb.Field.{
  Field, load_word, pb_ltype, pb_htype, array_overflow, invalid_field_type,
}
use prj_movie_dbapp.Nanopb.Iter.{Iter, field_of}
use prj_movie_dbapp.Nanopb.Istream.{Istream, stuck}
use prj_movie_dbapp.Nanopb.Decode.Primitive.{pb_make_string_substream}
use prj_movie_dbapp.Nanopb.Decode.Scalar.{store_byte, store_word, Loaded, FieldDecoder}
use prj_movie_dbapp.Nanopb.Decode.Action.{
  Action, Update, pure, return_error, out_of_fuel, on_stream, on_memory, modify, ◌>>=◌, ◌>>◌,
  close_after, increment, memset_zero,
}

-- `wire_type == PB_WT_STRING && PB_LTYPE(type) <= PB_LTYPE_LAST_PACKABLE`
abbrev pub is_packed : ℕ → Field → Bool
is_packed wire_type field =
    wire_type == WireType.string && leb (pb_ltype field.type) Ltype.last_packable

module _ {S : Type 0} where
  -- The loop over a packed array, on the substream; each round takes a byte of it. The product of
  -- data_size and *size is a uint32_t.
  unfoldable pub static_items : (ℕ → Action S (Unit {0})) → Iter → ℕ → Action S (Unit {0})
  static_items func it zero m s =
      if s.bytes_left == 0 || leb (field_of it).array_size (load_word m it.p_size 4)
      then pure tt m s
      else out_of_fuel m s
  static_items func it (suc fuel) m s =
      let size = load_word m it.p_size 4 in
      let item = it.p_data + (field_of it).data_size * size % 2 ^ 32 in
      let round = func item >> (modify (increment it.p_size) >> static_items func it fuel) in
      if s.bytes_left == 0 || leb (field_of it).array_size size then pure tt m s else round m s

  -- What is left of the substream is too much, also after a failed round.
  unfoldable pub check_overflow : Loaded S → Istream S → Loaded S
  check_overflow ((stuck, substream), m) s = close_after ((stuck, substream), m) s
  check_overflow ((result, substream), m) s =
      if not (substream.bytes_left == 0)
      then return_error array_overflow m s
      else close_after ((result, substream), m) s

  unfoldable pub static_packed : (ℕ → Action S (Unit {0})) → Iter → Action S (Unit {0})
  static_packed func it = on_stream pb_make_string_substream >>= λ substream m s.
      check_overflow (static_items func it substream.bytes_left m substream) s

  -- `if ((*size)++ >= iter->pos->array_size)`
  unfoldable pub static_item : (ℕ → Action S (Unit {0})) → Iter → Action S (Unit {0})
  static_item func it m s =
      let size = load_word m it.p_size 4 in
      let item = it.p_data + (field_of it).data_size * size % 2 ^ 32 in
      if leb (field_of it).array_size size
      then return_error array_overflow (increment it.p_size m) s
      else func item (increment it.p_size m) s

  -- A submessage of a union starts from its default values.
  unfoldable pub static_oneof :
      (ℕ → ℕ → Update) → (ℕ → Action S (Unit {0})) → Iter → Action S (Unit {0})
  static_oneof defaults func it =
      let field = field_of it in
      let clear =
        modify (memset_zero it.p_data field.data_size)
        >> on_memory (defaults field.ptr it.p_data) in
      modify (λ m. store_word m it.p_size 4 field.tag)
      >> ((if pb_ltype field.type == Ltype.submessage then clear else pure tt) >> func it.p_data)

  -- `decoders` is PB_DECODERS, `defaults` is pb_message_set_to_defaults.
  unfoldable pub decode_static_field :
      (ℕ → FieldDecoder S) → (ℕ → ℕ → Update) → ℕ → Iter → Action S (Unit {0})
  decode_static_field decoders defaults wire_type it =
      let field = field_of it in
      let h = pb_htype field.type in
      let func = decoders (pb_ltype field.type) field in
      if h == Htype.required
      then func it.p_data
      else if h == Htype.optional
      then modify (λ m. if it.p_size == it.p_data then m else store_byte m it.p_size 1)
        >> func it.p_data
      else if h == Htype.repeated
      then if is_packed wire_type field then static_packed func it else static_item func it
      else if h == Htype.oneof
      then static_oneof defaults func it
      else return_error invalid_field_type
