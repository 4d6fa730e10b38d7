-- ===== src/Nanopb/Decode/Message.antt =====
-- MovieDBApp/Pods/nanopb/pb_decode.c: PB_DECODERS, pb_decode and its variants, and submessages. The
-- recursion through submessages runs on a bound of the nesting.
use prj_movie_dbapp.Prelude.{
  ℕ, zero, suc, ◌-◌, ◌^◌, Bool, true, false, not, ◌&&◌, Option, none, some, List, leb, ◌==◌,
  if◌then◌else◌,
}
use prj_movie_dbapp.Nanopb.Field.Ltype
use prj_movie_dbapp.Nanopb.Field.Htype
use prj_movie_dbapp.Nanopb.Field.{
  Memory, load_word, pb_htype, missing_required_field, invalid_field_descriptor,
  wrong_size_for_fixed_count_field,
}
use prj_movie_dbapp.Nanopb.Iter.{Iter, field_at, field_of, pb_field_iter_begin, pb_field_iter_find}
use prj_movie_dbapp.Nanopb.Istream.{Istream, Outcome, got, failed, stuck}
use prj_movie_dbapp.Nanopb.Decode.Primitive.{pb_decode_tag, pb_skip_field, pb_make_string_substream}
use prj_movie_dbapp.Nanopb.Decode.Scalar.{
  store_word, Loaded, FieldDecoder, pb_dec_varint, pb_dec_uvarint, pb_dec_svarint, pb_dec_fixed32,
  pb_dec_fixed64, pb_dec_bytes, pb_dec_string, pb_dec_fixed_length_bytes,
}
use prj_movie_dbapp.Nanopb.Decode.Action.{
  Action, Env, pure, return_error, out_of_fuel, on_stream, on_memory, apply_update, modify, ◌>>=◌,
  ◌>>◌, close_after, and_do,
}
use prj_movie_dbapp.Nanopb.Decode.Defaults.{pb_message_set_to_defaults}
use prj_movie_dbapp.Nanopb.Decode.Release.{pb_release}
use prj_movie_dbapp.Nanopb.Decode.Required.{mark_seen, none_seen, check_required}
use prj_movie_dbapp.Nanopb.Decode.Extension.{find_extension_field, decode_field, decode_extension}

-- A decoder of the message at an address, by the address of its descriptors.
abbrev pub MessageDecoder : Type 0 → Type 0
MessageDecoder S = ℕ → ℕ → Action S (Unit {0})

-- The locals of pb_decode_noinit; `fixed_count_field` is an index into the descriptors, and
-- `fixed_count_size` stands in memory, since the iterator may point to it.
pub record Locals : Type 0 where
  pub iter : Iter
  pub extension_range_start : ℕ
  pub fields_seen : List ℕ
  pub fixed_count_field : Option ℕ

module _ {S : Type 0} (decode decode_noinit : MessageDecoder S) where
  -- New entries of an array get their defaults first.
  unfoldable pub pb_dec_submessage : FieldDecoder S
  pb_dec_submessage field dest = on_stream pb_make_string_substream >>= λ substream m s.
      let status =
        if pb_htype field.type == Htype.repeated
        then decode field.ptr dest m substream
        else decode_noinit field.ptr dest m substream in
      if field.ptr == 0 then return_error invalid_field_descriptor m s else close_after status s

  -- PB_DECODERS[ltype], called: the entry of extensions is NULL, and the table ends at ten.
  unfoldable pub pb_decoders : Env → ℕ → FieldDecoder S
  pb_decoders env t field dest =
      if t == Ltype.varint
      then pb_dec_varint field dest
      else if t == Ltype.uvarint
      then pb_dec_uvarint field dest
      else if t == Ltype.svarint
      then pb_dec_svarint field dest
      else if t == Ltype.fixed32
      then pb_dec_fixed32 field dest
      else if t == Ltype.fixed64
      then pb_dec_fixed64 field dest
      else if t == Ltype.bytes
      then pb_dec_bytes env.realloc field dest
      else if t == Ltype.string
      then pb_dec_string env.realloc field dest
      else if t == Ltype.submessage
      then pb_dec_submessage field dest
      else if t == Ltype.fixed_length_bytes
      then pb_dec_fixed_length_bytes field dest
      else out_of_fuel

-- `fixed_count_field != NULL && fixed_count_size != fixed_count_field->array_size`
unfoldable pub count_is_wrong : ℕ → Locals → Memory → Bool
count_is_wrong fixed_count_size l m = elim (l.fixed_count_field) [
  | none ↦ false
  | some i ↦ not (load_word m fixed_count_size 4 == (field_at (l.iter).start i).array_size)
]

abbrev pub is_position : Option ℕ → ℕ → Bool
is_position none pos = false
is_position (some i) pos = i == pos

-- `fields_seen` after a field was found.
unfoldable pub note_required : Locals → Locals
note_required l =
    if pb_htype (field_of l.iter).type == Htype.required
    then record l { fields_seen = mark_seen (l.iter).required_field_index l.fields_seen }
    else l

module _ {S : Type 0} (env : Env) (decoders : ℕ → FieldDecoder S) (fixed_count_size : ℕ) where
  -- A repeated field without a counter in the struct counts in `fixed_count_size`.
  unfoldable pub track_fixed_count : Locals → Action S Locals
  track_fixed_count l m s =
      let l' = record l { iter = record (l.iter) { p_size = fixed_count_size } } in
      let start =
        modify (λ m. store_word m fixed_count_size 4 0)
        >> pure (record l' { fixed_count_field = some (l.iter).pos }) in
      if pb_htype (field_of l.iter).type == Htype.repeated && (l.iter).p_size == (l.iter).p_data
      then if is_position l.fixed_count_field (l.iter).pos
        then pure l' m s
        else if count_is_wrong fixed_count_size l m
        then return_error wrong_size_for_fixed_count_field m s
        else start m s
      else pure l m s

  unfoldable pub decode_known : ℕ → Locals → Action S Locals
  decode_known wire_type l = track_fixed_count l >>= λ l'.
      let l'' = note_required l' in
      decode_field env decoders wire_type l''.iter >>= λ it. pure (record l'' { iter = it })

  unfoldable pub skip_unknown : ℕ → Locals → Action S Locals
  skip_unknown wire_type l = on_stream (pb_skip_field wire_type) >> pure l

  -- An extension handled the field if it read some of the stream.
  unfoldable pub try_extensions : ℕ → ℕ → Locals → Action S Locals
  try_extensions wire_type tag l m s =
      let pos = s.bytes_left in
      let after : Action S Locals =
        λ m s. if not (pos == s.bytes_left) then pure l m s else skip_unknown wire_type l m s in
      (decode_extension env decoders tag wire_type l.iter >> after) m s

  unfoldable pub decode_unknown : ℕ → ℕ → Locals → Action S Locals
  decode_unknown wire_type tag l =
      let (found, it) = find_extension_field l.iter in
      let range = if found then (field_of it).tag else 2 ^ 32 - 1 in
      let l' = record l { iter = it; extension_range_start = range } in
      if leb l.extension_range_start tag
      then if leb range tag then try_extensions wire_type tag l' else skip_unknown wire_type l'
      else skip_unknown wire_type l

  -- A round of the loop, after its tag.
  unfoldable pub decode_one : ℕ → ℕ → Locals → Action S Locals
  decode_one wire_type tag l =
      let (found, it) = pb_field_iter_find l.iter tag in
      let l' = record l { iter = it } in
      if found then decode_known wire_type l' else decode_unknown wire_type tag l'

  -- With the next round; the end of the input before a tag, and a tag of zero, end the loop.
  unfoldable pub with_tag :
      (Outcome (ℕ × ℕ) × Istream S) × Bool → Locals → (ℕ → ℕ → Action S Locals) → Action S Locals
  with_tag ((got (wire_type, tag), s), eof) l k m _ = k wire_type tag m s
  with_tag ((failed, s), true) l k m _ = pure l m s
  with_tag ((failed, s), false) l k m _ = ((failed, s), m)
  with_tag ((stuck, s), eof) l k m _ = ((stuck, s), m)

  -- `while (stream->bytes_left) …`; each round takes a byte of the stream.
  unfoldable pub decode_rounds : ℕ → Locals → Action S Locals
  decode_rounds zero l m s = if s.bytes_left == 0 then pure l m s else out_of_fuel m s
  decode_rounds (suc fuel) l m s =
      let round =
        with_tag (pb_decode_tag s) l
          λ wire_type tag. decode_one wire_type tag l >>= decode_rounds fuel in
      if s.bytes_left == 0 then pure l m s else round m s

  -- The checks after the loop.
  unfoldable pub finish_message : Locals → Action S (Unit {0})
  finish_message l m s =
      if count_is_wrong fixed_count_size l m
      then return_error wrong_size_for_fixed_count_field m s
      else elim (check_required l.iter l.fields_seen) [
        | none ↦ out_of_fuel m s
        | some false ↦ return_error missing_required_field m s
        | some true ↦ pure tt m s
      ]

  unfoldable pub noinit_with : MessageDecoder S
  noinit_with fields dest m s =
      let locals : Locals = record {
        iter = (pb_field_iter_begin (env.descriptors fields) dest).1;
        extension_range_start = 0;
        fields_seen = none_seen;
        fixed_count_field = none;
      } in
      (modify (λ m. store_word m fixed_count_size 4 0)
          >> (decode_rounds s.bytes_left locals >>= finish_message))
        m s

module _ {S : Type 0} (env : Env) where
  -- `if (!status) pb_release(fields, dest_struct);`
  unfoldable pub release_failed : ℕ → ℕ → Loaded S → Loaded S
  release_failed fields dest ((got u, s), m) = ((got u, s), m)
  release_failed fields dest ((failed, s), m) =
      and_do (apply_update (pb_release env fields dest m) m s) λ u m s. ((failed, s), m)
  release_failed fields dest ((stuck, s), m) = ((stuck, s), m)

  -- pb_decode, by pb_decode_noinit.
  unfoldable pub decode_with : MessageDecoder S → MessageDecoder S
  decode_with noinit fields dest =
      on_memory (pb_message_set_to_defaults env.descriptors env.bound fields dest) >> λ m s.
      release_failed fields dest (noinit fields dest m s)

  -- `depth` bounds the nesting of messages in the stream.
  unfoldable pub pb_decode_noinit : ℕ → MessageDecoder S
  pb_decode_noinit zero fields dest = out_of_fuel
  pb_decode_noinit (suc depth) fields dest =
      let inner = pb_decode_noinit depth in
      noinit_with env (pb_decoders (decode_with inner) inner env) (env.frame depth) fields dest

  unfoldable pub pb_decode : ℕ → MessageDecoder S
  pb_decode depth = decode_with (pb_decode_noinit depth)

  unfoldable pub pb_decode_delimited_noinit : ℕ → MessageDecoder S
  pb_decode_delimited_noinit depth fields dest =
      on_stream pb_make_string_substream >>= λ substream m s.
      close_after (pb_decode_noinit depth fields dest m substream) s

  unfoldable pub pb_decode_delimited : ℕ → MessageDecoder S
  pb_decode_delimited depth fields dest = on_stream pb_make_string_substream >>= λ substream m s.
      close_after (pb_decode depth fields dest m substream) s

  unfoldable pub pb_decode_nullterminated : ℕ → MessageDecoder S
  pb_decode_nullterminated = pb_decode
