-- ===== src/Nanopb/Decode/Extension.antt =====
-- MovieDBApp/Pods/nanopb/pb_decode.c: decode_field, and extension fields.
use prj_movie_dbapp.Prelude.{
  ℕ, zero, suc, ◌+◌, Bool, true, false, not, ◌||◌, ◌==◌, if◌then◌else◌, length,
}
use prj_movie_dbapp.Nanopb.Field.Ltype
use prj_movie_dbapp.Nanopb.Field.Htype
use prj_movie_dbapp.Nanopb.Field.Atype
use prj_movie_dbapp.Nanopb.Field.{
  load_word, pb_ltype, pb_htype, pb_atype, pointer_size, invalid_field_type,
}
use prj_movie_dbapp.Nanopb.Iter.{Iter, field_at, field_of, pb_field_iter_next}
use prj_movie_dbapp.Nanopb.Decode.Scalar.{store_byte, FieldDecoder}
use prj_movie_dbapp.Nanopb.Decode.Action.{
  Action, Env, pure, return_error, out_of_fuel, modify, ◌>>=◌, ◌>>◌,
}
use prj_movie_dbapp.Nanopb.Decode.Defaults.{
  extension_fields, iter_from_extension, pb_message_set_to_defaults,
}
use prj_movie_dbapp.Nanopb.Decode.Release.{pb_release_single_field, pb_release_union_field}
use prj_movie_dbapp.Nanopb.Decode.Static.{decode_static_field}
use prj_movie_dbapp.Nanopb.Decode.Pointer.{decode_pointer_field}
use prj_movie_dbapp.Nanopb.Decode.Callback.{decode_callback_field}

-- The outcome is false where no field is an extension; the walk is once round the fields.
unfoldable pub find_extension_loop : ℕ → ℕ → Iter → Bool × Iter
find_extension_loop zero start it = (false, it)
find_extension_loop (suc fuel) start it =
    let it' = (pb_field_iter_next it).1 in
    let rest = find_extension_loop fuel start it' in
    if pb_ltype (field_of it).type == Ltype.extension
    then (true, it)
    else if it'.pos == start
    then (false, it')
    else rest

unfoldable pub find_extension_field : Iter → Bool × Iter
find_extension_field it = find_extension_loop (length it.start + 1) it.pos it

module _ {S : Type 0} (env : Env) (decoders : ℕ → FieldDecoder S) where
  unfoldable pub decode_by_atype : ℕ → Iter → Action S (Unit {0})
  decode_by_atype wire_type it =
      let type = (field_of it).type in
      let defaults = pb_message_set_to_defaults env.descriptors env.bound in
      if pb_atype type == Atype.static
      then decode_static_field decoders defaults wire_type it
      else if pb_atype type == Atype.pointer
      then decode_pointer_field env.realloc defaults (pb_release_single_field env)
          (decoders (pb_ltype type) (field_of it)) it wire_type
      else if pb_atype type == Atype.callback
      then decode_callback_field env wire_type it
      else return_error invalid_field_type

  -- A field of a union has the old one released first, which moves the iterator; the outcome is the
  -- iterator.
  unfoldable pub decode_field : ℕ → Iter → Action S Iter
  decode_field wire_type it =
      (if pb_htype (field_of it).type == Htype.oneof
        then pb_release_union_field env it
        else pure it)
      >>= λ it'. decode_by_atype wire_type it' >> pure it'

  -- `extension->found = true` comes after the iterator is made.
  unfoldable pub default_extension_decoder : ℕ → ℕ → ℕ → Action S (Unit {0})
  default_extension_decoder extension tag wire_type m =
      let field = field_at (extension_fields env.descriptors m extension) 0 in
      let it = iter_from_extension env.descriptors m extension in
      if not (field.tag == tag)
      then pure tt m
      else (modify (λ m. store_byte m (extension + 24) 1) >> (decode_field wire_type it >> pure tt))
          m

  unfoldable pub decode_one_extension : ℕ → ℕ → ℕ → Action S (Unit {0})
  decode_one_extension extension tag wire_type m =
      let decode = load_word m (load_word m extension pointer_size) pointer_size in
      if decode == 0
      then default_extension_decoder extension tag wire_type m
      else env.extension_decode decode extension tag wire_type m

  -- `while (extension != NULL && pos == stream->bytes_left) …`, for at most `n` extensions.
  unfoldable pub decode_extensions : ℕ → ℕ → ℕ → ℕ → ℕ → Action S (Unit {0})
  decode_extensions zero pos extension tag wire_type m s =
      if extension == 0 || not (pos == s.bytes_left) then pure tt m s else out_of_fuel m s
  decode_extensions (suc n) pos extension tag wire_type m s =
      let round = decode_one_extension extension tag wire_type >> λ m.
      decode_extensions n pos (load_word m (extension + 16) pointer_size) tag wire_type m in
      if extension == 0 || not (pos == s.bytes_left) then pure tt m s else round m s

  unfoldable pub decode_extension : ℕ → ℕ → Iter → Action S (Unit {0})
  decode_extension tag wire_type it m s =
      decode_extensions env.bound s.bytes_left (load_word m it.p_data pointer_size) tag wire_type m
        s
