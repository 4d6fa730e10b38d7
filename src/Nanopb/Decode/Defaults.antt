-- ===== src/Nanopb/Decode/Defaults.antt =====
-- MovieDBApp/Pods/nanopb/pb_decode.c: the default values of a message, and iterators of extensions.
-- The recursion through submessages and extensions runs on a bound.
use prj_movie_dbapp.Prelude.{
  ℕ, zero, suc, ◌+◌, not, ◌&&◌, ◌||◌, none, some, List, ◌==◌, if◌then◌else◌, length,
}
use prj_movie_dbapp.Nanopb.Field.Ltype
use prj_movie_dbapp.Nanopb.Field.Htype
use prj_movie_dbapp.Nanopb.Field.Atype
use prj_movie_dbapp.Nanopb.Field.{
  Field, Memory, load_word, pb_ltype, pb_htype, pb_atype, pointer_size,
}
use prj_movie_dbapp.Nanopb.Iter.{Iter, field_at, field_of, pb_field_iter_begin, pb_field_iter_next}
use prj_movie_dbapp.Nanopb.Decode.Scalar.{store_byte, store_word}
use prj_movie_dbapp.Nanopb.Decode.Action.{Update, update_then, memset_zero, memcpy}

-- `do { f(&iter); } while (pb_field_iter_next(&iter));`
unfoldable pub each_field : (Iter → Update) → ℕ → Iter → Update
each_field f zero it m = none
each_field f (suc n) it m =
    let (more, it') = pb_field_iter_next it in
    let rest = each_field f n it' in update_then (f it m) (if more then rest else some)

-- `while (ext != NULL) { f(ext); ext = ext->next; }`, for at most `n` extensions.
unfoldable pub each_extension : (ℕ → Update) → ℕ → ℕ → Update
each_extension f zero ext m = if ext == 0 then some m else none
each_extension f (suc n) ext m =
    let rest =
      update_then (f ext m) λ m'. each_extension f n (load_word m' (ext + 16) pointer_size) m' in
    if ext == 0 then some m else rest

module _ (descriptors : ℕ → List Field) where
  -- A pb_extension_t holds type, dest, next and found; a pb_extension_type_t holds decode, encode
  -- and arg.
  unfoldable pub extension_fields : Memory → ℕ → List Field
  extension_fields m ext =
      descriptors (load_word m (load_word m ext pointer_size + 16) pointer_size)

  unfoldable pub iter_from_extension : Memory → ℕ → Iter
  iter_from_extension m ext =
      let fields = extension_fields m ext in
      let dest = load_word m (ext + 8) pointer_size in
      let it = (pb_field_iter_begin fields dest).1 in
      record it {
        p_data = if pb_atype (field_at fields 0).type == Atype.pointer then ext + 8 else dest;
        p_size = ext + 24;
      }

  -- For every field of a message; nothing for an empty message type.
  unfoldable pub each_message_field : (Iter → Update) → ℕ → ℕ → Update
  each_message_field f fields dest m =
      let array = descriptors fields in
      let (begun, it) = pb_field_iter_begin array dest in
      if begun then each_field f (length array + 1) it m else some m

  -- `found = false`, and the default of the extension's own field.
  unfoldable pub default_extension : (Iter → Update) → ℕ → Update
  default_extension set_default ext m =
      let m' = store_byte m (ext + 24) 0 in set_default (iter_from_extension m' ext) m'

  -- Where `init_data` is true.
  unfoldable pub default_data : (Iter → Update) → Iter → Update
  default_data set_default it m =
      let field = field_of it in
      if pb_ltype field.type == Ltype.submessage
      then each_message_field set_default field.ptr it.p_data m
      else if not (field.ptr == 0)
      then some (memcpy it.p_data field.ptr field.data_size m)
      else some (memset_zero it.p_data field.data_size m)

  unfoldable pub default_static : (Iter → Update) → Iter → Update
  default_static set_default it m =
      let h = pb_htype (field_of it).type in
      if h == Htype.optional && not (it.p_size == it.p_data)
      then default_data set_default it (store_byte m it.p_size 0)
      else if h == Htype.repeated || h == Htype.oneof
      then some (store_word m it.p_size 4 0)
      else default_data set_default it m

  unfoldable pub default_pointer : Iter → Memory → Memory
  default_pointer it m =
      let h = pb_htype (field_of it).type in
      let m' = store_word m it.p_data pointer_size 0 in
      if h == Htype.repeated || h == Htype.oneof then store_word m' it.p_size 4 0 else m'

  module _ (bound : ℕ) where
    unfoldable pub default_field_with : (Iter → Update) → Iter → Update
    default_field_with set_default it m =
        let type = (field_of it).type in
        if pb_ltype type == Ltype.extension
        then each_extension (default_extension set_default) bound
            (load_word m it.p_data pointer_size) m
        else if pb_atype type == Atype.static
        then default_static set_default it m
        else if pb_atype type == Atype.pointer
        then some (default_pointer it m)
        else some m

    unfoldable pub pb_field_set_to_default : ℕ → Iter → Update
    pb_field_set_to_default zero it m = none
    pb_field_set_to_default (suc depth) it m =
        default_field_with (pb_field_set_to_default depth) it m

    unfoldable pub pb_message_set_to_defaults : ℕ → ℕ → Update
    pb_message_set_to_defaults fields dest m =
        each_message_field (pb_field_set_to_default bound) fields dest m
