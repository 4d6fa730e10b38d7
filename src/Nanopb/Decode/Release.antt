-- ===== src/Nanopb/Decode/Release.antt =====
-- MovieDBApp/Pods/nanopb/pb_decode.c: the release of what a message owns. The recursion through
-- submessages and extensions runs on a bound.
use prj_movie_dbapp.Prelude.{
  ℕ, zero, suc, ◌+◌, not, ◌&&◌, ◌||◌, none, some, ltb, ◌==◌, if◌then◌else◌,
}
use prj_movie_dbapp.Nanopb.Field.Ltype
use prj_movie_dbapp.Nanopb.Field.Htype
use prj_movie_dbapp.Nanopb.Field.Atype
use prj_movie_dbapp.Nanopb.Field.{
  Memory, load_word, pb_ltype, pb_htype, pb_atype, pointer_size, invalid_union_tag, iterator_error,
}
use prj_movie_dbapp.Nanopb.Iter.{Iter, field_of, pb_field_iter_find}
use prj_movie_dbapp.Nanopb.Decode.Scalar.{store_word}
use prj_movie_dbapp.Nanopb.Decode.Action.{
  Action, Env, Update, update_then, pure, return_error, on_memory, ◌>>◌,
}
use prj_movie_dbapp.Nanopb.Decode.Defaults.{each_extension, each_message_field, iter_from_extension}

-- `while (count--) { f(item); item = (char*)item + data_size; }`
unfoldable pub each_item : (ℕ → Update) → ℕ → ℕ → ℕ → Update
each_item f zero data_size item m = some m
each_item f (suc count) data_size item m =
    update_then (f item m) (each_item f count data_size (item + data_size))

-- The number of submessages to release; a count in the message may be corrupted.
unfoldable pub submessage_count : Iter → Memory → ℕ
submessage_count it m =
    let field = field_of it in
    let static = pb_atype field.type == Atype.static in
    let count =
      if static && it.p_size == it.p_data then field.array_size else load_word m it.p_size 4 in
    if pb_htype field.type == Htype.repeated
    then if static && ltb field.array_size count then field.array_size else count
    else 1

module _ (env : Env) where
  -- `while (count--) { pb_free(*pItem); *pItem++ = NULL; }`
  unfoldable pub free_items : ℕ → ℕ → Memory → Memory
  free_items zero item m = m
  free_items (suc count) item m =
      free_items count (item + pointer_size)
        (store_word (env.free m (load_word m item pointer_size)) item pointer_size 0)

  -- Repeated strings and bytes are arrays of pointers.
  unfoldable pub release_strings : Iter → Memory → Memory
  release_strings it m =
      let type = (field_of it).type in
      if pb_htype type == Htype.repeated
        && (pb_ltype type == Ltype.string || pb_ltype type == Ltype.bytes)
      then free_items (load_word m it.p_size 4) (load_word m it.p_data pointer_size) m
      else m

  unfoldable pub clear_count : Iter → Memory → Memory
  clear_count it m =
      if pb_htype (field_of it).type == Htype.repeated then store_word m it.p_size 4 0 else m

  unfoldable pub release_pointer : Iter → Memory → Memory
  release_pointer it m =
      let m' = clear_count it (release_strings it m) in
      store_word (env.free m' (load_word m' it.p_data pointer_size)) it.p_data pointer_size 0

  -- pb_release, by what it does for a field.
  unfoldable pub release_with : (Iter → Update) → ℕ → ℕ → Update
  release_with release fields dest m =
      if dest == 0 then some m else each_message_field env.descriptors release fields dest m

  unfoldable pub release_submessages : (Iter → Update) → Iter → Update
  release_submessages release it m =
      let field = field_of it in
      let item =
        if pb_atype field.type == Atype.pointer
        then load_word m it.p_data pointer_size
        else it.p_data in
      if item == 0
      then some m
      else each_item (release_with release field.ptr) (submessage_count it m) field.data_size item m

  -- What is inside an extension or a submessage.
  unfoldable pub release_inner : (Iter → Update) → Iter → Update
  release_inner release it m =
      let t = pb_ltype (field_of it).type in
      if t == Ltype.extension
      then each_extension (λ ext m. release (iter_from_extension env.descriptors m ext) m) env.bound
          (load_word m it.p_data pointer_size) m
      else if t == Ltype.submessage
      then release_submessages release it m
      else some m

  unfoldable pub release_field_with : (Iter → Update) → Iter → Update
  release_field_with release it m =
      let field = field_of it in
      let outer : Update =
        λ m. if pb_atype field.type == Atype.pointer then some (release_pointer it m) else some m in
      if pb_htype field.type == Htype.oneof && not (load_word m it.p_size 4 == field.tag)
      then some m
      else update_then (release_inner release it m) outer

  unfoldable pub release_field : ℕ → Iter → Update
  release_field zero it m = none
  release_field (suc depth) it m = release_field_with (release_field depth) it m

  unfoldable pub pb_release_single_field : Iter → Update
  pb_release_single_field = release_field env.bound

  unfoldable pub pb_release : ℕ → ℕ → Update
  pb_release = release_with pb_release_single_field

  -- The old data is released, and the iterator comes back at the field of the new tag.
  unfoldable pub release_old : {S : Type 0} → ℕ → Iter → Action S Iter
  release_old old_tag it m s =
      let (found, old) = pb_field_iter_find it old_tag in
      let (restored, it') = pb_field_iter_find old (field_of it).tag in
      if not found
      then return_error invalid_union_tag m s
      else (on_memory (pb_release_single_field old) >> λ m s.
            if restored then pure it' m s else return_error iterator_error m s)
          m s

  unfoldable pub pb_release_union_field : {S : Type 0} → Iter → Action S Iter
  pb_release_union_field it m s =
      let old_tag = load_word m it.p_size 4 in
      if old_tag == 0 || old_tag == (field_of it).tag
      then pure it m s
      else release_old old_tag it m s
