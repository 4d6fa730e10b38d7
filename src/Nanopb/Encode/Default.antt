-- ===== src/Nanopb/Encode/Default.antt =====
-- MovieDBApp/Pods/nanopb/pb_encode.c: pb_check_proto3_default_value, on a bound of nested messages.
use prj_movie_dbapp.Prelude.{
  ℕ, zero, suc, ◌+◌, Bool, true, false, ◌&&◌, Option, none, some, List, ◌==◌, if◌then◌else◌, length,
}
use prj_movie_dbapp.Nanopb.Field.Ltype
use prj_movie_dbapp.Nanopb.Field.Htype
use prj_movie_dbapp.Nanopb.Field.Atype
use prj_movie_dbapp.Nanopb.Field.{
  Field, Memory, load_byte, load_word, pb_ltype, pb_htype, pb_atype, displace, is_nonzero,
}
use prj_movie_dbapp.Nanopb.Iter.{Iter, field_of, pb_field_iter_begin, pb_field_iter_next}

-- `for (i = 0; i < n; i++) if (p[i] != 0) return false; return true;`
unfoldable pub all_zero : Memory → ℕ → ℕ → Bool
all_zero m p zero = true
all_zero m p (suc n) = load_byte m p == 0 && all_zero m (p + 1) n

-- `none` in this file: the bound on nested messages was too small.
abbrev pub Check : Type 0
Check = Field → ℕ → Option Bool

module _ (m : Memory) (descriptors : ℕ → List Field) where
  -- `do { if (!check(iter.pos, iter.pData)) return false; } while (pb_field_iter_next(&iter));`
  unfoldable pub all_default : Check → ℕ → Iter → Option Bool
  all_default check zero it = none
  all_default check (suc n) it =
      let (more, it') = pb_field_iter_next it in
      let rest = all_default check n it' in
      elim (check (field_of it) it.p_data) [
        | none ↦ none
        | some false ↦ some false
        | some true ↦ if more then rest else some true
      ]

  unfoldable pub submessage_default : Check → Check
  submessage_default check field p_data =
      let fields = descriptors field.ptr in
      let (begun, it) = pb_field_iter_begin fields p_data in
      if begun then all_default check (length fields + 1) it else some true

  -- The cases of singular proto3 fields; a static one may be a message.
  unfoldable pub singular_default : Check → Check
  singular_default check field p_data =
      let t = pb_ltype field.type in
      let static = pb_atype field.type == Atype.static in
      if static && t == Ltype.bytes
      then some (load_word m p_data 4 == 0)
      else if static && t == Ltype.string
      then some (load_byte m p_data == 0)
      else if static && t == Ltype.fixed_length_bytes
      then some (field.data_size == 0)
      else if static && t == Ltype.submessage
      then submessage_default check field p_data
      else some (all_zero m p_data field.data_size)

  unfoldable pub check_default_with : Check → Check
  check_default_with check field p_data =
      let h = pb_htype field.type in
      let p_size = displace p_data field.size_offset in
      if h == Htype.required
      then some false
      else if h == Htype.repeated
      then some (load_word m p_size 4 == 0)
      else if h == Htype.oneof
      then some (load_word m p_size 4 == 0)
      else if h == Htype.optional && is_nonzero field.size_offset
      then some (load_byte m p_size == 0)
      else singular_default check field p_data

  unfoldable pub pb_check_proto3_default_value : ℕ → Check
  pb_check_proto3_default_value zero field p_data = none
  pb_check_proto3_default_value (suc depth) field p_data =
      check_default_with (pb_check_proto3_default_value depth) field p_data
