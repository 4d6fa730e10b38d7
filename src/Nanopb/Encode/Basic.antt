-- ===== src/Nanopb/Encode/Basic.antt =====
-- MovieDBApp/Pods/nanopb/pb_encode.c: the encoders of one field, and of extension fields.
use prj_movie_dbapp.Prelude.{
  ℕ, zero, suc, ◌+◌, Bool, true, not, ◌&&◌, ◌||◌, Option, none, some, List, ◌==◌, if◌then◌else◌,
}
use prj_movie_dbapp.Nanopb.Field.Htype
use prj_movie_dbapp.Nanopb.Field.Atype
use prj_movie_dbapp.Nanopb.Field.{
  Message, Field, Memory, load_byte, load_word, pb_ltype, pb_htype, pb_atype, pointer_size,
  displace, is_nonzero, missing_required_field, invalid_field_type, callback_error,
}
use prj_movie_dbapp.Nanopb.Iter.{field_at}
use prj_movie_dbapp.Nanopb.Ostream.{Ostream, Encoder, Status, crashed, ◌>>◌, done, return_error}
use prj_movie_dbapp.Nanopb.Encode.Primitive.{pb_encode_tag_for_field}
use prj_movie_dbapp.Nanopb.Encode.Scalar.{FieldEncoder, pb_encoders}
use prj_movie_dbapp.Nanopb.Encode.Default.{Check}
use prj_movie_dbapp.Nanopb.Encode.Array.{encode_array}

-- What the encoder finds around it: the memory, the descriptor array at an address, and the user's
-- functions by their addresses (of a callback field, and of an extension type).
pub record Env (S : Type 0) : Type 0 where
  pub memory : Memory
  pub descriptors : ℕ → List Field
  pub callback_encode : ℕ → Field → ℕ → Encoder S
  pub extension_encode : ℕ → ℕ → Encoder S

-- The undefined cases: a null function pointer, a pb_size_t read from a bool.
abbrev pub crash : {S : Type 0} → Encoder S
crash s = (crashed, s)

-- `if (!m(stream)) PB_RETURN_ERROR(stream, message);`
unfoldable pub or_error : {S : Type 0} → Status × Ostream S → Message → Status × Ostream S
or_error (Status.failed, s) message = return_error message s
or_error (Status.ok, s) message = (Status.ok, s)
or_error (Status.crashed, s) message = (Status.crashed, s)
or_error (Status.stuck, s) message = (Status.stuck, s)

module _ {S : Type 0} (env : Env S) (check : Check) (submessage : ℕ → ℕ → Encoder S) where
  -- `implicit_has`, for a field whose descriptor has no size_offset, and for pointers.
  unfoldable pub implicit_has : Field → ℕ → ℕ → Option Bool
  implicit_has field p_data target =
      if pb_atype field.type == Atype.pointer
      then some (not (target == 0))
      else if pb_htype field.type == Htype.optional && not (is_nonzero field.size_offset)
      then elim (check field p_data) [ none ↦ none | some zero_valued ↦ some (not zero_valued) ]
      else some true

  -- `*(const bool*)pSize`
  unfoldable pub has_field : Field → ℕ → Bool → Bool
  has_field field p_data implicit =
      if is_nonzero field.size_offset
      then not (load_byte env.memory (displace p_data field.size_offset) == 0)
      else implicit

  unfoldable pub encode_required : Field → ℕ → Encoder S → Encoder S
  encode_required field target value =
      if target == 0
      then return_error missing_required_field
      else pb_encode_tag_for_field field >> value

  unfoldable pub encode_when : Bool → Field → Encoder S → Encoder S
  encode_when present field value = if present then pb_encode_tag_for_field field >> value else done

  -- `field->size_offset != 0 ? *(const pb_size_t*)pSize : field->array_size`
  unfoldable pub item_count : Field → ℕ → ℕ
  item_count field p_data =
      if is_nonzero field.size_offset
      then load_word env.memory (displace p_data field.size_offset) 4
      else field.array_size

  -- `target` is the address of the data, through the pointer for pointer fields.
  unfoldable pub encode_by_htype : Field → ℕ → ℕ → Bool → Encoder S
  encode_by_htype field p_data target implicit =
      let h = pb_htype field.type in
      let func = pb_encoders env.memory submessage (pb_ltype field.type) field in
      if h == Htype.required
      then encode_required field target (func target)
      else if h == Htype.optional
      then encode_when (has_field field p_data implicit) field (func target)
      else if h == Htype.repeated
      then encode_array env.memory field target (item_count field p_data) func
      else if h == Htype.oneof
      then if is_nonzero field.size_offset
        then encode_when (load_word env.memory (displace p_data field.size_offset) 4 == field.tag)
            field (func target)
        else crash
      else return_error invalid_field_type

  unfoldable pub encode_basic_field : FieldEncoder S
  encode_basic_field field p_data =
      let target =
        if pb_atype field.type == Atype.pointer
        then load_word env.memory p_data pointer_size
        else p_data in
      elim (implicit_has field p_data target) [
        | none ↦ λ s. (Status.stuck, s)
        | some implicit ↦ encode_by_htype field p_data target implicit
      ]

  -- A pb_callback_t holds the function's address, then its argument, whose address is passed.
  unfoldable pub encode_callback_field : FieldEncoder S
  encode_callback_field field p_data =
      let function = load_word env.memory p_data pointer_size in
      if function == 0 then done else λ s.
      or_error (env.callback_encode function field (p_data + pointer_size) s) callback_error

  unfoldable pub encode_field : FieldEncoder S
  encode_field field p_data =
      let a = pb_atype field.type in
      if a == Atype.static || a == Atype.pointer
      then encode_basic_field field p_data
      else if a == Atype.callback
      then encode_callback_field field p_data
      else return_error invalid_field_type

  -- A pb_extension_t holds type, dest and next; a pb_extension_type_t holds decode, encode and arg.
  unfoldable pub default_extension_encoder : ℕ → Encoder S
  default_extension_encoder extension =
      let type = load_word env.memory extension pointer_size in
      let field = field_at (env.descriptors (load_word env.memory (type + 16) pointer_size)) 0 in
      if pb_atype field.type == Atype.pointer
      then encode_field field (extension + 8)
      else encode_field field (load_word env.memory (extension + 8) pointer_size)

  unfoldable pub encode_one_extension : ℕ → Encoder S
  encode_one_extension extension =
      let type = load_word env.memory extension pointer_size in
      let encode = load_word env.memory (type + 8) pointer_size in
      if encode == 0
      then default_extension_encoder extension
      else env.extension_encode encode extension

  -- `while (extension) { …; extension = extension->next; }`, for at most `n` extensions.
  unfoldable pub encode_extensions : ℕ → ℕ → Encoder S
  encode_extensions zero extension = if extension == 0 then done else λ s. (Status.stuck, s)
  encode_extensions (suc n) extension =
      let rest = encode_extensions n (load_word env.memory (extension + 16) pointer_size) in
      if extension == 0 then done else (encode_one_extension extension >> rest)

  unfoldable pub encode_extension_field : ℕ → FieldEncoder S
  encode_extension_field n field p_data =
      encode_extensions n (load_word env.memory p_data pointer_size)
