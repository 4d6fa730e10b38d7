-- ===== src/Nanopb/Encode/Array.antt =====
-- MovieDBApp/Pods/nanopb/pb_encode.c: encode_array, packed and not.
use prj_movie_dbapp.Prelude.{
  ℕ, zero, suc, ◌+◌, ◌*◌, not, ◌&&◌, ◌||◌, none, some, [], ltb, leb, ◌==◌, if◌then◌else◌,
}
use prj_movie_dbapp.Nanopb.Field.Ltype
use prj_movie_dbapp.Nanopb.Field.Atype
use prj_movie_dbapp.Nanopb.Field.WireType
use prj_movie_dbapp.Nanopb.Field.{
  Field, Memory, load_word, pb_ltype, pb_atype, pointer_size, array_max_size_exceeded,
}
use prj_movie_dbapp.Nanopb.Ostream.{Encoder, Status, ok, ◌>>◌, done, return_error, sizing, pb_write}
use prj_movie_dbapp.Nanopb.Encode.Primitive.{
  pb_encode_varint, pb_encode_tag, pb_encode_tag_for_field,
}

-- Entries of a pointer-type array of strings or bytes are pointers.
unfoldable pub entry : Memory → Field → ℕ → ℕ
entry m field p =
    if pb_atype field.type == Atype.pointer
      && (pb_ltype field.type == Ltype.string || pb_ltype field.type == Ltype.bytes)
    then load_word m p pointer_size
    else p

module _ {S : Type 0} where
  -- `for (i = 0; i < count; i++) { if (!func(stream, field, p)) return false; p += data_size; }`
  unfoldable pub encode_items : ℕ → (ℕ → Encoder S) → ℕ → ℕ → Encoder S
  encode_items zero func data_size p = done
  encode_items (suc count) func data_size p =
      func p >> encode_items count func data_size (p + data_size)

  -- The bytes that the items take, measured on a sizing stream, and whether that succeeded.
  unfoldable pub measure : Encoder S → S → Status × ℕ
  measure m state =
      let (status, sizestream) = m (sizing state) in (status, sizestream.bytes_written)

  -- Hand the size on, or give the measurement's failure back with the stream as it is.
  unfoldable pub with_size : Status × ℕ → (ℕ → Encoder S) → Encoder S
  with_size (Status.ok, size) k s = k size s
  with_size (Status.failed, size) k s = (Status.failed, s)
  with_size (Status.crashed, size) k s = (Status.crashed, s)
  with_size (Status.stuck, size) k s = (Status.stuck, s)

  -- `size`; as `count` has 32 bits, the products fit in a size_t.
  unfoldable pub packed_size : Field → ℕ → Encoder S → S → Status × ℕ
  packed_size field count items state =
      if pb_ltype field.type == Ltype.fixed32
      then (ok, 4 * count)
      else if pb_ltype field.type == Ltype.fixed64
      then (ok, 8 * count)
      else measure items state

  -- The size and the data of a packed array; a sizing stream only counts the data.
  unfoldable pub write_sized : Encoder S → ℕ → Encoder S
  write_sized items size = pb_encode_varint size >> λ s. elim (s.callback) [
    | none ↦ pb_write [] size s
    | some f ↦ items s
  ]

  unfoldable pub encode_packed : Field → ℕ → Encoder S → Encoder S
  encode_packed field count items = pb_encode_tag WireType.string field.tag >> λ s.
      with_size (packed_size field count items s.state) (write_sized items) s

  unfoldable pub encode_array : Memory → Field → ℕ → ℕ → (ℕ → Encoder S) → Encoder S
  encode_array m field p_data count func =
      if count == 0
      then done
      else if not (pb_atype field.type == Atype.pointer) && ltb field.array_size count
      then return_error array_max_size_exceeded
      else if leb (pb_ltype field.type) Ltype.last_packable
      then encode_packed field count (encode_items count func field.data_size p_data)
      else encode_items count (λ p. pb_encode_tag_for_field field >> func (entry m field p))
          field.data_size p_data
