-- ===== src/Nanopb/Encode/Message.antt =====
-- MovieDBApp/Pods/nanopb/pb_encode.c: pb_encode, its variants, and submessages. The recursion
-- through submessages runs on a bound of the nesting.
use prj_movie_dbapp.Prelude.{
  ℕ, zero, suc, ◌+◌, Option, none, some, [], ◌∷◌, ltb, ◌==◌, if◌then◌else◌, length,
}
use prj_movie_dbapp.Nanopb.Field.Ltype
use prj_movie_dbapp.Nanopb.Field.{pb_ltype, stream_full, submsg_size_changed}
use prj_movie_dbapp.Nanopb.Iter.{Iter, field_of, pb_field_iter_begin, pb_field_iter_next}
use prj_movie_dbapp.Nanopb.Ostream.{
  Ostream, Encoder, Status, add_size, ◌>>◌, done, return_error, sizing, pb_write,
}
use prj_movie_dbapp.Nanopb.Encode.Primitive.{pb_encode_varint}
use prj_movie_dbapp.Nanopb.Encode.Default.{Check, pb_check_proto3_default_value}
use prj_movie_dbapp.Nanopb.Encode.Basic.{Env, encode_field, encode_extension_field}

-- An encoder of the message at an address, by the address of its descriptors.
abbrev pub MessageEncoder : Type 0 → Type 0
MessageEncoder S = ℕ → ℕ → Encoder S

module _ {S : Type 0} where
  -- `do { if (!body(iter)) return false; } while (pb_field_iter_next(&iter)); return true;`
  unfoldable pub encode_fields : (Iter → Encoder S) → ℕ → Iter → Encoder S
  encode_fields body zero it = λ s. (Status.stuck, s)
  encode_fields body (suc n) it =
      let (more, it') = pb_field_iter_next it in
      let rest = encode_fields body n it' in body it >> (if more then rest else done)

  -- The second pass of pb_encode_submessage, into a substream that may hold `size` bytes.
  unfoldable pub submessage_stream : Ostream S → ℕ → Ostream S
  submessage_stream s size = record s { max_size = size; bytes_written = 0; errmsg = none }

  -- What the substream leaves in the stream, and the check of its length.
  unfoldable pub close_submessage : Ostream S → ℕ → Status × Ostream S → Status × Ostream S
  close_submessage s size (status, substream) =
      let s' = record s {
        bytes_written = add_size s.bytes_written substream.bytes_written;
        state = substream.state;
        errmsg = substream.errmsg;
      } in
      elim status [
        | Status.crashed ↦ (Status.crashed, s')
        | Status.stuck ↦ (Status.stuck, s')
        | other ↦
            if substream.bytes_written == size
            then (other, s')
            else return_error submsg_size_changed s'
      ]

  -- The length and the data; a sizing stream only counts the data.
  unfoldable pub write_submessage : Encoder S → ℕ → Encoder S
  write_submessage message size = pb_encode_varint size >> λ s. elim (s.callback) [
    | none ↦ pb_write [] size s
    | some f ↦
        if ltb s.max_size (add_size s.bytes_written size)
        then return_error stream_full s
        else close_submessage s size (message (submessage_stream s size))
  ]

  -- The first pass on a sizing stream: its message is passed on if it fails.
  unfoldable pub after_sizing : Status × Ostream S → Encoder S → Encoder S
  after_sizing (Status.ok, substream) k s = k s
  after_sizing (Status.failed, substream) k s =
      (Status.failed, record s { errmsg = substream.errmsg })
  after_sizing (Status.crashed, substream) k s = (Status.crashed, s)
  after_sizing (Status.stuck, substream) k s = (Status.stuck, s)

  unfoldable pub pb_encode_submessage : MessageEncoder S → MessageEncoder S
  pb_encode_submessage encode fields src s =
      let sized = encode fields src (sizing s.state) in
      after_sizing sized (write_submessage (encode fields src) (sized.1).bytes_written) s

module _ {S : Type 0} (env : Env S) where
  unfoldable pub encode_one : ℕ → Check → MessageEncoder S → Iter → Encoder S
  encode_one n check submessage it =
      if pb_ltype (field_of it).type == Ltype.extension
      then encode_extension_field env check submessage n (field_of it) it.p_data
      else encode_field env check submessage (field_of it) it.p_data

  -- pb_encode, with what it does for proto3 defaults and submessages.
  unfoldable pub encode_with : ℕ → Check → MessageEncoder S → MessageEncoder S
  encode_with n check submessage fields src =
      let array = env.descriptors fields in
      let (begun, it) = pb_field_iter_begin array src in
      if begun then encode_fields (encode_one n check submessage) (length array + 1) it else done

  -- `depth` bounds the nesting of messages, and the extensions of a message.
  unfoldable pub pb_encode : ℕ → MessageEncoder S
  pb_encode zero fields src = λ s. (Status.stuck, s)
  pb_encode (suc depth) fields src =
      encode_with depth (pb_check_proto3_default_value env.memory env.descriptors depth)
        (pb_encode_submessage (pb_encode depth)) fields src

  unfoldable pub pb_encode_delimited : ℕ → MessageEncoder S
  pb_encode_delimited depth = pb_encode_submessage (pb_encode depth)

  unfoldable pub pb_encode_nullterminated : ℕ → MessageEncoder S
  pb_encode_nullterminated depth fields src = pb_encode depth fields src >> pb_write (0 ∷ []) 1

  -- `none` where the encoder fails, or is stuck.
  unfoldable pub pb_get_encoded_size : ℕ → S → ℕ → ℕ → Option ℕ
  pb_get_encoded_size depth state fields src =
      let (status, s) = pb_encode depth fields src (sizing state) in
      elim status [ Status.ok ↦ some s.bytes_written | _ ↦ none ]
