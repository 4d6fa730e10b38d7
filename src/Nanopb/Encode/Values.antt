-- ===== src/Nanopb/Encode/Values.antt =====
-- Every field encoder of PB_ENCODERS is uniform, if submessages are; what fixed words emit.
use prj_movie_dbapp.Prelude.{ℕ, zero, suc, ◌+◌, ◌≡◌, refl, ap, List, [], length}
use prj_movie_dbapp.Nanopb.Field.{Field, Memory, load_bytes, load_word, invalid_data_size}
use prj_movie_dbapp.Nanopb.Ostream.{Encoder, Buffer, pb_write}
use prj_movie_dbapp.Nanopb.Encode.Primitive.{
  varint_buffer, zigzag, word_bytes, pb_encode_varint, pb_encode_svarint, pb_encode_fixed32,
  pb_encode_fixed64, pb_encode_tag, pb_encode_tag_for_field, pb_encode_string,
}
use prj_movie_dbapp.Nanopb.Encode.Scalar.{
  load_signed, load_unsigned, pb_enc_varint, pb_enc_uvarint, pb_enc_svarint, pb_enc_fixed32,
  pb_enc_fixed64, pb_enc_bytes, pb_enc_string, pb_enc_fixed_length_bytes, pb_enc_submessage,
  pb_encoders,
}
use prj_movie_dbapp.Nanopb.Encode.Emits.{
  Emits, Uniform, emits, Emits-pb_write, Uniform->>, uniform_rules, Uniform-option,
  Uniform-return_error,
}
use mathlib.Core.Path.{subst}

pub length-load_bytes : (m : Memory) (a n : ℕ) → length (load_bytes m a n) ≡ n
unfolding load_bytes
length-load_bytes m a zero = refl
length-load_bytes m a (suc n) = ap suc (length-load_bytes m (a + 1) n)

pub length-word_bytes : (n val : ℕ) → length (word_bytes n val) ≡ n
unfolding word_bytes
length-word_bytes zero val = refl
length-word_bytes (suc n) val = ap suc (length-word_bytes n _)

pub Emits-pb_encode_varint : (value : ℕ) → Emits (pb_encode_varint value) (varint_buffer value)
unfolding pb_encode_varint
Emits-pb_encode_varint value = Emits-pb_write (varint_buffer value)

pub Uniform-pb_encode_varint : (value : ℕ) → Uniform (pb_encode_varint value)
Uniform-pb_encode_varint value = emits _ (Emits-pb_encode_varint value)

-- A write whose count is the length of its bytes.
Emits-write_of : (bs : List ℕ) (n : ℕ) → length bs ≡ n → Emits (pb_write bs n) bs
Emits-write_of bs n e = subst (λ k. Emits (pb_write bs k) bs) e (Emits-pb_write bs)

pub Emits-pb_encode_fixed32 :
    (m : Memory) (p : ℕ) → Emits (pb_encode_fixed32 m p) (word_bytes 4 (load_word m p 4))
unfolding pb_encode_fixed32
Emits-pb_encode_fixed32 m p = Emits-write_of _ 4 (length-word_bytes 4 _)

pub Emits-pb_encode_fixed64 :
    (m : Memory) (p : ℕ) → Emits (pb_encode_fixed64 m p) (word_bytes 8 (load_word m p 8))
unfolding pb_encode_fixed64
Emits-pb_encode_fixed64 m p = Emits-write_of _ 8 (length-word_bytes 8 _)

pub Uniform-pb_encode_tag : (wiretype number : ℕ) → Uniform (pb_encode_tag wiretype number)
unfolding pb_encode_tag
Uniform-pb_encode_tag wiretype number = Uniform-pb_encode_varint _

pub Uniform-pb_encode_tag_for_field : (field : Field) → Uniform (pb_encode_tag_for_field field)
unfolding pb_encode_tag_for_field
Uniform-pb_encode_tag_for_field field = search (uniform_rules, Uniform-pb_encode_tag) depth 8

Uniform-pb_encode_string : (bs : List ℕ) (n : ℕ) → length bs ≡ n → Uniform (pb_encode_string bs n)
unfolding pb_encode_string
Uniform-pb_encode_string bs n e =
    Uniform->> (Uniform-pb_encode_varint n) (emits bs (Emits-write_of bs n e))

module _ (m : Memory) where
  Uniform-pb_enc_varint : (field : Field) (src : ℕ) → Uniform (pb_enc_varint m field src)
  unfolding pb_enc_varint
  Uniform-pb_enc_varint field src =
      Uniform-option (load_signed m field.data_size src) (Uniform-return_error invalid_data_size)
        Uniform-pb_encode_varint

  Uniform-pb_enc_uvarint : (field : Field) (src : ℕ) → Uniform (pb_enc_uvarint m field src)
  unfolding pb_enc_uvarint
  Uniform-pb_enc_uvarint field src =
      Uniform-option (load_unsigned m field.data_size src) (Uniform-return_error invalid_data_size)
        Uniform-pb_encode_varint

  Uniform-pb_enc_svarint : (field : Field) (src : ℕ) → Uniform (pb_enc_svarint m field src)
  unfolding pb_enc_svarint pb_encode_svarint
  Uniform-pb_enc_svarint field src =
      Uniform-option (load_signed m field.data_size src) (Uniform-return_error invalid_data_size)
        (λ value. Uniform-pb_encode_varint (zigzag value))

  pub Emits-pb_enc_fixed32 :
      (field : Field) (src : ℕ)
      → Emits (pb_enc_fixed32 m field src) (word_bytes 4 (load_word m src 4))
  unfolding pb_enc_fixed32
  Emits-pb_enc_fixed32 field src = Emits-pb_encode_fixed32 m src

  pub Emits-pb_enc_fixed64 :
      (field : Field) (src : ℕ)
      → Emits (pb_enc_fixed64 m field src) (word_bytes 8 (load_word m src 8))
  unfolding pb_enc_fixed64
  Emits-pb_enc_fixed64 field src = Emits-pb_encode_fixed64 m src

  Uniform-load_string : (a n : ℕ) → Uniform (pb_encode_string (load_bytes m a n) n)
  Uniform-load_string a n = Uniform-pb_encode_string _ n (length-load_bytes m a n)

  Uniform-pb_enc_bytes : (field : Field) (src : ℕ) → Uniform (pb_enc_bytes m field src)
  unfolding pb_enc_bytes
  Uniform-pb_enc_bytes field src =
      search (uniform_rules, Uniform-load_string, Uniform-pb_encode_string [] 0 refl)

  Uniform-pb_enc_string : (field : Field) (src : ℕ) → Uniform (pb_enc_string m field src)
  unfolding pb_enc_string
  Uniform-pb_enc_string field src = Uniform-load_string src _

  Uniform-pb_enc_fixed_length_bytes :
      (field : Field) (src : ℕ) → Uniform (pb_enc_fixed_length_bytes m field src)
  unfolding pb_enc_fixed_length_bytes
  Uniform-pb_enc_fixed_length_bytes field src = Uniform-load_string src _

  module _ (sub : ℕ → ℕ → Encoder Buffer) (usub : (fields src : ℕ) → Uniform (sub fields src)) where
    Uniform-pb_enc_submessage :
        (field : Field) (src : ℕ) → Uniform (pb_enc_submessage m sub field src)
    unfolding pb_enc_submessage
    Uniform-pb_enc_submessage field src = search (uniform_rules, usub)

    -- Whatever the type of the field, its encoder does the same on every stream.
    pub Uniform-pb_encoders :
        (t : ℕ) (field : Field) (src : ℕ) → Uniform (pb_encoders m sub t field src)
    unfolding pb_encoders
    Uniform-pb_encoders t field src =
        search
          (
            uniform_rules,
            Uniform-pb_enc_varint,
            Uniform-pb_enc_uvarint,
            Uniform-pb_enc_svarint,
            emits _ (Emits-pb_enc_fixed32 field src),
            emits _ (Emits-pb_enc_fixed64 field src),
            Uniform-pb_enc_bytes,
            Uniform-pb_enc_string,
            Uniform-pb_enc_submessage,
            Uniform-pb_enc_fixed_length_bytes,
          )
          depth 12
