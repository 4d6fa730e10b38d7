-- ===== src/Nanopb/Decode/Bounds/Fields.antt =====
-- MovieDBApp/Pods/nanopb/pb_decode.c: tags, skipped fields, raw values and substreams end on every
-- buffer and stay within `bytes_left`.
use prj_movie_dbapp.Prelude.{
  ℕ, zero, suc, ◌/◌, ◌^◌, ◌≤◌, ◌≡◌, refl, sym, Bool, true, false, Option, List, [], ◌∷◌, ◌==◌,
  bit_and, if◌then◌else◌, length,
}
use mathlib.Core.Path.{subst}
use prj_movie_dbapp.Nanopb.Field.{Message}
use prj_movie_dbapp.Nanopb.Istream.{
  Istream, Outcome, got, failed, stuck, Decoder, and_then, pb_readbyte, first_byte,
}
use prj_movie_dbapp.Nanopb.Decode.Varint.{
  after_first, continues, varint32_rest, pb_decode_varint32_eof, pb_decode_varint32,
  pb_decode_varint,
}
use prj_movie_dbapp.Nanopb.Decode.Primitive.{
  after_word, split_tag, pb_decode_tag, pb_skip_string, pb_skip_field, read_raw_varint,
  read_raw_value, pb_decode_fixed32, pb_decode_fixed64,
}
use prj_movie_dbapp.Nanopb.Decode.Bounds.{
  stream, Advanced-here, Ends, Steady, Steady-if, Steady-pure, Steady->>=, steady_rules,
}
use prj_movie_dbapp.Nanopb.Decode.Bounds.Loops.{
  Steady-pb_read, Steady-pb_readbyte, Steady-varint32_rest, Steady-pb_skip_varint,
  Steady-pb_decode_varint,
}

module _ {S : Type 0} where
  -- Without `*eof`, the reads in front are a bind.
  pub after_first-bind :
      (first : Outcome ℕ × Istream S) → (after_first first).0 ≡ and_then first varint32_rest
  unfolding after_first
  after_first-bind (got byte, s) = refl
  after_first-bind (failed, s) = refl
  after_first-bind (stuck, s) = refl

  pub after_word-bind :
      (word : (Outcome ℕ × Istream S) × Bool)
      → (after_word word).0 ≡ and_then (word.0) (λ temp s. (split_tag temp s).0)
  unfolding after_word
  after_word-bind ((got temp, s), eof) = refl
  after_word-bind ((failed, s), eof) = refl
  after_word-bind ((stuck, s), eof) = refl

-- A decoder that does what a steady one does.
pub Steady-same :
    {A : Type 0} {m n : Decoder (List ℕ) A}
    → ((s : Istream (List ℕ)) → m s ≡ n s)
    → Steady n
    → Steady m
Steady-same same hn = record {
  run = λ input left err h.
      subst (Ends input left) (sym (same (stream input left err))) (hn.run input left err h);
}

pub Steady-pb_decode_varint32 : Steady pb_decode_varint32
unfolding pb_decode_varint32 pb_decode_varint32_eof
Steady-pb_decode_varint32 =
    Steady-same (λ s. after_first-bind (pb_readbyte s))
      (Steady->>= Steady-pb_readbyte Steady-varint32_rest)

pub Steady-split_tag : (temp : ℕ) → Steady {A = ℕ × ℕ} (λ s. (split_tag temp s).0)
unfolding split_tag
Steady-split_tag temp = record { run = λ input left err h. ends input left err (temp == 0) }
  where
    ends :
        (input : List ℕ) (left : ℕ) (err : Option Message) (last : Bool)
        → Ends input left
            (if◌then◌else◌ {A = (Outcome (ℕ × ℕ) × Istream (List ℕ)) × Bool} last
              ((failed, stream input left err), true)
              ((got (bit_and temp 7, temp / 2 ^ 3), stream input left err), false)).0
    ends input left err true = (refl, Advanced-here input left err)
    ends input left err false = (refl, Advanced-here input left err)

pub Steady-pb_decode_tag : Steady {A = ℕ × ℕ} (λ s. (pb_decode_tag s).0)
unfolding pb_decode_tag pb_decode_varint32
Steady-pb_decode_tag =
    Steady-same (λ s. after_word-bind (pb_decode_varint32_eof s))
      (Steady->>= Steady-pb_decode_varint32 Steady-split_tag)

pub Steady-pb_skip_field : (wire_type : ℕ) → Steady (pb_skip_field wire_type)
unfolding pb_skip_field pb_skip_string
Steady-pb_skip_field wire_type =
    search (steady_rules, Steady-pb_skip_varint, Steady-pb_read, Steady-pb_decode_varint32) depth 12

Steady-read_raw_varint : (room : ℕ) → Steady (read_raw_varint room)
unfolding read_raw_varint
Steady-read_raw_varint zero = record {
  run = λ input left err h. (refl, Advanced-here input left err);
}
Steady-read_raw_varint (suc room) = Steady->>= (Steady-pb_read false 1) λ bytes.
    Steady-if (continues (first_byte bytes))
      (Steady->>= (Steady-read_raw_varint room) λ rest. Steady-pure (first_byte bytes ∷ rest))
      (Steady-pure (first_byte bytes ∷ []))

pub Steady-read_raw_value : (wire_type max_size : ℕ) → Steady (read_raw_value wire_type max_size)
unfolding read_raw_value
Steady-read_raw_value wire_type max_size =
    search (steady_rules, Steady-pb_read, Steady-read_raw_varint) depth 8

pub Steady-pb_decode_fixed32 : Steady pb_decode_fixed32
unfolding pb_decode_fixed32
Steady-pb_decode_fixed32 = search (steady_rules, Steady-pb_read) depth 8

pub Steady-pb_decode_fixed64 : Steady pb_decode_fixed64
unfolding pb_decode_fixed64
Steady-pb_decode_fixed64 = search (steady_rules, Steady-pb_read) depth 8

-- On a buffer that holds at least `bytes_left` bytes, pb_decode_varint returns, and leaves the
-- stream behind the bytes that it read, which are at most `bytes_left`, and `bytes_left` less by
-- their number.
pub pb_decode_varint-Ends :
    (input : List ℕ) (left : ℕ) (err : Option Message)
    → left ≤ length input
    → Ends input left (pb_decode_varint (stream input left err))
pb_decode_varint-Ends = Steady-pb_decode_varint.run

-- On a buffer that holds at least `bytes_left` bytes, pb_decode_tag returns, and leaves the
-- stream behind the bytes that it read, which are at most `bytes_left`, and `bytes_left` less by
-- their number.
pub pb_decode_tag-Ends :
    (input : List ℕ) (left : ℕ) (err : Option Message)
    → left ≤ length input
    → Ends input left ((pb_decode_tag (stream input left err)).0)
pb_decode_tag-Ends = Steady-pb_decode_tag.run

-- On a buffer that holds at least `bytes_left` bytes, pb_skip_field returns for every wire type,
-- and leaves the stream behind the bytes that it skipped, which are at most `bytes_left`, and
-- `bytes_left` less by their number.
pub pb_skip_field-Ends :
    (wire_type : ℕ) (input : List ℕ) (left : ℕ) (err : Option Message)
    → left ≤ length input
    → Ends input left (pb_skip_field wire_type (stream input left err))
pb_skip_field-Ends wire_type = (Steady-pb_skip_field wire_type).run

-- On a buffer that holds at least `bytes_left` bytes, read_raw_value returns for every wire type
-- and every room, and leaves the stream behind the bytes that it read, which are at most
-- `bytes_left`, and `bytes_left` less by their number.
pub read_raw_value-Ends :
    (wire_type max_size : ℕ) (input : List ℕ) (left : ℕ) (err : Option Message)
    → left ≤ length input
    → Ends input left (read_raw_value wire_type max_size (stream input left err))
read_raw_value-Ends wire_type max_size = (Steady-read_raw_value wire_type max_size).run
