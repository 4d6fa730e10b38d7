-- ===== src/Nanopb/Decode/InsideBuffer.antt =====
-- MovieDBApp/Pods/nanopb/pb_decode.c: the decoders of bytes and strings, on a buffer, write only
-- inside a static field.
use prj_movie_dbapp.Prelude.{
  ℕ, ◌+◌, ◌-◌, ◌%◌, ◌^◌, ◌≤◌, ◌<◌, ◌≡◌, sym, ap, ◌∙◌, true, false, not, Option, List, arith, ltb,
  ◌==◌, length, take, drop, length-take, replicate, length-replicate, dec_lt,
}
use mathlib.Core.Path.{subst}
use prj_movie_dbapp.Nanopb.Field.Atype
use prj_movie_dbapp.Nanopb.Field.{
  Field, Memory, Message, pb_atype, pb_size_max, set_error, end_of_stream,
}
use prj_movie_dbapp.Nanopb.Encode.Scalar.{bytes_alloc_size}
use prj_movie_dbapp.Nanopb.Istream.{Istream, Outcome, got, failed, pb_read, read_bytes}
use prj_movie_dbapp.Nanopb.Decode.Varint.{pb_decode_varint32}
use prj_movie_dbapp.Nanopb.Decode.Scalar.{
  store_word, Loaded, with_value, Realloc, read_into, pb_dec_fixed_length_bytes, fill_bytes,
  pb_dec_bytes, fill_string, pb_dec_string,
}
use prj_movie_dbapp.Nanopb.Decode.Bounds.{stream}
use prj_movie_dbapp.Nanopb.Decode.Bounds.Loops.{read_bytes-full, read_bytes-short}
use prj_movie_dbapp.Nanopb.Decode.Bounds.Fields.{Steady-pb_decode_varint32}
use prj_movie_dbapp.Nanopb.Decode.Inside.{
  Inside, Inside-refl, Inside-trans, Inside-store_word, Inside-store_byte, Inside-store_bytes,
  Inside-if, Inside-with_value,
}

true-ne_false : true ≡ false → ⊥
true-ne_false e = cc

-- At most `count` bytes are read.
read_bytes-length :
    (count : ℕ) (input : List ℕ) (left : ℕ) (err : Option Message) (bytes : List ℕ)
    (s : Istream (List ℕ))
    → read_bytes count (stream input left err) ≡ (got bytes, s)
    → length bytes ≤ count
read_bytes-length count input left err bytes s e = elim (dec_lt left count) [
  | yes short ↦ absurd (differ (sym (read_bytes-short count input left err short) ∙ e))
  | no enough ↦ omega (
    arith,
    length-take count input,
    ap length (same (sym (read_bytes-full count input left err (omega arith)) ∙ e)),
  )
]
  where
    differ :
        ◌≡◌ {A = Outcome (List ℕ) × Istream (List ℕ)}
          (failed, stream input left (set_error err end_of_stream))
          (got bytes, s)
        → ⊥
    differ p = cc

    same :
        ◌≡◌ {A = Outcome (List ℕ) × Istream (List ℕ)}
          (got (take count input), stream (drop count input) (left - count) err)
          (got bytes, s)
        → take count input ≡ bytes
    same p = cc

module _ (dest size : ℕ) (m : Memory) where
  Inside-read_into :
      (buf count : ℕ) (input : List ℕ) (left : ℕ) (err : Option Message)
      → dest ≤ buf
      → buf + count ≤ dest + size
      → Inside dest size m ((read_into buf count m (stream input left err)).1)
  unfolding read_into pb_read
  Inside-read_into buf count input left err h k =
      Inside-with_value dest size m (read_bytes count (stream input left err)) _ λ bytes s e.
        Inside-store_bytes dest size m buf bytes h
          (omega (arith, read_bytes-length count input left err bytes s e))

  -- The size was read from the buffer, and the rest of the buffer follows.
  Inside-after_size :
      (input : List ℕ) (left : ℕ) (err : Option Message)
      (k : ℕ → Memory → Istream (List ℕ) → Loaded (List ℕ))
      → left ≤ length input
      → ((n : ℕ) (rest : List ℕ) (left' : ℕ) (err' : Option Message)
          → Inside dest size m ((k n m (stream rest left' err')).1))
      → Inside dest size m ((with_value (pb_decode_varint32 (stream input left err)) m k).1)
  Inside-after_size input left err k h hk =
      let adv = (Steady-pb_decode_varint32.run input left err h).1 in
      Inside-with_value dest size m (pb_decode_varint32 (stream input left err)) k λ n s e.
        subst (λ t. Inside dest size m ((k n m t).1)) (sym (sym (ap (λ r. r.1) e) ∙ adv.now))
          (hk n adv.rest (left - length adv.pre) adv.err)

  Inside-fill_string :
      (n : ℕ) (input : List ℕ) (left : ℕ) (err : Option Message)
      → n < size
      → Inside dest size m ((fill_string n dest m (stream input left err)).1)
  unfolding fill_string
  Inside-fill_string n input left err h =
      Inside-trans (Inside-read_into dest n input left err (omega arith) (omega arith))
        (Inside-store_byte dest size _ (dest + n) 0 (omega arith) (omega arith))

module _ (dest size : ℕ) (m : Memory) where
  Inside-fill_bytes :
      (n : ℕ) (input : List ℕ) (left : ℕ) (err : Option Message)
      → n + 4 ≤ size
      → Inside dest size m ((fill_bytes n dest m (stream input left err)).1)
  unfolding fill_bytes
  Inside-fill_bytes n input left err h =
      Inside-trans (Inside-store_word dest size m dest 4 n (omega arith) (omega arith)) (
        Inside-read_into dest size (store_word m dest 4 n) (dest + 4) n input left err (omega arith)
          (omega arith))

module _ (realloc : Realloc) (field : Field) (dest : ℕ) (m : Memory) where
  -- On a buffer that holds at least `bytes_left` bytes, pb_dec_string writes only the data_size
  -- bytes of a field that is not a pointer, its '\0' included, also where it fails.
  pub dec_string-Inside :
      (input : List ℕ) (left : ℕ) (err : Option Message)
      → (pb_atype field.type == Atype.pointer) ≡ false
      → left ≤ length input
      → Inside dest field.data_size m
          ((pb_dec_string realloc field dest m (stream input left err)).1)
  unfolding pb_dec_string
  dec_string-Inside input left err static h =
      Inside-after_size dest field.data_size m input left err _ h λ n rest left' err'.
        Inside-if dest field.data_size m (ltb ((n + 1) % 2 ^ 32) n) _ _
          (λ e. Inside-refl dest field.data_size m)
          λ e1.
            Inside-if dest field.data_size m (pb_atype field.type == Atype.pointer) _ _
              (λ e. absurd (true-ne_false (sym e ∙ static)))
              λ e2.
                Inside-if dest field.data_size m (ltb field.data_size ((n + 1) % 2 ^ 32)) _ _
                  (λ e. Inside-refl dest field.data_size m)
                  λ e3. Inside-fill_string dest field.data_size m n rest left' err' (ground arith)

  -- On a buffer that holds at least `bytes_left` bytes, pb_dec_bytes writes only the data_size
  -- bytes of a field that is not a pointer, also where it fails.
  pub dec_bytes-Inside :
      (input : List ℕ) (left : ℕ) (err : Option Message)
      → (pb_atype field.type == Atype.pointer) ≡ false
      → left ≤ length input
      → Inside dest field.data_size m
          ((pb_dec_bytes realloc field dest m (stream input left err)).1)
  unfolding pb_dec_bytes
  dec_bytes-Inside input left err static h =
      Inside-after_size dest field.data_size m input left err _ h λ n rest left' err'.
        Inside-if dest field.data_size m (ltb pb_size_max n) _ _
          (λ e. Inside-refl dest field.data_size m)
          λ e0.
            Inside-if dest field.data_size m (ltb (bytes_alloc_size n) n) _ _
              (λ e. Inside-refl dest field.data_size m)
              λ e1.
                Inside-if dest field.data_size m (pb_atype field.type == Atype.pointer) _ _
                  (λ e. absurd (true-ne_false (sym e ∙ static)))
                  λ e2.
                    Inside-if dest field.data_size m (ltb field.data_size (bytes_alloc_size n)) _ _
                      (λ e. Inside-refl dest field.data_size m)
                      λ e3.
                        Inside-fill_bytes dest field.data_size m n rest left' err' (ground arith)

-- On a buffer that holds at least `bytes_left` bytes, pb_dec_fixed_length_bytes writes only the
-- data_size bytes of the field, also where it fails.
pub dec_fixed_length_bytes-Inside :
    (field : Field) (dest : ℕ) (m : Memory) (input : List ℕ) (left : ℕ) (err : Option Message)
    → left ≤ length input
    → Inside dest field.data_size m
        ((pb_dec_fixed_length_bytes field dest m (stream input left err)).1)
unfolding pb_dec_fixed_length_bytes
dec_fixed_length_bytes-Inside field dest m input left err h =
    Inside-after_size dest field.data_size m input left err _ h λ n rest left' err'.
      Inside-if dest field.data_size m (ltb pb_size_max n) _ _
        (λ e. Inside-refl dest field.data_size m)
        λ e0.
          Inside-if dest field.data_size m (n == 0) _ _
            (λ e.
              Inside-store_bytes dest field.data_size m dest (replicate field.data_size 0)
                (omega arith) (omega (arith, length-replicate {A = ℕ} field.data_size 0)))
            λ e1.
              Inside-if dest field.data_size m (not (n == field.data_size)) _ _
                (λ e. Inside-refl dest field.data_size m)
                λ e2.
                  Inside-read_into dest field.data_size m dest field.data_size rest left' err'
                    (omega arith) (omega arith)
