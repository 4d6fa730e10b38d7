-- ===== src/Nanopb/Decode/Total/Tags.antt =====
-- MovieDBApp/Pods/nanopb/pb_decode.c: how large the tags are that pb_decode_tag gives.
use prj_movie_dbapp.Prelude.{
  ℕ, zero, suc, ◌+◌, ◌-◌, ◌*◌, ◌/◌, ◌%◌, ◌^◌, ◌<◌, Bool, true, false, ◌&&◌, List, [], ◌∷◌, arith,
  leb, ◌==◌, bit_and, if◌then◌else◌,
}
use prj_movie_dbapp.Prelude.Bits.{bit_and_127}
use prj_movie_dbapp.Nanopb.Istream.{
  Istream, Outcome, got, failed, stuck, and_then, pb_readbyte, first_byte, call_source,
}
use prj_movie_dbapp.Nanopb.Decode.Varint.{
  continues, next_bitpos, or_group, bad_extension, check_last, varint32_loop, varint32_rest,
  after_first, pb_decode_varint32_eof,
}
use prj_movie_dbapp.Nanopb.Decode.Primitive.{split_tag, pb_decode_tag}
use prj_movie_dbapp.Nanopb.Decode.Required.Bits.{bit_or-lt}
use prj_movie_dbapp.Nanopb.Decode.Total.{Post, Post-all}
use prj_movie_dbapp.Nanopb.Decode.Bounds.Fields.{after_first-bind, after_word-bind}

-- A decoded word has 32 bits.
abbrev Word : Outcome ℕ → Type 0
Word o = Post (λ v. v < 2 ^ 32) o

or_group-lt : (result byte bitpos : ℕ) → result < 2 ^ 32 → or_group 32 result byte bitpos < 2 ^ 32
or_group-lt result byte bitpos h =
    bit_or-lt 32 result (bit_and byte 0x7f * 2 ^ bitpos % 2 ^ 32) h (omega arith)

module _ {S : Type 0} where
  module _ {A B : Type 0} (P : A → Type 0) (Q : B → Type 0) where
    Post-and_then :
        (r : Outcome A × Istream S) (k : A → Istream S → Outcome B × Istream S)
        → Post P (r.0)
        → ((a : A) → P a → (s : Istream S) → Post Q ((k a s).0))
        → Post Q ((and_then r k).0)
    Post-and_then (got a, s) k p h = h a p s
    Post-and_then (failed, s) k p h = tt
    Post-and_then (stuck, s) k p h = tt

  module _ {A : Type 0} (P : A → Type 0) where
    Post-if :
        (c : Bool) (x y : Outcome A × Istream S)
        → Post P (x.0)
        → Post P (y.0)
        → Post P ((if c then x else y).0)
    Post-if true x y hx hy = hx
    Post-if false x y hx hy = hy

    Post-if_at :
        (c : Bool) (x y : Istream S → Outcome A × Istream S) (s : Istream S)
        → Post P ((x s).0)
        → Post P ((y s).0)
        → Post P (((if c then x else y) s).0)
    Post-if_at true x y s hx hy = hx
    Post-if_at false x y s hx hy = hy

  Word-pb_readbyte : (s : Istream S) → Post (λ b. b < 256) ((pb_readbyte s).0)
  unfolding pb_readbyte first_byte
  Word-pb_readbyte s =
      Post-if (λ b. b < 256) (s.bytes_left == 0) _ _ tt
        (Post-and_then (λ bytes. Unit) (λ b. b < 256) (call_source 1 s) _ (Post-all (λ a. tt) _)
          λ bytes p s'. below bytes)
    where
      below : (bytes : List ℕ) → first_byte bytes < 256
      below [] = omega arith
      below (b ∷ bytes) = omega arith

  Word-varint32_loop :
      (fuel result bitpos : ℕ) (s : Istream S)
      → result < 2 ^ 32
      → Word ((varint32_loop fuel result bitpos s).0)
  unfolding varint32_loop
  Word-varint32_loop zero result bitpos s h = tt
  Word-varint32_loop (suc fuel) result bitpos s h =
      Post-and_then (λ b. Unit) (λ v. v < 2 ^ 32) (pb_readbyte s) _ (Post-all (λ a. tt) _)
        λ byte p s'.
          let next =
            kept (leb 32 bitpos) result (or_group 32 result byte bitpos) h
              (or_group-lt result byte bitpos h) in
          Post-if_at (λ v. v < 2 ^ 32) (leb 32 bitpos && bad_extension result byte bitpos) _ _ s' tt
            (Post-if_at (λ v. v < 2 ^ 32) (continues byte) _ _ s'
              (Word-varint32_loop fuel _ (next_bitpos bitpos) s' next)
              (Post-if_at (λ v. v < 2 ^ 32) (check_last _ byte (next_bitpos bitpos)) _ _ s' tt
                next))
    where
      kept : (c : Bool) (x y : ℕ) → x < 2 ^ 32 → y < 2 ^ 32 → (if c then x else y) < 2 ^ 32
      kept true x y hx hy = hx
      kept false x y hx hy = hy

  Word-varint32_rest : (byte : ℕ) (s : Istream S) → byte < 256 → Word ((varint32_rest byte s).0)
  unfolding varint32_rest
  Word-varint32_rest byte s h =
      Post-if (λ v. v < 2 ^ 32) (bit_and byte 0x80 == 0) _ _ (omega arith)
        (Word-varint32_loop (s.bytes_left + 1) (bit_and byte 0x7f) 7 s
          (omega (arith, bit_and_127 byte)))

  -- The tag is a word without its three low bits.
  pub tag-small : (s : Istream S) → Post (λ (wt : ℕ × ℕ). wt.1 < 2 ^ 32 - 1) ((pb_decode_tag s).0.0)
  unfolding pb_decode_tag pb_decode_varint32_eof split_tag
  tag-small s = rw (after_word-bind (after_first (pb_readbyte s))) (
      Post-and_then (λ v. v < 2 ^ 32) (λ (wt : ℕ × ℕ). wt.1 < 2 ^ 32 - 1)
        ((after_first (pb_readbyte s)).0) _
        (rw (after_first-bind (pb_readbyte s)) (
          Post-and_then (λ b. b < 256) (λ v. v < 2 ^ 32) (pb_readbyte s) varint32_rest
            (Word-pb_readbyte s) λ byte lt s'. Word-varint32_rest byte s' lt))
        λ temp lt s'. split temp lt s' (temp == 0))
    where
      split :
          (temp : ℕ)
          → temp < 2 ^ 32
          → (s : Istream S) (c : Bool)
          → Post
              (λ (wt : ℕ × ℕ). wt.1 < 2 ^ 32 - 1)
              ((if◌then◌else◌ {A = (Outcome (ℕ × ℕ) × Istream S) × Bool} c
                ((failed, s), true)
                ((got (bit_and temp 7, temp / 2 ^ 3), s), false)).0.0)
      split temp lt s true = tt
      split temp lt s false = omega arith
