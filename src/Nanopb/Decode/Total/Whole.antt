-- ===== src/Nanopb/Decode/Total/Whole.antt =====
-- MovieDBApp/Pods/nanopb/pb_decode.c: the end of pb_dec_submessage, of PB_DECODERS, and of
-- pb_decode by recursion on the nesting.
use prj_movie_dbapp.Prelude.{
  ℕ, zero, suc, ◌+◌, ◌≤◌, ◌<◌, ◌≡◌, refl, Bool, true, false, Option, List, arith, ◌==◌,
  if◌then◌else◌, length,
}
use prj_movie_dbapp.Nanopb.Field.Ltype
use prj_movie_dbapp.Nanopb.Field.Htype
use prj_movie_dbapp.Nanopb.Field.{
  Field, Memory, Message, pb_ltype, pb_htype, invalid_field_descriptor,
}
use prj_movie_dbapp.Nanopb.Istream.{Istream, Outcome, got, failed, stuck}
use prj_movie_dbapp.Nanopb.Decode.Primitive.{pb_make_string_substream}
use prj_movie_dbapp.Nanopb.Decode.Bounds.{stream}
use prj_movie_dbapp.Nanopb.Decode.Scalar.{Loaded}
use prj_movie_dbapp.Nanopb.Decode.Action.{Action, Env, return_error, and_do, close_after}
use prj_movie_dbapp.Nanopb.Decode.Message.{
  MessageDecoder, pb_dec_submessage, pb_decoders, decode_with, pb_decode_noinit, pb_decode,
}
use prj_movie_dbapp.Nanopb.Decode.Total.{Halts, Settles}
use prj_movie_dbapp.Nanopb.Decode.Total.Rules.{Settles-if, Settles-cond, Settles-same}
use prj_movie_dbapp.Nanopb.Decode.Total.Shrinks.{Shrinks}
use prj_movie_dbapp.Nanopb.Decode.Total.Fields.{
  Shrinks-pb_dec_varint, Shrinks-pb_dec_uvarint, Shrinks-pb_dec_svarint, Shrinks-pb_dec_fixed32,
  Shrinks-pb_dec_fixed64, Settles-pb_dec_bytes, Settles-pb_dec_string,
  Settles-pb_dec_fixed_length_bytes,
}
use prj_movie_dbapp.Nanopb.Decode.Total.Updates.{Acyclic}
use prj_movie_dbapp.Nanopb.Decode.Total.Substream.{
  Within-parent, Settles-substream, Closes, Closes-close_after,
}
use prj_movie_dbapp.Nanopb.Decode.Total.Knowns.{Decodes}
use prj_movie_dbapp.Nanopb.Decode.Total.Messages.{Settles-noinit_with, Settles-decode_with}

Shrinks-if :
    (c : Bool) {f g : Action (List ℕ) (Unit {0})}
    → Shrinks f
    → (c ≡ false → Shrinks g)
    → Shrinks (if c then f else g)
Shrinks-if true hf hg = hf
Shrinks-if false hf hg = hg refl

module _ (env : Env) (rank : ℕ → ℕ) (acyclic : Acyclic env.descriptors rank)
    (bounded : (a : ℕ) → rank a < env.bound) where
  -- What pb_dec_submessage does after it ran on the substream.
  finish_submessage : ℕ → Loaded (List ℕ) → Istream (List ℕ) → Loaded (List ℕ)
  finish_submessage ptr r s =
      if ptr == 0 then return_error invalid_field_descriptor (r.1) s else close_after r s

  Closes-finish_submessage : (ptr : ℕ) → Closes (finish_submessage ptr)
  unfolding finish_submessage
  Closes-finish_submessage ptr = record {
    closes = λ r rest size left err h. either (ptr == 0) r rest size left err h;
  }
    where
      either :
          (c : Bool) (r : Loaded (List ℕ)) (rest : List ℕ) (size left : ℕ) (err : Option Message)
          → Halts rest size (r.0)
          → Halts rest (size + left) (
              (if c
                then return_error invalid_field_descriptor (r.1) (stream rest left err)
                else close_after r (stream rest left err)).0)
      either true r rest size left err h = (refl, Within-parent rest size left _)
      either false r rest size left err h = Closes-close_after.closes r rest size left err h

  module _ (depth : ℕ) (inner : MessageDecoder (List ℕ))
      (hi : (b dest : ℕ) → rank b < depth → Settles (inner b dest)) where
    Settles-pb_dec_submessage :
        (field : Field) (dest : ℕ)
        → rank field.ptr < depth
        → Settles (pb_dec_submessage (decode_with env inner) inner field dest)
    unfolding pb_dec_submessage finish_submessage
    Settles-pb_dec_submessage field dest h =
        Settles-same (λ m s. same m (pb_make_string_substream s))
          (Settles-substream (λ substream m s. body m s)
            (λ m rest size err le.
              (Settles-cond (pb_htype field.type == Htype.repeated)
                  (λ repeated.
                    Settles-decode_with env rank acyclic bounded inner field.ptr dest
                      (hi field.ptr dest h))
                  λ single. hi field.ptr dest h).run
                m rest size err le)
            (Closes-finish_submessage field.ptr))
      where
        body : Action (List ℕ) (Unit {0})
        body m s =
            if pb_htype field.type == Htype.repeated
            then decode_with env inner field.ptr dest m s
            else inner field.ptr dest m s

        either :
            (c : Bool) (r : Loaded (List ℕ)) (m : Memory) (s : Istream (List ℕ))
            → (if c
                then return_error {A = Unit {0}} invalid_field_descriptor m s
                else close_after r s).0
              ≡ (if c then return_error invalid_field_descriptor (r.1) s else close_after r s).0
        either true r m s = refl
        either false r m s = refl

        same :
            (m : Memory) (r : Outcome (Istream (List ℕ)) × Istream (List ℕ))
            → (and_do
                (r, m)
                λ substream m s.
                  if field.ptr == 0
                  then return_error {A = Unit {0}} invalid_field_descriptor m s
                  else close_after (body m substream) s).0
              ≡ (and_do (r, m) λ substream m s. finish_submessage field.ptr (body m substream) s).0
        same m (got substream, s) = either (field.ptr == 0) (body m substream) m s
        same m (failed, s) = refl
        same m (stuck, s) = refl

    Decodes-pb_decoders :
        (a : ℕ)
        → rank a < suc depth
        → Decodes rank a (pb_decoders (decode_with env inner) inner env)
    unfolding pb_decoders
    Decodes-pb_decoders a h = record {
      ends = λ field dest g.
          let t = pb_ltype field.type in
          Settles-if (t == Ltype.varint) (λ e. (Shrinks-pb_dec_varint field dest).settles)
            λ n0.
              Settles-if (t == Ltype.uvarint) (λ e. (Shrinks-pb_dec_uvarint field dest).settles)
                λ n1.
                  Settles-if (t == Ltype.svarint) (λ e. (Shrinks-pb_dec_svarint field dest).settles)
                    λ n2.
                      Settles-if (t == Ltype.fixed32)
                        (λ e. (Shrinks-pb_dec_fixed32 field dest).settles)
                        λ n3.
                          Settles-if (t == Ltype.fixed64)
                            (λ e. (Shrinks-pb_dec_fixed64 field dest).settles)
                            λ n4.
                              Settles-if (t == Ltype.bytes)
                                (λ e. Settles-pb_dec_bytes env.realloc field dest)
                                λ n5.
                                  Settles-if (t == Ltype.string)
                                    (λ e. Settles-pb_dec_string env.realloc field dest)
                                    λ n6.
                                      Settles-if (t == Ltype.submessage)
                                        (λ e.
                                          Settles-pb_dec_submessage field dest
                                            (omega (arith, g.deeper e, h)))
                                        λ n7.
                                          Settles-if (t == Ltype.fixed_length_bytes)
                                            (λ e. Settles-pb_dec_fixed_length_bytes field dest)
                                            λ n9. absurd (ground (arith, g.known, g.no_extension));
      shrinks = λ field dest small.
          let t = pb_ltype field.type in
          Shrinks-if (t == Ltype.varint) (Shrinks-pb_dec_varint field dest) λ n0.
            Shrinks-if (t == Ltype.uvarint) (Shrinks-pb_dec_uvarint field dest) λ n1.
              Shrinks-if (t == Ltype.svarint) (Shrinks-pb_dec_svarint field dest) λ n2.
                Shrinks-if (t == Ltype.fixed32) (Shrinks-pb_dec_fixed32 field dest) λ n3.
                  Shrinks-if (t == Ltype.fixed64) (Shrinks-pb_dec_fixed64 field dest)
                    λ n4. absurd (ground arith);
    }

  Settles-pb_decode_noinit :
      (depth fields dest : ℕ)
      → rank fields < depth
      → Settles (pb_decode_noinit env depth fields dest)
  unfolding pb_decode_noinit
  Settles-pb_decode_noinit zero fields dest h = absurd (omega arith)
  Settles-pb_decode_noinit (suc depth) fields dest h =
      Settles-noinit_with env rank acyclic bounded fields
        (pb_decoders (decode_with env (pb_decode_noinit env depth)) (pb_decode_noinit env depth)
          env)
        (Decodes-pb_decoders depth (pb_decode_noinit env depth) (Settles-pb_decode_noinit depth)
          fields h)
        (env.frame depth) dest

-- On a buffer that holds at least `bytes_left` bytes, for descriptors without callbacks and
-- extensions whose types are known, whose pointers have a size and whose submessages have a
-- smaller rank than the message that they are part of, pb_decode returns true or false, whatever
-- the memory holds and whatever pb_realloc and pb_free do, if `depth` is above the rank of the
-- message and the bound of `env` above all ranks. The stream is left behind bytes of the buffer
-- that are, with what it may still read, at most `bytes_left`.
pub pb_decode-Halts :
    (env : Env) (rank : ℕ → ℕ) (depth fields dest : ℕ) (m : Memory) (input : List ℕ) (left : ℕ)
    (err : Option Message)
    → Acyclic env.descriptors rank
    → ((a : ℕ) → rank a < env.bound)
    → rank fields < depth
    → left ≤ length input
    → Halts input left ((pb_decode env depth fields dest m (stream input left err)).0)
unfolding pb_decode
pb_decode-Halts env rank depth fields dest m input left err acyclic bounded deep h =
    (Settles-decode_with env rank acyclic bounded (pb_decode_noinit env depth) fields dest
        (Settles-pb_decode_noinit env rank acyclic bounded depth fields dest deep)).run
      m input left err h
