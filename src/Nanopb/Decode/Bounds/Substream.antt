-- ===== src/Nanopb/Decode/Bounds/Substream.antt =====
-- MovieDBApp/Pods/nanopb/pb_decode.c: a submessage is read through a substream, and the stream goes
-- on behind it.
use prj_movie_dbapp.Prelude.{
  ℕ, zero, suc, ◌-◌, ◌≤◌, ◌≡◌, refl, sym, ap, ◌∙◌, true, Option, List, [], ◌∷◌, ◌++◌, arith, length,
  take, drop,
}
use mathlib.Core.Path.{subst}
use prj_movie_dbapp.Nanopb.Field.{Message}
use prj_movie_dbapp.Nanopb.Istream.{Istream, got, skip_bytes, pb_read}
use prj_movie_dbapp.Nanopb.Decode.Primitive.{rejoin, pb_close_string_substream}
use prj_movie_dbapp.Nanopb.Decode.Bounds.{stream, Advanced}
use prj_movie_dbapp.Nanopb.Decode.Bounds.Loops.{read_bytes-full}

drop-append : (pre rest : List ℕ) → drop (length pre) (pre ++ rest) ≡ rest
drop-append [] rest = refl
drop-append (x ∷ pre) rest = drop-append pre rest

drop-past :
    (n : ℕ) (pre rest : List ℕ) → length pre ≤ n → drop n (pre ++ rest) ≡ drop (n - length pre) rest
drop-past n [] rest h = ap (λ k. drop k rest) (omega arith)
drop-past zero (x ∷ pre) rest h = absurd (omega arith)
drop-past (suc n) (x ∷ pre) rest h =
    drop-past n pre rest (omega arith) ∙ ap (λ k. drop k rest) (omega arith)

drop_none : (n : ℕ) (rest : List ℕ) → n ≡ 0 → drop n rest ≡ rest
drop_none n rest e = ap (λ k. drop k rest) e

pb_read-skip :
    (count : ℕ) (input : List ℕ) (err : Option Message)
    → pb_read true count (stream input count err)
      ≡ (got (take count input), stream (drop count input) 0 err)
unfolding pb_read skip_bytes
pb_read-skip count input err =
    rw (read_bytes-full count input count err (omega arith))
      (ap (λ k. (got (take count input), stream (drop count input) k err)) (none_left count))
  where
    none_left : (n : ℕ) → n - n ≡ 0
    none_left n = omega arith

-- What is left of a substream is skipped.
pub close_rest :
    (rest parent : List ℕ) (size left : ℕ) (err noted : Option Message)
    → pb_close_string_substream (stream rest size noted) (stream parent left err)
      ≡ (got tt, stream (drop size rest) left noted)
unfolding pb_close_string_substream rejoin
close_rest rest parent size left err noted =
    ground (arith, pb_read-skip size rest noted, drop_none size rest)

-- However much of a substream of a buffer was read, closing it succeeds and leaves the stream
-- directly behind the bytes of the substream, with its own count of what is left and the
-- substream's error.
pub close_substream-Advanced :
    (input : List ℕ) (size left : ℕ) (err : Option Message) (substream : Istream (List ℕ))
    → Advanced input size substream
    → pb_close_string_substream substream (stream input left err)
      ≡ (got tt, stream (drop size input) left substream.errmsg)
close_substream-Advanced input size left err substream adv =
    subst
      (λ t.
        pb_close_string_substream t (stream input left err)
        ≡ (got tt, stream (drop size input) left t.errmsg))
      (sym adv.now)
      (close_rest adv.rest input (size - length adv.pre) left err adv.err
        ∙ ap (λ d. (got tt, stream d left adv.err))
            (sym (ap (drop size) adv.split ∙ drop-past size adv.pre adv.rest adv.within)))
