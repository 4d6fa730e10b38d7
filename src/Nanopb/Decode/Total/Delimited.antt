-- ===== src/Nanopb/Decode/Total/Delimited.antt =====
-- MovieDBApp/Pods/nanopb/pb_decode.c: messages that stand behind their length.
use prj_movie_dbapp.Prelude.{ℕ, ◌≤◌, ◌<◌, Option, List, length}
use prj_movie_dbapp.Nanopb.Field.{Memory, Message}
use prj_movie_dbapp.Nanopb.Decode.Bounds.{stream}
use prj_movie_dbapp.Nanopb.Decode.Action.{Env, close_after}
use prj_movie_dbapp.Nanopb.Decode.Message.{pb_decode, pb_decode_delimited}
use prj_movie_dbapp.Nanopb.Decode.Total.{Halts}
use prj_movie_dbapp.Nanopb.Decode.Total.Updates.{Acyclic}
use prj_movie_dbapp.Nanopb.Decode.Total.Substream.{Settles-substream, Closes-close_after}
use prj_movie_dbapp.Nanopb.Decode.Total.Whole.{pb_decode-Halts}

-- Under the conditions of pb_decode-Halts, namely a buffer that holds at least `bytes_left`
-- bytes, descriptors without callbacks and extensions whose types are known, whose pointers have
-- a size and whose submessages have a smaller rank than the message that they are part of,
-- `depth` above the rank of the message and the bound of `env` above all ranks,
-- pb_decode_delimited returns true or false, also where the length is longer than what is left.
-- The parent stream is left behind bytes of the buffer that are, with what it may still read, at
-- most `bytes_left`.
pub pb_decode_delimited-Halts :
    (env : Env) (rank : ℕ → ℕ) (depth fields dest : ℕ) (m : Memory) (input : List ℕ) (left : ℕ)
    (err : Option Message)
    → Acyclic env.descriptors rank
    → ((a : ℕ) → rank a < env.bound)
    → rank fields < depth
    → left ≤ length input
    → Halts input left ((pb_decode_delimited env depth fields dest m (stream input left err)).0)
unfolding pb_decode_delimited
pb_decode_delimited-Halts env rank depth fields dest m input left err acyclic bounded deep h =
    (Settles-substream (λ substream. pb_decode env depth fields dest) {finish = close_after}
        (λ m rest size err h.
          pb_decode-Halts env rank depth fields dest m rest size err acyclic bounded deep h)
        Closes-close_after).run
      m input left err h
