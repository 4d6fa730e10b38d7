-- ===== src/Nanopb/Decode/Total/Substream.antt =====
-- MovieDBApp/Pods/nanopb/pb_decode.c: the end of what runs on a substream and closes it.
use prj_movie_dbapp.Prelude.{
  ℕ, ◌+◌, ◌-◌, ◌≤◌, ◌≡◌, refl, sym, ap, ◌∙◌, Bool, true, false, not, Option, some, List, [], ◌++◌,
  append_assoc, arith, ltb, ◌==◌, if◌then◌else◌, length, length-append, length-take, take, drop,
  take-append-drop,
}
use mathlib.Core.Path.{subst}
use prj_movie_dbapp.Nanopb.Field.{
  Memory, Message, set_error, parent_stream_too_short, array_overflow, too_many_array_entries,
}
use prj_movie_dbapp.Nanopb.Istream.{Istream, Outcome, got, failed, stuck, and_then}
use prj_movie_dbapp.Nanopb.Decode.Varint.{pb_decode_varint32}
use prj_movie_dbapp.Nanopb.Decode.Primitive.{
  split_stream, pb_make_string_substream, pb_close_string_substream,
}
use prj_movie_dbapp.Nanopb.Decode.Bounds.{stream, Ends}
use prj_movie_dbapp.Nanopb.Decode.Bounds.Fields.{Steady-pb_decode_varint32}
use prj_movie_dbapp.Nanopb.Decode.Bounds.Substream.{close_rest}
use prj_movie_dbapp.Nanopb.Decode.Scalar.{Loaded}
use prj_movie_dbapp.Nanopb.Decode.Action.{Action, and_do, on_stream, ◌>>=◌, close_after}
use prj_movie_dbapp.Nanopb.Decode.Static.{check_overflow}
use prj_movie_dbapp.Nanopb.Decode.Pointer.{close_items}
use prj_movie_dbapp.Nanopb.Decode.Total.{
  Within, Within-here, Within-Advanced, Within-trans, Within-holds, Halts, Settles,
}

-- The stream that a substream of `size` bytes was split off from.
pub Within-parent :
    (rest : List ℕ) (size left : ℕ) (err : Option Message)
    → Within rest (size + left) (stream rest left err)
Within-parent rest size left err = record {
  pre = [];
  rest = rest;
  count = left;
  err = err;
  split = refl;
  covered = omega arith;
  now = refl;
}

Within-close :
    (rest : List ℕ) (size left : ℕ) (err : Option Message) (substream : Istream (List ℕ))
    → Within rest size substream
    → Halts rest (size + left) (pb_close_string_substream substream (stream rest left err))
Within-close rest size left err substream w =
    subst (λ t. Halts rest (size + left) (pb_close_string_substream t (stream rest left err)))
      (sym w.now)
      (subst (Halts rest (size + left)) (sym (close_rest w.rest rest w.count left err w.err))
        (refl, behind))
  where
    behind : Within rest (size + left) (stream (drop w.count w.rest) left w.err)
    behind = record {
      pre = w.pre ++ take w.count w.rest;
      rest = drop w.count w.rest;
      count = left;
      err = w.err;
      split =
          w.split
          ∙ (ap (λ k. w.pre ++ k) (sym (take-append-drop w.count w.rest))
              ∙ sym (append_assoc w.pre (take w.count w.rest) (drop w.count w.rest)));
      covered =
          omega (
            arith,
            length-append w.pre (take w.count w.rest),
            length-take w.count w.rest,
            w.covered,
          );
      now = refl;
    }

-- How a function goes on after it has run on a substream: from what the run did, it ends and stays
-- within the stream.
pub record Closes {X : Type 0}
    (finish : (Outcome X × Istream (List ℕ)) × Memory → Istream (List ℕ) → Loaded (List ℕ))
    : Type 0 where
  pub closes :
      (r : (Outcome X × Istream (List ℕ)) × Memory) (rest : List ℕ) (size left : ℕ)
      (err : Option Message)
      → Halts rest size (r.0)
      → Halts rest (size + left) ((finish r (stream rest left err)).0)

pub Closes-close_after : Closes close_after
unfolding close_after
Closes-close_after = record { closes = close }
  where
    fails :
        (input : List ℕ) (left : ℕ) (r : Outcome (Unit {0}) × Istream (List ℕ))
        → Halts input left r
        → Halts {A = Unit {0}} input left (and_then r (λ u s. (failed, s)))
    fails input left (got u, s) h = h
    fails input left (failed, s) h = h
    fails input left (stuck, s) h = absurd (cc)

    close :
        (r : Loaded (List ℕ)) (rest : List ℕ) (size left : ℕ) (err : Option Message)
        → Halts rest size (r.0)
        → Halts rest (size + left) ((close_after r (stream rest left err)).0)
    close ((got u, sub), m) rest size left err h = Within-close rest size left err sub (h.1)
    close ((failed, sub), m) rest size left err h =
        fails rest (size + left) _ (Within-close rest size left err sub (h.1))
    close ((stuck, sub), m) rest size left err h = absurd (cc)

pub Closes-check_overflow : Closes check_overflow
unfolding check_overflow
Closes-check_overflow = record { closes = close }
  where
    either :
        (b : Bool) (rest : List ℕ) (size left : ℕ) (err : Option Message) (m : Memory)
        (x : Loaded (List ℕ))
        → Halts rest (size + left) (x.0)
        → Halts rest (size + left) (
            (if◌then◌else◌ {A = Loaded (List ℕ)} b
              ((failed, stream rest left (set_error err array_overflow)), m)
              x).0)
    either true rest size left err m x h = (refl, Within-parent rest size left _)
    either false rest size left err m x h = h

    close :
        (r : Loaded (List ℕ)) (rest : List ℕ) (size left : ℕ) (err : Option Message)
        → Halts rest size (r.0)
        → Halts rest (size + left) ((check_overflow r (stream rest left err)).0)
    close ((got u, sub), m) rest size left err h =
        either (not (sub.bytes_left == 0)) rest size left err m _
          (Closes-close_after.closes ((got u, sub), m) rest size left err h)
    close ((failed, sub), m) rest size left err h =
        either (not (sub.bytes_left == 0)) rest size left err m _
          (Closes-close_after.closes ((failed, sub), m) rest size left err h)
    close ((stuck, sub), m) rest size left err h = absurd (cc)

pub Closes-close_items : Closes close_items
unfolding close_items
Closes-close_items = record { closes = close }
  where
    close :
        (r : (Outcome Bool × Istream (List ℕ)) × Memory) (rest : List ℕ) (size left : ℕ)
        (err : Option Message)
        → Halts rest size (r.0)
        → Halts rest (size + left) ((close_items r (stream rest left err)).0)
    close ((got true, sub), m) rest size left err h =
        Closes-close_after.closes ((got tt, sub), m) rest size left err h
    close ((got false, sub), m) rest size left err h =
        Closes-close_after.closes ((failed, sub), m) rest size left (some too_many_array_entries)
          (refl, h.1)
    close ((failed, sub), m) rest size left err h =
        Closes-close_after.closes ((failed, sub), m) rest size left err h
    close ((stuck, sub), m) rest size left err h = absurd (cc)

-- A function that reads the length of a substream, runs on it, and closes it.
pub Settles-substream :
    {X : Type 0} (body : Istream (List ℕ) → Action (List ℕ) X)
    {finish : (Outcome X × Istream (List ℕ)) × Memory → Istream (List ℕ) → Loaded (List ℕ)}
    → ((m : Memory) (rest : List ℕ) (size : ℕ) (err : Option Message)
        → size ≤ length rest
        → Halts rest size ((body (stream rest size err) m (stream rest size err)).0))
    → Closes finish
    → Settles (
        on_stream pb_make_string_substream >>= λ substream m s.
        finish (body substream m substream) s)
unfolding pb_make_string_substream split_stream
Settles-substream {X} body {finish} hb hf = record {
  run = λ m input left err h.
      after m input left (pb_decode_varint32 (stream input left err)) h
        (Steady-pb_decode_varint32.run input left err h);
}
  where
    k : Istream (List ℕ) → Action (List ℕ) (Unit {0})
    k substream m s = finish (body substream m substream) s

    split :
        (m : Memory) (rest : List ℕ) (size count : ℕ) (err : Option Message)
        → count ≤ length rest
        → (b : Bool) → ltb count size ≡ b
        → Halts rest count (
            (and_do
              (
                if◌then◌else◌ {A = Outcome (Istream (List ℕ)) × Istream (List ℕ)} b
                    (failed, stream rest count (set_error err parent_stream_too_short))
                    (got (stream rest size err), stream rest (count - size) err),
                m,
              )
              k).0)
    split m rest size count err h true e = (refl, Within-here rest count _)
    split m rest size count err h false e =
        subst (λ n. Halts rest n ((k (stream rest size err) m (stream rest (count - size) err)).0))
          {x = size + (count - size)} (ground arith)
          (hf.closes (body (stream rest size err) m (stream rest size err)) rest size (count - size)
            err (hb m rest size err (ground arith)))

    after :
        (m : Memory) (input : List ℕ) (left : ℕ) (r : Outcome ℕ × Istream (List ℕ))
        → left ≤ length input
        → Ends input left r
        → Halts input left ((and_do (and_then r λ size. split_stream size, m) k).0)
    after m input left (got size, s) h e =
        let w = Within-Advanced (e.1) in
        let next = split m w.rest size w.count w.err (Within-holds w h) (ltb w.count size) refl in
        subst (λ t. Halts input left ((and_do (split_stream size t, m) k).0)) (sym w.now)
          (next.0, Within-trans w (next.1))
    after m input left (failed, s) h e = (refl, Within-Advanced (e.1))
    after m input left (stuck, s) h e = absurd (cc)
