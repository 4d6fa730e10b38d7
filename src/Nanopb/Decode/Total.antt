-- ===== src/Nanopb/Decode/Total.antt =====
-- MovieDBApp/Pods/nanopb/pb_decode.c: the end of the functions of the message decoder on a
-- buffer, and how far they read. Its notions, and in the children the rules for the monad and the
-- functions.
pub mod Rules
pub mod Binds
pub mod Shrinks
pub mod Fields
pub mod Updates
pub mod Releases
pub mod Substream
pub mod Items
pub mod Below
pub mod Pointers
pub mod Knowns
pub mod Tags
pub mod Rounds
pub mod Messages
pub mod Whole
pub mod Delimited
use prj_movie_dbapp.Prelude.{
  ℕ, suc, ◌+◌, ◌-◌, ◌≤◌, ◌<◌, ◌≡◌, refl, sym, ap, ◌∙◌, Bool, true, false, Option, none, some, List,
  [], ◌++◌, append_assoc, arith, if◌then◌else◌, length, length-append,
}
use mathlib.Core.Path.{subst}
use prj_movie_dbapp.Nanopb.Field.{Memory, Message}
use prj_movie_dbapp.Nanopb.Istream.{Istream, Outcome, got, failed, stuck, Decoder, and_then}
use prj_movie_dbapp.Nanopb.Decode.Bounds.{
  stream, Advanced, Ends, ended, Steady, Steady-pure, Steady-return_error,
}
use prj_movie_dbapp.Nanopb.Decode.Action.{
  Action, Update, pure, return_error, on_stream, on_memory, modify, apply_update, and_do, ◌>>=◌,
}

-- The stream `s` was reached from `stream input left`: `pre` was read, and what it may still read
-- was left to read at the start too.
pub record Within (input : List ℕ) (left : ℕ) (s : Istream (List ℕ)) : Type 0 where
  pub pre : List ℕ
  pub rest : List ℕ
  pub count : ℕ
  pub err : Option Message
  pub split : input ≡ pre ++ rest
  pub covered : length pre + count ≤ left
  pub now : s ≡ stream rest count err

-- The run returned true or false, and read within the count of its stream.
abbrev pub Halts : {A : Type 0} → List ℕ → ℕ → Outcome A × Istream (List ℕ) → Type 0
Halts input left r = (ended (r.0) ≡ true) × Within input left (r.1)

-- The action ends on every buffer and in every memory, and reads within the stream's count.
pub record Settles {A : Type 0} (f : Action (List ℕ) A) : Type 0 where
  pub run :
      (m : Memory) (input : List ℕ) (left : ℕ) (err : Option Message)
      → left ≤ length input
      → Halts input left ((f m (stream input left err)).0)

-- The same where fewer than `bound` bytes are left.
pub record SettlesBelow {A : Type 0} (bound : ℕ) (f : Action (List ℕ) A) : Type 0 where
  pub run_below :
      (m : Memory) (input : List ℕ) (left : ℕ) (err : Option Message)
      → left ≤ length input
      → left < bound
      → Halts input left ((f m (stream input left err)).0)

abbrev pub is_got : {A : Type 0} → Outcome A → Bool
is_got (got a) = true
is_got failed = false
is_got stuck = false

-- If the run succeeded, fewer bytes are left.
abbrev pub Less : {A : Type 0} → ℕ → Outcome A × Istream (List ℕ) → Type 0
Less left r = is_got (r.0) ≡ true → (r.1).bytes_left < left

-- What a success gives back has the property.
abbrev pub Post {κ} : {A : Type 0} → (A → Type κ) → Outcome A → Type κ
Post P (got a) = P a
Post P failed = Unit
Post P stuck = Unit

pub record Yields {A : Type 0} (P : A → Type 0) (f : Action (List ℕ) A) : Type 0 where
  pub yields : (m : Memory) (s : Istream (List ℕ)) → Post P ((f m s).0.0)

module _ {A : Type 0} {Q : A → Type 0} where
  pub Post-all : ((a : A) → Q a) → (o : Outcome A) → Post Q o
  Post-all h (got a) = h a
  Post-all h failed = tt
  Post-all h stuck = tt

  pub Post-map : {P : A → Type 0} → ((a : A) → P a → Q a) → (o : Outcome A) → Post P o → Post Q o
  Post-map h (got a) p = h a p
  Post-map h failed p = tt
  Post-map h stuck p = tt

abbrev pub is_done : Option Memory → Bool
is_done none = false
is_done (some m) = true

-- The update is not stopped by its bound.
pub record Total (f : Update) : Type 0 where
  pub done : (m : Memory) → is_done (f m) ≡ true

pub Within-here :
    (input : List ℕ) (left : ℕ) (err : Option Message) → Within input left (stream input left err)
Within-here input left err = record {
  pre = [];
  rest = input;
  count = left;
  err = err;
  split = refl;
  covered = omega arith;
  now = refl;
}

pub Within-Advanced :
    {input : List ℕ} {left : ℕ} {s : Istream (List ℕ)} → Advanced input left s → Within input left s
Within-Advanced {left = left} adv = record {
  pre = adv.pre;
  rest = adv.rest;
  count = left - length adv.pre;
  err = adv.err;
  split = adv.split;
  covered = omega (arith, adv.within);
  now = adv.now;
}

-- First up to `mid`, and then on from there.
pub Within-trans :
    {input : List ℕ} {left : ℕ} {mid s : Istream (List ℕ)} (w : Within input left mid)
    → Within w.rest w.count s
    → Within input left s
Within-trans w v = record {
  pre = w.pre ++ v.pre;
  rest = v.rest;
  count = v.count;
  err = v.err;
  split = w.split ∙ (ap (λ k. w.pre ++ k) v.split ∙ sym (append_assoc w.pre v.pre v.rest));
  covered = omega (arith, length-append w.pre v.pre, w.covered, v.covered);
  now = v.now;
}

-- A stream within a buffer that holds its count has what its count says.
pub Within-holds :
    {input : List ℕ} {left : ℕ} {s : Istream (List ℕ)} (w : Within input left s)
    → left ≤ length input
    → w.count ≤ length w.rest
Within-holds w h = omega (arith, h, w.covered, length-append w.pre w.rest, ap length w.split)
