-- ===== src/Nanopb/Decode/Bounds.antt =====
-- MovieDBApp/Pods/nanopb/pb_decode.c: when a decoder ends on every buffer, and reads within
-- `bytes_left`. The rules for the decoder's building blocks.
pub mod Loops
pub mod Fields
pub mod Substream
use prj_movie_dbapp.Prelude.{
  ℕ, zero, suc, ◌+◌, ◌-◌, ◌*◌, ◌/◌, ◌%◌, ◌^◌, ◌≤◌, ◌<◌, ◌≡◌, ◌≢◌, refl, sym, ap, ◌∙◌, Bool, true,
  false, not, Bool-cases, inl, inr, Option, none, some, List, [], ◌∷◌, ◌++◌, suc, append_assoc,
  arith, ltb, leb, ◌==◌, if◌then◌else◌, length, length-append, take, drop, take-append-drop,
  length-take, dec_lt,
}
use prj_movie_dbapp.Nanopb.Field.{Message, set_error}
use mathlib.Core.Path.{subst}
use prj_movie_dbapp.Nanopb.Istream.{
  Istream, Outcome, got, failed, stuck, Decoder, and_then, ◌>>=◌, ◌>>◌, pure, return_error,
  buf_read, call_source, read_bytes, skip_bytes, pb_read, pb_readbyte, first_byte,
}

-- A stream over a buffer, with any error noted.
abbrev pub stream : List ℕ → ℕ → Option Message → Istream (List ℕ)
stream input left err = record {
  callback = record { is_buf_read = true; read = buf_read };
  state = input;
  bytes_left = left;
  errmsg = err;
}

-- The stream `s` was reached from `stream input left` by reading `pre`, within its count.
pub record Advanced (input : List ℕ) (left : ℕ) (s : Istream (List ℕ)) : Type 0 where
  pub pre : List ℕ
  pub rest : List ℕ
  pub err : Option Message
  pub split : input ≡ pre ++ rest
  pub within : length pre ≤ left
  pub now : s ≡ stream rest (left - length pre) err

abbrev pub ended : {A : Type 0} → Outcome A → Bool
ended (got a) = true
ended failed = true
ended stuck = false

-- The run ended, and read within its count.
abbrev pub Ends : {A : Type 0} → List ℕ → ℕ → Outcome A × Istream (List ℕ) → Type 0
Ends input left r = (ended (r.0) ≡ true) × Advanced input left (r.1)

-- The decoder ends on every buffer that holds what its count says.
pub record Steady {A : Type 0} (m : Decoder (List ℕ) A) : Type 0 where
  pub run :
      (input : List ℕ) (left : ℕ) (err : Option Message)
      → left ≤ length input
      → Ends input left (m (stream input left err))

-- The decoder ends where, besides, fewer than `bound` bytes are left.
pub record SteadyBelow {A : Type 0} (bound : ℕ) (m : Decoder (List ℕ) A) : Type 0 where
  pub run_below :
      (input : List ℕ) (left : ℕ) (err : Option Message)
      → left ≤ length input
      → left < bound
      → Ends input left (m (stream input left err))

pub Advanced-here :
    (input : List ℕ) (left : ℕ) (err : Option Message) → Advanced input left (stream input left err)
Advanced-here input left err = record {
  pre = [];
  rest = input;
  err = err;
  split = refl;
  within = omega arith;
  now = ap (λ k. stream input k err) (minus_zero left);
}
  where
    minus_zero : (n : ℕ) → n ≡ n - 0
    minus_zero n = omega arith

-- Reading `pre`, and then what a later run reads.
Advanced-append :
    (pre rest : List ℕ) (left : ℕ) (s : Istream (List ℕ))
    → length pre ≤ left
    → Advanced rest (left - length pre) s
    → Advanced (pre ++ rest) left s
Advanced-append pre rest left s h a = record {
  pre = pre ++ a.pre;
  rest = a.rest;
  err = a.err;
  split = ap (λ k. pre ++ k) a.split ∙ sym (append_assoc pre a.pre a.rest);
  within = omega (arith, length-append pre a.pre, a.within);
  now = a.now ∙ ap (λ k. stream a.rest k a.err) (omega (arith, length-append pre a.pre, a.within));
}

module _ {A : Type 0} where
  pub Ends-append :
      (pre rest : List ℕ) (left : ℕ) (r : Outcome A × Istream (List ℕ))
      → length pre ≤ left
      → Ends rest (left - length pre) r
      → Ends (pre ++ rest) left r
  Ends-append pre rest left r h e = (e.0, Advanced-append pre rest left (r.1) h (e.1))

  -- A run after one byte was read.
  pub Ends-byte :
      (b : ℕ) (rest : List ℕ) (left : ℕ) (r : Outcome A × Istream (List ℕ))
      → Ends rest left r
      → Ends (b ∷ rest) (suc left) r
  Ends-byte b rest left r e =
      Ends-append (b ∷ []) rest (suc left) r (omega arith)
        (subst (λ n. Ends rest n r) (one_less left) e)
    where
      one_less : (n : ℕ) → n ≡ suc n - 1
      one_less n = omega arith

  pub Steady-pure : (a : A) → Steady (pure {S = List ℕ} a)
  Steady-pure a = record { run = λ input left err h. (refl, Advanced-here input left err) }

  pub Steady-return_error : (m : Message) → Steady (return_error {S = List ℕ} {A = A} m)
  Steady-return_error m = record {
    run = λ input left err h. (refl, Advanced-here input left (set_error err m));
  }

  pub Steady-if :
      (c : Bool) {m n : Decoder (List ℕ) A} → Steady m → Steady n → Steady (if c then m else n)
  Steady-if true hm hn = hm
  Steady-if false hm hn = hn

  -- The second branch is run where the test fails.
  pub Steady-else :
      (c : Bool) {m n : Decoder (List ℕ) A}
      → Steady m
      → (c ≡ false → Steady n)
      → Steady (if c then m else n)
  Steady-else true hm hn = hm
  Steady-else false hm hn = hn refl

  pub SteadyBelow-if :
      {bound : ℕ} (c : Bool) {m n : Decoder (List ℕ) A}
      → SteadyBelow bound m
      → SteadyBelow bound n
      → SteadyBelow bound (if c then m else n)
  SteadyBelow-if true hm hn = hm
  SteadyBelow-if false hm hn = hn

  pub SteadyBelow-Steady : {bound : ℕ} {m : Decoder (List ℕ) A} → Steady m → SteadyBelow bound m
  SteadyBelow-Steady hm = record { run_below = λ input left err h hb. hm.run input left err h }

module _ {A B : Type 0} where
  pub Ends-and_then :
      (k : A → Decoder (List ℕ) B) (input : List ℕ) (left : ℕ) (r : Outcome A × Istream (List ℕ))
      → ((a : A) → Steady (k a))
      → left ≤ length input
      → Ends input left r
      → Ends input left (and_then r k)
  Ends-and_then k input left (got a, s) hk h e =
      let adv = e.1 in
      let later = left - length adv.pre in
      subst (λ t. Ends input left (k a t)) (sym adv.now)
        (subst (λ i. Ends i left (k a (stream adv.rest later adv.err))) (sym adv.split)
          (Ends-append adv.pre adv.rest left (k a (stream adv.rest later adv.err)) adv.within (
            (hk a).run adv.rest later adv.err
              (omega (arith, h, adv.within, length-append adv.pre adv.rest, ap length adv.split)))))
  Ends-and_then k input left (failed, s) hk h e = (refl, e.1)
  Ends-and_then k input left (stuck, s) hk h e = absurd (cc)

  pub Steady->>= :
      {m : Decoder (List ℕ) A} {k : A → Decoder (List ℕ) B}
      → Steady m
      → ((a : A) → Steady (k a))
      → Steady (m >>= k)
  Steady->>= {m} {k} hm hk = record {
    run = λ input left err h.
        Ends-and_then k input left (m (stream input left err)) hk h (hm.run input left err h);
  }

pub ruleset steady_rules = (Steady-pure, Steady-return_error, Steady-if, Steady->>=)
