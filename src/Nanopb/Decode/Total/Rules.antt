-- ===== src/Nanopb/Decode/Total/Rules.antt =====
-- MovieDBApp/Pods/nanopb/pb_decode.c: the end of returns, tests and changes of memory.
use prj_movie_dbapp.Prelude.{
  ℕ, ◌≤◌, ◌≡◌, refl, sym, Bool, true, false, Option, none, some, List, if◌then◌else◌, length,
}
use mathlib.Core.Path.{subst}
use prj_movie_dbapp.Nanopb.Field.{Memory, Message}
use prj_movie_dbapp.Nanopb.Istream.{Istream, Decoder}
use prj_movie_dbapp.Nanopb.Decode.Bounds.{stream, Steady, Steady-pure, Steady-return_error}
use prj_movie_dbapp.Nanopb.Decode.Action.{
  Action, Update, pure, return_error, on_stream, on_memory, modify, apply_update,
}
use prj_movie_dbapp.Nanopb.Decode.Total.{
  Settles, Yields, Halts, Post, Post-all, is_done, Total, Within-here, Within-Advanced,
}

module _ {A : Type 0} where
  pub Settles-on_stream : {d : Decoder (List ℕ) A} → Steady d → Settles (on_stream d)
  Settles-on_stream h = record {
    run = λ m input left err le. let e = h.run input left err le in (e.0, Within-Advanced (e.1));
  }

  pub Settles-pure : (a : A) → Settles (pure a)
  Settles-pure a = Settles-on_stream (Steady-pure a)

  -- An error, after the memory has changed.
  pub Settles-error_after :
      (e : Message) (g : Memory → Memory) → Settles {A = A} (λ m s. return_error e (g m) s)
  Settles-error_after e g = record {
    run = λ m. (Settles-on_stream (Steady-return_error {A = A} e)).run (g m);
  }

  pub Settles-return_error : (e : Message) → Settles {A = A} (return_error e)
  Settles-return_error e = Settles-on_stream (Steady-return_error e)

  -- With the facts of the branch.
  pub Settles-cond :
      (c : Bool) {f g : Action (List ℕ) A}
      → (c ≡ true → Settles f)
      → (c ≡ false → Settles g)
      → Settles (λ m s. if c then f m s else g m s)
  Settles-cond true hf hg = record { run = (hf refl).run }
  Settles-cond false hf hg = record { run = (hg refl).run }

  -- The same of actions.
  pub Settles-if :
      (c : Bool) {f g : Action (List ℕ) A}
      → (c ≡ true → Settles f)
      → (c ≡ false → Settles g)
      → Settles (if c then f else g)
  Settles-if true hf hg = hf refl
  Settles-if false hf hg = hg refl

  -- A test of the memory and the stream.
  pub Settles-test :
      (c : Memory → Istream (List ℕ) → Bool) {f g : Action (List ℕ) A}
      → Settles f
      → Settles g
      → Settles (λ m s. if c m s then f m s else g m s)
  Settles-test c {f} {g} hf hg = record {
    run = λ m input left err h. branch m input left err h (c m (stream input left err));
  }
    where
      branch :
          (m : Memory) (input : List ℕ) (left : ℕ) (err : Option Message)
          → left ≤ length input
          → (b : Bool)
          → Halts input left
              ((if b then f m (stream input left err) else g m (stream input left err)).0)
      branch m input left err h true = hf.run m input left err h
      branch m input left err h false = hg.run m input left err h

  -- An action that looks at the memory first.
  pub Settles-memory :
      {f : Memory → Action (List ℕ) A} → ((m : Memory) → Settles (f m)) → Settles (λ m s. f m m s)
  Settles-memory h = record { run = λ m. (h m).run m }

  pub Settles-same :
      {f g : Action (List ℕ) A}
      → ((m : Memory) (s : Istream (List ℕ)) → (f m s).0 ≡ (g m s).0)
      → Settles g
      → Settles f
  Settles-same same h = record {
    run = λ m input left err le.
        subst (Halts input left) (sym (same m (stream input left err))) (h.run m input left err le);
  }

module _ {A : Type 0} {P : A → Type 0} where
  pub Yields-pure : (a : A) → P a → Yields P (pure a)
  Yields-pure a p = record { yields = λ m s. p }

  pub Yields-return_error : (e : Message) → Yields P (return_error e)
  Yields-return_error e = record { yields = λ m s. tt }

  pub Yields-memory :
      {f : Memory → Action (List ℕ) A} → ((m : Memory) → Yields P (f m)) → Yields P (λ m s. f m m s)
  Yields-memory h = record { yields = λ m s. (h m).yields m s }

  pub Yields-test :
      (c : Memory → Istream (List ℕ) → Bool) {f g : Action (List ℕ) A}
      → Yields P f
      → Yields P g
      → Yields P (λ m s. if c m s then f m s else g m s)
  Yields-test c {f} {g} hf hg = record { yields = λ m s. branch m s (c m s) }
    where
      branch :
          (m : Memory) (s : Istream (List ℕ)) (b : Bool) → Post P ((if b then f m s else g m s).0.0)
      branch m s true = hf.yields m s
      branch m s false = hg.yields m s

pub Yields-any : {A : Type 0} (f : Action (List ℕ) A) → Yields (λ a. Unit {0}) f
Yields-any f = record { yields = λ m s. Post-all (λ a. tt) ((f m s).0.0) }

pub Settles-modify : (g : Memory → Memory) → Settles (modify g)
Settles-modify g = record { run = λ m. (Settles-pure tt).run (g m) }

pub Settles-on_memory : {f : Update} → Total f → Settles (on_memory f)
Settles-on_memory {f} h = record { run = λ m. applied m (f m) (h.done m) }
  where
    applied :
        (m : Memory) (o : Option Memory)
        → is_done o ≡ true
        → (input : List ℕ) (left : ℕ) (err : Option Message) → left ≤ length input
        → Halts input left ((apply_update o m (stream input left err)).0)
    applied m none e input left err le = absurd (cc)
    applied m (some m') e input left err le = (refl, Within-here input left err)
