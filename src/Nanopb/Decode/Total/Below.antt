-- ===== src/Nanopb/Decode/Total/Below.antt =====
-- MovieDBApp/Pods/nanopb/pb_decode.c: chains on fewer bytes than a bound, whose first link takes a byte.
use prj_movie_dbapp.Prelude.{ℕ, ◌≤◌, ◌<◌, refl, sym, List, arith, length}
use mathlib.Core.Path.{subst}
use prj_movie_dbapp.Nanopb.Field.{Memory}
use prj_movie_dbapp.Nanopb.Istream.{Istream, Outcome, got, failed, stuck}
use prj_movie_dbapp.Nanopb.Decode.Bounds.{stream}
use prj_movie_dbapp.Nanopb.Decode.Action.{Action, and_do, ◌>>=◌}
use prj_movie_dbapp.Nanopb.Decode.Total.{
  Within-trans, Within-holds, Halts, Less, Settles, SettlesBelow, Post, Post-all, Post-map, Yields,
}
use prj_movie_dbapp.Nanopb.Decode.Total.Rules.{Settles-memory}
use prj_movie_dbapp.Nanopb.Decode.Total.Binds.{Settles->>=}
use prj_movie_dbapp.Nanopb.Decode.Total.Shrinks.{Shrinks}

module _ {A B : Type 0} where
  Less-after :
      (k : A → Action (List ℕ) B) (input : List ℕ) (left : ℕ)
      (r : (Outcome A × Istream (List ℕ)) × Memory)
      → ((a : A) → Shrinks (k a))
      → left ≤ length input
      → Halts input left (r.0)
      → Less left ((and_do r k).0)
  Less-after k input left ((got a, s), m) hk h e ok =
      let w = e.1 in
      let less = (hk a).less_left m w.rest w.count w.err (Within-holds w h) in
      subst (λ t. Less left ((k a m t).0)) (sym w.now) (λ fine. omega (arith, less fine, w.covered))
        ok
  Less-after k input left ((failed, s), m) hk h e ok = absurd (cc)
  Less-after k input left ((stuck, s), m) hk h e ok = absurd (cc)

  -- What takes a byte may come second.
  pub Shrinks-after :
      {f : Action (List ℕ) A} {k : A → Action (List ℕ) B}
      → Settles f
      → ((a : A) → Shrinks (k a))
      → Shrinks (f >>= k)
  Shrinks-after {f} {k} hf hk = record {
    settles = Settles->>= hf λ a. (hk a).settles;
    less_left = λ m input left err h.
        Less-after k input left (f m (stream input left err)) hk h (hf.run m input left err h);
  }

  Halts-after :
      (bound : ℕ) (k : A → Action (List ℕ) B) (input : List ℕ) (left : ℕ)
      (r : (Outcome A × Istream (List ℕ)) × Memory)
      → Post (λ a. SettlesBelow bound (k a)) (r.0.0)
      → left ≤ length input
      → left < bound
      → Halts input left (r.0)
      → Halts input left ((and_do r k).0)
  Halts-after bound k input left ((got a, s), m) hk h hb e =
      let w = e.1 in
      let next =
        hk.run_below m w.rest w.count w.err (Within-holds w h) (omega (arith, w.covered)) in
      subst (λ t. Halts input left ((k a m t).0)) (sym w.now) (next.0, Within-trans w (next.1))
  Halts-after bound k input left ((failed, s), m) hk h hb e = (refl, e.1)
  Halts-after bound k input left ((stuck, s), m) hk h hb e = absurd (cc)

  pub SettlesBelow-after :
      {bound : ℕ} {f : Action (List ℕ) A} {k : A → Action (List ℕ) B}
      → Settles f
      → ((a : A) → SettlesBelow bound (k a))
      → SettlesBelow bound (f >>= k)
  SettlesBelow-after {bound} {f} {k} hf hk = record {
    run_below = λ m input left err h hb.
        let r = f m (stream input left err) in
        Halts-after bound k input left r (Post-all hk (r.0.0)) h hb (hf.run m input left err h);
  }

  pub SettlesBelow-then :
      {P : A → Type 0} {bound : ℕ} {f : Action (List ℕ) A} {k : A → Action (List ℕ) B}
      → Settles f
      → Yields P f
      → ((a : A) → P a → SettlesBelow bound (k a))
      → SettlesBelow bound (f >>= k)
  SettlesBelow-then {bound = bound} {f} {k} hf hp hk = record {
    run_below = λ m input left err h hb.
        let r = f m (stream input left err) in
        Halts-after bound k input left r (Post-map hk (r.0.0) (hp.yields m (stream input left err)))
          h hb (hf.run m input left err h);
  }

pub Shrinks-memory :
    {A : Type 0} {f : Memory → Action (List ℕ) A}
    → ((m : Memory) → Shrinks (f m))
    → Shrinks (λ m s. f m m s)
Shrinks-memory h = record {
  settles = Settles-memory λ m. (h m).settles;
  less_left = λ m. (h m).less_left m;
}
