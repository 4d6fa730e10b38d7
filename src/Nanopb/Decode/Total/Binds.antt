-- ===== src/Nanopb/Decode/Total/Binds.antt =====
-- MovieDBApp/Pods/nanopb/pb_decode.c: the end of a chain of decoder functions, by that of its
-- links.
use prj_movie_dbapp.Prelude.{ℕ, suc, ◌≤◌, ◌<◌, refl, sym, ap, List, arith, length}
use mathlib.Core.Path.{subst}
use prj_movie_dbapp.Nanopb.Field.{Memory}
use prj_movie_dbapp.Nanopb.Istream.{Istream, Outcome, got, failed, stuck}
use prj_movie_dbapp.Nanopb.Decode.Bounds.{stream}
use prj_movie_dbapp.Nanopb.Decode.Action.{Action, and_do, ◌>>=◌}
use prj_movie_dbapp.Nanopb.Decode.Total.{
  Settles, SettlesBelow, Yields, Halts, Less, Post, Post-all, Post-map, Within-trans, Within-holds,
}

module _ {A B : Type 0} where
  pub Halts-and_do :
      (k : A → Action (List ℕ) B) (input : List ℕ) (left : ℕ)
      (r : (Outcome A × Istream (List ℕ)) × Memory)
      → Post (λ a. Settles (k a)) (r.0.0)
      → left ≤ length input
      → Halts input left (r.0)
      → Halts input left ((and_do r k).0)
  Halts-and_do k input left ((got a, s), m) hk h e =
      let w = e.1 in
      let next = hk.run m w.rest w.count w.err (Within-holds w h) in
      subst (λ t. Halts input left ((k a m t).0)) (sym w.now) (next.0, Within-trans w (next.1))
  Halts-and_do k input left ((failed, s), m) hk h e = (refl, e.1)
  Halts-and_do k input left ((stuck, s), m) hk h e = absurd (cc)

  pub Settles->>= :
      {f : Action (List ℕ) A} {k : A → Action (List ℕ) B}
      → Settles f
      → ((a : A) → Settles (k a))
      → Settles (f >>= k)
  Settles->>= {f} {k} hf hk = record {
    run = λ m input left err h.
        let r = f m (stream input left err) in
        Halts-and_do k input left r (Post-all hk (r.0.0)) h (hf.run m input left err h);
  }

  -- What the first action yields may be used for the next.
  pub Settles-then :
      {P : A → Type 0} {f : Action (List ℕ) A} {k : A → Action (List ℕ) B}
      → Settles f
      → Yields P f
      → ((a : A) → P a → Settles (k a))
      → Settles (f >>= k)
  Settles-then {f = f} {k} hf hp hk = record {
    run = λ m input left err h.
        let r = f m (stream input left err) in
        Halts-and_do k input left r (Post-map hk (r.0.0) (hp.yields m (stream input left err))) h
          (hf.run m input left err h);
  }

  pub Yields->>= :
      {P : A → Type 0} {Q : B → Type 0} {f : Action (List ℕ) A} {k : A → Action (List ℕ) B}
      → Yields P f
      → ((a : A) → P a → Yields Q (k a))
      → Yields Q (f >>= k)
  Yields->>= {P} {Q} {f} {k} hp hk = record { yields = λ m s. after (f m s) (hp.yields m s) }
    where
      after :
          (r : (Outcome A × Istream (List ℕ)) × Memory) → Post P (r.0.0) → Post Q ((and_do r k).0.0)
      after ((got a, s), m) p = (hk a p).yields m s
      after ((failed, s), m) p = tt
      after ((stuck, s), m) p = tt

  -- A success that leaves fewer bytes comes before what ends with so few.
  pub Halts-and_do-below :
      (bound : ℕ) (k : A → Action (List ℕ) B) (input : List ℕ) (left : ℕ)
      (r : (Outcome A × Istream (List ℕ)) × Memory)
      → Post (λ a. SettlesBelow bound (k a)) (r.0.0)
      → left ≤ length input
      → left < suc bound
      → Halts input left (r.0)
      → Less left (r.0)
      → Halts input left ((and_do r k).0)
  Halts-and_do-below bound k input left ((got a, s), m) hk h hb e less =
      let w = e.1 in
      let next =
        hk.run_below m w.rest w.count w.err (Within-holds w h)
          (omega (arith, less refl, ap (λ t. t.bytes_left) w.now)) in
      subst (λ t. Halts input left ((k a m t).0)) (sym w.now) (next.0, Within-trans w (next.1))
  Halts-and_do-below bound k input left ((failed, s), m) hk h hb e less = (refl, e.1)
  Halts-and_do-below bound k input left ((stuck, s), m) hk h hb e less = absurd (cc)

  -- After a success that took a byte, nothing gives it back.
  pub Less-and_do :
      (k : A → Action (List ℕ) B) (input : List ℕ) (left : ℕ)
      (r : (Outcome A × Istream (List ℕ)) × Memory)
      → ((a : A) → Settles (k a))
      → left ≤ length input
      → Halts input left (r.0)
      → Less left (r.0)
      → Less left ((and_do r k).0)
  Less-and_do k input left ((got a, s), m) hk h e less ok =
      let w = e.1 in
      let after = ((hk a).run m w.rest w.count w.err (Within-holds w h)).1 in
      subst (λ t. ((k a m t).0.1).bytes_left < left) (sym w.now)
        (omega (
          arith,
          ap (λ t. t.bytes_left) after.now,
          after.covered,
          ap (λ t. t.bytes_left) w.now,
          less refl,
        ))
  Less-and_do k input left ((failed, s), m) hk h e less ok = absurd (cc)
  Less-and_do k input left ((stuck, s), m) hk h e less ok = absurd (cc)
