-- ===== src/Base64/PtonBounds.antt =====
-- fbase64.c: f_b64_pton writes only the first targsize cells of its target.
use prj_movie_dbapp.Prelude.{
  ℕ, ◌+◌, ◌%◌, ◌^◌, ◌<◌, ◌≡◌, refl, sym, Bool, true, false, Option, none, some, List, [], ◌∷◌,
  arith, leb, ◌==◌, if◌then◌else◌,
}
use mathlib.Core.Path.{subst}
use prj_movie_dbapp.Base64.Alphabet.{pad64, position, isspace}
use prj_movie_dbapp.Base64.Pton.{
  State, state0, state1, state2, state3, Progress, Scan, ended, padded, refused, store, take_char,
  scan, finish, f_b64_pton,
}
use prj_movie_dbapp.Base64.Bounds.{
  Kept-trans, Kept-set, KeptIfAny, no_target, kept, KeptIfAny-refl, KeptIfAny-trans,
}

-- A byte that is begun lies in the target.
data Within (n : ℕ) : State → ℕ → Option (List ℕ) → Type 0 where
  null : {state : State} {i : ℕ} → Within n state i none
  between : {i : ℕ} {cells : List ℕ} → Within n state0 i (some cells)
  inside : {state : State} {i : ℕ} {cells : List ℕ} → i < n → Within n state i (some cells)

-- What a step may do to a target.
data Keeps (n : ℕ) (target : Option (List ℕ)) : Option Progress → Type 0 where
  stops : Keeps n target none
  goes_on :
      {q : Progress}
      → KeptIfAny n target q.target
      → Within n q.state q.tarindex q.target
      → Keeps n target (some q)

Keeps-if :
    (c : Bool) (n : ℕ) (target : Option (List ℕ)) (q : Progress)
    → (c ≡ false → Keeps n target (some q))
    → Keeps n target (if c then none else some q)
Keeps-if true n target q h = stops
Keeps-if false n target q h = h refl

Keeps-store :
    (n pos : ℕ) (state : State) (i : ℕ) (target : Option (List ℕ))
    → Within n state i target
    → Keeps n target (store n pos state i target)
unfolding store
Keeps-store n pos state0 i none w = goes_on no_target null
Keeps-store n pos state1 i none w = goes_on no_target null
Keeps-store n pos state2 i none w = goes_on no_target null
Keeps-store n pos state3 i none w = goes_on no_target null
Keeps-store n pos state0 i (some cells) w =
    Keeps-if (leb n i) n (some cells) _
      λ fits. goes_on (kept (Kept-set n i _ cells (ground arith))) (inside (ground arith))
Keeps-store n pos state1 i (some cells) (inside h) =
    Keeps-if (leb n ((i + 1) % 2 ^ 32)) n (some cells) _ λ fits.
      goes_on
        (kept
          (Kept-trans (Kept-set n i _ cells h) (Kept-set n ((i + 1) % 2 ^ 32) _ _ (ground arith))))
        (inside (ground arith))
Keeps-store n pos state2 i (some cells) (inside h) =
    Keeps-if (leb n ((i + 1) % 2 ^ 32)) n (some cells) _ λ fits.
      goes_on
        (kept
          (Kept-trans (Kept-set n i _ cells h) (Kept-set n ((i + 1) % 2 ^ 32) _ _ (ground arith))))
        (inside (ground arith))
Keeps-store n pos state3 i (some cells) (inside h) =
    Keeps-if (leb n i) n (some cells) _ λ fits. goes_on (kept (Kept-set n i _ cells h)) between

target_of : Scan → Option (List ℕ)
target_of (ended p) = p.target
target_of (padded src p) = p.target
target_of (refused target) = target

Keeps-take_char :
    (n ch : ℕ) (p : Progress)
    → Within n p.state p.tarindex p.target
    → Keeps n p.target (take_char n ch p)
unfolding take_char
Keeps-take_char n ch p w = go (position ch)
  where
    go :
        (o : Option ℕ)
        → Keeps n p.target
            (elim o [ none ↦ none | some pos ↦ store n pos p.state p.tarindex p.target ])
    go none = stops
    go (some pos) = Keeps-store n pos p.state p.tarindex p.target w

KeptIfAny-if :
    (c : Bool) (n : ℕ) (target : Option (List ℕ)) (x y : Scan)
    → KeptIfAny n target (target_of x)
    → KeptIfAny n target (target_of y)
    → KeptIfAny n target (target_of (if c then x else y))
KeptIfAny-if true n target x y hx hy = hx
KeptIfAny-if false n target x y hx hy = hy

Keeps-step :
    (n : ℕ) (more : Progress → Scan) (target : Option (List ℕ)) (o : Option Progress)
    → Keeps n target o
    → ((q : Progress)
        → Within n q.state q.tarindex q.target
        → KeptIfAny n q.target (target_of (more q)))
    → KeptIfAny n target (target_of (elim o [ none ↦ refused target | some q ↦ more q ]))
unfolding target_of
Keeps-step n more target none k h = KeptIfAny-refl n target
Keeps-step n more target (some q) (goes_on k w) h = KeptIfAny-trans n k (h q w)

Kept-scan :
    (n : ℕ) (src : List ℕ) (p : Progress)
    → Within n p.state p.tarindex p.target
    → KeptIfAny n p.target (target_of (scan n src p))
unfolding scan target_of
Kept-scan n [] p w = KeptIfAny-refl n p.target
Kept-scan n (ch ∷ src) p w =
    KeptIfAny-if (ch == 0) n p.target (ended p) _ (KeptIfAny-refl n p.target) (
      KeptIfAny-if (isspace ch) n p.target (scan n src p) _ (Kept-scan n src p w) (
        KeptIfAny-if (ch == pad64) n p.target (padded src p) _ (KeptIfAny-refl n p.target) (
          Keeps-step n (scan n src) p.target (take_char n ch p) (Keeps-take_char n ch p w)
            (Kept-scan n src))))

finish-target : (s : Scan) → (finish s).1 ≡ target_of s
unfolding finish target_of
finish-target (ended p) = refl
finish-target (padded src p) = refl
finish-target (refused target) = refl

-- f_b64_pton writes only the first targsize cells of its target, on every string and whether or
-- not it returns -1.
pub Kept-f_b64_pton :
    (src : List ℕ) (target : Option (List ℕ)) (targsize : ℕ)
    → KeptIfAny targsize target ((f_b64_pton src target targsize).1)
unfolding f_b64_pton
Kept-f_b64_pton src target targsize =
    subst (KeptIfAny targsize target) (sym (finish-target (scan targsize src start)))
      (Kept-scan targsize src start (begins target))
  where
    start : Progress
    start = record { state = state0; tarindex = 0; target = target }

    begins : (t : Option (List ℕ)) → Within targsize state0 0 t
    begins none = null
    begins (some cells) = between
