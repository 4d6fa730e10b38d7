-- ===== src/Nanopb/Iter/Find.antt =====
-- MovieDBApp/Pods/nanopb/pb_common.c: the way of pb_field_iter_find round the fields of a
-- message.
use prj_movie_dbapp.Prelude.{
  ◌==◌, if◌then◌else◌, Bool, true, ℕ, zero, suc, ◌+◌, ◌≤◌, ◌<◌, ◌≡◌, ◌≢◌, refl, sym, ap, ◌∙◌, false,
  inr, ◌⊎◌, List, arith, length, dec_lt, ℕ_discrete,
}
use mathlib.Core.Path.{subst}
use prj_movie_dbapp.Nanopb.Field.{Field}
use prj_movie_dbapp.Nanopb.Iter.{
  Iter, field_at, field_of, pb_field_iter_begin, pb_field_iter_next, has_tag, find_loop,
  pb_field_iter_find,
}

-- The array has n fields, and then the terminator.
pub record Terminated (fields : List Field) (n : ℕ) : Type 0 where
  pub nonzero : (i : ℕ) → i < n → (field_at fields i).tag ≢ 0
  pub ends : (field_at fields n).tag ≡ 0
  pub listed : n ≤ length fields

pub next-start : (it : Iter) → ((pb_field_iter_next it).1).start ≡ it.start
unfolding pb_field_iter_next pb_field_iter_begin
next-start it = ground arith

module _ (fields : List Field) (n : ℕ) (t : Terminated fields n) where
  pub tag_at :
      (it : Iter)
      → it.start ≡ fields
      → (i : ℕ) → (field_at fields i).tag ≢ 0
      → (field_at it.start i).tag ≢ 0
  tag_at it e i h = subst (λ fs. (field_at fs i).tag ≢ 0) (sym e) h

  pub next-inner :
      (it : Iter)
      → it.start ≡ fields
      → it.pos + 1 < n
      → ((pb_field_iter_next it).1).pos ≡ it.pos + 1
  unfolding pb_field_iter_next pb_field_iter_begin
  next-inner it e h = ground (
    arith,
    tag_at it e it.pos (t.nonzero it.pos (omega arith)),
    tag_at it e (it.pos + 1) (t.nonzero (it.pos + 1) h),
  )

  pub next-last :
      (it : Iter) → it.start ≡ fields → it.pos + 1 ≡ n → ((pb_field_iter_next it).1).pos ≡ 0
  unfolding pb_field_iter_next pb_field_iter_begin
  next-last it e h = ground (
    arith,
    tag_at it e it.pos (t.nonzero it.pos (omega arith)),
    ap (λ fs. (field_at fs (it.pos + 1)).tag) e ∙ ap (λ i. (field_at fields i).tag) h ∙ t.ends,
  )

-- Where the search from `s` is at `p`, with `fuel` rounds left: enough to come round.
abbrev Enough : ℕ → ℕ → ℕ → ℕ → Type 0
Enough n s p fuel = ((p < s) × (s ≤ p + fuel)) ⊎ ((s ≤ p) × (n + s ≤ p + fuel))

-- The fields from `p` on, round to the one before `s`.
abbrev ToGo : ℕ → ℕ → ℕ → Type 0
ToGo s p i = ((p < s) × ((p ≤ i) × (i < s))) ⊎ ((s ≤ p) × ((p ≤ i) ⊎ (i < s)))

missed-here :
    (fuel s tag : ℕ) (it : Iter)
    → (find_loop (suc fuel) s tag it).0 ≡ false
    → has_tag (field_of it) tag ≡ false
unfolding find_loop
missed-here fuel s tag it missed = ground arith

missed-later :
    (fuel s tag : ℕ) (it : Iter)
    → (find_loop (suc fuel) s tag it).0 ≡ false
    → ((pb_field_iter_next it).1).pos ≢ s
    → (find_loop fuel s tag ((pb_field_iter_next it).1)).0 ≡ false
unfolding find_loop
missed-later fuel s tag it missed h = ground (arith, missed-here fuel s tag it missed)

-- One step of the walk, at `p`, for a field `i` that is not there.
module _ {s p q i : ℕ} where
  inner_ne : ToGo s p i → i ≢ p → q ≡ p + 1 → q ≢ s
  inner_ne go other e = ground arith

  inner-ToGo : ToGo s p i → i ≢ p → q ≡ p + 1 → ToGo s q i
  inner-ToGo go other e = ground arith

  module _ {n : ℕ} where
    last_ne : p + 1 ≡ n → i < n → s < n → ToGo s p i → i ≢ p → q ≡ 0 → q ≢ s
    last_ne h hi hs go other e = ground arith

    last-ToGo : p + 1 ≡ n → i < n → s < n → ToGo s p i → i ≢ p → q ≡ 0 → ToGo s q i
    last-ToGo h hi hs go other e = ground arith

  inner-Enough :
      (n fuel : ℕ) → ToGo s p i → i ≢ p → q ≡ p + 1 → Enough n s p (suc fuel) → Enough n s q fuel
  inner-Enough n fuel go other e enough = ground arith

  last-Enough :
      (n fuel : ℕ)
      → p + 1 ≡ n
      → i < n
      → s < n
      → ToGo s p i
      → i ≢ p
      → q ≡ 0
      → Enough n s p (suc fuel)
      → Enough n s q fuel
  last-Enough n fuel h hi hs go other e enough = ground arith

module _ (fields : List Field) (n : ℕ) (t : Terminated fields n) (s tag : ℕ) (hs : s < n) where
  find_loop-false :
      (fuel : ℕ) (it : Iter) (i : ℕ)
      → it.start ≡ fields
      → it.pos < n
      → Enough n s it.pos fuel
      → (find_loop fuel s tag it).0 ≡ false
      → i < n
      → ToGo s it.pos i
      → has_tag (field_at fields i) tag ≡ false
  find_loop-false zero it i e hp enough missed hi go = absurd (ground arith)
  find_loop-false (suc fuel) it i e hp enough missed hi go = elim (ℕ_discrete i it.pos) [
    | yes same ↦
        ap (λ k. has_tag (field_at fields k) tag) same
        ∙ ap (λ fs. has_tag (field_at fs it.pos) tag) (sym e)
        ∙ missed-here fuel s tag it missed
    | no other ↦
        let it' = (pb_field_iter_next it).1 in
        elim (dec_lt (it.pos + 1) n) [
          | yes inner ↦
              let q = next-inner fields n t it e inner in
              find_loop-false fuel it' i (next-start it ∙ e) (omega (arith, q))
                (inner-Enough n fuel go other q enough)
                (missed-later fuel s tag it missed (inner_ne go other q)) hi (inner-ToGo go other q)
          | no last ↦
              let q = next-last fields n t it e (omega arith) in
              find_loop-false fuel it' i (next-start it ∙ e) (omega (arith, q))
                (last-Enough n fuel (omega arith) hi hs go other q enough)
                (missed-later fuel s tag it missed (last_ne (omega arith) hi hs go other q)) hi
                (last-ToGo (omega arith) hi hs go other q)
        ]
  ]

-- One round that does not come to the start leaves enough of them.
module _ (n fuel : ℕ) {s p q : ℕ} where
  inner_left : q ≡ p + 1 → q ≢ s → Enough n s p (suc fuel) → Enough n s q fuel
  inner_left e other enough = ground arith

  last_left : p + 1 ≡ n → s < n → q ≡ 0 → q ≢ s → Enough n s p (suc fuel) → Enough n s q fuel
  last_left h hs e other enough = ground arith

false-round :
    (here round : Bool) (s : ℕ) (it it' : Iter) (rest : Bool × Iter)
    → (round ≡ true → it'.pos ≡ s)
    → (round ≡ false → rest.0 ≡ false → rest.1.pos ≡ s)
    → (if here then (true, it) else if round then (false, it') else rest).0 ≡ false
    → (if here then (true, it) else if round then (false, it') else rest).1.pos ≡ s
false-round true round s it it' rest at later h = absurd (cc)
false-round false true s it it' rest at later h = at refl
false-round false false s it it' rest at later h = later refl h

module _ (fields : List Field) (n : ℕ) (t : Terminated fields n) (s tag : ℕ) (hs : s < n) where
  -- A loop with enough rounds ends only where it found a field or came round to the start.
  find_loop-round :
      (fuel : ℕ) (it : Iter)
      → it.start ≡ fields
      → it.pos < n
      → Enough n s it.pos fuel
      → (find_loop fuel s tag it).0 ≡ false
      → ((find_loop fuel s tag it).1).pos ≡ s
  unfolding find_loop
  find_loop-round zero it e hp enough missed = absurd (ground arith)
  find_loop-round (suc fuel) it e hp enough missed =
      let it' = (pb_field_iter_next it).1 in
      false-round (has_tag (field_of it) tag) (it'.pos == s) s it it' (find_loop fuel s tag it')
        (λ h. ground arith)
        (λ h missed'. elim (dec_lt (it.pos + 1) n) [
          | yes inner ↦
              let q = next-inner fields n t it e inner in
              find_loop-round fuel it' (next-start it ∙ e) (omega (arith, inner, q))
                (inner_left n fuel q (test_false h) enough) missed'
          | no last ↦
              let q = next-last fields n t it e (omega (arith, hp, last)) in
              find_loop-round fuel it' (next-start it ∙ e) (omega (arith, hp, q))
                (last_left n fuel (omega (arith, hp, last)) hs q (test_false h) enough) missed'
        ])
        missed
    where
      test_false :
          (((pb_field_iter_next it).1).pos == s) ≡ false → ((pb_field_iter_next it).1).pos ≢ s
      test_false h = ground arith

-- If pb_field_iter_find, started at one of the n fields of a message whose tags are not zero and
-- that a terminator follows, returns false, then none of the fields has the tag, extensions
-- aside, and the iterator is back at the field where it started.
pub find-missing :
    (it : Iter) (n tag i : ℕ)
    → Terminated it.start n
    → it.pos < n
    → (pb_field_iter_find it tag).0 ≡ false
    → i < n
    → (has_tag (field_at it.start i) tag ≡ false) × (((pb_field_iter_find it tag).1).pos ≡ it.pos)
unfolding pb_field_iter_find
find-missing it n tag i t hp missed hi =
    let enough : Enough n it.pos it.pos (length it.start + 1) =
      inr (omega arith, omega (arith, t.listed)) in
    (
      find_loop-false it.start n t it.pos tag hp (length it.start + 1) it i refl hp enough missed hi
          (everywhere it.pos i),
      find_loop-round it.start n t it.pos tag hp (length it.start + 1) it refl hp enough missed,
    )
  where
    everywhere : (p i : ℕ) → ToGo p p i
    everywhere p i = ground arith
