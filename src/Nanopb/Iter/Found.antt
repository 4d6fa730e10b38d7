-- ===== src/Nanopb/Iter/Found.antt =====
-- MovieDBApp/Pods/nanopb/pb_common.c: what pb_field_iter_find finds.
use prj_movie_dbapp.Prelude.{
  ℕ, zero, suc, ◌+◌, ◌<◌, ◌≡◌, ◌≢◌, refl, ◌∙◌, Bool, true, false, inl, inr, List, arith, length,
  dec_lt, Bool-cases, ◌==◌, if◌then◌else◌,
}
use prj_movie_dbapp.Nanopb.Field.{Field, pb_ltype}
use prj_movie_dbapp.Nanopb.Field.Ltype
use prj_movie_dbapp.Nanopb.Iter.{
  Iter, field_at, field_of, pb_field_iter_next, has_tag, find_loop, pb_field_iter_find,
}
use prj_movie_dbapp.Nanopb.Iter.Find.{Terminated, next-start, next-inner, next-last, find-missing}

find_loop-true :
    (fuel start tag : ℕ) (it : Iter)
    → (find_loop fuel start tag it).0 ≡ true
    → has_tag (field_of ((find_loop fuel start tag it).1)) tag ≡ true
unfolding find_loop
find_loop-true zero start tag it h = absurd (cc)
find_loop-true (suc fuel) start tag it h =
    ground (arith, find_loop-true fuel start tag ((pb_field_iter_next it).1))

found_here :
    (it : Iter) (tag : ℕ)
    → (pb_field_iter_find it tag).0 ≡ true
    → has_tag (field_of ((pb_field_iter_find it tag).1)) tag ≡ true
unfolding pb_field_iter_find
found_here it tag h = find_loop-true (length it.start + 1) it.pos tag it h

has_tag-true :
    (f : Field) (tag : ℕ)
    → has_tag f tag ≡ true
    → (f.tag ≡ tag) × (pb_ltype f.type ≢ Ltype.extension)
unfolding has_tag
has_tag-true f tag h = ground arith

has_tag-holds :
    (f : Field) (tag : ℕ) → f.tag ≡ tag → pb_ltype f.type ≢ Ltype.extension → has_tag f tag ≡ true
unfolding has_tag
has_tag-holds f tag e other = ground arith

-- What holds of the three iterators that a round of the loop may end with.
round-cases :
    (P : Iter → Type 0) (here round : Bool) (it it' : Iter) (rest : Bool × Iter)
    → P it
    → P it'
    → P rest.1
    → P (if here then (true, it) else if round then (false, it') else rest).1
round-cases P true round it it' rest p p' p'' = p
round-cases P false true it it' rest p p' p'' = p'
round-cases P false false it it' rest p p' p'' = p''

module _ (fields : List Field) (n : ℕ) (t : Terminated fields n) where
  -- At one of the n fields.
  abbrev Within : Iter → Type 0
  Within it = (it.start ≡ fields) × (it.pos < n)

  next-Within : (it : Iter) → Within it → Within ((pb_field_iter_next it).1)
  next-Within it (e, hp) = elim (dec_lt (it.pos + 1) n) [
    | yes inner ↦ (next-start it ∙ e, omega (arith, inner, next-inner fields n t it e inner))
    | no last ↦
        (next-start it ∙ e, omega (arith, hp, next-last fields n t it e (omega (arith, hp, last))))
  ]

  -- The loop stays there, whatever it finds.
  find_loop-Within :
      (fuel start tag : ℕ) (it : Iter) → Within it → Within ((find_loop fuel start tag it).1)
  unfolding find_loop
  find_loop-Within zero start tag it w = w
  find_loop-Within (suc fuel) start tag it w =
      let it' = (pb_field_iter_next it).1 in
      let w' = next-Within it w in
      round-cases Within (has_tag (field_of it) tag) (it'.pos == start) it it'
        (find_loop fuel start tag it') w w' (find_loop-Within fuel start tag it' w')

-- If one of the n fields of a message whose tags are not zero and that a terminator follows has
-- the tag and is not an extension, then pb_field_iter_find, started at any of them, returns true
-- and leaves the iterator at one of these n fields, which has the tag and is not an extension.
pub find-found :
    (it : Iter) (n tag i : ℕ)
    → Terminated it.start n
    → it.pos < n
    → i < n
    → (field_at it.start i).tag ≡ tag
    → pb_ltype (field_at it.start i).type ≢ Ltype.extension
    → ((pb_field_iter_find it tag).0 ≡ true)
      × ((pb_field_iter_find it tag).1.start ≡ it.start)
      × ((pb_field_iter_find it tag).1.pos < n)
      × ((field_of ((pb_field_iter_find it tag).1)).tag ≡ tag)
      × (pb_ltype (field_of ((pb_field_iter_find it tag).1)).type ≢ Ltype.extension)
unfolding pb_field_iter_find
find-found it n tag i t hp hi same plain = elim (Bool-cases (pb_field_iter_find it tag).0) [
  | inl found ↦
      let (start, inside) =
        find_loop-Within it.start n t (length it.start + 1) it.pos tag it (refl, hp) in
      let (e, other) =
        has_tag-true (field_of ((pb_field_iter_find it tag).1)) tag (found_here it tag found) in
      (found, start, inside, e, other)
  | inr missed ↦ absurd (
      not_both (has_tag-holds (field_at it.start i) tag same plain)
        ((find-missing it n tag i t hp missed hi).0))
]
  where
    not_both : {b : Bool} → b ≡ true → b ≡ false → ⊥
    not_both p q = absurd (cc)
