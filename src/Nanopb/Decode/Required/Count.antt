-- ===== src/Nanopb/Decode/Required/Count.antt =====
-- MovieDBApp/Pods/nanopb/pb_decode.c: the count of required fields that the check at the end of
-- pb_decode_noinit takes from the iterator.
use prj_movie_dbapp.Prelude.{
  ℕ, zero, suc, ◌+◌, ◌≤◌, ◌<◌, ◌≡◌, ◌≢◌, sym, ap, ◌∙◌, Bool, true, false, not, ◌&&◌, Option, none,
  some, List, arith, ◌==◌, if◌then◌else◌, length, dec_lt,
}
use Prim.Native.Nat.{min}
use mathlib.Core.Path.{subst}
use prj_movie_dbapp.Nanopb.Field.{Field}
use prj_movie_dbapp.Nanopb.Iter.{Iter, field_at, field_of, pb_field_iter_next}
use prj_movie_dbapp.Nanopb.Iter.Find.{Terminated, next-start, tag_at, next-inner, next-last}
use prj_movie_dbapp.Nanopb.Iter.Counted.{
  is_required, required_before, Counted, Counted-next, before-step,
}
use prj_movie_dbapp.Nanopb.Decode.Required.{
  seek_end, req_field_count, check_required, required_present,
}
use prj_movie_dbapp.Nanopb.Decode.Required.Bits.{all_below}
use prj_movie_dbapp.Nanopb.Decode.Required.Marks.{elem, mark_all}
use prj_movie_dbapp.Nanopb.Decode.Required.Mask.{AllBelow, required_present-all}

last_test :
    (c d : Bool) (a b : ℕ)
    → d ≡ true
    → a ≡ b
    → (if c && d then a + 1 else a) ≡ b + (if c then 1 else 0)
last_test true true a b p e = omega arith
last_test true false a b p e = absurd (cc)
last_test false d a b p e = omega arith

nonzero-test : (k : ℕ) → k ≢ 0 → not (k == 0) ≡ true
nonzero-test k h = ground arith

module _ (fields : List Field) (n : ℕ) (t : Terminated fields n) where
  more-inner : (it : Iter) → it.start ≡ fields → it.pos + 1 < n → (pb_field_iter_next it).0 ≡ true
  unfolding pb_field_iter_next
  more-inner it e h = ground (
    arith,
    tag_at fields n t it e it.pos (t.nonzero it.pos (omega arith)),
    tag_at fields n t it e (it.pos + 1) (t.nonzero (it.pos + 1) h),
  )

  more-last : (it : Iter) → it.start ≡ fields → it.pos + 1 ≡ n → (pb_field_iter_next it).0 ≡ false
  unfolding pb_field_iter_next
  more-last it e h = ground (
    arith,
    tag_at fields n t it e it.pos (t.nonzero it.pos (omega arith)),
    ap (λ fs. (field_at fs (it.pos + 1)).tag) e ∙ ap (λ i. (field_at fields i).tag) h ∙ t.ends,
  )

  -- At the last field, the count is the index, and one if that field is required.
  count-last :
      (it : Iter)
      → it.start ≡ fields
      → Counted it
      → it.pos + 1 ≡ n
      → req_field_count ((it.required_field_index, (field_of it).type), (pb_field_iter_next it).1)
        ≡ required_before fields n
  unfolding req_field_count
  count-last it e c h =
      last_test (is_required (field_of it)) _ _ _ (nonzero-test _ wrapped) c.counted
      ∙ (sym (before-step it.start it.pos)
          ∙ (ap (λ fs. required_before fs (it.pos + 1)) e ∙ ap (required_before fields) h))
    where
      it' : Iter
      it' = (pb_field_iter_next it).1

      wrapped : (field_of it').tag ≢ 0
      wrapped =
          subst (λ i. (field_at it'.start i).tag ≢ 0) (sym (next-last fields n t it e h))
            (tag_at fields n t it' (next-start it ∙ e) 0 (t.nonzero 0 (omega arith)))

  abbrev stop : Iter → Option ((ℕ × ℕ) × Iter)
  stop it = some ((it.required_field_index, (field_of it).type), (pb_field_iter_next it).1)

  Counts : ℕ → Iter → Type 0
  Counts fuel it =
      (end : (ℕ × ℕ) × Iter) × (seek_end fuel it ≡ some end)
      × (req_field_count end ≡ required_before fields n)

  seek_end-Counts :
      (fuel : ℕ) (it : Iter)
      → it.start ≡ fields
      → Counted it
      → it.pos < n
      → n ≤ it.pos + fuel
      → Counts fuel it
  unfolding Counts seek_end
  seek_end-Counts zero it e c h k = absurd (omega arith)
  seek_end-Counts (suc fuel) it e c h k = elim (dec_lt (it.pos + 1) n) [
    | yes inner ↦
        let pos = next-inner fields n t it e inner in
        let (end, found, count) =
          seek_end-Counts fuel ((pb_field_iter_next it).1) (next-start it ∙ e) (Counted-next it c)
            (omega (arith, pos)) (omega (arith, pos)) in
        (
          end,
          ap (λ b. if b then seek_end fuel ((pb_field_iter_next it).1) else stop it)
                (more-inner it e inner)
              ∙ found,
          count,
        )
    | no last ↦ (
      ((it.required_field_index, (field_of it).type), (pb_field_iter_next it).1),
      ap (λ b. if b then seek_end fuel ((pb_field_iter_next it).1) else stop it)
          (more-last it e (omega arith)),
      count-last it e c (omega arith),
    )
  ]

  -- In a message of n fields whose tags are not zero and that a terminator follows, take an
  -- iterator at one of the fields, whose required_field_index counts the required fields before
  -- it, and suppose that pb_decode_noinit marked some indices as seen, all of them below the
  -- number of required fields. Then the check at the end of pb_decode_noinit reaches a verdict,
  -- and it is success exactly where each index below that number, or below 64 if it is larger, is
  -- among those marked.
  pub check_required-all :
      (it : Iter) (is : List ℕ)
      → it.start ≡ fields
      → Counted it
      → it.pos < n
      → AllBelow (required_before fields n) is
      → check_required it (mark_all is)
        ≡ some (all_below (min 64 (required_before fields n)) (λ i. elem i is))
  unfolding check_required Counts
  check_required-all it is e c h below =
      let (end, found, count) =
        seek_end-Counts (length it.start + 1) it e c h
          (omega (arith, t.listed, ap (λ (fs : List Field). length fs) e)) in
      ap
        (λ o. elim o [
          | none ↦ none
          | some end ↦ some (required_present (req_field_count end) (mark_all is))
        ])
        found
      ∙ ap some (
          ap (λ k. required_present k (mark_all is)) count
          ∙ required_present-all (required_before fields n) is below)
