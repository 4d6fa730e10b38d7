-- ===== src/Nanopb/Iter/Counted.antt =====
-- MovieDBApp/Pods/nanopb/pb_common.c: required_field_index through the moves of the iterator.
use prj_movie_dbapp.Prelude.{
  ℕ, zero, suc, ◌+◌, ◌≡◌, refl, sym, ap, ◌∙◌, Bool, true, false, List, arith, ◌==◌, if◌then◌else◌,
}
use prj_movie_dbapp.Nanopb.Field.Htype
use prj_movie_dbapp.Nanopb.Field.{Field, pb_htype}
use prj_movie_dbapp.Nanopb.Iter.{
  Iter, field_at, field_of, in_union, pb_field_iter_begin, pb_field_iter_next, has_tag, find_loop,
  pb_field_iter_find,
}

abbrev pub is_required : Field → Bool
is_required f = pb_htype f.type == Htype.required

-- How many of the first fields are required.
unfoldable pub required_before : List Field → ℕ → ℕ
required_before fields zero = 0
required_before fields (suc i) =
    required_before fields i + (if is_required (field_at fields i) then 1 else 0)

-- The index counts the required fields before the iterator.
pub record Counted (it : Iter) : Type 0 where
  pub counted : it.required_field_index ≡ required_before it.start it.pos

pub Counted-begin : (fields : List Field) (dest : ℕ) → Counted ((pb_field_iter_begin fields dest).1)
unfolding pb_field_iter_begin required_before
Counted-begin fields dest = record { counted = refl }

Counted-if :
    (c : Bool) (x y : Bool × Iter)
    → (c ≡ true → Counted (x.1))
    → (c ≡ false → Counted (y.1))
    → Counted ((if c then x else y).1)
Counted-if true x y hx hy = hx refl
Counted-if false x y hx hy = hy refl

pub before-step :
    (fields : List Field) (i : ℕ)
    → required_before fields (i + 1)
      ≡ required_before fields i + (if is_required (field_at fields i) then 1 else 0)
unfolding required_before
before-step fields i = ap (required_before fields) same
  where
    same : i + 1 ≡ suc i
    same = omega arith

pub step_on : (c : Bool) (a b : ℕ) → a ≡ b → (if c then a + 1 else a) ≡ b + (if c then 1 else 0)
step_on true a b e = omega arith
step_on false a b e = omega arith

no_step : (c : Bool) (a b : ℕ) → c ≡ false → a ≡ b → a ≡ b + (if c then 1 else 0)
no_step true a b f e = absurd (cc)
no_step false a b f e = omega arith

in_union-optional : (prev cur : Field) → in_union prev cur ≡ true → is_required prev ≡ false
unfolding in_union
in_union-optional prev cur h = ground arith

pub Counted-next : (it : Iter) → Counted it → Counted ((pb_field_iter_next it).1)
unfolding pb_field_iter_next
Counted-next it h =
    Counted-if ((field_of it).tag == 0) _ _ (λ e. h)
      λ n0.
        Counted-if ((field_at it.start (it.pos + 1)).tag == 0) _ _
          (λ e. Counted-begin it.start it.dest_struct)
          λ n1.
            Counted-if (in_union (field_of it) (field_at it.start (it.pos + 1))) _ _
              (λ e. record {
                counted =
                    no_step (is_required (field_of it)) _ _
                      (in_union-optional (field_of it) (field_at it.start (it.pos + 1)) e) h.counted
                    ∙ sym (before-step it.start it.pos);
              })
              λ n2. record {
                counted =
                    step_on (is_required (field_of it)) _ _ h.counted
                    ∙ sym (before-step it.start it.pos);
              }

-- If required_field_index counts the required fields before the iterator, it does so after
-- pb_field_iter_find, for every tag and also where the search fails, however often it comes round
-- to the beginning.
pub Counted-find : (it : Iter) (tag : ℕ) → Counted it → Counted ((pb_field_iter_find it tag).1)
unfolding pb_field_iter_find
Counted-find it tag = loop _ it
  where
    loop : (fuel : ℕ) (it' : Iter) → Counted it' → Counted ((find_loop fuel it.pos tag it').1)
    loop zero it' h = h
    loop (suc fuel) it' h =
        Counted-if (has_tag (field_of it') tag) _ _ (λ e. h)
          λ n0.
            Counted-if (((pb_field_iter_next it').1).pos == it.pos) _ _ (λ e. Counted-next it' h)
              λ n1. loop fuel ((pb_field_iter_next it').1) (Counted-next it' h)
