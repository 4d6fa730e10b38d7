-- ===== src/Nanopb/Decode/Total/Updates.antt =====
-- MovieDBApp/Pods/nanopb/pb_decode.c: the end of pb_message_set_to_defaults and of the walk that
-- checks required fields, and the descriptors that are considered.
use prj_movie_dbapp.Prelude.{
  ℕ, zero, suc, ◌+◌, ◌≤◌, ◌<◌, ◌≡◌, ◌≢◌, refl, sym, ap, ◌∙◌, Bool, true, false, not, Option, none,
  some, List, [], ◌∷◌, arith, leb, dec_lt, ◌==◌, if◌then◌else◌, length,
}
use mathlib.Core.Path.{subst}
use prj_movie_dbapp.Nanopb.Field.Ltype
use prj_movie_dbapp.Nanopb.Field.Atype
use prj_movie_dbapp.Nanopb.Field.{Field, Memory, pb_ltype, pb_atype}
use prj_movie_dbapp.Nanopb.Iter.{Iter, field_at, field_of, pb_field_iter_begin, pb_field_iter_next}
use prj_movie_dbapp.Nanopb.Iter.Find.{next-start}
use prj_movie_dbapp.Nanopb.Decode.Action.{Update, update_then}
use prj_movie_dbapp.Nanopb.Decode.Defaults.{
  each_field, each_message_field, default_data, default_static, default_field_with,
  pb_field_set_to_default, pb_message_set_to_defaults,
}
use prj_movie_dbapp.Nanopb.Decode.Required.{
  seek_end, check_required, required_present, req_field_count,
}
use prj_movie_dbapp.Nanopb.Decode.Total.{Total, is_done}

-- A field that is no extension and no callback, whose type is in PB_DECODERS, that has a size if it
-- is a pointer, and whose submessage has a smaller rank than the message `a` that it is part of.
pub record Good (rank : ℕ → ℕ) (a : ℕ) (f : Field) : Type 0 where
  pub known : leb (pb_ltype f.type) 9 ≡ true
  pub no_extension : (pb_ltype f.type == Ltype.extension) ≡ false
  pub no_callback : (pb_atype f.type == Atype.callback) ≡ false
  pub has_size : (pb_atype f.type == Atype.pointer) ≡ true → (f.data_size == 0) ≡ false
  pub deeper : (pb_ltype f.type == Ltype.submessage) ≡ true → rank f.ptr < rank a

-- All fields are such: the submessages do not contain each other.
pub record Acyclic (descriptors : ℕ → List Field) (rank : ℕ → ℕ) : Type 0 where
  pub good : (a i : ℕ) → Good rank a (field_at (descriptors a) i)

pub Total-some : (g : Memory → Memory) → Total (λ m. some (g m))
Total-some g = record { done = λ m. refl }

pub Total-test :
    (c : Memory → Bool) {f g : Update} → Total f → Total g → Total (λ m. if c m then f m else g m)
Total-test c {f} {g} hf hg = record { done = λ m. branch m (c m) }
  where
    branch : (m : Memory) (b : Bool) → is_done (if b then f m else g m) ≡ true
    branch m true = hf.done m
    branch m false = hg.done m

-- A test that does not depend on the memory.
pub Total-cond :
    (c : Bool) {f g : Update}
    → (c ≡ true → Total f)
    → (c ≡ false → Total g)
    → Total (λ m. if c then f m else g m)
Total-cond true hf hg = record { done = λ m. (hf refl).done m }
Total-cond false hf hg = record { done = λ m. (hg refl).done m }

-- An update that looks at the memory first.
pub Total-memory : {f : Memory → Update} → ((m : Memory) → Total (f m)) → Total (λ m. f m m)
Total-memory h = record { done = λ m. (h m).done m }

pub Total-then : {f k : Update} → Total f → Total k → Total (λ m. update_then (f m) k)
Total-then {f} {k} hf hk = record { done = λ m. after (f m) (hf.done m) }
  where
    after : (o : Option Memory) → is_done o ≡ true → is_done (update_then o k) ≡ true
    after none e = absurd (cc)
    after (some m') e = hk.done m'

field_at-beyond : (fields : List Field) (i : ℕ) → length fields ≤ i → (field_at fields i).tag ≡ 0
field_at-beyond [] i h = refl
field_at-beyond (f ∷ fields) zero h = absurd (omega arith)
field_at-beyond (f ∷ fields) (suc i) h = field_at-beyond fields i (omega arith)

-- Where there is a next field, the iterator moves on by one, and was inside the array.
next-inside : (it : Iter) → (pb_field_iter_next it).0 ≡ true → it.pos < length it.start
unfolding pb_field_iter_next
next-inside it h = elim (dec_lt it.pos (length it.start)) [
  | yes inside ↦ inside
  | no beyond ↦ absurd (ground (arith, field_at-beyond it.start it.pos (omega arith)))
]

next-moved :
    (it : Iter) → (pb_field_iter_next it).0 ≡ true → ((pb_field_iter_next it).1).pos ≡ it.pos + 1
unfolding pb_field_iter_next
next-moved it h = ground arith

pub Total-each_field :
    (f : Iter → Update) (fields : List Field)
    → ((it : Iter) → it.start ≡ fields → Total (f it))
    → (n : ℕ) (it : Iter) → it.start ≡ fields
    → 0 < n
    → length fields < it.pos + n
    → Total (each_field f n it)
unfolding each_field
Total-each_field f fields hf zero it e h enough = absurd (omega arith)
Total-each_field f fields hf (suc n) it e h enough = Total-then (hf it e) (
    rest (Total-each_field f fields hf n ((pb_field_iter_next it).1)) ((pb_field_iter_next it).0)
      refl)
  where
    rest :
        (((pb_field_iter_next it).1).start ≡ fields
          → 0 < n
          → length fields < ((pb_field_iter_next it).1).pos + n
          → Total (each_field f n ((pb_field_iter_next it).1)))
        → (b : Bool) → (pb_field_iter_next it).0 ≡ b
        → Total (if b then each_field f n ((pb_field_iter_next it).1) else some)
    rest further true more =
        further (next-start it ∙ e) (omega (arith, next-inside it more, ap length e))
          (omega (arith, next-moved it more))
    rest further false more = Total-some (λ m. m)

-- The search for the end of the descriptors ends.
seek_end-some : (n : ℕ) (it : Iter) → 0 < n → length it.start < it.pos + n → seek_end n it ≢ none
unfolding seek_end
seek_end-some zero it h enough = absurd (omega arith)
seek_end-some (suc n) it h enough =
    rest (seek_end-some n ((pb_field_iter_next it).1)) ((pb_field_iter_next it).0) refl
  where
    rest :
        (0 < n
          → length ((pb_field_iter_next it).1).start < ((pb_field_iter_next it).1).pos + n
          → seek_end n ((pb_field_iter_next it).1) ≢ none)
        → (b : Bool) → (pb_field_iter_next it).0 ≡ b
        → (if b
            then seek_end n ((pb_field_iter_next it).1)
            else some ((it.required_field_index, (field_of it).type), (pb_field_iter_next it).1))
          ≢ none
    rest further true more =
        further (omega (arith, next-inside it more))
          (omega (arith, next-moved it more, ap length (next-start it)))
    rest further false more = λ e. cc

pub check_required-some : (it : Iter) (seen : List ℕ) → check_required it seen ≢ none
unfolding check_required
check_required-some it seen =
    given (seek_end (length it.start + 1) it)
      (seek_end-some (length it.start + 1) it (omega arith) (omega arith))
  where
    given :
        (o : Option ((ℕ × ℕ) × Iter))
        → o ≢ none
        → (elim o [ none ↦ none | some end ↦ some (required_present (req_field_count end) seen) ])
          ≢ none
    given none h e = absurd (h refl)
    given (some end) h e = cc

module _ (descriptors : ℕ → List Field) (rank : ℕ → ℕ) (acyclic : Acyclic descriptors rank) where
  pub field-Good : (it : Iter) (a : ℕ) → it.start ≡ descriptors a → Good rank a (field_of it)
  field-Good it a e = subst (λ fs. Good rank a (field_at fs it.pos)) (sym e) (acyclic.good a it.pos)

  -- The update ends for the fields of messages of a rank below `r`.
  abbrev pub TotalBelow : (Iter → Update) → ℕ → Type 0
  TotalBelow f r = (it : Iter) (a : ℕ) → it.start ≡ descriptors a → rank a < r → Total (f it)

  pub Total-each_message_field :
      (f : Iter → Update) (r a dest : ℕ)
      → TotalBelow f r
      → rank a < r
      → Total (each_message_field descriptors f a dest)
  unfolding each_message_field
  Total-each_message_field f r a dest hf h =
      Total-cond ((pb_field_iter_begin (descriptors a) dest).0)
        (λ begun.
          fields ((pb_field_iter_begin (descriptors a) dest).1)
            (unfold pb_field_iter_begin in refl))
        (λ empty. Total-some λ m. m)
    where
      fields :
          (it : Iter)
          → it.start ≡ descriptors a
          → Total (each_field f (length (descriptors a) + 1) it)
      fields it e =
          Total-each_field f (descriptors a) (λ it' e'. hf it' a e' h) (length (descriptors a) + 1)
            it e (omega arith) (omega arith)

  Total-default_data :
      (f : Iter → Update) (r : ℕ) (it : Iter)
      → TotalBelow f r
      → ((pb_ltype (field_of it).type == Ltype.submessage) ≡ true → rank (field_of it).ptr < r)
      → Total (default_data descriptors f it)
  unfolding default_data
  Total-default_data f r it hf deeper =
      Total-cond (pb_ltype (field_of it).type == Ltype.submessage)
        (λ sub. Total-each_message_field f r (field_of it).ptr it.p_data hf (deeper sub))
        (λ plain. Total-test (λ m. not ((field_of it).ptr == 0)) (Total-some _) (Total-some _))

  Total-default_static :
      (f : Iter → Update) (r : ℕ) (it : Iter)
      → TotalBelow f r
      → ((pb_ltype (field_of it).type == Ltype.submessage) ≡ true → rank (field_of it).ptr < r)
      → Total (default_static descriptors f it)
  unfolding default_static
  Total-default_static f r it hf deeper =
      let content = Total-default_data f r it hf deeper in
      Total-test _ (record { done = λ m. content.done _ }) (Total-test _ (Total-some _) content)

  pub Total-pb_field_set_to_default :
      (bound depth : ℕ) → TotalBelow (pb_field_set_to_default descriptors bound depth) depth
  unfolding pb_field_set_to_default default_field_with
  Total-pb_field_set_to_default bound zero it a e h = absurd (omega arith)
  Total-pb_field_set_to_default bound (suc depth) it a e h =
      let g = field-Good it a e in
      Total-cond (pb_ltype (field_of it).type == Ltype.extension) (λ ext. absurd (cc))
        (λ plain.
          Total-test _
            (Total-default_static (pb_field_set_to_default descriptors bound depth) depth it
              (Total-pb_field_set_to_default bound depth) (λ sub. omega (arith, g.deeper sub)))
            (Total-test _ (Total-some _) (Total-some _)))

  pub Total-pb_message_set_to_defaults :
      (bound a dest : ℕ)
      → rank a < bound
      → Total (pb_message_set_to_defaults descriptors bound a dest)
  unfolding pb_message_set_to_defaults
  Total-pb_message_set_to_defaults bound a dest h =
      Total-each_message_field (pb_field_set_to_default descriptors bound bound) bound a dest
        (Total-pb_field_set_to_default bound bound) h
