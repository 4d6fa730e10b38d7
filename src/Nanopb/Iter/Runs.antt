-- ===== src/Nanopb/Iter/Runs.antt =====
-- The theorems on the iterator at concrete inputs.
use prj_movie_dbapp.Prelude.{ℕ, zero, suc, ◌<◌, ◌≡◌, ◌≢◌, refl, true, false, List, [], ◌∷◌, arith}
use prj_movie_dbapp.Nanopb.Field.{Field, forth, last_field, pb_ltype}
use prj_movie_dbapp.Nanopb.Field.Ltype
use prj_movie_dbapp.Nanopb.Iter.{
  Iter, field_at, field_of, pb_field_iter_begin, pb_field_iter_next, prev_size, in_union,
  iter_advance, has_tag, find_loop, pb_field_iter_find,
}
use prj_movie_dbapp.Nanopb.Iter.Counted.{Counted, Counted-begin, Counted-find}
use prj_movie_dbapp.Nanopb.Iter.Find.{Terminated, find-missing}
use prj_movie_dbapp.Nanopb.Iter.Found.{find-found}

abbrev field_with : ℕ → Field
field_with tag = record {
  tag = tag;
  type = 0;
  data_offset = 0;
  size_offset = forth 0;
  data_size = 4;
  array_size = 0;
  ptr = 0;
}

abbrev fields : List Field
fields = field_with 3 ∷ field_with 5 ∷ field_with 9 ∷ last_field ∷ []

-- The search begins at the second field.
abbrev second : Iter
second = record {
  start = fields;
  pos = 1;
  required_field_index = 0;
  dest_struct = 100;
  p_data = 104;
  p_size = 104;
}

find_run : (pb_field_iter_find second 3).0 ≡ true
unfolding pb_field_iter_find find_loop pb_field_iter_next pb_field_iter_begin prev_size in_union
    iter_advance has_tag
find_run = refl

miss_run : (pb_field_iter_find second 4).0 ≡ false
unfolding pb_field_iter_find find_loop pb_field_iter_next pb_field_iter_begin prev_size in_union
    iter_advance has_tag
miss_run = refl

fields-Terminated : Terminated fields 3
fields-Terminated = record { nonzero = λ i h. nonzero i h; ends = refl; listed = omega arith }
  where
    nonzero : (i : ℕ) → i < 3 → (field_at fields i).tag ≢ 0
    nonzero zero h = omega arith
    nonzero (suc zero) h = omega arith
    nonzero (suc (suc zero)) h = omega arith
    nonzero (suc (suc (suc i))) h = absurd (omega arith)

find-found_example :
    ((pb_field_iter_find second 3).0 ≡ true)
    × ((pb_field_iter_find second 3).1.start ≡ fields)
    × ((pb_field_iter_find second 3).1.pos < 3)
    × ((field_of ((pb_field_iter_find second 3).1)).tag ≡ 3)
    × (pb_ltype (field_of ((pb_field_iter_find second 3).1)).type ≢ Ltype.extension)
find-found_example =
    find-found second 3 3 0 fields-Terminated (omega arith) (omega arith) refl (omega arith)

find-missing_example :
    (has_tag (field_at fields 2) 4 ≡ false) × (((pb_field_iter_find second 4).1).pos ≡ 1)
find-missing_example =
    find-missing second 3 4 2 fields-Terminated (omega arith) miss_run (omega arith)

abbrev begun : Iter
begun = (pb_field_iter_begin fields 100).1

Counted-find_example : Counted ((pb_field_iter_find begun 9).1)
Counted-find_example = Counted-find begun 9 (Counted-begin fields 100)

-- Both fields before the one with tag 9 are required.
counted_run : ((pb_field_iter_find begun 9).1).required_field_index ≡ 2
unfolding pb_field_iter_find find_loop pb_field_iter_next pb_field_iter_begin prev_size in_union
    iter_advance has_tag
counted_run = refl
