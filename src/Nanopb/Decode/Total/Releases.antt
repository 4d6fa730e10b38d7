-- ===== src/Nanopb/Decode/Total/Releases.antt =====
-- MovieDBApp/Pods/nanopb/pb_decode.c: the end of pb_release, on the bound of the nesting.
use prj_movie_dbapp.Prelude.{
  ℕ, zero, suc, ◌+◌, ◌<◌, ◌≡◌, refl, not, arith, ◌==◌, if◌then◌else◌, length, ◌∙◌, ◌||◌,
}
use prj_movie_dbapp.Nanopb.Field.Ltype
use prj_movie_dbapp.Nanopb.Field.Atype
use prj_movie_dbapp.Nanopb.Field.{
  Memory, load_word, pb_ltype, pb_atype, pointer_size, invalid_union_tag, iterator_error,
}
use prj_movie_dbapp.Nanopb.Iter.{Iter, field_of, pb_field_iter_next, pb_field_iter_find, find_loop}
use prj_movie_dbapp.Nanopb.Iter.Find.{next-start}
use prj_movie_dbapp.Nanopb.Decode.Action.{Env, Update, on_memory, pure, return_error}
use prj_movie_dbapp.Nanopb.Decode.Release.{
  each_item, release_with, release_submessages, submessage_count, release_inner, release_field_with,
  release_field, pb_release_single_field, pb_release, pb_release_union_field, release_old,
}
use prj_movie_dbapp.Nanopb.Decode.Total.{Total, Settles, Yields}
use prj_movie_dbapp.Nanopb.Decode.Total.Rules.{
  Settles-test, Settles-memory, Yields-test, Yields-pure, Yields-memory, Yields-return_error,
  Yields-any, Settles-pure, Settles-return_error, Settles-on_memory,
}
use prj_movie_dbapp.Nanopb.Decode.Total.Binds.{Yields->>=, Settles->>=}
use prj_movie_dbapp.Nanopb.Decode.Total.Updates.{
  Acyclic, field-Good, TotalBelow, Total-some, Total-test, Total-cond, Total-then, Total-memory,
  Total-each_message_field,
}

Total-each_item :
    (f : ℕ → Update)
    → ((item : ℕ) → Total (f item))
    → (count data_size item : ℕ) → Total (each_item f count data_size item)
unfolding each_item
Total-each_item f hf zero data_size item = Total-some λ m. m
Total-each_item f hf (suc count) data_size item =
    Total-then (hf item) (Total-each_item f hf count data_size (item + data_size))

-- The search stays in the array.
find_loop-start :
    (fuel start tag : ℕ) (it : Iter) → ((find_loop fuel start tag it).1).start ≡ it.start
unfolding find_loop
find_loop-start zero start tag it = refl
find_loop-start (suc fuel) start tag it =
    ground (arith, next-start it, find_loop-start fuel start tag ((pb_field_iter_next it).1))

pub find-start : (it : Iter) (tag : ℕ) → ((pb_field_iter_find it tag).1).start ≡ it.start
unfolding pb_field_iter_find
find-start it tag = find_loop-start (length it.start + 1) it.pos tag it

module _ (env : Env) (rank : ℕ → ℕ) (acyclic : Acyclic env.descriptors rank) where
  Total-release_with :
      (f : Iter → Update) (r a dest : ℕ)
      → TotalBelow env.descriptors rank acyclic f r
      → rank a < r
      → Total (release_with env f a dest)
  unfolding release_with
  Total-release_with f r a dest hf h =
      Total-test (λ m. dest == 0) (Total-some λ m. m)
        (Total-each_message_field env.descriptors rank acyclic f r a dest hf h)

  Total-release_submessages :
      (f : Iter → Update) (r : ℕ) (it : Iter)
      → TotalBelow env.descriptors rank acyclic f r
      → rank (field_of it).ptr < r
      → Total (release_submessages env f it)
  unfolding release_submessages
  Total-release_submessages f r it hf h =
      Total-test (λ m. item m == 0) (Total-some λ m. m)
        (Total-memory λ m.
          Total-each_item (release_with env f (field_of it).ptr)
            (λ p. Total-release_with f r (field_of it).ptr p hf h) (submessage_count it m)
            (field_of it).data_size (item m))
    where
      item : Memory → ℕ
      item m =
          if pb_atype (field_of it).type == Atype.pointer
          then load_word m it.p_data pointer_size
          else it.p_data

  Total-release_field :
      (depth : ℕ) → TotalBelow env.descriptors rank acyclic (release_field env depth) depth
  unfolding release_field release_field_with release_inner
  Total-release_field zero it a e h = absurd (omega arith)
  Total-release_field (suc depth) it a e h =
      let g = field-Good env.descriptors rank acyclic it a e in
      Total-test _ (Total-some λ m. m) (
        Total-then
          (Total-cond (pb_ltype (field_of it).type == Ltype.extension) (λ ext. absurd (cc))
            (λ plain.
              Total-cond (pb_ltype (field_of it).type == Ltype.submessage)
                (λ sub.
                  Total-release_submessages (release_field env depth) depth it
                    (Total-release_field depth) (omega (arith, g.deeper sub)))
                (λ scalar. Total-some λ m. m)))
          (Total-test _ (Total-some _) (Total-some _)))

  module _ (bounded : (a : ℕ) → rank a < env.bound) where
    pub Total-pb_release_single_field :
        (it : Iter) (a : ℕ) → it.start ≡ env.descriptors a → Total (pb_release_single_field env it)
    unfolding pb_release_single_field
    Total-pb_release_single_field it a e = Total-release_field env.bound it a e (bounded a)

    pub Total-pb_release : (a dest : ℕ) → Total (pb_release env a dest)
    unfolding pb_release pb_release_single_field
    Total-pb_release a dest =
        Total-release_with (release_field env env.bound) env.bound a dest
          (Total-release_field env.bound) (bounded a)

    module _ (it : Iter) (a : ℕ) (e : it.start ≡ env.descriptors a) where
      Settles-release_old : (tag : ℕ) → Settles (release_old env tag it)
      unfolding release_old
      Settles-release_old tag =
          let (found, old) = pb_field_iter_find it tag in
          let restored = (pb_field_iter_find old (field_of it).tag).0 in
          Settles-test (λ m s. not found) (Settles-return_error invalid_union_tag)
            (Settles->>=
              (Settles-on_memory (Total-pb_release_single_field old a (find-start it tag ∙ e)))
              λ u.
                Settles-test (λ m s. restored) (Settles-pure _)
                  (Settles-return_error iterator_error))

      pub Settles-pb_release_union_field : Settles (pb_release_union_field env it)
      unfolding pb_release_union_field
      Settles-pb_release_union_field =
          Settles-test
            (λ m s. load_word m it.p_size 4 == 0 || load_word m it.p_size 4 == (field_of it).tag)
            (Settles-pure it) (Settles-memory λ m. Settles-release_old (load_word m it.p_size 4))

      Yields-release_old :
          (tag : ℕ)
          → Yields (λ (it' : Iter). it'.start ≡ env.descriptors a) (release_old env tag it)
      unfolding release_old
      Yields-release_old tag =
          let (found, old) = pb_field_iter_find it tag in
          let (restored, it') = pb_field_iter_find old (field_of it).tag in
          Yields-test (λ m s. not found) (Yields-return_error invalid_union_tag)
            (Yields->>= {P = λ u. Unit} {f = on_memory (pb_release_single_field env old)}
              {k = λ u m s. if restored then pure it' m s else return_error iterator_error m s}
              (Yields-any _)
              λ u p.
                Yields-test (λ m s. restored)
                  (Yields-pure it' (find-start old (field_of it).tag ∙ (find-start it tag ∙ e)))
                  (Yields-return_error iterator_error))

      -- The iterator that comes back is still in the array.
      pub Yields-pb_release_union_field :
          Yields (λ (it' : Iter). it'.start ≡ env.descriptors a) (pb_release_union_field env it)
      unfolding pb_release_union_field
      Yields-pb_release_union_field =
          Yields-test
            (λ m s. load_word m it.p_size 4 == 0 || load_word m it.p_size 4 == (field_of it).tag)
            (Yields-pure it e) (Yields-memory λ m. Yields-release_old (load_word m it.p_size 4))
