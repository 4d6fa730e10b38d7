-- ===== src/App/Idle.antt =====
-- MovieDBApp/MovieDBApp/MoviesViewer/MoviesTableViewDataSource.swift: the end of the running task,
-- and the prefetch of a row while none runs.
use prj_movie_dbapp.Prelude.{
  ℕ, zero, suc, ◌+◌, ◌<◌, ◌≡◌, refl, sym, ap, Bool, true, false, Option, none, some, List, [], ◌∷◌,
  ◌++◌, ◌⊎◌, arith, length, get_elem?, set, if◌then◌else◌,
}
use mathlib.Core.Path.{subst}
use prj_movie_dbapp.App.Int.{pos, sub_nat, gtb}
use prj_movie_dbapp.App.Service.{FetchingError, already_active}
use prj_movie_dbapp.App.DataSource.{
  completed, Task, DataSource, is_running, is_fetching, add_task, fetch, load_data_source, max_row,
  prefetch,
}
use prj_movie_dbapp.App.Fits.{is_running-some}

-- The last four rows of the list, and those behind it, are near the end.
gtb-near_end : (row n : ℕ) → n < row + 5 → gtb (pos row) (sub_nat n 5) ≡ true
unfolding gtb sub_nat
gtb-near_end row n h = ground arith

pub get_elem?-last :
    {A : Type 0} (xs : List A) (x : A) → get_elem? (xs ++ x ∷ []) (length xs) ≡ some x
get_elem?-last [] x = refl
get_elem?-last (y ∷ xs) x = get_elem?-last xs x

get_elem?-set_there :
    {A : Type 0} (xs : List A) (i : ℕ) (x y : A)
    → get_elem? xs i ≡ some x
    → get_elem? (set xs i y) i ≡ some y
get_elem?-set_there [] i x y h = absurd (cc)
get_elem?-set_there (z ∷ xs) zero x y h = refl
get_elem?-set_there (z ∷ xs) (suc i) x y h = get_elem?-set_there xs i x y h

module _ {Image : Type 0} where
  -- A prefetch of such a row asks for the page, if no task runs.
  pub prefetch-add_task :
      (row : ℕ) (d : DataSource Image)
      → length d.movies < row + 5
      → is_fetching d ≡ false
      → prefetch (pos row ∷ []) d ≡ add_task d.search_phrase d
  unfolding prefetch max_row load_data_source fetch
  prefetch-add_task row d near h = tests_hold (gtb-near_end row (length d.movies) near) h
    where
      tests_hold :
          {near active : Bool}
          → near ≡ true
          → active ≡ false
          → (if near
              then (let result : DataSource Image × Option FetchingError =
                    if active
                    then (d, some already_active)
                    else (add_task d.search_phrase d, none) in
                  result.0)
              else d)
            ≡ add_task d.search_phrase d
      tests_hold {near = true} {active = false} p q = refl
      tests_hold {near = false} p q = absurd (cc)
      tests_hold {near = true} {active = true} p q = absurd (cc)

  -- The task that runs, if there is one, ends.
  abbrev pub Ended : DataSource Image → DataSource Image → Type 0
  Ended d d' =
      ((is_fetching d ≡ false) × (d' ≡ d))
      ⊎ ((i : ℕ) × (task : Task) × (d.fetching_movies_task ≡ some i)
          × (get_elem? d.tasks i ≡ some task)
          × (d' ≡ record d { tasks = set d.tasks i (record task { state = completed }) }))

  -- Which task it is that runs.
  pub is_fetching-some :
      (d : DataSource Image)
      → is_fetching d ≡ true
      → (i : ℕ) × (task : Task) × (d.fetching_movies_task ≡ some i)
        × (get_elem? d.tasks i ≡ some task)
  unfolding is_fetching
  is_fetching-some d h = given (d.fetching_movies_task) h
    where
      given :
          (o : Option ℕ)
          → (elim o [ none ↦ false | some i ↦ is_running (get_elem? d.tasks i) ]) ≡ true
          → (i : ℕ) × (task : Task) × (o ≡ some i) × (get_elem? d.tasks i ≡ some task)
      given none h = absurd (cc)
      given (some i) h =
          let found = is_running-some (get_elem? d.tasks i) h in (i, found.0, refl, found.1)

  pub is_fetching-ended :
      (d : DataSource Image) (i : ℕ) (task : Task)
      → d.fetching_movies_task ≡ some i
      → get_elem? d.tasks i ≡ some task
      → is_fetching (record d { tasks = set d.tasks i (record task { state = completed }) }) ≡ false
  unfolding is_fetching
  is_fetching-ended d i task e at = given (d.fetching_movies_task) e
    where
      given :
          (o : Option ℕ)
          → o ≡ some i
          → (elim o [
            | none ↦ false
            | some j ↦ is_running (get_elem? (set d.tasks i (record task { state = completed })) j)
          ])
            ≡ false
      given none e = refl
      given (some j) e =
          subst
            (λ k.
              is_running (get_elem? (set d.tasks i (record task { state = completed })) k) ≡ false)
            (sym (some_same e))
            (ap is_running
              (get_elem?-set_there d.tasks i task (record task { state = completed }) at))
        where
          some_same : ◌≡◌ {A = Option ℕ} (some j) (some i) → j ≡ i
          some_same p = cc
