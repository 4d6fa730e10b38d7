-- ===== src/App/Pages.antt =====
-- MovieDBApp/MovieDBApp/MoviesViewer/MoviesTableViewDataSource.swift: the list of movies and the
-- pages received.
use prj_movie_dbapp.Prelude.{
  suc, ◌+◌, ◌≡◌, refl, sym, ap, ◌∙◌, Bool, true, false, Option, none, some, List, [], ◌∷◌, ◌++◌,
  map, append-nil, append_assoc, length, length-append, set, if◌then◌else◌, take, drop,
}
use mathlib.Core.Path.{subst}
use prj_movie_dbapp.App.Int.{ℤ, sub_nat, gtb}
use prj_movie_dbapp.App.Service.{
  Text, Movie, Platform, Result, success, failure, FetchingError, already_active, data_task,
  fetched, fetched_posters,
}
use prj_movie_dbapp.App.DataSource.{
  DataSource, is_fetching, add_task, fetch, load_data_source, init, max_row, prefetch,
  poster_completion, movies_completion, respond, respond_posters,
}
use prj_movie_dbapp.App.Steps.{
  pages_of, Step, Reach, prefetches, ends, responds, responds_posters, start, next,
}
use prj_movie_dbapp.App.Posters.{
  without_poster, SameButPosters, Same-poster_completion, Same-load_all_posters,
}

module _ {Image : Type 0} where
  -- What holds of the state, and of the state with a new task when none runs, holds after a prefetch.
  pub load_data_source-cases :
      (P : DataSource Image → Type 0) (phrase : Option Text) (d : DataSource Image)
      → P d
      → (is_fetching d ≡ false → P (add_task phrase d))
      → P (load_data_source phrase d)
  unfolding load_data_source fetch
  load_data_source-cases P phrase d old new = split (is_fetching d) new
    where
      split :
          (c : Bool)
          → (c ≡ false → P (add_task phrase d))
          → P (
              let result : DataSource Image × Option FetchingError =
                if c then (d, some already_active) else (add_task phrase d, none) in
              result.0)
      split true new = old
      split false new = new refl

  pub prefetch-cases :
      (P : DataSource Image → Type 0) (rows : List ℤ) (d : DataSource Image)
      → P d
      → (is_fetching d ≡ false → P (add_task d.search_phrase d))
      → P (prefetch rows d)
  unfolding prefetch
  prefetch-cases P rows d old new = given (max_row rows)
    where
      asked : (c : Bool) → P (if c then load_data_source d.search_phrase d else d)
      asked true = load_data_source-cases P d.search_phrase d old new
      asked false = old

      given :
          (o : Option ℤ)
          → P (elim o [
            | none ↦ d
            | some row ↦
                if gtb row (sub_nat (length d.movies) 5)
                then load_data_source d.search_phrase d
                else d
          ])
      given none = old
      given (some row) = asked (gtb row (sub_nat (length d.movies) 5))

  -- The pages one after the other, as they were received.
  abbrev pub concat : List (List (Movie Image)) → List (Movie Image)
  concat [] = []
  concat (page ∷ pages) = page ++ concat pages

  -- The list is the pages, and the next page is the one behind them.
  pub record Shows (d : DataSource Image) (received : List (List (Movie Image))) : Type 0 where
    pub list : map without_poster d.movies ≡ map without_poster (concat received)
    pub counted : d.page ≡ length received + 1

  Shows-same :
      {d d' : DataSource Image} {received : List (List (Movie Image))}
      → SameButPosters d d'
      → Shows d received
      → Shows d' received
  Shows-same h s = record { list = h.movies_same ∙ s.list; counted = h.page_same ∙ s.counted }

  map-append :
      (xs ys : List (Movie Image))
      → map without_poster (xs ++ ys) ≡ map without_poster xs ++ map without_poster ys
  map-append [] ys = refl
  map-append (x ∷ xs) ys = ap (λ k. without_poster x ∷ k) (map-append xs ys)

  concat-append :
      (pages : List (List (Movie Image))) (page : List (Movie Image))
      → concat (pages ++ page ∷ []) ≡ concat pages ++ page
  concat-append [] page = append-nil page
  concat-append (p ∷ pages) page =
      ap (λ k. p ++ k) (concat-append pages page) ∙ sym (append_assoc p (concat pages) page)

  module _ (platform : Platform Image) where
    Shows-movies_completion :
        (r : Result (List (Movie Image)) FetchingError) (d : DataSource Image)
        (received : List (List (Movie Image)))
        → Shows d received
        → Shows (movies_completion platform r d) (received ++ pages_of r)
    unfolding movies_completion
    Shows-movies_completion (failure error) d received s =
        subst (λ k. Shows d k) (sym (append-nil received)) s
    Shows-movies_completion (success page) d received s =
        Shows-same (Same-load_all_posters platform _ 0 _) (record {
          list =
              map-append d.movies page
              ∙ ap (λ k. k ++ map without_poster page) s.list
              ∙ sym (map-append (concat received) page)
              ∙ ap (map without_poster) (sym (concat-append received page));
          counted =
              ap (λ k. k + 1) s.counted
              ∙ ap (λ k. k + 1) (sym (length-append received (page ∷ [])));
        })

    moved :
        (received : List (List (Movie Image))) {d d' : DataSource Image}
        {new page : List (List (Movie Image))}
        → d ≡ d'
        → new ≡ page
        → Shows d' (received ++ page)
        → Shows d (received ++ new)
    moved received {d' = d'} {new = new} e n s =
        subst (λ k. Shows k (received ++ new)) (sym e)
          (subst (λ k. Shows d' (received ++ k)) (sym n) s)

    quiet :
        (received : List (List (Movie Image))) (d' : DataSource Image) {d : DataSource Image}
        {new : List (List (Movie Image))}
        → d ≡ d'
        → new ≡ []
        → Shows d' received
        → Shows d (received ++ new)
    quiet received d' e n s =
        moved received e n (subst (λ k. Shows d' k) (sym (append-nil received)) s)

    Step-Shows :
        {d d' : DataSource Image} {received new : List (List (Movie Image))}
        → Step platform d d' new
        → Shows d received
        → Shows d' (received ++ new)
    unfolding respond respond_posters
    Step-Shows {d} {received = received} (prefetches rows e n) s =
        quiet received (prefetch rows d) e n (
          prefetch-cases (λ k. Shows k received) rows d s
            (λ _. record { list = s.list; counted = s.counted }))
    Step-Shows {d} {received = received} (ends i task state at dead e n) s =
        quiet received (record d { tasks = set d.tasks i (record task { state = state }) }) e n
          (record { list = s.list; counted = s.counted })
    Step-Shows {d} {received = received} (responds i task answer at w e n) s = moved received e n (
        Shows-movies_completion (fetched platform (data_task answer))
          (record d { tasks = set d.tasks i (record task { waiting = false }) }) received
          (record { list = s.list; counted = s.counted }))
    Step-Shows {d} {received = received} (responds_posters j row answer at e n) s =
        let d' = record d { poster_tasks = take j d.poster_tasks ++ drop (suc j) d.poster_tasks } in
        let posters = fetched_posters platform (data_task answer) in
        quiet received (poster_completion platform row posters d') e n (
          Shows-same {d = d'} (Same-poster_completion platform row posters d')
            (record { list = s.list; counted = s.counted }))

    -- In every state that a data source reaches by prefetches, ends of tasks and answers in any
    -- order, its list is the pages received, one after the other in the order of receipt, up to
    -- posters, and `page` is their number and one.
    pub Reach-Shows :
        (phrase : Option Text) {d : DataSource Image} {received : List (List (Movie Image))}
        → Reach platform phrase d received
        → Shows d received
    unfolding init
    Reach-Shows phrase start =
        load_data_source-cases (λ k. Shows k []) phrase _ (record { list = refl; counted = refl })
          (λ _. record { list = refl; counted = refl })
    Reach-Shows phrase (next r step) = Step-Shows step (Reach-Shows phrase r)
