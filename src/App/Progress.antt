-- ===== src/App/Progress.antt =====
-- MovieDBApp/MovieDBApp/MoviesViewer/MoviesTableViewDataSource.swift: how paging goes on, by a
-- prefetch and an answer.
use prj_movie_dbapp.Prelude.{
  ℕ, ◌+◌, ◌<◌, ◌≡◌, refl, sym, ap, ◌∙◌, Bool, true, false, Option, none, some, List, [], ◌∷◌, ◌++◌,
  inl, inr, map, append-nil, arith, length, length-append, get_elem?, set,
}
use mathlib.Core.Path.{subst}
use prj_movie_dbapp.App.Int.{pos}
use prj_movie_dbapp.App.Service.{
  Text, Data, Movie, MovieNetworkResponse, from_network_response, Platform, data_task,
  decoded_movies, fetched,
}
use prj_movie_dbapp.App.DataSource.{
  running, completed, Task, DataSource, is_fetching, prefetch, respond,
}
use prj_movie_dbapp.App.Steps.{pages_of, Step, Reach, prefetches, ends, responds, next}
use prj_movie_dbapp.App.Pages.{Shows, Reach-Shows}
use prj_movie_dbapp.App.Idle.{
  get_elem?-last, prefetch-add_task, Ended, is_fetching-some, is_fetching-ended,
}

module _ {Image : Type 0} where
  module _ (platform : Platform Image) (phrase : Option Text) where
    quiet :
        {d d' : DataSource Image} {received : List (List (Movie Image))}
        → Reach platform phrase d received
        → Step platform d d' []
        → Reach platform phrase d' received
    quiet {d' = d'} {received = received} r step =
        subst (λ k. Reach platform phrase d' k) (append-nil received) (next r step)

    -- A state without a running task is reached by a step or at once, with the list unchanged.
    Reach-idle :
        {d : DataSource Image} {received : List (List (Movie Image))}
        → Reach platform phrase d received
        → (d' : DataSource Image) × Ended d d'
          × Reach platform phrase d' received
          × (is_fetching d' ≡ false)
          × (d'.movies ≡ d.movies)
          × (d'.page ≡ d.page)
          × (d'.search_phrase ≡ d.search_phrase)
    Reach-idle {d} {received} r = by_test (is_fetching d) refl
      where
        by_test :
            (active : Bool)
            → is_fetching d ≡ active
            → (d' : DataSource Image) × Ended d d'
              × Reach platform phrase d' received
              × (is_fetching d' ≡ false)
              × (d'.movies ≡ d.movies)
              × (d'.page ≡ d.page)
              × (d'.search_phrase ≡ d.search_phrase)
        by_test false e = (d, inl (e, refl), r, e, refl, refl, refl)
        by_test true e =
            let (i, task, kept, at) = is_fetching-some d e in
            (
              record d { tasks = set d.tasks i (record task { state = completed }) },
              inr (i, task, kept, at, refl),
              quiet r (ends i task completed at refl refl refl),
              is_fetching-ended d i task kept at,
              refl,
              refl,
              refl,
            )

    -- With a decodable answer, the last task adds its page.
    fetched-pages :
        (body : Data) (results : List MovieNetworkResponse)
        → platform.decode_movies body ≡ some results
        → pages_of (fetched platform (data_task (some body, none)))
          ≡ map from_network_response results ∷ []
    unfolding data_task fetched decoded_movies
    fetched-pages body results h = ap (λ k. pages_of (decoded_movies platform k)) h

    -- From every state that a data source reaches, and for every row of its list that is among
    -- the last four, the table has the next page loaded: at once, or after the running task has
    -- ended, a prefetch of that row makes a task for the phrase and for the page `page`, and when
    -- a decodable answer to it arrives, the data source has received one more page, with the
    -- movies of that answer, and `page` is one more.
    pub Reach-goes_on :
        {d : DataSource Image} {received : List (List (Movie Image))} (row : ℕ) (body : Data)
        (results : List MovieNetworkResponse)
        → Reach platform phrase d received
        → row < length d.movies
        → length d.movies < row + 5
        → platform.decode_movies body ≡ some results
        → (d0 : DataSource Image) × (task : Task) × Ended d d0
          × (get_elem? (prefetch (pos row ∷ []) d0).tasks (length d0.tasks) ≡ some task)
          × (task.phrase ≡ d.search_phrase)
          × (task.page ≡ d.page)
          × Reach platform phrase
              (respond platform
                (length d0.tasks)
                task
                (some body, none)
                (prefetch (pos row ∷ []) d0))
              (received ++ map from_network_response results ∷ [])
          × ((respond platform
                (length d0.tasks)
                task
                (some body, none)
                (prefetch (pos row ∷ []) d0)).page
              ≡ d.page + 1)
    Reach-goes_on {d} {received} row body results r listed near h =
        let (d0, ended, r0, idle, movies, page, search_phrase) = Reach-idle r in
        let task : Task = record {
          phrase = d0.search_phrase;
          page = d0.page;
          state = running;
          waiting = true;
        } in
        let asked =
          prefetch-add_task row d0 (omega (arith, near, ap (λ ms. length ms) movies)) idle in
        let at : get_elem? (prefetch (pos row ∷ []) d0).tasks (length d0.tasks) ≡ some task =
          ap (λ k. get_elem? k.tasks (length d0.tasks)) asked ∙ get_elem?-last d0.tasks task in
        let answered = next (quiet r0 (prefetches (pos row ∷ []) refl refl)) (
          responds (length d0.tasks) task (some body, none) at refl refl
            (sym (fetched-pages body results h))) in
        (
          d0,
          task,
          ended,
          at,
          search_phrase,
          page,
          answered,
          turned (map from_network_response results) (Reach-Shows platform phrase r)
              (Reach-Shows platform phrase answered),
        )
      where
        turned :
            (page : List (Movie Image)) {d' : DataSource Image}
            → Shows d received
            → Shows d' (received ++ page ∷ [])
            → d'.page ≡ d.page + 1
        turned page s s' =
            s'.counted
            ∙ ap (λ k. k + 1) (length-append received (page ∷ []))
            ∙ ap (λ k. k + 1) (sym s.counted)
