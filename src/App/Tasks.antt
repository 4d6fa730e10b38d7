-- ===== src/App/Tasks.antt =====
-- MovieDBApp/MovieDBApp/Services/MovieService.swift: the tasks that the service creates for a
-- data source, and the one in fetchingMoviesTask, through the steps.
use prj_movie_dbapp.Prelude.{
  ℕ, suc, ◌+◌, ◌≤◌, ◌≡◌, refl, sym, true, false, Option, none, some, List, [], ◌++◌, arith,
  get_elem?, take, drop,
}
use mathlib.Core.Path.{subst}
use prj_movie_dbapp.App.Service.{
  Text, Movie, Platform, Result, success, failure, FetchingError, data_task, fetched,
  fetched_posters,
}
use prj_movie_dbapp.App.DataSource.{
  Task, DataSource, is_running, add_task, init, movies_completion, respond, respond_posters,
}
use prj_movie_dbapp.App.Steps.{
  Step, Reach, prefetches, ends, responds, responds_posters, start, next,
}
use prj_movie_dbapp.App.Posters.{SameButPosters, Same-poster_completion, Same-load_all_posters}
use prj_movie_dbapp.App.Pages.{load_data_source-cases, prefetch-cases}
use prj_movie_dbapp.App.Fits.{
  stopped, is_running-some, running-is_running, Tasks, Tasks-add_task, Tasks-set, Tasks-later,
}

module _ {Image : Type 0} where
  Tasks-same :
      {phrase : Option Text} {d d' : DataSource Image}
      → SameButPosters d d'
      → Tasks phrase d
      → Tasks phrase d'
  Tasks-same {d = d} {d' = d'} h t =
      Tasks-later d d' h.tasks_same h.fetching_same h.phrase_same (omega (arith, h.page_same)) t

  module _ (platform : Platform Image) where
    Tasks-movies_completion :
        {phrase : Option Text} (r : Result (List (Movie Image)) FetchingError)
        (d : DataSource Image)
        → Tasks phrase d
        → Tasks phrase (movies_completion platform r d)
    unfolding movies_completion
    Tasks-movies_completion (failure error) d t = t
    Tasks-movies_completion (success page) d t = Tasks-same (Same-load_all_posters platform _ 0 _) (
        Tasks-later d (record d { movies = d.movies ++ page; page = d.page + 1 }) refl refl refl
          (omega arith) t)

    Step-Tasks :
        {phrase : Option Text} {d d' : DataSource Image} {new : List (List (Movie Image))}
        → Step platform d d' new
        → Tasks phrase d
        → Tasks phrase d'
    unfolding respond respond_posters
    Step-Tasks {phrase} {d} (prefetches rows e n) t =
        subst (λ k. Tasks phrase k) (sym e)
          (prefetch-cases (λ k. Tasks phrase k) rows d t
            (λ idle.
              subst (λ k. Tasks phrase (add_task k d)) (sym t.source) (Tasks-add_task d t idle)))
    Step-Tasks {phrase} {d} (ends i task state at dead e n) t =
        subst (λ k. Tasks phrase k) (sym e)
          (Tasks-set d i task (record task { state = state }) at
            (λ r. absurd (stopped (running-is_running (record task { state = state }) r) dead)) refl
            refl t)
    Step-Tasks {phrase} {d} (responds i task answer at w e n) t =
        subst (λ k. Tasks phrase k) (sym e)
          (Tasks-movies_completion (fetched platform (data_task answer)) _
            (Tasks-set d i task (record task { waiting = false }) at (λ r. r) refl refl t))
    Step-Tasks {phrase} {d} (responds_posters j row answer at e n) t =
        let d' = record d { poster_tasks = take j d.poster_tasks ++ drop (suc j) d.poster_tasks } in
        subst (λ k. Tasks phrase k) (sym e)
          (Tasks-same
            (Same-poster_completion platform row (fetched_posters platform (data_task answer)) d')
            (Tasks-later d d' refl refl refl (omega arith) t))

    Reach-Tasks :
        (phrase : Option Text) {d : DataSource Image} {received : List (List (Movie Image))}
        → Reach platform phrase d received
        → Tasks phrase d
    unfolding init
    Reach-Tasks phrase start =
        load_data_source-cases (λ k. Tasks phrase k) phrase _ none_yet
          (λ idle. Tasks-add_task _ none_yet idle)
      where
        none_yet : Tasks {Image = Image} phrase (record {
          movies = [];
          page = 1;
          search_phrase = phrase;
          fetching_movies_task = none;
          tasks = [];
          poster_tasks = [];
        })
        none_yet = record { each = λ i task h. absurd (cc); first = omega arith; source = refl }
    Reach-Tasks phrase (next r step) = Step-Tasks step (Reach-Tasks phrase r)

    -- In every state that a data source reaches, at most one of the tasks that its service has
    -- created for movies is running.
    pub Reach-one_running :
        (phrase : Option Text) {d : DataSource Image} {received : List (List (Movie Image))}
        → Reach platform phrase d received
        → (i j : ℕ) → is_running (get_elem? d.tasks i) ≡ true
        → is_running (get_elem? d.tasks j) ≡ true
        → i ≡ j
    Reach-one_running phrase {d} r i j a b = cc_index (keeps i a) (keeps j b)
      where
        keeps : (k : ℕ) → is_running (get_elem? d.tasks k) ≡ true → d.fetching_movies_task ≡ some k
        keeps k h =
            let found = is_running-some (get_elem? d.tasks k) h in
            ((Reach-Tasks phrase r).each k found.0 found.1).kept found.2

        cc_index : d.fetching_movies_task ≡ some i → d.fetching_movies_task ≡ some j → i ≡ j
        cc_index p q = cc

    -- In every state that a data source reaches, each task for movies that its service has
    -- created asks for a page from 1 to `page`, and for the data source's search phrase.
    pub Reach-asked_pages :
        (phrase : Option Text) {d : DataSource Image} {received : List (List (Movie Image))}
        → Reach platform phrase d received
        → (i : ℕ) (task : Task) → get_elem? d.tasks i ≡ some task
        → (1 ≤ task.page) × (task.page ≤ d.page) × (task.phrase ≡ phrase)
    Reach-asked_pages phrase r i task h =
        let fits = (Reach-Tasks phrase r).each i task h in
        (fits.page_from, fits.page_to, fits.asked)
