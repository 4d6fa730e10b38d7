-- ===== src/App/Steps.antt =====
-- MovieDBApp/MovieDBApp/MoviesViewer/MoviesTableViewDataSource.swift: what happens to a data source:
-- the table prefetches rows, URLSession ends tasks and calls their completion handlers in any order,
-- and posters arrive. Each happens as a whole.
use prj_movie_dbapp.Prelude.{
  ℕ, suc, ◌≡◌, true, false, Option, some, List, [], ◌∷◌, ◌++◌, take, drop, get_elem?, set,
}
use prj_movie_dbapp.App.Int.{ℤ}
use prj_movie_dbapp.App.Service.{
  Text, Movie, Platform, Result, success, failure, FetchingError, Answer, data_task, fetched,
}
use prj_movie_dbapp.App.DataSource.{
  State, Task, DataSource, is_running, init, prefetch, respond, respond_posters,
}

module _ {Image : Type 0} where
  -- The movies that a success brings, as the pages of a log.
  abbrev pub pages_of : Result (List (Movie Image)) FetchingError → List (List (Movie Image))
  pages_of (success movies) = movies ∷ []
  pages_of (failure error) = []

  module _ (platform : Platform Image) where
    -- A step of a data source, with the pages that it received.
    pub data Step (d d' : DataSource Image) (received : List (List (Movie Image))) : Type 0 where
      prefetches : (rows : List ℤ) → d' ≡ prefetch rows d → received ≡ [] → Step d d' received
      ends :
          (i : ℕ) (task : Task) (state : State)
          → get_elem? d.tasks i ≡ some task
          → is_running (some (record task { state = state })) ≡ false
          → d' ≡ record d { tasks = set d.tasks i (record task { state = state }) }
          → received ≡ []
          → Step d d' received
      responds :
          (i : ℕ) (task : Task) (answer : Answer)
          → get_elem? d.tasks i ≡ some task
          → task.waiting ≡ true
          → d' ≡ respond platform i task answer d
          → received ≡ pages_of (fetched platform (data_task answer))
          → Step d d' received
      responds_posters :
          (j : ℕ) (row : ℤ) (answer : Answer)
          → get_elem? d.poster_tasks j ≡ some row
          → d'
            ≡ respond_posters platform row
                (take j d.poster_tasks ++ drop (suc j) d.poster_tasks)
                answer
                d
          → received ≡ []
          → Step d d' received

    -- The states that a data source for the phrase reaches, with the pages received on the way.
    pub data Reach (phrase : Option Text)
        : DataSource Image → List (List (Movie Image)) → Type 0 where
      start : Reach phrase (init phrase) []
      next :
          {d d' : DataSource Image} {received new : List (List (Movie Image))}
          → Reach phrase d received
          → Step d d' new
          → Reach phrase d' (received ++ new)
