-- ===== src/App/DataSource.antt =====
-- MovieDBApp/MovieDBApp/MoviesViewer/MoviesTableViewDataSource.swift with the service behind it:
-- paging. The tasks that the service has created are kept with the state that URLSession gives them.
use prj_movie_dbapp.Prelude.{
  ℕ, zero, suc, ◌+◌, Bool, true, false, Option, none, some, List, [], ◌∷◌, ◌++◌, ltb, if◌then◌else◌,
  length, get_elem?, set,
}
use prj_movie_dbapp.App.Int.{ℤ, pos, negsuc, sub_nat, gtb}
use prj_movie_dbapp.App.Service.{
  Text, Movie, Platform, Result, success, failure, FetchingError, already_active, ImageError,
  Answer, data_task, fetched, image, fetched_posters,
}

-- URLSessionTask.State
pub data State : Type 0 where
  running suspended canceling completed : State

-- A task of fetchingMoviesTask: the phrase that it searches for, the page, its state, and whether
-- its completion handler is still to be called.
pub record Task : Type 0 where
  pub phrase : Option Text
  pub page : ℕ
  pub state : State
  pub waiting : Bool

-- MoviesTableViewDataSource, with its MovieService; `fetching_movies_task` is an index into `tasks`.
-- `poster_tasks` are the rows whose getMoviePoster has not answered.
pub record DataSource (Image : Type 0) : Type 0 where
  pub movies : List (Movie Image)
  pub page : ℕ
  pub search_phrase : Option Text
  pub fetching_movies_task : Option ℕ
  pub tasks : List Task
  pub poster_tasks : List ℤ

abbrev pub is_running : Option Task → Bool
is_running none = false
is_running (some task) = elim (task.state) [ running ↦ true | _ ↦ false ]

-- `indexPaths.max()?.row`, in the one section.
unfoldable pub max_row : List ℤ → Option ℤ
max_row [] = none
max_row (row ∷ rows) = elim (max_row rows) [
  | none ↦ some row
  | some other ↦ some (if gtb other row then other else row)
]

module _ {Image : Type 0} where
  -- `self.fetchingMoviesTask?.state == .some(.running)`
  unfoldable pub is_fetching : DataSource Image → Bool
  is_fetching d = elim (d.fetching_movies_task) [
    | none ↦ false
    | some i ↦ is_running (get_elem? d.tasks i)
  ]

  unfoldable pub movie_at : DataSource Image → ℤ → Option (Movie Image)
  movie_at d (negsuc n) = none
  movie_at d (pos row) = if ltb row (length d.movies) then get_elem? d.movies row else none

  -- A new task is resumed and kept as the service's.
  abbrev pub add_task : Option Text → DataSource Image → DataSource Image
  add_task phrase d = record d {
    fetching_movies_task = some (length d.tasks);
    tasks =
        d.tasks ++ record { phrase = phrase; page = d.page; state = running; waiting = true } ∷ [];
  }

  -- getMovies and search: a new task, or `.failure(.alreadyActive)`.
  unfoldable pub fetch : Option Text → DataSource Image → DataSource Image × Option FetchingError
  fetch phrase d = if is_fetching d then (d, some already_active) else (add_task phrase d, none)

  -- loadDataSource: the completion handler only prints an error.
  unfoldable pub load_data_source : Option Text → DataSource Image → DataSource Image
  load_data_source phrase d = (fetch phrase d).0

  -- `init(_ searchPhrase:)`
  unfoldable pub init : Option Text → DataSource Image
  init phrase = load_data_source phrase (record {
    movies = [];
    page = 1;
    search_phrase = phrase;
    fetching_movies_task = none;
    tasks = [];
    poster_tasks = [];
  })

  -- `tableView(_:prefetchRowsAt:)`
  unfoldable pub prefetch : List ℤ → DataSource Image → DataSource Image
  prefetch rows d = elim (max_row rows) [
    | none ↦ d
    | some row ↦
        if gtb row (sub_nat (length d.movies) 5) then load_data_source d.search_phrase d else d
  ]

  -- `self?.movieAt(indexPath: indexPath)?.poster = image`
  unfoldable pub set_poster : ℤ → Image → DataSource Image → DataSource Image
  set_poster (negsuc n) image d = d
  set_poster (pos row) image d = elim (movie_at d (pos row)) [
    | none ↦ d
    | some movie ↦ record d { movies = set d.movies row (record movie { poster = some image }) }
  ]

  module _ (platform : Platform Image) where
    unfoldable pub with_image : ℤ → Result Image ImageError → DataSource Image → DataSource Image
    with_image row (success image) d = set_poster row image d
    with_image row (failure error) d = d

    -- posterCompletion(indexPath), for the posters of a movie by their paths.
    unfoldable pub poster_completion :
        ℤ → Result (List Text) (Option Text) → DataSource Image → DataSource Image
    poster_completion row (success []) d = d
    poster_completion row (success (poster ∷ posters)) d =
        with_image row (image platform (some (platform.poster_url poster))) d
    poster_completion row (failure error) d = d

    -- `movie?.posters(completion:)`: a path is completed at once, otherwise a task is made.
    unfoldable pub load_posters : ℤ → DataSource Image → DataSource Image
    load_posters row d = elim (movie_at d row) [
      | none ↦ d
      | some movie ↦ elim (movie.poster_file_path) [
        | none ↦ record d { poster_tasks = d.poster_tasks ++ row ∷ [] }
        | some path ↦ poster_completion row (success (path ∷ [])) d
      ]
    ]

    -- `for index in from..<from + n`
    unfoldable pub load_all_posters : ℕ → ℕ → DataSource Image → DataSource Image
    load_all_posters zero from d = d
    load_all_posters (suc n) from d = load_all_posters n (suc from) (load_posters (pos from) d)

    -- moviesCompletion; the range is `0...count`, so that the last index has no movie.
    unfoldable pub movies_completion :
        Result (List (Movie Image)) FetchingError → DataSource Image → DataSource Image
    movies_completion (failure error) d = d
    movies_completion (success new_movies) d =
        let d' = record d { movies = d.movies ++ new_movies; page = d.page + 1 } in
        load_all_posters (length d'.movies + 1) 0 d'

    -- A task's completion handler is called with its answer.
    unfoldable pub respond : ℕ → Task → Answer → DataSource Image → DataSource Image
    respond i task answer d =
        movies_completion (fetched platform (data_task answer))
          (record d { tasks = set d.tasks i (record task { waiting = false }) })

    -- getMoviePoster answers for a row.
    unfoldable pub respond_posters : ℤ → List ℤ → Answer → DataSource Image → DataSource Image
    respond_posters row others answer d =
        poster_completion row (fetched_posters platform (data_task answer))
          (record d { poster_tasks = others })
