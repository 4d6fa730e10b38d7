-- ===== src/App/Requests.antt =====
-- MovieDBApp/MovieDBApp/MoviesViewer/MoviesTableViewDataSource.swift: the requests for posters
-- through the steps.
use prj_movie_dbapp.Prelude.{
  ℕ, zero, suc, ◌≡◌, inl, inr, refl, sym, ◌∙◌, false, Option, none, some, List, [], ◌∷◌, ◌++◌, set,
}
use mathlib.Core.Path.{subst}
use prj_movie_dbapp.App.Int.{ℤ, pos, negsuc}
use prj_movie_dbapp.App.Service.{
  Text, Movie, Platform, Result, success, failure, FetchingError, ImageError, data_task, fetched,
  image, fetched_posters,
}
use prj_movie_dbapp.App.DataSource.{
  DataSource, init, movie_at, set_poster, with_image, poster_completion, load_posters,
  load_all_posters, movies_completion, respond, respond_posters,
}
use prj_movie_dbapp.App.Steps.{
  Step, Reach, prefetches, ends, responds, responds_posters, start, next,
}
use prj_movie_dbapp.App.Posters.{Same-poster_completion}
use prj_movie_dbapp.App.Pages.{load_data_source-cases, prefetch-cases}
use prj_movie_dbapp.App.Fits.{get_elem?-append}
use prj_movie_dbapp.App.Wanted.{
  get_elem?-without, Wanted-longer, movie_at-row, AllWanted, AllWanted-same,
}

module _ {Image : Type 0} where
  set_poster-tasks :
      (row : ℤ) (i : Image) (d : DataSource Image)
      → (set_poster row i d).poster_tasks ≡ d.poster_tasks
  unfolding set_poster
  set_poster-tasks (negsuc n) i d = refl
  set_poster-tasks (pos row) i d = given (movie_at d (pos row))
    where
      given :
          (o : Option (Movie Image))
          → (let d' : DataSource Image = elim o [
            | none ↦ d
            | some movie ↦ record d { movies = set d.movies row (record movie { poster = some i }) }
          ] in
              d'.poster_tasks)
            ≡ d.poster_tasks
      given none = refl
      given (some movie) = refl

  module _ (platform : Platform Image) where
    poster_completion-tasks :
        (row : ℤ) (r : Result (List Text) (Option Text)) (d : DataSource Image)
        → (poster_completion platform row r d).poster_tasks ≡ d.poster_tasks
    unfolding poster_completion
    poster_completion-tasks row (success []) d = refl
    poster_completion-tasks row (success (poster ∷ posters)) d = loaded (image platform _)
      where
        loaded :
            (r : Result Image ImageError)
            → (with_image platform row r d).poster_tasks ≡ d.poster_tasks
        loaded (success i) = unfold with_image in set_poster-tasks row i d
        loaded (failure error) = unfold with_image in refl
    poster_completion-tasks row (failure error) d = refl

    AllWanted-poster_completion :
        (row : ℤ) (r : Result (List Text) (Option Text)) (d : DataSource Image)
        → AllWanted d
        → AllWanted (poster_completion platform row r d)
    AllWanted-poster_completion row r d a =
        AllWanted-same d (Same-poster_completion platform row r d).movies_same
          (poster_completion-tasks row r d) a

    AllWanted-load_posters :
        (row : ℤ) (d : DataSource Image) → AllWanted d → AllWanted (load_posters platform row d)
    unfolding load_posters
    AllWanted-load_posters row d a = given (movie_at d row) refl
      where
        with_path :
            (movie : Movie Image) (o : Option Text)
            → movie_at d row ≡ some movie
            → movie.poster_file_path ≡ o
            → AllWanted (elim o [
              | none ↦ record d { poster_tasks = d.poster_tasks ++ row ∷ [] }
              | some path ↦ poster_completion platform row (success (path ∷ [])) d
            ])
        with_path movie none at path =
            let (i, is_row, listed) = movie_at-row d row movie at in
            record {
              each = λ j other h. elim (get_elem?-append d.poster_tasks row j other h) [
                | inl old ↦ a.each j other old
                | inr (_, new) ↦ record {
                  index = i;
                  movie = movie;
                  is_row = new ∙ is_row;
                  listed = listed;
                  pathless = path;
                }
              ];
            }
        with_path movie (some path) at e = AllWanted-poster_completion row (success (path ∷ [])) d a

        given :
            (o : Option (Movie Image))
            → movie_at d row ≡ o
            → AllWanted (elim o [
              | none ↦ d
              | some movie ↦ elim (movie.poster_file_path) [
                | none ↦ record d { poster_tasks = d.poster_tasks ++ row ∷ [] }
                | some path ↦ poster_completion platform row (success (path ∷ [])) d
              ]
            ])
        given none e = a
        given (some movie) e = with_path movie (movie.poster_file_path) e refl

    AllWanted-load_all_posters :
        (n from : ℕ) (d : DataSource Image)
        → AllWanted d
        → AllWanted (load_all_posters platform n from d)
    unfolding load_all_posters
    AllWanted-load_all_posters zero from d a = a
    AllWanted-load_all_posters (suc n) from d a =
        AllWanted-load_all_posters n (suc from) (load_posters platform (pos from) d)
          (AllWanted-load_posters (pos from) d a)

    AllWanted-movies_completion :
        (r : Result (List (Movie Image)) FetchingError) (d : DataSource Image)
        → AllWanted d
        → AllWanted (movies_completion platform r d)
    unfolding movies_completion
    AllWanted-movies_completion (failure error) d a = a
    AllWanted-movies_completion (success page) d a =
        AllWanted-load_all_posters _ 0 _
          (record { each = λ j row h. Wanted-longer page (a.each j row h) })

    Step-AllWanted :
        {d d' : DataSource Image} {new : List (List (Movie Image))}
        → Step platform d d' new
        → AllWanted d
        → AllWanted d'
    unfolding respond respond_posters
    Step-AllWanted {d} (prefetches rows e n) a =
        subst AllWanted (sym e)
          (prefetch-cases AllWanted rows d a (λ idle. record { each = a.each }))
    Step-AllWanted {d} (ends i task state at dead e n) a =
        subst AllWanted (sym e) (record { each = a.each })
    Step-AllWanted {d} (responds i task answer at w e n) a = subst AllWanted (sym e) (
        AllWanted-movies_completion (fetched platform (data_task answer))
          (record d { tasks = set d.tasks i (record task { waiting = false }) })
          (record { each = a.each }))
    Step-AllWanted {d} (responds_posters j row answer at e n) a = subst AllWanted (sym e) (
        AllWanted-poster_completion row (fetched_posters platform (data_task answer)) _ (record {
          each = λ k other h.
              let (i, found) = get_elem?-without d.poster_tasks j k other h in a.each i other found;
        }))

    -- In every state that a data source reaches, each row for which getMoviePoster has not
    -- answered is the row of a movie in the list, and that movie came without a path to its
    -- poster.
    pub Reach-AllWanted :
        (phrase : Option Text) {d : DataSource Image} {received : List (List (Movie Image))}
        → Reach platform phrase d received
        → AllWanted d
    unfolding init
    Reach-AllWanted phrase start =
        load_data_source-cases AllWanted phrase _ (record { each = λ j row h. absurd (cc) })
          (λ idle. record { each = λ j row h. absurd (cc) })
    Reach-AllWanted phrase (next r step) = Step-AllWanted step (Reach-AllWanted phrase r)
