-- ===== src/App/Posters.antt =====
-- MovieDBApp/MovieDBApp/MoviesViewer/MoviesTableViewDataSource.swift: what the loading of posters
-- leaves as it was.
use prj_movie_dbapp.Prelude.{
  ℕ, zero, suc, ◌≡◌, refl, ap, ◌∙◌, Bool, true, false, Option, none, some, List, [], ◌∷◌, ◌++◌, map,
  ltb, if◌then◌else◌, length, get_elem?, set,
}
use prj_movie_dbapp.App.Int.{ℤ, pos, negsuc}
use prj_movie_dbapp.App.Service.{Text, Movie, Platform, Result, success, failure, ImageError, image}
use prj_movie_dbapp.App.DataSource.{
  DataSource, movie_at, set_poster, with_image, poster_completion, load_posters, load_all_posters,
}

module _ {Image : Type 0} where
  -- A movie as it came, before its poster was loaded.
  abbrev pub without_poster : Movie Image → Movie Image
  without_poster movie = record movie { poster = none }

  -- The second state differs in posters only, and in the tasks for them.
  pub record SameButPosters (d d' : DataSource Image) : Type 0 where
    pub movies_same : map without_poster d'.movies ≡ map without_poster d.movies
    pub page_same : d'.page ≡ d.page
    pub tasks_same : d'.tasks ≡ d.tasks
    pub fetching_same : d'.fetching_movies_task ≡ d.fetching_movies_task
    pub phrase_same : d'.search_phrase ≡ d.search_phrase

  pub Same-refl : (d : DataSource Image) → SameButPosters d d
  Same-refl d = record {
    movies_same = refl;
    page_same = refl;
    tasks_same = refl;
    fetching_same = refl;
    phrase_same = refl;
  }

  pub Same-trans :
      {a b c : DataSource Image} → SameButPosters a b → SameButPosters b c → SameButPosters a c
  Same-trans h k = record {
    movies_same = k.movies_same ∙ h.movies_same;
    page_same = k.page_same ∙ h.page_same;
    tasks_same = k.tasks_same ∙ h.tasks_same;
    fetching_same = k.fetching_same ∙ h.fetching_same;
    phrase_same = k.phrase_same ∙ h.phrase_same;
  }

  -- Replacing an entry by one that looks the same.
  map-set :
      {B : Type 0} (f : Movie Image → B) (xs : List (Movie Image)) (i : ℕ) (x y : Movie Image)
      → get_elem? xs i ≡ some x
      → f y ≡ f x
      → map f (set xs i y) ≡ map f xs
  map-set f [] i x y h e = refl
  map-set f (z ∷ xs) zero x y h e = ap (λ k. k ∷ map f xs) (e ∙ ap f (same h))
    where
      same : ◌≡◌ {A = Option (Movie Image)} (some z) (some x) → x ≡ z
      same p = cc
  map-set f (z ∷ xs) (suc i) x y h e = ap (λ k. f z ∷ k) (map-set f xs i x y h e)

  pub Same-set_poster :
      (row : ℤ) (i : Image) (d : DataSource Image) → SameButPosters d (set_poster row i d)
  unfolding set_poster movie_at
  Same-set_poster (negsuc n) i d = Same-refl d
  Same-set_poster (pos row) i d =
      place (movie_at d (pos row)) λ movie h. inside (ltb row (length d.movies)) movie h
    where
      inside :
          (c : Bool) (movie : Movie Image)
          → (if c then get_elem? d.movies row else none) ≡ some movie
          → get_elem? d.movies row ≡ some movie
      inside true movie h = h
      inside false movie h = absurd (cc)

      place :
          (o : Option (Movie Image))
          → ((movie : Movie Image) → o ≡ some movie → get_elem? d.movies row ≡ some movie)
          → SameButPosters d (elim o [
            | none ↦ d
            | some movie ↦ record d { movies = set d.movies row (record movie { poster = some i }) }
          ])
      place none h = Same-refl d
      place (some movie) h = record {
        movies_same =
            map-set without_poster d.movies row movie (record movie { poster = some i })
              (h movie refl) refl;
        page_same = refl;
        tasks_same = refl;
        fetching_same = refl;
        phrase_same = refl;
      }

  module _ (platform : Platform Image) where
    pub Same-poster_completion :
        (row : ℤ) (posters : Result (List Text) (Option Text)) (d : DataSource Image)
        → SameButPosters d (poster_completion platform row posters d)
    unfolding poster_completion
    Same-poster_completion row (success []) d = Same-refl d
    Same-poster_completion row (success (poster ∷ posters)) d = loaded (image platform _)
      where
        loaded : (r : Result Image ImageError) → SameButPosters d (with_image platform row r d)
        loaded (success i) = unfold with_image in Same-set_poster row i d
        loaded (failure error) = unfold with_image in Same-refl d
    Same-poster_completion row (failure error) d = Same-refl d

    Same-load_posters :
        (row : ℤ) (d : DataSource Image) → SameButPosters d (load_posters platform row d)
    unfolding load_posters
    Same-load_posters row d = given (movie_at d row)
      where
        with_path :
            (o : Option Text)
            → SameButPosters d (elim o [
              | none ↦ record d { poster_tasks = d.poster_tasks ++ row ∷ [] }
              | some path ↦ poster_completion platform row (success (path ∷ [])) d
            ])
        with_path none = record {
          movies_same = refl;
          page_same = refl;
          tasks_same = refl;
          fetching_same = refl;
          phrase_same = refl;
        }
        with_path (some path) = Same-poster_completion row (success (path ∷ [])) d

        given :
            (o : Option (Movie Image))
            → SameButPosters d (elim o [
              | none ↦ d
              | some movie ↦ elim (movie.poster_file_path) [
                | none ↦ record d { poster_tasks = d.poster_tasks ++ row ∷ [] }
                | some path ↦ poster_completion platform row (success (path ∷ [])) d
              ]
            ])
        given none = Same-refl d
        given (some movie) = with_path movie.poster_file_path

    pub Same-load_all_posters :
        (n from : ℕ) (d : DataSource Image) → SameButPosters d (load_all_posters platform n from d)
    unfolding load_all_posters
    Same-load_all_posters zero from d = Same-refl d
    Same-load_all_posters (suc n) from d =
        Same-trans (Same-load_posters (pos from) d)
          (Same-load_all_posters n (suc from) (load_posters platform (pos from) d))
