-- ===== src/App/Wanted.antt =====
-- MovieDBApp/MovieDBApp/Models/Movie.swift: the requests for posters, and the movies that they are for.
use prj_movie_dbapp.Prelude.{
  ℕ, zero, suc, ◌≡◌, refl, sym, ap, ◌∙◌, Bool, true, false, Option, none, some, List, [], ◌∷◌, ◌++◌,
  map, ltb, length, get_elem?, take, drop, if◌then◌else◌,
}
use prj_movie_dbapp.App.Int.{ℤ, pos, negsuc}
use prj_movie_dbapp.App.Service.{Movie}
use prj_movie_dbapp.App.DataSource.{DataSource, movie_at}
use prj_movie_dbapp.App.Posters.{without_poster}

-- An entry of a list less its j-th is an entry of the list.
pub get_elem?-without :
    {A : Type 0} (xs : List A) (j k : ℕ) (x : A)
    → get_elem? (take j xs ++ drop (suc j) xs) k ≡ some x
    → (i : ℕ) × (get_elem? xs i ≡ some x)
get_elem?-without [] zero k x h = absurd (cc)
get_elem?-without [] (suc j) k x h = absurd (cc)
get_elem?-without (y ∷ xs) zero k x h = (suc k, h)
get_elem?-without (y ∷ xs) (suc j) zero x h = (0, h)
get_elem?-without (y ∷ xs) (suc j) (suc k) x h =
    let (i, e) = get_elem?-without xs j k x h in (suc i, e)

get_elem?-longer :
    {A : Type 0} (xs ys : List A) (i : ℕ) (x : A)
    → get_elem? xs i ≡ some x
    → get_elem? (xs ++ ys) i ≡ some x
get_elem?-longer [] ys i x h = absurd (cc)
get_elem?-longer (z ∷ xs) ys zero x h = h
get_elem?-longer (z ∷ xs) ys (suc i) x h = get_elem?-longer xs ys i x h

module _ {Image : Type 0} where
  -- The row of a movie that came without a path to its poster.
  pub record Wanted (movies : List (Movie Image)) (row : ℤ) : Type 0 where
    pub index : ℕ
    pub movie : Movie Image
    pub is_row : row ≡ pos index
    pub listed : get_elem? movies index ≡ some movie
    pub pathless : movie.poster_file_path ≡ none

  cons_same :
      (x y : Movie Image) (xs ys : List (Movie Image)) → x ∷ xs ≡ y ∷ ys → (x ≡ y) × (xs ≡ ys)
  cons_same x y xs ys e = ((cc), (cc))

  some_same : (x y : Movie Image) → ◌≡◌ {A = Option (Movie Image)} (some x) (some y) → x ≡ y
  some_same x y e = cc

  -- A list that differs in posters has a movie with the same path there.
  same_path :
      (xs ys : List (Movie Image)) (i : ℕ) (movie : Movie Image)
      → map without_poster ys ≡ map without_poster xs
      → get_elem? xs i ≡ some movie
      → (movie' : Movie Image) × (get_elem? ys i ≡ some movie')
        × (movie'.poster_file_path ≡ movie.poster_file_path)
  same_path [] ys i movie e h = absurd (cc)
  same_path (x ∷ xs) [] i movie e h = absurd (empty e)
    where
      empty : [] ≡ without_poster x ∷ map without_poster xs → ⊥
      empty p = cc
  same_path (x ∷ xs) (y ∷ ys) zero movie e h = (
    y,
    refl,
    ap (λ (m : Movie Image). m.poster_file_path)
          (cons_same (without_poster y) (without_poster x) (map without_poster ys)
            (map without_poster xs) e).0
        ∙ ap (λ (m : Movie Image). m.poster_file_path) (some_same x movie h),
  )
  same_path (x ∷ xs) (y ∷ ys) (suc i) movie e h =
      same_path xs ys i movie
        ((cons_same (without_poster y) (without_poster x) (map without_poster ys)
          (map without_poster xs) e).1)
        h

  Wanted-same :
      {xs ys : List (Movie Image)} {row : ℤ}
      → map without_poster ys ≡ map without_poster xs
      → Wanted xs row
      → Wanted ys row
  Wanted-same {xs} {ys} e w =
      let (movie, at, path) = same_path xs ys w.index w.movie e w.listed in
      record {
        index = w.index;
        movie = movie;
        is_row = w.is_row;
        listed = at;
        pathless = path ∙ w.pathless;
      }

  pub Wanted-longer :
      {xs : List (Movie Image)} {row : ℤ} (ys : List (Movie Image))
      → Wanted xs row
      → Wanted (xs ++ ys) row
  Wanted-longer {xs} ys w = record {
    index = w.index;
    movie = w.movie;
    is_row = w.is_row;
    listed = get_elem?-longer xs ys w.index w.movie w.listed;
    pathless = w.pathless;
  }

  pub movie_at-row :
      (d : DataSource Image) (row : ℤ) (movie : Movie Image)
      → movie_at d row ≡ some movie
      → (i : ℕ) × (row ≡ pos i) × (get_elem? d.movies i ≡ some movie)
  unfolding movie_at
  movie_at-row d (negsuc n) movie h = absurd (cc)
  movie_at-row d (pos i) movie h = (i, refl, inside (ltb i (length d.movies)) h)
    where
      inside :
          (c : Bool)
          → (if c then get_elem? d.movies i else none) ≡ some movie
          → get_elem? d.movies i ≡ some movie
      inside true h = h
      inside false h = absurd (cc)

  -- Every outstanding request is for such a movie.
  pub record AllWanted (d : DataSource Image) : Type 0 where
    pub each : (j : ℕ) (row : ℤ) → get_elem? d.poster_tasks j ≡ some row → Wanted d.movies row

  pub AllWanted-same :
      (d : DataSource Image) {d' : DataSource Image}
      → map without_poster d'.movies ≡ map without_poster d.movies
      → d'.poster_tasks ≡ d.poster_tasks
      → AllWanted d
      → AllWanted d'
  AllWanted-same d e f a = record {
    each = λ j row h. Wanted-same e (a.each j row (ap (λ k. get_elem? k j) (sym f) ∙ h));
  }
