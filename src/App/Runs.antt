-- ===== src/App/Runs.antt =====
-- MovieDBApp/MovieDBApp: runs of the movie list at concrete answers. A body of bytes is decoded into
-- one movie for each byte, with the byte as its id, and without a path to a poster if that is 6; an
-- image is a number.
use prj_movie_dbapp.Prelude.{
  ℕ, false, ◌==◌, if◌then◌else◌, true, ◌+◌, ◌≤◌, ◌≡◌, refl, Option, none, some, List, [], ◌∷◌, ◌++◌,
  map, set, arith, length, get_elem?,
}
use prj_movie_dbapp.App.Int.{pos, gtb, sub_nat}
use prj_movie_dbapp.App.Service.{
  Text, Data, Movie, MovieNetworkResponse, from_network_response, Platform, data_task,
  decoded_movies, fetched, image, read, created,
}
use prj_movie_dbapp.App.DataSource.{
  running, completed, Task, DataSource, is_fetching, fetch, load_data_source, max_row, movie_at,
  poster_completion, with_image, set_poster, load_posters, load_all_posters, movies_completion,
  init, prefetch, respond,
}
use prj_movie_dbapp.App.Steps.{Reach, prefetches, ends, responds, start, next}
use prj_movie_dbapp.App.Pages.{Shows, Reach-Shows}
use prj_movie_dbapp.App.Tasks.{Reach-one_running, Reach-asked_pages}
use prj_movie_dbapp.App.Requests.{Reach-AllWanted}
use prj_movie_dbapp.App.Wanted.{AllWanted}
use prj_movie_dbapp.App.Idle.{Ended}
use prj_movie_dbapp.App.Progress.{Reach-goes_on}

abbrev response : ℕ → MovieNetworkResponse
response n = record {
  id = n;
  is_adult_rated = false;
  poster_file_path = if n == 6 then none else some (n ∷ []);
  original_title = [];
  overview = [];
  title = [];
  release_date = [];
}

abbrev decode : Data → Option (List MovieNetworkResponse)
decode [] = none
decode (n ∷ body) = some (map response (n ∷ body))

abbrev platform : Platform ℕ
platform = record {
  decode_movies = decode;
  decode_posters = λ body. none;
  contents_of = λ url. some url;
  image_of = λ body. some 7;
  poster_url = λ path. path;
}

abbrev first : DataSource ℕ
first = init none

abbrev task : Task
task = record { phrase = none; page = 1; state = running; waiting = true }

-- The first task ends before its answer is handled, and the table asks once more.
abbrev ended : DataSource ℕ
ended = record first { tasks = set first.tasks 0 (record task { state = completed }) }

abbrev asked_again : DataSource ℕ
asked_again = prefetch (pos 0 ∷ []) ended

abbrev once : DataSource ℕ
once = respond platform 0 (record task { state = completed }) (some (5 ∷ 6 ∷ []), none) asked_again

abbrev twice : DataSource ℕ
twice = respond platform 1 task (some (5 ∷ 6 ∷ []), none) once

abbrev page : List (Movie ℕ)
page = map from_network_response (map response (5 ∷ 6 ∷ []))

abbrev reached_ended : Reach platform none ended ([] ++ [])
unfolding init load_data_source fetch is_fetching
reached_ended = next start (ends 0 task completed refl refl refl refl)

abbrev reached_again : Reach platform none asked_again ([] ++ [] ++ [])
reached_again = next reached_ended (prefetches (pos 0 ∷ []) refl refl)

abbrev reached_once : Reach platform none once (([] ++ [] ++ []) ++ page ∷ [])
unfolding init load_data_source fetch is_fetching prefetch max_row gtb sub_nat respond
    movies_completion load_all_posters load_posters movie_at poster_completion with_image set_poster
    image read created fetched decoded_movies data_task from_network_response
reached_once =
    next reached_again
      (responds 0 (record task { state = completed }) (some (5 ∷ 6 ∷ []), none) refl refl refl refl)

abbrev reached_twice : Reach platform none twice ((([] ++ [] ++ []) ++ page ∷ []) ++ page ∷ [])
unfolding init load_data_source fetch is_fetching prefetch max_row gtb sub_nat respond
    movies_completion load_all_posters load_posters movie_at poster_completion with_image set_poster
    image read created fetched decoded_movies data_task from_network_response
reached_twice = next reached_once (responds 1 task (some (5 ∷ 6 ∷ []), none) refl refl refl refl)

-- Both tasks asked for page 1: it is shown twice, and the next page asked for is the third.
shown_twice : (twice.page ≡ 3) × (map (λ movie. movie.id) twice.movies ≡ 5 ∷ 6 ∷ 5 ∷ 6 ∷ [])
unfolding init load_data_source fetch is_fetching prefetch max_row gtb sub_nat respond
    movies_completion load_all_posters load_posters movie_at poster_completion with_image set_poster
    image read created fetched decoded_movies data_task from_network_response
shown_twice = (refl, refl)

-- The poster with a path has come with the first page, the other one was asked for.
posters_shown : map (λ movie. movie.poster) once.movies ≡ some 7 ∷ none ∷ []
unfolding init load_data_source fetch is_fetching prefetch max_row gtb sub_nat respond
    movies_completion load_all_posters load_posters movie_at poster_completion with_image set_poster
    image read created fetched decoded_movies data_task from_network_response
posters_shown = refl

Reach-Shows_example : Shows twice ((([] ++ [] ++ []) ++ page ∷ []) ++ page ∷ [])
Reach-Shows_example = Reach-Shows platform none reached_twice

Reach-one_running_example : ◌≡◌ {A = ℕ} 1 1
unfolding init load_data_source fetch is_fetching prefetch max_row gtb sub_nat respond
    movies_completion load_all_posters load_posters movie_at poster_completion with_image set_poster
    image read created fetched decoded_movies data_task from_network_response
Reach-one_running_example = Reach-one_running platform none reached_once 1 1 refl refl

Reach-asked_pages_example : (1 ≤ 1) × (1 ≤ once.page) × (◌≡◌ {A = Option Text} none none)
unfolding init load_data_source fetch is_fetching prefetch max_row gtb sub_nat respond
    movies_completion load_all_posters load_posters movie_at poster_completion with_image set_poster
    image read created fetched decoded_movies data_task from_network_response
Reach-asked_pages_example = Reach-asked_pages platform none reached_once 1 task refl

four_movies : length twice.movies ≡ 4
unfolding init load_data_source fetch is_fetching prefetch max_row gtb sub_nat respond
    movies_completion load_all_posters load_posters movie_at poster_completion with_image set_poster
    image read created fetched decoded_movies data_task from_network_response
four_movies = refl

-- The list has four movies; the table asks for the last row.
Reach-goes_on_example :
    (d0 : DataSource ℕ) × (task : Task) × Ended twice d0
    × (get_elem? (prefetch (pos 3 ∷ []) d0).tasks (length d0.tasks) ≡ some task)
    × (task.phrase ≡ twice.search_phrase)
    × (task.page ≡ twice.page)
    × Reach platform none
        (respond platform (length d0.tasks) task (some (9 ∷ []), none) (prefetch (pos 3 ∷ []) d0))
        (((([] ++ [] ++ []) ++ page ∷ []) ++ page ∷ [])
          ++ map from_network_response (map response (9 ∷ [])) ∷ [])
    × ((respond platform
          (length d0.tasks)
          task
          (some (9 ∷ []), none)
          (prefetch (pos 3 ∷ []) d0)).page
        ≡ twice.page + 1)
Reach-goes_on_example =
    Reach-goes_on platform none 3 (9 ∷ []) (map response (9 ∷ [])) reached_twice
      (omega (arith, four_movies)) (omega (arith, four_movies)) refl

posters_asked : twice.poster_tasks ≡ pos 1 ∷ pos 1 ∷ pos 3 ∷ []
unfolding init load_data_source fetch is_fetching prefetch max_row gtb sub_nat respond
    movies_completion load_all_posters load_posters movie_at poster_completion with_image set_poster
    image read created fetched decoded_movies data_task from_network_response
posters_asked = refl

Reach-AllWanted_example : AllWanted twice
Reach-AllWanted_example = Reach-AllWanted platform none reached_twice
