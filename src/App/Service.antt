-- ===== src/App/Service.antt =====
-- MovieDBApp/MovieDBApp/Services/MovieService.swift, Models/Movie.swift and Utilities/Utility.swift:
-- requests, and what becomes of their answers. JSON decoding, the contents of a URL and image data
-- are parameters.
use prj_movie_dbapp.Prelude.{ℕ, Bool, Option, none, some, List, [], map}

-- Strings are lists of characters, Data is a list of bytes.
abbrev pub Text : Type 0
Text = List ℕ

abbrev pub Data : Type 0
Data = List ℕ

pub data Result {ℓ κ} (A : Type ℓ) (E : Type κ) : Type (ℓ ⊔ κ) where
  success : A → Result A E
  failure : E → Result A E

pub data FetchingError : Type 0 where
  already_active network_error decoding_error : FetchingError

pub data ImageError : Type 0 where
  cannot_read_from_url cannot_create_image_from_data : ImageError

pub record MovieNetworkResponse : Type 0 where
  pub poster_file_path : Option Text
  pub is_adult_rated : Bool
  pub id : ℕ
  pub original_title : Text
  pub overview : Text
  pub title : Text
  pub release_date : Text

pub record Movie (Image : Type 0) : Type 0 where
  pub id : ℕ
  pub poster_file_path : Option Text
  pub original_title : Text
  pub overview : Text
  pub title : Text
  pub release_date : Text
  pub poster : Option Image

-- `init(fromNetworkResponse:)`
unfoldable pub from_network_response : {Image : Type 0} → MovieNetworkResponse → Movie Image
from_network_response response = record {
  id = response.id;
  poster_file_path = response.poster_file_path;
  original_title = response.original_title;
  overview = response.overview;
  title = response.title;
  release_date = response.release_date;
  poster = none;
}

-- What the app asks of Foundation and UIKit: decoding of the two kinds of answers, `none` where
-- JSONDecoder throws, `Data(contentsOf:)`, `UIImage(data:)`, and a poster's address.
pub record Platform (Image : Type 0) : Type 0 where
  pub decode_movies : Data → Option (List MovieNetworkResponse)
  pub decode_posters : Data → Option (List Text)
  pub contents_of : Text → Option Data
  pub image_of : Data → Option Image
  pub poster_url : Text → Text

-- What the callback of a data task is given: the data and the error.
abbrev pub Answer : Type 0
Answer = Option Data × Option Text

-- `URLSession.dataTask(with:completionHandler:)`
unfoldable pub data_task : Answer → Result Data Text
data_task (body, some error) = failure error
data_task (none, none) = success []
data_task (some body, none) = success body

module _ {Image : Type 0} (platform : Platform Image) where
  unfoldable pub decoded_movies :
      Option (List MovieNetworkResponse) → Result (List (Movie Image)) FetchingError
  decoded_movies none = failure decoding_error
  decoded_movies (some results) = success (map from_network_response results)

  -- The callback of getMovies and of search.
  unfoldable pub fetched : Result Data Text → Result (List (Movie Image)) FetchingError
  fetched (success body) = decoded_movies (platform.decode_movies body)
  fetched (failure error) = failure network_error

  -- `UIImage(data:)`
  unfoldable pub created : Option Image → Result Image ImageError
  created none = failure cannot_create_image_from_data
  created (some image) = success image

  unfoldable pub read : Option Data → Result Image ImageError
  read none = failure cannot_read_from_url
  read (some body) = created (platform.image_of body)

  -- `UIImage.image(fromURL:)`
  unfoldable pub image : Option Text → Result Image ImageError
  image none = failure cannot_read_from_url
  image (some url) = read (platform.contents_of url)

  -- The callback of getMoviePoster; the error of a task is passed on.
  unfoldable pub decoded_posters : Option (List Text) → Result (List Text) (Option Text)
  decoded_posters none = failure none
  decoded_posters (some posters) = success posters

  unfoldable pub fetched_posters : Result Data Text → Result (List Text) (Option Text)
  fetched_posters (success body) = decoded_posters (platform.decode_posters body)
  fetched_posters (failure error) = failure (some error)
