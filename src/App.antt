-- ===== src/App.antt =====
-- The app, MovieDBApp/MovieDBApp: the movie service, and the data source of the movie list.
pub mod Int
pub mod Service
pub mod DataSource
pub mod Steps
pub mod Posters
pub mod Pages
pub mod Fits
pub mod Tasks
pub mod Wanted
pub mod Requests
pub mod Idle
pub mod Progress
mod Runs
