-- ===== src/Nanopb.antt =====
-- The nanopb runtime, MovieDBApp/Pods/nanopb.
pub mod Field
pub mod Iter
pub mod Ostream
pub mod Encode
pub mod Istream
pub mod Decode
