-- ===== src/Nanopb/Encode.antt =====
-- The encoder, MovieDBApp/Pods/nanopb/pb_encode.c.
pub mod Primitive
pub mod Scalar
pub mod Default
pub mod Array
pub mod Basic
pub mod Message
pub mod Emits
pub mod Values
pub mod Submessage
pub mod Sized
pub mod Whole
pub mod SizingPass
mod Runs
