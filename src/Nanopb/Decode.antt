-- ===== src/Nanopb/Decode.antt =====
-- The decoder, MovieDBApp/Pods/nanopb/pb_decode.c.
pub mod Varint
pub mod Primitive
pub mod Bounds
pub mod Encoding
pub mod RoundTrip
pub mod RoundTrip32
pub mod Scalar
pub mod Action
pub mod Defaults
pub mod Release
pub mod Static
pub mod Pointer
pub mod Callback
pub mod Required
pub mod Extension
pub mod Message
pub mod Total
pub mod Inside
pub mod InsideBuffer
pub mod Entries
pub mod Arrays
pub mod Stored
pub mod Integer
pub mod Copies
pub mod Overlong
pub mod Fixed
mod Runs
mod FieldRuns
mod MessageRuns
