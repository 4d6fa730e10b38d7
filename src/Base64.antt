-- ===== src/Base64.antt =====
-- MovieDBApp/Pods/FirebaseDatabase/Firebase/Database/third_party/SocketRocket/fbase64.c.
pub mod Alphabet
pub mod Ntop
pub mod Pton
pub mod Bounds
pub mod PtonBounds
pub mod Digits
pub mod Chars
pub mod Text
pub mod Steps
pub mod Groups
pub mod RoundTrip
mod Runs
