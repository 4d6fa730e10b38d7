-- ===== src/Nanopb/Field/Atype.antt =====
-- PB_ATYPE_*, MovieDBApp/Pods/nanopb/pb.h: allocation types.
use prj_movie_dbapp.Prelude.{ℕ}

abbrev pub static : ℕ
static = 0x00

abbrev pub pointer : ℕ
pointer = 0x80

abbrev pub callback : ℕ
callback = 0x40
