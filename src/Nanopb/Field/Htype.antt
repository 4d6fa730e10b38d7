-- ===== src/Nanopb/Field/Htype.antt =====
-- PB_HTYPE_*, MovieDBApp/Pods/nanopb/pb.h: repetition rules.
use prj_movie_dbapp.Prelude.{ℕ}

abbrev pub required : ℕ
required = 0x00

abbrev pub optional : ℕ
optional = 0x10

abbrev pub repeated : ℕ
repeated = 0x20

abbrev pub oneof : ℕ
oneof = 0x30
