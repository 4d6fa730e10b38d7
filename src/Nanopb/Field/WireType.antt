-- ===== src/Nanopb/Field/WireType.antt =====
-- pb_wire_type_t, MovieDBApp/Pods/nanopb/pb.h.
use prj_movie_dbapp.Prelude.{ℕ}

abbrev pub varint : ℕ
varint = 0

abbrev pub bits64 : ℕ
bits64 = 1

abbrev pub string : ℕ
string = 2

abbrev pub bits32 : ℕ
bits32 = 5
