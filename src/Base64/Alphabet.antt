-- ===== src/Base64/Alphabet.antt =====
-- fbase64.c: the table Base64, Pad64, and what isspace and strchr do with them.
use prj_movie_dbapp.Prelude.{
  ℕ, suc, ◌-◌, Bool, ◌&&◌, ◌||◌, Option, none, some, List, [], ◌∷◌, leb, ◌==◌, if◌then◌else◌,
  get_or,
}
use Prim.Native.Nat.{◌^◌}

-- The characters 'A' to 'Z', 'a' to 'z', '0' to '9', '+' and '/'.
abbrev pub base64 : List ℕ
base64 =
    65 ∷ 66 ∷ 67 ∷ 68 ∷ 69 ∷ 70 ∷ 71 ∷ 72 ∷ 73 ∷ 74 ∷ 75 ∷ 76 ∷ 77 ∷ 78 ∷ 79 ∷ 80 ∷ 81 ∷ 82 ∷ 83
    ∷ 84 ∷ 85 ∷ 86 ∷ 87 ∷ 88 ∷ 89 ∷ 90 ∷ 97 ∷ 98 ∷ 99 ∷ 100 ∷ 101 ∷ 102 ∷ 103 ∷ 104 ∷ 105 ∷ 106
    ∷ 107 ∷ 108 ∷ 109 ∷ 110 ∷ 111 ∷ 112 ∷ 113 ∷ 114 ∷ 115 ∷ 116 ∷ 117 ∷ 118 ∷ 119 ∷ 120 ∷ 121 ∷ 122
    ∷ 48 ∷ 49 ∷ 50 ∷ 51 ∷ 52 ∷ 53 ∷ 54 ∷ 55 ∷ 56 ∷ 57 ∷ 43 ∷ 47 ∷ []

abbrev pub pad64 : ℕ
pad64 = 61

-- `Base64[output]`
unfoldable pub char_of : ℕ → ℕ
char_of output = get_or base64 output 0

-- `strchr(table, ch)`, as the distance from the table's start.
abbrev pub strchr : List ℕ → ℕ → Option ℕ
strchr [] ch = none
strchr (c ∷ cs) ch =
    let later : Option ℕ = elim (strchr cs ch) [ none ↦ none | some pos ↦ some (suc pos) ] in
    if c == ch then some 0 else later

-- `strchr(Base64, ch)`
unfoldable pub position : ℕ → Option ℕ
position ch = strchr base64 ch

-- In the "C" locale: space, and tab to carriage return.
abbrev pub isspace : ℕ → Bool
isspace ch = ch == 32 || (leb 9 ch && leb ch 13)

-- What -1 is in 32 bits.
abbrev pub minus_one : ℕ
minus_one = 2 ^ 32 - 1
