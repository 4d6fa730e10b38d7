-- ===== src/Base64/Ntop.antt =====
-- fbase64.c: f_b64_ntop, from bytes to text.
use prj_movie_dbapp.Prelude.{
  ℕ, ◌+◌, ◌*◌, ◌/◌, ◌%◌, ◌^◌, List, [], ◌∷◌, bit_and, ltb, leb, if◌then◌else◌, set,
}
use prj_movie_dbapp.Nanopb.Ostream.{add_size}
use prj_movie_dbapp.Base64.Alphabet.{pad64, char_of, minus_one}

-- `output[0]` to `output[3]` of three input bytes.
unfoldable pub output0 : ℕ → ℕ
output0 a = a / 2 ^ 2

unfoldable pub output1 : ℕ → ℕ → ℕ
output1 a b = bit_and a 0x03 * 2 ^ 4 + b / 2 ^ 4

unfoldable pub output2 : ℕ → ℕ → ℕ
output2 b c = bit_and b 0x0f * 2 ^ 2 + c / 2 ^ 6

unfoldable pub output3 : ℕ → ℕ
output3 c = bit_and c 0x3f

-- `target[datalength++] = …`, for each of the characters.
unfoldable pub put_chars : ℕ → List ℕ → List ℕ → List ℕ
put_chars datalength [] target = target
put_chars datalength (ch ∷ chs) target = put_chars (datalength + 1) chs (set target datalength ch)

unfoldable pub group3 : ℕ → ℕ → ℕ → List ℕ
group3 a b c =
    char_of (output0 a) ∷ char_of (output1 a b) ∷ char_of (output2 b c) ∷ char_of (output3 c) ∷ []

unfoldable pub group2 : ℕ → ℕ → List ℕ
group2 a b = char_of (output0 a) ∷ char_of (output1 a b) ∷ char_of (output2 b 0) ∷ pad64 ∷ []

unfoldable pub group1 : ℕ → List ℕ
group1 a = char_of (output0 a) ∷ char_of (output1 a 0) ∷ pad64 ∷ pad64 ∷ []

-- The final '\0', and the value returned: `(int)(datalength)`, or -1.
unfoldable pub terminate : ℕ → ℕ → List ℕ → ℕ × List ℕ
terminate targsize datalength target =
    if leb targsize datalength
    then (minus_one, target)
    else (datalength % 2 ^ 32, set target datalength 0)

-- A group of one or two bytes, padded.
unfoldable pub pad_group : ℕ → List ℕ → ℕ → List ℕ → ℕ × List ℕ
pad_group targsize chars datalength target =
    if ltb targsize (add_size datalength 4)
    then (minus_one, target)
    else terminate targsize (datalength + 4) (put_chars datalength chars target)

-- `src` holds the srclength bytes that are left.
unfoldable pub ntop_loop : ℕ → List ℕ → ℕ → List ℕ → ℕ × List ℕ
ntop_loop targsize [] datalength target = terminate targsize datalength target
ntop_loop targsize (a ∷ []) datalength target = pad_group targsize (group1 a) datalength target
ntop_loop targsize (a ∷ b ∷ []) datalength target =
    pad_group targsize (group2 a b) datalength target
ntop_loop targsize (a ∷ b ∷ c ∷ src) datalength target =
    let more =
      ntop_loop targsize src (datalength + 4) (put_chars datalength (group3 a b c) target) in
    if ltb targsize (add_size datalength 4) then (minus_one, target) else more

unfoldable pub f_b64_ntop : List ℕ → List ℕ → ℕ → ℕ × List ℕ
f_b64_ntop src target targsize = ntop_loop targsize src 0 target
