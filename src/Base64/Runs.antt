-- ===== src/Base64/Runs.antt =====
-- Tests of the base64 codec, and the theorems at concrete inputs.
use prj_movie_dbapp.Prelude.{
  ℕ, ◌+◌, ◌%◌, ◌^◌, ◌≡◌, refl, some, List, [], ◌∷◌, ◌++◌, arith, length, drop, replicate,
}
use prj_movie_dbapp.Base64.Alphabet.{char_of, position, minus_one}
use prj_movie_dbapp.Base64.Ntop.{
  output0, output1, output2, output3, put_chars, group1, group3, terminate, pad_group, ntop_loop,
  f_b64_ntop,
}
use prj_movie_dbapp.Base64.Pton.{
  store, take_char, scan, skip_spaces, only_spaces, extra_bits, after_pads, second_pad, after_pad,
  finish, f_b64_pton,
}
use prj_movie_dbapp.Base64.Digits.{digit}
use prj_movie_dbapp.Base64.Bounds.{Kept, KeptIfAny, Kept-f_b64_ntop}
use prj_movie_dbapp.Base64.PtonBounds.{Kept-f_b64_pton}
use prj_movie_dbapp.Base64.Chars.{quantum, text, AreBytes}
use prj_movie_dbapp.Base64.Text.{f_b64_ntop-text, f_b64_ntop-short}
use prj_movie_dbapp.Base64.RoundTrip.{b64_round_trip}

-- "Foob" is "Rm9vYg==".
abbrev foob : List ℕ
foob = 70 ∷ 111 ∷ 111 ∷ 98 ∷ []

abbrev rm9vyg : List ℕ
rm9vyg = 82 ∷ 109 ∷ 57 ∷ 118 ∷ 89 ∷ 103 ∷ 61 ∷ 61 ∷ []

ntop_run : f_b64_ntop foob (replicate 10 1) 10 ≡ (8, rm9vyg ++ 0 ∷ 1 ∷ [])
unfolding f_b64_ntop ntop_loop pad_group terminate put_chars group1 group3 output0 output1 output2
    output3 char_of
ntop_run = refl

-- White space is skipped.
pton_run :
    f_b64_pton (82 ∷ 109 ∷ 32 ∷ 57 ∷ 118 ∷ 89 ∷ 103 ∷ 61 ∷ 10 ∷ 61 ∷ []) (some (replicate 6 1)) 6
    ≡ (4, some (foob ++ 0 ∷ 1 ∷ []))
unfolding f_b64_pton finish scan take_char position store after_pad skip_spaces second_pad
    after_pads only_spaces extra_bits
pton_run = refl

-- Bits past the last byte are refused.
pton_extra_bits : (f_b64_pton (82 ∷ 109 ∷ 61 ∷ 61 ∷ []) (some (replicate 6 1)) 6).0 ≡ minus_one
unfolding f_b64_pton finish scan take_char position store after_pad skip_spaces second_pad
    after_pads only_spaces extra_bits
pton_extra_bits = refl

text_run : text foob ≡ rm9vyg
unfolding text quantum digit
text_run = refl

foob_bytes : AreBytes foob
foob_bytes = (omega arith, (omega arith, (omega arith, (omega arith, tt))))

f_b64_ntop-text_example :
    f_b64_ntop foob (replicate 10 1) 10
    ≡ (length (text foob) % 2 ^ 32, text foob ++ 0 ∷ drop (length (text foob) + 1) (replicate 10 1))
f_b64_ntop-text_example =
    f_b64_ntop-text foob (replicate 10 1) 10 foob_bytes (unfold text quantum in omega arith)
      (omega arith) (omega arith)

f_b64_ntop-short_example : (f_b64_ntop foob (replicate 10 1) 8).0 ≡ minus_one
f_b64_ntop-short_example =
    f_b64_ntop-short foob (replicate 10 1) 8 (unfold text quantum in omega arith) (omega arith)

Kept-f_b64_ntop_example : Kept 6 (replicate 10 1) ((f_b64_ntop foob (replicate 10 1) 6).1)
Kept-f_b64_ntop_example = Kept-f_b64_ntop foob (replicate 10 1) 6 (omega arith)

Kept-f_b64_pton_example :
    KeptIfAny 3 (some (replicate 6 1)) ((f_b64_pton rm9vyg (some (replicate 6 1)) 3).1)
Kept-f_b64_pton_example = Kept-f_b64_pton rm9vyg (some (replicate 6 1)) 3

b64_round_trip_example :
    (tail : List ℕ) × (f_b64_pton ((f_b64_ntop foob (replicate 10 1) 10).1) (some (replicate 6 1)) 5
      ≡ (length foob, some (foob ++ tail)))
b64_round_trip_example =
    b64_round_trip foob (replicate 10 1) (replicate 6 1) 10 5 foob_bytes
      (unfold text quantum in omega arith) (omega arith) (omega arith) (omega arith) (omega arith)
      (omega arith)
