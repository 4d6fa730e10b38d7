-- ===== src/Base64/Chars.antt =====
-- fbase64.c: the base64 text of RFC 4648, and the characters that f_b64_ntop writes of it.
use prj_movie_dbapp.Prelude.{
  ℕ, ◌+◌, ◌*◌, ◌/◌, ◌%◌, ◌^◌, ◌≤◌, ◌<◌, ◌≡◌, refl, sym, ap, ◌∙◌, List, [], ◌∷◌, ◌++◌, append_assoc,
  arith, set, drop, length, length-append,
}
use prj_movie_dbapp.Prelude.Bits.{bit_and_3, bit_and_15, bit_and_63}
use prj_movie_dbapp.Base64.Alphabet.{char_of, pad64}
use prj_movie_dbapp.Base64.Ntop.{
  output0, output1, output2, output3, put_chars, group1, group2, group3,
}
use prj_movie_dbapp.Base64.Digits.{digit, char_of-digit}

-- The four digits of 24 bits.
unfoldable pub quantum : ℕ → List ℕ
quantum v =
    digit (v / 2 ^ 18) ∷ digit (v / 2 ^ 12 % 64) ∷ digit (v / 2 ^ 6 % 64) ∷ digit (v % 64) ∷ []

-- The text of bytes, as RFC 4648 defines it.
unfoldable pub text : List ℕ → List ℕ
text [] = []
text (a ∷ []) = digit (a / 4) ∷ digit (a * 16 % 64) ∷ pad64 ∷ pad64 ∷ []
text (a ∷ b ∷ []) =
    digit (a / 4) ∷ digit ((a * 256 + b) / 16 % 64) ∷ digit (b * 4 % 64) ∷ pad64 ∷ []
text (a ∷ b ∷ c ∷ src) = quantum (a * 65536 + b * 256 + c) ++ text src

abbrev pub AreBytes : List ℕ → Type 0
AreBytes [] = Unit {0}
AreBytes (b ∷ bs) = (b < 256) × AreBytes bs

char_is : (k v : ℕ) → k ≡ v → v < 64 → char_of k ≡ digit v
char_is k v e h = ap char_of e ∙ char_of-digit v h

module _ (a b c : ℕ) (ha : a < 256) (hb : b < 256) (hc : c < 256) where
  pub group3-quantum : group3 a b c ≡ quantum (a * 65536 + b * 256 + c)
  unfolding group3 quantum output0 output1 output2 output3
  group3-quantum = λ i.
      char_is (output0 a) ((a * 65536 + b * 256 + c) / 2 ^ 18) (omega arith) (omega arith) i
      ∷ char_is (output1 a b) ((a * 65536 + b * 256 + c) / 2 ^ 12 % 64) (omega (arith, bit_and_3 a))
          (omega arith) i
      ∷ char_is (output2 b c) ((a * 65536 + b * 256 + c) / 2 ^ 6 % 64) (omega (arith, bit_and_15 b))
          (omega arith) i
      ∷ char_is (output3 c) ((a * 65536 + b * 256 + c) % 64) (omega (arith, bit_and_63 c))
          (omega arith) i
      ∷ []

pub group2-text : (a b : ℕ) → a < 256 → b < 256 → group2 a b ≡ text (a ∷ b ∷ [])
unfolding group2 text output0 output1 output2
group2-text a b ha hb = λ i.
    char_is (output0 a) (a / 4) (omega arith) (omega arith) i
    ∷ char_is (output1 a b) ((a * 256 + b) / 16 % 64) (omega (arith, bit_and_3 a)) (omega arith) i
    ∷ char_is (output2 b 0) (b * 4 % 64) (omega (arith, bit_and_15 b)) (omega arith) i
    ∷ pad64
    ∷ []

pub group1-text : (a : ℕ) → a < 256 → group1 a ≡ text (a ∷ [])
unfolding group1 text output0 output1
group1-text a ha = λ i.
    char_is (output0 a) (a / 4) (omega arith) (omega arith) i
    ∷ char_is (output1 a 0) (a * 16 % 64) (omega (arith, bit_and_3 a)) (omega arith) i
    ∷ pad64
    ∷ pad64
    ∷ []

pub set-append :
    (done rest : List ℕ) (r v : ℕ) → set (done ++ r ∷ rest) (length done) v ≡ done ++ v ∷ rest
set-append [] rest r v = refl
set-append (d ∷ done) rest r v = ap (λ cells. d ∷ cells) (set-append done rest r v)

-- Characters are put behind those that stand there.
put_chars-append :
    (done chs rest : List ℕ)
    → length chs ≤ length rest
    → put_chars (length done) chs (done ++ rest) ≡ done ++ (chs ++ drop (length chs) rest)
unfolding put_chars
put_chars-append done [] rest h = refl
put_chars-append done (ch ∷ chs) [] h = absurd (omega arith)
put_chars-append done (ch ∷ chs) (r ∷ rest) h =
    rw
      (
        set-append done rest r ch,
        sym (append_assoc done (ch ∷ []) rest),
        sym (length-append done (ch ∷ [])),
      )
      (put_chars-append (done ++ ch ∷ []) chs rest (omega arith)
        ∙ append_assoc done (ch ∷ []) (chs ++ drop (length chs) rest))

pub put_group :
    (done chs rest : List ℕ)
    → length chs ≡ 4
    → 4 ≤ length rest
    → put_chars (length done) chs (done ++ rest) ≡ (done ++ chs) ++ drop 4 rest
put_group done chs rest four h =
    put_chars-append done chs rest (omega arith)
    ∙ ap (λ k. done ++ (chs ++ drop k rest)) four
    ∙ sym (append_assoc done chs (drop 4 rest))
