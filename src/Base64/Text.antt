-- ===== src/Base64/Text.antt =====
-- fbase64.c: f_b64_ntop writes the base64 text of its input, or returns -1.
use prj_movie_dbapp.Prelude.{
  ℕ, zero, suc, ◌+◌, ◌*◌, ◌%◌, ◌^◌, ◌≤◌, ◌<◌, ◌≡◌, refl, sym, ap, ◌∙◌, List, [], ◌∷◌, ◌++◌,
  append_assoc, arith, drop, length, length-append, length-drop, append-nil,
}
use prj_movie_dbapp.Base64.Alphabet.{minus_one}
use prj_movie_dbapp.Base64.Ntop.{
  put_chars, group1, group2, group3, terminate, pad_group, ntop_loop, f_b64_ntop,
}
use prj_movie_dbapp.Base64.Chars.{
  quantum, text, AreBytes, set-append, put_group, group1-text, group2-text, group3-quantum,
}

drop-nil : (n : ℕ) → drop {A = ℕ} n [] ≡ []
drop-nil zero = refl
drop-nil (suc n) = refl

drop-drop : (m n : ℕ) (xs : List ℕ) → drop m (drop n xs) ≡ drop (n + m) xs
drop-drop m zero xs = ap (λ k. drop k xs) (omega arith)
drop-drop m (suc n) [] = drop-nil m ∙ sym (drop-nil (suc n + m))
drop-drop m (suc n) (x ∷ xs) = drop-drop m n xs ∙ ap (λ k. drop k (x ∷ xs)) (suc_add n m)
  where
    suc_add : (n m : ℕ) → suc (n + m) ≡ suc n + m
    suc_add n m = omega arith

-- The value returned and the cells, where `chs` and a '\0' are written behind `done`.
abbrev pub written : List ℕ → List ℕ → List ℕ → ℕ × List ℕ
written done chs rest =
    ((length done + length chs) % 2 ^ 32, done ++ (chs ++ 0 ∷ drop (length chs + 1) rest))

-- Two pieces are written one after the other.
written-append :
    (done xs ys rest : List ℕ)
    → written (done ++ xs) ys (drop (length xs) rest) ≡ written done (xs ++ ys) rest
written-append done xs ys rest = λ i. (
  counts (length (done ++ xs)) (length done) (length (xs ++ ys)) (length-append done xs)
      (length-append xs ys) i,
  (append_assoc done xs (ys ++ 0 ∷ drop (length ys + 1) (drop (length xs) rest))
        ∙ ap (λ t. done ++ t)
            (sym (append_assoc xs ys (0 ∷ drop (length ys + 1) (drop (length xs) rest))))
        ∙ ap (λ t. done ++ ((xs ++ ys) ++ 0 ∷ t))
            (drop-drop (length ys + 1) (length xs) rest
              ∙ ap (λ k. drop k rest) (past (length (xs ++ ys)) (length-append xs ys))))
      i,
)
  where
    past : (r : ℕ) → r ≡ length xs + length ys → length xs + (length ys + 1) ≡ r + 1
    past r h = omega arith

    counts :
        (p q r : ℕ)
        → p ≡ q + length xs
        → r ≡ length xs + length ys
        → (p + length ys) % 2 ^ 32 ≡ (q + r) % 2 ^ 32
    counts p q r hp hr = omega arith

terminate-written :
    (n : ℕ) (done rest : List ℕ)
    → length done < n
    → n ≤ length done + length rest
    → terminate n (length done) (done ++ rest) ≡ written done [] rest
unfolding terminate
terminate-written n done [] h hr = absurd (omega arith)
terminate-written n done (r ∷ rest) h hr = ground (arith, set-append done rest r 0)

module _ (n : ℕ) (small : n + 4 < 2 ^ 64) where
  pad_group-written :
      (chs done rest : List ℕ)
      → length chs ≡ 4
      → length done + 4 < n
      → n ≤ length done + length rest
      → pad_group n chs (length done) (done ++ rest) ≡ written done chs rest
  unfolding pad_group
  pad_group-written chs done rest four h hr = ground (
    arith,
    put_group done chs rest four,
    length-append done chs,
    length-drop 4 rest,
    terminate-written n (done ++ chs) (drop 4 rest),
    written-append done chs [] rest,
    append-nil chs,
  )

  ntop_loop-written :
      (src done rest : List ℕ)
      → AreBytes src
      → length done + length (text src) < n
      → n ≤ length done + length rest
      → ntop_loop n src (length done) (done ++ rest) ≡ written done (text src) rest
  unfolding ntop_loop text quantum
  ntop_loop-written [] done rest hs h hr = terminate-written n done rest (omega arith) hr
  ntop_loop-written (a ∷ []) done rest (ha, hs) h hr =
      ap (λ g. pad_group n g (length done) (done ++ rest)) (group1-text a ha)
      ∙ pad_group-written (text (a ∷ [])) done rest (omega arith) (omega arith) hr
  ntop_loop-written (a ∷ b ∷ []) done rest (ha, (hb, hs)) h hr =
      ap (λ g. pad_group n g (length done) (done ++ rest)) (group2-text a b ha hb)
      ∙ pad_group-written (text (a ∷ b ∷ [])) done rest (omega arith) (omega arith) hr
  ntop_loop-written (a ∷ b ∷ c ∷ src) done rest (ha, (hb, (hc, hs))) h hr =
      let q = quantum (a * 65536 + b * 256 + c) in
      ground (
        arith,
        group3-quantum a b c ha hb hc,
        put_group done q rest refl,
        length-append done q,
        length-append q (text src),
        length-drop 4 rest,
        ntop_loop-written src (done ++ q) (drop 4 rest) hs,
        written-append done q (text src) rest,
      )

  pad_group-short :
      (chs : List ℕ) (datalength : ℕ) (target : List ℕ)
      → datalength ≤ n
      → n ≤ datalength + 4
      → (pad_group n chs datalength target).0 ≡ minus_one
  unfolding pad_group terminate
  pad_group-short chs datalength target hd h = ground arith

  ntop_loop-short :
      (src : List ℕ) (datalength : ℕ) (target : List ℕ)
      → datalength ≤ n
      → n ≤ datalength + length (text src)
      → (ntop_loop n src datalength target).0 ≡ minus_one
  unfolding ntop_loop text quantum terminate
  ntop_loop-short [] datalength target hd h = ground arith
  ntop_loop-short (a ∷ []) datalength target hd h =
      pad_group-short (group1 a) datalength target hd (omega arith)
  ntop_loop-short (a ∷ b ∷ []) datalength target hd h =
      pad_group-short (group2 a b) datalength target hd (omega arith)
  ntop_loop-short (a ∷ b ∷ c ∷ src) datalength target hd h = ground (
    arith,
    length-append (quantum (a * 65536 + b * 256 + c)) (text src),
    ntop_loop-short src (datalength + 4) (put_chars datalength (group3 a b c) target),
  )

-- For bytes whose text and a '\0' fit in targsize, f_b64_ntop writes the text of RFC 4648 and the
-- '\0' at the front of the target, leaves the rest of it as it was, and returns the text's
-- length, as an int; targsize + 4 fits in a size_t and the target has targsize cells.
pub f_b64_ntop-text :
    (src target : List ℕ) (targsize : ℕ)
    → AreBytes src
    → length (text src) < targsize
    → targsize ≤ length target
    → targsize + 4 < 2 ^ 64
    → f_b64_ntop src target targsize
      ≡ (length (text src) % 2 ^ 32, text src ++ 0 ∷ drop (length (text src) + 1) target)
unfolding f_b64_ntop
f_b64_ntop-text src target targsize hs h hr small =
    ntop_loop-written targsize small src [] target hs (omega arith) (omega arith)
    ∙ ap (λ k. (k, text src ++ 0 ∷ drop (length (text src) + 1) target)) (omega arith)

-- If the text of the input and a '\0' do not fit in targsize, f_b64_ntop returns -1; targsize + 4
-- fits in a size_t.
pub f_b64_ntop-short :
    (src target : List ℕ) (targsize : ℕ)
    → targsize ≤ length (text src)
    → targsize + 4 < 2 ^ 64
    → (f_b64_ntop src target targsize).0 ≡ minus_one
unfolding f_b64_ntop
f_b64_ntop-short src target targsize h small =
    ntop_loop-short targsize small src 0 target (omega arith) (omega arith)
