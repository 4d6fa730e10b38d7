-- ===== src/Base64/RoundTrip.antt =====
-- fbase64.c: f_b64_pton reads back what f_b64_ntop wrote.
use prj_movie_dbapp.Prelude.{
  ℕ, suc, ◌+◌, ◌*◌, ◌^◌, ◌≤◌, ◌<◌, ◌≡◌, sym, ap, ◌∙◌, Option, some, List, [], ◌∷◌, ◌++◌,
  append_assoc, arith, length, drop,
}
use mathlib.Core.Path.{subst}
use prj_movie_dbapp.Base64.Alphabet.{pad64}
use prj_movie_dbapp.Base64.Ntop.{f_b64_ntop}
use prj_movie_dbapp.Base64.Pton.{
  State, state0, state2, state3, padded, scan, skip_spaces, only_spaces, extra_bits, after_pads,
  second_pad, after_pad, at_end, finish, f_b64_pton,
}
use prj_movie_dbapp.Base64.Chars.{quantum, text, AreBytes}
use prj_movie_dbapp.Base64.Text.{f_b64_ntop-text}
use prj_movie_dbapp.Base64.Steps.{progress, get_or-append}
use prj_movie_dbapp.Base64.Groups.{split2, split3, length-snoc, scan_one, scan_two, scan_three}

after_pads-progress :
    (junk done cells : List ℕ) (state : State)
    → after_pads (0 ∷ junk) (progress state done (0 ∷ cells)) ≡ length done
unfolding after_pads only_spaces extra_bits
after_pads-progress junk done cells state = ground (arith, get_or-append done cells 0)

finish-one :
    (junk done cells : List ℕ)
    → finish (padded (pad64 ∷ 0 ∷ junk) (progress state2 done (0 ∷ cells)))
      ≡ (length done, some (done ++ 0 ∷ cells))
unfolding finish after_pad skip_spaces second_pad
finish-one junk done cells =
    ap (λ k. (k, some (done ++ 0 ∷ cells))) (after_pads-progress junk done cells state2)

finish-two :
    (junk done cells : List ℕ)
    → finish (padded (0 ∷ junk) (progress state3 done (0 ∷ cells)))
      ≡ (length done, some (done ++ 0 ∷ cells))
unfolding finish after_pad
finish-two junk done cells =
    ap (λ k. (k, some (done ++ 0 ∷ cells))) (after_pads-progress junk done cells state3)

-- The bytes are stored behind `done`, and their number is returned.
abbrev Stored : List ℕ → List ℕ → ℕ × Option (List ℕ) → Type 0
Stored done src r = (tail : List ℕ) × (r ≡ (length done + length src, some (done ++ (src ++ tail))))

Stored-snoc :
    (done src : List ℕ) (b : ℕ) (r : ℕ × Option (List ℕ))
    → Stored (done ++ b ∷ []) src r
    → Stored done (b ∷ src) r
Stored-snoc done src b r (tail, e) = (
  tail,
  e ∙ (λ i. (
    count (length (done ++ b ∷ [])) (length-snoc done b) i,
    some (append_assoc done (b ∷ []) (src ++ tail) i),
  )),
)
  where
    count : (k : ℕ) → k ≡ length done + 1 → k + length src ≡ length done + suc (length src)
    count k h = omega arith

length-three :
    (done : List ℕ) (a b c : ℕ) → length (((done ++ a ∷ []) ++ b ∷ []) ++ c ∷ []) ≡ length done + 3
length-three done a b c = omega (
  arith,
  length-snoc done a,
  length-snoc (done ++ a ∷ []) b,
  length-snoc ((done ++ a ∷ []) ++ b ∷ []) c,
)

module _ (n : ℕ) (small : n < 2 ^ 32) (junk : List ℕ) where
  Stored-end :
      (done cells : List ℕ)
      → Stored done [] (finish (scan n (0 ∷ junk) (progress state0 done cells)))
  unfolding scan finish at_end
  Stored-end done cells = (cells, ap (λ k. (k, some (done ++ cells))) (omega arith))

  Stored-one :
      (a : ℕ) (done cells : List ℕ)
      → a < 256
      → length done + 1 < n
      → n ≤ length done + length cells
      → Stored done
          (a ∷ [])
          (finish (scan n (text (a ∷ []) ++ 0 ∷ junk) (progress state0 done cells)))
  Stored-one a done cells ha h hr =
      let (x, y, rest, e) = split2 cells (omega arith) in
      Stored-snoc done [] a _ (
        0 ∷ rest,
        ap (λ t. finish (scan n (text (a ∷ []) ++ 0 ∷ junk) (progress state0 done t))) e
            ∙ ap finish (scan_one n small done rest a x y (0 ∷ junk) ha h)
            ∙ finish-one junk (done ++ a ∷ []) rest
            ∙ ap (λ k. (k, some ((done ++ a ∷ []) ++ 0 ∷ rest))) (omega arith),
      )

  Stored-two :
      (a b : ℕ) (done cells : List ℕ)
      → a < 256
      → b < 256
      → length done + 2 < n
      → n ≤ length done + length cells
      → Stored done
          (a ∷ b ∷ [])
          (finish (scan n (text (a ∷ b ∷ []) ++ 0 ∷ junk) (progress state0 done cells)))
  Stored-two a b done cells ha hb h hr =
      let (x, y, z, rest, e) = split3 cells (omega arith) in
      Stored-snoc done (b ∷ []) a _ (
        Stored-snoc (done ++ a ∷ []) [] b _ (
          0 ∷ rest,
          ap (λ t. finish (scan n (text (a ∷ b ∷ []) ++ 0 ∷ junk) (progress state0 done t))) e
              ∙ ap finish (scan_two n small done rest a b x y z (0 ∷ junk) ha hb h)
              ∙ finish-two junk ((done ++ a ∷ []) ++ b ∷ []) rest
              ∙ ap (λ k. (k, some (((done ++ a ∷ []) ++ b ∷ []) ++ 0 ∷ rest))) (omega arith),
        ))

  Stored-text :
      (src done cells : List ℕ)
      → AreBytes src
      → length done + length src < n
      → n ≤ length done + length cells
      → Stored done src (finish (scan n (text src ++ 0 ∷ junk) (progress state0 done cells)))
  unfolding text
  Stored-text [] done cells hs h hr = Stored-end done cells
  Stored-text (a ∷ []) done cells (ha, hs) h hr = Stored-one a done cells ha (omega arith) hr
  Stored-text (a ∷ b ∷ []) done cells (ha, (hb, hs)) h hr =
      Stored-two a b done cells ha hb (omega arith) hr
  Stored-text (a ∷ b ∷ c ∷ src) done cells (ha, (hb, (hc, hs))) h hr =
      let (x, y, z, rest, e) = split3 cells (omega arith) in
      let done' = ((done ++ a ∷ []) ++ b ∷ []) ++ c ∷ [] in
      let q = quantum (a * 65536 + b * 256 + c) in
      let scanned =
        ap (λ t. scan n ((q ++ text src) ++ 0 ∷ junk) (progress state0 done t)) e
        ∙ ap (λ t. scan n t (progress state0 done (x ∷ y ∷ z ∷ rest)))
            (append_assoc q (text src) (0 ∷ junk))
        ∙ scan_three n small done rest a b c x y z (text src ++ 0 ∷ junk) ha hb hc (omega arith) in
      subst (λ t. Stored done (a ∷ b ∷ c ∷ src) (finish t)) (sym scanned)
        (Stored-snoc done (b ∷ c ∷ src) a _ (
          Stored-snoc (done ++ a ∷ []) (c ∷ src) b _ (
            Stored-snoc ((done ++ a ∷ []) ++ b ∷ []) src c _ (
              Stored-text src done' rest hs (omega (arith, length-three done a b c))
                (omega (arith, length-three done a b c, ap length e))))))

-- If f_b64_ntop had room for the text of some bytes, and the target of f_b64_pton has targsize
-- cells, at least one more than there are bytes and fewer than 2 ^ 32, then f_b64_pton, run on
-- what f_b64_ntop wrote, returns the number of the bytes and stores them at the front of its
-- target.
pub b64_round_trip :
    (src buffer target : List ℕ) (bufsize targsize : ℕ)
    → AreBytes src
    → length (text src) < bufsize
    → bufsize ≤ length buffer
    → bufsize + 4 < 2 ^ 64
    → length src < targsize
    → targsize ≤ length target
    → targsize < 2 ^ 32
    → (tail : List ℕ) × (f_b64_pton ((f_b64_ntop src buffer bufsize).1) (some target) targsize
        ≡ (length src, some (src ++ tail)))
unfolding f_b64_pton
b64_round_trip src buffer target bufsize targsize hs fits room big h hr small =
    let (tail, e) =
      Stored-text targsize small (drop (length (text src) + 1) buffer) src [] target hs
        (omega arith) (omega arith) in
    (
      tail,
      ap (λ r. f_b64_pton (r.1) (some target) targsize)
            (f_b64_ntop-text src buffer bufsize hs fits room big)
          ∙ e
          ∙ ap (λ k. (k, some (src ++ tail))) (omega arith),
    )
