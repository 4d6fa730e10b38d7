-- ===== src/Base64/Groups.antt =====
-- fbase64.c: what f_b64_pton does at the text of one, two and three bytes.
use prj_movie_dbapp.Prelude.{
  ℕ, ◌+◌, ◌*◌, ◌/◌, ◌%◌, ◌^◌, ◌≤◌, ◌<◌, ◌≡◌, refl, ap, ◌∙◌, List, [], ◌∷◌, ◌++◌, arith, length,
  length-append,
}
use prj_movie_dbapp.Base64.Alphabet.{pad64}
use prj_movie_dbapp.Base64.Pton.{state0, state2, state3, Progress, padded, scan}
use prj_movie_dbapp.Base64.Digits.{digit}
use prj_movie_dbapp.Base64.Chars.{quantum, text}
use prj_movie_dbapp.Base64.Steps.{progress, step0, step1-byte, step2-byte, step3-byte}

pub split2 :
    (cells : List ℕ) → 2 ≤ length cells → (x y : ℕ) × (rest : List ℕ) × (cells ≡ x ∷ y ∷ rest)
split2 [] h = absurd (omega arith)
split2 (x ∷ []) h = absurd (omega arith)
split2 (x ∷ y ∷ rest) h = (x, y, rest, refl)

pub split3 :
    (cells : List ℕ) → 3 ≤ length cells → (x y z : ℕ) × (rest : List ℕ) × (cells ≡ x ∷ y ∷ z ∷ rest)
split3 [] h = absurd (omega arith)
split3 (x ∷ cells) h =
    let (y, z, rest, e) = split2 cells (omega arith) in (x, y, z, rest, ap (λ t. x ∷ t) e)

scan-pad : (n : ℕ) (more : List ℕ) (p : Progress) → scan n (pad64 ∷ more) p ≡ padded more p
unfolding scan
scan-pad n more p = refl

pub length-snoc : (done : List ℕ) (b : ℕ) → length (done ++ b ∷ []) ≡ length done + 1
length-snoc done b = omega (arith, length-append done (b ∷ []))

module _ (n : ℕ) (small : n < 2 ^ 32) (done cells : List ℕ) where
  -- One byte, and two pads.
  pub scan_one :
      (a x y : ℕ) (junk : List ℕ)
      → a < 256
      → length done + 1 < n
      → scan n (text (a ∷ []) ++ junk) (progress state0 done (x ∷ y ∷ cells))
        ≡ padded (pad64 ∷ junk) (progress state2 (done ++ a ∷ []) (0 ∷ cells))
  unfolding text
  scan_one a x y junk ha h =
      step0 n small (digit (a * 16 % 64) ∷ pad64 ∷ pad64 ∷ junk) done (y ∷ cells) (a / 4) x
        (omega arith) (omega arith)
      ∙ step1-byte n small (pad64 ∷ pad64 ∷ junk) done cells (a / 4) (a * 16 % 64) y (omega arith)
          (omega arith) h
      ∙ scan-pad n (pad64 ∷ junk) _
      ∙ (λ i. padded (pad64 ∷ junk) (progress state2 (done ++ first a ha i ∷ []) (low a i ∷ cells)))
    where
      first : (a : ℕ) → a < 256 → a / 4 * 4 + a * 16 % 64 / 16 ≡ a
      first a ha = omega arith

      low : (a : ℕ) → a * 16 % 64 % 16 * 16 ≡ 0
      low a = omega arith

  -- Two bytes, and one pad.
  pub scan_two :
      (a b x y z : ℕ) (junk : List ℕ)
      → a < 256
      → b < 256
      → length done + 2 < n
      → scan n (text (a ∷ b ∷ []) ++ junk) (progress state0 done (x ∷ y ∷ z ∷ cells))
        ≡ padded junk (progress state3 ((done ++ a ∷ []) ++ b ∷ []) (0 ∷ cells))
  unfolding text
  scan_two a b x y z junk ha hb h =
      let v1 = (a * 256 + b) / 16 % 64 in
      let v2 = b * 4 % 64 in
      let byte1 = a / 4 * 4 + v1 / 16 in
      step0 n small (digit v1 ∷ digit v2 ∷ pad64 ∷ junk) done (y ∷ z ∷ cells) (a / 4) x
        (omega arith) (omega arith)
      ∙ step1-byte n small (digit v2 ∷ pad64 ∷ junk) done (z ∷ cells) (a / 4) v1 y (omega arith)
          (omega arith) (omega arith)
      ∙ step2-byte n small (pad64 ∷ junk) (done ++ byte1 ∷ []) cells (v1 % 16) v2 z (omega arith)
          (omega arith) (omega (arith, length-snoc done byte1))
      ∙ scan-pad n junk _
      ∙ (λ i. padded junk (
          progress state3 ((done ++ first a b ha hb i ∷ []) ++ second a b ha hb i ∷ [])
            (low b i ∷ cells)))
    where
      first : (a b : ℕ) → a < 256 → b < 256 → a / 4 * 4 + (a * 256 + b) / 16 % 64 / 16 ≡ a
      first a b ha hb = omega arith

      second :
          (a b : ℕ) → a < 256 → b < 256 → (a * 256 + b) / 16 % 64 % 16 * 16 + b * 4 % 64 / 4 ≡ b
      second a b ha hb = omega arith

      low : (b : ℕ) → b * 4 % 64 % 4 * 64 ≡ 0
      low b = omega arith

  -- Three bytes.
  pub scan_three :
      (a b c x y z : ℕ) (more : List ℕ)
      → a < 256
      → b < 256
      → c < 256
      → length done + 2 < n
      → scan n
          (quantum (a * 65536 + b * 256 + c) ++ more)
          (progress state0 done (x ∷ y ∷ z ∷ cells))
        ≡ scan n more (progress state0 (((done ++ a ∷ []) ++ b ∷ []) ++ c ∷ []) cells)
  unfolding quantum
  scan_three a b c x y z more ha hb hc h =
      let v = a * 65536 + b * 256 + c in
      let v0 = v / 2 ^ 18 in
      let v1 = v / 2 ^ 12 % 64 in
      let v2 = v / 2 ^ 6 % 64 in
      let v3 = v % 64 in
      let byte1 = v0 * 4 + v1 / 16 in
      let byte2 = v1 % 16 * 16 + v2 / 4 in
      step0 n small (digit v1 ∷ digit v2 ∷ digit v3 ∷ more) done (y ∷ z ∷ cells) v0 x (omega arith)
        (omega arith)
      ∙ step1-byte n small (digit v2 ∷ digit v3 ∷ more) done (z ∷ cells) v0 v1 y (omega arith)
          (omega arith) (omega arith)
      ∙ step2-byte n small (digit v3 ∷ more) (done ++ byte1 ∷ []) cells (v1 % 16) v2 z (omega arith)
          (omega arith) (omega (arith, length-snoc done byte1))
      ∙ step3-byte n small more ((done ++ byte1 ∷ []) ++ byte2 ∷ []) cells (v2 % 4) v3 (omega arith)
          (omega arith)
          (omega (arith, length-snoc done byte1, length-snoc (done ++ byte1 ∷ []) byte2))
      ∙ (λ i. scan n more (
          progress state0
            (((done ++ first a b c ha hb hc i ∷ []) ++ second a b c ha hb hc i ∷ [])
              ++ third a b c ha hb hc i ∷ [])
            cells))
    where
      first :
          (a b c : ℕ)
          → a < 256
          → b < 256
          → c < 256
          → (a * 65536 + b * 256 + c) / 2 ^ 18 * 4 + (a * 65536 + b * 256 + c) / 2 ^ 12 % 64 / 16
            ≡ a
      first a b c ha hb hc = omega arith

      second :
          (a b c : ℕ)
          → a < 256
          → b < 256
          → c < 256
          → (a * 65536 + b * 256 + c) / 2 ^ 12 % 64 % 16 * 16
              + (a * 65536 + b * 256 + c) / 2 ^ 6 % 64 / 4
            ≡ b
      second a b c ha hb hc = omega arith

      third :
          (a b c : ℕ)
          → a < 256
          → b < 256
          → c < 256
          → (a * 65536 + b * 256 + c) / 2 ^ 6 % 64 % 4 * 64 + (a * 65536 + b * 256 + c) % 64 ≡ c
      third a b c ha hb hc = omega arith
