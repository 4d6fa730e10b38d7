-- ===== src/Base64/Steps.antt =====
-- fbase64.c: what f_b64_pton does at a digit, in each of its states.
use prj_movie_dbapp.Prelude.{
  ℕ, suc, ◌+◌, ◌*◌, ◌/◌, ◌%◌, ◌^◌, ◌<◌, ◌≡◌, refl, sym, ap, ◌∙◌, some, List, [], ◌∷◌, ◌++◌,
  append_assoc, bit_or, arith, set, get_or, length, length-append,
}
use prj_movie_dbapp.Prelude.Bits.{bit_and_3, bit_and_15}
use prj_movie_dbapp.Base64.Pton.{
  State, state0, state1, state2, state3, Progress, next_index, store, take_char, scan,
}
use prj_movie_dbapp.Base64.Digits.{
  digit, digit-ne_zero, digit-no_space, digit-no_pad, position-digit, bit_or-4, bit_or-16,
  bit_or-64,
}
use prj_movie_dbapp.Base64.Chars.{set-append}

-- The bytes in `done` are finished; `cells` begins with the one that `state` is about.
abbrev pub progress : State → List ℕ → List ℕ → Progress
progress state done cells = record {
  state = state;
  tarindex = length done;
  target = some (done ++ cells);
}

pub get_or-append : (done cells : List ℕ) (x : ℕ) → get_or (done ++ x ∷ cells) (length done) 0 ≡ x
get_or-append [] cells x = refl
get_or-append (d ∷ done) cells x = get_or-append done cells x

scan-digit :
    (n v : ℕ) (more : List ℕ) (p q : Progress)
    → v < 64
    → store n v p.state p.tarindex p.target ≡ some q
    → scan n (digit v ∷ more) p ≡ scan n more q
unfolding scan take_char
scan-digit n v more p q h e =
    ground (arith, digit-ne_zero v h, digit-no_space v h, digit-no_pad v h, position-digit v h)

module _ (n : ℕ) (small : n < 2 ^ 32) (v : ℕ) (hv : v < 64) (done cells : List ℕ) where
  store0 :
      (x : ℕ)
      → length done < n
      → store n v state0 (length done) (some (done ++ x ∷ cells))
        ≡ some (progress state1 done (v * 4 ∷ cells))
  unfolding store
  store0 x h = ground (arith, set-append done cells x (v * 4))

-- The index moves to the next cell.
next-progress :
    (state : State) (done rest : List ℕ) (u : ℕ)
    → length done + 1 < 2 ^ 32
    → record {
      state = state;
      tarindex = next_index (length done);
      target = some (done ++ u ∷ rest);
    }
      ≡ progress state (done ++ u ∷ []) rest
next-progress state done rest u h = λ i. record {
  state = state;
  tarindex = index (length (done ++ u ∷ [])) (length-append done (u ∷ [])) i;
  target = some (sym (append_assoc done (u ∷ []) rest) i);
}
  where
    index : (r : ℕ) → r ≡ length done + 1 → (length done + 1) % 2 ^ 32 ≡ r
    index r e = omega arith

set-second :
    (done cells : List ℕ) (u y w : ℕ)
    → set (done ++ u ∷ y ∷ cells) (suc (length done)) w ≡ done ++ u ∷ w ∷ cells
set-second [] cells u y w = refl
set-second (d ∷ done) cells u y w = ap (λ t. d ∷ t) (set-second done cells u y w)

-- Two neighbouring cells are set.
set_two :
    (done cells : List ℕ) (x y u w : ℕ)
    → length done + 1 < 2 ^ 32
    → set (set (done ++ x ∷ y ∷ cells) (length done) u) ((length done + 1) % 2 ^ 32) w
      ≡ done ++ u ∷ w ∷ cells
set_two done cells x y u w h =
    ap (λ t. set t ((length done + 1) % 2 ^ 32) w) (set-append done (y ∷ cells) x u)
    ∙ ap (λ i. set (done ++ u ∷ y ∷ cells) i w) (omega arith)
    ∙ set-second done cells u y w

module _ (n : ℕ) (small : n < 2 ^ 32) (more done cells : List ℕ) where
  pub step0 :
      (v x : ℕ)
      → v < 64
      → length done < n
      → scan n (digit v ∷ more) (progress state0 done (x ∷ cells))
        ≡ scan n more (progress state1 done (v * 4 ∷ cells))
  step0 v x hv h =
      scan-digit n v more _ _ hv (unfold store in ground (arith, set-append done cells x (v * 4)))

  step1 :
      (v x y : ℕ)
      → v < 64
      → length done + 1 < n
      → scan n (digit v ∷ more) (progress state1 done (x ∷ y ∷ cells))
        ≡ scan n more (progress state2 (done ++ bit_or x (v / 16) ∷ []) (v % 16 * 16 ∷ cells))
  step1 v x y hv h = scan-digit n v more _ _ hv (
      unfold store in
      ground (
        arith,
        get_or-append done (y ∷ cells) x,
        bit_and_15 v,
        set_two done cells x y (bit_or x (v / 16)) (v % 16 * 16) (omega arith),
        next-progress state2 done (v % 16 * 16 ∷ cells) (bit_or x (v / 16)) (omega arith),
      ))

  step2 :
      (v x y : ℕ)
      → v < 64
      → length done + 1 < n
      → scan n (digit v ∷ more) (progress state2 done (x ∷ y ∷ cells))
        ≡ scan n more (progress state3 (done ++ bit_or x (v / 4) ∷ []) (v % 4 * 64 ∷ cells))
  step2 v x y hv h = scan-digit n v more _ _ hv (
      unfold store in
      ground (
        arith,
        get_or-append done (y ∷ cells) x,
        bit_and_3 v,
        set_two done cells x y (bit_or x (v / 4)) (v % 4 * 64) (omega arith),
        next-progress state3 done (v % 4 * 64 ∷ cells) (bit_or x (v / 4)) (omega arith),
      ))

  step3 :
      (v x : ℕ)
      → v < 64
      → length done < n
      → scan n (digit v ∷ more) (progress state3 done (x ∷ cells))
        ≡ scan n more (progress state0 (done ++ bit_or x v ∷ []) cells)
  step3 v x hv h = scan-digit n v more _ _ hv (
      unfold store in
      ground (
        arith,
        get_or-append done cells x,
        set-append done cells x (bit_or x v),
        next-progress state0 done cells (bit_or x v) (omega arith),
      ))

  -- The first byte is complete.
  pub step1-byte :
      (high v y : ℕ)
      → high < 64
      → v < 64
      → length done + 1 < n
      → scan n (digit v ∷ more) (progress state1 done (high * 4 ∷ y ∷ cells))
        ≡ scan n more (progress state2 (done ++ (high * 4 + v / 16) ∷ []) (v % 16 * 16 ∷ cells))
  step1-byte high v y hh hv h =
      step1 v (high * 4) y hv h
      ∙ ap (λ b. scan n more (progress state2 (done ++ b ∷ []) (v % 16 * 16 ∷ cells)))
          (bit_or-4 high (v / 16) hh (omega arith))

  pub step2-byte :
      (high v y : ℕ)
      → high < 16
      → v < 64
      → length done + 1 < n
      → scan n (digit v ∷ more) (progress state2 done (high * 16 ∷ y ∷ cells))
        ≡ scan n more (progress state3 (done ++ (high * 16 + v / 4) ∷ []) (v % 4 * 64 ∷ cells))
  step2-byte high v y hh hv h =
      step2 v (high * 16) y hv h
      ∙ ap (λ b. scan n more (progress state3 (done ++ b ∷ []) (v % 4 * 64 ∷ cells)))
          (bit_or-16 high (v / 4) hh (omega arith))

  pub step3-byte :
      (high v : ℕ)
      → high < 4
      → v < 64
      → length done < n
      → scan n (digit v ∷ more) (progress state3 done (high * 64 ∷ cells))
        ≡ scan n more (progress state0 (done ++ (high * 64 + v) ∷ []) cells)
  step3-byte high v hh hv h =
      step3 v (high * 64) hv h
      ∙ ap (λ b. scan n more (progress state0 (done ++ b ∷ []) cells)) (bit_or-64 high v hh hv)
