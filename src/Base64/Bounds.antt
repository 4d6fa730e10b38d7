-- ===== src/Base64/Bounds.antt =====
-- fbase64.c: neither function writes outside the first targsize cells of its target.
use prj_movie_dbapp.Prelude.{
  ℕ, zero, suc, ◌+◌, ◌%◌, ◌^◌, ◌≤◌, ◌<◌, ◌≡◌, refl, ◌∙◌, Bool, true, false, Option, none, some,
  List, [], ◌∷◌, arith, ltb, leb, if◌then◌else◌, set, length, drop, length-set,
}
use prj_movie_dbapp.Nanopb.Ostream.{add_size}
use prj_movie_dbapp.Base64.Alphabet.{minus_one}
use prj_movie_dbapp.Base64.Ntop.{
  put_chars, group3, group2, group1, terminate, pad_group, ntop_loop, f_b64_ntop,
}

-- The cells from `n` on, and how many there are, are what they were.
pub record Kept (n : ℕ) (before after : List ℕ) : Type 0 where
  pub same_length : length after ≡ length before
  pub same_tail : drop n after ≡ drop n before

pub Kept-refl : (n : ℕ) (cells : List ℕ) → Kept n cells cells
Kept-refl n cells = record { same_length = refl; same_tail = refl }

pub Kept-trans : {n : ℕ} {a b c : List ℕ} → Kept n a b → Kept n b c → Kept n a c
Kept-trans h k = record {
  same_length = k.same_length ∙ h.same_length;
  same_tail = k.same_tail ∙ h.same_tail;
}

drop-set : (n i v : ℕ) (cells : List ℕ) → i < n → drop n (set cells i v) ≡ drop n cells
drop-set zero i v cells h = absurd (omega arith)
drop-set (suc n) i v [] h = refl
drop-set (suc n) zero v (c ∷ cells) h = refl
drop-set (suc n) (suc i) v (c ∷ cells) h = drop-set n i v cells (omega arith)

pub Kept-set : (n i v : ℕ) (cells : List ℕ) → i < n → Kept n cells (set cells i v)
Kept-set n i v cells h = record {
  same_length = length-set cells i v;
  same_tail = drop-set n i v cells h;
}

Kept-put_chars :
    (n datalength : ℕ) (chs target : List ℕ)
    → datalength + length chs ≤ n
    → Kept n target (put_chars datalength chs target)
unfolding put_chars
Kept-put_chars n datalength [] target h = Kept-refl n target
Kept-put_chars n datalength (ch ∷ chs) target h =
    Kept-trans (Kept-set n datalength ch target (omega arith))
      (Kept-put_chars n (datalength + 1) chs (set target datalength ch) (omega arith))

Kept-if :
    (c : Bool) (n x : ℕ) (target : List ℕ) (r : ℕ × List ℕ)
    → (c ≡ false → Kept n target (r.1))
    → Kept n target ((if c then (x, target) else r).1)
Kept-if true n x target r h = Kept-refl n target
Kept-if false n x target r h = h refl

Kept-terminate :
    (n datalength : ℕ) (target : List ℕ) → Kept n target ((terminate n datalength target).1)
unfolding terminate
Kept-terminate n datalength target =
    Kept-if (leb n datalength) n minus_one target (datalength % 2 ^ 32, set target datalength 0)
      λ small. Kept-set n datalength 0 target (ground arith)

module _ (n : ℕ) (small : n + 4 < 2 ^ 64) where
  room :
      (datalength : ℕ) → datalength ≤ n → ltb n (add_size datalength 4) ≡ false → datalength + 4 ≤ n
  room datalength h e = ground arith

  Kept-pad_group :
      (chars : List ℕ) (datalength : ℕ) (target : List ℕ)
      → length chars ≡ 4
      → datalength ≤ n
      → Kept n target ((pad_group n chars datalength target).1)
  unfolding pad_group
  Kept-pad_group chars datalength target four h =
      let written = put_chars datalength chars target in
      Kept-if (ltb n (add_size datalength 4)) n minus_one target
        (terminate n (datalength + 4) written)
        λ fits.
          Kept-trans
            (Kept-put_chars n datalength chars target (omega (arith, four, room datalength h fits)))
            (Kept-terminate n (datalength + 4) written)

  Kept-ntop_loop :
      (src : List ℕ) (datalength : ℕ) (target : List ℕ)
      → datalength ≤ n
      → Kept n target ((ntop_loop n src datalength target).1)
  unfolding ntop_loop group1 group2 group3
  Kept-ntop_loop [] datalength target h = Kept-terminate n datalength target
  Kept-ntop_loop (a ∷ []) datalength target h =
      Kept-pad_group (group1 a) datalength target (omega arith) h
  Kept-ntop_loop (a ∷ b ∷ []) datalength target h =
      Kept-pad_group (group2 a b) datalength target (omega arith) h
  Kept-ntop_loop (a ∷ b ∷ c ∷ src) datalength target h =
      let written = put_chars datalength (group3 a b c) target in
      Kept-if (ltb n (add_size datalength 4)) n minus_one target
        (ntop_loop n src (datalength + 4) written)
        λ fits.
          Kept-trans
            (Kept-put_chars n datalength (group3 a b c) target
              (omega (arith, room datalength h fits)))
            (Kept-ntop_loop src (datalength + 4) written (room datalength h fits))

-- f_b64_ntop writes only the first targsize cells of its target, whether or not it returns -1,
-- where targsize + 4 fits in a size_t.
pub Kept-f_b64_ntop :
    (src target : List ℕ) (targsize : ℕ)
    → targsize + 4 < 2 ^ 64
    → Kept targsize target ((f_b64_ntop src target targsize).1)
unfolding f_b64_ntop
Kept-f_b64_ntop src target targsize small = Kept-ntop_loop targsize small src 0 target (omega arith)

-- The same of a target that may be NULL.
pub data KeptIfAny (n : ℕ) : Option (List ℕ) → Option (List ℕ) → Type 0 where
  no_target : KeptIfAny n none none
  kept : {before after : List ℕ} → Kept n before after → KeptIfAny n (some before) (some after)

pub KeptIfAny-refl : (n : ℕ) (target : Option (List ℕ)) → KeptIfAny n target target
KeptIfAny-refl n none = no_target
KeptIfAny-refl n (some cells) = kept (Kept-refl n cells)

pub KeptIfAny-trans :
    (n : ℕ) {a b c : Option (List ℕ)} → KeptIfAny n a b → KeptIfAny n b c → KeptIfAny n a c
KeptIfAny-trans n no_target no_target = no_target
KeptIfAny-trans n (kept h) (kept k) = kept (Kept-trans h k)
