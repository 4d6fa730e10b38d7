-- ===== src/Base64/Digits.antt =====
-- Base64 by RFC 4648, and that the alphabet and the bit operations of fbase64.c agree with it.
use prj_movie_dbapp.Prelude.{
  ℕ, zero, suc, ◌+◌, ◌-◌, ◌*◌, ◌<◌, ◌≡◌, refl, ap, ◌∙◌, Bool, true, false, not, ◌&&◌, Option, none,
  some, bit_or, arith, ltb, ◌==◌, if◌then◌else◌, dec_lt,
}
use prj_movie_dbapp.Base64.Alphabet.{char_of, position, isspace, pad64}

pub all_below : ℕ → (ℕ → Bool) → Bool
all_below zero f = true
all_below (suc n) f = f n && all_below n f

pub all_below-holds : (n : ℕ) (f : ℕ → Bool) → all_below n f ≡ true → (i : ℕ) → i < n → f i ≡ true
unfolding all_below
all_below-holds zero f h i lt = absurd (omega arith)
all_below-holds (suc n) f h i lt = elim (dec_lt i n) [
  | yes below ↦ all_below-holds n f (second (f n) (all_below n f) h) i below
  | no last ↦ ap f (omega arith) ∙ first (f n) (all_below n f) h
]
  where
    first : (x y : Bool) → x && y ≡ true → x ≡ true
    first true y h = refl
    first false y h = h

    second : (x y : Bool) → x && y ≡ true → y ≡ true
    second true y h = h
    second false y h = absurd (cc)

-- The alphabet of RFC 4648, table 1.
unfoldable pub digit : ℕ → ℕ
digit v =
    if ltb v 26
    then 65 + v
    else if ltb v 52
    then 97 + (v - 26)
    else if ltb v 62
    then 48 + (v - 52)
    else if v == 62
    then 43
    else 47

same_position : Option ℕ → ℕ → Bool
same_position none v = false
same_position (some pos) v = pos == v

-- What the decoder asks of a character of the text.
fits : ℕ → Bool
unfolding same_position
fits v =
    (digit v == char_of v)
    && (not (digit v == 0)
        && (not (isspace (digit v))
            && (not (digit v == pad64) && same_position (position (digit v)) v)))

fits_all : all_below 64 fits ≡ true
unfolding all_below fits digit char_of position same_position
fits_all = refl

fits-64 : (v : ℕ) → v < 64 → fits v ≡ true
fits-64 = all_below-holds 64 fits fits_all

pub char_of-digit : (v : ℕ) → v < 64 → char_of v ≡ digit v
unfolding fits
char_of-digit v h = ground (arith, fits-64 v h)

pub digit-ne_zero : (v : ℕ) → v < 64 → (digit v == 0) ≡ false
unfolding fits
digit-ne_zero v h = ground (arith, fits-64 v h)

pub digit-no_space : (v : ℕ) → v < 64 → isspace (digit v) ≡ false
unfolding fits
digit-no_space v h = ground (arith, fits-64 v h)

pub digit-no_pad : (v : ℕ) → v < 64 → (digit v == pad64) ≡ false
unfolding fits
digit-no_pad v h = ground (arith, fits-64 v h)

position_of : (o : Option ℕ) (v : ℕ) → same_position o v ≡ true → o ≡ some v
unfolding same_position
position_of none v h = absurd (cc)
position_of (some pos) v h = ap some (ground arith)

pub position-digit : (v : ℕ) → v < 64 → position (digit v) ≡ some v
unfolding fits
position-digit v h = position_of (position (digit v)) v (ground (arith, fits-64 v h))

-- `high | low` where the bits do not overlap, for all the values of a byte.
disjoint : ℕ → ℕ → ℕ → Bool
disjoint low_size high low = bit_or (high * low_size) low == high * low_size + low

-- For a byte whose low part is below `k`.
disjoint_all : ℕ → ℕ → Bool
disjoint_all high_size low_size =
    all_below high_size (λ high. all_below low_size (disjoint low_size high))

disjoint-holds :
    (high_size low_size : ℕ)
    → disjoint_all high_size low_size ≡ true
    → (high low : ℕ) → high < high_size
    → low < low_size
    → bit_or (high * low_size) low ≡ high * low_size + low
unfolding disjoint_all disjoint
disjoint-holds high_size low_size h high low hh hl = ground (
  arith,
  all_below-holds low_size (disjoint low_size high)
      (all_below-holds high_size (λ high. all_below low_size (disjoint low_size high)) h high hh)
      low hl,
)

pub bit_or-4 : (high low : ℕ) → high < 64 → low < 4 → bit_or (high * 4) low ≡ high * 4 + low
unfolding disjoint_all disjoint all_below
bit_or-4 = disjoint-holds 64 4 refl

pub bit_or-16 : (high low : ℕ) → high < 16 → low < 16 → bit_or (high * 16) low ≡ high * 16 + low
unfolding disjoint_all disjoint all_below
bit_or-16 = disjoint-holds 16 16 refl

pub bit_or-64 : (high low : ℕ) → high < 4 → low < 64 → bit_or (high * 64) low ≡ high * 64 + low
unfolding disjoint_all disjoint all_below
bit_or-64 = disjoint-holds 4 64 refl
