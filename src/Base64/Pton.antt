-- ===== src/Base64/Pton.antt =====
-- fbase64.c: f_b64_pton, from text to bytes.
use prj_movie_dbapp.Prelude.{
  ℕ, ◌+◌, ◌*◌, ◌/◌, ◌%◌, ◌^◌, Bool, true, false, not, Option, none, some, List, [], ◌∷◌, bit_and,
  bit_or, leb, ◌==◌, if◌then◌else◌, set, get_or,
}
use prj_movie_dbapp.Base64.Alphabet.{pad64, position, isspace, minus_one}

-- The variable `state`, which is 0, 1, 2 or 3.
pub data State : Type 0 where
  state0 state1 state2 state3 : State

-- `state`, `tarindex`, and the cells of `target`, unless it is NULL.
pub record Progress : Type 0 where
  pub state : State
  pub tarindex : ℕ
  pub target : Option (List ℕ)

abbrev pub at : ℕ → List ℕ → ℕ
at i cells = get_or cells i 0

-- `tarindex++`, a u_int.
abbrev pub next_index : ℕ → ℕ
next_index i = (i + 1) % 2 ^ 32

-- What a character at position `pos` of the alphabet does; none is `return (-1)`.
unfoldable pub store : ℕ → ℕ → State → ℕ → Option (List ℕ) → Option Progress
store targsize pos state0 i none = some record { state = state1; tarindex = i; target = none }
store targsize pos state1 i none =
    some record { state = state2; tarindex = next_index i; target = none }
store targsize pos state2 i none =
    some record { state = state3; tarindex = next_index i; target = none }
store targsize pos state3 i none =
    some record { state = state0; tarindex = next_index i; target = none }
store targsize pos state0 i (some cells) =
    if leb targsize i
    then none
    else some
        record { state = state1; tarindex = i; target = some (set cells i (pos * 2 ^ 2 % 2 ^ 8)) }
store targsize pos state1 i (some cells) =
    if leb targsize ((i + 1) % 2 ^ 32)
    then none
    else some record {
      state = state2;
      tarindex = next_index i;
      target = some (
          set (set cells i (bit_or (at i cells) (pos / 2 ^ 4))) ((i + 1) % 2 ^ 32)
            (bit_and pos 0x0f * 2 ^ 4 % 2 ^ 8));
    }
store targsize pos state2 i (some cells) =
    if leb targsize ((i + 1) % 2 ^ 32)
    then none
    else some record {
      state = state3;
      tarindex = next_index i;
      target = some (
          set (set cells i (bit_or (at i cells) (pos / 2 ^ 2))) ((i + 1) % 2 ^ 32)
            (bit_and pos 0x03 * 2 ^ 6 % 2 ^ 8));
    }
store targsize pos state3 i (some cells) =
    if leb targsize i
    then none
    else some record {
      state = state0;
      tarindex = next_index i;
      target = some (set cells i (bit_or (at i cells) pos));
    }

-- How the loop ends: at the string's end, at a pad character with what follows it, or by -1. The
-- cells of `target` stay as they were written.
pub data Scan : Type 0 where
  ended : Progress → Scan
  padded : List ℕ → Progress → Scan
  refused : Option (List ℕ) → Scan

-- A character that is neither white space nor a pad.
unfoldable pub take_char : ℕ → ℕ → Progress → Option Progress
take_char targsize ch p = elim (position ch) [
  | none ↦ none
  | some pos ↦ store targsize pos p.state p.tarindex p.target
]

-- The loop; the string ends at a '\0' or where the list does.
unfoldable pub scan : ℕ → List ℕ → Progress → Scan
scan targsize [] p = ended p
scan targsize (ch ∷ src) p =
    let more = scan targsize src in
    let next : Scan = elim (take_char targsize ch p) [
      | none ↦ refused p.target
      | some q ↦ more q
    ] in
    if ch == 0
    then ended p
    else if isspace ch
    then more p
    else if ch == pad64
    then padded src p
    else next

-- `for (; ch != '\0'; ch = *src++) if (!isspace(ch)) break;`
unfoldable pub skip_spaces : List ℕ → List ℕ
skip_spaces [] = []
skip_spaces (ch ∷ src) = let more = skip_spaces src in if isspace ch then more else ch ∷ src

-- `for (; ch != '\0'; ch = *src++) if (!isspace(ch)) return (-1);`
unfoldable pub only_spaces : List ℕ → Bool
only_spaces [] = true
only_spaces (ch ∷ src) =
    let more = only_spaces src in if ch == 0 then true else if isspace ch then more else false

-- `target && target[tarindex] != 0`
unfoldable pub extra_bits : Progress → Bool
extra_bits p = elim (p.target) [ none ↦ false | some cells ↦ not (at p.tarindex cells == 0) ]

unfoldable pub after_pads : List ℕ → Progress → ℕ
after_pads src p =
    if not (only_spaces src) then minus_one else if extra_bits p then minus_one else p.tarindex

unfoldable pub second_pad : List ℕ → Progress → ℕ
second_pad [] p = minus_one
second_pad (ch ∷ src) p = if ch == pad64 then after_pads src p else minus_one

unfoldable pub after_pad : State → List ℕ → Progress → ℕ
after_pad state0 src p = minus_one
after_pad state1 src p = minus_one
after_pad state2 src p = second_pad (skip_spaces src) p
after_pad state3 src p = after_pads src p

unfoldable pub at_end : State → Progress → ℕ
at_end state0 p = p.tarindex
at_end state1 p = minus_one
at_end state2 p = minus_one
at_end state3 p = minus_one

-- The value returned, and what `target` holds then.
unfoldable pub finish : Scan → ℕ × Option (List ℕ)
finish (ended p) = (at_end p.state p, p.target)
finish (padded src p) = (after_pad p.state src p, p.target)
finish (refused target) = (minus_one, target)

unfoldable pub f_b64_pton : List ℕ → Option (List ℕ) → ℕ → ℕ × Option (List ℕ)
f_b64_pton src target targsize =
    finish (scan targsize src record { state = state0; tarindex = 0; target = target })
