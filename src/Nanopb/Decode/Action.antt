-- ===== src/Nanopb/Decode/Action.antt =====
-- MovieDBApp/Pods/nanopb/pb_decode.c: the monad of the decoder's functions that change both the
-- stream and the memory.
use prj_movie_dbapp.Prelude.{ℕ, ◌+◌, List, Option, none, some, replicate}
use prj_movie_dbapp.Nanopb.Field.{Field, Message, Memory, load_bytes, load_word}
use prj_movie_dbapp.Nanopb.Istream.{Istream, Outcome, got, failed, stuck, Decoder, and_then}
use prj_movie_dbapp.Nanopb.Istream
use prj_movie_dbapp.Nanopb.Decode.Primitive.{pb_close_string_substream}
use prj_movie_dbapp.Nanopb.Decode.Scalar.{store_bytes, store_word, Loaded}

abbrev pub Action : Type 0 → Type 0 → Type 0
Action S A = Memory → Istream S → (Outcome A × Istream S) × Memory

-- What the decoder finds around it: the descriptor array at an address, pb_realloc and pb_free, the
-- user's functions by their addresses (of a callback field, and of an extension type), the address
-- of the local `fixed_count_size` by the depth of the call, and a bound for the extensions of a
-- message, the nesting of defaults and of releases, and the calls of one callback.
pub record Env : Type 1 where
  pub descriptors : ℕ → List Field
  pub realloc : Memory → ℕ → ℕ → ℕ × Memory
  pub free : Memory → ℕ → Memory
  pub callback_decode : {S : Type 0} → ℕ → Field → ℕ → Action S (Unit {0})
  pub extension_decode : {S : Type 0} → ℕ → ℕ → ℕ → ℕ → Action S (Unit {0})
  pub frame : ℕ → ℕ
  pub bound : ℕ

-- A function that changes memory only; `none`: the bound was too small.
abbrev pub Update : Type 0
Update = Memory → Option Memory

abbrev pub update_then : Option Memory → Update → Option Memory
update_then none k = none
update_then (some m) k = k m

module _ {S : Type 0} where
  module _ {A : Type 0} where
    abbrev pub pure : A → Action S A
    pure a m s = ((got a, s), m)

    abbrev pub out_of_fuel : Action S A
    out_of_fuel m s = ((stuck, s), m)

    -- PB_RETURN_ERROR
    abbrev pub return_error : Message → Action S A
    return_error e m s = (Istream.return_error e s, m)

    -- A function that leaves the memory alone.
    abbrev pub on_stream : Decoder S A → Action S A
    on_stream d m s = (d s, m)

    abbrev pub and_do :
        {B : Type 0}
        → (Outcome A × Istream S) × Memory
        → (A → Action S B)
        → (Outcome B × Istream S) × Memory
    and_do ((got a, s), m) k = k a m s
    and_do ((failed, s), m) k = ((failed, s), m)
    and_do ((stuck, s), m) k = ((stuck, s), m)

  abbrev pub apply_update : Option Memory → Memory → Istream S → Loaded S
  apply_update none m s = ((stuck, s), m)
  apply_update (some m') m s = ((got tt, s), m')

  abbrev pub on_memory : Update → Action S (Unit {0})
  on_memory f m s = apply_update (f m) m s

  abbrev pub modify : (Memory → Memory) → Action S (Unit {0})
  modify f m s = ((got tt, s), f m)

  -- `if (!pb_close_string_substream(stream, &substream)) return false; return status;`
  unfoldable pub close_after : (Outcome (Unit {0}) × Istream S) × Memory → Istream S → Loaded S
  close_after ((got u, substream), m) s = (pb_close_string_substream substream s, m)
  close_after ((failed, substream), m) s =
      (and_then (pb_close_string_substream substream s) (λ u s. (failed, s)), m)
  close_after ((stuck, substream), m) s = ((stuck, s), m)

infixl 5 ◌>>=◌ ◌>>◌
abbrev pub ◌>>=◌ : {S A B : Type 0} → Action S A → (A → Action S B) → Action S B
m >>= k = λ mem s. and_do (m mem s) k

abbrev pub ◌>>◌ : {S A B : Type 0} → Action S A → Action S B → Action S B
m >> k = m >>= λ _. k

-- `(*size)++` on a pb_size_t
unfoldable pub increment : ℕ → Memory → Memory
increment a m = store_word m a 4 (load_word m a 4 + 1)

-- `memset(dest, 0, n)`
unfoldable pub memset_zero : ℕ → ℕ → Memory → Memory
memset_zero dest n m = store_bytes m dest (replicate n 0)

-- `memcpy(dest, src, n)`
unfoldable pub memcpy : ℕ → ℕ → ℕ → Memory → Memory
memcpy dest src n m = store_bytes m dest (load_bytes m src n)
