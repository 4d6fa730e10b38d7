-- ===== src/Nanopb/Istream.antt =====
-- MovieDBApp/Pods/nanopb/pb_decode.c: input streams, pb_read and pb_readbyte, and the monad of the
-- decoder.
use prj_movie_dbapp.Prelude.{
  ℕ, zero, suc, ◌-◌, ◌%◌, Bool, true, not, Option, none, List, [], ◌∷◌, ltb, ◌==◌, if◌then◌else◌,
  take, drop,
}
use prj_movie_dbapp.Nanopb.Field.{Message, set_error, end_of_stream, io_error}

-- A callback: whether it is buf_read, and what it reads of `count` bytes from its state.
pub record Source (S : Type 0) : Type 0 where
  pub is_buf_read : Bool
  pub read : S → ℕ → Bool × List ℕ × S

-- struct pb_istream_s; `S` is what `state` points to.
pub record Istream (S : Type 0) : Type 0 where
  pub callback : Source S
  pub state : S
  pub bytes_left : ℕ
  pub errmsg : Option Message

-- The state of a buffer stream is what follows the read position.
unfoldable pub buf_read : List ℕ → ℕ → Bool × List ℕ × List ℕ
buf_read source count = (true, take count source, drop count source)

unfoldable pub pb_istream_from_buffer : List ℕ → ℕ → Istream (List ℕ)
pb_istream_from_buffer buf bufsize = record {
  callback = record { is_buf_read = true; read = buf_read };
  state = buf;
  bytes_left = bufsize;
  errmsg = none;
}

-- What a C function of the decoder does: return true, with what it stored through its pointers,
-- or return false. `stuck` is neither: a loop of the model ran out of fuel, or C leaves open what
-- happens (a NULL function is called, a size is divided by zero).
pub data Outcome {ℓ} (A : Type ℓ) : Type ℓ where
  got : A → Outcome A
  failed : Outcome A
  stuck : Outcome A

abbrev pub Decoder : Type 0 → Type 0 → Type 0
Decoder S A = Istream S → Outcome A × Istream S

abbrev pub and_then :
    {S A B : Type 0} → Outcome A × Istream S → (A → Decoder S B) → Outcome B × Istream S
and_then (got a, s) k = k a s
and_then (failed, s) k = (failed, s)
and_then (stuck, s) k = (stuck, s)

-- `if (!m(stream, &a)) return false; …`
infixl 5 ◌>>=◌ ◌>>◌
abbrev pub ◌>>=◌ : {S A B : Type 0} → Decoder S A → (A → Decoder S B) → Decoder S B
m >>= k = λ s. and_then (m s) k

abbrev pub ◌>>◌ : {S A B : Type 0} → Decoder S A → Decoder S B → Decoder S B
m >> k = m >>= λ _. k

abbrev pub pure : {S A : Type 0} → A → Decoder S A
pure a s = (got a, s)

-- PB_RETURN_ERROR
abbrev pub return_error : {S A : Type 0} → Message → Decoder S A
return_error m s = (failed, record s { errmsg = set_error s.errmsg m })

abbrev pub out_of_fuel : {S A : Type 0} → Decoder S A
out_of_fuel s = (stuck, s)

-- The byte that a read of one stored.
unfoldable pub first_byte : List ℕ → ℕ
first_byte [] = 0
first_byte (b ∷ bs) = b % 256

module _ {S : Type 0} where
  -- The callback, its check, and the count of what is left.
  unfoldable pub call_source : ℕ → Decoder S (List ℕ)
  call_source count s =
      let (read, bytes, state') = (s.callback).read s.state count in
      let s' = record s { state = state' } in
      if read
      then (got bytes, record s' { bytes_left = s.bytes_left - count })
      else return_error io_error s'

  -- pb_read with a buffer.
  unfoldable pub read_bytes : ℕ → Decoder S (List ℕ)
  read_bytes count s =
      if ltb s.bytes_left count then return_error end_of_stream s else call_source count s

  -- `while (count > 16) { pb_read(stream, tmp, 16); count -= 16; } return pb_read(stream, tmp, count);`
  unfoldable pub skip_loop : ℕ → ℕ → Decoder S (List ℕ)
  skip_loop zero count = if ltb 16 count then out_of_fuel else read_bytes count
  skip_loop (suc fuel) count =
      let rest = read_bytes 16 >> skip_loop fuel (count - 16) in
      if ltb 16 count then rest else read_bytes count

  -- pb_read without a buffer: other sources than buf_read are read in pieces.
  unfoldable pub skip_bytes : ℕ → Decoder S (List ℕ)
  skip_bytes count s =
      if not (s.callback).is_buf_read then skip_loop count count s else read_bytes count s

  -- pb_read; `null` says that `buf` is NULL.
  unfoldable pub pb_read : Bool → ℕ → Decoder S (List ℕ)
  pb_read null count = if null then skip_bytes count else read_bytes count

  unfoldable pub pb_readbyte : Decoder S ℕ
  pb_readbyte s =
      if s.bytes_left == 0
      then return_error end_of_stream s
      else and_then (call_source 1 s) (λ bytes. pure (first_byte bytes))
