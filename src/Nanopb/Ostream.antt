-- ===== src/Nanopb/Ostream.antt =====
-- MovieDBApp/Pods/nanopb/pb_encode.c: output streams and pb_write, and the monad of the encoder.
use prj_movie_dbapp.Prelude.{
  ℕ, zero, suc, ◌+◌, ◌%◌, ◌^◌, Bool, true, Option, none, some, List, [], ◌∷◌, ltb, if◌then◌else◌,
  set,
}
use prj_movie_dbapp.Nanopb.Field.{Message, stream_full, io_error, set_error}

-- size_t addition wraps.
abbrev pub add_size : ℕ → ℕ → ℕ
add_size a b = (a + b) % 2 ^ 64

-- A sink takes `count` bytes of `buf` and returns its state and whether it took them.
abbrev pub Sink : Type 0 → Type 0
Sink S = S → List ℕ → ℕ → Bool × S

-- struct pb_ostream_s; `S` is what `state` points to, and a NULL callback marks a sizing stream.
pub record Ostream (S : Type 0) : Type 0 where
  pub callback : Option (Sink S)
  pub state : S
  pub max_size : ℕ
  pub bytes_written : ℕ
  pub errmsg : Option Message

-- PB_OSTREAM_SIZING; a sizing stream never uses its state.
abbrev pub sizing : {S : Type 0} → S → Ostream S
sizing s = record { callback = none; state = s; max_size = 0; bytes_written = 0; errmsg = none }

-- The target of pb_ostream_from_buffer: the cells of the buffer, and the next one to write.
pub record Buffer : Type 0 where
  pub cells : List ℕ
  pub next : ℕ

-- `for (i = 0; i < count; i++) dest[i] = buf[i];`
unfoldable pub copy_bytes : ℕ → List ℕ → ℕ → List ℕ → List ℕ
copy_bytes zero buf next cells = cells
copy_bytes (suc count) [] next cells = cells
copy_bytes (suc count) (b ∷ buf) next cells = copy_bytes count buf (next + 1) (set cells next b)

unfoldable pub buf_write : Sink Buffer
unfolding copy_bytes
buf_write dest buf count =
    (true, record { cells = copy_bytes count buf dest.next dest.cells; next = dest.next + count })

unfoldable pub pb_ostream_from_buffer : List ℕ → ℕ → Ostream Buffer
pb_ostream_from_buffer buf bufsize = record {
  callback = some buf_write;
  state = record { cells = buf; next = 0 };
  max_size = bufsize;
  bytes_written = 0;
  errmsg = none;
}

-- What a C function of the encoder does: return true, return false, or call a null function
-- pointer. `stuck` is none of these: the model's bound on nesting was too small.
pub data Status : Type 0 where
  ok failed crashed stuck : Status

abbrev pub Encoder : Type 0 → Type 0
Encoder S = Ostream S → Status × Ostream S

abbrev pub and_then : {S : Type 0} → Status × Ostream S → Encoder S → Status × Ostream S
and_then (ok, s) k = k s
and_then (failed, s) k = (failed, s)
and_then (crashed, s) k = (crashed, s)
and_then (stuck, s) k = (stuck, s)

-- `if (!m(stream)) return false; return k(stream);`
infixl 5 ◌>>◌
abbrev pub ◌>>◌ : {S : Type 0} → Encoder S → Encoder S → Encoder S
m >> k = λ s. and_then (m s) k

-- `return true`
abbrev pub done : {S : Type 0} → Encoder S
done s = (ok, s)

-- PB_RETURN_ERROR
abbrev pub return_error : {S : Type 0} → Message → Encoder S
return_error m s = (failed, record s { errmsg = set_error s.errmsg m })

-- `stream->bytes_written += count; return true;`
abbrev pub count_bytes : {S : Type 0} → ℕ → Encoder S
count_bytes count s = (ok, record s { bytes_written = add_size s.bytes_written count })

-- The call of the stream's callback with its check.
unfoldable pub call_sink : {S : Type 0} → Sink S → List ℕ → ℕ → Encoder S
call_sink f buf count s =
    let (taken, state') = f s.state buf count in
    let s' = record s { state = state' } in if taken then done s' else return_error io_error s'

unfoldable pub pb_write : {S : Type 0} → List ℕ → ℕ → Encoder S
unfolding call_sink
pb_write buf count s = elim (s.callback) [
  | none ↦ count_bytes count s
  | some f ↦
      if ltb s.max_size (add_size s.bytes_written count)
      then return_error stream_full s
      else and_then (call_sink f buf count s) (count_bytes count)
]
