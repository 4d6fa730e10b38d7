-- ===== src/Nanopb/Encode/Emits.antt =====
-- When an encoder does the same on every stream: it appends fixed bytes, or it always refuses.
-- The rules for the encoder's building blocks.
use prj_movie_dbapp.Prelude.{
  ℕ, ◌+◌, ◌^◌, ◌≤◌, ◌<◌, ◌≡◌, ◌≢◌, refl, sym, ap, ◌∙◌, Bool, true, false, Option, none, some, List,
  [], ◌∷◌, ◌++◌, arith, if◌then◌else◌, length, length-append, set, dec_lt,
}
use prj_movie_dbapp.Nanopb.Field.{Message}
use prj_movie_dbapp.Nanopb.Ostream.{
  Ostream, Encoder, Status, ok, failed, crashed, stuck, Buffer, add_size, copy_bytes, buf_write,
  ◌>>◌, and_then, done, return_error, pb_write, call_sink,
}

-- A sizing stream, and a stream into a buffer.
abbrev pub sizer : Buffer → ℕ → ℕ → Option Message → Ostream Buffer
sizer st max bw err = record {
  callback = none;
  state = st;
  max_size = max;
  bytes_written = bw;
  errmsg = err;
}

abbrev pub writer : Buffer → ℕ → ℕ → Ostream Buffer
writer st max bw = record {
  callback = some buf_write;
  state = st;
  max_size = max;
  bytes_written = bw;
  errmsg = none;
}

-- The buffer after `bs` was written to it.
unfoldable pub put : Buffer → List ℕ → Buffer
unfolding copy_bytes
put st bs = record {
  cells = copy_bytes (length bs) bs st.next st.cells;
  next = st.next + length bs;
}

copy_bytes-append :
    (xs ys : List ℕ) (next : ℕ) (cells : List ℕ)
    → copy_bytes (length (xs ++ ys)) (xs ++ ys) next cells
      ≡ copy_bytes (length ys) ys (next + length xs) (copy_bytes (length xs) xs next cells)
unfolding copy_bytes
copy_bytes-append [] ys next cells = ap (λ n. copy_bytes (length ys) ys n cells) (omega arith)
copy_bytes-append (x ∷ xs) ys next cells =
    copy_bytes-append xs ys (next + 1) (set cells next x)
    ∙ ap
        (λ n. copy_bytes (length ys) ys n (copy_bytes (length xs) xs (next + 1) (set cells next x)))
        (omega arith)

next-append : (next : ℕ) (xs ys : List ℕ) → next + length (xs ++ ys) ≡ next + length xs + length ys
next-append next xs ys = omega (arith, length-append xs ys)

pub put-append : (st : Buffer) (xs ys : List ℕ) → put st (xs ++ ys) ≡ put (put st xs) ys
unfolding put
put-append st xs ys = λ i. record {
  cells = copy_bytes-append xs ys st.next st.cells i;
  next = next-append st.next xs ys i;
}

-- The encoder appends `bs`: counted on a sizing stream, written to a buffer with room, and refused
-- by a buffer without. What it appends where it succeeds is `bs` at every length: size_t may wrap.
pub record Emits (m : Encoder Buffer) (bs : List ℕ) : Type 0 where
  pub sizes :
      (st : Buffer) (max bw : ℕ) (err : Option Message)
      → bw < 2 ^ 64
      → m (sizer st max bw err) ≡ (ok, sizer st max (add_size bw (length bs)) err)
  pub writes :
      (st : Buffer) (max bw : ℕ)
      → bw + length bs ≤ max
      → max < 2 ^ 64
      → m (writer st max bw) ≡ (ok, writer (put st bs) max (bw + length bs))
  pub overflows :
      (st : Buffer) (max bw : ℕ)
      → bw ≤ max
      → max < bw + length bs
      → bw + length bs < 2 ^ 64
      → (m (writer st max bw)).0 ≡ failed
  pub exact :
      (st : Buffer) (max bw : ℕ)
      → bw < 2 ^ 64
      → (m (writer st max bw)).0 ≡ ok
      → m (writer st max bw) ≡ (ok, writer (put st bs) max (add_size bw (length bs)))

-- The encoder never succeeds.
pub record Refuses (m : Encoder Buffer) : Type 0 where
  pub unsized :
      (st : Buffer) (max bw : ℕ) (err : Option Message)
      → bw < 2 ^ 64
      → (m (sizer st max bw err)).0 ≢ ok
  pub unwritten : (st : Buffer) (max bw : ℕ) → bw < 2 ^ 64 → (m (writer st max bw)).0 ≢ ok

pub data Uniform (m : Encoder Buffer) : Type 0 where
  emits : (bs : List ℕ) → Emits m bs → Uniform m
  refuses : Refuses m → Uniform m

pub Emits-pb_write : (bs : List ℕ) → Emits (pb_write bs (length bs)) bs
unfolding pb_write call_sink buf_write put
Emits-pb_write bs = record {
  sizes = λ st max bw err hb. refl;
  writes = λ st max bw h hm. ground arith;
  overflows = λ st max bw h o hm. ground arith;
  exact = λ st max bw hb h. ground arith;
}

pub Emits-done : Emits done []
unfolding put copy_bytes
Emits-done = record {
  sizes = λ st max bw err hb. ground arith;
  writes = λ st max bw h hm. ground arith;
  overflows = λ st max bw h o hm. absurd (omega arith);
  exact = λ st max bw hb h. ground arith;
}

add_size-append :
    (bw : ℕ) (xs ys : List ℕ)
    → add_size (add_size bw (length xs)) (length ys) ≡ add_size bw (length (xs ++ ys))
add_size-append bw xs ys = omega (arith, length-append xs ys)

module _ {S : Type 0} where
  -- A failure stays one.
  pub and_then-failed :
      (r : Status × Ostream S) (k : Encoder S) → r.0 ≡ failed → (and_then r k).0 ≡ failed
  and_then-failed (ok, s) k h = cc
  and_then-failed (failed, s) k h = refl
  and_then-failed (crashed, s) k h = cc
  and_then-failed (stuck, s) k h = cc

  pub and_then-ok : (r : Status × Ostream S) (k : Encoder S) → (and_then r k).0 ≡ ok → r.0 ≡ ok
  and_then-ok (ok, s) k h = refl
  and_then-ok (failed, s) k h = cc
  and_then-ok (crashed, s) k h = cc
  and_then-ok (stuck, s) k h = cc

  pub and_then-ne-ok : (r : Status × Ostream S) (k : Encoder S) → r.0 ≢ ok → (and_then r k).0 ≢ ok
  and_then-ne-ok (ok, s) k h = absurd (h refl)
  and_then-ne-ok (failed, s) k h = h
  and_then-ne-ok (crashed, s) k h = h
  and_then-ne-ok (stuck, s) k h = h

pub Emits->> :
    {m k : Encoder Buffer} (xs ys : List ℕ) → Emits m xs → Emits k ys → Emits (m >> k) (xs ++ ys)
Emits->> {m} {k} xs ys a b = record {
  sizes = λ st max bw err hb. rw (
    a.sizes st max bw err hb,
    b.sizes st max (add_size bw (length xs)) err (omega arith),
    add_size-append bw xs ys,
  );
  writes = λ st max bw h hm. rw (
    a.writes st max bw (omega (arith, length-append xs ys)) hm,
    b.writes (put st xs) max (bw + length xs) (omega (arith, length-append xs ys)) hm,
    put-append st xs ys,
    next-append bw xs ys,
  );
  overflows = λ st max bw h o hm. elim (dec_lt max (bw + length xs)) [
    | yes p ↦
        and_then-failed (m (writer st max bw)) k
          (a.overflows st max bw h p (omega (arith, length-append xs ys)))
    | no p ↦ rw (a.writes st max bw (omega arith) (omega (arith, length-append xs ys))) (
        b.overflows (put st xs) max (bw + length xs) (omega arith)
          (omega (arith, length-append xs ys)) (omega (arith, length-append xs ys)))
  ];
  exact = λ st max bw hb h.
      let first = a.exact st max bw hb (and_then-ok (m (writer st max bw)) k h) in
      rw (
        first,
        b.exact (put st xs) max (add_size bw (length xs)) (omega arith)
            (sym (ap (λ r. (and_then r k).0) first) ∙ h),
        put-append st xs ys,
        add_size-append bw xs ys,
      );
}

Refuses->> :
    {m : Encoder Buffer} (k : Encoder Buffer) (xs : List ℕ)
    → Emits m xs
    → Refuses k
    → Refuses (m >> k)
Refuses->> {m} k xs a r = record {
  unsized = λ st max bw err hb.
      rw (a.sizes st max bw err hb) (r.unsized st max (add_size bw (length xs)) err (omega arith));
  unwritten = λ st max bw hb h.
      let first = a.exact st max bw hb (and_then-ok (m (writer st max bw)) k h) in
      r.unwritten (put st xs) max (add_size bw (length xs)) (omega arith)
        (sym (ap (λ r. (and_then r k).0) first) ∙ h);
}

-- An encoder that never succeeds on any stream at all.
pub Uniform-never : {m : Encoder Buffer} → ((s : Ostream Buffer) → (m s).0 ≢ ok) → Uniform m
Uniform-never h = refuses (record {
  unsized = λ st max bw err hb. h (sizer st max bw err);
  unwritten = λ st max bw hb. h (writer st max bw);
})

pub Uniform->> : {m k : Encoder Buffer} → Uniform m → Uniform k → Uniform (m >> k)
Uniform->> (emits xs a) (emits ys b) = emits (xs ++ ys) (Emits->> xs ys a b)
Uniform->> {k = k} (emits xs a) (refuses r) = refuses (Refuses->> k xs a r)
Uniform->> {m} {k} (refuses r) u = refuses (record {
  unsized =
      λ st max bw err hb. and_then-ne-ok (m (sizer st max bw err)) k (r.unsized st max bw err hb);
  unwritten = λ st max bw hb. and_then-ne-ok (m (writer st max bw)) k (r.unwritten st max bw hb);
})

pub Uniform-if :
    (b : Bool) {m k : Encoder Buffer} → Uniform m → Uniform k → Uniform (if b then m else k)
Uniform-if true u v = u
Uniform-if false u v = v

pub Uniform-option {ℓ} :
    {A : Type ℓ} (o : Option A) {m : Encoder Buffer} {k : A → Encoder Buffer}
    → Uniform m
    → ((a : A) → Uniform (k a))
    → Uniform (elim o [ none ↦ m | some a ↦ k a ])
Uniform-option none u v = u
Uniform-option (some a) u v = v a

pub Uniform-pb_write : (bs : List ℕ) → Uniform (pb_write bs (length bs))
Uniform-pb_write bs = emits bs (Emits-pb_write bs)

pub Uniform-done : Uniform done
Uniform-done = emits [] Emits-done

pub Uniform-return_error : (e : Message) → Uniform (return_error e)
Uniform-return_error e = Uniform-never (λ s. cc)

-- A null function pointer, and the bound on nesting.
pub Uniform-crashed : Uniform (λ s. (crashed, s))
Uniform-crashed = Uniform-never (λ s. cc)

pub Uniform-stuck : Uniform (λ s. (stuck, s))
Uniform-stuck = Uniform-never (λ s. cc)

-- What the blocks of an encoder are made of.
pub ruleset uniform_rules =
    (Uniform->>, Uniform-if, Uniform-done, Uniform-return_error, Uniform-crashed, Uniform-stuck)
