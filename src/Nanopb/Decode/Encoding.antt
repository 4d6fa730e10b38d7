-- ===== src/Nanopb/Decode/Encoding.antt =====
-- What pb_encode_varint writes, in plain arithmetic, and one byte of a varint as the decoder sees it.
use prj_movie_dbapp.Prelude.{
  ℕ, zero, suc, ◌+◌, ◌-◌, ◌*◌, ◌/◌, ◌%◌, ◌^◌, ◌≤◌, ◌<◌, ◌≡◌, ◌≢◌, refl, ap, true, false, none, List,
  [], ◌∷◌, arith, bit_and, bit_or, ltb, if◌then◌else◌, length, dec_lt,
}
use native.Mathlib.Nat.{mod-eq_of_lt}
use prj_movie_dbapp.Prelude.Bits.{bit_and_127, bit_and_128, bit_or_shifted}
use prj_movie_dbapp.Nanopb.Encode.Primitive.{varint_groups, mask_last, varint_buffer}
use prj_movie_dbapp.Nanopb.Istream.{Istream, got, buf_read, call_source, first_byte, pb_readbyte}
use prj_movie_dbapp.Nanopb.Decode.Varint.{continues, or_group}

-- Groups of seven bits, the lowest first, for values below 128 ^ (n + 1).
unfoldable pub encoding : ℕ → ℕ → List ℕ
encoding zero v = v ∷ []
encoding (suc n) v =
    let rest = encoding n (v / 128) in if ltb v 128 then v ∷ [] else (v % 128 + 128) ∷ rest

group_byte : (v : ℕ) → bit_or (bit_and v 0x7f) 0x80 % 2 ^ 8 ≡ v % 128 + 128
group_byte v =
    omega
      (arith, ap (λ k. bit_or k 0x80) (bit_and_127 v), bit_or_shifted 7 (v % 128) 1 (omega arith))

last_byte : (v : ℕ) → v < 128 → bit_and (v % 128 + 128) 0x7f ≡ v
last_byte v h = omega (arith, bit_and_127 (v % 128 + 128))

groups-zero : (n : ℕ) → varint_groups n 0 ≡ []
unfolding varint_groups
groups-zero zero = refl
groups-zero (suc n) = refl

mask_last-groups :
    (n v x : ℕ)
    → v ≢ 0
    → mask_last (x ∷ varint_groups (suc n) v) ≡ x ∷ mask_last (varint_groups (suc n) v)
unfolding mask_last varint_groups
mask_last-groups n v x h = ground arith

groups-suc :
    (n v : ℕ) → v ≢ 0 → varint_groups (suc n) v ≡ (v % 128 + 128) ∷ varint_groups n (v / 128)
unfolding varint_groups
groups-suc n v h = ground (arith, group_byte v)

mask_last-single : (b : ℕ) → mask_last (b ∷ []) ≡ bit_and b 0x7f ∷ []
unfolding mask_last
mask_last-single b = refl

groups-encoding :
    (n v : ℕ) → v ≢ 0 → v < 128 ^ suc n → mask_last (varint_groups (suc n) v) ≡ encoding n v
unfolding encoding
groups-encoding zero v h hv =
    unfold varint_groups mask_last in ground (arith, group_byte v, last_byte v)
groups-encoding (suc n) v h hv = elim (dec_lt v 128) [
  | yes short ↦ ground (
    arith,
    groups-suc (suc n) v h,
    ap (varint_groups (suc n)) (zero_high v short),
    groups-zero (suc n),
    mask_last-single (v % 128 + 128),
    last_byte v short,
  )
  | no long ↦ ground (
    arith,
    groups-suc (suc n) v h,
    mask_last-groups n (v / 128) (v % 128 + 128) (omega arith),
    groups-encoding n (v / 128) (omega arith) (omega arith),
  )
]
  where
    zero_high : (w : ℕ) → w < 128 → w / 128 ≡ 0
    zero_high w lt = omega arith

-- pb_encode_varint writes the groups of a uint64_t.
pub varint_buffer-encoding : (v : ℕ) → v < 2 ^ 64 → varint_buffer v ≡ encoding 9 v
unfolding varint_buffer
varint_buffer-encoding v h = elim (dec_lt v 128) [
  | yes short ↦ unfold encoding in ground arith
  | no long ↦ ground (arith, groups-encoding 9 v (omega arith) (omega arith))
]

pub length-encoding : (n v : ℕ) → (1 ≤ length (encoding n v)) × (length (encoding n v) ≤ n + 1)
unfolding encoding
length-encoding zero v = omega arith
length-encoding (suc n) v = ground (arith, length-encoding n (v / 128))

-- A buffer stream with `left` bytes to read and no error.
abbrev pub reader : List ℕ → ℕ → Istream (List ℕ)
reader input left = record {
  callback = record { is_buf_read = true; read = buf_read };
  state = input;
  bytes_left = left;
  errmsg = none;
}

pub pb_readbyte-reader :
    (b : ℕ) (rest : List ℕ) (left : ℕ)
    → b < 256
    → 0 < left
    → pb_readbyte (reader (b ∷ rest) left) ≡ (got b, reader rest (left - 1))
unfolding pb_readbyte call_source buf_read first_byte
pb_readbyte-reader b rest left hb hl = ground arith

-- The last byte of a varint, and one before it.
pub continues-last : (b : ℕ) → b < 128 → continues b ≡ false
continues-last b h = ground (arith, bit_and_128 b)

pub continues-inner : (g : ℕ) → g < 128 → continues (g + 128) ≡ true
continues-inner g h = ground (arith, bit_and_128 (g + 128))

-- The seven bits of a byte are added above those read before.
pub or_group-add :
    (w result b bitpos : ℕ)
    → result < 2 ^ bitpos
    → b % 128 * 2 ^ bitpos < 2 ^ w
    → or_group w result b bitpos ≡ result + b % 128 * 2 ^ bitpos
or_group-add w result b bitpos hr hb =
    ground (arith, bit_and_127 b, mod-eq_of_lt hb, bit_or_shifted bitpos result (b % 128) hr)
