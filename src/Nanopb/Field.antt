-- ===== src/Nanopb/Field.antt =====
-- MovieDBApp/Pods/nanopb/pb.h: field types, field descriptors and error messages, as they are
-- compiled here (PB_FIELD_32BIT, PB_ENABLE_MALLOC, 64-bit integers), and memory as bytes.
pub mod Ltype
pub mod Htype
pub mod Atype
pub mod WireType
use prj_movie_dbapp.Prelude.{
  ℕ, zero, suc, ◌+◌, ◌-◌, ◌*◌, ◌%◌, ◌^◌, Bool, Option, none, some, List, [], ◌∷◌, bit_and, ltb,
  if◌then◌else◌,
}

-- The messages that PB_RETURN_ERROR stores.
pub data Message : Type 0 where
  stream_full io_error array_max_size_exceeded missing_required_field : Message
  invalid_field_type callback_error submsg_size_changed invalid_data_size : Message
  bytes_size_exceeded invalid_field_descriptor end_of_stream varint_overflow : Message
  invalid_wire_type parent_stream_too_short array_overflow integer_too_large : Message
  bytes_overflow string_overflow size_too_large incorrect_fixed_length_bytes_size : Message
  invalid_size realloc_failed too_many_array_entries callback_failed : Message
  wrong_size_for_fixed_count_field invalid_union_tag iterator_error : Message

-- PB_SET_ERROR: the first message stays.
abbrev pub set_error : Option Message → Message → Option Message
set_error none m = some m
set_error (some e) m = some e

-- PB_ATYPE, PB_HTYPE and PB_LTYPE.
abbrev pub pb_atype : ℕ → ℕ
pb_atype x = bit_and x 0xc0

abbrev pub pb_htype : ℕ → ℕ
pb_htype x = bit_and x 0x30

abbrev pub pb_ltype : ℕ → ℕ
pb_ltype x = bit_and x 0x0f

-- sizeof of a pointer on the 64-bit targets.
abbrev pub pointer_size : ℕ
pointer_size = 8

-- PB_SIZE_MAX, the largest pb_size_t.
abbrev pub pb_size_max : ℕ
pb_size_max = 2 ^ 32 - 1

abbrev pub size_max : ℕ
size_max = 2 ^ 64 - 1

-- pb_ssize_t: an offset forwards or backwards (`back n` is -(n + 1)).
pub data Offset : Type 0 where
  forth back : ℕ → Offset

-- `p + offset` on an address.
abbrev pub displace : ℕ → Offset → ℕ
displace p (forth n) = p + n
displace p (back n) = p - suc n

-- `if (field->size_offset)`
abbrev pub is_nonzero : Offset → Bool
is_nonzero (forth n) = ltb 0 n
is_nonzero (back n) = Bool.true

-- struct pb_field_s; `ptr` is an address, 0 for NULL.
pub record Field : Type 0 where
  pub tag : ℕ
  pub type : ℕ
  pub data_offset : ℕ
  pub size_offset : Offset
  pub data_size : ℕ
  pub array_size : ℕ
  pub ptr : ℕ

-- PB_LAST_FIELD, which ends every array of descriptors.
abbrev pub last_field : Field
last_field = record {
  tag = 0;
  type = 0;
  data_offset = 0;
  size_offset = forth 0;
  data_size = 0;
  array_size = 0;
  ptr = 0;
}

-- Memory is a byte for every address.
abbrev pub Memory : Type 0
Memory = ℕ → ℕ

abbrev pub load_byte : Memory → ℕ → ℕ
load_byte m a = m a % 256

-- The n bytes from address `a` on.
unfoldable pub load_bytes : Memory → ℕ → ℕ → List ℕ
load_bytes m a zero = []
load_bytes m a (suc n) = load_byte m a ∷ load_bytes m (a + 1) n

-- An unsigned little-endian word of n bytes.
unfoldable pub load_word : Memory → ℕ → ℕ → ℕ
load_word m a zero = 0
load_word m a (suc n) = load_byte m a + 256 * load_word m (a + 1) n

-- A word of w bits read as a signed number and widened to int64_t, as the 64-bit pattern.
abbrev pub sign_extend : ℕ → ℕ → ℕ
sign_extend w x = if ltb x (2 ^ (w - 1)) then x else x + (2 ^ 64 - 2 ^ w)
