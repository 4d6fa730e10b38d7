-- ===== src/Nanopb/Decode/Required.antt =====
-- MovieDBApp/Pods/nanopb/pb_decode.c: which required fields pb_decode_noinit saw, in two words of
-- 32 bits.
pub mod Bits
pub mod Marks
pub mod Mask
pub mod Count
use prj_movie_dbapp.Prelude.{
  ℕ, zero, suc, ◌+◌, ◌-◌, ◌/◌, ◌^◌, Bool, true, false, not, ◌&&◌, ◌||◌, Option, none, some, List,
  [], ◌∷◌, bit_and, bit_or, ltb, ◌==◌, if◌then◌else◌, get_or, set, length,
}
use prj_movie_dbapp.Nanopb.Field.Htype
use prj_movie_dbapp.Nanopb.Field.{pb_htype}
use prj_movie_dbapp.Nanopb.Iter.{Iter, field_of, pb_field_iter_next}

-- PB_MAX_REQUIRED_FIELDS
abbrev pub max_required_fields : ℕ
max_required_fields = 64

abbrev pub allbits : ℕ
allbits = 2 ^ 32 - 1

-- `uint32_t fields_seen[(PB_MAX_REQUIRED_FIELDS + 31) / 32] = {0, 0}`
abbrev pub none_seen : List ℕ
none_seen = 0 ∷ 0 ∷ []

-- `fields_seen[index >> 5] |= (uint32_t)1 << (index & 31)`, for the indices below the maximum.
unfoldable pub mark_seen : ℕ → List ℕ → List ℕ
mark_seen index seen =
    let word = index / 2 ^ 5 in
    if ltb index max_required_fields
    then set seen word (bit_or (get_or seen word 0) (2 ^ bit_and index 31))
    else seen

-- `for (i = 0; i < n; i++) if (fields_seen[i] != allbits) …`
unfoldable pub words_full : ℕ → List ℕ → Bool
words_full zero seen = true
words_full (suc n) [] = false
words_full (suc n) (word ∷ words) = word == allbits && words_full n words

-- `if ((count & 31) != 0) if (fields_seen[count >> 5] != (allbits >> (32 - (count & 31)))) …`
unfoldable pub last_word_full : ℕ → List ℕ → Bool
last_word_full count seen =
    let bits = bit_and count 31 in
    bits == 0 || get_or seen (count / 2 ^ 5) 0 == allbits / 2 ^ (32 - bits)

-- Whether all of the required fields of a message with `count` of them were seen.
unfoldable pub required_present : ℕ → List ℕ → Bool
required_present count seen =
    let n = if ltb max_required_fields count then max_required_fields else count in
    words_full (n / 2 ^ 5) seen && last_word_full n seen

-- `do { … } while (pb_field_iter_next(&iter));`: the index of required fields and the type at the
-- last field, and the iterator after it.
unfoldable pub seek_end : ℕ → Iter → Option ((ℕ × ℕ) × Iter)
seek_end zero it = none
seek_end (suc n) it =
    let (more, it') = pb_field_iter_next it in
    let rest = seek_end n it' in
    if more then rest else some ((it.required_field_index, (field_of it).type), it')

-- The number of required fields; the last one counts too.
unfoldable pub req_field_count : (ℕ × ℕ) × Iter → ℕ
req_field_count ((index, last_type), it) =
    if pb_htype last_type == Htype.required && not ((field_of it).tag == 0)
    then index + 1
    else index

-- The check at the end of pb_decode_noinit.
unfoldable pub check_required : Iter → List ℕ → Option Bool
check_required it seen = elim (seek_end (length it.start + 1) it) [
  | none ↦ none
  | some end ↦ some (required_present (req_field_count end) seen)
]
