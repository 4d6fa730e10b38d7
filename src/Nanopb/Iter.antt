-- ===== src/Nanopb/Iter.antt =====
-- MovieDBApp/Pods/nanopb/pb_common.c: the iterator over the fields of a message.
pub mod Find
pub mod Found
pub mod Counted
mod Runs
use prj_movie_dbapp.Prelude.{
  ℕ, zero, suc, ◌+◌, ◌*◌, Bool, true, false, not, ◌&&◌, List, ◌==◌, if◌then◌else◌, get_or, length,
}
use prj_movie_dbapp.Nanopb.Field.Ltype
use prj_movie_dbapp.Nanopb.Field.Htype
use prj_movie_dbapp.Nanopb.Field.Atype
use prj_movie_dbapp.Nanopb.Field.{
  pb_atype, pb_htype, pb_ltype, pointer_size, pb_size_max, displace, Field, last_field,
}

-- struct pb_field_iter_s; `pos` is the index of `iter->pos` in the array `start`.
pub record Iter : Type 0 where
  pub start : List Field
  pub pos : ℕ
  pub required_field_index : ℕ
  pub dest_struct : ℕ
  pub p_data : ℕ
  pub p_size : ℕ

-- `fields[i]`: what a list leaves out is the terminator.
abbrev pub field_at : List Field → ℕ → Field
field_at fields i = get_or fields i last_field

-- `*iter->pos`
abbrev pub field_of : Iter → Field
field_of it = field_at it.start it.pos

unfoldable pub pb_field_iter_begin : List Field → ℕ → Bool × Iter
pb_field_iter_begin fields dest_struct =
    let first = field_at fields 0 in
    let p_data = dest_struct + first.data_offset in
    (
      not (first.tag == 0),
      record {
        start = fields;
        pos = 0;
        required_field_index = 0;
        dest_struct = dest_struct;
        p_data = p_data;
        p_size = displace p_data first.size_offset;
      },
    )

-- The size of the previous field in the structure.
unfoldable pub prev_size : Field → ℕ
prev_size f =
    if pb_atype f.type == Atype.static && pb_htype f.type == Htype.repeated
    then f.data_size * f.array_size
    else if pb_atype f.type == Atype.pointer
    then pointer_size
    else f.data_size

-- Inside a union the pointers stay where they are.
unfoldable pub in_union : Field → Field → Bool
in_union prev cur =
    (pb_htype prev.type == Htype.oneof && pb_htype cur.type == Htype.oneof)
    && cur.data_offset == pb_size_max

-- Move to the field at index `i`, whose descriptor is `cur`.
unfoldable pub iter_advance : Iter → Field → ℕ → Field → Iter
unfolding prev_size
iter_advance it prev i cur =
    let p_data = it.p_data + prev_size prev + cur.data_offset in
    record it {
      pos = i;
      required_field_index =
          if pb_htype prev.type == Htype.required
          then it.required_field_index + 1
          else it.required_field_index;
      p_data = p_data;
      p_size = displace p_data cur.size_offset;
    }

unfoldable pub pb_field_iter_next : Iter → Bool × Iter
unfolding pb_field_iter_begin in_union iter_advance
pb_field_iter_next it =
    let prev = field_of it in
    let i = it.pos + 1 in
    let cur = field_at it.start i in
    if prev.tag == 0
    then (false, it)
    else if cur.tag == 0
    then (false, (pb_field_iter_begin it.start it.dest_struct).1)
    else if in_union prev cur
    then (true, record it { pos = i })
    else (true, iter_advance it prev i cur)

-- `iter->pos->tag == tag && PB_LTYPE(iter->pos->type) != PB_LTYPE_EXTENSION`
unfoldable pub has_tag : Field → ℕ → Bool
has_tag f tag = f.tag == tag && not (pb_ltype f.type == Ltype.extension)

-- The search loop from the field where it began; the outcome is false if it came round.
-- On fuel: `false` too if that runs out.
unfoldable pub find_loop : ℕ → ℕ → ℕ → Iter → Bool × Iter
unfolding has_tag
find_loop zero start tag it = (false, it)
find_loop (suc fuel) start tag it =
    let it' = (pb_field_iter_next it).1 in
    let rest = find_loop fuel start tag it' in
    if has_tag (field_of it) tag
    then (true, it)
    else if it'.pos == start
    then (false, it')
    else rest

-- The array has length start + 1 entries with its terminator.
unfoldable pub pb_field_iter_find : Iter → ℕ → Bool × Iter
unfolding find_loop
pb_field_iter_find it tag = find_loop (length it.start + 1) it.pos tag it
