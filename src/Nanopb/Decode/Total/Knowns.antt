-- ===== src/Nanopb/Decode/Total/Knowns.antt =====
-- MovieDBApp/Pods/nanopb/pb_decode.c: the end of decode_known, and the iterator after it.
use prj_movie_dbapp.Prelude.{
  ℕ, ◌≡◌, ◌<◌, refl, ap, ◌∙◌, Bool, true, false, ◌&&◌, some, List, leb, ◌==◌, if◌then◌else◌,
}
use prj_movie_dbapp.Nanopb.Field.Ltype
use prj_movie_dbapp.Nanopb.Field.Htype
use prj_movie_dbapp.Nanopb.Field.Atype
use prj_movie_dbapp.Nanopb.Field.{
  Field, pb_ltype, pb_htype, pb_atype, invalid_field_type, wrong_size_for_fixed_count_field,
}
use prj_movie_dbapp.Nanopb.Iter.{Iter, field_of}
use prj_movie_dbapp.Nanopb.Decode.Scalar.{FieldDecoder, store_word}
use prj_movie_dbapp.Nanopb.Decode.Action.{Env, pure, modify, ◌>>=◌, ◌>>◌}
use prj_movie_dbapp.Nanopb.Decode.Release.{pb_release_union_field}
use prj_movie_dbapp.Nanopb.Decode.Required.{mark_seen}
use prj_movie_dbapp.Nanopb.Decode.Extension.{decode_by_atype, decode_field}
use prj_movie_dbapp.Nanopb.Decode.Message.{
  Locals, count_is_wrong, is_position, note_required, track_fixed_count, decode_known,
}
use prj_movie_dbapp.Nanopb.Decode.Total.{Settles, Yields}
use prj_movie_dbapp.Nanopb.Decode.Total.Rules.{
  Settles-pure, Settles-return_error, Settles-if, Settles-test, Settles-modify, Yields-pure,
  Yields-return_error, Yields-any, Yields-test,
}
use prj_movie_dbapp.Nanopb.Decode.Total.Binds.{Settles->>=, Settles-then, Yields->>=}
use prj_movie_dbapp.Nanopb.Decode.Total.Shrinks.{Shrinks}
use prj_movie_dbapp.Nanopb.Decode.Total.Updates.{
  Acyclic, Good, field-Good, Total-pb_message_set_to_defaults,
}
use prj_movie_dbapp.Nanopb.Decode.Total.Releases.{
  Total-pb_release_single_field, Settles-pb_release_union_field, Yields-pb_release_union_field,
}
use prj_movie_dbapp.Nanopb.Decode.Total.Items.{Settles-decode_static_field}
use prj_movie_dbapp.Nanopb.Decode.Total.Pointers.{Settles-decode_pointer_field}

-- PB_DECODERS, for the fields of the message `a`.
pub record Decodes (rank : ℕ → ℕ) (a : ℕ) (decoders : ℕ → FieldDecoder (List ℕ)) : Type 0 where
  pub ends :
      (field : Field) (dest : ℕ)
      → Good rank a field
      → Settles (decoders (pb_ltype field.type) field dest)
  pub shrinks :
      (field : Field) (dest : ℕ)
      → leb (pb_ltype field.type) Ltype.last_packable ≡ true
      → Shrinks (decoders (pb_ltype field.type) field dest)

-- The iterator is in the descriptors of the message `a`.
abbrev pub IsAt : Env → ℕ → Iter → Type 0
IsAt env a it = it.start ≡ env.descriptors a

abbrev pub AreAt : Env → ℕ → Locals → Type 0
AreAt env a l = IsAt env a (l.iter)

module _ (env : Env) (rank : ℕ → ℕ) (acyclic : Acyclic env.descriptors rank)
    (bounded : (a : ℕ) → rank a < env.bound) (a : ℕ) (decoders : ℕ → FieldDecoder (List ℕ))
    (decodes : Decodes rank a decoders) where
  Settles-decode_by_atype :
      (wire_type : ℕ) (it : Iter)
      → IsAt env a it
      → Settles (decode_by_atype env decoders wire_type it)
  unfolding decode_by_atype
  Settles-decode_by_atype wire_type it e =
      let g = field-Good env.descriptors rank acyclic it a e in
      let type = (field_of it).type in
      let defaults = λ (p : ℕ).
        Total-pb_message_set_to_defaults env.descriptors rank acyclic env.bound (field_of it).ptr p
          (bounded (field_of it).ptr) in
      Settles-if (pb_atype type == Atype.static)
        (λ static.
          Settles-decode_static_field decoders _ wire_type it
            (λ item. decodes.ends (field_of it) item g)
            (λ small item. decodes.shrinks (field_of it) item small) λ sub p. defaults p)
        λ n.
          Settles-if (pb_atype type == Atype.pointer)
            (λ pointer.
              Settles-decode_pointer_field env.realloc _ _ _ it
                (λ item. decodes.ends (field_of it) item g) (λ sub p. defaults p)
                (Total-pb_release_single_field env rank acyclic bounded it a e) (g.has_size pointer)
                wire_type λ small item. decodes.shrinks (field_of it) item small)
            λ o.
              Settles-if (pb_atype type == Atype.callback) (λ callback. absurd (cc))
                λ r. Settles-return_error invalid_field_type

  module _ (wire_type : ℕ) (it : Iter) (e : IsAt env a it) where
    Yields-release :
        (c : Bool) → Yields (IsAt env a) (if c then pb_release_union_field env it else pure it)
    Yields-release true = Yields-pb_release_union_field env rank acyclic bounded it a e
    Yields-release false = Yields-pure it e

    Settles-decode_field : Settles (decode_field env decoders wire_type it)
    unfolding decode_field
    Settles-decode_field =
        Settles-then {P = IsAt env a}
          (Settles-if (pb_htype (field_of it).type == Htype.oneof)
            (λ oneof. Settles-pb_release_union_field env rank acyclic bounded it a e)
            λ n. Settles-pure it)
          (Yields-release (pb_htype (field_of it).type == Htype.oneof))
          λ it' e'. Settles->>= (Settles-decode_by_atype wire_type it' e') λ u. Settles-pure it'

    Yields-decode_field : Yields (IsAt env a) (decode_field env decoders wire_type it)
    unfolding decode_field
    Yields-decode_field =
        Yields->>= {P = IsAt env a}
          {f = if pb_htype (field_of it).type == Htype.oneof
            then pb_release_union_field env it
            else pure it}
          {k = λ it'. decode_by_atype env decoders wire_type it' >> pure it'}
          (Yields-release (pb_htype (field_of it).type == Htype.oneof))
          λ it' e'.
            Yields->>= {P = λ u. Unit} {f = decode_by_atype env decoders wire_type it'}
              {k = λ u. pure it'} (Yields-any _) λ u p. Yields-pure it' e'

  module _ (fixed_count_size : ℕ) (l : Locals) where
    Settles-track_fixed_count : Settles (track_fixed_count env decoders fixed_count_size l)
    unfolding track_fixed_count
    Settles-track_fixed_count =
        let l' : Locals = record l { iter = record (l.iter) { p_size = fixed_count_size } } in
        let started : Locals = record l' { fixed_count_field = some (l.iter).pos } in
        Settles-test
          (λ m s.
            pb_htype (field_of l.iter).type == Htype.repeated && (l.iter).p_size == (l.iter).p_data)
          (Settles-test (λ m s. is_position l.fixed_count_field (l.iter).pos) (Settles-pure _)
            (Settles-test (λ m s. count_is_wrong fixed_count_size l m)
              (Settles-return_error wrong_size_for_fixed_count_field)
              (Settles->>= (Settles-modify λ m. store_word m fixed_count_size 4 0)
                λ u. Settles-pure started)))
          (Settles-pure l)

    Yields-track_fixed_count :
        AreAt env a l → Yields (AreAt env a) (track_fixed_count env decoders fixed_count_size l)
    unfolding track_fixed_count
    Yields-track_fixed_count e =
        let l' : Locals = record l { iter = record (l.iter) { p_size = fixed_count_size } } in
        let started : Locals = record l' { fixed_count_field = some (l.iter).pos } in
        Yields-test
          (λ m s.
            pb_htype (field_of l.iter).type == Htype.repeated && (l.iter).p_size == (l.iter).p_data)
          (Yields-test (λ m s. is_position l.fixed_count_field (l.iter).pos) (Yields-pure l' e)
            (Yields-test (λ m s. count_is_wrong fixed_count_size l m)
              (Yields-return_error wrong_size_for_fixed_count_field)
              (Yields->>= {P = λ u. Unit} {f = modify λ m. store_word m fixed_count_size 4 0}
                {k = λ u. pure started} (Yields-any _) λ u p. Yields-pure started e)))
          (Yields-pure l e)

  note_required-iter : (l : Locals) → (note_required l).iter ≡ l.iter
  unfolding note_required
  note_required-iter l = same (pb_htype (field_of l.iter).type == Htype.required)
    where
      same :
          (c : Bool)
          → (if c
              then record l { fields_seen = mark_seen (l.iter).required_field_index l.fields_seen }
              else l).iter
            ≡ l.iter
      same true = refl
      same false = refl

  module _ (fixed_count_size wire_type : ℕ) (l : Locals) (e : AreAt env a l) where
    pub Settles-decode_known : Settles (decode_known env decoders fixed_count_size wire_type l)
    unfolding decode_known
    Settles-decode_known =
        Settles-then {P = AreAt env a} (Settles-track_fixed_count fixed_count_size l)
          (Yields-track_fixed_count fixed_count_size l e)
          λ l' e'.
            Settles->>=
              (Settles-decode_field wire_type (note_required l').iter
                (ap (λ it. it.start) (note_required-iter l') ∙ e'))
              λ it. Settles-pure _

    pub Yields-decode_known :
        Yields (AreAt env a) (decode_known env decoders fixed_count_size wire_type l)
    unfolding decode_known
    Yields-decode_known =
        Yields->>= {P = AreAt env a} {f = track_fixed_count env decoders fixed_count_size l}
          {k = λ l'. decode_field env decoders wire_type (note_required l').iter >>= λ it.
            pure (record (note_required l') { iter = it })}
          (Yields-track_fixed_count fixed_count_size l e)
          λ l' e'.
            Yields->>= {P = IsAt env a}
              {f = decode_field env decoders wire_type (note_required l').iter}
              {k = λ it. pure (record (note_required l') { iter = it })}
              (Yields-decode_field wire_type (note_required l').iter
                (ap (λ it. it.start) (note_required-iter l') ∙ e'))
              λ it e''. Yields-pure _ e''
