-- ===== src/Nanopb/Decode/Total/Rounds.antt =====
-- MovieDBApp/Pods/nanopb/pb_decode.c: the end of a round of pb_decode_noinit.
use prj_movie_dbapp.Prelude.{
  ℕ, zero, suc, ◌+◌, ◌-◌, ◌^◌, ◌≤◌, ◌<◌, ◌≡◌, refl, sym, ap, ◌∙◌, Bool, true, false, List, arith,
  leb, ◌==◌, if◌then◌else◌, length,
}
use mathlib.Core.Path.{subst}
use prj_movie_dbapp.Nanopb.Field.{Memory}
use prj_movie_dbapp.Nanopb.Iter.{Iter, field_of, pb_field_iter_next, pb_field_iter_find}
use prj_movie_dbapp.Nanopb.Iter.Find.{next-start}
use prj_movie_dbapp.Nanopb.Istream.{Istream, Outcome, got, failed, stuck}
use prj_movie_dbapp.Nanopb.Decode.Primitive.{pb_skip_field}
use prj_movie_dbapp.Nanopb.Decode.Bounds.{Ends}
use prj_movie_dbapp.Nanopb.Decode.Bounds.Fields.{Steady-pb_skip_field}
use prj_movie_dbapp.Nanopb.Decode.Scalar.{FieldDecoder}
use prj_movie_dbapp.Nanopb.Decode.Action.{Action, Env, pure, on_stream}
use prj_movie_dbapp.Nanopb.Decode.Extension.{find_extension_loop, find_extension_field}
use prj_movie_dbapp.Nanopb.Decode.Message.{
  Locals, skip_unknown, decode_unknown, decode_one, with_tag,
}
use prj_movie_dbapp.Nanopb.Decode.Total.{
  Within-Advanced, Within-trans, Within-holds, Halts, Less, Post, Settles, SettlesBelow, Yields,
}
use prj_movie_dbapp.Nanopb.Decode.Total.Rules.{
  Settles-pure, Settles-on_stream, Settles-if, Yields-pure, Yields-any,
}
use prj_movie_dbapp.Nanopb.Decode.Total.Binds.{Settles->>=, Yields->>=}
use prj_movie_dbapp.Nanopb.Decode.Total.Updates.{Acyclic, field-Good}
use prj_movie_dbapp.Nanopb.Decode.Total.Releases.{find-start}
use prj_movie_dbapp.Nanopb.Decode.Total.Knowns.{
  Decodes, AreAt, Settles-decode_known, Yields-decode_known,
}

module _ (env : Env) (rank : ℕ → ℕ) (acyclic : Acyclic env.descriptors rank)
    (bounded : (a : ℕ) → rank a < env.bound) (a : ℕ) (decoders : ℕ → FieldDecoder (List ℕ))
    (decodes : Decodes rank a decoders) (fixed_count_size : ℕ) where
  -- No field of the message is an extension.
  find_extension-none :
      (fuel start : ℕ) (it : Iter)
      → it.start ≡ env.descriptors a
      → ((find_extension_loop fuel start it).0 ≡ false)
        × (((find_extension_loop fuel start it).1).start ≡ env.descriptors a)
  unfolding find_extension_loop
  find_extension-none zero start it e = (refl, e)
  find_extension-none (suc fuel) start it e =
      let g = field-Good env.descriptors rank acyclic it a e in
      let it' = (pb_field_iter_next it).1 in
      rw g.no_extension (
        last (it'.pos == start) _ (next-start it ∙ e)
          (find_extension-none fuel start it' (next-start it ∙ e)))
    where
      last :
          (c : Bool) (rest : Bool × Iter)
          → ((pb_field_iter_next it).1).start ≡ env.descriptors a
          → (rest.0 ≡ false) × ((rest.1).start ≡ env.descriptors a)
          → ((if◌then◌else◌ {A = Bool × Iter} c (false, (pb_field_iter_next it).1) rest).0 ≡ false)
            × (((if◌then◌else◌ {A = Bool × Iter} c (false, (pb_field_iter_next it).1) rest).1).start
                ≡ env.descriptors a)
      last true rest e' h = (refl, e')
      last false rest e' h = h

  module _ (wire_type : ℕ) (l : Locals) where
    Settles-skip_unknown : Settles (skip_unknown env decoders fixed_count_size wire_type l)
    unfolding skip_unknown
    Settles-skip_unknown =
        Settles->>= (Settles-on_stream (Steady-pb_skip_field wire_type)) λ u. Settles-pure l

    Yields-skip_unknown :
        AreAt env a l
        → Yields (AreAt env a) (skip_unknown env decoders fixed_count_size wire_type l)
    unfolding skip_unknown
    Yields-skip_unknown e =
        Yields->>= {P = λ u. Unit} {f = on_stream (pb_skip_field wire_type)} {k = λ u. pure l}
          (Yields-any _) λ u p. Yields-pure l e

    module _ (tag : ℕ) (e : AreAt env a l) (lt : tag < 2 ^ 32 - 1) where
      -- No extension is tried: there is none, and the tag is below the largest one.
      unreachable :
          leb
            (if (find_extension_field (l.iter)).0
              then (field_of ((find_extension_field (l.iter)).1)).tag
              else 2 ^ 32 - 1)
            tag
          ≡ false
      unfolding find_extension_field
      unreachable =
          rw ((find_extension-none (length (l.iter).start + 1) (l.iter).pos (l.iter) e).0)
            (ground arith)

  after_search : Locals → Locals
  after_search l =
      let (found, it) = find_extension_field (l.iter) in
      record l {
        iter = it;
        extension_range_start = if found then (field_of it).tag else 2 ^ 32 - 1;
      }

  after_search-at : (l : Locals) → AreAt env a l → AreAt env a (after_search l)
  unfolding after_search find_extension_field
  after_search-at l e = (find_extension-none (length (l.iter).start + 1) (l.iter).pos (l.iter) e).1

  Yields-if :
      (c : Bool) {f g : Action (List ℕ) Locals}
      → Yields (AreAt env a) f
      → Yields (AreAt env a) g
      → Yields (AreAt env a) (if c then f else g)
  Yields-if true hf hg = hf
  Yields-if false hf hg = hg

  module _ (wire_type tag : ℕ) (lt : tag < 2 ^ 32 - 1) where
    -- A field that the message does not know is skipped.
    decode_unknown-skips :
        (l : Locals)
        → AreAt env a l
        → decode_unknown env decoders fixed_count_size wire_type tag l ≡ (
            if leb l.extension_range_start tag
            then skip_unknown env decoders fixed_count_size wire_type (after_search l)
            else skip_unknown env decoders fixed_count_size wire_type l)
    unfolding decode_unknown after_search
    decode_unknown-skips l e = rw (unreachable wire_type l tag e lt) refl

    module _ (l : Locals) (e : AreAt env a l) where
      pub Settles-decode_one : Settles (decode_one env decoders fixed_count_size wire_type tag l)
      unfolding decode_one
      Settles-decode_one =
          let (found, it) = pb_field_iter_find (l.iter) tag in
          let l' : Locals = record l { iter = it } in
          let e' : AreAt env a l' = find-start (l.iter) tag ∙ e in
          Settles-if found
            (λ known.
              Settles-decode_known env rank acyclic bounded a decoders decodes fixed_count_size
                wire_type l' e')
            λ unknown. subst Settles (sym (decode_unknown-skips l' e')) (
              Settles-if _ (λ searched. Settles-skip_unknown wire_type (after_search l'))
                λ before. Settles-skip_unknown wire_type l')

      pub Yields-decode_one :
          Yields (AreAt env a) (decode_one env decoders fixed_count_size wire_type tag l)
      unfolding decode_one
      Yields-decode_one =
          let (found, it) = pb_field_iter_find (l.iter) tag in
          let l' : Locals = record l { iter = it } in
          let e' : AreAt env a l' = find-start (l.iter) tag ∙ e in
          Yields-if found
            (Yields-decode_known env rank acyclic bounded a decoders decodes fixed_count_size
              wire_type l' e')
            (subst (Yields (AreAt env a)) (sym (decode_unknown-skips l' e')) (
              Yields-if _ (Yields-skip_unknown wire_type (after_search l') (after_search-at l' e'))
                (Yields-skip_unknown wire_type l' e')))

  -- A round, and what follows it with fewer bytes.
  pub Halts-with_tag :
      (fuel : ℕ) (l : Locals) (input : List ℕ) (left : ℕ)
      (r : (Outcome (ℕ × ℕ) × Istream (List ℕ)) × Bool) (k : ℕ → ℕ → Action (List ℕ) Locals)
      (m : Memory) (s : Istream (List ℕ))
      → Post (λ (wt : ℕ × ℕ). SettlesBelow (suc fuel) (k (wt.0) (wt.1))) (r.0.0)
      → left ≤ length input
      → left < suc (suc fuel)
      → Ends input left (r.0)
      → Less left (r.0)
      → Halts input left ((with_tag env decoders fixed_count_size r l k m s).0)
  unfolding with_tag
  Halts-with_tag fuel l input left ((got (wire_type, tag), s'), eof) k m s hk h hb e less =
      let w = Within-Advanced (e.1) in
      let next =
        hk.run_below m w.rest w.count w.err (Within-holds w h)
          (omega (arith, less refl, ap (λ t. t.bytes_left) w.now)) in
      subst (λ t. Halts input left ((k wire_type tag m t).0)) (sym w.now)
        (next.0, Within-trans w (next.1))
  Halts-with_tag fuel l input left ((failed, s'), true) k m s hk h hb e less =
      (refl, Within-Advanced (e.1))
  Halts-with_tag fuel l input left ((failed, s'), false) k m s hk h hb e less =
      (refl, Within-Advanced (e.1))
  Halts-with_tag fuel l input left ((stuck, s'), eof) k m s hk h hb e less = absurd (cc)
