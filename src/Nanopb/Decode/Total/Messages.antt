-- ===== src/Nanopb/Decode/Total/Messages.antt =====
-- MovieDBApp/Pods/nanopb/pb_decode.c: the end of pb_decode_noinit, by that of the decoders of its
-- fields, and of pb_decode, by that of pb_decode_noinit.
use prj_movie_dbapp.Prelude.{
  ℕ, zero, suc, ◌-◌, ◌^◌, ◌<◌, ◌≡◌, ◌≢◌, refl, sym, Bool, true, false, Option, none, some, List,
  arith, ◌==◌,
}
use mathlib.Core.Path.{subst}
use prj_movie_dbapp.Nanopb.Field.{Memory, missing_required_field, wrong_size_for_fixed_count_field}
use prj_movie_dbapp.Nanopb.Iter.{pb_field_iter_begin}
use prj_movie_dbapp.Nanopb.Istream.{Istream, got, failed, stuck}
use prj_movie_dbapp.Nanopb.Decode.Primitive.{pb_decode_tag}
use prj_movie_dbapp.Nanopb.Decode.Bounds.{stream}
use prj_movie_dbapp.Nanopb.Decode.Bounds.Fields.{Steady-pb_decode_tag}
use prj_movie_dbapp.Nanopb.Decode.Scalar.{FieldDecoder, Loaded, store_word}
use prj_movie_dbapp.Nanopb.Decode.Action.{
  Action, Env, pure, return_error, out_of_fuel, apply_update, and_do,
}
use prj_movie_dbapp.Nanopb.Decode.Release.{pb_release}
use prj_movie_dbapp.Nanopb.Decode.Required.{check_required}
use prj_movie_dbapp.Nanopb.Decode.Message.{
  Locals, MessageDecoder, count_is_wrong, decode_rounds, finish_message, noinit_with,
  release_failed, decode_with,
}
use prj_movie_dbapp.Nanopb.Decode.Total.{is_done, Halts, Post-all, Post-map, Settles, SettlesBelow}
use prj_movie_dbapp.Nanopb.Decode.Total.Rules.{
  Settles-pure, Settles-return_error, Settles-on_memory, Settles-test,
}
use prj_movie_dbapp.Nanopb.Decode.Total.Binds.{Halts-and_do, Settles->>=}
use prj_movie_dbapp.Nanopb.Decode.Total.Shrinks.{Eats-pb_decode_tag}
use prj_movie_dbapp.Nanopb.Decode.Total.Updates.{
  Acyclic, check_required-some, Total-pb_message_set_to_defaults,
}
use prj_movie_dbapp.Nanopb.Decode.Total.Releases.{Total-pb_release}
use prj_movie_dbapp.Nanopb.Decode.Total.Items.{
  SettlesBelow-Settles, SettlesBelow-test, SettlesBelow-last,
}
use prj_movie_dbapp.Nanopb.Decode.Total.Below.{SettlesBelow-then}
use prj_movie_dbapp.Nanopb.Decode.Total.Tags.{tag-small}
use prj_movie_dbapp.Nanopb.Decode.Total.Knowns.{Decodes, AreAt}
use prj_movie_dbapp.Nanopb.Decode.Total.Rounds.{
  Settles-decode_one, Yields-decode_one, Halts-with_tag,
}

module _ (env : Env) (rank : ℕ → ℕ) (acyclic : Acyclic env.descriptors rank)
    (bounded : (a : ℕ) → rank a < env.bound) where
  module _ (a : ℕ) (decoders : ℕ → FieldDecoder (List ℕ)) (decodes : Decodes rank a decoders)
      (fixed_count_size : ℕ) where
    SettlesBelow-decode_rounds :
        (fuel : ℕ) (l : Locals)
        → AreAt env a l
        → SettlesBelow (suc fuel) (decode_rounds env decoders fixed_count_size fuel l)
    unfolding decode_rounds
    SettlesBelow-decode_rounds zero l e = SettlesBelow-last l out_of_fuel
    SettlesBelow-decode_rounds (suc fuel) l e =
        SettlesBelow-test (λ m s. s.bytes_left == 0) (SettlesBelow-Settles (Settles-pure l))
          (record {
            run_below = λ m input left err h hb.
                let s = stream input left err in
                Halts-with_tag env rank acyclic bounded a decoders decodes fixed_count_size fuel l
                  input left (pb_decode_tag s) _ m s
                  (Post-map {P = λ (wt : ℕ × ℕ). wt.1 < 2 ^ 32 - 1}
                    (λ wt lt.
                      SettlesBelow-then
                        (Settles-decode_one env rank acyclic bounded a decoders decodes
                          fixed_count_size (wt.0) (wt.1) lt l e)
                        (Yields-decode_one env rank acyclic bounded a decoders decodes
                          fixed_count_size (wt.0) (wt.1) lt l e)
                        λ l' e'. SettlesBelow-decode_rounds fuel l' e')
                    ((pb_decode_tag s).0.0) (tag-small s))
                  h hb (Steady-pb_decode_tag.run input left err h)
                  (Eats-pb_decode_tag.less input left err h);
          })

    Settles-finish_message : (l : Locals) → Settles (finish_message env decoders fixed_count_size l)
    unfolding finish_message
    Settles-finish_message l =
        Settles-test (λ m s. count_is_wrong fixed_count_size l m)
          (Settles-return_error wrong_size_for_fixed_count_field)
          (checked (check_required (l.iter) l.fields_seen)
            (check_required-some (l.iter) l.fields_seen))
      where
        checked :
            (o : Option Bool)
            → o ≢ none
            → Settles {A = Unit {0}} (λ m s. elim o [
              | none ↦ out_of_fuel m s
              | some false ↦ return_error missing_required_field m s
              | some true ↦ pure tt m s
            ])
        checked none h = absurd (h refl)
        checked (some false) h = record {
          run = (Settles-return_error {A = Unit {0}} missing_required_field).run;
        }
        checked (some true) h = record { run = (Settles-pure {A = Unit {0}} tt).run }

    pub Settles-noinit_with :
        (dest : ℕ) → Settles (noinit_with env decoders fixed_count_size a dest)
    unfolding noinit_with pb_field_iter_begin
    Settles-noinit_with dest = record {
      run = λ m input left err h.
          Halts-and_do (finish_message env decoders fixed_count_size) input left
            (decode_rounds env decoders fixed_count_size left _ (store_word m fixed_count_size 4 0)
              (stream input left err))
            (Post-all Settles-finish_message _) h
            ((SettlesBelow-decode_rounds left _ refl).run_below (store_word m fixed_count_size 4 0)
              input left err h (omega arith));
    }

  Settles-release_failed :
      (fields dest : ℕ) {f : Action (List ℕ) (Unit {0})}
      → Settles f
      → Settles (λ m s. release_failed env fields dest (f m s))
  unfolding release_failed
  Settles-release_failed fields dest {f} hf = record {
    run = λ m input left err h.
        after input left (f m (stream input left err)) (hf.run m input left err h);
  }
    where
      fails :
          (m : Memory) (s : Istream (List ℕ)) (o : Option Memory)
          → is_done o ≡ true
          → (and_do {B = Unit {0}} (apply_update o m s) (λ u m s. ((failed, s), m))).0 ≡ (failed, s)
      fails m s none e = absurd (cc)
      fails m s (some m') e = refl

      after :
          (input : List ℕ) (left : ℕ) (r : Loaded (List ℕ))
          → Halts input left (r.0)
          → Halts input left ((release_failed env fields dest r).0)
      after input left ((got u, s), m) h = h
      after input left ((failed, s), m) h =
          subst (Halts input left)
            (sym (
              fails m s (pb_release env fields dest m)
                ((Total-pb_release env rank acyclic bounded fields dest).done m)))
            (refl, h.1)
      after input left ((stuck, s), m) h = absurd (cc)

  pub Settles-decode_with :
      (noinit : MessageDecoder (List ℕ)) (fields dest : ℕ)
      → Settles (noinit fields dest)
      → Settles (decode_with env noinit fields dest)
  unfolding decode_with
  Settles-decode_with noinit fields dest h =
      Settles->>=
        (Settles-on_memory (
          Total-pb_message_set_to_defaults env.descriptors rank acyclic env.bound fields dest
            (bounded fields)))
        λ u. Settles-release_failed fields dest h
