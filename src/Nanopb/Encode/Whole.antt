-- ===== src/Nanopb/Encode/Whole.antt =====
-- pb_encode is uniform: what the sizing pass of pb_get_encoded_size counts is what the writing pass
-- writes. User functions are assumed to write the same whenever they are called.
use prj_movie_dbapp.Prelude.{ℕ, zero, suc, ◌≡◌, ◌≢◌, refl, Bool}
use prj_movie_dbapp.Nanopb.Field.{Message, Field, pb_ltype, callback_error}
use prj_movie_dbapp.Nanopb.Iter.{Iter}
use prj_movie_dbapp.Nanopb.Ostream.{Ostream, Encoder, Status, ok, failed, Buffer}
use prj_movie_dbapp.Nanopb.Encode.Scalar.{pb_encoders}
use prj_movie_dbapp.Nanopb.Encode.Default.{Check}
use prj_movie_dbapp.Nanopb.Encode.Basic
use prj_movie_dbapp.Nanopb.Encode.Basic.{Env, or_error, encode_field}
use prj_movie_dbapp.Nanopb.Encode.Message.{
  MessageEncoder, encode_fields, encode_one, encode_with, pb_encode,
}
use prj_movie_dbapp.Nanopb.Encode.Emits.{
  Uniform, emits, refuses, Uniform->>, Uniform-if, Uniform-option, Uniform-done, Uniform-stuck,
  uniform_rules,
}
use prj_movie_dbapp.Nanopb.Encode.Values.{Uniform-pb_encoders, Uniform-pb_encode_tag_for_field}
use prj_movie_dbapp.Nanopb.Encode.Sized.{Uniform-array_of}
use prj_movie_dbapp.Nanopb.Encode.Submessage.{Uniform-pb_encode_submessage}

-- "callback error" is set on failure alone.
module _ (m : Encoder Buffer) (e : Message) where
  or_error-ok :
      {s : Ostream Buffer} (r : Status × Ostream Buffer) → r ≡ (ok, s) → or_error r e ≡ (ok, s)
  unfolding or_error
  or_error-ok (ok, t) h = h
  or_error-ok (failed, t) h = cc
  or_error-ok (Status.crashed, t) h = cc
  or_error-ok (Status.stuck, t) h = cc

  or_error-was_ok : (r : Status × Ostream Buffer) → (or_error r e).0 ≡ ok → r.0 ≡ ok
  unfolding or_error
  or_error-was_ok (ok, t) h = refl
  or_error-was_ok (failed, t) h = absurd (cc)
  or_error-was_ok (Status.crashed, t) h = cc
  or_error-was_ok (Status.stuck, t) h = cc

  or_error-failed : (r : Status × Ostream Buffer) → r.0 ≡ failed → (or_error r e).0 ≡ failed
  unfolding or_error
  or_error-failed (ok, t) h = cc
  or_error-failed (failed, t) h = refl
  or_error-failed (Status.crashed, t) h = cc
  or_error-failed (Status.stuck, t) h = cc

  or_error-ne-ok : (r : Status × Ostream Buffer) → r.0 ≢ ok → (or_error r e).0 ≢ ok
  unfolding or_error
  or_error-ne-ok (ok, t) h = absurd (h refl)
  or_error-ne-ok (failed, t) h = h
  or_error-ne-ok (Status.crashed, t) h = h
  or_error-ne-ok (Status.stuck, t) h = h

  Uniform-or_error : Uniform m → Uniform (λ s. or_error (m s) e)
  Uniform-or_error (emits bs a) = emits bs (record {
    sizes = λ st max bw err hb. or_error-ok _ (a.sizes st max bw err hb);
    writes = λ st max bw h hm. or_error-ok _ (a.writes st max bw h hm);
    overflows = λ st max bw h o hm. or_error-failed _ (a.overflows st max bw h o hm);
    exact = λ st max bw hb h. or_error-ok _ (a.exact st max bw hb (or_error-was_ok _ h));
  })
  Uniform-or_error (refuses r) = refuses (record {
    unsized = λ st max bw err hb. or_error-ne-ok _ (r.unsized st max bw err hb);
    unwritten = λ st max bw hb. or_error-ne-ok _ (r.unwritten st max bw hb);
  })

-- Functions of the user that write the same bytes to every stream.
pub record UniformEnv (env : Env Buffer) : Type 0 where
  pub callbacks : (a : ℕ) (field : Field) (arg : ℕ) → Uniform (env.callback_encode a field arg)
  pub extensions : (a extension : ℕ) → Uniform (env.extension_encode a extension)

module _ (env : Env Buffer) (u : UniformEnv env) (check : Check) (sub : MessageEncoder Buffer)
    (usub : (fields src : ℕ) → Uniform (sub fields src)) where
  Uniform-func :
      (field : Field) (q : ℕ) → Uniform (pb_encoders env.memory sub (pb_ltype field.type) field q)
  Uniform-func field q = Uniform-pb_encoders env.memory sub usub (pb_ltype field.type) field q

  Uniform-by_htype :
      (field : Field) (p target : ℕ) (implicit : Bool)
      → Uniform (Basic.encode_by_htype env check sub field p target implicit)
  unfolding Basic.encode_by_htype Basic.encode_required Basic.encode_when
  Uniform-by_htype field p target implicit =
      search
        (
          uniform_rules,
          Uniform-func field target,
          Uniform-pb_encode_tag_for_field,
          Uniform-array_of env.memory sub usub field,
        )
        depth 9

  Uniform-encode_basic_field :
      (field : Field) (p : ℕ) → Uniform (Basic.encode_basic_field env check sub field p)
  unfolding Basic.encode_basic_field
  Uniform-encode_basic_field field p =
      Uniform-option _ Uniform-stuck (λ implicit. Uniform-by_htype field p _ implicit)

  Uniform-encode_callback_field :
      (field : Field) (p : ℕ) → Uniform (Basic.encode_callback_field env check sub field p)
  unfolding Basic.encode_callback_field
  Uniform-encode_callback_field field p =
      Uniform-if _ Uniform-done (Uniform-or_error _ callback_error (u.callbacks _ field _))

  pub Uniform-encode_field : (field : Field) (p : ℕ) → Uniform (encode_field env check sub field p)
  unfolding encode_field
  Uniform-encode_field field p =
      search (uniform_rules, Uniform-encode_basic_field, Uniform-encode_callback_field)

  Uniform-one_extension :
      (extension : ℕ) → Uniform (Basic.encode_one_extension env check sub extension)
  unfolding Basic.encode_one_extension Basic.default_extension_encoder
  Uniform-one_extension extension = search (uniform_rules, Uniform-encode_field, u.extensions)

  Uniform-encode_extensions :
      (n extension : ℕ) → Uniform (Basic.encode_extensions env check sub n extension)
  unfolding Basic.encode_extensions
  Uniform-encode_extensions zero extension = Uniform-if _ Uniform-done Uniform-stuck
  Uniform-encode_extensions (suc n) extension =
      Uniform-if _ Uniform-done
        (Uniform->> (Uniform-one_extension extension) (Uniform-encode_extensions n _))

  Uniform-encode_one : (n : ℕ) (it : Iter) → Uniform (encode_one env n check sub it)
  unfolding encode_one Basic.encode_extension_field
  Uniform-encode_one n it = search (uniform_rules, Uniform-encode_field, Uniform-encode_extensions)

Uniform-encode_fields :
    (body : Iter → Encoder Buffer) (n : ℕ) (it : Iter)
    → ((it' : Iter) → Uniform (body it'))
    → Uniform (encode_fields body n it)
unfolding encode_fields
Uniform-encode_fields body zero it u = Uniform-stuck
Uniform-encode_fields body (suc n) it u =
    Uniform->> (u it) (Uniform-if _ (Uniform-encode_fields body n _ u) Uniform-done)

pub Uniform-pb_encode :
    (env : Env Buffer) (u : UniformEnv env) (depth fields src : ℕ)
    → Uniform (pb_encode env depth fields src)
unfolding pb_encode encode_with
Uniform-pb_encode env u zero fields src = Uniform-stuck
Uniform-pb_encode env u (suc depth) fields src =
    let usub = λ (f q : ℕ).
      Uniform-pb_encode_submessage (pb_encode env depth) f q (Uniform-pb_encode env u depth f q) in
    Uniform-if _ (Uniform-encode_fields _ _ _ (Uniform-encode_one env u _ _ usub depth))
      Uniform-done
