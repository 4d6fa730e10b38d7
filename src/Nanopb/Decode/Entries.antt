-- ===== src/Nanopb/Decode/Entries.antt =====
-- MovieDBApp/Pods/nanopb/pb_decode.c: what the loops over a static array write.
use prj_movie_dbapp.Prelude.{
  ℕ, zero, suc, ◌+◌, ◌*◌, ◌%◌, ◌^◌, ◌≤◌, ◌<◌, ◌≡◌, ◌⊎◌, inl, inr, refl, sym, ◌∙◌, Bool, true, false,
  not, ◌||◌, arith, leb, ◌==◌, if◌then◌else◌,
}
use mathlib.Core.Path.{subst}
use native.Mathlib.Nat.{mul-le-mul_left}
use prj_movie_dbapp.Nanopb.Field.Ltype
use prj_movie_dbapp.Nanopb.Field.{Field, Memory, load_word, pb_ltype}
use prj_movie_dbapp.Nanopb.Iter.{Iter, field_of}
use prj_movie_dbapp.Nanopb.Istream.{Istream, Outcome, got, failed, stuck}
use prj_movie_dbapp.Nanopb.Decode.Primitive.{pb_make_string_substream}
use prj_movie_dbapp.Nanopb.Decode.Scalar.{Loaded}
use prj_movie_dbapp.Nanopb.Decode.Action.{Action, on_stream, and_do, close_after, increment}
use prj_movie_dbapp.Nanopb.Decode.Static.{static_items, check_overflow, static_packed, static_item}
use prj_movie_dbapp.Nanopb.Decode.Inside.{Inside, Inside-store_word}

abbrev pub Outside : ℕ → ℕ → ℕ → Type 0
Outside start size a = (a < start) ⊎ (start + size ≤ a)

-- A field of numbers, with the size that its type asks for.
pub record Packable (field : Field) : Type 0 where
  pub packable : leb (pb_ltype field.type) Ltype.last_packable ≡ true
  pub word32 : (pb_ltype field.type == Ltype.fixed32) ≡ true → field.data_size ≡ 4
  pub word64 : (pb_ltype field.type == Ltype.fixed64) ≡ true → field.data_size ≡ 8

-- The memory outside the entries and the counter is what it was.
pub record Kept (it : Iter) (before after : Memory) : Type 0 where
  pub kept :
      (a : ℕ)
      → Outside it.p_data ((field_of it).data_size * (field_of it).array_size) a
      → Outside it.p_size 4 a
      → after a ≡ before a

item-fits : (size n k : ℕ) → n < k → size * n % 2 ^ 32 + size ≤ size * k
item-fits size n k h = omega (arith, mul-le-mul_left size h)

module _ (it : Iter) where
  Kept-refl : (m : Memory) → Kept it m m
  Kept-refl m = record { kept = λ a h k. refl }

  Kept-trans : {m n k : Memory} → Kept it m n → Kept it n k → Kept it m k
  Kept-trans h k = record { kept = λ a p q. k.kept a p q ∙ h.kept a p q }

  Kept-count : {m n : Memory} → Inside it.p_size 4 m n → Kept it m n
  Kept-count h = record { kept = λ a p q. elim q [ inl lt ↦ h.below a lt | inr le ↦ h.above a le ] }

  Kept-item :
      {m n : Memory} (i : ℕ)
      → i < (field_of it).array_size
      → Inside (it.p_data + (field_of it).data_size * i % 2 ^ 32) (field_of it).data_size m n
      → Kept it m n
  Kept-item i lt h = record {
    kept = λ a p q. elim p [
      | inl below ↦ h.below a (omega arith)
      | inr above ↦
          h.above a (omega (arith, item-fits (field_of it).data_size i (field_of it).array_size lt))
    ];
  }

  Kept-increment : (m : Memory) → Kept it m (increment it.p_size m)
  unfolding increment
  Kept-increment m =
      Kept-count (Inside-store_word it.p_size 4 m it.p_size 4 _ (omega arith) (omega arith))

  module _ {S : Type 0} where
    Kept-and_do :
        {A B : Type 0} (m : Memory) (r : (Outcome A × Istream S) × Memory) (k : A → Action S B)
        → Kept it m (r.1)
        → ((a : A) (m : Memory) (s : Istream S) → Kept it m ((k a m s).1))
        → Kept it m ((and_do r k).1)
    Kept-and_do m ((got a, s), m') k h hk = Kept-trans h (hk a m' s)
    Kept-and_do m ((failed, s), m') k h hk = h
    Kept-and_do m ((stuck, s), m') k h hk = h

    Kept-if :
        {A : Type 0} (m : Memory) (c : Bool) (x y : (Outcome A × Istream S) × Memory)
        → Kept it m (x.1)
        → (c ≡ false → Kept it m (y.1))
        → Kept it m ((if c then x else y).1)
    Kept-if m true x y hx hy = hx
    Kept-if m false x y hx hy = hy refl

    pub Kept-choice :
        (m : Memory) (s : Istream S) (c : Bool) (f g : Action S (Unit {0}))
        → (c ≡ true → Kept it m ((f m s).1))
        → (c ≡ false → Kept it m ((g m s).1))
        → Kept it m (((if c then f else g) m s).1)
    Kept-choice m s true f g hf hg = hf refl
    Kept-choice m s false f g hf hg = hg refl

    if_memory :
        (c : Bool) (x y : Loaded S) {m : Memory} → x.1 ≡ m → y.1 ≡ m → (if c then x else y).1 ≡ m
    if_memory true x y p q = p
    if_memory false x y p q = q

    check_overflow-memory : (r : Loaded S) (s : Istream S) → (check_overflow r s).1 ≡ r.1
    unfolding check_overflow close_after
    check_overflow-memory ((stuck, substream), m) s = refl
    check_overflow-memory ((got u, substream), m) s =
        if_memory (not (substream.bytes_left == 0)) _ _ refl refl
    check_overflow-memory ((failed, substream), m) s =
        if_memory (not (substream.bytes_left == 0)) _ _ refl refl

    module _ (func : ℕ → Action S (Unit {0}))
        (writes : (dest : ℕ) (m : Memory) (s : Istream S)
          → Inside dest (field_of it).data_size m ((func dest m s).1)) where
      Kept-static_items :
          (fuel : ℕ) (m : Memory) (s : Istream S) → Kept it m ((static_items func it fuel m s).1)
      unfolding static_items
      Kept-static_items zero m s = Kept-if m _ _ _ (Kept-refl m) λ e. Kept-refl m
      Kept-static_items (suc fuel) m s =
          Kept-if m (s.bytes_left == 0 || leb (field_of it).array_size (load_word m it.p_size 4)) _
            _ (Kept-refl m)
            λ e.
              Kept-and_do m _ _ (Kept-item (load_word m it.p_size 4) (ground arith) (writes _ m s))
                λ u m' s'.
                  Kept-trans (Kept-increment m')
                    (Kept-static_items fuel (increment it.p_size m') s')

      pub Kept-static_packed :
          (m : Memory) (s : Istream S) → Kept it m ((static_packed func it m s).1)
      unfolding static_packed
      Kept-static_packed m s =
          Kept-and_do m (on_stream pb_make_string_substream m s) _ (Kept-refl m) λ substream m' s'.
            subst (λ k. Kept it m' k) (sym (check_overflow-memory _ s'))
              (Kept-static_items substream.bytes_left m' substream)

      pub Kept-static_item : (m : Memory) (s : Istream S) → Kept it m ((static_item func it m s).1)
      unfolding static_item
      Kept-static_item m s =
          Kept-if m (leb (field_of it).array_size (load_word m it.p_size 4)) _ _ (Kept-increment m)
            λ e.
              Kept-trans (Kept-increment m)
                (Kept-item (load_word m it.p_size 4) (ground arith) (writes _ _ s))
