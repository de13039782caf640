-- ===== src/Layout/Sort.antt =====
-- Python's stable `sorted` with a key, as an insertion sort over the order of the keys, and tuples
-- of floats compared one component after the other.
use mathlib.Core.List.{Perm}
use mathlib.Core.List.Perm
use fiqhmind_ai_backend.Prelude.{
  Bool, ◌&&◌, List, [], ◌∷◌, if◌then◌else◌, inl, inr, Bool-cases, All, length, ap, ◌∙◌, ◌≡◌, suc,
  refl,
}
use fiqhmind_ai_backend.Extraction.Types.{Floating}

module _ {A : Type 0} (precedes : A → A → Bool) where
  -- An element goes in front of those that do not precede it, so of equal ones the earlier is first.
  unfoldable pub insert_by : A → List A → List A
  insert_by x [] = x ∷ []
  insert_by x (y ∷ ys) =
      let later = insert_by x ys in if precedes y x then y ∷ later else x ∷ y ∷ ys

  unfoldable pub sort_by : List A → List A
  unfolding insert_by
  sort_by [] = []
  sort_by (x ∷ xs) = insert_by x (sort_by xs)

  insert_by-Perm : (x : A) (ys : List A) → Perm (insert_by x ys) (x ∷ ys)
  unfolding insert_by
  insert_by-Perm x [] = Perm.refl (x ∷ [])
  insert_by-Perm x (y ∷ ys) = elim (Bool-cases (precedes y x)) [
    | inl first ↦ rw first (Perm.trans (Perm.cons y (insert_by-Perm x ys)) (Perm.swap x y ys))
    | inr not_first ↦ rw not_first (Perm.refl (x ∷ y ∷ ys))
  ]

  pub sort_by-Perm : (xs : List A) → Perm (sort_by xs) xs
  unfolding sort_by
  sort_by-Perm [] = Perm.refl []
  sort_by-Perm (x ∷ xs) = Perm.trans (insert_by-Perm x (sort_by xs)) (Perm.cons x (sort_by-Perm xs))

module _ {A : Type 0} (precedes : A → A → Bool) (P : A → Type 0) where
  insert_by-All : (x : A) (ys : List A) → P x → All P ys → All P (insert_by precedes x ys)
  unfolding insert_by
  insert_by-All x [] p h = (p, tt)
  insert_by-All x (y ∷ ys) p h = elim (Bool-cases (precedes y x)) [
    | inl first ↦ rw first (h.0, insert_by-All x ys p h.1)
    | inr not_first ↦ rw not_first (p, h)
  ]

  pub sort_by-All : (xs : List A) → All P xs → All P (sort_by precedes xs)
  unfolding sort_by
  sort_by-All [] h = tt
  sort_by-All (x ∷ xs) h = insert_by-All x (sort_by precedes xs) h.0 (sort_by-All xs h.1)

module _ {A : Type 0} (precedes : A → A → Bool) where
  length-insert_by : (x : A) (ys : List A) → length (insert_by precedes x ys) ≡ suc (length ys)
  unfolding insert_by
  length-insert_by x [] = refl
  length-insert_by x (y ∷ ys) = elim (Bool-cases (precedes y x)) [
    | inl first ↦ rw first (ap suc (length-insert_by x ys))
    | inr not_first ↦ rw not_first refl
  ]

  pub length-sort_by : (xs : List A) → length (sort_by precedes xs) ≡ length xs
  unfolding sort_by
  length-sort_by [] = refl
  length-sort_by (x ∷ xs) = length-insert_by x (sort_by precedes xs) ∙ ap suc (length-sort_by xs)

module _ (fl : Floating) where
  -- `a == b` of floats
  abbrev pub float_eq : fl.F → fl.F → Bool
  float_eq a b = fl.le a b && fl.le b a

  -- `a < b` of pairs
  abbrev pub pair_lt : fl.F × fl.F → fl.F × fl.F → Bool
  pair_lt a b = if float_eq a.0 b.0 then fl.lt a.1 b.1 else fl.lt a.0 b.0
