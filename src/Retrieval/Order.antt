-- ===== src/Retrieval/Order.antt =====
-- `sorted(…, key=…, reverse=True)`: Python sorts stably, so of two elements with equal keys the
-- earlier one stays in front.
use fiqhmind_ai_backend.Prelude.{
  ℕ, zero, suc, ◌≡◌, inl, inr, false, List, [], ◌∷◌, if◌then◌else◌, Bool-cases, All, take,
}
use fiqhmind_ai_backend.Retrieval.Scores.{Floats, IsOrdered}

module _ (fl : Floats) {A : Type 0} (key : A → fl.F) where
  unfoldable pub insert_desc : A → List A → List A
  insert_desc x [] = x ∷ []
  insert_desc x (y ∷ ys) =
      let later = insert_desc x ys in if fl.lt (key x) (key y) then y ∷ later else x ∷ y ∷ ys

  unfoldable pub sort_desc : List A → List A
  unfolding insert_desc
  sort_desc [] = []
  sort_desc (x ∷ xs) = insert_desc x (sort_desc xs)

  -- No element has a higher key than one before it.
  abbrev pub NotAbove : A → A → Type 0
  NotAbove x y = fl.lt (key x) (key y) ≡ false

  abbrev pub Descends : List A → Type 0
  Descends [] = Unit
  Descends (x ∷ xs) = All (NotAbove x) xs × Descends xs

module _ (fl : Floats) {A : Type 0} (key : A → fl.F) where
  pub insert_desc-All :
      (P : A → Type 0) (x : A) (ys : List A) → P x → All P ys → All P (insert_desc fl key x ys)
  unfolding insert_desc
  insert_desc-All P x [] p h = (p, tt)
  insert_desc-All P x (y ∷ ys) p h = elim (Bool-cases (fl.lt (key x) (key y))) [
    | inl below ↦ rw below (h.0, insert_desc-All P x ys p h.1)
    | inr not_below ↦ rw not_below (p, h)
  ]

  pub sort_desc-All : (P : A → Type 0) (xs : List A) → All P xs → All P (sort_desc fl key xs)
  unfolding sort_desc
  sort_desc-All P [] h = tt
  sort_desc-All P (x ∷ xs) h =
      insert_desc-All P x (sort_desc fl key xs) h.0 (sort_desc-All P xs h.1)

pub take-All : {A : Type 0} (P : A → Type 0) (n : ℕ) (xs : List A) → All P xs → All P (take n xs)
take-All P zero xs h = tt
take-All P (suc n) [] h = tt
take-All P (suc n) (x ∷ xs) h = (h.0, take-All P n xs h.1)

module _ (fl : Floats) (ordered : IsOrdered fl) {A : Type 0} (key : A → fl.F) where
  NotAbove-trans_All :
      (x y : A) (ys : List A)
      → fl.lt (key x) (key y) ≡ false
      → All (NotAbove fl key y) ys
      → All (NotAbove fl key x) ys
  NotAbove-trans_All x y [] p h = tt
  NotAbove-trans_All x y (z ∷ ys) p h =
      (ordered.cotrans (key x) (key y) (key z) p h.0, NotAbove-trans_All x y ys p h.1)

  insert_desc-Descends :
      (x : A) (ys : List A) → Descends fl key ys → Descends fl key (insert_desc fl key x ys)
  unfolding insert_desc
  insert_desc-Descends x [] h = (tt, tt)
  insert_desc-Descends x (y ∷ ys) h = elim (Bool-cases (fl.lt (key x) (key y))) [
    | inl below ↦ rw below (
      insert_desc-All fl key (NotAbove fl key y) x ys (ordered.asym (key x) (key y) below) h.0,
      insert_desc-Descends x ys h.1,
    )
    | inr not_below ↦ rw not_below ((not_below, NotAbove-trans_All x y ys not_below h.0), h)
  ]

  pub sort_desc-Descends : (xs : List A) → Descends fl key (sort_desc fl key xs)
  unfolding sort_desc
  sort_desc-Descends [] = tt
  sort_desc-Descends (x ∷ xs) = insert_desc-Descends x (sort_desc fl key xs) (sort_desc-Descends xs)

  pub take-Descends : (n : ℕ) (xs : List A) → Descends fl key xs → Descends fl key (take n xs)
  take-Descends zero xs h = tt
  take-Descends (suc n) [] h = tt
  take-Descends (suc n) (x ∷ xs) h = (take-All (NotAbove fl key x) n xs h.0, take-Descends n xs h.1)
