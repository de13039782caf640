-- ===== src/Retrieval/Dict.antt =====
-- Python dictionaries with string keys, in insertion order.
use text.Mathlib.Text.{◌==◌ as str_eq}
use text.Mathlib.TextEquality.{eq_iff}
use fiqhmind_ai_backend.Prelude.{
  ℕ, zero, suc, take, String, ◌≡◌, refl, inl, inr, false, Option, none, some, List, [], ◌∷◌, arith,
  if◌then◌else◌, Bool-cases, All,
}
use fiqhmind_ai_backend.Retrieval.Scores.{Floats}
use fiqhmind_ai_backend.Retrieval.Order.{
  insert_desc, sort_desc, insert_desc-All, sort_desc-All, take-All,
}

module _ {ℓ} {V : Type ℓ} where
  -- `d.get(k)`
  abbrev pub get : String → List (String × V) → Option V
  get k [] = none
  get k ((j, v) ∷ d) = if str_eq j k then some v else get k d

  -- `d[k] = v`: an old key keeps its place
  abbrev pub put : String → V → List (String × V) → List (String × V)
  put k v [] = (k, v) ∷ []
  put k v ((j, w) ∷ d) = if str_eq j k then (j, v) ∷ d else (j, w) ∷ put k v d

  -- `d.setdefault(k, v)`
  abbrev pub set_default : String → V → List (String × V) → List (String × V)
  set_default k v d = elim (get k d) [ none ↦ put k v d | some _ ↦ d ]

  pub get-put :
      (k j : String) (v : V) (d : List (String × V))
      → get j (put k v d) ≡ (if str_eq k j then some v else get j d)
  get-put k j v [] = refl
  get-put k j v ((i, w) ∷ d) = ground (arith, eq_iff k j, eq_iff i k, eq_iff i j, get-put k j v d)

-- No element after `x` has its name, and so on: the names are distinct.
module _ {ℓ} {A : Type ℓ} (name : A → String) where
  abbrev pub OtherName : String → A → Type 0
  OtherName n x = str_eq (name x) n ≡ false

  abbrev pub Distinct : List A → Type 0
  Distinct [] = Unit
  Distinct (x ∷ xs) = All (OtherName (name x)) xs × Distinct xs

str_eq_sym : (a b : String) → str_eq a b ≡ false → str_eq b a ≡ false
str_eq_sym a b h = ground (arith, eq_iff a b, eq_iff b a)

-- the key of an entry
abbrev pub key_of {ℓ} : {V : Type ℓ} → String × V → String
key_of e = e.0

module _ {ℓ} {V : Type ℓ} where
  put-OtherName :
      (k j : String) (v : V) (d : List (String × V))
      → str_eq k j ≡ false
      → All (OtherName key_of j) d
      → All (OtherName key_of j) (put k v d)
  put-OtherName k j v [] ne h = (ne, tt)
  put-OtherName k j v ((i, w) ∷ d) ne h = ground (arith, put-OtherName k j v d)

  pub put-Distinct :
      (k : String) (v : V) (d : List (String × V)) → Distinct key_of d → Distinct key_of (put k v d)
  put-Distinct k v [] h = (tt, tt)
  put-Distinct k v ((i, w) ∷ d) h = elim (Bool-cases (str_eq i k)) [
    | inl same ↦ rw same h
    | inr other ↦
        rw other (put-OtherName k i v d (str_eq_sym i k other) h.0, put-Distinct k v d h.1)
  ]

module _ (fl : Floats) {A : Type 0} (score : A → fl.F) (name : A → String) where
  insert_desc-Distinct :
      (x : A) (ys : List A)
      → All (OtherName name (name x)) ys
      → Distinct name ys
      → Distinct name (insert_desc fl score x ys)
  unfolding insert_desc
  insert_desc-Distinct x [] p h = (tt, tt)
  insert_desc-Distinct x (y ∷ ys) p h = elim (Bool-cases (fl.lt (score x) (score y))) [
    | inl below ↦ rw below (
      insert_desc-All fl score (OtherName name (name y)) x ys (str_eq_sym (name y) (name x) p.0)
          h.0,
      insert_desc-Distinct x ys p.1 h.1,
    )
    | inr not_below ↦ rw not_below (p, h)
  ]

  pub sort_desc-Distinct : (xs : List A) → Distinct name xs → Distinct name (sort_desc fl score xs)
  unfolding sort_desc
  sort_desc-Distinct [] h = tt
  sort_desc-Distinct (x ∷ xs) h =
      insert_desc-Distinct x (sort_desc fl score xs)
        (sort_desc-All fl score (OtherName name (name x)) xs h.0) (sort_desc-Distinct xs h.1)

module _ {A : Type 0} (name : A → String) where
  pub take-Distinct : (n : ℕ) (xs : List A) → Distinct name xs → Distinct name (take n xs)
  take-Distinct zero xs h = tt
  take-Distinct (suc n) [] h = tt
  take-Distinct (suc n) (x ∷ xs) h =
      (take-All (OtherName name (name x)) n xs h.0, take-Distinct n xs h.1)
