-- ===== src/Prelude/Lists.antt =====
-- Lists measured and sliced by native numbers, under the library's names, and predicates on lists.
use Prim.Native.Nat.{ℕ, zero, suc, ◌+◌, ◌-◌, min}
use mathlib.Core.Path.{◌≡◌, ◌∙◌, refl, sym, ap}
use mathlib.Core.Logic.{◌⊎◌, inl, inr}
use mathlib.Core.List.{List, [], ◌∷◌, ◌++◌, map, append_assoc}
use mathlib.Core.Bool.{Bool, true, false}
use mathlib.Core.Option.{Option, none, some}
use native.Mathlib.Omega.{arith}
use fiqhmind_ai_backend.Prelude.Tests.{if◌then◌else◌, Bool-cases}

module _ {ℓ} {A : Type ℓ} where
  abbrev pub length : List A → ℕ
  length [] = 0
  length (x ∷ xs) = suc (length xs)

  abbrev pub get_elem? : List A → ℕ → Option A
  get_elem? [] i = none
  get_elem? (x ∷ xs) zero = some x
  get_elem? (x ∷ xs) (suc i) = get_elem? xs i

  abbrev pub take : ℕ → List A → List A
  take zero xs = []
  take (suc n) [] = []
  take (suc n) (x ∷ xs) = x ∷ take n xs

  abbrev pub drop : ℕ → List A → List A
  drop zero xs = xs
  drop (suc n) [] = []
  drop (suc n) (x ∷ xs) = drop n xs

  -- `[x for x in xs if p(x)]`
  abbrev pub select : (A → Bool) → List A → List A
  select p [] = []
  select p (x ∷ xs) = let rest = select p xs in if p x then x ∷ rest else rest

  -- `any(p(x) for x in xs)`
  abbrev pub any : (A → Bool) → List A → Bool
  any p [] = false
  any p (x ∷ xs) = if p x then true else any p xs

  abbrev pub last_or : A → List A → A
  last_or d [] = d
  last_or d (x ∷ xs) = last_or x xs

  pub length-append : (xs ys : List A) → length (xs ++ ys) ≡ length xs + length ys
  length-append [] ys = omega arith
  length-append (x ∷ xs) ys = omega (arith, length-append xs ys)

  pub take-append-drop : (n : ℕ) (xs : List A) → take n xs ++ drop n xs ≡ xs
  take-append-drop zero xs = refl
  take-append-drop (suc n) [] = refl
  take-append-drop (suc n) (x ∷ xs) = ap (◌∷◌ x) (take-append-drop n xs)

  pub length-take : (n : ℕ) (xs : List A) → length (take n xs) ≡ min n (length xs)
  length-take zero xs = omega arith
  length-take (suc n) [] = omega arith
  length-take (suc n) (x ∷ xs) = omega (arith, length-take n xs)

  pub length-drop : (n : ℕ) (xs : List A) → length (drop n xs) ≡ length xs - n
  length-drop zero xs = omega arith
  length-drop (suc n) [] = omega arith
  length-drop (suc n) (x ∷ xs) = omega (arith, length-drop n xs)

-- `[y for x in xs for y in f(x)]`
abbrev pub flat_map {ℓ κ} : {A : Type ℓ} {B : Type κ} → (A → List B) → List A → List B
flat_map f [] = []
flat_map f (x ∷ xs) = f x ++ flat_map f xs

abbrev pub concat {ℓ} : {A : Type ℓ} → List (List A) → List A
concat [] = []
concat (x ∷ xs) = x ++ concat xs

pub flat_map-append {ℓ κ} :
    {A : Type ℓ} {B : Type κ} (f : A → List B) (xs ys : List A)
    → flat_map f (xs ++ ys) ≡ flat_map f xs ++ flat_map f ys
flat_map-append f [] ys = refl
flat_map-append f (x ∷ xs) ys =
    ap (◌++◌ (f x)) (flat_map-append f xs ys)
    ∙ sym (append_assoc (f x) (flat_map f xs) (flat_map f ys))

-- Every element satisfies `P`; at data it computes to a tuple.
abbrev pub All {ℓ κ} : {A : Type ℓ} → (A → Type κ) → List A → Type κ
All P [] = Unit
All P (x ∷ xs) = P x × All P xs

module _ {ℓ κ} {A : Type ℓ} (P : A → Type κ) where
  pub All-append : (xs ys : List A) → All P xs → All P ys → All P (xs ++ ys)
  All-append [] ys h k = k
  All-append (x ∷ xs) ys h k = (h.0, All-append xs ys h.1 k)

  pub All-select : (p : A → Bool) (xs : List A) → All P xs → All P (select p xs)
  All-select p [] h = tt
  All-select p (x ∷ xs) h = elim (Bool-cases (p x)) [
    | inl stays ↦ rw stays (h.0, All-select p xs h.1)
    | inr goes ↦ rw goes (All-select p xs h.1)
  ]

module _ {ℓ κ μ} {A : Type ℓ} {B : Type κ} (f : A → B) (P : B → Type μ) where
  pub All-map : (xs : List A) → All (λ x. P (f x)) xs → All P (map f xs)
  All-map [] h = tt
  All-map (x ∷ xs) h = (h.0, All-map xs h.1)

-- `x` is an element of the list
abbrev pub Among : {A : Type 0} → A → List A → Type 0
Among x [] = ⊥
Among x (y ∷ ys) = (x ≡ y) ⊎ Among x ys

module _ {ℓ κ} {A : Type ℓ} (P Q : A → Type κ) where
  pub All-step : (xs : List A) → ((x : A) → P x → Q x) → All P xs → All Q xs
  All-step [] f h = tt
  All-step (x ∷ xs) f h = (f x h.0, All-step xs f h.1)

  pub All-both : (xs : List A) → All P xs → All Q xs → All (λ x. P x × Q x) xs
  All-both [] h k = tt
  All-both (x ∷ xs) h k = ((h.0, k.0), All-both xs h.1 k.1)

pub All-Among : {A : Type 0} (xs : List A) → All (λ x. Among x xs) xs
All-Among [] = tt
All-Among (x ∷ xs) =
    (inl refl, All-step (λ y. Among y xs) (λ y. Among y (x ∷ xs)) xs (λ y. inr) (All-Among xs))
