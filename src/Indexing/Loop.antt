-- ===== src/Indexing/Loop.antt =====
-- The loop of the indexing: what holds of the points of the store through it, and that it puts each
-- point there.
use fiqhmind_ai_backend.Prelude.{
  ℕ, zero, suc, ◌+◌, ◌≤◌, ◌≡◌, ◌∙◌, refl, ap, sym, inl, inr, true, false, not, List, [], ◌∷◌, ◌++◌,
  ◌==◌, Bool-cases, if◌then◌else◌, All, All-select, All-append, All-step, any, arith, concat, drop,
  length, select, max, min,
}
use fiqhmind_ai_backend.Indexing.{
  Point, batches_from, batches, Index, upsert_point, upsert_points, index_batches,
}

module _ {A : Type 0} (P : A → Type 0) where
  All-split : (xs ys : List A) → All P (xs ++ ys) → All P xs × All P ys
  All-split [] ys h = (tt, h)
  All-split (x ∷ xs) ys h = let rest = All-split xs ys h.1 in ((h.0, rest.0), rest.1)

length-batches_from :
    {A : Type 0} (fuel size : ℕ) (xs : List A) → length (batches_from fuel size xs) ≤ fuel
unfolding batches_from
length-batches_from zero size xs = omega arith
length-batches_from (suc fuel) size [] = omega arith
length-batches_from (suc fuel) size (x ∷ xs) =
    omega (arith, length-batches_from fuel size (drop size (x ∷ xs)))

differ_too : (a b c : ℕ) → (a == c) ≡ true → (b == c) ≡ false → (a == b) ≡ false
differ_too a b c same differ = ground arith

same_id : (a : ℕ) → (a == a) ≡ true
same_id a = ground arith

pub length-batches : {A : Type 0} (size : ℕ) (xs : List A) → length (batches size xs) ≤ length xs
unfolding batches
length-batches size xs = length-batches_from (length xs) (max 1 size) xs

module _ {E : Type 0} where
  -- The store has a point with an id.
  abbrev Has : ℕ → List (Point E) → Type 0
  Has id points = any (λ q. q.id == id) points ≡ true

  Has-append :
      (id : ℕ) (p : Point E) (points : List (Point E))
      → (p.id == id) ≡ true
      → Has id (points ++ p ∷ [])
  Has-append id p [] same = rw same refl
  Has-append id p (x ∷ points) same = elim (Bool-cases (x.id == id)) [
    | inl here ↦ rw here refl
    | inr other ↦ rw other (Has-append id p points same)
  ]

  Has-tail :
      (id : ℕ) (x : Point E) (points : List (Point E))
      → (x.id == id) ≡ false
      → Has id (x ∷ points)
      → Has id points
  Has-tail id x points other h =
      sym (ap (λ b. if b then true else any (λ q. q.id == id) points) other) ∙ h

  Has-replace :
      (id : ℕ) (p : Point E) (points : List (Point E))
      → (p.id == id) ≡ false
      → Has id points
      → Has id (select (λ q. not (q.id == p.id)) points ++ p ∷ [])
  Has-replace id p [] differ h = absurd (ground arith)
  Has-replace id p (x ∷ points) differ h = elim (Bool-cases (x.id == id)) [
    | inl here ↦ rw (differ_too x.id p.id id here differ) (rw here refl)
    | inr other ↦
        let rest = Has-replace id p points differ (Has-tail id x points other h) in
        elim (Bool-cases (x.id == p.id)) [
          | inl replaced ↦ rw replaced rest
          | inr stays ↦ rw stays (rw other rest)
        ]
  ]

  Has-upsert_point :
      (id : ℕ) (p : Point E) (points : List (Point E))
      → Has id points
      → Has id (upsert_point p points)
  unfolding upsert_point
  Has-upsert_point id p points h = elim (Bool-cases (p.id == id)) [
    | inl same ↦ Has-append id p (select (λ q. not (q.id == p.id)) points) same
    | inr differ ↦ Has-replace id p points differ h
  ]

  Has-upsert_points :
      (id : ℕ) (batch points : List (Point E)) → Has id points → Has id (upsert_points batch points)
  unfolding upsert_points
  Has-upsert_points id [] points h = h
  Has-upsert_points id (p ∷ batch) points h =
      Has-upsert_points id batch (upsert_point p points) (Has-upsert_point id p points h)

  -- Every point of a batch is there after it.
  All-Has-upsert_points :
      (batch points : List (Point E)) → All (λ p. Has p.id (upsert_points batch points)) batch
  unfolding upsert_points upsert_point
  All-Has-upsert_points [] points = tt
  All-Has-upsert_points (p ∷ batch) points = (
    Has-upsert_points p.id batch (upsert_point p points)
        (Has-append p.id p (select (λ q. not (q.id == p.id)) points) (same_id p.id)),
    All-Has-upsert_points batch (upsert_point p points),
  )

  Has-index_batches :
      (percent : ℕ → ℕ → ℕ) (answered total done : ℕ) (parts : List (List (Point E))) (s : Index E)
      (id : ℕ)
      → Has id s.points
      → Has id (index_batches percent answered total done parts s).1.points
  unfolding index_batches
  Has-index_batches percent answered total done [] s id h = h
  Has-index_batches percent zero total done (batch ∷ rest) s id h = h
  Has-index_batches percent (suc answered) total done (batch ∷ rest) s id h =
      Has-index_batches percent answered total (done + length batch) rest _ id
        (Has-upsert_points id batch s.points h)

  -- Where the store answers the call of each batch, the loop ends with every point there.
  pub Completes-index_batches :
      (percent : ℕ → ℕ → ℕ) (answered total done : ℕ) (parts : List (List (Point E))) (s : Index E)
      → length parts ≤ answered
      → ((index_batches percent answered total done parts s).0 ≡ true)
        × All
            (λ p. Has p.id (index_batches percent answered total done parts s).1.points)
            (concat parts)
  unfolding index_batches
  Completes-index_batches percent answered total done [] s enough = (refl, tt)
  Completes-index_batches percent zero total done (batch ∷ rest) s enough = absurd (omega arith)
  Completes-index_batches percent (suc answered) total done (batch ∷ rest) s enough =
      let after : Index E = record {
        points = upsert_points batch s.points;
        progress_percent = min 99 (percent (done + length batch) total);
      } in
      let ends =
        Completes-index_batches percent answered total (done + length batch) rest after
          (omega arith) in
      (
        ends.0,
        All-append _ batch (concat rest)
            (All-step _ _ batch
              (λ p. Has-index_batches percent answered total (done + length batch) rest after p.id)
              (All-Has-upsert_points batch s.points))
            ends.1,
      )

module _ {E : Type 0} (P : Point E → Type 0) where
  All-upsert_points :
      (batch points : List (Point E))
      → All P batch
      → All P points
      → All P (upsert_points batch points)
  unfolding upsert_points upsert_point
  All-upsert_points [] points h k = k
  All-upsert_points (p ∷ batch) points h k = All-upsert_points batch (upsert_point p points) h.1 (
      All-append P (select (λ q. not (q.id == p.id)) points) (p ∷ [])
        (All-select P (λ q. not (q.id == p.id)) points k) (h.0, tt))

  pub All-index_batches :
      (percent : ℕ → ℕ → ℕ) (answered total done : ℕ) (parts : List (List (Point E))) (s : Index E)
      → All P (concat parts)
      → All P s.points
      → All P (index_batches percent answered total done parts s).1.points
  unfolding index_batches
  All-index_batches percent answered total done [] s h k = k
  All-index_batches percent zero total done (batch ∷ rest) s h k = k
  All-index_batches percent (suc answered) total done (batch ∷ rest) s h k =
      let both = All-split P batch (concat rest) h in
      All-index_batches percent answered total (done + length batch) rest _ both.1
        (All-upsert_points batch s.points both.0 k)
