-- ===== src/Extraction/Runner/Counts.antt =====
-- How often a number is in a list, and how many rows a job has of a page.
use fiqhmind_ai_backend.Prelude.{
  ℕ, zero, suc, ◌+◌, ◌-◌, ◌≡◌, ◌∙◌, refl, ap, sym, inl, inr, Bool, false, not, List, [], ◌∷◌, ◌++◌,
  ◌==◌, ==_iff, subst, leb, ltb, Bool-cases, if◌then◌else◌, arith, map, select, any, ◌&&◌,
}
use fiqhmind_ai_backend.Extraction.Slices.{range}
use fiqhmind_ai_backend.Extraction.Rows.{
  PageExtraction, Work, is_of, insert_page, order_pages, list_pages,
}
use fiqhmind_ai_backend.Extraction.Runner.{is_persisted}

unfoldable pub count : ℕ → List ℕ → ℕ
count n [] = 0
count n (m ∷ ms) = if m == n then suc (count n ms) else count n ms

-- the rows of a page of a job
unfoldable pub copies : {F : Type 0} → ℕ → ℕ → List (PageExtraction F) → ℕ
copies job_id n [] = 0
copies job_id n (row ∷ rows) =
    let rest = copies job_id n rows in
    if row.job_id == job_id && row.page_number == n then suc rest else rest

pub count-append : (n : ℕ) (xs ys : List ℕ) → count n (xs ++ ys) ≡ count n xs + count n ys
unfolding count
count-append n [] ys = omega arith
count-append n (x ∷ xs) ys = ground (arith, count-append n xs ys)

pub copies-append :
    {F : Type 0} (job_id n : ℕ) (xs ys : List (PageExtraction F))
    → copies job_id n (xs ++ ys) ≡ copies job_id n xs + copies job_id n ys
unfolding copies
copies-append job_id n [] ys = omega arith
copies-append job_id n (x ∷ xs) ys = ground (arith, copies-append job_id n xs ys)

pub count-range : (n a k : ℕ) → count n (range a k) ≡ (if leb a n && ltb n (a + k) then 1 else 0)
unfolding count
count-range n a zero = ground arith
count-range n a (suc k) = ground (arith, count-range n (suc a) k)

count-select_same :
    (p : ℕ → Bool) (n : ℕ) (xs : List ℕ)
    → count n (select p xs) ≡ (if p n then count n xs else 0)
    → count n (select p (n ∷ xs)) ≡ (if p n then count n (n ∷ xs) else 0)
unfolding count
count-select_same p n xs later = elim (Bool-cases (p n)) [
  | inl taken ↦ rw taken (ground (arith, later))
  | inr skipped ↦ rw skipped (ground (arith, later))
]

count-select_other :
    (p : ℕ → Bool) (n x : ℕ) (xs : List ℕ)
    → (x == n) ≡ false
    → count n (select p xs) ≡ (if p n then count n xs else 0)
    → count n (select p (x ∷ xs)) ≡ (if p n then count n (x ∷ xs) else 0)
unfolding count
count-select_other p n x xs differ later = elim (Bool-cases (p x)) [
  | inl taken ↦ rw (taken, differ) (ground (arith, later))
  | inr skipped ↦ rw (skipped, differ) (ground (arith, later))
]

pub count-select :
    (p : ℕ → Bool) (n : ℕ) (xs : List ℕ) → count n (select p xs) ≡ (if p n then count n xs else 0)
unfolding count
count-select p n [] = ground arith
count-select p n (x ∷ xs) = elim (Bool-cases (x == n)) [
  | inl same ↦
      subst (λ m. count n (select p (m ∷ xs)) ≡ (if p n then count n (m ∷ xs) else 0))
        (sym ((==_iff x n).0 same)) (count-select_same p n xs (count-select p n xs))
  | inr differ ↦ count-select_other p n x xs differ (count-select p n xs)
]

-- the numbers from 1 on are not zero
pub suc-pred_range :
    (p : ℕ → Bool) (a k : ℕ)
    → map suc (map (λ n. n - 1) (select p (range (suc a) k))) ≡ select p (range (suc a) k)
suc-pred_range p a zero = refl
suc-pred_range p a (suc k) = elim (Bool-cases (p (suc a))) [
  | inl taken ↦
      let here : suc (suc a - 1) ≡ suc a = omega arith in
      let later = suc-pred_range p (suc a) k in rw (taken, here) (ap (◌∷◌ (suc a)) later)
  | inr skipped ↦ rw skipped (suc-pred_range p (suc a) k)
]

module _ {F : Type 0} (job_id n : ℕ) where
  abbrev is_page : PageExtraction F → Bool
  is_page row = row.page_number == n

  any-insert_page :
      (row : PageExtraction F) (rows : List (PageExtraction F))
      → any is_page (insert_page row rows) ≡ any is_page (row ∷ rows)
  unfolding insert_page
  any-insert_page row [] = refl
  any-insert_page row (next ∷ rows) = ground (arith, any-insert_page row rows)

  any-order_pages :
      (rows : List (PageExtraction F)) → any is_page (order_pages rows) ≡ any is_page rows
  unfolding order_pages
  any-order_pages [] = refl
  any-order_pages (row ∷ rows) =
      ground (arith, any-insert_page row (order_pages rows), any-order_pages rows)

  any-copies :
      (rows : List (PageExtraction F))
      → any is_page (select (is_of job_id) rows) ≡ not (copies job_id n rows == 0)
  unfolding copies
  any-copies [] = refl
  any-copies (row ∷ rows) = ground (arith, any-copies rows)

  pub is_persisted-copies :
      (w : Work F) → is_persisted (list_pages job_id w) n ≡ not (copies job_id n w.held.pages == 0)
  unfolding list_pages
  is_persisted-copies w =
      any-order_pages (select (is_of job_id) w.held.pages) ∙ any-copies w.held.pages
