-- ===== src/Extraction/Slices/Split.antt =====
-- The slices of the workers are the pages.
use mathlib.Core.List.{append-nil}
use native.Mathlib.Nat.{div-add-mod, mod-lt, mul-le-mul_left}
use fiqhmind_ai_backend.Prelude.{
  ℕ, zero, suc, ◌+◌, ◌-◌, ◌*◌, ◌/◌, ◌≤◌, ◌<◌, max, min, ◌≡◌, refl, ap, subst, inl, inr, false, List,
  ◌∷◌, ◌++◌, ltb, ltb→lt, Bool-cases, leb, length, concat, All, All-step, arith,
}
use fiqhmind_ai_backend.Extraction.Slices.{range, slice_size, slices_from, partition_pages}

length-range : (a n : ℕ) → length (range a n) ≡ n
length-range a zero = refl
length-range a (suc n) = ap suc (length-range (suc a) n)

-- A range of `n` begins with a range of `k`, at most that many.
range-split : (k n a : ℕ) → k ≤ n → range a k ++ range (a + k) (n - k) ≡ range a n
range-split zero n a h =
    let start : a + 0 ≡ a = omega arith in
    let rest : n - 0 ≡ n = omega arith in rw (start, rest) refl
range-split (suc k) zero a h = absurd (omega arith)
range-split (suc k) (suc n) a h =
    let start : a + suc k ≡ suc a + k = omega arith in
    let rest : suc n - suc k ≡ n - k = omega arith in
    rw (start, rest) (ap (◌∷◌ a) (range-split k n (suc a) (omega arith)))

-- What a slice and those after it are together.
slice-split :
    (size total i : ℕ)
    → i < total
    → range i (min (i + size) total - i) ++ range (i + size) (total - (i + size))
      ≡ range i (total - i)
slice-split size total i more = elim (Bool-cases (leb (i + size) total)) [
  | inl within ↦
      let here : min (i + size) total - i ≡ size = ground arith in
      let rest : total - (i + size) ≡ (total - i) - size = omega arith in
      rw (here, rest) (range-split size (total - i) i (ground arith))
  | inr short ↦
      let here : min (i + size) total - i ≡ total - i = ground arith in
      let rest : total - (i + size) ≡ 0 = ground arith in
      rw (here, rest) (append-nil (range i (total - i)))
]

-- The slices from a page on.
concat-slices_from :
    (fuel size total i : ℕ)
    → 0 < size
    → total ≤ i + fuel
    → concat (slices_from fuel size total i) ≡ range i (total - i)
unfolding slices_from
concat-slices_from zero size total i positive enough =
    let none_left : total - i ≡ 0 = omega arith in rw none_left refl
concat-slices_from (suc fuel) size total i positive enough = elim (Bool-cases (ltb i total)) [
  | inl more ↦
      rw (more, concat-slices_from fuel size total (i + size) positive (omega arith))
        (slice-split size total i (ltb→lt i total more))
  | inr over ↦ let none_left : total - i ≡ 0 = ground arith in rw (over, none_left) refl
]

-- `size` pages to each of `workers` slices are enough for all pages.
slices_from-few :
    (fuel size total workers i : ℕ)
    → total ≤ i + workers * size
    → length (slices_from fuel size total i) ≤ workers
unfolding slices_from
slices_from-few zero size total workers i enough = omega arith
slices_from-few (suc fuel) size total zero i enough =
    let over : ltb i total ≡ false = ground arith in rw over (omega arith)
slices_from-few (suc fuel) size total (suc workers) i enough = elim (Bool-cases (ltb i total)) [
  | inl more ↦
      rw more (omega (arith, slices_from-few fuel size total workers (i + size) (omega arith)))
  | inr over ↦ rw over (omega arith)
]

-- a slice that is not empty, and no longer than a size
abbrev pub Fits : ℕ → List ℕ → Type 0
Fits size slice = (0 < length slice) × (length slice ≤ size)

slices_from-Fits :
    (fuel size total i : ℕ) → 0 < size → All (Fits size) (slices_from fuel size total i)
unfolding slices_from
slices_from-Fits zero size total i positive = tt
slices_from-Fits (suc fuel) size total i positive = elim (Bool-cases (ltb i total)) [
  | inl more ↦
      let long : length (range i (min (i + size) total - i)) ≡ min (i + size) total - i =
        length-range i (min (i + size) total - i) in
      rw more ((ground arith, ground arith), slices_from-Fits fuel size total (i + size) positive)
  | inr over ↦ rw over tt
]

slice_size-enough : (total workers : ℕ) → 0 < workers → total ≤ workers * slice_size total workers
slice_size-enough total workers positive = omega (
  arith,
  div-add-mod ((total + workers) - 1) workers,
  mod-lt ((total + workers) - 1) positive,
  mul-le-mul_left {m = ((total + workers) - 1) / workers} {n = slice_size total workers} workers
      (ground arith),
)

-- a slice with a page, and no more than a share of the pages rounded up: without one of its pages,
-- as many pages to each worker would be fewer than all
abbrev pub IsShare : ℕ → ℕ → List ℕ → Type 0
IsShare page_count workers slice = (0 < length slice) × ((length slice - 1) * workers < page_count)

share_of :
    (quotient k workers total : ℕ)
    → workers * quotient ≤ (total + workers) - 1
    → k - 1 ≤ quotient - 1
    → 0 < workers
    → 0 < total
    → (k - 1) * workers < total
share_of zero k workers total product few positive pages =
    let one : k - 1 ≡ 0 = omega arith in rw one (omega arith)
share_of (suc quotient) k workers total product few positive pages =
    let below : k - 1 ≤ quotient = omega arith in
    omega (arith, mul-le-mul_left {m = k - 1} {n = quotient} workers below, product)

Fits-IsShare :
    (total workers : ℕ) (slice : List ℕ)
    → 0 < workers
    → 0 < total
    → Fits (slice_size total workers) slice
    → IsShare total workers slice
Fits-IsShare total workers slice positive pages fits = (
  fits.0,
  share_of (((total + workers) - 1) / workers) (length slice) workers total
      (omega (arith, div-add-mod ((total + workers) - 1) workers)) (ground (arith, fits.1)) positive
      pages,
)

partition_pages-IsShare :
    (page_count workers : ℕ)
    → All (IsShare page_count (max 1 workers)) (partition_pages page_count workers)
unfolding partition_pages slices_from
partition_pages-IsShare zero workers = tt
partition_pages-IsShare (suc page_count) workers =
    let total = suc page_count in
    let size = slice_size total (max 1 workers) in
    All-step (Fits size) (IsShare total (max 1 workers)) (slices_from total size total 0)
      (λ slice. Fits-IsShare total (max 1 workers) slice (ground arith) (omega arith))
      (slices_from-Fits total size total 0 (ground arith))

-- The slices of `_partition_pages`, one after another, are the pages from 0 on in their order, each
-- once. There are no more slices than workers, of which there is one at least, and each slice has
-- a page and no more than `page_count / workers` rounded up: one page less, times the workers,
-- is below `page_count`.
pub partition_pages-IsPartition :
    (page_count workers : ℕ)
    → (concat (partition_pages page_count workers) ≡ range 0 page_count)
      × (length (partition_pages page_count workers) ≤ max 1 workers)
      × All (IsShare page_count (max 1 workers)) (partition_pages page_count workers)
unfolding partition_pages
partition_pages-IsPartition page_count workers =
    let size = slice_size page_count (max 1 workers) in
    let positive : 0 < size = ground arith in
    let pages : page_count - 0 ≡ page_count = omega arith in
    let whole = concat-slices_from page_count size page_count 0 positive (omega arith) in
    (
      subst (λ n. concat (slices_from page_count size page_count 0) ≡ range 0 n) pages whole,
      slices_from-few page_count size page_count (max 1 workers) 0
          (omega (arith, slice_size-enough page_count (max 1 workers) (ground arith))),
      partition_pages-IsShare page_count workers,
    )
