-- ===== src/Chunking/Engine/Coverage.antt =====
-- The pieces that `extract_chunks` packs: they respect the boundaries, and together they hold every
-- body unit once, in order.
use mathlib.Core.Path.{ap₂}
use native.Mathlib.Nat.{zero-add}
use fiqhmind_ai_backend.Prelude.{
  ℕ, zero, suc, ◌+◌, ◌-◌, ◌≤◌, ◌<◌, ◌≡◌, refl, ap, sym, ◌∙◌, inl, inr, Bool, true, false, some,
  List, [], ◌∷◌, ◌++◌, arith, ◌==◌, Bool-cases, length, get_elem?, take, drop, select, any,
  flat_map, flat_map-append, All,
}
use fiqhmind_ai_backend.Chunking.Types.{Level, BodyUnit}
use fiqhmind_ai_backend.Chunking.Ranges.Tiling.{
  OneOf, Tiles, Tiles-le, Avoids, ranges-Tiles, ranges-BeginsAt, BeginsAt-Avoids,
}
use fiqhmind_ai_backend.Chunking.Boundaries.{
  is_body, is_boundary, primary_level, boundary_levels, sub_levels, page_continues, boundary_starts,
  slice, body_units,
}
use fiqhmind_ai_backend.Chunking.Boundaries.Cuts.{
  boundary_starts-heading, boundary_starts-page_break, boundary_starts-Within, split_range-Tiles,
}
use fiqhmind_ai_backend.Chunking.Engine.{range_pieces, section_ranges, pieces}

suc-add : (m n : ℕ) → suc m + n ≡ suc (m + n)
suc-add m n = omega arith

module _ {ℓ} {A : Type ℓ} where
  select-append : (p : A → Bool) (xs ys : List A) → select p (xs ++ ys) ≡ select p xs ++ select p ys
  select-append p [] ys = refl
  select-append p (x ∷ xs) ys = ground (arith, select-append p xs ys)

  select_of_any-false : (p : A → Bool) (xs : List A) → any p xs ≡ false → select p xs ≡ []
  select_of_any-false p [] h = refl
  select_of_any-false p (x ∷ xs) h = ground (arith, select_of_any-false p xs)

  take-add : (m n : ℕ) (xs : List A) → take (m + n) xs ≡ take m xs ++ take n (drop m xs)
  take-add zero n xs = rw zero-add
  take-add (suc m) zero [] = rw suc-add
  take-add (suc m) (suc n) [] = rw suc-add
  take-add (suc m) n (x ∷ xs) = rw suc-add (ap (◌∷◌ x) (take-add m n xs))

  drop-add : (m n : ℕ) (xs : List A) → drop (m + n) xs ≡ drop n (drop m xs)
  drop-add zero n xs = rw zero-add
  drop-add (suc m) zero [] = rw suc-add
  drop-add (suc m) (suc n) [] = rw suc-add
  drop-add (suc m) n (x ∷ xs) = rw suc-add (drop-add m n xs)

  take_all : (xs : List A) → take (length xs) xs ≡ xs
  take_all [] = refl
  take_all (x ∷ xs) = ap (◌∷◌ x) (take_all xs)

slice-append :
    (units : List BodyUnit) (a b c : ℕ)
    → a ≤ b
    → b ≤ c
    → slice units (a, b) ++ slice units (b, c) ≡ slice units (a, c)
slice-append units a b c p q =
    let wide : c - a ≡ (b - a) + (c - b) = omega arith in
    let from_b : a + (b - a) ≡ b = omega arith in
    rw (wide, take-add (b - a) (c - b) (drop a units), ← drop-add a (b - a) units, from_b)

body_units-append :
    (units : List BodyUnit) (a b c : ℕ)
    → a ≤ b
    → b ≤ c
    → body_units units (a, b) ++ body_units units (b, c) ≡ body_units units (a, c)
body_units-append units a b c p q =
    sym (select-append is_body (slice units (a, b)) (slice units (b, c)))
    ∙ ap (select is_body) (slice-append units a b c p q)

body_units_all : (units : List BodyUnit) → body_units units (0, length units) ≡ select is_body units
body_units_all units =
    let whole : length units - 0 ≡ length units = omega arith in rw (whole, take_all units)

get_elem?-lt :
    (units : List BodyUnit) (i : ℕ) {unit : BodyUnit}
    → get_elem? units i ≡ some unit
    → i < length units
get_elem?-lt [] i e = cc
get_elem?-lt (u ∷ units) zero e = omega arith
get_elem?-lt (u ∷ units) (suc i) e = omega (arith, get_elem?-lt units i e)

-- The body units of a tiling are those of the interval.
body_units-Tiles :
    (units : List BodyUnit) (lo hi : ℕ) (rs : List (ℕ × ℕ))
    → Tiles lo hi rs
    → flat_map (body_units units) rs ≡ body_units units (lo, hi)
body_units-Tiles units lo hi [] t = let none_left : hi - lo ≡ 0 = omega arith in rw none_left
body_units-Tiles units lo hi (r ∷ rs) t =
    ap (◌++◌ (body_units units r)) (body_units-Tiles units r.1 hi rs t.2)
    ∙ rw t.0 (body_units-append units lo r.1 hi (omega arith) (Tiles-le r.1 hi rs t.2))

-- A range of the outer loop: its pieces hold its body units.
range_pieces-body_units :
    (units : List BodyUnit) (max_tokens : ℕ) (r : ℕ × ℕ)
    → r.0 < r.1
    → flat_map (body_units units) (range_pieces units max_tokens r) ≡ body_units units r
unfolding range_pieces
range_pieces-body_units units max_tokens r p = elim (Bool-cases (any is_body (slice units r))) [
  | inl some_body ↦ rw some_body (
      body_units-Tiles units r.0 r.1 _
        (split_range-Tiles units max_tokens (sub_levels (primary_level units)) r p))
  | inr no_body ↦ rw no_body (sym (select_of_any-false is_body (slice units r) no_body))
]

pieces_of_Tiles :
    (units : List BodyUnit) (max_tokens lo hi : ℕ) (rs : List (ℕ × ℕ))
    → Tiles lo hi rs
    → flat_map (body_units units) (flat_map (range_pieces units max_tokens) rs)
      ≡ flat_map (body_units units) rs
pieces_of_Tiles units max_tokens lo hi [] t = refl
pieces_of_Tiles units max_tokens lo hi (r ∷ rs) t =
    flat_map-append (body_units units) (range_pieces units max_tokens r) _
    ∙ ap₂ ◌++◌ (range_pieces-body_units units max_tokens r (omega arith))
        (pieces_of_Tiles units max_tokens r.1 hi rs t.2)

abbrev levels_of : BodyUnit → List BodyUnit → List Level
levels_of first rest = boundary_levels (primary_level (first ∷ rest))

abbrev cut_points : BodyUnit → List BodyUnit → List ℕ
cut_points first rest = boundary_starts first rest (levels_of first rest)

module _ (first : BodyUnit) (rest : List BodyUnit) where
  section_ranges-Tiles : Tiles 0 (length (first ∷ rest)) (section_ranges first rest)
  unfolding section_ranges
  section_ranges-Tiles =
      ranges-Tiles (cut_points first rest) (length (first ∷ rest)) 0 (omega arith)
        (boundary_starts-Within first rest (levels_of first rest))

  -- The pieces that are packed hold every body unit of the document once, in document order.
  pub body_units-pieces :
      (max_tokens : ℕ)
      → flat_map (body_units (first ∷ rest)) (pieces first rest max_tokens)
        ≡ select is_body (first ∷ rest)
  body_units-pieces max_tokens =
      pieces_of_Tiles (first ∷ rest) max_tokens 0 (length (first ∷ rest)) _ section_ranges-Tiles
      ∙ body_units-Tiles (first ∷ rest) 0 (length (first ∷ rest)) _ section_ranges-Tiles
      ∙ body_units_all (first ∷ rest)

  Avoids-cut :
      (n : ℕ)
      → n < length (first ∷ rest)
      → OneOf n (cut_points first rest)
      → All (Avoids n) (section_ranges first rest)
  unfolding section_ranges
  Avoids-cut n p cut = BeginsAt-Avoids 0 (length (first ∷ rest)) n _ section_ranges-Tiles (
      ranges-BeginsAt (cut_points first rest) (length (first ∷ rest)) 0 n (omega arith)
        (boundary_starts-Within first rest (levels_of first rest)) cut p)

  -- No chunk range goes on over a heading of the primary level or a coarser one.
  pub section_ranges-heading :
      (i : ℕ) (unit : BodyUnit)
      → get_elem? (first ∷ rest) i ≡ some unit
      → is_boundary (boundary_levels (primary_level (first ∷ rest))) unit ≡ true
      → All (Avoids i) (section_ranges first rest)
  section_ranges-heading i unit e h =
      Avoids-cut i (get_elem?-lt (first ∷ rest) i e)
        (boundary_starts-heading first rest (levels_of first rest) i unit e h)

  -- No chunk range goes on over the end of a page whose text ends with a sentence or a heading.
  pub section_ranges-page_break :
      (i : ℕ) (before unit : BodyUnit)
      → get_elem? (first ∷ rest) i ≡ some before
      → get_elem? (first ∷ rest) (suc i) ≡ some unit
      → (unit.pdf_page == before.pdf_page) ≡ false
      → page_continues (first ∷ rest) before.pdf_page ≡ false
      → All (Avoids (suc i)) (section_ranges first rest)
  section_ranges-page_break i before unit d e h k =
      Avoids-cut (suc i) (get_elem?-lt (first ∷ rest) (suc i) e)
        (boundary_starts-page_break first rest (levels_of first rest) i before unit d e h k)
