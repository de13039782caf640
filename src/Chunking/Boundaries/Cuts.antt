-- ===== src/Chunking/Boundaries/Cuts.antt =====
-- Where `_boundary_starts` and `_split_range` cut.
use native.Mathlib.Nat.{add-zero}
use mathlib.Core.Path.{subst}
use fiqhmind_ai_backend.Prelude.{
  ℕ, zero, suc, ◌+◌, ◌-◌, ◌≤◌, ◌<◌, ◌≡◌, refl, inl, inr, true, false, some, List, [], ◌∷◌, ◌++◌,
  arith, leb, ◌==◌, if◌then◌else◌, Bool-cases, is_empty, length, get_elem?, drop, length-take,
  flat_map, All, All-append,
}
use fiqhmind_ai_backend.Chunking.Types.{Level, BodyUnit}
use fiqhmind_ai_backend.Chunking.Ranges.{insert_sorted, sorted_set}
use fiqhmind_ai_backend.Chunking.Ranges.Tiling.{
  Within, OneOf, Tiles, Tiles-append, ranges-Tiles, sorted_set-OneOf,
}
use fiqhmind_ai_backend.Chunking.Boundaries.{
  is_boundary, has_level, page_continues, starts_at, starts_from, boundary_starts, slice,
  body_units, unit_tokens, level_indices, split_range,
}

OneOf-append_left : (n : ℕ) (xs ys : List ℕ) → OneOf n xs → OneOf n (xs ++ ys)
OneOf-append_left n [] ys h = absurd h
OneOf-append_left n (x ∷ xs) ys (inl here) = inl here
OneOf-append_left n (x ∷ xs) ys (inr later) = inr (OneOf-append_left n xs ys later)

OneOf-append_right : (n : ℕ) (xs ys : List ℕ) → OneOf n ys → OneOf n (xs ++ ys)
OneOf-append_right n [] ys h = h
OneOf-append_right n (x ∷ xs) ys h = inr (OneOf-append_right n xs ys h)

OneOf-cast : (m n : ℕ) (xs : List ℕ) → m ≡ n → OneOf m xs → OneOf n xs
OneOf-cast m n xs e h = subst (λ k. OneOf k xs) e h

insert_sorted-Within :
    (lo hi n : ℕ) (xs : List ℕ)
    → Within lo hi n
    → All (Within lo hi) xs
    → All (Within lo hi) (insert_sorted n xs)
unfolding insert_sorted
insert_sorted-Within lo hi n [] p h = (p, tt)
insert_sorted-Within lo hi n (x ∷ xs) p h = ground (arith, insert_sorted-Within lo hi n xs)

sorted_set-Within :
    (lo hi : ℕ) (ns : List ℕ) → All (Within lo hi) ns → All (Within lo hi) (sorted_set ns)
unfolding sorted_set
sorted_set-Within lo hi [] h = tt
sorted_set-Within lo hi (n ∷ ns) h =
    insert_sorted-Within lo hi n (sorted_set ns) h.0 (sorted_set-Within lo hi ns h.1)

-- `current_page` after a unit
abbrev next_page : ℕ → BodyUnit → ℕ
next_page page unit = if unit.pdf_page == page then page else unit.pdf_page

next_page_lem : (page : ℕ) (unit : BodyUnit) → next_page page unit ≡ unit.pdf_page
next_page_lem page unit = ground arith

module _ (units : List BodyUnit) (levels : List Level) where
  starts_at-Within :
      (page index hi : ℕ) (unit : BodyUnit)
      → index ≤ hi
      → All (Within 0 hi) (starts_at units levels page index unit)
  starts_at-Within page index hi unit p = elim (Bool-cases (is_boundary levels unit)) [
    | inl heading ↦ rw heading (elim (Bool-cases (unit.pdf_page == page)) [
      | inl same ↦ rw same ((omega arith), tt)
      | inr other ↦ rw other (ground arith)
    ])
    | inr body ↦ rw body (ground arith)
  ]

  starts_from-Within :
      (page index hi : ℕ) (rest : List BodyUnit)
      → index + length rest ≤ hi
      → All (Within 0 hi) (starts_from units levels page index rest)
  unfolding starts_from
  starts_from-Within page index hi [] p = tt
  starts_from-Within page index hi (unit ∷ rest) p =
      All-append (Within 0 hi) (starts_at units levels page index unit) _
        (starts_at-Within page index hi unit (omega arith))
        (starts_from-Within (next_page page unit) (index + 1) hi rest (omega arith))

  starts_at-heading :
      (page index : ℕ) (unit : BodyUnit)
      → is_boundary levels unit ≡ true
      → OneOf index (starts_at units levels page index unit)
  starts_at-heading page index unit h = rw h (inl refl)

  starts_at-page_break :
      (page index : ℕ) (unit : BodyUnit)
      → (unit.pdf_page == page) ≡ false
      → page_continues units page ≡ false
      → OneOf index (starts_at units levels page index unit)
  starts_at-page_break page index unit h k = elim (Bool-cases (is_boundary levels unit)) [
    | inl heading ↦ starts_at-heading page index unit heading
    | inr body ↦ rw (body, h, k) (inl refl)
  ]

  starts_from-heading :
      (page index i : ℕ) (rest : List BodyUnit) (unit : BodyUnit)
      → get_elem? rest i ≡ some unit
      → is_boundary levels unit ≡ true
      → OneOf (index + i) (starts_from units levels page index rest)
  unfolding starts_from
  starts_from-heading page index i [] unit e h = cc
  starts_from-heading page index zero (u ∷ rest) unit e h =
      OneOf-append_left _ (starts_at units levels page index u) _
        (rw add-zero (starts_at-heading page index u (ground arith)))
  starts_from-heading page index (suc i) (u ∷ rest) unit e h =
      OneOf-append_right _ (starts_at units levels page index u) _ (
        OneOf-cast ((index + 1) + i) (index + suc i) _ (omega arith)
          (starts_from-heading (next_page page u) (index + 1) i rest unit e h))

  starts_from-page_break :
      (page index i : ℕ) (rest : List BodyUnit) (before unit : BodyUnit)
      → get_elem? rest i ≡ some before
      → get_elem? rest (suc i) ≡ some unit
      → (unit.pdf_page == before.pdf_page) ≡ false
      → page_continues units before.pdf_page ≡ false
      → OneOf (index + suc i) (starts_from units levels page index rest)
  unfolding starts_from
  starts_from-page_break page index i [] before unit d e h k = cc
  starts_from-page_break page index zero (u ∷ []) before unit d e h k = cc
  starts_from-page_break page index zero (u ∷ v ∷ rest) before unit d e h k =
      let same_u : u ≡ before = cc in
      let same_v : v ≡ unit = cc in
      OneOf-append_right _ (starts_at units levels page index u) _ (
        OneOf-append_left _ (starts_at units levels (next_page page u) (index + 1) v) _ (
          starts_at-page_break (next_page page u) (index + 1) v
            (rw (next_page_lem page u, same_u, same_v) h) (rw (next_page_lem page u, same_u) k)))
  starts_from-page_break page index (suc i) (u ∷ rest) before unit d e h k =
      OneOf-append_right _ (starts_at units levels page index u) _ (
        OneOf-cast ((index + 1) + suc i) (index + suc (suc i)) _ (omega arith)
          (starts_from-page_break (next_page page u) (index + 1) i rest before unit d e h k))

-- Every heading of a boundary level is a cut point.
pub boundary_starts-heading :
    (first : BodyUnit) (rest : List BodyUnit) (levels : List Level) (i : ℕ) (unit : BodyUnit)
    → get_elem? (first ∷ rest) i ≡ some unit
    → is_boundary levels unit ≡ true
    → OneOf i (boundary_starts first rest levels)
unfolding boundary_starts
boundary_starts-heading first rest levels i unit e h = sorted_set-OneOf i _ (
    OneOf-cast (0 + i) (i) _ (omega arith)
      (starts_from-heading (first ∷ rest) levels first.pdf_page 0 i (first ∷ rest) unit e h))

pub boundary_starts-page_break :
    (first : BodyUnit) (rest : List BodyUnit) (levels : List Level) (i : ℕ) (before unit : BodyUnit)
    → get_elem? (first ∷ rest) i ≡ some before
    → get_elem? (first ∷ rest) (suc i) ≡ some unit
    → (unit.pdf_page == before.pdf_page) ≡ false
    → page_continues (first ∷ rest) before.pdf_page ≡ false
    → OneOf (suc i) (boundary_starts first rest levels)
unfolding boundary_starts
boundary_starts-page_break first rest levels i before unit d e h k = sorted_set-OneOf (suc i) _ (
    OneOf-cast (0 + suc i) (suc i) _ (omega arith) (
      starts_from-page_break (first ∷ rest) levels first.pdf_page 0 i (first ∷ rest) before unit d e
        h k))

pub boundary_starts-Within :
    (first : BodyUnit) (rest : List BodyUnit) (levels : List Level)
    → All (Within 0 (length (first ∷ rest))) (boundary_starts first rest levels)
unfolding boundary_starts
boundary_starts-Within first rest levels = sorted_set-Within 0 (length (first ∷ rest)) _ (
    starts_from-Within (first ∷ rest) levels first.pdf_page 0 (length (first ∷ rest)) (first ∷ rest)
      (omega arith))

level_indices-Within :
    (level : Level) (lo hi index : ℕ) (units : List BodyUnit)
    → lo ≤ index
    → index + length units ≤ hi
    → All (Within lo hi) (level_indices level index units)
level_indices-Within level lo hi index [] p q = tt
level_indices-Within level lo hi index (unit ∷ units) p q =
    let later : All (Within lo hi) (level_indices level (index + 1) units) =
      level_indices-Within level lo hi (index + 1) units (omega arith) (omega arith) in
    elim (Bool-cases (has_level level unit)) [
      | inl here ↦ rw here ((p, omega arith), later)
      | inr other ↦ rw other later
    ]

length-slice : (units : List BodyUnit) (r : ℕ × ℕ) → length (slice units r) ≤ r.1 - r.0
length-slice units r = omega (arith, length-take (r.1 - r.0) (drop r.0 units))

flat_map-Tiles :
    (f : ℕ × ℕ → List (ℕ × ℕ)) (lo hi : ℕ) (rs : List (ℕ × ℕ))
    → ((r : ℕ × ℕ) → r.0 < r.1 → Tiles r.0 r.1 (f r))
    → Tiles lo hi rs
    → Tiles lo hi (flat_map f rs)
flat_map-Tiles f lo hi [] each t = t
flat_map-Tiles f lo hi (r ∷ rs) each t =
    Tiles-append lo r.1 hi (f r) (flat_map f rs) (rw (← t.0) (each r t.1))
      (flat_map-Tiles f r.1 hi rs each t.2)

-- The pieces of a range tile it.
pub split_range-Tiles :
    (units : List BodyUnit) (max_tokens : ℕ) (levels : List Level) (r : ℕ × ℕ)
    → r.0 < r.1
    → Tiles r.0 r.1 (split_range units max_tokens levels r)
unfolding split_range
split_range-Tiles units max_tokens [] r p = (refl, p, refl)
split_range-Tiles units max_tokens (level ∷ levels) r p =
    elim (Bool-cases (leb (unit_tokens (body_units units r)) max_tokens)) [
      | inl small ↦ rw small (refl, p, refl)
      | inr large ↦
          rw large (elim (Bool-cases (is_empty (level_indices level r.0 (slice units r)))) [
            | inl whole ↦ rw whole (refl, p, refl)
            | inr cut ↦ rw cut (
                flat_map-Tiles (split_range units max_tokens levels) r.0 r.1 _
                  (split_range-Tiles units max_tokens levels)
                  (ranges-Tiles (level_indices level r.0 (slice units r)) r.1 r.0 (omega arith) (
                    level_indices-Within level r.0 r.1 r.0 (slice units r) (omega arith)
                      (omega (arith, length-slice units r)))))
          ])
    ]
