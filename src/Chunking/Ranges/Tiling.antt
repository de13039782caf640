-- ===== src/Chunking/Ranges/Tiling.antt =====
-- The ranges tile the interval, and every cut point begins one of them.
use fiqhmind_ai_backend.Prelude.{
  ℕ, ◌≤◌, ◌<◌, ◌≡◌, refl, ◌⊎◌, inl, inr, List, [], ◌∷◌, ◌++◌, arith, All,
}
use fiqhmind_ai_backend.Chunking.Ranges.{
  insert_sorted, sorted_set, dedupe_after, pairs_after, ranges,
}

-- The ranges follow one another from `lo` up to `hi`, and none is empty.
abbrev pub Tiles : ℕ → ℕ → List (ℕ × ℕ) → Type 0
Tiles lo hi [] = lo ≡ hi
Tiles lo hi (r ∷ rs) = (r.0 ≡ lo) × (r.0 < r.1) × Tiles r.1 hi rs

-- Some range begins at `n`.
abbrev pub BeginsAt : ℕ → List (ℕ × ℕ) → Type 0
BeginsAt n [] = ⊥
BeginsAt n (r ∷ rs) = (r.0 ≡ n) ⊎ BeginsAt n rs

abbrev pub OneOf : ℕ → List ℕ → Type 0
OneOf n [] = ⊥
OneOf n (x ∷ xs) = (n ≡ x) ⊎ OneOf n xs

-- Numbers that do not fall, between `lo` and `hi`.
abbrev Climbs : ℕ → ℕ → List ℕ → Type 0
Climbs lo hi [] = lo ≤ hi
Climbs lo hi (x ∷ xs) = (lo ≤ x) × Climbs x hi xs

insert_sorted-Climbs :
    (lo hi n : ℕ) (xs : List ℕ)
    → lo ≤ n
    → n ≤ hi
    → Climbs lo hi xs
    → Climbs lo hi (insert_sorted n xs)
unfolding insert_sorted
insert_sorted-Climbs lo hi n [] p q c = (p, q)
insert_sorted-Climbs lo hi n (x ∷ xs) p q c = ground (arith, insert_sorted-Climbs x hi n xs)

abbrev pub Within : ℕ → ℕ → ℕ → Type 0
Within lo hi n = (lo ≤ n) × (n ≤ hi)

sorted_set-Climbs :
    (lo hi : ℕ) (ns : List ℕ) → lo ≤ hi → All (Within lo hi) ns → Climbs lo hi (sorted_set ns)
unfolding sorted_set
sorted_set-Climbs lo hi [] p h = p
sorted_set-Climbs lo hi (n ∷ ns) p h =
    insert_sorted-Climbs lo hi n (sorted_set ns) h.0.0 h.0.1 (sorted_set-Climbs lo hi ns p h.1)

insert_sorted-OneOf_self : (n : ℕ) (xs : List ℕ) → OneOf n (insert_sorted n xs)
unfolding insert_sorted
insert_sorted-OneOf_self n [] = inl refl
insert_sorted-OneOf_self n (x ∷ xs) = ground (arith, insert_sorted-OneOf_self n xs)

insert_sorted-OneOf : (m n : ℕ) (xs : List ℕ) → OneOf m xs → OneOf m (insert_sorted n xs)
unfolding insert_sorted
insert_sorted-OneOf m n (x ∷ xs) h = ground (arith, insert_sorted-OneOf m n xs)
insert_sorted-OneOf m n [] h = absurd h

pub sorted_set-OneOf : (m : ℕ) (ns : List ℕ) → OneOf m ns → OneOf m (sorted_set ns)
unfolding sorted_set
sorted_set-OneOf m [] h = absurd h
sorted_set-OneOf m (n ∷ ns) (inl same) = rw same (insert_sorted-OneOf_self n (sorted_set ns))
sorted_set-OneOf m (n ∷ ns) (inr later) =
    insert_sorted-OneOf m n (sorted_set ns) (sorted_set-OneOf m ns later)

-- the ranges between the bounds `lo`, `xs` and `hi`
abbrev between : ℕ → List ℕ → ℕ → List (ℕ × ℕ)
between lo xs hi = pairs_after lo (dedupe_after lo (xs ++ hi ∷ []))

between-Tiles : (lo hi : ℕ) (xs : List ℕ) → Climbs lo hi xs → Tiles lo hi (between lo xs hi)
unfolding pairs_after dedupe_after
between-Tiles lo hi [] c = ground arith
between-Tiles lo hi (x ∷ xs) c = ground (arith, between-Tiles lo hi xs, between-Tiles x hi xs)

Tiles-BeginsAt : (lo hi : ℕ) (rs : List (ℕ × ℕ)) → lo < hi → Tiles lo hi rs → BeginsAt lo rs
Tiles-BeginsAt lo hi [] p t = absurd (omega arith)
Tiles-BeginsAt lo hi (r ∷ rs) p t = inl t.0

Climbs-le : (lo hi : ℕ) (xs : List ℕ) → Climbs lo hi xs → (n : ℕ) → OneOf n xs → lo ≤ n
Climbs-le lo hi [] c n h = absurd h
Climbs-le lo hi (x ∷ xs) c n (inl same) = omega arith
Climbs-le lo hi (x ∷ xs) c n (inr later) = omega (arith, Climbs-le x hi xs c.1 n later)

between-BeginsAt :
    (lo hi n : ℕ) (xs : List ℕ)
    → Climbs lo hi xs
    → OneOf n xs
    → n < hi
    → BeginsAt n (between lo xs hi)
unfolding pairs_after dedupe_after
between-BeginsAt lo hi n [] c h p = absurd h
between-BeginsAt lo hi n (x ∷ xs) c (inl same) p = ground (
  arith,
  Tiles-BeginsAt lo hi (between lo xs hi),
  Tiles-BeginsAt x hi (between x xs hi),
  between-Tiles lo hi xs,
  between-Tiles x hi xs,
)
between-BeginsAt lo hi n (x ∷ xs) c (inr later) p =
    ground (arith, between-BeginsAt lo hi n xs, between-BeginsAt x hi n xs)

-- With all cut points in the interval the ranges tile it: they are not empty, they follow one
-- another, and they reach from the start to the end.
pub ranges-Tiles :
    (starts : List ℕ) (length start : ℕ)
    → start ≤ length
    → All (Within start length) starts
    → Tiles start length (ranges starts length start)
unfolding ranges
ranges-Tiles starts length start p h =
    between-Tiles start length (sorted_set starts) (sorted_set-Climbs start length starts p h)

-- Every cut point before the end begins a range.
pub ranges-BeginsAt :
    (starts : List ℕ) (length start n : ℕ)
    → start ≤ length
    → All (Within start length) starts
    → OneOf n starts
    → n < length
    → BeginsAt n (ranges starts length start)
unfolding ranges
ranges-BeginsAt starts length start n p h one below =
    between-BeginsAt start length n (sorted_set starts) (sorted_set-Climbs start length starts p h)
      (sorted_set-OneOf n starts one) below

pub Tiles-le : (lo hi : ℕ) (rs : List (ℕ × ℕ)) → Tiles lo hi rs → lo ≤ hi
Tiles-le lo hi [] t = omega arith
Tiles-le lo hi (r ∷ rs) t = omega (arith, Tiles-le r.1 hi rs t.2)

BeginsAt-le : (lo hi n : ℕ) (rs : List (ℕ × ℕ)) → Tiles lo hi rs → BeginsAt n rs → lo ≤ n
BeginsAt-le lo hi n [] t b = absurd b
BeginsAt-le lo hi n (r ∷ rs) t (inl here) = omega arith
BeginsAt-le lo hi n (r ∷ rs) t (inr later) = omega (arith, BeginsAt-le r.1 hi n rs t.2 later)

-- No range has `n` strictly inside it.
abbrev pub Avoids : ℕ → ℕ × ℕ → Type 0
Avoids n r = (n ≤ r.0) ⊎ (r.1 ≤ n)

All-Avoids_below : (lo hi n : ℕ) (rs : List (ℕ × ℕ)) → Tiles lo hi rs → n ≤ lo → All (Avoids n) rs
All-Avoids_below lo hi n [] t p = tt
All-Avoids_below lo hi n (r ∷ rs) t p =
    (inl (omega arith), All-Avoids_below r.1 hi n rs t.2 (omega arith))

-- A tiling that has a range beginning at `n` has no range that `n` cuts.
pub BeginsAt-Avoids :
    (lo hi n : ℕ) (rs : List (ℕ × ℕ)) → Tiles lo hi rs → BeginsAt n rs → All (Avoids n) rs
BeginsAt-Avoids lo hi n [] t b = tt
BeginsAt-Avoids lo hi n (r ∷ rs) t (inl here) =
    (inl (omega arith), All-Avoids_below r.1 hi n rs t.2 (omega arith))
BeginsAt-Avoids lo hi n (r ∷ rs) t (inr later) =
    (inr (BeginsAt-le r.1 hi n rs t.2 later), BeginsAt-Avoids r.1 hi n rs t.2 later)

-- Tilings of neighbouring intervals, put together.
pub Tiles-append :
    (lo mid hi : ℕ) (rs qs : List (ℕ × ℕ))
    → Tiles lo mid rs
    → Tiles mid hi qs
    → Tiles lo hi (rs ++ qs)
Tiles-append lo mid hi [] qs t u = rw t u
Tiles-append lo mid hi (r ∷ rs) qs t u = (t.0, t.1, Tiles-append r.1 mid hi rs qs t.2 u)
