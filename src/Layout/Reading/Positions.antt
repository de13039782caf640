-- ===== src/Layout/Reading/Positions.antt =====
-- The reading order numbers the blocks of a page.
use mathlib.Core.List.{
  Perm, Nodup, Nodup-cons, Mem, mem-cons_self, mem-cons_of_mem, foldr, append_assoc,
  perm_append_comm, perm_middle,
}
use mathlib.Core.List.Perm
use native.Mathlib.Nat.{ℕ_set}
use fiqhmind_ai_backend.Prelude.{
  ℕ, suc, ◌≡◌, ◌∙◌, refl, ap, sym, subst, inl, inr, Bool, true, false, not, ◌&&◌, List, [], ◌∷◌,
  ◌++◌, ◌==◌, ==_iff, if◌then◌else◌, Bool-cases, All, arith, map, concat, select, flat_map, length,
}
use fiqhmind_ai_backend.Extraction.Types.{Floating, BlockInfo, PageInfo}
use fiqhmind_ai_backend.Extraction.Slices.{range}
use fiqhmind_ai_backend.Layout.Sort.{insert_by, sort_by, sort_by-Perm}
use fiqhmind_ai_backend.Layout.Columns.{cluster_columns, index_of}
use fiqhmind_ai_backend.Layout.Columns.Clustering.{cluster_columns-IsColumn}
use fiqhmind_ai_backend.Layout.Reading.{
  Direction, starts_in_header, ends_in_footer, is_between, reading_sequence, assign_positions,
  position_or, top_left_lt, rounded_lt, column_precedes, reading_order,
}

length-foldr : {A : Type 0} (xs : List A) → length xs ≡ foldr (λ _ n. suc n) 0 xs
length-foldr [] = refl
length-foldr (x ∷ xs) = ap suc (length-foldr xs)

Perm-length : {A : Type 0} (xs ys : List A) → Perm xs ys → length xs ≡ length ys
Perm-length xs ys p =
    length-foldr xs ∙ Perm.foldr-eq ℕ_set (λ _ n. suc n) (λ a b n. refl) p 0 ∙ sym (length-foldr ys)

module _ {A : Type 0} where
  -- Three tests of which each element passes one share out a list.
  three-Perm :
      (first between last : A → Bool) (xs : List A)
      → All (λ x. between x ≡ (not (first x) && not (last x))) xs
      → All (λ x. (first x && last x) ≡ false) xs
      → Perm (select first xs ++ (select between xs ++ select last xs)) xs
  three-Perm first between last [] e h = Perm.refl []
  three-Perm first between last (x ∷ xs) e h =
      share (first x) (last x) (between x) e.0 h.0 (three-Perm first between last xs e.1 h.1)
    where
      share :
          (f l b : Bool)
          → b ≡ (not f && not l)
          → (f && l) ≡ false
          → Perm (select first xs ++ (select between xs ++ select last xs)) xs
          → Perm
              ((if f then x ∷ select first xs else select first xs)
                ++ ((if b then x ∷ select between xs else select between xs)
                    ++ (if l then x ∷ select last xs else select last xs)))
              (x ∷ xs)
      share true true b e h p = cc
      share true false b e h p = rw e (Perm.cons x p)
      share false true b e h p = rw e (
          Perm.trans
            (Perm.append_left (select first xs)
              (perm_middle {a = x} (select between xs) (select last xs)))
            (Perm.trans
              (perm_middle {a = x} (select first xs) (select between xs ++ select last xs))
              (Perm.cons x p)))
      share false false b e h p = rw e (
          Perm.trans (perm_middle {a = x} (select first xs) (select between xs ++ select last xs))
            (Perm.cons x p))

  concat_insert-Perm :
      (precedes : List A → List A → Bool) (x : List A) (ys : List (List A))
      → Perm (concat (insert_by precedes x ys)) (x ++ concat ys)
  unfolding insert_by
  concat_insert-Perm precedes x [] = Perm.refl (x ++ [])
  concat_insert-Perm precedes x (y ∷ ys) = elim (Bool-cases (precedes y x)) [
    | inl first ↦ rw first (
        Perm.trans (Perm.append_left y (concat_insert-Perm precedes x ys)) (
          rw (← append_assoc y x (concat ys), ← append_assoc x y (concat ys))
            (Perm.append_right (concat ys) (perm_append_comm y x))))
    | inr not_first ↦ rw not_first (Perm.refl (x ++ (y ++ concat ys)))
  ]

  concat_sort-Perm :
      (precedes : List A → List A → Bool) (xss : List (List A))
      → Perm (concat (sort_by precedes xss)) (concat xss)
  unfolding sort_by
  concat_sort-Perm precedes [] = Perm.refl []
  concat_sort-Perm precedes (xs ∷ xss) =
      Perm.trans (concat_insert-Perm precedes xs (sort_by precedes xss))
        (Perm.append_left xs (concat_sort-Perm precedes xss))

  flat_map_sort-Perm :
      (precedes : A → A → Bool) (xss : List (List A))
      → Perm (flat_map (sort_by precedes) xss) (concat xss)
  flat_map_sort-Perm precedes [] = Perm.refl []
  flat_map_sort-Perm precedes (xs ∷ xss) =
      Perm.append (sort_by-Perm precedes xs) (flat_map_sort-Perm precedes xss)

module _ (fl : Floating) where
  abbrev pub InOneBand : PageInfo fl.F → BlockInfo fl.F → Type 0
  InOneBand page block = (starts_in_header fl page block && ends_in_footer fl page block) ≡ false

  reading_sequence-Perm :
      (page : PageInfo fl.F) (direction : Direction)
      → All (InOneBand page) page.blocks
      → Perm (reading_sequence fl page direction) page.blocks
  unfolding reading_sequence
  reading_sequence-Perm page direction h =
      let header = select (starts_in_header fl page) page.blocks in
      let body = select (is_between fl page) page.blocks in
      let footer = select (ends_in_footer fl page) page.blocks in
      let columns = cluster_columns fl body page.width in
      let flowing : Perm
          (flat_map (sort_by (rounded_lt fl)) (sort_by (column_precedes fl direction) columns))
          body =
        Perm.trans
          (flat_map_sort-Perm (rounded_lt fl) (sort_by (column_precedes fl direction) columns))
          (Perm.trans (concat_sort-Perm (column_precedes fl direction) columns)
            (cluster_columns-IsColumn fl page.width body).0) in
      Perm.trans
        (Perm.append (sort_by-Perm (top_left_lt fl) header)
          (Perm.append flowing (sort_by-Perm (top_left_lt fl) footer)))
        (three-Perm (starts_in_header fl page) (is_between fl page) (ends_in_footer fl page)
          page.blocks (All-refl page.blocks) h)
    where
      All-refl :
          (blocks : List (BlockInfo fl.F))
          → All
              (λ b.
                is_between fl page b
                ≡ (not (starts_in_header fl page b) && not (ends_in_footer fl page b)))
              blocks
      All-refl [] = tt
      All-refl (b ∷ blocks) = (refl, All-refl blocks)

  abbrev Unlike : ℕ → BlockInfo fl.F → Type 0
  Unlike i block = (block.index == i) ≡ false

  not_mem-Unlike :
      (i : ℕ) (blocks : List (BlockInfo fl.F))
      → ¬ Mem i (map (index_of fl) blocks)
      → All (Unlike i) blocks
  not_mem-Unlike i [] h = tt
  not_mem-Unlike i (block ∷ blocks) h = (
    elim (Bool-cases (block.index == i)) [
      | inl same ↦ absurd (
          h (
            subst (λ j. Mem j (map (index_of fl) (block ∷ blocks))) ((==_iff block.index i).0 same)
              mem-cons_self))
      | inr differ ↦ differ
    ],
    not_mem-Unlike i blocks (λ m. h (mem-cons_of_mem block.index m)),
  )

  position_or-Unlike :
      (d i p : ℕ) (blocks : List (BlockInfo fl.F))
      → All (Unlike i) blocks
      → position_or d i (assign_positions fl p blocks) ≡ d
  unfolding position_or assign_positions
  position_or-Unlike d i p [] h = refl
  position_or-Unlike d i p (block ∷ blocks) h =
      ap (λ c. position_or (if c then p else d) i (assign_positions fl (suc p) blocks)) h.0
      ∙ position_or-Unlike d i (suc p) blocks h.1

  positions-range :
      (d : ℕ → ℕ) (p : ℕ) (blocks : List (BlockInfo fl.F))
      → Nodup (map (index_of fl) blocks)
      → map (λ b. position_or (d b.index) b.index (assign_positions fl p blocks)) blocks
        ≡ range p (length blocks)
  unfolding position_or assign_positions
  positions-range d p [] h = refl
  positions-range d p (block ∷ blocks) h =
      let i = block.index in
      let mine : (i == i) ≡ true = ground arith in
      let distinct = Nodup-cons.0 h in
      let here =
        ap (λ c. position_or (if c then p else d i) i (assign_positions fl (suc p) blocks)) mine
        ∙ position_or-Unlike p i (suc p) blocks (not_mem-Unlike i blocks distinct.0) in
      let later = positions-range (λ j. if i == j then p else d j) (suc p) blocks distinct.1 in
      λ k. here k ∷ later k

  -- Where no block of a page is in the top band and in the bottom band at once, and their indices
  -- differ, `_reading_order` is an order of them: the positions that the blocks get are those from
  -- 0 to their number, each for one block, in either direction and with any columns.
  pub reading_order-IsOrder :
      (page : PageInfo fl.F) (direction : Direction)
      → All (InOneBand page) page.blocks
      → Nodup (map (index_of fl) page.blocks)
      → Perm
          (map (λ b. position_or 0 b.index (reading_order fl page direction)) page.blocks)
          (range 0 (length page.blocks))
  unfolding reading_order
  reading_order-IsOrder page direction h distinct =
      let sequence = reading_sequence fl page direction in
      let same = reading_sequence-Perm page direction h in
      let position : BlockInfo fl.F → ℕ =
        λ b. position_or 0 b.index (assign_positions fl 0 sequence) in
      let numbered =
        positions-range (λ _. 0) 0 sequence
          (Perm.nodup (Perm.symm (Perm.map (index_of fl) same)) distinct) in
      subst (λ n. Perm (map position page.blocks) (range 0 n))
        (Perm-length sequence page.blocks same)
        (subst (λ ps. Perm (map position page.blocks) ps) numbered
          (Perm.map position (Perm.symm same)))
