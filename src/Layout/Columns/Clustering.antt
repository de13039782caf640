-- ===== src/Layout/Columns/Clustering.antt =====
-- The columns of `_cluster_columns` share out the blocks.
use mathlib.Core.List.{Perm, append_assoc}
use fiqhmind_ai_backend.Prelude.{
  ◌≡◌, ◌∙◌, refl, ap, sym, subst, inl, inr, false, Option, none, some, List, [], ◌∷◌, ◌++◌,
  Bool-cases, All, concat, is_empty,
}
use fiqhmind_ai_backend.Extraction.Types.{Floating, BlockInfo}
use fiqhmind_ai_backend.Layout.Sort.{sort_by, sort_by-Perm}
use fiqhmind_ai_backend.Layout.Columns.{is_gap, center, center_lt, cluster_from, cluster_columns}

module _ (fl : Floating) (width : fl.F) where
  -- No block starts further to the right of the one before it than the gap allows.
  abbrev pub Close : Option fl.F → List (BlockInfo fl.F) → Type 0
  Close previous [] = Unit
  Close previous (block ∷ blocks) =
      (is_gap fl width previous block ≡ false) × Close (some (center fl block)) blocks

  -- a column: it has blocks, and no gap
  pub record IsColumn (column : List (BlockInfo fl.F)) : Type 0 where
    pub has_blocks : is_empty column ≡ false
    pub close : Close none column

  abbrev last_center : Option fl.F → List (BlockInfo fl.F) → Option fl.F
  last_center previous [] = previous
  last_center previous (block ∷ blocks) = last_center (some (center fl block)) blocks

  Close-snoc :
      (previous : Option fl.F) (blocks : List (BlockInfo fl.F)) (block : BlockInfo fl.F)
      → Close previous blocks
      → is_gap fl width (last_center previous blocks) block ≡ false
      → Close previous (blocks ++ block ∷ [])
  Close-snoc previous [] block h gap = (gap, tt)
  Close-snoc previous (x ∷ blocks) block h gap =
      (h.0, Close-snoc (some (center fl x)) blocks block h.1 gap)

  last_center-snoc :
      (previous : Option fl.F) (blocks : List (BlockInfo fl.F)) (block : BlockInfo fl.F)
      → last_center previous (blocks ++ block ∷ []) ≡ some (center fl block)
  last_center-snoc previous [] block = refl
  last_center-snoc previous (x ∷ blocks) block = last_center-snoc (some (center fl x)) blocks block

  snoc-full :
      (blocks : List (BlockInfo fl.F)) (block : BlockInfo fl.F)
      → is_empty (blocks ++ block ∷ []) ≡ false
  snoc-full [] block = refl
  snoc-full (x ∷ blocks) block = refl

  concat-cluster_from :
      (current blocks : List (BlockInfo fl.F)) (previous : Option fl.F)
      → concat (cluster_from fl width current previous blocks) ≡ current ++ blocks
  unfolding cluster_from
  concat-cluster_from [] [] previous = refl
  concat-cluster_from (x ∷ current) [] previous = refl
  concat-cluster_from current (block ∷ blocks) previous =
      elim (Bool-cases (is_gap fl width previous block)) [
        | inl gap ↦
            rw gap
              (ap (current ++◌) (concat-cluster_from (block ∷ []) blocks (some (center fl block))))
        | inr close ↦ rw close (
            concat-cluster_from (current ++ block ∷ []) blocks (some (center fl block))
            ∙ append_assoc current (block ∷ []) blocks)
      ]

  cluster_from-IsColumn :
      (current blocks : List (BlockInfo fl.F))
      → is_empty current ≡ false
      → Close none current
      → All IsColumn (cluster_from fl width current (last_center none current) blocks)
  unfolding cluster_from
  cluster_from-IsColumn current [] full h = rw full (record { has_blocks = full; close = h }, tt)
  cluster_from-IsColumn current (block ∷ blocks) full h =
      elim (Bool-cases (is_gap fl width (last_center none current) block)) [
        | inl gap ↦ rw gap (
          record { has_blocks = full; close = h },
          cluster_from-IsColumn (block ∷ []) blocks refl (refl, tt),
        )
        | inr close ↦ rw close (
            subst (λ p. All IsColumn (cluster_from fl width (current ++ block ∷ []) p blocks))
              (last_center-snoc none current block)
              (cluster_from-IsColumn (current ++ block ∷ []) blocks (snoc-full current block)
                (Close-snoc none current block h close)))
      ]

  clustered-IsColumn :
      (blocks : List (BlockInfo fl.F)) → All IsColumn (cluster_from fl width [] none blocks)
  unfolding cluster_from
  clustered-IsColumn [] = tt
  clustered-IsColumn (block ∷ blocks) = cluster_from-IsColumn (block ∷ []) blocks refl (refl, tt)

  -- The columns of `_cluster_columns` have each block once. Each column has a block, so that the
  -- least and the greatest coordinate of it exist, and in it the centers of neighbours are no further
  -- apart than a gap between columns.
  pub cluster_columns-IsColumn :
      (blocks : List (BlockInfo fl.F))
      → Perm (concat (cluster_columns fl blocks width)) blocks
        × All IsColumn (cluster_columns fl blocks width)
  unfolding cluster_columns
  cluster_columns-IsColumn blocks =
      let ordered = sort_by (center_lt fl) blocks in
      (
        subst (λ bs. Perm bs blocks) (sym (concat-cluster_from [] ordered none))
            (sort_by-Perm (center_lt fl) blocks),
        clustered-IsColumn ordered,
      )
