-- ===== src/Eval/Refusals.antt =====
-- `RefusalMatrix` and `refusal_confusion` of app/services/eval/metrics.py.
use fiqhmind_ai_backend.Prelude.{
  ℕ, ◌+◌, ◌≡◌, Bool, true, false, ◌&&◌, List, [], ◌∷◌, arith, length, select,
}

-- `RefusalMatrix`
pub record RefusalMatrix : Type 0 where
  pub tp : ℕ
  pub fp : ℕ
  pub fn : ℕ
  pub tn : ℕ

-- the body of the loop, for `expect` and `given`
abbrev pub tally_pair : Bool → Bool → RefusalMatrix → RefusalMatrix
tally_pair true true m = record m { tp = m.tp + 1 }
tally_pair false true m = record m { fp = m.fp + 1 }
tally_pair true false m = record m { fn = m.fn + 1 }
tally_pair false false m = record m { tn = m.tn + 1 }

unfoldable pub tally_pairs : List (Bool × Bool) → RefusalMatrix → RefusalMatrix
tally_pairs [] m = m
tally_pairs (p ∷ ps) m = tally_pairs ps (tally_pair p.0 p.1 m)

-- `refusal_confusion`
unfoldable pub refusal_confusion : List (Bool × Bool) → RefusalMatrix
unfolding tally_pairs
refusal_confusion pairs = tally_pairs pairs (record { tp = 0; fp = 0; fn = 0; tn = 0 })

-- the number of pairs with a property
abbrev pub count : (Bool × Bool → Bool) → List (Bool × Bool) → ℕ
count p pairs = length (select p pairs)

abbrev pub expects : Bool × Bool → Bool
expects p = p.0

abbrev pub refuses : Bool × Bool → Bool
refuses p = p.1

-- The cells sort the pairs: by what was expected, by what was given, and all of them.
abbrev pub Sorts : List (Bool × Bool) → RefusalMatrix → Type 0
Sorts pairs m =
    (m.tp ≡ count (λ p. p.0 && p.1) pairs)
    × (m.tp + m.fn ≡ count expects pairs)
    × (m.tp + m.fp ≡ count refuses pairs)
    × (((m.tp + m.fp) + (m.fn + m.tn)) ≡ length pairs)

-- the same, with what the cells had before
abbrev Adds : List (Bool × Bool) → RefusalMatrix → RefusalMatrix → Type 0
Adds pairs m m' =
    (m'.tp ≡ m.tp + count (λ p. p.0 && p.1) pairs)
    × (m'.tp + m'.fn ≡ (m.tp + m.fn) + count expects pairs)
    × (m'.tp + m'.fp ≡ (m.tp + m.fp) + count refuses pairs)
    × (((m'.tp + m'.fp) + (m'.fn + m'.tn)) ≡ ((m.tp + m.fp) + (m.fn + m.tn)) + length pairs)

tally_pairs-Adds :
    (pairs : List (Bool × Bool)) (m : RefusalMatrix) → Adds pairs m (tally_pairs pairs m)
unfolding tally_pairs
tally_pairs-Adds [] m = (omega arith, omega arith, omega arith, omega arith)
tally_pairs-Adds ((true, true) ∷ ps) m =
    let h = tally_pairs-Adds ps (tally_pair true true m) in
    (omega (arith, h.0), omega (arith, h.1), omega (arith, h.2), omega (arith, h.3))
tally_pairs-Adds ((true, false) ∷ ps) m =
    let h = tally_pairs-Adds ps (tally_pair true false m) in
    (omega (arith, h.0), omega (arith, h.1), omega (arith, h.2), omega (arith, h.3))
tally_pairs-Adds ((false, true) ∷ ps) m =
    let h = tally_pairs-Adds ps (tally_pair false true m) in
    (omega (arith, h.0), omega (arith, h.1), omega (arith, h.2), omega (arith, h.3))
tally_pairs-Adds ((false, false) ∷ ps) m =
    let h = tally_pairs-Adds ps (tally_pair false false m) in
    (omega (arith, h.0), omega (arith, h.1), omega (arith, h.2), omega (arith, h.3))

-- The true positives are the pairs where a refusal was expected and given; with the false negatives
-- they are those where one was expected, with the false positives those where one was given, and the four
-- cells together are all pairs.
pub refusal_confusion-Sorts : (pairs : List (Bool × Bool)) → Sorts pairs (refusal_confusion pairs)
unfolding refusal_confusion
refusal_confusion-Sorts pairs =
    let h = tally_pairs-Adds pairs (record { tp = 0; fp = 0; fn = 0; tn = 0 }) in
    (omega (arith, h.0), omega (arith, h.1), omega (arith, h.2), omega (arith, h.3))
