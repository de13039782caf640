-- ===== src/Metadata/Structures/Ranges.antt =====
-- The sections of one level do not overlap.
use fiqhmind_ai_backend.Prelude.{
  ℕ, ◌-◌, ◌≤◌, ◌<◌, ◌≡◌, refl, ap, subst, inl, inr, true, Option, none, some, List, [], ◌∷◌, ◌++◌,
  ltb, leb, ◌==◌, Bool-cases, if◌then◌else◌, All, All-append, All-step, arith,
}
use fiqhmind_ai_backend.Text.{Text, strip}
use fiqhmind_ai_backend.Extraction.Types.{Floating, BlockInfo, PageInfo}
use fiqhmind_ai_backend.Metadata.Types.{Heading, heading_eq, Structure, Patterns}
use fiqhmind_ai_backend.Metadata.Structures.{
  Current, get_level, put_level, Sections, structure, close_section, open_section, heading_level,
  scan_blocks, sorted_body, scan_page, scan_pages, close_all, last_number, detect_structures,
}
use fiqhmind_ai_backend.Metadata.Structures.Closing.{
  apart, Separate, IsRange, Closed, Started, other_level, Once, Good, put_level-Started,
  put_level-Once, Separate-append, Closed-put_level, Closed-new_level, Closed-apart, StartedAt,
  get_level-StartedAt, Closed-here, closed_before, heading_eq→≡,
}

module _ (fl : Floating) (re : Patterns) where
  -- What the heading of a level finds open, and what it makes of it.
  opened-Good :
      (n number : ℕ) (level : Heading) (text : Text) (s : Sections fl.F)
      (previous : Option (Text × ℕ))
      → get_level level s.current ≡ previous
      → n ≤ number
      → Good fl.F n s
      → Good fl.F number (record {
        structures = close_section fl re level number previous s.structures;
        current = put_level level (text, number) s.current;
      })
  opened-Good n number level text s none e le g = record {
    ranges = g.ranges;
    separate = g.separate;
    closed =
        All-step (Closed s.current) (Closed (put_level level (text, number) s.current)) s.structures
          (λ t. Closed-new_level t level (text, number) s.current e) g.closed;
    started =
        put_level-Started number level (text, number) s.current (omega arith)
          (All-step (Started n) (Started number) s.current (λ entry h. omega arith) g.started);
    once = put_level-Once level (text, number) s.current g.once;
  }
  opened-Good n number level text s (some (name, first)) e le g =
      let began : first ≤ n =
        subst (StartedAt n) e (get_level-StartedAt n level s.current g.started) in
      let kept =
        All-step (Closed s.current) (Closed (put_level level (text, number) s.current)) s.structures
          (λ t. Closed-put_level t level name text first number s.current e (omega arith))
          g.closed in
      let started =
        put_level-Started number level (text, number) s.current (omega arith)
          (All-step (Started n) (Started number) s.current (λ entry h. omega arith) g.started) in
      let once = put_level-Once level (text, number) s.current g.once in
      elim (Bool-cases (first == number)) [
        | inl same ↦ rw same (record {
          ranges = g.ranges;
          separate = g.separate;
          closed = kept;
          started = started;
          once = once;
        })
        | inr later ↦
            let t = structure fl re level name first (number - 1) in
            let before : first < number = ground arith in
            rw later (record {
              ranges = All-append IsRange s.structures (t ∷ []) g.ranges (omega arith, tt);
              separate = Separate-append s.structures t g.separate (
                  All-step (Closed s.current) (λ u. apart u t ≡ true) s.structures
                    (λ u. Closed-apart u t name s.current e) g.closed);
              closed =
                  All-append (Closed (put_level level (text, number) s.current)) s.structures
                    (t ∷ []) kept (Closed-here t text number s.current (omega arith), tt);
              started = started;
              once = once;
            })
      ]

  open_section-Good :
      (n number : ℕ) (block : BlockInfo fl.F) (level : Option Heading) (s : Sections fl.F)
      → n ≤ number
      → Good fl.F n s
      → Good fl.F number (open_section fl re number block level s)
  unfolding open_section
  open_section-Good n number block none s le g = record {
    ranges = g.ranges;
    separate = g.separate;
    closed = g.closed;
    started = All-step (Started n) (Started number) s.current (λ entry h. omega arith) g.started;
    once = g.once;
  }
  open_section-Good n number block (some level) s le g =
      opened-Good n number level (strip block.text) s (get_level level s.current) refl le g

  scan_blocks-Good :
      (n number : ℕ) (main_font : fl.F) (blocks : List (BlockInfo fl.F)) (s : Sections fl.F)
      → n ≤ number
      → Good fl.F n s
      → Good fl.F number (scan_blocks fl re number main_font blocks s)
  unfolding scan_blocks
  scan_blocks-Good n number main_font [] s le g = record {
    ranges = g.ranges;
    separate = g.separate;
    closed = g.closed;
    started = All-step (Started n) (Started number) s.current (λ entry h. omega arith) g.started;
    once = g.once;
  }
  scan_blocks-Good n number main_font (block ∷ blocks) s le g =
      scan_blocks-Good number number main_font blocks
        (open_section fl re number block (heading_level fl re block main_font) s) (omega arith)
        (open_section-Good n number block (heading_level fl re block main_font) s le g)

  -- The numbers of the pages do not go down, from a number on.
  abbrev pub Ascends : ℕ → List (PageInfo fl.F) → Type 0
  Ascends n [] = Unit
  Ascends n (page ∷ pages) = (n ≤ page.number) × Ascends page.number pages

  scan_pages-Good :
      (n : ℕ) (pages : List (PageInfo fl.F)) (s : Sections fl.F)
      → Ascends n pages
      → Good fl.F n s
      → Good fl.F (last_number fl re n pages) (scan_pages fl re pages s).0
  unfolding scan_pages scan_page
  scan_pages-Good n [] s h g = g
  scan_pages-Good n (page ∷ pages) s h g =
      scan_pages-Good page.number pages (scan_page fl re page s) h.1
        (scan_blocks-Good n page.number _ (sorted_body fl re page) s h.0 g)

  -- The sections that are open at the end are ranges, and apart from those that are closed.
  close_all-ranges : (last : ℕ) (current : Current) → All IsRange (close_all fl re last current)
  unfolding close_all
  close_all-ranges last [] = tt
  close_all-ranges last ((level, section) ∷ current) = (ground arith, close_all-ranges last current)

  -- A section is apart from those of other levels.
  others-apart :
      (s : Structure fl.F) (last : ℕ) (current : Current)
      → All (λ e. other_level s.level e ≡ true) current
      → All (λ t. apart s t ≡ true) (close_all fl re last current)
  unfolding close_all
  others-apart s last [] h = tt
  others-apart s last ((level, section) ∷ current) h =
      (ground (arith, h.0), others-apart s last current h.1)

  Closed-close_all :
      (s : Structure fl.F) (last : ℕ) (current : Current)
      → Once current
      → Closed current s
      → All (λ t. apart s t ≡ true) (close_all fl re last current)
  unfolding close_all
  Closed-close_all s last [] once h = tt
  Closed-close_all s last ((level, section) ∷ current) once h =
      elim (Bool-cases (heading_eq level s.level)) [
        | inl same ↦
            let level_same = heading_eq→≡ level s.level same in
            let ends : ltb s.page_end section.1 ≡ true =
              subst (λ o. closed_before s o ≡ true)
                (ap (λ b. if b then some section else get_level s.level current) same) h in
            (
              rw ends (ground arith),
              others-apart s last current
                  (subst (λ l. All (λ e. other_level l e ≡ true) current) level_same once.0),
            )
        | inr other ↦ (
          ground (arith, other),
          Closed-close_all s last current once.1 (
              subst (λ o. closed_before s o ≡ true)
                (ap (λ b. if b then some section else get_level s.level current) other) h),
        )
      ]

  close_all-Separate :
      (last : ℕ) (current : Current) → Once current → Separate (close_all fl re last current)
  unfolding close_all
  close_all-Separate last [] once = tt
  close_all-Separate last ((level, section) ∷ current) once = (
    others-apart
        (structure fl re level section.0 section.1 (if leb section.1 last then last else section.1))
        last current once.0,
    close_all-Separate last current once.1,
  )

  Separate-both :
      (ss ts : List (Structure fl.F))
      → Separate ss
      → Separate ts
      → All (λ s. All (λ t. apart s t ≡ true) ts) ss
      → Separate (ss ++ ts)
  Separate-both [] ts h k l = k
  Separate-both (s ∷ ss) ts h k l =
      (All-append (λ t. apart s t ≡ true) ss ts h.0 l.0, Separate-both ss ts h.1 k l.1)

  -- Where the numbers of the pages do not go down, each section that `_detect_structures` finds ends
  -- no earlier than it starts, and of two sections of one level the one that is listed first ends
  -- before the other starts.
  pub detect_structures-Separate :
      (pages : List (PageInfo fl.F))
      → Ascends 0 pages
      → All IsRange (detect_structures fl re pages).0 × Separate (detect_structures fl re pages).0
  unfolding detect_structures
  detect_structures-Separate pages h =
      let start : Sections fl.F = record { structures = []; current = [] } in
      let done = (scan_pages fl re pages start).0 in
      let last = last_number fl re 0 pages in
      let g =
        scan_pages-Good 0 pages start h
          (record { ranges = tt; separate = tt; closed = tt; started = tt; once = tt }) in
      (
        All-append IsRange done.structures (close_all fl re last done.current) g.ranges
            (close_all-ranges last done.current),
        Separate-both done.structures (close_all fl re last done.current) g.separate
            (close_all-Separate last done.current g.once)
            (All-step (Closed done.current)
              (λ s. All (λ t. apart s t ≡ true) (close_all fl re last done.current)) done.structures
              (λ s. Closed-close_all s last done.current g.once) g.closed),
      )
