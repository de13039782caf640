-- ===== src/Metadata/Document/Mapping.antt =====
-- The page numbers of the document, and the sections that the rows of a job have.
use fiqhmind_ai_backend.Prelude.{
  ℕ, ◌≤◌, ◌≡◌, ◌∙◌, refl, ap, inl, inr, Option, none, some, List, [], ◌∷◌, map, Bool-cases, All,
  arith, select, ltb,
}
use fiqhmind_ai_backend.Text.{Text}
use fiqhmind_ai_backend.Extraction.Types.{Floating, PageInfo}
use fiqhmind_ai_backend.Extraction.Rows.{
  PageExtraction, Work, insert_page, order_pages, list_pages, is_of,
}
use fiqhmind_ai_backend.Metadata.Types.{PageNumber, Patterns}
use fiqhmind_ai_backend.Metadata.Footer.{
  Label, parse_footer_number, footer_of, page_number_for, detect_page_numbers,
}
use fiqhmind_ai_backend.Metadata.Structures.{detect_structures, Current}
use fiqhmind_ai_backend.Metadata.Structures.Closing.{IsRange, Separate}
use fiqhmind_ai_backend.Metadata.Structures.Ranges.{Ascends, detect_structures-Separate}
use fiqhmind_ai_backend.Metadata.Document.{
  with_sections, extract_metadata, load_metadata_page, document_of,
}

module _ (fl : Floating) (re : Patterns) where
  abbrev pub pdf_page_of : PageNumber fl.F → ℕ
  pdf_page_of page = page.pdf_page

  abbrev pub number_of_page : PageInfo fl.F → ℕ
  number_of_page page = page.number

  page_number_for-number :
      (number : ℕ) (label : Option Label) → (page_number_for fl re number label).pdf_page ≡ number
  page_number_for-number number none = refl
  page_number_for-number number (some label) = refl

  -- each page has an entry, under its number
  numbers-pages :
      (per_page : List (ℕ × Current)) (pages : List (PageInfo fl.F))
      → map pdf_page_of (map (with_sections fl re per_page) (detect_page_numbers fl re pages))
        ≡ map number_of_page pages
  unfolding detect_page_numbers with_sections
  numbers-pages per_page [] = refl
  numbers-pages per_page (page ∷ pages) =
      let here =
        page_number_for-number page.number (parse_footer_number re (footer_of fl re page)) in
      let later = numbers-pages per_page pages in λ k. here k ∷ later k

  -- the rows in the order of `list_pages`
  abbrev Rising : ℕ → List (PageExtraction fl.F) → Type 0
  Rising n [] = Unit
  Rising n (row ∷ rows) = (n ≤ row.page_number) × Rising row.page_number rows

  insert_page-Rising :
      (n : ℕ) (row : PageExtraction fl.F) (rows : List (PageExtraction fl.F))
      → n ≤ row.page_number
      → Rising n rows
      → Rising n (insert_page row rows)
  unfolding insert_page
  insert_page-Rising n row [] h r = (h, tt)
  insert_page-Rising n row (next ∷ rows) h r =
      elim (Bool-cases (ltb next.page_number row.page_number)) [
        | inl later ↦
            rw later (r.0, insert_page-Rising next.page_number row rows (ground arith) r.1)
        | inr first ↦ rw first (h, (ground arith, r.1))
      ]

  order_pages-Rising : (rows : List (PageExtraction fl.F)) → Rising 0 (order_pages rows)
  unfolding order_pages
  order_pages-Rising [] = tt
  order_pages-Rising (row ∷ rows) =
      insert_page-Rising 0 row (order_pages rows) (omega arith) (order_pages-Rising rows)

  Rising-Ascends :
      (n : ℕ) (rows : List (PageExtraction fl.F))
      → Rising n rows
      → Ascends fl re n (map (load_metadata_page fl re) rows)
  unfolding load_metadata_page
  Rising-Ascends n [] h = tt
  Rising-Ascends n (row ∷ rows) h = (h.0, Rising-Ascends row.page_number rows h.1)

  abbrev pub row_number : PageExtraction fl.F → ℕ
  row_number row = row.page_number

  loaded-numbers :
      (rows : List (PageExtraction fl.F))
      → map number_of_page (map (load_metadata_page fl re) rows) ≡ map row_number rows
  unfolding load_metadata_page
  loaded-numbers [] = refl
  loaded-numbers (row ∷ rows) = ap (◌∷◌ row.page_number) (loaded-numbers rows)

  -- The metadata of a book has an entry for each page row of the extraction job, under its PDF page
  -- number and in the order of the rows. Each of its sections ends no earlier than it starts, and
  -- of two sections of one level the one that is listed first ends before the other starts.
  pub document_of-Separate :
      (job_id : ℕ) (name : Text) (w : Work fl.F)
      → let document = document_of fl re job_id name w in
        (map pdf_page_of document.pages ≡ map row_number (list_pages job_id w))
        × All IsRange document.structures
        × Separate document.structures
  unfolding document_of extract_metadata list_pages
  document_of-Separate job_id name w =
      let rows = order_pages (select (is_of job_id) w.held.pages) in
      let pages = map (load_metadata_page fl re) rows in
      let sections =
        detect_structures-Separate fl re pages
          (Rising-Ascends 0 rows (order_pages-Rising (select (is_of job_id) w.held.pages))) in
      (
        numbers-pages (detect_structures fl re pages).1 pages ∙ loaded-numbers rows,
        sections.0,
        sections.1,
      )
