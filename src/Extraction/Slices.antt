-- ===== src/Extraction/Slices.antt =====
-- `_guard_page_count`, `_open_pdf`, `extract_pdf`, `_partition_pages` and `_extract_page_slice` of
-- app/services/extraction.py.
pub mod Split
use fiqhmind_ai_backend.Prelude.{
  ℕ, zero, suc, ◌+◌, ◌-◌, ◌/◌, max, min, String, Bool, true, false, Option, none, some, List, [],
  ◌∷◌, ltb, if◌then◌else◌,
}
use fiqhmind_ai_backend.Extraction.Types.{Floating, PageInfo, PdfExtraction}
use fiqhmind_ai_backend.Extraction.Parse.{Page, parse_page}

-- the exceptions of app/core/exceptions.py that extraction meets, and any other
pub data Failure : Type 0 where
  malformed_pdf encrypted_pdf : String → Failure
  pdf_page_limit : ℕ → ℕ → Failure
  transient_extraction other : String → Failure

-- a call that returns or raises
pub data Attempt (A : Type 0) : Type 0 where
  ok : A → Attempt A
  raised : Failure → Attempt A

abbrev pub and_then : {A B : Type 0} → Attempt A → (A → Attempt B) → Attempt B
and_then (ok a) f = f a
and_then (raised failure) f = raised failure

abbrev pub map_ok : {A B : Type 0} → (A → B) → Attempt A → Attempt B
map_ok f (ok a) = ok (f a)
map_ok f (raised failure) = raised failure

-- `fitz.Document`
pub record Document (F : Type 0) : Type 0 where
  pub needs_pass : Bool
  pub page_count : ℕ
  pub load_page : ℕ → Attempt (Page F)

-- what `fitz.open` does with a path
pub data Opened (F : Type 0) : Type 0 where
  document : Document F → Opened F
  file_data_error : String → Opened F
  exception : String → Opened F

-- `_open_pdf`
unfoldable pub open_pdf : {F : Type 0} → Opened F → Attempt (Document F)
open_pdf (file_data_error message) = raised (malformed_pdf message)
open_pdf (exception message) = raised (malformed_pdf message)
open_pdf (document d) =
    if d.needs_pass then raised (encrypted_pdf "pdf is password-protected") else ok d

-- `_guard_page_count`
unfoldable pub guard_page_count : ℕ → Option ℕ → Attempt ℕ
guard_page_count page_count none = ok page_count
guard_page_count page_count (some max_pages) =
    if ltb max_pages page_count then raised (pdf_page_limit page_count max_pages) else ok page_count

-- `list(range(start, start + count))`
abbrev pub range : ℕ → ℕ → List ℕ
range start zero = []
range start (suc count) = start ∷ range (suc start) count

module _ (fl : Floating) where
  -- the loop of `extract_pdf`
  unfoldable pub load_pages : (ℕ → Attempt (Page fl.F)) → List ℕ → Attempt (List (PageInfo fl.F))
  unfolding parse_page
  load_pages load_page [] = ok []
  load_pages load_page (index ∷ indices) =
      and_then (load_page index)
        (λ page. map_ok (◌∷◌ (parse_page fl page (suc index))) (load_pages load_page indices))

  -- `extract_pdf`
  unfoldable pub extract_pdf : Opened fl.F → Option ℕ → Attempt (PdfExtraction fl.F)
  unfolding open_pdf guard_page_count load_pages
  extract_pdf opened max_pages = and_then (open_pdf opened) (λ document.
      and_then (guard_page_count document.page_count max_pages) (λ page_count.
        map_ok (λ pages. record { page_count = page_count; pages = pages })
          (load_pages document.load_page (range 0 page_count))))

-- `max(1, (page_count + workers - 1) // workers)`
abbrev pub slice_size : ℕ → ℕ → ℕ
slice_size page_count workers = max 1 (((page_count + workers) - 1) / workers)

-- `[list(range(i, min(i + size, page_count))) for i in range(i, page_count, size)]`. Each round
-- moves by one at least, so as many rounds as there are pages are enough.
unfoldable pub slices_from : ℕ → ℕ → ℕ → ℕ → List (List ℕ)
slices_from zero size page_count i = []
slices_from (suc fuel) size page_count i =
    let rest = slices_from fuel size page_count (i + size) in
    if ltb i page_count then range i (min (i + size) page_count - i) ∷ rest else []

-- `_partition_pages`
unfoldable pub partition_pages : ℕ → ℕ → List (List ℕ)
unfolding slices_from
partition_pages page_count workers =
    slices_from page_count (slice_size page_count (max 1 workers)) page_count 0

-- `_PageParseResult`: a page, or an error with what is known of the page
pub data Parsed (F : Type 0) : Type 0 where
  info : PageInfo F → Parsed F
  error : String → F → F → ℕ → Parsed F

pub record PageParseResult (F : Type 0) : Type 0 where
  pub number : ℕ
  pub parsed : Parsed F

-- `str(exc)`
abbrev pub message_of : Failure → String
message_of (malformed_pdf message) = message
message_of (encrypted_pdf message) = message
message_of (pdf_page_limit page_count max_pages) = "pdf exceeds the page limit"
message_of (transient_extraction message) = message
message_of (other message) = message

module _ {F : Type 0} (parse_fn : Page F → ℕ → Attempt (PageInfo F)) where
  -- the `try` around `parse_fn`, with its `except Exception`
  abbrev pub parsed_of : Page F → Attempt (PageInfo F) → Parsed F
  parsed_of page (ok i) = info i
  parsed_of page (raised failure) = error (message_of failure) page.width page.height page.rotation

  abbrev pub result_of : Page F → ℕ → PageParseResult F
  result_of page index = record {
    number = suc index;
    parsed = parsed_of page (parse_fn page (suc index));
  }

  -- the loop of `_extract_page_slice`
  unfoldable pub parse_slice : (ℕ → Attempt (Page F)) → List ℕ → Attempt (List (PageParseResult F))
  parse_slice load_page [] = ok []
  parse_slice load_page (index ∷ indices) =
      and_then (load_page index)
        (λ page. map_ok (◌∷◌ (result_of page index)) (parse_slice load_page indices))

  -- `_extract_page_slice`
  unfoldable pub extract_page_slice : Opened F → List ℕ → Attempt (List (PageParseResult F))
  unfolding open_pdf parse_slice
  extract_page_slice opened indices =
      and_then (open_pdf opened) (λ document. parse_slice document.load_page indices)
