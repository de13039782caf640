-- ===== src/Extraction/Rows.antt =====
-- The rows that extraction writes (app/db/models.py) and app/db/repositories/extraction.py over them.
-- A row holds the rows that refer to it, in the order in which they were added.
use fiqhmind_ai_backend.Prelude.{
  ℕ, String, Bool, not, Option, none, some, List, [], ◌∷◌, ◌++◌, ltb, ◌==◌, map, if◌then◌else◌,
  length, select,
}
use fiqhmind_ai_backend.Text.{Text}
use fiqhmind_ai_backend.Extraction.Types.{
  Floating, Bbox, SpanInfo, BlockInfo, ImageInfo, DrawingInfo, sum_of,
}
use fiqhmind_ai_backend.Jobs.Types.{Job, UploadRow}

-- `PageBlock.region`, the constants of app/services/layout.py
pub data Region : Type 0 where
  main footnote margin header footer unknown : Region

-- `PageSpan`
pub record PageSpan (F : Type 0) : Type 0 where
  pub span_index : ℕ
  pub text : Text
  pub font : String
  pub font_size : F
  pub bbox : Bbox F
  pub flags : Option ℕ

-- `PageBlock`
pub record PageBlock (F : Type 0) : Type 0 where
  pub block_index : ℕ
  pub bbox : Bbox F
  pub text : Text
  pub font : Option String
  pub font_size : Option F
  pub span_count : ℕ
  pub region : Region
  pub reading_order : ℕ
  pub confidence : F
  pub classification_reason : Option String
  pub spans : List (PageSpan F)

-- `PageImage`
pub record PageImage (F : Type 0) : Type 0 where
  pub image_index : ℕ
  pub bbox : Bbox F
  pub width : Option ℕ
  pub height : Option ℕ
  pub xref : Option ℕ

-- `PageDrawing`
pub record PageDrawing (F : Type 0) : Type 0 where
  pub drawing_index : ℕ
  pub bbox : Bbox F
  pub kind : Option String
  pub stroke_width : Option F

-- `PageExtraction`
pub record PageExtraction (F : Type 0) : Type 0 where
  pub job_id : ℕ
  pub page_number : ℕ
  pub width : F
  pub height : F
  pub rotation : ℕ
  pub has_text : Bool
  pub char_count : ℕ
  pub block_count : ℕ
  pub image_count : ℕ
  pub drawing_count : ℕ
  pub confidence : F
  pub error_message : Option String
  pub blocks : List (PageBlock F)
  pub images : List (PageImage F)
  pub drawings : List (PageDrawing F)

-- What the objects of the session hold: a job, its upload with its page count, and the page rows of
-- all jobs.
pub record Held (F : Type 0) : Type 0 where
  pub job : Job
  pub upload : UploadRow
  pub page_count : Option ℕ
  pub pages : List (PageExtraction F)

pub record Work (F : Type 0) : Type 0 where
  pub held : Held F
  pub committed : Held F

module _ {F : Type 0} where
  abbrev pub commit : Work F → Work F
  commit w = record w { committed = w.held }

  abbrev pub rollback : Work F → Work F
  rollback w = record w { held = w.committed }

  abbrev pub set_progress : ℕ → Work F → Work F
  set_progress n w = record w {
    held = record w.held { job = record w.held.job { progress_percent = n } };
  }

  -- the rows of a job
  abbrev pub is_of : ℕ → PageExtraction F → Bool
  is_of job_id row = row.job_id == job_id

  abbrev pub is_of_other : ℕ → PageExtraction F → Bool
  is_of_other job_id row = not (row.job_id == job_id)

  -- one step of `ORDER BY page_number`
  unfoldable pub insert_page : PageExtraction F → List (PageExtraction F) → List (PageExtraction F)
  insert_page row [] = row ∷ []
  insert_page row (next ∷ rows) =
      let later = insert_page row rows in
      if ltb next.page_number row.page_number then next ∷ later else row ∷ next ∷ rows

  unfoldable pub order_pages : List (PageExtraction F) → List (PageExtraction F)
  unfolding insert_page
  order_pages [] = []
  order_pages (row ∷ rows) = insert_page row (order_pages rows)

  -- `list_pages`
  unfoldable pub list_pages : ℕ → Work F → List (PageExtraction F)
  unfolding order_pages
  list_pages job_id w = order_pages (select (is_of job_id) w.held.pages)

  abbrev pub first_page : ℕ → List (PageExtraction F) → Option (PageExtraction F)
  first_page number [] = none
  first_page number (row ∷ rows) =
      if row.page_number == number then some row else first_page number rows

  -- `get_page`
  unfoldable pub get_page : ℕ → ℕ → Work F → Option (PageExtraction F)
  get_page job_id number w = first_page number (select (is_of job_id) w.held.pages)

  -- `count_pages`
  unfoldable pub count_pages : ℕ → Work F → ℕ
  count_pages job_id w = length (select (is_of job_id) w.held.pages)

  -- `create_page`, with the rows that are added to it before the next commit
  unfoldable pub create_page : PageExtraction F → Work F → Work F
  create_page row w = record w { held = record w.held { pages = w.held.pages ++ row ∷ [] } }

  -- `add_span`
  abbrev pub add_span : SpanInfo F → PageSpan F
  add_span span = record {
    span_index = span.index;
    text = span.text;
    font = span.font;
    font_size = span.size;
    bbox = span.bbox;
    flags = span.flags;
  }

  -- `add_image`
  abbrev pub add_image : ImageInfo F → PageImage F
  add_image image = record {
    image_index = image.index;
    bbox = image.bbox;
    width = image.width;
    height = image.height;
    xref = image.xref;
  }

  -- `add_drawing`
  abbrev pub add_drawing : DrawingInfo F → PageDrawing F
  add_drawing drawing = record {
    drawing_index = drawing.index;
    bbox = drawing.bbox;
    kind = drawing.kind;
    stroke_width = drawing.stroke_width;
  }

  -- `delete_for_job`: the rows that refer to a page go with it
  unfoldable pub delete_for_job : ℕ → Work F → Work F
  delete_for_job job_id w =
      commit
        (record w { held = record w.held { pages = select (is_of_other job_id) w.held.pages } })

-- `add_block`, and the number and rows of its spans; the other columns have their defaults
unfoldable pub add_block : (fl : Floating) → BlockInfo fl.F → PageBlock fl.F
add_block fl block = record {
  block_index = block.index;
  bbox = block.bbox;
  text = block.text;
  font = block.font;
  font_size = block.size;
  span_count = length block.spans;
  region = unknown;
  reading_order = 0;
  confidence = fl.ratio 0 1;
  classification_reason = none;
  spans = map add_span block.spans;
}

-- `job_summary`, its sums: pages, characters, blocks, images, drawings and pages with text
pub record JobSummary : Type 0 where
  pub page_count : ℕ
  pub char_count : ℕ
  pub block_count : ℕ
  pub image_count : ℕ
  pub drawing_count : ℕ
  pub text_pages : ℕ

-- `job_summary`, without the average of the confidences
unfoldable pub job_summary : {F : Type 0} → ℕ → Work F → JobSummary
job_summary job_id w =
    let rows = select (is_of job_id) w.held.pages in
    record {
      page_count = length rows;
      char_count = sum_of (λ row. row.char_count) rows;
      block_count = sum_of (λ row. row.block_count) rows;
      image_count = sum_of (λ row. row.image_count) rows;
      drawing_count = sum_of (λ row. row.drawing_count) rows;
      text_pages = sum_of (λ row. if row.has_text then 1 else 0) rows;
    }
