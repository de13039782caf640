-- ===== src/Extraction/Runner/Resume.antt =====
-- A page that is read back from its row counts as it did when it was written.
use fiqhmind_ai_backend.Prelude.{ℕ, ◌≡◌, refl}
use fiqhmind_ai_backend.Extraction.Types.{Floating, PageInfo, char_count, has_text, page_confidence}
use fiqhmind_ai_backend.Extraction.Slices.{PageParseResult, Parsed, info, error}
use fiqhmind_ai_backend.Extraction.Rows.{PageExtraction}
use fiqhmind_ai_backend.Extraction.Runner.{persist_result, row_to_page_info}

module _ (fl : Floating) where
  -- what the extraction of a document is summed up from
  pub record SameSummary (p q : PageInfo fl.F) : Type 0 where
    pub width : p.width ≡ q.width
    pub height : p.height ≡ q.height
    pub rotation : p.rotation ≡ q.rotation
    pub chars : char_count p ≡ char_count q
    pub text : has_text p ≡ has_text q
    pub confidence : page_confidence fl p ≡ page_confidence fl q

  -- A row records what a page answers.
  pub record Records (row : PageExtraction fl.F) (p : PageInfo fl.F) : Type 0 where
    pub chars : row.char_count ≡ char_count p
    pub text : row.has_text ≡ has_text p
    pub confidence : row.confidence ≡ page_confidence fl p

  resumed-Same :
      (job_id number : ℕ) (parsed : Parsed fl.F)
      → let written = persist_result fl job_id (record { number = number; parsed = parsed }) in
        ((row_to_page_info written.0).number ≡ number)
        × SameSummary (row_to_page_info written.0) written.1
        × Records written.0 written.1
  unfolding persist_result row_to_page_info char_count has_text page_confidence
  resumed-Same job_id number (info page) = (
    refl,
    record {
      width = refl;
      height = refl;
      rotation = refl;
      chars = refl;
      text = refl;
      confidence = refl;
    },
    record { chars = refl; text = refl; confidence = refl },
  )
  resumed-Same job_id number (error message width height rotation) = (
    refl,
    record {
      width = refl;
      height = refl;
      rotation = refl;
      chars = refl;
      text = refl;
      confidence = refl;
    },
    record { chars = refl; text = refl; confidence = refl },
  )

  -- A page that a resumed run reads back from the row that an earlier run has persisted, of a page
  -- that was parsed or of one whose parsing failed, has the number it was parsed under, and the
  -- size, the rotation, the number of characters, the test for text and the confidence of
  -- the page that the earlier run returned; the columns of the row say the same.
  pub row_to_page_info-persist_result :
      (job_id : ℕ) (r : PageParseResult fl.F)
      → let written = persist_result fl job_id r in
        ((row_to_page_info written.0).number ≡ r.number)
        × SameSummary (row_to_page_info written.0) written.1
        × Records written.0 written.1
  row_to_page_info-persist_result job_id r = resumed-Same job_id r.number r.parsed
