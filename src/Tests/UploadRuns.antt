-- ===== src/Tests/UploadRuns.antt =====
-- A small file is received, and one without its end is rejected.
use fiqhmind_ai_backend.Prelude.{ℕ, ◌+◌, ◌≤◌, refl, Bool, true, none, List, [], ◌∷◌, All, length}
use fiqhmind_ai_backend.Text.{codes}
use fiqhmind_ai_backend.Uploads.{Bytes, Settings, Read, chunk, State, receive}
use fiqhmind_ai_backend.Uploads.Filename.{IsSafe, sanitize_filename, sanitize_filename-IsSafe}
use fiqhmind_ai_backend.Uploads.Accepted.{Received, receive-Received}

abbrev settings : Settings
settings = record {
  upload_allowed_mime = codes "application/pdf";
  upload_chunk_size = 8;
  upload_max_size_bytes = 100;
}

-- a digest: the sum of the bytes
abbrev digest : Bytes → ℕ
digest [] = 0
digest (b ∷ bytes) = b + digest bytes

abbrev reads : List Read
reads = chunk (codes "%PDF-1.7") ∷ chunk (codes " text %%") ∷ chunk (codes "EOF") ∷ []

abbrev state : State
state = record { files = []; uploads = []; jobs = [] }

receive-Received_example :
    Received settings digest 7 reads state
      (receive settings digest 7 (codes "book.pdf") none reads state)
receive-Received_example =
    receive-Received settings digest 7 (codes "book.pdf") none reads state (tt, tt)

abbrev always : ℕ → Bool
always c = true

sanitize_filename-IsSafe_example :
    All (IsSafe always) (sanitize_filename always (codes "a/b/book.pdf"))
    × (length (sanitize_filename always (codes "a/b/book.pdf")) ≤ 255)
sanitize_filename-IsSafe_example =
    sanitize_filename-IsSafe always (codes "a/b/book.pdf")
      (refl, (refl, (refl, (refl, (refl, (refl, (refl, (refl, tt))))))))
