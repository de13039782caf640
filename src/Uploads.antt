-- ===== src/Uploads.antt =====
-- app/services/uploads.py with the storage of app/core/storage.py and the rows of
-- app/db/repositories/uploads.py: a file is received in pieces, checked, and accepted or removed
-- again. SHA-256 is a parameter; a storage key is the number of its upload.
pub mod Filename
pub mod Copying
pub mod Rows
pub mod Accepted
use fiqhmind_ai_backend.Prelude.{
  ℕ, zero, suc, ◌+◌, ◌-◌, ◌*◌, Bool, true, false, not, ◌&&◌, ◌||◌, Option, none, some, List, [],
  ◌∷◌, ◌++◌, ltb, leb, ◌==◌, if◌then◌else◌, length, drop, String, select, is_empty, map,
}
use fiqhmind_ai_backend.Text.{Text, strip}

abbrev pub Bytes : Type 0
Bytes = List ℕ

-- PDF_MAGIC, `%PDF`
abbrev pub pdf_magic : Bytes
pdf_magic = 37 ∷ 80 ∷ 68 ∷ 70 ∷ []

-- PDF_EOF, `%%EOF`
abbrev pub pdf_eof : Bytes
pdf_eof = 37 ∷ 37 ∷ 69 ∷ 79 ∷ 70 ∷ []

abbrev pub eof_scan_bytes : ℕ
eof_scan_bytes = 1024

abbrev pub progress_commit_interval_bytes : ℕ
progress_commit_interval_bytes = 1048576

-- the settings of uploads
pub record Settings : Type 0 where
  pub upload_allowed_mime : Text
  pub upload_chunk_size : ℕ
  pub upload_max_size_bytes : ℕ

-- what a read of the stream does; an empty chunk is its end
pub data Read : Type 0 where
  chunk : Bytes → Read
  broken : String → Read

-- the exceptions
pub data Rejection : Type 0 where
  invalid_pdf upload_too_large empty_file corrupted_pdf wrong_mime : Rejection
  duplicate_upload : ℕ → Rejection
  interrupted : String → Rejection

-- `Upload.status`, here
pub data Stage : Type 0 where
  uploading queued : Stage

-- a row of `Upload`
pub record Entry : Type 0 where
  pub id : ℕ
  pub original_filename : Text
  pub stage : Stage
  pub sha256 : Option ℕ
  pub size : Option ℕ
  pub received_bytes : ℕ

-- the storage, the rows, and the uploads that have a job
pub record State : Type 0 where
  pub files : List (ℕ × Bytes)
  pub uploads : List Entry
  pub jobs : List ℕ

-- `bytes.startswith(prefix)`
unfoldable pub starts_with : Bytes → Bytes → Bool
starts_with [] bytes = true
starts_with (p ∷ prefix) [] = false
starts_with (p ∷ prefix) (b ∷ bytes) = if p == b then starts_with prefix bytes else false

-- `marker in bytes`
unfoldable pub contains : Bytes → Bytes → Bool
unfolding starts_with
contains marker [] = starts_with marker []
contains marker (b ∷ bytes) =
    let later = contains marker bytes in if starts_with marker (b ∷ bytes) then true else later

-- the local variables of the loop of `receive`
pub record Copy : Type 0 where
  pub written : Bytes
  pub received : ℕ
  pub chunks_since_progress : ℕ

pub data Copied : Type 0 where
  copied : Copy → Copied
  stopped : Rejection → Copy → Copied

-- `writer.write(chunk)`, and the progress that is recorded
abbrev pub write_chunk : Settings → Bytes → Copy → Copy
write_chunk s bytes c =
    let written = c.written ++ bytes in
    let report =
      leb progress_commit_interval_bytes (suc c.chunks_since_progress * s.upload_chunk_size) in
    record {
      written = written;
      received = if report then length written else c.received;
      chunks_since_progress = if report then 0 else suc c.chunks_since_progress;
    }

-- the loop of `receive`, where `saw_data` says that a chunk has come before
unfoldable pub copy_stream : Settings → Bool → List Read → Copy → Copied
unfolding starts_with
copy_stream s saw_data [] c = copied c
copy_stream s saw_data (broken message ∷ reads) c = stopped (interrupted message) c
copy_stream s saw_data (chunk [] ∷ reads) c = copied c
copy_stream s saw_data (chunk (b ∷ bytes) ∷ reads) c =
    let rest = copy_stream s true reads (write_chunk s (b ∷ bytes) c) in
    if not saw_data && not (starts_with pdf_magic (b ∷ bytes))
    then stopped invalid_pdf c
    else if ltb s.upload_max_size_bytes (length (c.written ++ b ∷ bytes))
    then stopped upload_too_large c
    else rest

-- `_has_eof_trailer`, over the bytes of the file
unfoldable pub has_eof_trailer : Bytes → Bool
unfolding contains
has_eof_trailer bytes = contains pdf_eof (drop (length bytes - eof_scan_bytes) bytes)

-- `storage.writer(key)`, `storage.delete(key)` and `storage.open(key)`
abbrev pub delete_file : ℕ → List (ℕ × Bytes) → List (ℕ × Bytes)
delete_file key files = select (λ f. not (f.0 == key)) files

abbrev pub write_file : ℕ → Bytes → List (ℕ × Bytes) → List (ℕ × Bytes)
write_file key bytes files = (key, bytes) ∷ delete_file key files

abbrev pub open_file : ℕ → List (ℕ × Bytes) → Option Bytes
open_file key [] = none
open_file key ((k, bytes) ∷ files) = if k == key then some bytes else open_file key files

abbrev pub has_sha256 : ℕ → Option ℕ → Bool
has_sha256 digest none = false
has_sha256 digest (some d) = d == digest

-- `get_by_sha256`
unfoldable pub get_by_sha256 : ℕ → List Entry → Option Entry
get_by_sha256 digest [] = none
get_by_sha256 digest (upload ∷ uploads) =
    let later = get_by_sha256 digest uploads in
    if has_sha256 digest upload.sha256 then some upload else later

abbrev pub new_entry : ℕ → Text → Entry
new_entry id original_filename = record {
  id = id;
  original_filename = original_filename;
  stage = uploading;
  sha256 = none;
  size = none;
  received_bytes = 0;
}

-- the row is deleted
abbrev pub delete_entry : ℕ → List Entry → List Entry
delete_entry id uploads = select (λ upload. not (upload.id == id)) uploads

-- assignments to the row
abbrev pub set_entry : ℕ → Entry → List Entry → List Entry
set_entry id entry [] = []
set_entry id entry (upload ∷ uploads) =
    let rest = set_entry id entry uploads in if upload.id == id then entry ∷ rest else upload ∷ rest

-- `_cleanup_upload`
unfoldable pub cleanup_upload : ℕ → State → State
cleanup_upload id s = record s {
  files = delete_file id s.files;
  uploads = delete_entry id s.uploads;
}

-- how `receive` ends
pub data Receipt : Type 0 where
  accepted : Entry → Receipt
  rejected : Rejection → Receipt

-- what comes before the first `;`
abbrev pub before_semicolon : Text → Text
before_semicolon [] = []
before_semicolon (c ∷ t) = let rest = before_semicolon t in if c == 59 then [] else c ∷ rest

-- `str.lower` of the letters of the English alphabet, which MIME types are made of
abbrev pub lower : ℕ → ℕ
lower c = if leb 65 c && leb c 90 then c + 32 else c

abbrev pub text_eq : Text → Text → Bool
text_eq [] [] = true
text_eq [] (_ ∷ _) = false
text_eq (_ ∷ _) [] = false
text_eq (c ∷ t) (d ∷ u) = let rest = text_eq t u in if c == d then rest else false

-- `_validate_mime`: whether it returns
unfoldable pub is_mime_accepted : Settings → Option Text → Bool
is_mime_accepted s none = true
is_mime_accepted s (some content_type) =
    let declared = map lower (strip (before_semicolon content_type)) in
    is_empty content_type || is_empty declared || text_eq declared s.upload_allowed_mime

module _ (s : Settings) (sha256 : Bytes → ℕ) (upload_id : ℕ) where
  -- the row of an accepted upload
  abbrev pub queued_entry : Text → Bytes → Entry
  queued_entry name bytes = record {
    id = upload_id;
    original_filename = name;
    stage = queued;
    sha256 = some (sha256 bytes);
    size = some (length bytes);
    received_bytes = length bytes;
  }

  -- what is in the storage and in the row when the loop has ended
  abbrev pub written_state : Text → Copy → State → State
  written_state name c st = record st {
    files = write_file upload_id c.written st.files;
    uploads =
        set_entry upload_id (record (new_entry upload_id name) { received_bytes = c.received })
          st.uploads;
  }

  -- the test for a duplicate
  abbrev pub duplicate_of : Option Entry → Option ℕ
  duplicate_of none = none
  duplicate_of (some existing) = if existing.id == upload_id then none else some existing.id

  -- the end of the `try` body
  abbrev pub finish_receive : Text → Copy → State → Option ℕ → Receipt × State
  finish_receive name c st (some existing) =
      (rejected (duplicate_upload existing), cleanup_upload upload_id st)
  finish_receive name c st none = (
    accepted (queued_entry name c.written),
    record st {
      uploads = set_entry upload_id (queued_entry name c.written) st.uploads;
      jobs = st.jobs ++ upload_id ∷ [];
    },
  )

  -- the `try` body behind the loop, and its `except`
  unfoldable pub after_copy : Text → Copied → State → Receipt × State
  unfolding cleanup_upload has_eof_trailer get_by_sha256
  after_copy name (stopped rejection c) st =
      (rejected rejection, cleanup_upload upload_id (written_state name c st))
  after_copy name (copied c) st =
      let there = written_state name c st in
      let failed : Rejection → Receipt × State =
        λ rejection. (rejected rejection, cleanup_upload upload_id there) in
      if is_empty c.written
      then failed empty_file
      else if not (has_eof_trailer c.written)
      then failed corrupted_pdf
      else finish_receive name c there
          (duplicate_of (get_by_sha256 (sha256 c.written) there.uploads))

  -- `receive`, with a sanitized name
  unfoldable pub receive : Text → Option Text → List Read → State → Receipt × State
  unfolding is_mime_accepted copy_stream after_copy
  receive name content_type reads st =
      if is_mime_accepted s content_type
      then after_copy name
          (copy_stream s false reads
            (record { written = []; received = 0; chunks_since_progress = 0 }))
          (record st { uploads = st.uploads ++ new_entry upload_id name ∷ [] })
      else (rejected wrong_mime, st)

-- `delete`, of the storage object, the row and its jobs
unfoldable pub delete_upload : ℕ → State → State
delete_upload id st = record {
  files = delete_file id st.files;
  uploads = delete_entry id st.uploads;
  jobs = select (λ j. not (j == id)) st.jobs;
}
