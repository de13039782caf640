-- ===== src/Uploads/Accepted.antt =====
-- An upload is accepted whole or leaves nothing behind.
use fiqhmind_ai_backend.Prelude.{
  ℕ, ◌≤◌, ◌≡◌, ◌∙◌, refl, ap, sym, subst, inl, inr, true, false, ◌||◌, Option, none, some, List, [],
  ◌∷◌, ◌++◌, Bool-cases, arith, length, is_empty,
}
use fiqhmind_ai_backend.Text.{Text}
use fiqhmind_ai_backend.Uploads.{
  Bytes, pdf_magic, Settings, Read, Entry, State, starts_with, Copy, Copied, copied, stopped,
  has_eof_trailer, write_file, open_file, get_by_sha256, new_entry, delete_entry, set_entry,
  cleanup_upload, Receipt, accepted, rejected, queued_entry, written_state, duplicate_of,
  finish_receive, after_copy, receive, is_mime_accepted,
}
use fiqhmind_ai_backend.Uploads.Copying.{content, CopiedAll, copy_stream-CopiedAll}
use fiqhmind_ai_backend.Uploads.Rows.{
  IsNew, mine, delete_file-write_file, set_entry-last, delete_entry-last, get_by_sha256-new,
  get_by_sha256-NotMine, NotMine,
}

module _ (s : Settings) (sha256 : Bytes → ℕ) (id : ℕ) where
  -- what an accepted upload is: its file holds all bytes of the stream, within the limit, with the
  -- magic bytes in front and the marker near the end; its row has their digest, which no other
  -- row had, and their number; it has a job
  pub record IsAccepted (reads : List Read) (st : State) (e : Entry) (st' : State) : Type 0 where
    pub stored : open_file id st'.files ≡ some (content reads)
    pub small : length (content reads) ≤ s.upload_max_size_bytes
    pub magic : starts_with pdf_magic (content reads) ≡ true
    pub trailer : has_eof_trailer (content reads) ≡ true
    pub digest : e.sha256 ≡ some (sha256 (content reads))
    pub size : e.size ≡ some (length (content reads))
    pub unique : get_by_sha256 (sha256 (content reads)) st.uploads ≡ none
    pub row : st'.uploads ≡ st.uploads ++ e ∷ []
    pub job : st'.jobs ≡ st.jobs ++ id ∷ []

  -- what holds at the end
  abbrev pub Received : List Read → State → Receipt × State → Type 0
  Received reads st (rejected _, st') = st' ≡ st
  Received reads st (accepted e, st') = IsAccepted reads st e st'

  cleaned :
      (name : Text) (c : Copy) (st : State)
      → IsNew id st
      → cleanup_upload id (
          written_state s sha256 id name c
            (record st { uploads = st.uploads ++ new_entry id name ∷ [] }))
        ≡ st
  unfolding cleanup_upload
  cleaned name c st new =
      let e : Entry = record (new_entry id name) { received_bytes = c.received } in
      let files = delete_file-write_file id c.written st.files new.1 in
      let uploads =
        ap (delete_entry id) (set_entry-last id (new_entry id name) e st.uploads (mine id) new.0)
        ∙ delete_entry-last id e st.uploads (mine id) new.0 in
      λ i. record { files = files i; uploads = uploads i; jobs = st.jobs }

  -- An upload whose digest no other row has is the only one.
  no_duplicate :
      (found : Option Entry)
      → NotMine id found
      → duplicate_of s sha256 id found ≡ none
      → found ≡ none
  no_duplicate none h e = refl
  no_duplicate (some found) h e = absurd (ground (arith, h, e))

  abbrev prior : Text → State → State
  prior name st = record st { uploads = st.uploads ++ new_entry id name ∷ [] }

  abbrev entry_of : Text → Copy → Entry
  entry_of name c = record (new_entry id name) { received_bytes = c.received }

  -- the rows of an upload that is written but not accepted yet
  written-rows :
      (name : Text) (c : Copy) (st : State)
      → IsNew id st
      → (written_state s sha256 id name c (prior name st)).uploads
        ≡ st.uploads ++ entry_of name c ∷ []
  written-rows name c st new =
      set_entry-last id (new_entry id name) (entry_of name c) st.uploads (mine id) new.0

  finished-Received :
      (name : Text) (c : Copy) (reads : List Read) (st : State)
      → IsNew id st
      → c.written ≡ content reads
      → length c.written ≤ s.upload_max_size_bytes
      → starts_with pdf_magic c.written ≡ true
      → has_eof_trailer c.written ≡ true
      → get_by_sha256 (sha256 c.written) st.uploads ≡ none
      → Received reads st (
          finish_receive s sha256 id name c (written_state s sha256 id name c (prior name st)) none)
  finished-Received name c reads st new all small magic trailer unique = record {
    stored =
        let there : open_file id (write_file id c.written st.files) ≡ some c.written =
          rw (mine id) refl in
        there ∙ ap some all;
    small = subst (λ bytes. length bytes ≤ s.upload_max_size_bytes) all small;
    magic = subst (λ bytes. starts_with pdf_magic bytes ≡ true) all magic;
    trailer = subst (λ bytes. has_eof_trailer bytes ≡ true) all trailer;
    digest = ap (λ bytes. some (sha256 bytes)) all;
    size = ap (λ bytes. some (length bytes)) all;
    unique = subst (λ bytes. get_by_sha256 (sha256 bytes) st.uploads ≡ none) all unique;
    row =
        ap (set_entry id (queued_entry s sha256 id name c.written)) (written-rows name c st new)
        ∙ set_entry-last id (entry_of name c) (queued_entry s sha256 id name c.written) st.uploads
            (mine id) new.0;
    job = refl;
  }

  duplicate-Received :
      (name : Text) (c : Copy) (reads : List Read) (st : State) (found : Option ℕ)
      → IsNew id st
      → (found ≡ none
          → Received reads st (
              finish_receive s sha256 id name c
                (written_state s sha256 id name c (prior name st))
                none))
      → Received reads st (
          finish_receive s sha256 id name c
            (written_state s sha256 id name c (prior name st))
            found)
  duplicate-Received name c reads st none new accept = accept refl
  duplicate-Received name c reads st (some other) new accept = cleaned name c st new

  after_copy-Received :
      (name : Text) (result : Copied) (reads : List Read) (st : State)
      → IsNew id st
      → CopiedAll s (content reads) result
      → Received reads st (after_copy s sha256 id name result (prior name st))
  unfolding after_copy
  after_copy-Received name (stopped rejection c) reads st new all = cleaned name c st new
  after_copy-Received name (copied c) reads st new all = elim (Bool-cases (is_empty c.written)) [
    | inl empty ↦ rw empty (cleaned name c st new)
    | inr full ↦ elim (Bool-cases (has_eof_trailer c.written)) [
      | inl trailer ↦
          let there = written_state s sha256 id name c (prior name st) in
          let digest = sha256 c.written in
          let found =
            ap (get_by_sha256 digest) (written-rows name c st new)
            ∙ get_by_sha256-new id digest (entry_of name c) st.uploads refl in
          let magic : starts_with pdf_magic c.written ≡ true =
            ap (λ b. b || starts_with pdf_magic c.written) (sym full) ∙ all.2 in
          rw (full, trailer)
            (duplicate-Received name c reads st
              (duplicate_of s sha256 id (get_by_sha256 digest there.uploads)) new
              (λ alone. finished-Received name c reads st new all.0 all.1 magic trailer (
                no_duplicate (get_by_sha256 digest st.uploads)
                  (get_by_sha256-NotMine id digest st.uploads new.0)
                  (ap (duplicate_of s sha256 id) (sym found) ∙ alone))))
      | inr missing ↦ rw (full, missing) (cleaned name c st new)
    ]
  ]

  -- An upload under a new number either is accepted, and then its file holds every byte of the
  -- stream, with `%PDF` in front, the end marker in the last 1024 bytes and no more bytes than the
  -- limit, its row has their digest, which no row had before, and it has a job; or it is rejected,
  -- and then the files, the rows and the jobs are as before, however much was written.
  pub receive-Received :
      (name : Text) (content_type : Option Text) (reads : List Read) (st : State)
      → IsNew id st
      → Received reads st (receive s sha256 id name content_type reads st)
  unfolding receive
  receive-Received name content_type reads st new =
      elim (Bool-cases (is_mime_accepted s content_type)) [
        | inl good ↦ rw good (
            after_copy-Received name _ reads st new (
              copy_stream-CopiedAll s false reads
                (record { written = []; received = 0; chunks_since_progress = 0 }) refl
                (omega arith)))
        | inr bad ↦ rw bad refl
      ]
