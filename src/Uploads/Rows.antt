-- ===== src/Uploads/Rows.antt =====
-- What creating and deleting the row and the file of a new upload does to those of others.
use fiqhmind_ai_backend.Prelude.{
  ℕ, ◌≡◌, ◌∙◌, refl, ap, inl, inr, true, false, Option, none, some, List, [], ◌∷◌, ◌++◌, ◌==◌,
  if◌then◌else◌, Bool-cases, All, arith,
}
use fiqhmind_ai_backend.Uploads.{
  Bytes, Entry, State, delete_file, write_file, has_sha256, get_by_sha256, delete_entry, set_entry,
}

module _ (id : ℕ) where
  abbrev pub OtherEntry : Entry → Type 0
  OtherEntry upload = (upload.id == id) ≡ false

  abbrev pub OtherFile : ℕ × Bytes → Type 0
  OtherFile f = (f.0 == id) ≡ false

  -- No upload and no file has the number.
  abbrev pub IsNew : State → Type 0
  IsNew st = All OtherEntry st.uploads × All OtherFile st.files

  pub mine : (id == id) ≡ true
  mine = ground arith

  pub delete_file-OtherFile :
      (files : List (ℕ × Bytes)) → All OtherFile files → delete_file id files ≡ files
  delete_file-OtherFile [] h = refl
  delete_file-OtherFile (f ∷ files) h = rw h.0 (ap (◌∷◌ f) (delete_file-OtherFile files h.1))

  -- What is written is gone when it is deleted.
  pub delete_file-write_file :
      (bytes : Bytes) (files : List (ℕ × Bytes))
      → All OtherFile files
      → delete_file id (write_file id bytes files) ≡ files
  delete_file-write_file bytes files h =
      rw mine (ap (delete_file id) (delete_file-OtherFile files h) ∙ delete_file-OtherFile files h)

  pub set_entry-last :
      (old e : Entry) (uploads : List Entry)
      → (old.id == id) ≡ true
      → All OtherEntry uploads
      → set_entry id e (uploads ++ old ∷ []) ≡ uploads ++ e ∷ []
  set_entry-last old e [] is h = rw is refl
  set_entry-last old e (u ∷ uploads) is h =
      rw h.0 (ap (◌∷◌ u) (set_entry-last old e uploads is h.1))

  pub delete_entry-last :
      (e : Entry) (uploads : List Entry)
      → (e.id == id) ≡ true
      → All OtherEntry uploads
      → delete_entry id (uploads ++ e ∷ []) ≡ uploads
  delete_entry-last e [] is h = rw is refl
  delete_entry-last e (u ∷ uploads) is h = rw h.0 (ap (◌∷◌ u) (delete_entry-last e uploads is h.1))

  -- The new row has no digest yet, so a row with a digest is another's.
  pub get_by_sha256-new :
      (digest : ℕ) (e : Entry) (uploads : List Entry)
      → e.sha256 ≡ none
      → get_by_sha256 digest (uploads ++ e ∷ []) ≡ get_by_sha256 digest uploads
  unfolding get_by_sha256
  get_by_sha256-new digest e [] h = rw h refl
  get_by_sha256-new digest e (u ∷ uploads) h =
      ap (λ later. if has_sha256 digest u.sha256 then some u else later)
        (get_by_sha256-new digest e uploads h)

  abbrev pub NotMine : Option Entry → Type 0
  NotMine none = Unit
  NotMine (some e) = (e.id == id) ≡ false

  pub get_by_sha256-NotMine :
      (digest : ℕ) (uploads : List Entry)
      → All OtherEntry uploads
      → NotMine (get_by_sha256 digest uploads)
  unfolding get_by_sha256
  get_by_sha256-NotMine digest [] h = tt
  get_by_sha256-NotMine digest (u ∷ uploads) h = elim (Bool-cases (has_sha256 digest u.sha256)) [
    | inl same ↦ rw same h.0
    | inr other ↦ rw other (get_by_sha256-NotMine digest uploads h.1)
  ]
