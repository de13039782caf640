-- ===== src/Uploads/Copying.antt =====
-- What the loop that receives a file has written when it ends.
use fiqhmind_ai_backend.Prelude.{
  ◌≤◌, ◌≡◌, ◌∙◌, refl, ap, sym, subst, inl, inr, Bool, true, false, not, ◌&&◌, ◌||◌, List, [], ◌∷◌,
  ◌++◌, ◌==◌, ltb, if◌then◌else◌, Bool-cases, arith, length, is_empty,
}
use mathlib.Core.List.{append-nil, append_assoc}
use fiqhmind_ai_backend.Uploads.{
  Bytes, pdf_magic, Settings, Read, chunk, broken, starts_with, Copy, Copied, copied, stopped,
  write_chunk, copy_stream,
}

-- the bytes that the stream yields
abbrev pub content : List Read → Bytes
content [] = []
content (broken _ ∷ reads) = []
content (chunk [] ∷ reads) = []
content (chunk (b ∷ bytes) ∷ reads) = (b ∷ bytes) ++ content reads

starts_with-append :
    (prefix xs ys : Bytes) → starts_with prefix xs ≡ true → starts_with prefix (xs ++ ys) ≡ true
unfolding starts_with
starts_with-append [] xs ys h = refl
starts_with-append (p ∷ prefix) [] ys h = cc
starts_with-append (p ∷ prefix) (x ∷ xs) ys h = elim (Bool-cases (p == x)) [
  | inl same ↦
      let later : starts_with prefix xs ≡ true =
        ap (λ b. if b then starts_with prefix xs else false) (sym same) ∙ h in
      rw same (starts_with-append prefix xs ys later)
  | inr other ↦
      let never : false ≡ true =
        ap (λ b. if b then starts_with prefix xs else false) (sym other) ∙ h in
      cc
]

module _ (s : Settings) where
  -- what is known before a read
  abbrev pub Began : Bool → Bytes → Type 0
  Began true written = starts_with pdf_magic written ≡ true
  Began false written = written ≡ []

  -- what is known behind the loop
  abbrev pub CopiedAll : Bytes → Copied → Type 0
  CopiedAll bytes (stopped _ _) = Unit
  CopiedAll bytes (copied c) =
      (c.written ≡ bytes)
      × (length c.written ≤ s.upload_max_size_bytes)
      × ((is_empty c.written || starts_with pdf_magic c.written) ≡ true)

  Began-magic :
      (saw : Bool) (written : Bytes)
      → Began saw written
      → (is_empty written || starts_with pdf_magic written) ≡ true
  Began-magic true [] h = refl
  Began-magic true (b ∷ written) h = h
  Began-magic false written h = rw h refl

  Began-next :
      (saw : Bool) (written bytes : Bytes)
      → (not saw && not (starts_with pdf_magic bytes)) ≡ false
      → Began saw written
      → starts_with pdf_magic (written ++ bytes) ≡ true
  Began-next true written bytes h began = starts_with-append pdf_magic written bytes began
  Began-next false written bytes h began = rw began (ground (arith, h))

  pub copy_stream-CopiedAll :
      (saw : Bool) (reads : List Read) (c : Copy)
      → Began saw c.written
      → length c.written ≤ s.upload_max_size_bytes
      → CopiedAll (c.written ++ content reads) (copy_stream s saw reads c)
  unfolding copy_stream
  copy_stream-CopiedAll saw [] c began small =
      (sym (append-nil c.written), small, Began-magic saw c.written began)
  copy_stream-CopiedAll saw (broken message ∷ reads) c began small = tt
  copy_stream-CopiedAll saw (chunk [] ∷ reads) c began small =
      (sym (append-nil c.written), small, Began-magic saw c.written began)
  copy_stream-CopiedAll saw (chunk (b ∷ bytes) ∷ reads) c began small =
      elim (Bool-cases (not saw && not (starts_with pdf_magic (b ∷ bytes)))) [
        | inl bad ↦ rw bad tt
        | inr good ↦
            elim (Bool-cases (ltb s.upload_max_size_bytes (length (c.written ++ b ∷ bytes)))) [
              | inl large ↦ rw (good, large) tt
              | inr fits ↦
                  rw (good, fits)
                    (subst
                      (λ all.
                        CopiedAll all (copy_stream s true reads (write_chunk s (b ∷ bytes) c)))
                      (append_assoc c.written (b ∷ bytes) (content reads))
                      (copy_stream-CopiedAll true reads (write_chunk s (b ∷ bytes) c)
                        (Began-next saw c.written (b ∷ bytes) good began) (ground (arith, fits))))
            ]
      ]
