-- ===== src/Metadata/Fields/Distinct.antt =====
-- The fields of a book are distinct and not empty, and the filename has the first word.
use fiqhmind_ai_backend.Prelude.{
  ◌≡◌, ◌∙◌, refl, ap, sym, inl, inr, Bool, true, false, not, Option, none, some, List, [], ◌∷◌,
  ◌++◌, if◌then◌else◌, Bool-cases, All, All-append, arith, any, is_empty, is_some,
}
use fiqhmind_ai_backend.Text.{Text}
use fiqhmind_ai_backend.Extraction.Types.{Floating, PageInfo}
use fiqhmind_ai_backend.Metadata.Types.{Source, Field, field_eq, MetadataField, Patterns}
use fiqhmind_ai_backend.Metadata.Fields.{Addition, add_field, add_all, additions, extract_fields}

module _ {F : Type 0} where
  -- Two fields have different names.
  abbrev pub unlike : MetadataField F → MetadataField F → Bool
  unlike f g = not (field_eq f.field g.field)

  abbrev pub Distinct : List (MetadataField F) → Type 0
  Distinct [] = Unit
  Distinct (f ∷ fs) = All (λ g. unlike f g ≡ true) fs × Distinct fs

  -- Its value is not empty.
  abbrev pub HasValue : MetadataField F → Type 0
  HasValue f = is_empty f.value ≡ false

  Distinct-append :
      (fs : List (MetadataField F)) (g : MetadataField F)
      → Distinct fs
      → any (λ item. field_eq item.field g.field) fs ≡ false
      → Distinct (fs ++ g ∷ [])
  Distinct-append [] g h new = (tt, tt)
  Distinct-append (f ∷ fs) g h new = elim (Bool-cases (field_eq f.field g.field)) [
    | inl same ↦ absurd (ground (arith, same, new))
    | inr other ↦
        let rest : any (λ item. field_eq item.field g.field) fs ≡ false =
          ap (λ b. if b then true else any (λ item. field_eq item.field g.field) fs) (sym other)
          ∙ new in
        (
          All-append (λ u. unlike f u ≡ true) fs (g ∷ []) h.0 (ap not other, tt),
          Distinct-append fs g h.1 rest,
        )
  ]

-- a value, unless there is none or it is empty
abbrev pub nonempty_or : Option Text → Option Text → Option Text
nonempty_or none later = later
nonempty_or (some []) later = later
nonempty_or (some (c ∷ t)) later = some (c ∷ t)

module _ (fl : Floating) where
  abbrev Whole : List (MetadataField fl.F) → Type 0
  Whole fields = Distinct fields × All HasValue fields

  add_field-Whole :
      (name : Field) (value : Option Text) (confidence : fl.F) (origin : Source)
      (fields : List (MetadataField fl.F))
      → Whole fields
      → Whole (add_field fl name value confidence origin fields)
  unfolding add_field
  add_field-Whole name none confidence origin fields h = h
  add_field-Whole name (some []) confidence origin fields h = h
  add_field-Whole name (some (c ∷ t)) confidence origin fields h =
      elim (Bool-cases (any (λ item. field_eq item.field name) fields)) [
        | inl there ↦ rw there h
        | inr new ↦
            rw new (Distinct-append fields _ h.0 new, All-append HasValue fields _ h.1 (refl, tt))
      ]

  add_all-Whole :
      (calls : List (Addition fl.F)) (fields : List (MetadataField fl.F))
      → Whole fields
      → Whole (add_all fl calls fields)
  unfolding add_all
  add_all-Whole [] fields h = h
  add_all-Whole (a ∷ calls) fields h =
      add_all-Whole calls (add_field fl a.field a.value a.confidence a.source fields)
        (add_field-Whole a.field a.value a.confidence a.source fields h)

  -- the value of a field
  abbrev pub value_in : Field → List (MetadataField fl.F) → Option Text
  value_in name [] = none
  value_in name (f ∷ fields) = if field_eq f.field name then some f.value else value_in name fields

  -- the first value that is called for, of those that are not empty
  abbrev pub first_value : Field → List (Addition fl.F) → Option Text
  first_value name [] = none
  first_value name (a ∷ calls) =
      let later = first_value name calls in
      if field_eq a.field name then nonempty_or a.value later else later

  abbrev or_later : Option Text → Option Text → Option Text
  or_later none later = later
  or_later (some t) later = some t

  value_in-append :
      (name : Field) (fields : List (MetadataField fl.F)) (f : MetadataField fl.F)
      → value_in name (fields ++ f ∷ [])
        ≡ or_later (value_in name fields) (if field_eq f.field name then some f.value else none)
  value_in-append name [] f = refl
  value_in-append name (g ∷ fields) f = elim (Bool-cases (field_eq g.field name)) [
    | inl same ↦ rw same refl
    | inr other ↦ rw other (value_in-append name fields f)
  ]

  value_in-any :
      (name : Field) (fields : List (MetadataField fl.F))
      → is_some (value_in name fields) ≡ any (λ item. field_eq item.field name) fields
  value_in-any name [] = refl
  value_in-any name (f ∷ fields) = elim (Bool-cases (field_eq f.field name)) [
    | inl same ↦ rw same refl
    | inr other ↦ rw other (value_in-any name fields)
  ]

  value_in-same :
      (a b : Field) (fields : List (MetadataField fl.F))
      → field_eq a b ≡ true
      → value_in a fields ≡ value_in b fields
  value_in-same a b [] h = refl
  value_in-same a b (f ∷ fields) h = ground (arith, value_in-same a b fields h)

  or_later-some : (o p : Option Text) → is_some o ≡ true → or_later o p ≡ o
  or_later-some none p h = cc
  or_later-some (some t) p h = refl

  or_later-none : (o : Option Text) → or_later o none ≡ o
  or_later-none none = refl
  or_later-none (some t) = refl

  or_later-if : (b : Bool) (o : Option Text) → or_later o (if b then none else none) ≡ o
  or_later-if true o = or_later-none o
  or_later-if false o = or_later-none o

  value_in-add_field :
      (name key : Field) (value : Option Text) (confidence : fl.F) (origin : Source)
      (fields : List (MetadataField fl.F))
      → value_in name (add_field fl key value confidence origin fields)
        ≡ or_later
            (value_in name fields)
            (if field_eq key name then nonempty_or value none else none)
  unfolding add_field
  value_in-add_field name key none confidence origin fields =
      sym (or_later-if (field_eq key name) (value_in name fields))
  value_in-add_field name key (some []) confidence origin fields =
      sym (or_later-if (field_eq key name) (value_in name fields))
  value_in-add_field name key (some (c ∷ t)) confidence origin fields =
      elim (Bool-cases (any (λ item. field_eq item.field key) fields)) [
        | inl there ↦ rw there (elim (Bool-cases (field_eq key name)) [
          | inl same ↦
              let known : is_some (value_in name fields) ≡ true =
                ap is_some (sym (value_in-same key name fields same))
                ∙ value_in-any key fields
                ∙ there in
              sym (or_later-some (value_in name fields) _ known)
          | inr other ↦ rw other (sym (or_later-none (value_in name fields)))
        ])
        | inr new ↦ rw new (value_in-append name fields _)
      ]

  or_later_assoc : (o p q : Option Text) → or_later (or_later o p) q ≡ or_later o (or_later p q)
  or_later_assoc none p q = refl
  or_later_assoc (some t) p q = refl

  first_value-cons :
      (same : Bool) (value later : Option Text)
      → or_later (if same then nonempty_or value none else none) later
        ≡ (if same then nonempty_or value later else later)
  first_value-cons false value later = refl
  first_value-cons true none later = refl
  first_value-cons true (some []) later = refl
  first_value-cons true (some (c ∷ t)) later = refl

  value_in-add_all :
      (name : Field) (calls : List (Addition fl.F)) (fields : List (MetadataField fl.F))
      → value_in name (add_all fl calls fields)
        ≡ or_later (value_in name fields) (first_value name calls)
  unfolding add_all
  value_in-add_all name [] fields = sym (or_later-none (value_in name fields))
  value_in-add_all name (a ∷ calls) fields =
      let added = add_field fl a.field a.value a.confidence a.source fields in
      let here = if field_eq a.field name then nonempty_or a.value none else none in
      value_in-add_all name calls added
      ∙ ap (λ o. or_later o (first_value name calls))
          (value_in-add_field name a.field a.value a.confidence a.source fields)
      ∙ or_later_assoc (value_in name fields) here (first_value name calls)
      ∙ ap (or_later (value_in name fields))
          (first_value-cons (field_eq a.field name) a.value (first_value name calls))

  -- The bibliographic fields of a book have different names, none of them is empty, and the value of
  -- a field is the first one that is not empty of those that the filename, the cover and the first
  -- pages give for it in the order of the calls, whatever the patterns find.
  pub extract_fields-Distinct :
      (re : Patterns) (name : Text) (pages : List (PageInfo fl.F)) (key : Field)
      → Distinct (extract_fields fl re name pages)
        × All HasValue (extract_fields fl re name pages)
        × (value_in key (extract_fields fl re name pages)
            ≡ first_value key (additions fl re name pages))
  unfolding extract_fields
  extract_fields-Distinct re name pages key =
      let calls = additions fl re name pages in
      let whole = add_all-Whole calls [] (tt, tt) in
      (whole.0, whole.1, value_in-add_all key calls [])
