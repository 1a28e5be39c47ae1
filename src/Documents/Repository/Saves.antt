-- ===== src/Documents/Repository/Saves.antt =====
-- Saving a document under the key that its row has keeps the constraints of the table.
use eka_knowledge_assistant.Prelude.{
  ◌≡◌, refl, sym, ap, ◌∙◌, inl, inr, Bool, true, false, ◌&&◌, not, [], ◌∷◌, arith, leb, ◌==◌,
  if◌then◌else◌, ==_iff, Bool-cases, &&-eq-true, length, any, All, All-mono, any-eq-false,
  any_of_All, Text, text_eq, text_eq→eq, ok,
}
use mathlib.Core.Bool.{false≢true}
use eka_knowledge_assistant.Documents.Document.{
  Uuid, Document, upload, confluence, sharepoint, jira, notion, google_drive, SourceType,
  DocumentStatus, registered, ingesting, indexed, failed, deleted,
}
use eka_knowledge_assistant.Documents.Document as D
use eka_knowledge_assistant.Documents.Repository.{
  DocumentModel, Table, clashes, is_unique, fits_columns, check_table, status_value, source_value,
  apply, upsert,
}

-- A row that clashes with none of a table leaves its identifier to none of it.
no_other :
    (document_id : Uuid) (r : DocumentModel) (t : Table)
    → (r.id == document_id) ≡ true
    → any (clashes r) t ≡ false
    → All (λ x. (x.id == document_id) ≡ false) t
unfolding clashes
no_other document_id r [] h k = tt
no_other document_id r (x ∷ t) h k = elim (Bool-cases (clashes r x)) [
  | inl e ↦ absurd (false≢true (sym k ∙ rw e refl))
  | inr e ↦ (ground (arith, h, e), no_other document_id r t h (sym (rw e refl) ∙ k))
]

-- In a table without clashes, what holds of some row with an identifier holds of every such row.
pub sole_row :
    (good : DocumentModel → Bool) (document_id : Uuid) (t : Table)
    → is_unique t ≡ true
    → any (λ r. r.id == document_id && good r) t ≡ true
    → All (λ r. (r.id == document_id && not (good r)) ≡ false) t
unfolding is_unique
sole_row good document_id [] u h = tt
sole_row good document_id (r ∷ t) u h =
    let (apart, rest) = &&-eq-true (not (any (clashes r) t)) (is_unique t) u in
    elim (Bool-cases (r.id == document_id)) [
      | inl e ↦
          let alone = no_other document_id r t e (ground (arith, apart)) in
          (own e alone, All-mono (λ x k. rw k refl) t alone)
      | inr e ↦ (rw e refl, sole_row good document_id t rest (rw e at h))
    ]
  where
    own :
        (r.id == document_id) ≡ true
        → All (λ x. (x.id == document_id) ≡ false) t
        → (r.id == document_id && not (good r)) ≡ false
    own e alone = elim (Bool-cases (good r)) [
      | inl f ↦ rw f (ground arith)
      | inr f ↦ absurd (
          false≢true (
            sym (
              any_of_All (λ x. x.id == document_id && good x) t
                (All-mono (λ x k. rw k refl) t alone))
            ∙ (rw (e, f) at h)))
    ]

-- The row has the tenant and the content hash of the document.
abbrev pub same_key : Document → DocumentModel → Bool
same_key new r = r.tenant_id == new.tenant_id && text_eq r.content_hash new.content_hash.value

module _ (new : Document) where
  -- Every row with the document's identifier has its key.
  abbrev pub KeepsKey : Table → Type 0
  KeepsKey t = All (λ r. (r.id == new.id && not (same_key new r)) ≡ false) t

  key_paths :
      (r : DocumentModel)
      → (r.id == new.id) ≡ true
      → (r.id == new.id && not (same_key new r)) ≡ false
      → (r.tenant_id ≡ new.tenant_id) × (r.content_hash ≡ new.content_hash.value)
  key_paths r h k =
      let (a, b) =
        &&-eq-true (r.tenant_id == new.tenant_id) (text_eq r.content_hash new.content_hash.value)
          (ground (arith, h, k)) in
      ((==_iff r.tenant_id new.tenant_id).0 a, text_eq→eq r.content_hash new.content_hash.value b)

  any-clashes-upsert :
      (r : DocumentModel) (t : Table)
      → KeepsKey t
      → any (λ x. x.id == new.id) t ≡ true
      → any (clashes r) (upsert new t) ≡ any (clashes r) t
  unfolding upsert clashes apply
  any-clashes-upsert r [] k h = absurd (ground arith)
  any-clashes-upsert r (x ∷ t) k h = elim (Bool-cases (x.id == new.id)) [
    | inl e ↦ let (a, b) = key_paths x e k.0 in rw e (rw a (rw b refl))
    | inr e ↦
        rw e (ap (λ z. if clashes r x then true else z) (any-clashes-upsert r t k.1 (rw e at h)))
  ]

  any-clashes-apply :
      (r : DocumentModel) (t : Table)
      → r.tenant_id ≡ new.tenant_id
      → r.content_hash ≡ new.content_hash.value
      → any (clashes (apply r.id new)) t ≡ any (clashes r) t
  unfolding clashes apply
  any-clashes-apply r t a b = rw a (rw b refl)

  unique-upsert :
      (t : Table)
      → is_unique t ≡ true
      → KeepsKey t
      → any (λ x. x.id == new.id) t ≡ true
      → is_unique (upsert new t) ≡ true
  unfolding upsert is_unique
  unique-upsert [] u k h = absurd (ground arith)
  unique-upsert (r ∷ t) u k h =
      let (apart, rest) = &&-eq-true (not (any (clashes r) t)) (is_unique t) u in
      elim (Bool-cases (r.id == new.id)) [
        | inl e ↦ let (a, b) = key_paths r e k.0 in rw e (rw (any-clashes-apply r t a b) u)
        | inr e ↦ rw e (
            rw (any-clashes-upsert r t k.1 (rw e at h))
              (rw apart (unique-upsert t rest k.1 (rw e at h))))
      ]

  fits-upsert :
      (t : Table)
      → any (λ r. not (fits_columns r)) t ≡ false
      → ((id : Uuid) → fits_columns (apply id new) ≡ true)
      → any (λ r. not (fits_columns r)) (upsert new t) ≡ false
  unfolding upsert
  fits-upsert [] h k = rw (k new.id) refl
  fits-upsert (r ∷ t) h k =
      let kept : All (λ x. not (fits_columns x) ≡ false) (r ∷ t) = any-eq-false _ (r ∷ t) h in
      elim (Bool-cases (r.id == new.id)) [
        | inl e ↦ rw e (rw (k r.id) (any_of_All _ t kept.1))
        | inr e ↦ rw e (rw kept.0 (fits-upsert t (any_of_All _ t kept.1) k))
      ]

  -- What a commit checks after the save.
  pub check-upsert :
      (t : Table)
      → check_table t ≡ ok tt
      → KeepsKey t
      → any (λ x. x.id == new.id) t ≡ true
      → ((id : Uuid) → fits_columns (apply id new) ≡ true)
      → check_table (upsert new t) ≡ ok tt
  unfolding check_table
  check-upsert t c k h fits = elim (Bool-cases (any (λ r. not (fits_columns r)) t)) [
    | inl e ↦ absurd (ground (arith, rw e at c))
    | inr e ↦ elim (Bool-cases (is_unique t)) [
      | inl u ↦ rw (fits-upsert t e fits) (rw (unique-upsert t u k h) refl)
      | inr u ↦ absurd (ground (arith, rw (e, u) at c))
    ]
  ]

short_source : (s : SourceType) → leb (length (source_value s)) 32 ≡ true
unfolding source_value
short_source upload = refl
short_source confluence = refl
short_source sharepoint = refl
short_source jira = refl
short_source notion = refl
short_source google_drive = refl

short_status : (s : DocumentStatus) → leb (length (status_value s)) 16 ≡ true
unfolding status_value
short_status registered = refl
short_status ingesting = refl
short_status indexed = refl
short_status failed = refl
short_status deleted = refl

short_title : (s : Text) (t : D.Title) → D.title s ≡ ok t → leb (length t.value) 512 ≡ true
unfolding D.title
short_title s t h = ground arith

-- A document with a valid title, whose address and hash fit, fits the columns.
pub fits-apply :
    (new : Document) (id : Uuid)
    → D.title new.title.value ≡ ok new.title
    → leb (length new.source_uri) 2048 ≡ true
    → leb (length new.content_hash.value) 64 ≡ true
    → fits_columns (apply id new) ≡ true
unfolding fits_columns apply
fits-apply new id t u h =
    rw (short_title new.title.value new.title t)
      (rw (short_source new.source_type) (rw u (rw h (short_status new.status))))

pub fits-lengths :
    (m : DocumentModel)
    → fits_columns m ≡ true
    → (leb (length m.source_uri) 2048 ≡ true) × (leb (length m.content_hash) 64 ≡ true)
unfolding fits_columns
fits-lengths m h =
    four (leb (length m.title) 512) (leb (length m.source_type) 32) (leb (length m.source_uri) 2048)
      (leb (length m.content_hash) 64) (leb (length m.status) 16) h
  where
    four : (a b c d e : Bool) → (a && b && c && d && e) ≡ true → (c ≡ true) × (d ≡ true)
    four a b c d e k = ground (arith, k)
