-- ===== src/Documents/Commands/Progress.antt =====
-- A transition along an edge of the lifecycle goes through.
use eka_knowledge_assistant.Prelude.{
  ◌≡◌, refl, sym, ap, ◌∙◌, subst, inl, inr, Bool, true, ◌&&◌, not, Option, none, some, [], ◌∷◌,
  arith, leb, ◌==◌, ==_iff, Bool-cases, length, filter, any, All, All-filter, All-mono,
  any-eq-false, text_eq_iff, ok, Action, bind_result-eq-ok, map_result-eq-ok,
}
use eka_knowledge_assistant.Shared.Transaction.{commit-ok, scalar_one_or_none}
use eka_knowledge_assistant.Documents.Document.{Uuid, Instant, DocumentStatus, Document}
use eka_knowledge_assistant.Documents.Document as D
use eka_knowledge_assistant.Documents.Document.Lifecycle.{Edge, transition_lem}
use eka_knowledge_assistant.Documents.Repository.{
  Table, DocumentModel, check_table, fits_columns, get_query, to_domain, to_optional_domain, upsert,
  save,
}
use eka_knowledge_assistant.Documents.Repository.Rows.{to_domain-Loaded}
use eka_knowledge_assistant.Documents.Repository.Reads.{scalar-eq-some, check_table-ok}
use eka_knowledge_assistant.Documents.Repository.Saves.{
  same_key, sole_row, check-upsert, fits-apply, fits-lengths,
}
use eka_knowledge_assistant.Documents.Commands.{update_document, save_changed}
use eka_knowledge_assistant.Documents.Commands.Updates.{stored_document}

-- The row behind a document that was found.
found_row :
    (tenant_id document_id : Uuid) (t : Table) (doc : Document)
    → stored_document tenant_id document_id t ≡ ok (some doc)
    → (m : DocumentModel) × (filter (get_query tenant_id document_id) t ≡ m ∷ [])
      × (to_domain m ≡ ok doc)
found_row tenant_id document_id t doc h =
    let rows = filter (get_query tenant_id document_id) t in
    let (found, p, q) = bind_result-eq-ok (scalar_one_or_none rows) to_optional_domain h in
    go found p q
  where
    go :
        (found : Option DocumentModel)
        → scalar_one_or_none (filter (get_query tenant_id document_id) t) ≡ ok found
        → to_optional_domain found ≡ ok (some doc)
        → (m : DocumentModel) × (filter (get_query tenant_id document_id) t ≡ m ∷ [])
          × (to_domain m ≡ ok doc)
    go none p q = absurd (ground arith)
    go (some m) p q =
        let (d, l, e) = map_result-eq-ok some (to_domain m) q in
        (m, scalar-eq-some _ m p, l ∙ ap ok (ground arith))

-- What holds of all rows holds of the one that was found.
row-All :
    (p q : DocumentModel → Bool) (t : Table) (m : DocumentModel)
    → filter q t ≡ m ∷ []
    → All (λ r. p r ≡ true) t
    → p m ≡ true
row-All p q t m e h = (subst (All (λ r. p r ≡ true)) e (All-filter (λ r. p r ≡ true) q t h)).0

row-any :
    (p q : DocumentModel → Bool) (t : Table) (m : DocumentModel)
    → filter q t ≡ m ∷ []
    → p m ≡ true
    → any p t ≡ true
row-any p q t m e h = elim (Bool-cases (any p t)) [
  | inl f ↦ f
  | inr f ↦
      let missed : All (λ r. not (p r) ≡ true) t =
        All-mono (λ r k. rw k refl) t (any-eq-false p t f) in
      absurd (ground (arith, row-All (λ r. not (p r)) q t m e missed, h))
]

module _ (method : Action Document (Unit {0})) (tenant_id document_id : Uuid) (t : Table)
    (doc : Document) where
  -- A method that succeeds on the stored document is saved if the commit's checks pass.
  pub update_document-done :
      stored_document tenant_id document_id t ≡ ok (some doc)
      → (method doc).0 ≡ ok tt
      → check_table (upsert (method doc).1 t) ≡ ok tt
      → update_document method tenant_id document_id t ≡ (ok tt, upsert (method doc).1 t)
  unfolding update_document save_changed save
  update_document-done found p c =
      simp (found, p)
        (ap (λ r. (r.0, r.1.stored))
          (commit-ok check_table (record { stored = t; pending = upsert (method doc).1 t }) c))

check_fits : (t : Table) → check_table t ≡ ok tt → All (λ r. fits_columns r ≡ true) t
unfolding check_table
check_fits t c = elim (Bool-cases (any (λ r. not (fits_columns r)) t)) [
  | inl e ↦ absurd (ground (arith, rw e at c))
  | inr e ↦ All-mono (λ r k. ground (arith, k)) t (any-eq-false (λ r. not (fits_columns r)) t e)
]

module _ (target : DocumentStatus) (now : Instant) (tenant_id document_id : Uuid) (t : Table)
    (doc : Document) where
  abbrev pub moved_document : Document
  moved_document = record doc { status = target; updated_at = now }

  moved_check :
      check_table t ≡ ok tt
      → stored_document tenant_id document_id t ≡ ok (some doc)
      → check_table (upsert moved_document t) ≡ ok tt
  moved_check c found =
      let (m, row, l) = found_row tenant_id document_id t doc found in
      let loaded = to_domain-Loaded m doc l in
      let (uri, hash) = fits-lengths m (row-All fits_columns _ t m row (check_fits t c)) in
      let same_id : (m.id == doc.id) ≡ true = (==_iff m.id doc.id).1 (sym loaded.loaded_id) in
      let same : same_key moved_document m ≡ true =
        rw ((==_iff m.tenant_id doc.tenant_id).1 (sym loaded.loaded_tenant))
          ((text_eq_iff m.content_hash doc.content_hash.value).1 (sym loaded.loaded_hash)) in
      check-upsert moved_document t c
        (sole_row (same_key moved_document) doc.id t (check_table-ok t c)
          (row-any (λ r. r.id == doc.id && same_key moved_document r) _ t m row (rw same_id same)))
        (row-any (λ r. r.id == doc.id) _ t m row same_id)
        (λ id.
          fits-apply moved_document id loaded.loaded_valid.valid_title
            (subst (λ u. leb (length u) 2048 ≡ true) (sym loaded.loaded_uri) uri)
            (subst (λ u. leb (length u) 64 ≡ true) (sym loaded.loaded_hash) hash))

  -- On a table that keeps its constraints, a transition along an edge of the lifecycle is done: the
  -- stored document moves, and the table keeps its constraints.
  pub transition_done :
      check_table t ≡ ok tt
      → stored_document tenant_id document_id t ≡ ok (some doc)
      → Edge doc.status target
      → (update_document (D.transition target now) tenant_id document_id t
          ≡ (ok tt, upsert moved_document t))
        × (check_table (upsert moved_document t) ≡ ok tt)
  transition_done c found edge =
      let checked = moved_check c found in
      elim (transition_lem target now doc) [
        | inr (blocked, _) ↦ absurd (blocked edge)
        | inl (_, e) ↦ (
          update_document-done (D.transition target now) tenant_id document_id t doc found
                (ap (λ r. r.0) e)
                (subst (λ d. check_table (upsert d t) ≡ ok tt) (sym (ap (λ r. r.1) e)) checked)
              ∙ ap (λ d. (ok tt, upsert d t)) (ap (λ r. r.1) e),
          checked,
        )
      ]
