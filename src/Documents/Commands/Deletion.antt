-- ===== src/Documents/Commands/Deletion.antt =====
-- Deletion is final: no query finds a deleted document.
use eka_knowledge_assistant.Prelude.{
  ◌≡◌, refl, ap, ◌==◌, subst, ◌∙◌, inl, inr, Bool, true, false, Option, List, [], ◌∷◌, All,
  All-mono, All-apply, All-filter, All-take, All-drop, All-of_filter, filter, filter-All,
  KeepsItems, KeepsItems-All, &&-eq-true, Result, Result-cases, bind_result, bind_result-eq-ok,
  none, some, arith, unique, not_found_error, ok, err, Action, and_then,
}
use eka_knowledge_assistant.Documents.Document.{
  Uuid, Instant, EventBase, DocumentStatus, registered, ingesting, indexed, failed, deleted,
  status_eq, ContentHash, Title, Document, record_event,
}
use eka_knowledge_assistant.Documents.Document as D
use eka_knowledge_assistant.Shared.Pagination.{Sort, PageRequest, Page}
use eka_knowledge_assistant.Shared.Transaction.{scalar_one_or_none}
use eka_knowledge_assistant.Documents.Repository.{
  DocumentModel, Table, is_unique, upsert, to_domain, to_optional_domain, get_query, hash_query,
  is_live, get, find_by_content_hash,
}
use eka_knowledge_assistant.Documents.Repository.Rows.{ok-injective, to_domain-Loaded}
use eka_knowledge_assistant.Documents.Queries.{list, list_query, sort_of, collect_documents}
use eka_knowledge_assistant.Documents.Commands.{
  update_document, DeleteDocumentCommand, delete_handle,
}
use eka_knowledge_assistant.Documents.Commands.Updates.{
  stored_document, missing, raised, refused, saved, update_document-Updated,
}
use eka_knowledge_assistant.Documents.Commands.ReadBack.{
  stored_document-IsFound, IsUpdateOf, stored_document-upsert,
}

-- The deletion of a document that is not deleted goes through.
delete-live :
    (now : Instant) (base : EventBase) (doc : Document)
    → status_eq doc.status deleted ≡ false
    → IsUpdateOf doc (D.delete now base doc).1 × ((D.delete now base doc).1.status ≡ deleted)
unfolding D.delete
delete-live now base doc h = ground arith

stored_document-delete :
    (now : Instant) (base : EventBase) (tenant_id document_id : Uuid) (t : Table) (doc : Document)
    → is_unique t ≡ true
    → stored_document tenant_id document_id t ≡ ok (some doc)
    → stored_document tenant_id document_id (upsert (D.delete now base doc).1 t) ≡ ok none
stored_document-delete now base tenant_id document_id t doc unique p =
    let found = stored_document-IsFound tenant_id document_id t doc p in
    let (kept, gone) = delete-live now base doc found.found_live in
    stored_document-upsert tenant_id document_id t doc _ unique found kept ∙ rw gone

pub update_document-missing :
    (method : Action Document (Unit {0})) (tenant_id document_id : Uuid) (t : Table)
    → stored_document tenant_id document_id t ≡ ok none
    → update_document method tenant_id document_id t
      ≡ (err (not_found_error "document not found"), t)
unfolding update_document
update_document-missing method tenant_id document_id t h = rw (h, and_then)

-- A look-up without a result has no row to look at.
no_rows :
    (rows : Table) → bind_result (scalar_one_or_none rows) to_optional_domain ≡ ok none → rows ≡ []
unfolding scalar_one_or_none
no_rows [] h = refl
no_rows (m ∷ []) h = elim (Result-cases (to_domain m)) [
  | inl (d, e) ↦ absurd (ground (arith, rw e at h))
  | inr (x, e) ↦ absurd (ground (arith, rw e at h))
]
no_rows (m ∷ n ∷ rows) h = absurd (ground arith)

-- What is found is not the document.
abbrev pub Misses : Uuid → Result (Option Document) → Type 0
Misses id (ok (some d)) = (d.id == id) ≡ false
Misses id (ok none) = Unit {0}
Misses id (err e) = Unit {0}

abbrev pub MissesPage : Uuid → Result (Page Document) → Type 0
MissesPage id (ok page) = All (λ d. (d.id == id) ≡ false) page.items
MissesPage id (err e) = Unit {0}

module _ (id : Uuid) where
  abbrev OtherRows : Table → Type 0
  OtherRows rows = All (λ r. (r.id == id) ≡ false) rows

  domain-misses :
      (m : DocumentModel) (d : Document)
      → (m.id == id) ≡ false
      → to_domain m ≡ ok d
      → (d.id == id) ≡ false
  domain-misses m d h e = ap (λ i. i == id) (to_domain-Loaded m d e).loaded_id ∙ h

  found-Misses :
      (rows : Table)
      → OtherRows rows
      → Misses id (bind_result (scalar_one_or_none rows) to_optional_domain)
  unfolding scalar_one_or_none
  found-Misses [] h = tt
  found-Misses (m ∷ []) h = elim (Result-cases (to_domain m)) [
    | inl (d, e) ↦ rw e (domain-misses m d h.0 e)
    | inr (x, e) ↦ rw e tt
  ]
  found-Misses (m ∷ n ∷ rows) h = tt

  collect-misses :
      (rows : Table) (ds : List Document)
      → OtherRows rows
      → collect_documents rows ≡ ok ds
      → All (λ d. (d.id == id) ≡ false) ds
  collect-misses [] ds h e = subst (All (λ d. (d.id == id) ≡ false)) (ok-injective e) tt
  collect-misses (r ∷ rows) ds h e =
      let (d, p, k) = bind_result-eq-ok (to_domain r) _ e in
      let (ds', p', k') = bind_result-eq-ok (collect_documents rows) _ k in
      subst (All (λ d. (d.id == id) ≡ false)) (ok-injective k')
        (domain-misses r d h.0 p, collect-misses rows ds' h.1 p')

  page-Misses :
      (rows : Table) (page : List Document → Page Document)
      → ((ds : List Document) → (page ds).items ≡ ds)
      → OtherRows rows
      → MissesPage id (bind_result (collect_documents rows) (λ ds. ok (page ds)))
  page-Misses rows page same h = elim (Result-cases (collect_documents rows)) [
    | inl (ds, e) ↦ rw e (rw (same ds) (collect-misses rows ds h e))
    | inr (x, e) ↦ rw e tt
  ]

  -- Rows that `get` does not find have another identifier, if they are of the tenant and live.
  other_row :
      (tenant_id : Uuid) (r : DocumentModel)
      → get_query tenant_id id r ≡ false
      → (r.tenant_id == tenant_id) ≡ true
      → is_live r ≡ true
      → (r.id == id) ≡ false
  unfolding get_query
  other_row tenant_id r h k l = ground (arith, h, k, l)

  other_rows :
      (tenant_id : Uuid) (q : DocumentModel → Bool) (t : Table)
      → ((r : DocumentModel)
          → q r ≡ true
          → ((r.tenant_id == tenant_id) ≡ true) × (is_live r ≡ true))
      → All (λ r. get_query tenant_id id r ≡ false) t
      → OtherRows (filter q t)
  other_rows tenant_id q t own h =
      All-apply _ _ (filter q t)
        (All-mono (λ r g e. other_row tenant_id r g (own r e).0 (own r e).1) (filter q t)
          (All-filter _ q t h))
        (filter-All q t)

  hash_query-live :
      (tenant_id : Uuid) (hash : ContentHash) (r : DocumentModel)
      → hash_query tenant_id hash r ≡ true
      → ((r.tenant_id == tenant_id) ≡ true) × (is_live r ≡ true)
  unfolding hash_query
  hash_query-live tenant_id hash r h =
      let (te, rest) = &&-eq-true _ _ h in (te, (&&-eq-true _ _ rest).1)

  list_query-live :
      (tenant_id : Uuid) (collection_id : Option Uuid) (r : DocumentModel)
      → list_query tenant_id collection_id r ≡ true
      → ((r.tenant_id == tenant_id) ≡ true) × (is_live r ≡ true)
  unfolding list_query
  list_query-live tenant_id collection_id r h = &&-eq-true _ _ (&&-eq-true _ _ h).0

  find_by_content_hash-Misses :
      (tenant_id : Uuid) (hash : ContentHash) (t : Table)
      → All (λ r. get_query tenant_id id r ≡ false) t
      → Misses id (find_by_content_hash tenant_id hash (record { stored = t; pending = t })).0
  unfolding find_by_content_hash
  find_by_content_hash-Misses tenant_id hash t h =
      found-Misses (filter (hash_query tenant_id hash) t)
        (other_rows tenant_id (hash_query tenant_id hash) t (hash_query-live tenant_id hash) h)

  list-Misses :
      (order : Sort → Table → Table) (keeps : (s : Sort) → KeepsItems (order s)) (tenant_id : Uuid)
      (page : PageRequest) (collection_id : Option Uuid) (t : Table)
      → All (λ r. get_query tenant_id id r ≡ false) t
      → MissesPage id (list order tenant_id page collection_id t)
  unfolding list
  list-Misses order keeps tenant_id page collection_id t h =
      page-Misses _ _ (λ ds. refl)
        (All-take _ page.limit _ (
          All-drop _ page.offset _ (
            KeepsItems-All (keeps (sort_of page.sort)) (λ r. r.id == id) _
              (other_rows tenant_id (list_query tenant_id collection_id) t
                (list_query-live tenant_id collection_id) h))))

-- On a table without clashing rows, after a successful deletion the document is found neither by its
-- identifier, nor by a content hash, nor on a page of a list, if the database's sort keeps the rows;
-- and deleting it again raises NotFoundError and changes nothing.
pub delete_is_final :
    (now again : Instant) (base base' : EventBase) (command : DeleteDocumentCommand) (t : Table)
    (hash : ContentHash) (order : Sort → Table → Table) (keeps : (s : Sort) → KeepsItems (order s))
    (page : PageRequest) (collection_id : Option Uuid)
    → is_unique t ≡ true
    → (delete_handle now base command t).0 ≡ ok tt
    → let t' = (delete_handle now base command t).1 in
      (stored_document command.tenant_id command.document_id t' ≡ ok none)
      × Misses command.document_id
          (find_by_content_hash command.tenant_id hash (record { stored = t'; pending = t' })).0
      × MissesPage command.document_id (list order command.tenant_id page collection_id t')
      × (delete_handle again base' command t' ≡ (err (not_found_error "document not found"), t'))
unfolding delete_handle get
delete_is_final now again base base' command t hash order keeps page collection_id unique h =
    let t' = (delete_handle now base command t).1 in
    let rows =
      All-of_filter (get_query command.tenant_id command.document_id) t' (no_rows _ gone) in
    (
      gone,
      find_by_content_hash-Misses command.document_id command.tenant_id hash t' rows,
      list-Misses command.document_id order keeps command.tenant_id page collection_id t' rows,
      update_document-missing (D.delete again base') _ _ _ gone,
    )
  where
    gone :
        stored_document command.tenant_id command.document_id (delete_handle now base command t).1
        ≡ ok none
    gone =
        elim (update_document-Updated (D.delete now base) command.tenant_id command.document_id t) [
          | missing p r same ↦ absurd (ground arith)
          | raised doc e p q r same ↦ absurd (ground arith)
          | refused e r same ↦ absurd (ground arith)
          | saved doc p q c r same ↦ rw same (stored_document-delete now base _ _ t doc unique p)
        ]
