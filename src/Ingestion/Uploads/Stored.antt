-- ===== src/Ingestion/Uploads/Stored.antt =====
-- The content that an upload stores is the one that the ingestion reads.
use eka_knowledge_assistant.Prelude.{
  ℕ, ◌≡◌, refl, sym, ap, ◌∙◌, subst, inl, inr, Bool, true, false, ◌&&◌, not, some, List, [], ◌∷◌,
  arith, ◌==◌, ==_refl, Bool-cases, filter, All, All-mono, filter-eq-nil, unique, unique-head,
  unique-tail, Text, text_eq, Result, ok, err, and_then, ◌>>◌, Result-cases,
}
use eka_knowledge_assistant.Shared.Transaction.{
  Session, commit, commit-ok, commit-err, with_uow, scalar_one_or_none,
}
use eka_knowledge_assistant.Documents.Document.{Uuid, Instant}
use eka_knowledge_assistant.Documents.Commands.{DocumentDto}
use eka_knowledge_assistant.Documents.Queries.{get_handle}
use eka_knowledge_assistant.Ingestion.Jobs.{enqueue}
use eka_knowledge_assistant.Ingestion.Chunks.{
  DocumentContentModel, Store, put_row, put, owns_content, get_content, check_store,
}
use eka_knowledge_assistant.Ingestion.Pipeline.{World, on_jobs}
use eka_knowledge_assistant.Ingestion.Uploads.{request_for, accept, upload}

abbrev pub same_document : DocumentContentModel → DocumentContentModel → Bool
same_document a b = a.document_id == b.document_id

-- One row for a document, and the row of this document is of this tenant.
pub record HasOneContent (tenant_id document_id : Uuid) (rows : List DocumentContentModel)
    : Type 0 where
  pub one : unique same_document rows ≡ true
  pub ours :
      All (λ r. (r.document_id == document_id && not (r.tenant_id == tenant_id)) ≡ false) rows

module _ (now : Instant) (tenant_id document_id : Uuid) (text : Text) where
  abbrev new_row : DocumentContentModel
  new_row = record {
    document_id = document_id;
    tenant_id = tenant_id;
    text = text;
    created_at = now;
    updated_at = now;
  }

  elsewhere :
      (rows : List DocumentContentModel)
      → All (λ r. (r.document_id == document_id) ≡ false) rows
      → filter (owns_content tenant_id document_id) rows ≡ []
  unfolding owns_content
  elsewhere rows h =
      filter-eq-nil (owns_content tenant_id document_id) rows (All-mono (λ r k. rw k refl) rows h)

  -- The query for the content finds the written row alone.
  put_row-found :
      (rows : List DocumentContentModel)
      → HasOneContent tenant_id document_id rows
      → (r : DocumentContentModel) × (filter
            (owns_content tenant_id document_id)
            (put_row now tenant_id document_id text rows)
          ≡ r ∷ [])
        × (r.text ≡ text)
  unfolding owns_content
  put_row-found [] h = (new_row, rw (==_refl document_id) (rw (==_refl tenant_id) refl), refl)
  put_row-found (r ∷ rs) h = elim (Bool-cases (r.document_id == document_id)) [
    | inl e ↦
        let ours : (r.tenant_id == tenant_id) ≡ true = ground (arith, h.ours.0, e) in
        let others : All (λ x. (x.document_id == document_id) ≡ false) rs =
          All-mono (λ x k. ground (arith, k, e)) rs (unique-head same_document r rs h.one) in
        (
          record r { text = text; updated_at = now },
          rw e (
              rw e (
                rw ours (
                  ap (λ l. record r { text = text; updated_at = now } ∷ l) (elsewhere rs others)))),
          refl,
        )
    | inr e ↦
        let rest : HasOneContent tenant_id document_id rs = record {
          one = unique-tail same_document r rs h.one;
          ours = h.ours.1;
        } in
        let (found, p, q) = put_row-found rs rest in (found, rw e (rw e p), q)
  ]

  -- What is read right after the write.
  get_content-put_row :
      {F : Type 0} (s : Store F)
      → HasOneContent tenant_id document_id s.contents
      → let s' = record s { contents = put_row now tenant_id document_id text s.contents } in
        (get_content tenant_id document_id (record { stored = s'; pending = s' })).0
        ≡ ok (some text)
  unfolding get_content scalar_one_or_none
  get_content-put_row s h =
      let (r, p, q) = put_row-found s.contents h in rw p (ap (λ t. ok (some t)) q)

module _ {F : Type 0} (sha256 : Text → Text) (max_attempts : ℕ) (job_id : Uuid) (now : Instant)
    (tenant_id document_id : Uuid) (content : Text) (w : World F) where
  abbrev written : Store F
  written = record w.store { contents = put_row now tenant_id document_id content w.store.contents }

  put-ok :
      (with_uow (put now tenant_id document_id content >> commit check_store) w.store).0 ≡ ok tt
      → (with_uow (put now tenant_id document_id content >> commit check_store) w.store).1 ≡ written
  unfolding with_uow put
  put-ok h =
      let session : Session (Store F) = record { stored = w.store; pending = written } in
      elim (Result-cases (check_store written)) [
        | inl (u, e) ↦ ap (λ r. r.1.stored) (commit-ok check_store session e)
        | inr (x, e) ↦
            absurd (ground (arith, sym (ap (λ r. r.0) (commit-err check_store session e)) ∙ h))
      ]

  enqueued-same :
      (document : DocumentDto) (stored : Result (Unit {0})) (w' : World F)
      → let r =
          and_then stored
            (λ _.
              on_jobs
                (enqueue job_id now (request_for tenant_id document_id document max_attempts)))
            w' in
        r.0 ≡ ok tt → (stored ≡ ok tt) × (r.1.store ≡ w'.store) × (r.1.documents ≡ w'.documents)
  enqueued-same document (ok u) w' h = (refl, refl, refl)
  enqueued-same document (err x) w' h = absurd (ground arith)

  accept-written :
      (document : DocumentDto)
      → (accept sha256 max_attempts job_id now tenant_id document_id content document w).0 ≡ ok tt
      → let w' =
          (accept sha256 max_attempts job_id now tenant_id document_id content document w).1 in
        (w'.store ≡ written) × (w'.documents ≡ w.documents)
  unfolding accept
  accept-written document h = elim (Bool-cases (text_eq (sha256 content) document.content_hash)) [
    | inr e ↦ absurd (ground (arith, rw e at h))
    | inl e ↦
        let stored =
          with_uow (put now tenant_id document_id content >> commit check_store) w.store in
        let (done, store, documents) =
          enqueued-same document stored.0 (record w { store = stored.1 }) (rw e at h) in
        rw e (store ∙ put-ok done, documents)
  ]

  found-written :
      (found : Result DocumentDto)
      → let r =
          and_then found (accept sha256 max_attempts job_id now tenant_id document_id content) w in
        r.0 ≡ ok tt → (r.1.store ≡ written) × (r.1.documents ≡ w.documents)
  found-written (ok document) h = accept-written document h
  found-written (err e) h = absurd (ground arith)

  -- What an upload that succeeds leaves is the store with the content, and the documents.
  pub upload-written :
      (upload sha256 max_attempts job_id now tenant_id document_id content w).0 ≡ ok tt
      → let w' = (upload sha256 max_attempts job_id now tenant_id document_id content w).1 in
        (w'.store ≡ written) × (w'.documents ≡ w.documents)
  unfolding upload
  upload-written h =
      found-written
        (get_handle (record { tenant_id = tenant_id; document_id = document_id }) w.documents) h

  -- The ingestion after the upload reads the content.
  pub upload-content :
      (upload sha256 max_attempts job_id now tenant_id document_id content w).0 ≡ ok tt
      → HasOneContent tenant_id document_id w.store.contents
      → let s = (upload sha256 max_attempts job_id now tenant_id document_id content w).1.store in
        (get_content tenant_id document_id (record { stored = s; pending = s })).0
        ≡ ok (some content)
  upload-content h k =
      subst
        (λ s.
          (get_content tenant_id document_id (record { stored = s; pending = s })).0
          ≡ ok (some content))
        (sym (upload-written h).0) (get_content-put_row now tenant_id document_id content w.store k)
