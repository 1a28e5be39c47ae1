-- ===== src/Ingestion/Uploads/Accepted.antt =====
-- What an upload of content checks, stores and enqueues.
use eka_knowledge_assistant.Prelude.{
  ℕ, ◌≡◌, refl, inl, inr, true, arith, Bool-cases, any, Text, text_eq, Result, ok, err, and_then,
  ◌>>◌,
}
use eka_knowledge_assistant.Shared.Transaction.{commit, with_uow}
use eka_knowledge_assistant.Documents.Document.{Uuid, Instant}
use eka_knowledge_assistant.Documents.Commands.{DocumentDto}
use eka_knowledge_assistant.Documents.Queries.{get_handle}
use eka_knowledge_assistant.Ingestion.Jobs.{enqueue, has_key}
use eka_knowledge_assistant.Ingestion.Jobs.Enqueue.{enqueue_once}
use eka_knowledge_assistant.Ingestion.Chunks.{Store, put, check_store}
use eka_knowledge_assistant.Ingestion.Pipeline.{World, on_jobs}
use eka_knowledge_assistant.Ingestion.Uploads.{request_for, accept, upload}

module _ {F : Type 0} (sha256 : Text → Text) (max_attempts : ℕ) (job_id : Uuid) (now : Instant)
    (tenant_id document_id : Uuid) (content : Text) (w : World F) where
  -- What an accepted upload says of the document that it found.
  abbrev pub IsAccepted : DocumentDto → World F → Type 0
  IsAccepted document w' =
      (text_eq (sha256 content) document.content_hash ≡ true)
      × (w'.documents ≡ w.documents)
      × (any (has_key document_id document.version) w'.jobs ≡ true)

  after_store :
      (stored : Result (Unit {0})) (s : Store F) (document : DocumentDto)
      → let r =
          and_then stored
            (λ _.
              on_jobs
                (enqueue job_id now (request_for tenant_id document_id document max_attempts)))
            (record w { store = s }) in
        r.0 ≡ ok tt
        → (r.1.documents ≡ w.documents)
          × (any (has_key document_id document.version) r.1.jobs ≡ true)
  after_store (ok u) s document h = (
    refl,
    (enqueue_once job_id job_id now now (request_for tenant_id document_id document max_attempts)
        (request_for tenant_id document_id document max_attempts) w.jobs refl refl h).0,
  )
  after_store (err x) s document h = absurd (ground arith)

  accept-IsAccepted :
      (document : DocumentDto)
      → (accept sha256 max_attempts job_id now tenant_id document_id content document w).0 ≡ ok tt
      → IsAccepted document
          (accept sha256 max_attempts job_id now tenant_id document_id content document w).1
  unfolding accept
  accept-IsAccepted document h =
      elim (Bool-cases (text_eq (sha256 content) document.content_hash)) [
        | inr e ↦ absurd (ground (arith, rw e at h))
        | inl e ↦
            let both =
              after_store
                (with_uow (put now tenant_id document_id content >> commit check_store) w.store).0
                (with_uow (put now tenant_id document_id content >> commit check_store) w.store).1
                document (rw e at h) in
            rw e (refl, both.0, both.1)
      ]

  found-IsAccepted :
      (found : Result DocumentDto)
      → let r =
          and_then found (accept sha256 max_attempts job_id now tenant_id document_id content) w in
        r.0 ≡ ok tt → (document : DocumentDto) × (found ≡ ok document) × IsAccepted document r.1
  found-IsAccepted (ok document) h = (document, refl, accept-IsAccepted document h)
  found-IsAccepted (err e) h = absurd (ground arith)

  -- An upload that succeeds found the document, the digest of its content is the registered hash, no
  -- document changed, and the queue has a job for the document's version.
  pub upload-IsAccepted :
      (upload sha256 max_attempts job_id now tenant_id document_id content w).0 ≡ ok tt
      → (document : DocumentDto) × (get_handle
            (record { tenant_id = tenant_id; document_id = document_id })
            w.documents
          ≡ ok document)
        × IsAccepted document
            (upload sha256 max_attempts job_id now tenant_id document_id content w).1
  unfolding upload
  upload-IsAccepted h = found-IsAccepted _ h
