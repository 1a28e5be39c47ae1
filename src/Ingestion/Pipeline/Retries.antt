-- ===== src/Ingestion/Pipeline/Retries.antt =====
-- What becomes of a job whose first attempt failed: the document stays INGESTING, and the lifecycle
-- has no edge from INGESTING to INGESTING.
use eka_knowledge_assistant.Prelude.{
  none, ◌≡◌, refl, ap, ◌∙◌, subst, inl, inr, true, some, List, if◌then◌else◌, Bool-cases, Text,
  Exception, state_transition_error, Result, ok, err, Action, and_then,
}
use eka_knowledge_assistant.Documents.Document.{
  Uuid, Instant, Document, deleted, ingesting, status_eq,
}
use eka_knowledge_assistant.Documents.Document as D
use eka_knowledge_assistant.Documents.Document.Lifecycle.{Edge, allows_complete, transition_lem}
use mathlib.Core.Bool.{false≢true}
use eka_knowledge_assistant.Documents.Repository.{Table, is_unique}
use eka_knowledge_assistant.Documents.Commands.{
  save_changed, update_document, mark_ingesting, mark_failed,
}
use eka_knowledge_assistant.Documents.Commands.Updates.{stored_document}
use eka_knowledge_assistant.Documents.Commands.ReadBack.{transition_read_back}
use eka_knowledge_assistant.Ingestion.Jobs.{IngestionJob, Jobs, fail, exhausted}
use eka_knowledge_assistant.Ingestion.Chunking.{ChunkingConfig}
use eka_knowledge_assistant.Ingestion.Chunks.{Embedding}
use eka_knowledge_assistant.Ingestion.Pipeline.{
  World, Clock, handle, index_document, process, finish,
}

update_document-raised :
    (method : Action Document (Unit {0})) (tenant_id document_id : Uuid) (t : Table)
    (doc : Document) (e : Exception)
    → stored_document tenant_id document_id t ≡ ok (some doc)
    → (method doc).0 ≡ err e
    → update_document method tenant_id document_id t ≡ (err e, t)
unfolding update_document
update_document-raised method tenant_id document_id t doc e h k =
    simp h (unfold save_changed in rw (k, and_then))

abbrev pub stuck : Exception
stuck = state_transition_error "cannot move document"

no-Edge : ¬ Edge ingesting ingesting
unfolding D.allowed_transitions
no-Edge edge = false≢true (allows_complete edge)

transition-ingesting :
    (now : Instant) (doc : Document)
    → doc.status ≡ ingesting
    → (D.transition ingesting now doc).0 ≡ err stuck
transition-ingesting now doc h = elim (transition_lem ingesting now doc) [
  | inl (edge, e) ↦ absurd (no-Edge (subst (λ s. Edge s ingesting) h edge))
  | inr (_, e) ↦ ap (λ x. x.0) e
]

mark_ingesting-ingesting :
    (now : Instant) (tenant_id document_id : Uuid) (t : Table) (doc : Document)
    → stored_document tenant_id document_id t ≡ ok (some doc)
    → doc.status ≡ ingesting
    → mark_ingesting now tenant_id document_id t ≡ (err stuck, t)
unfolding mark_ingesting D.mark_ingesting
mark_ingesting-ingesting now tenant_id document_id t doc h k =
    update_document-raised (D.transition ingesting now) tenant_id document_id t doc stuck h
      (transition-ingesting now doc k)

fail-exhausted :
    (now : Instant) (job : IngestionJob) (error : Text) (jobs : Jobs)
    → (fail now job error jobs).0 ≡ ok (exhausted job)
unfolding fail
fail-exhausted now job error jobs = elim (Bool-cases (exhausted job)) [
  | inl e ↦ rw e refl
  | inr e ↦ rw e refl
]

left_ingesting :
    (now : Instant) (tenant_id document_id : Uuid) (t : Table)
    → is_unique t ≡ true
    → (mark_ingesting now tenant_id document_id t).0 ≡ ok tt
    → (doc : Document) × (stored_document tenant_id document_id
          (mark_ingesting now tenant_id document_id t).1
        ≡ ok (some (record doc { status = ingesting; updated_at = now })))
unfolding mark_ingesting D.mark_ingesting
left_ingesting now tenant_id document_id t u a =
    let (doc, p, edge, q, r) =
      transition_read_back ingesting now tenant_id document_id t u refl a in
    (doc, q)

module _ {F : Type 0} (embed : List Text → Result (List (Embedding F)))
    (config : ChunkingConfig) where
  -- While the stored document is INGESTING, the handler raises StateTransitionError and changes
  -- nothing.
  handle-ingesting :
      (clock : Clock) (job : IngestionJob) (w : World F) (doc : Document)
      → stored_document job.tenant_id job.document_id w.documents ≡ ok (some doc)
      → doc.status ≡ ingesting
      → handle embed config clock job w ≡ (err stuck, w)
  unfolding handle
  handle-ingesting clock job w doc h k =
      simp (mark_ingesting-ingesting clock.now job.tenant_id job.document_id w.documents doc h k)
        refl

  pub handle-failed :
      (clock : Clock) (job : IngestionJob) (w : World F) (e : Exception)
      → (mark_ingesting clock.now job.tenant_id job.document_id w.documents).0 ≡ ok tt
      → (index_document embed config clock job w.store).0 ≡ err e
      → handle embed config clock job w ≡ (
        err e,
        record w {
          documents = (mark_ingesting clock.now job.tenant_id job.document_id w.documents).1;
          store = (index_document embed config clock job w.store).1;
        },
      )
  unfolding handle
  handle-failed clock job w e a b = simp (a, b) refl

  -- Processing a job whose stored document is INGESTING writes no chunk: if the database takes it, the attempt is recorded as
  -- failed, and if it was the last one the document is marked FAILED.
  pub process_ingesting :
      (clock : Clock) (job : IngestionJob) (repr : Exception → Text) (w : World F) (doc : Document)
      → stored_document job.tenant_id job.document_id w.documents ≡ ok (some doc)
      → doc.status ≡ ingesting
      → clock.fail_error ≡ none
      → process embed config clock job repr w ≡ (
        ok tt,
        record w {
          jobs = (fail clock.now job (repr stuck) w.jobs).1;
          documents =
              if exhausted job
              then (mark_failed clock.now job.tenant_id job.document_id w.documents).1
              else w.documents;
        },
      )
  unfolding process
  process_ingesting clock job repr w doc h k up =
      rw (handle-ingesting clock job w doc h k) (failed repr)
    where
      failed :
          (repr : Exception → Text)
          → finish embed config clock job repr (err stuck) w ≡ (
            ok tt,
            record w {
              jobs = (fail clock.now job (repr stuck) w.jobs).1;
              documents =
                  if exhausted job
                  then (mark_failed clock.now job.tenant_id job.document_id w.documents).1
                  else w.documents;
            },
          )
      failed repr = elim (Bool-cases (exhausted job)) [
        | inl x ↦ simp (up, fail-exhausted clock.now job (repr stuck) w.jobs, x) refl
        | inr x ↦ simp (up, fail-exhausted clock.now job (repr stuck) w.jobs, x) refl
      ]

  -- On documents without clashing rows, an attempt that set the document to INGESTING and failed afterwards raises what failed, and then
  -- every later attempt for the document raises StateTransitionError, whatever the content, the chunks
  -- and the queue are by then, as long as the documents are as the failed attempt left them.
  pub retry_fails :
      (clock later : Clock) (job : IngestionJob) (w w' : World F) (e : Exception)
      → is_unique w.documents ≡ true
      → (mark_ingesting clock.now job.tenant_id job.document_id w.documents).0 ≡ ok tt
      → (index_document embed config clock job w.store).0 ≡ err e
      → w'.documents ≡ (handle embed config clock job w).1.documents
      → ((handle embed config clock job w).0 ≡ err e)
        × (handle embed config later job w' ≡ (err stuck, w'))
  retry_fails clock later job w w' e u a b same =
      let first = handle-failed clock job w e a b in
      let (doc, found) = left_ingesting clock.now job.tenant_id job.document_id w.documents u a in
      (
        ap (λ x. x.0) first,
        handle-ingesting later job w' _
            (ap (stored_document job.tenant_id job.document_id)
                (same ∙ ap (λ x. x.1.documents) first)
              ∙ found)
            refl,
      )
