-- ===== src/Ingestion/Pipeline/Success.antt =====
-- What a successful attempt leaves behind.
use eka_knowledge_assistant.Prelude.{
  ◌≡◌, refl, sym, ap, ◌∙◌, inl, inr, true, some, List, arith, Text, Exception, Result, ok, err,
  Result-cases,
}
use eka_knowledge_assistant.Documents.Document.{Uuid, Instant, Document, ingesting, indexed}
use eka_knowledge_assistant.Documents.Document as D
use eka_knowledge_assistant.Documents.Document.Lifecycle.{Edge}
use eka_knowledge_assistant.Documents.Repository.{Table, is_unique}
use eka_knowledge_assistant.Documents.Repository.Rows.{ok-injective}
use eka_knowledge_assistant.Documents.Commands.{mark_ingesting, mark_indexed}
use eka_knowledge_assistant.Documents.Commands.Updates.{stored_document}
use eka_knowledge_assistant.Documents.Commands.ReadBack.{transition_read_back}
use eka_knowledge_assistant.Ingestion.Jobs.{IngestionJob}
use eka_knowledge_assistant.Ingestion.Chunking.{ChunkingConfig}
use eka_knowledge_assistant.Ingestion.Chunks.{Embedding}
use eka_knowledge_assistant.Ingestion.Pipeline.{World, Clock, handle, index_document}
use eka_knowledge_assistant.Ingestion.Pipeline.Retries.{handle-failed}

-- Two transitions in turn, read back.
both_transitions :
    (now : Instant) (tenant_id document_id : Uuid) (t : Table)
    → is_unique t ≡ true
    → (mark_ingesting now tenant_id document_id t).0 ≡ ok tt
    → (mark_indexed now tenant_id document_id (mark_ingesting now tenant_id document_id t).1).0
      ≡ ok tt
    → (doc : Document) × (stored_document tenant_id document_id t ≡ ok (some doc))
      × Edge doc.status ingesting
      × (stored_document tenant_id document_id
            (mark_indexed now tenant_id document_id
              (mark_ingesting now tenant_id document_id t).1).1
          ≡ ok (some (record doc { status = indexed; updated_at = now })))
unfolding mark_ingesting mark_indexed D.mark_ingesting D.mark_indexed
both_transitions now tenant_id document_id t u a b =
    let (doc, p, edge, q, u') =
      transition_read_back ingesting now tenant_id document_id t u refl a in
    let (doc', p', edge', q', u'') =
      transition_read_back indexed now tenant_id document_id _ u' refl b in
    let same = some_injective (ok-injective (sym p' ∙ q)) in
    (
      doc,
      p,
      edge,
      q' ∙ ap (λ (d : Document). ok (some (record d { status = indexed; updated_at = now }))) same,
    )
  where
    some_injective : {x y : Document} → some x ≡ some y → x ≡ y
    some_injective h = cc

module _ {F : Type 0} (embed : List Text → Result (List (Embedding F))) (config : ChunkingConfig)
    (clock : Clock) (job : IngestionJob) (w : World F) where
  abbrev marked : Result (Unit {0}) × Table
  marked = mark_ingesting clock.now job.tenant_id job.document_id w.documents

  handle-unstarted :
      (e : Exception) → marked.0 ≡ err e → (handle embed config clock job w).0 ≡ err e
  unfolding handle
  handle-unstarted e h = simp h refl

  pub handle-stored :
      marked.0 ≡ ok tt
      → (index_document embed config clock job w.store).0 ≡ ok tt
      → handle embed config clock job w ≡ (
        (mark_indexed clock.now job.tenant_id job.document_id marked.1).0,
        record w {
          documents = (mark_indexed clock.now job.tenant_id job.document_id marked.1).1;
          store = (index_document embed config clock job w.store).1;
        },
      )
  unfolding handle
  handle-stored a b = simp (a, b) refl

  -- On documents without clashing rows, an attempt that succeeds found the document in a status from
  -- which the lifecycle goes to INGESTING, and leaves it INDEXED, changed in its status and the time
  -- of its update alone; the unit of work on the content succeeded and its store is kept, and the
  -- jobs are as they were.
  pub handle-ok :
      is_unique w.documents ≡ true
      → (handle embed config clock job w).0 ≡ ok tt
      → ((doc : Document) × (stored_document job.tenant_id job.document_id w.documents
            ≡ ok (some doc))
          × Edge doc.status ingesting
          × (stored_document job.tenant_id job.document_id
                (handle embed config clock job w).1.documents
              ≡ ok (some (record doc { status = indexed; updated_at = clock.now }))))
        × (index_document embed config clock job w.store
            ≡ (ok tt, (handle embed config clock job w).1.store))
        × ((handle embed config clock job w).1.jobs ≡ w.jobs)
  handle-ok u h = elim (Result-cases marked.0) [
    | inr (e, a) ↦ absurd (ground (arith, sym (handle-unstarted e a) ∙ h))
    | inl (_, a) ↦ elim (Result-cases (index_document embed config clock job w.store).0) [
      | inr (e, b) ↦
          absurd
            (ground (arith, sym (ap (λ x. x.0) (handle-failed embed config clock job w e a b)) ∙ h))
      | inl (_, b) ↦
          let done = handle-stored a b in
          rw done (
            both_transitions clock.now job.tenant_id job.document_id w.documents u a
                (sym (ap (λ x. x.0) done) ∙ h),
            (λ i. (b i, (index_document embed config clock job w.store).1)),
            refl,
          )
    ]
  ]
