-- ===== src/Ingestion/Pipeline/Finished.antt =====
-- An attempt at a job whose document, content and embeddings are in order.
use eka_knowledge_assistant.Prelude.{
  none, true, All, filter, ◌==◌, ◌≡◌, refl, sym, ap, ◌∙◌, subst, some, List, Text, ℤ, Exception,
  Result, ok,
}
use eka_knowledge_assistant.Documents.Document.{
  Uuid, Instant, Document, ingesting, indexed, DocumentStatus,
}
use eka_knowledge_assistant.Documents.Document as D
use eka_knowledge_assistant.Documents.Document.Lifecycle.{Edge, finish_ingestion}
use eka_knowledge_assistant.Documents.Repository.{Table, check_table}
use eka_knowledge_assistant.Documents.Repository.Reads.{check_table-ok}
use eka_knowledge_assistant.Documents.Commands.{mark_ingesting, mark_indexed}
use eka_knowledge_assistant.Documents.Commands.Updates.{stored_document}
use eka_knowledge_assistant.Documents.Commands.ReadBack.{transition_read_back}
use eka_knowledge_assistant.Documents.Commands.Progress.{transition_done}
use eka_knowledge_assistant.Documents.Repository.Rows.{ok-injective}
use eka_knowledge_assistant.Ingestion.Jobs.{completed, IngestionJob, complete}
use eka_knowledge_assistant.Ingestion.Chunking.{ChunkingConfig, chunking_config, split}
use eka_knowledge_assistant.Ingestion.Chunks.{Embedding, ChunkModel, get_content}
use eka_knowledge_assistant.Ingestion.Chunks.Replaced.{SortsByOrdinal, IsReplacement}
use eka_knowledge_assistant.Ingestion.Pipeline.{World, Clock, process}
use eka_knowledge_assistant.Ingestion.Pipeline.Success.{handle-stored, handle-ok}
use eka_knowledge_assistant.Ingestion.Pipeline.Settled.{
  not_job, process-completed, complete-completed, complete-Settles,
}
use eka_knowledge_assistant.Ingestion.Pipeline.Indexing.{chunks_of}
use eka_knowledge_assistant.Ingestion.Pipeline.Indexed.{
  IsReady, IsEmbedded, index_document-IsReplacement,
}

-- Both transitions of an attempt go through.
transitions-ok :
    (now : Instant) (tenant_id document_id : Uuid) (t : Table) (doc : Document)
    → check_table t ≡ ok tt
    → stored_document tenant_id document_id t ≡ ok (some doc)
    → Edge doc.status ingesting
    → ((mark_ingesting now tenant_id document_id t).0 ≡ ok tt)
      × ((mark_indexed now tenant_id document_id (mark_ingesting now tenant_id document_id t).1).0
          ≡ ok tt)
unfolding mark_ingesting mark_indexed D.mark_ingesting D.mark_indexed
transitions-ok now tenant_id document_id t doc c found edge =
    let (first, checked) = transition_done ingesting now tenant_id document_id t doc c found edge in
    let a = ap (λ r. r.0) first in
    let (old, p, _, after, _) =
      transition_read_back ingesting now tenant_id document_id t (check_table-ok t c) refl a in
    let stored =
      subst
        (λ x.
          stored_document tenant_id document_id x.1
          ≡ ok (some (record old { status = ingesting; updated_at = now })))
        first after in
    let (second, _) =
      transition_done indexed now tenant_id document_id _
        (record old { status = ingesting; updated_at = now }) checked stored finish_ingestion in
    (a, ap (λ r. (mark_indexed now tenant_id document_id r.1).0) first ∙ ap (λ r. r.0) second)

some_injective : {A : Type 0} {x y : A} → some x ≡ some y → x ≡ y
some_injective h = cc

-- What a world looks like after the job is done.
pub record IsFinished {F : Type 0} (config : ChunkingConfig) (clock : Clock) (job : IngestionJob)
    (order : List (ChunkModel F) → List (ChunkModel F)) (w : World F) (doc : Document)
    (es : List (Embedding F)) (text : Text) (after : World F) : Type 0 where
  pub document :
      stored_document job.tenant_id job.document_id after.documents
      ≡ ok (some (record doc { status = indexed; updated_at = clock.now }))
  pub chunks :
      IsReplacement order job.tenant_id job.document_id
        (chunks_of clock.new_id job (split config text) es)
        w.store
        after.store
  pub jobs : after.jobs ≡ (complete clock.now job w.jobs).1
  pub completed_rows : All (λ r. (r.id == job.id) ≡ true → r.status ≡ completed) after.jobs
  pub other_rows : filter (not_job job) after.jobs ≡ filter (not_job job) w.jobs

module _ {F : Type 0} (embed : List Text → Result (List (Embedding F))) (config : ChunkingConfig)
    (clock : Clock) (job : IngestionJob) (order : List (ChunkModel F) → List (ChunkModel F))
    (by_ordinal : SortsByOrdinal order) (repr : Exception → Text) (w : World F)
    (ready : IsReady clock job w.store) where
  -- On documents that keep their constraints, a document from which the lifecycle goes to INGESTING,
  -- with a stored content, a store that keeps its constraints, fresh ids and an embedding of the
  -- column's dimension for each piece, if the database takes the completion, the attempt goes through: the document is INDEXED, its chunks
  -- are those of the pieces in their order, the rows of the job are completed and those of the other
  -- jobs are as before.
  pub process-IsFinished :
      (size overlap : ℤ) (doc : Document) (text : Text) (es : List (Embedding F))
      → check_table w.documents ≡ ok tt
      → stored_document job.tenant_id job.document_id w.documents ≡ ok (some doc)
      → Edge doc.status ingesting
      → chunking_config size overlap ≡ ok config
      → (get_content job.tenant_id job.document_id
          (record { stored = w.store; pending = w.store })).0
        ≡ ok (some text)
      → IsEmbedded embed (split config text) es
      → clock.complete_error ≡ none
      → ((process embed config clock job repr w).0 ≡ ok tt)
        × IsFinished config clock job order w doc es text (process embed config clock job repr w).1
  process-IsFinished size overlap doc text es c found edge h k l up =
      let (start, finish) =
        transitions-ok clock.now job.tenant_id job.document_id w.documents doc c found edge in
      let (stored, replacement) =
        index_document-IsReplacement embed config clock job order by_ordinal w.store ready size
          overlap text es h k l in
      let handled = handle-stored embed config clock job w start stored in
      let done = ap (λ r. r.0) handled ∙ finish in
      let ((old, p, _, q), content, jobs) =
        handle-ok embed config clock job w (check_table-ok w.documents c) done in
      let same = some_injective (ok-injective (sym p ∙ found)) in
      rw (process-completed embed config clock job repr w tt done up) (
        refl,
        record {
          document =
              q
              ∙ ap
                  (λ (d : Document).
                    ok (some (record d { status = indexed; updated_at = clock.now })))
                  same;
          chunks =
              subst
                (IsReplacement order job.tenant_id job.document_id
                  (chunks_of clock.new_id job (split config text) es) w.store)
                (ap (λ r. r.1) content) replacement;
          jobs = ap (λ js. (complete clock.now job js).1) jobs;
          completed_rows = complete-completed clock.now job _;
          other_rows =
              (complete-Settles clock.now job _).1 ∙ ap (λ js. filter (not_job job) js) jobs;
        },
      )
