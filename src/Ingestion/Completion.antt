-- ===== src/Ingestion/Completion.antt =====
-- From the upload of a document's content to its chunks: the upload (application/content.py) and the
-- attempt at its job (application/pipeline.py, src/eka/worker.py) one after the other.
use eka_knowledge_assistant.Prelude.{
  ℕ, none, ◌≡◌, sym, subst, some, List, Text, ℤ, Exception, Result, ok,
}
use eka_knowledge_assistant.Documents.Document.{Uuid, Instant, Document, ingesting}
use eka_knowledge_assistant.Documents.Document.Lifecycle.{Edge}
use eka_knowledge_assistant.Documents.Repository.{check_table}
use eka_knowledge_assistant.Documents.Commands.Updates.{stored_document}
use eka_knowledge_assistant.Ingestion.Jobs.{IngestionJob}
use eka_knowledge_assistant.Ingestion.Chunking.{ChunkingConfig, chunking_config, split}
use eka_knowledge_assistant.Ingestion.Chunks.{
  Embedding, ChunkModel, Store, DocumentContentModel, check_store,
}
use eka_knowledge_assistant.Ingestion.Chunks.Replaced.{SortsByOrdinal}
use eka_knowledge_assistant.Ingestion.Pipeline.{World, Clock, process}
use eka_knowledge_assistant.Ingestion.Pipeline.Indexed.{IsReady, IsEmbedded}
use eka_knowledge_assistant.Ingestion.Pipeline.Finished.{IsFinished, process-IsFinished}
use eka_knowledge_assistant.Ingestion.Uploads.{upload}
use eka_knowledge_assistant.Ingestion.Uploads.Stored.{HasOneContent, upload-written, upload-content}

-- Being ready looks at the chunks alone.
contents-IsReady :
    {F : Type 0} (clock : Clock) (job : IngestionJob) (s : Store F)
    (rows : List DocumentContentModel)
    → IsReady clock job s
    → IsReady clock job (record s { contents = rows })
unfolding check_store
contents-IsReady clock job s rows h = record {
  valid = h.valid;
  single = h.single;
  distinct = h.distinct;
  fresh = h.fresh;
}

module _ {F : Type 0} (sha256 : Text → Text) (max_attempts : ℕ) (job_id : Uuid)
    (uploaded_at : Instant) (content : Text) (embed : List Text → Result (List (Embedding F)))
    (config : ChunkingConfig) (clock : Clock) (job : IngestionJob)
    (order : List (ChunkModel F) → List (ChunkModel F)) (by_ordinal : SortsByOrdinal order)
    (repr : Exception → Text) (w : World F) where
  abbrev pub uploaded : World F
  uploaded =
      (upload sha256 max_attempts job_id uploaded_at job.tenant_id job.document_id content w).1

  -- After an upload that succeeds, for a document from which the lifecycle goes to INGESTING, on tables
  -- that keep their constraints, with one content for the document at most, fresh ids and an embedding
  -- of the column's dimension for each piece of the content, if the database takes the completion of the
  -- job, the attempt goes through: the document is
  -- INDEXED, its chunks are those of the uploaded content, and the rows of the job are completed.
  pub upload-process :
      (size overlap : ℤ) (doc : Document) (es : List (Embedding F))
      → (upload sha256 max_attempts job_id uploaded_at job.tenant_id job.document_id content w).0
        ≡ ok tt
      → HasOneContent job.tenant_id job.document_id w.store.contents
      → check_table w.documents ≡ ok tt
      → stored_document job.tenant_id job.document_id w.documents ≡ ok (some doc)
      → Edge doc.status ingesting
      → chunking_config size overlap ≡ ok config
      → IsReady clock job w.store
      → IsEmbedded embed (split config content) es
      → clock.complete_error ≡ none
      → ((process embed config clock job repr uploaded).0 ≡ ok tt)
        × IsFinished config clock job order uploaded doc es content
            (process embed config clock job repr uploaded).1
  upload-process size overlap doc es accepted one c found edge h ready l up =
      let (store, documents) =
        upload-written sha256 max_attempts job_id uploaded_at job.tenant_id job.document_id content
          w accepted in
      process-IsFinished embed config clock job order by_ordinal repr uploaded
        (subst (IsReady clock job) (sym store) (contents-IsReady clock job w.store _ ready)) size
        overlap doc content es (subst (λ t. check_table t ≡ ok tt) (sym documents) c)
        (subst (λ t. stored_document job.tenant_id job.document_id t ≡ ok (some doc))
          (sym documents) found)
        edge h
        (upload-content sha256 max_attempts job_id uploaded_at job.tenant_id job.document_id content
          w accepted one)
        l up
