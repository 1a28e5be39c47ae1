-- ===== src/Ingestion/Pipeline.antt =====
-- src/eka/modules/ingestion/application/pipeline.py and src/eka/worker.py: the ingestion of one job
-- and the worker's loop over a batch. The database is one value; each part opens the session that the
-- code opens. The embedding model, `repr` and the database's sort are parameters.
pub mod Retries
pub mod Success
pub mod Indexing
pub mod Indexed
pub mod Dimension
pub mod Settled
pub mod Attempts
pub mod Finished
use eka_knowledge_assistant.Prelude.{
  ℕ, zero, suc, ◌+◌, ◌-◌, ◌*◌, ◌/◌, ◌%◌, ◌^◌, ◌≤◌, ◌<◌, min, max, String, ◌≡◌, refl, sym, ap, ◌∙◌,
  subst, ◌≢◌, ◌↔◌, ◌⊎◌, inl, inr, Bool, true, false, ◌&&◌, ◌||◌, not, Option, none, some, List, [],
  ◌∷◌, ◌++◌, map, arith, ltb, leb, ◌==◌, if◌then◌else◌, ltb→lt, lt→ltb, leb→le, le→leb, ==_iff,
  ==_refl, Bool-cases, Option-cases, &&-eq-true, length, is_empty, take, drop, get_elem?, filter,
  any, find?, All, length-append, length-take, length-drop, length-map, take-append-drop,
  All-append, All-append_left, All-append_right, All-take, All-drop, All-filter, All-of, All-mono,
  All-apply, filter-All, filter-append, filter-eq-nil, All-of_filter, any-eq-false, any_of_All,
  unique, unique-All, unique-map, unique-snoc, any_self, any-map, All-map, KeepsItems,
  KeepsItems-All, Text, codes, text_eq, is_space, lstrip, rstrip, strip, is_blank, text_eq→eq,
  text_eq_refl, text_eq_iff, length-lstrip-le, length-rstrip-le, length-strip-le, strip_idem,
  rstrip-strip, strip-eq-nil_iff, ℤ, pos, negsuc, pos_part, neg_part, ltb_ℤ, eq_ℤ, Exception,
  validation_error, invariant_violation, state_transition_error, not_found_error, conflict_error,
  authentication_error, content_missing_error, value_error, key_error, integrity_error, data_error,
  multiple_results_found, other_exception, Result, ok, err, Action, and_then, map_result,
  bind_result, ◌>>=◌, ◌>>◌, bind_result-eq-ok, map_result-eq-ok, Result-cases, pure, raise, lift,
  gets, modify,
}
use eka_knowledge_assistant.Shared.Transaction.{Session, commit, with_uow}
use eka_knowledge_assistant.Documents.Document.{Uuid, Instant}
use eka_knowledge_assistant.Documents.Repository.{Table}
use eka_knowledge_assistant.Documents.Commands.{mark_ingesting, mark_indexed, mark_failed}
use eka_knowledge_assistant.Ingestion.Jobs.{IngestionJob, Jobs, dequeue, complete, fail}
use eka_knowledge_assistant.Ingestion.Chunking.{ChunkingConfig, TextPiece, split}
use eka_knowledge_assistant.Ingestion.Chunks.{
  Embedding, Chunk, Store, create, replace_for_document, get_content, check_store,
}

pub record World (F : Type 0) : Type 0 where
  pub documents : Table
  pub store : Store F
  pub jobs : Jobs

-- What `utcnow()` and `new_uuid()` return while one job is processed, and what the database raises
-- when the queue ends the job, if it fails there.
pub record Clock : Type 0 where
  pub now : Instant
  pub new_id : ℕ → Uuid
  pub complete_error : Option Exception
  pub fail_error : Option Exception

-- A transaction that the database can refuse.
abbrev pub unless_down : {S A : Type 0} → Option Exception → Action S A → Action S A
unless_down none m = m
unless_down (some e) m = raise e

module _ {F : Type 0} where
  abbrev pub on_documents : {A : Type 0} → Action Table A → Action (World F) A
  on_documents m w = ((m w.documents).0, record w { documents = (m w.documents).1 })

  abbrev pub on_store : {A : Type 0} → Action (Store F) A → Action (World F) A
  on_store m w = ((m w.store).0, record w { store = (m w.store).1 })

  abbrev pub on_jobs : {A : Type 0} → Action Jobs A → Action (World F) A
  on_jobs m w = ((m w.jobs).0, record w { jobs = (m w.jobs).1 })

  -- [Chunk.create(…) for piece, embedding in zip(pieces, embeddings, strict=True)]
  unfoldable pub create_chunks :
      (ℕ → Uuid) → IngestionJob → List TextPiece → List (Embedding F) → Result (List (Chunk F))
  create_chunks new_id job [] [] = ok []
  create_chunks new_id job [] (e ∷ es) = err value_error
  create_chunks new_id job (p ∷ ps) [] = err value_error
  create_chunks new_id job (p ∷ ps) (e ∷ es) =
      bind_result
        (create (new_id p.ordinal) job.tenant_id job.document_id job.collection_id
          job.document_version (pos p.ordinal) p.text e)
        λ c. bind_result (create_chunks new_id job ps es) λ cs. ok (c ∷ cs)

  module _ (embed : List Text → Result (List (Embedding F))) (config : ChunkingConfig)
      (clock : Clock) (job : IngestionJob) where
    unfoldable pub index_pieces : List TextPiece → Action (Session (Store F)) (Unit {0})
    index_pieces [] =
        replace_for_document clock.now job.tenant_id job.document_id [] >> commit check_store
    index_pieces (p ∷ ps) = do
      embeddings ← lift (embed (map (λ q. q.text) (p ∷ ps)))
      chunks ← lift (create_chunks clock.new_id job (p ∷ ps) embeddings)
      replace_for_document clock.now job.tenant_id job.document_id chunks
      commit check_store

    unfoldable pub index_content : Option Text → Action (Session (Store F)) (Unit {0})
    index_content none = raise (content_missing_error "no stored content for document")
    index_content (some text) = index_pieces (split config text)

    -- The unit of work of the handler.
    unfoldable pub index_document : Action (Store F) (Unit {0})
    index_document = with_uow (get_content job.tenant_id job.document_id >>= index_content)

    -- IngestDocumentHandler.handle
    unfoldable pub handle : Action (World F) (Unit {0})
    handle =
        on_documents (mark_ingesting clock.now job.tenant_id job.document_id)
        >> on_store index_document
        >> on_documents (mark_indexed clock.now job.tenant_id job.document_id)

    -- The handler's `except` branch. A failure of `mark_failed` is logged and dropped.
    abbrev pub give_up : Bool → Action (World F) (Unit {0})
    give_up false w = (ok tt, w)
    give_up true w =
        (ok tt, (on_documents (mark_failed clock.now job.tenant_id job.document_id) w).1)

    abbrev pub finish : (Exception → Text) → Result (Unit {0}) → Action (World F) (Unit {0})
    finish repr (ok u) = pure tt
    finish repr (err e) =
        on_jobs (unless_down clock.fail_error (fail clock.now job (repr e))) >>= give_up

    -- IngestionWorker._process
    unfoldable pub process : (Exception → Text) → Action (World F) (Unit {0})
    process repr w =
        let completing = on_jobs (unless_down clock.complete_error (complete clock.now job)) in
        let tried = (handle >> completing) w in finish repr tried.0 tried.1

  module _ (embed : List Text → Result (List (Embedding F))) (config : ChunkingConfig)
      (repr : Exception → Text) where
    -- The clocks are those of the jobs of the batch, in their order.
    unfoldable pub process_all : (ℕ → Clock) → List IngestionJob → Action (World F) (Unit {0})
    process_all clocks [] = pure tt
    process_all clocks (job ∷ jobs) =
        process embed config (clocks 0) job repr >> process_all (λ i. clocks (i + 1)) jobs

    -- IngestionWorker._drain_once
    unfoldable pub drain_once :
        (order : Jobs → Jobs) (locked : Uuid → Bool) (now : Instant) (clocks : ℕ → Clock)
        (worker_id : Text) (batch_size : ℕ)
        → Action (World F) ℕ
    drain_once order locked now clocks worker_id batch_size = do
      jobs ← on_jobs (dequeue order locked now worker_id batch_size)
      process_all clocks jobs
      pure (length jobs)
