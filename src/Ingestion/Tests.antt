-- ===== src/Ingestion/Tests.antt =====
-- The theorems of the ingestion context at small queues, texts and documents.
use eka_knowledge_assistant.Prelude.{
  ℕ, zero, suc, ◌+◌, ◌-◌, ◌*◌, ◌≤◌, min, ◌⊎◌, Exception, ◌≡◌, refl, sym, ap, subst, ◌≢◌, ◌↔◌, Bool,
  true, false, ◌&&◌, not, none, some, List, [], ◌∷◌, map, arith, ltb, ◌==◌, length, any, All,
  KeepsItems, Text, codes, is_space, lstrip, rstrip, strip, is_blank, pos, ltb_ℤ,
  content_missing_error, data_error, Result, ok, err,
}
use eka_knowledge_assistant.Ingestion.Jobs.Abandoned.{
  IsHeld, no_step, then_enqueue, then_dequeue, abandoned_job,
}
use eka_knowledge_assistant.Ingestion.Pipeline.Attempts.{
  total_attempts_left, begun, and_enqueue, and_dequeue, and_attempt, attempts_bounded,
}
use eka_knowledge_assistant.Ingestion.Uploads.Stored.{HasOneContent}
use eka_knowledge_assistant.Ingestion.Completion.{upload-process}
use eka_knowledge_assistant.Ingestion.Pipeline.Finished.{IsFinished, process-IsFinished}
use eka_knowledge_assistant.Documents.Document.Lifecycle.{start_ingestion}
use eka_knowledge_assistant.Documents.Document.{registered}
use eka_knowledge_assistant.Shared.Builtins.{Floats}
use eka_knowledge_assistant.Config.{default_settings, is_valid}
use eka_knowledge_assistant.Ingestion.Chunking.{TextPiece}
use eka_knowledge_assistant.Ingestion.Chunking.NonBlank.{split_some_text}
use eka_knowledge_assistant.Ingestion.Chunks.{ChunkModel, Store, dimension}
use eka_knowledge_assistant.Ingestion.Chunks.Replaced.{SortsByOrdinal, IsReplacement}
use eka_knowledge_assistant.Ingestion.Embedding.{HashingEmbeddingModel, embed, embed-HasDimension}
use eka_knowledge_assistant.Ingestion.Pipeline.Indexing.{chunks_of}
use eka_knowledge_assistant.Ingestion.Pipeline.Indexed.{
  IsReady, IsEmbedded, index_document-IsReplacement,
}
use eka_knowledge_assistant.Ingestion.Pipeline.Dimension.{wrong_dimension}
use eka_knowledge_assistant.Ingestion.Pipeline.Settled.{Settles, process-Settles}
use eka_knowledge_assistant.Ingestion.Worker.{Worker, build_worker, Turn}
use eka_knowledge_assistant.Ingestion.Worker.Built.{IsWorkerOf, build_worker_iff}
use eka_knowledge_assistant.Shared.Transaction.{scalar_one_or_none, commit, with_uow}
use eka_knowledge_assistant.Documents.Document.{
  Uuid, Document, upload, registered, ingesting, indexed,
}
use eka_knowledge_assistant.Documents.Document as D
use eka_knowledge_assistant.Documents.Repository.{
  DocumentModel, clashes, is_unique, fits_columns, check_table, status_value, parse_status,
  source_value, parse_source, to_domain, apply, upsert, save, is_live, get_query, get,
}
use eka_knowledge_assistant.Documents.Commands.{
  DocumentDto, from_aggregate, save_changed, update_document, mark_ingesting,
}
use eka_knowledge_assistant.Documents.Queries.{get_handle}
use eka_knowledge_assistant.Ingestion.Jobs.{
  processing, IngestionJobModel, IngestionJob, EnqueueRequest, Jobs, new_job, has_key, to_job,
  enqueue, dequeue, ready_rows, is_ready, fail,
}
use eka_knowledge_assistant.Ingestion.Jobs.Claims.{
  claims, claimed_jobs, no_double_claim, dequeue-claims,
}
use eka_knowledge_assistant.Ingestion.Jobs.Life.{
  IsClaim, IsQueue, start, and_next, enqueued, dequeued, job_failed,
}
use eka_knowledge_assistant.Ingestion.Jobs.Reach.{QueueReach-IsQueue}
use eka_knowledge_assistant.Ingestion.Jobs.Enqueue.{enqueue_once}
use eka_knowledge_assistant.Ingestion.JobQueries.{ListJobsQuery}
use eka_knowledge_assistant.Ingestion.Chunking.{
  ChunkingConfig, chunking_config, split, enumerate, merge_with_overlap, merge_step,
  recursive_split,
}
use eka_knowledge_assistant.Ingestion.Chunking.Bounds.{split_bounded}
use eka_knowledge_assistant.Ingestion.Chunks.{
  Embedding, get_content, owns_content, put, check_store,
}
use eka_knowledge_assistant.Ingestion.Pipeline.{
  World, Clock, handle, process, index_document, index_content,
}
use eka_knowledge_assistant.Ingestion.Pipeline.Retries.{stuck, retry_fails}
use eka_knowledge_assistant.Ingestion.Uploads.{upload as upload_content, accept}
use eka_knowledge_assistant.Ingestion.Uploads.Accepted.{IsAccepted, upload-IsAccepted}

abbrev request : EnqueueRequest
request = record {
  tenant_id = 1;
  document_id = 7;
  collection_id = 2;
  document_version = 1;
  max_attempts = 2;
}

abbrev queued : Jobs
queued = new_job 70 100 request ∷ []

enqueue_first : enqueue 70 100 request [] ≡ (ok tt, queued)
unfolding enqueue
enqueue_first = refl

enqueue_once_example :
    (any (has_key 7 1) (enqueue 70 100 request []).1 ≡ true)
    × (enqueue 71 200 request (enqueue 70 100 request []).1
        ≡ (ok tt, (enqueue 70 100 request []).1))
enqueue_once_example =
    enqueue_once 70 71 100 200 request request [] refl refl (ap (λ x. x.0) enqueue_first)

abbrev unlocked : Uuid → Bool
unlocked id = false

rows-KeepsItems : KeepsItems {A = IngestionJobModel} (λ t. t)
rows-KeepsItems = record { keeps = λ p xs. refl }

no_double_claim_example :
    let first = dequeue (λ t. t) unlocked 100 (codes "a") 5 queued in
    let second = dequeue (λ t. t) unlocked 150 (codes "b") 5 first.1 in
    All (λ j. claims (claimed_jobs first) j.id ≡ false) (claimed_jobs second)
no_double_claim_example =
    no_double_claim (λ t. t) rows-KeepsItems unlocked unlocked 100 150 (codes "a") (codes "b") 5 5
      queued

dequeue-claims_example :
    let result = dequeue (λ t. t) unlocked 100 (codes "a") 5 queued in
    (length (claimed_jobs result) ≤ 5)
    × All
        (λ j. any (λ r. r.id == j.id && (is_ready 100 r && not (unlocked r.id))) queued ≡ true)
        (claimed_jobs result)
    × All
        (λ r.
          claims (claimed_jobs result) r.id ≡ true
          → (r.status ≡ processing) × (r.locked_by ≡ some (codes "a")))
        result.1
    × (length result.1 ≡ length queued)
dequeue-claims_example = dequeue-claims (λ t. t) rows-KeepsItems unlocked 100 (codes "a") 5 queued

abbrev claimed : Jobs
claimed = (dequeue (λ t. t) unlocked 100 (codes "a") 5 (enqueue 70 100 request []).1).1

job-IsClaim : IsClaim (to_job (new_job 70 100 request)) claimed
unfolding enqueue dequeue ready_rows is_ready
job-IsClaim = ((λ h. (refl, refl)), tt)

QueueReach-IsQueue_example :
    IsQueue (fail 120 (to_job (new_job 70 100 request)) (codes "boom") claimed).1
QueueReach-IsQueue_example = QueueReach-IsQueue (
    and_next
      (and_next (and_next start (enqueued 70 100 request (omega arith)))
        (dequeued (λ t. t) unlocked 100 (codes "a") 5 rows-KeepsItems))
      (job_failed 120 (to_job (new_job 70 100 request)) (codes "boom") job-IsClaim))

abbrev config : ChunkingConfig
config = record { chunk_size = 6; chunk_overlap = 2 }

split_bounded_example :
    All (λ p. length p.text ≤ 6 + 2 + 1) (split config (codes "one two three four"))
unfolding chunking_config
split_bounded_example = split_bounded (pos 6) (pos 2) config (codes "one two three four") refl

abbrev jobs_query : ListJobsQuery
jobs_query = record {
  tenant_id = 1;
  page = record { limit = 1; offset = 0; sort = none };
  status = none;
}

abbrev repeat : ℕ → ℕ → Text
repeat zero c = []
repeat (suc n) c = c ∷ repeat n c

abbrev row : Text → DocumentModel
row status = record {
  id = 7;
  tenant_id = 1;
  collection_id = 2;
  title = codes "Handbook";
  source_type = codes "upload";
  source_uri = codes "file";
  content_hash = repeat 64 97;
  status = status;
  version = 1;
  created_at = 10;
  updated_at = 10;
}

abbrev Floating : Type 0
Floating = ℕ

abbrev no_embedding : List Text → Result (List (Embedding Floating))
no_embedding texts = ok []

abbrev clock : ℕ → Clock
clock now = record { now = now; new_id = λ n. 1000 + n; complete_error = none; fail_error = none }

abbrev job : IngestionJob
job = to_job (new_job 70 100 request)

abbrev world : Text → World Floating
world status = record {
  documents = row status ∷ [];
  store = record { chunks = []; contents = [] };
  jobs = claimed;
}

-- No content is stored, so the first attempt fails.
retry_fails_example :
    ((handle no_embedding config (clock 120) job (world (codes "registered"))).0
      ≡ err (content_missing_error "no stored content for document"))
    × (handle no_embedding config
          (clock 200)
          job
          (handle no_embedding config (clock 120) job (world (codes "registered"))).1
        ≡ (err stuck, (handle no_embedding config (clock 120) job (world (codes "registered"))).1))
unfolding D.is_hex D.matches_hex D.content_hash D.title D.record_event D.allowed_transitions
    D.transition D.mark_ingesting clashes is_unique fits_columns check_table status_value
    parse_status source_value parse_source to_domain apply upsert save is_live get_query get
    save_changed update_document mark_ingesting scalar_one_or_none commit with_uow is_space lstrip
    rstrip strip index_document index_content get_content owns_content
retry_fails_example =
    retry_fails no_embedding config (clock 120) (clock 200) job (world (codes "registered"))
      (handle no_embedding config (clock 120) job (world (codes "registered"))).1
      (content_missing_error "no stored content for document") refl refl refl refl

abbrev ingesting_document : Document
ingesting_document = record {
  id = 7;
  tenant_id = 1;
  collection_id = 2;
  title = record { value = codes "Handbook" };
  source_type = upload;
  source_uri = codes "file";
  content_hash = record { value = repeat 64 97 };
  status = ingesting;
  version = 1;
  created_at = 10;
  updated_at = 10;
  events = [];
}

upload-IsAccepted_example :
    (document : DocumentDto) × (get_handle
        (record { tenant_id = 1; document_id = 7 })
        (row (codes "registered") ∷ [])
      ≡ ok document)
    × IsAccepted
        (λ t. repeat 64 97)
        2
        80
        300
        1
        7
        (codes "hello")
        (world (codes "registered"))
        document
        (upload_content
          (λ t. repeat 64 97)
          2
          80
          300
          1
          7
          (codes "hello")
          (world (codes "registered"))).1
unfolding D.is_hex D.matches_hex D.content_hash D.title D.record_event D.allowed_transitions
    D.transition D.mark_ingesting clashes is_unique fits_columns check_table status_value
    parse_status source_value parse_source to_domain apply upsert save is_live get_query get
    save_changed update_document mark_ingesting scalar_one_or_none commit with_uow is_space lstrip
    rstrip strip from_aggregate get_handle upload_content accept put check_store enqueue dequeue
    ready_rows
upload-IsAccepted_example =
    upload-IsAccepted (λ t. repeat 64 97) 2 80 300 1 7 (codes "hello") (world (codes "registered"))
      refl

abbrev one_embedding : List Text → Result (List (Embedding Floating))
one_embedding texts = ok (record { values = repeat 384 1 } ∷ [])

abbrev ready_world : World Floating
ready_world = record (world (codes "registered")) {
  store = record {
    chunks = [];
    contents =
        record {
          document_id = 7;
          tenant_id = 1;
          text = codes "abc";
          created_at = 90;
          updated_at = 90;
        }
        ∷ [];
  };
}

split_some_text_example :
    All (λ p. is_blank p.text ≡ false) (split config (codes "one two  three four"))
unfolding chunking_config
split_some_text_example = split_some_text (pos 6) (pos 2) config (codes "one two  three four") refl

abbrev wide_embedding : Embedding Floating
wide_embedding = record { values = repeat 384 1 }

abbrev wide_embeddings : List Text → Result (List (Embedding Floating))
wide_embeddings texts = ok (map (λ t. wide_embedding) texts)

abbrev old_chunk : Uuid → Uuid → ChunkModel Floating
old_chunk id document_id = record {
  id = id;
  tenant_id = 1;
  document_id = document_id;
  collection_id = 2;
  document_version = 1;
  ordinal = pos 0;
  text = codes "old";
  embedding = repeat 384 2;
  created_at = 50;
}

abbrev old_store : Store Floating
old_store = record {
  chunks = old_chunk 500 7 ∷ old_chunk 501 8 ∷ [];
  contents = ready_world.store.contents;
}

same_order : SortsByOrdinal {F = Floating} (λ t. t)
same_order = record { sorted = λ ms h. refl }

old_store-IsReady : IsReady (clock 120) job old_store
unfolding check_store
old_store-IsReady = record {
  valid = refl;
  single = (refl, (refl, tt));
  distinct = λ i j h. omega arith;
  fresh = λ i. (ground arith, (ground arith, tt));
}

abbrev pieces : List TextPiece
pieces = record { ordinal = 0; text = codes "abc" } ∷ []

abc-split : split config (codes "abc") ≡ pieces
unfolding split enumerate merge_with_overlap merge_step recursive_split is_space lstrip rstrip strip
abc-split = refl

pieces-IsEmbedded : IsEmbedded wide_embeddings (split config (codes "abc")) (wide_embedding ∷ [])
unfolding dimension
pieces-IsEmbedded =
    subst (λ ps. IsEmbedded wide_embeddings ps (wide_embedding ∷ [])) (sym abc-split)
      (record { answer = refl; each = refl; wide = (refl, tt) })

index_document-IsReplacement_example :
    ((index_document wide_embeddings config (clock 120) job old_store).0 ≡ ok tt)
    × IsReplacement
        (λ t. t)
        1
        7
        (chunks_of (clock 120).new_id job (split config (codes "abc")) (wide_embedding ∷ []))
        old_store
        (index_document wide_embeddings config (clock 120) job old_store).1
unfolding chunking_config get_content owns_content scalar_one_or_none
index_document-IsReplacement_example =
    index_document-IsReplacement wide_embeddings config (clock 120) job (λ t. t) same_order
      old_store old_store-IsReady (pos 6) (pos 2) (codes "abc") (wide_embedding ∷ []) refl refl
      pieces-IsEmbedded

-- Whole numbers in place of the floats.
abbrev floats : Floats Floating
floats = record {
  of_nat = λ n. n;
  add = λ a b. a + b;
  sub = λ a b. a - b;
  mul = λ a b. a * b;
  div = λ a b. min a b;
  sqrt = λ a. a;
  lt = ltb;
  is_zero = λ a. a == 0;
}

abbrev digest : Text → List ℕ
digest t = repeat 20 1

digest_size : (t : Text) → length (digest t) ≡ 20
digest_size t = refl

abbrev small_model : HashingEmbeddingModel
small_model = record { dimension = 8 }

embed-HasDimension_example :
    (es : List (Embedding Floating)) × (embed floats
        (λ t. t)
        digest
        small_model
        (codes "one two" ∷ codes "x" ∷ [])
      ≡ ok es)
    × (length es ≡ 2)
    × All (λ e. dimension e ≡ 8) es
embed-HasDimension_example =
    embed-HasDimension floats (λ t. t) digest digest_size small_model
      (codes "one two" ∷ codes "x" ∷ []) (omega arith)

small : small_model.dimension ≢ 384
small h = absurd (omega (arith, h))

wrong_dimension_example :
    index_document (embed floats (λ t. t) digest small_model) config (clock 120) job old_store
    ≡ (err data_error, old_store)
unfolding chunking_config get_content owns_content scalar_one_or_none is_blank is_space
wrong_dimension_example =
    wrong_dimension floats (λ t. t) digest digest_size small_model (pos 6) (pos 2) config
      (clock 120) job (codes "abc") old_store (omega arith) small refl refl refl

process-Settles_example :
    (((process no_embedding config
          (clock 120)
          job
          (λ e. codes "error")
          (world (codes "registered"))).0
        ≡ ok tt)
      × Settles job claimed
          (process no_embedding config
            (clock 120)
            job
            (λ e. codes "error")
            (world (codes "registered"))).1.jobs)
    ⊎ ((e : Exception) × ((clock 120).fail_error ≡ some e)
        × ((process no_embedding config
              (clock 120)
              job
              (λ e. codes "error")
              (world (codes "registered"))).0
            ≡ err e)
        × ((process no_embedding config
              (clock 120)
              job
              (λ e. codes "error")
              (world (codes "registered"))).1.jobs
            ≡ claimed))
process-Settles_example =
    process-Settles no_embedding config (clock 120) job (λ e. codes "error")
      (world (codes "registered"))

abbrev failed_once : World Floating
failed_once =
    (process no_embedding config (clock 120) (to_job (new_job 70 100 request)) (λ e. codes "error")
      (record ready_world { jobs = claimed })).1

claimed_row_exists : any (λ r. r.id == 70) claimed ≡ true
unfolding enqueue dequeue ready_rows is_ready
claimed_row_exists = refl

attempts_bounded_example : 1 + total_attempts_left failed_once.jobs ≤ 2
attempts_bounded_example = attempts_bounded (
    and_attempt no_embedding config (clock 120) (to_job (new_job 70 100 request))
      (λ e. codes "error")
      (and_dequeue (λ t. t) unlocked 100 (codes "a") 5
        (and_enqueue 70 100 request (begun (record ready_world { jobs = [] }) refl) (omega arith))
        rows-KeepsItems)
      job-IsClaim claimed_row_exists refl)

claimed-IsHeld : IsHeld 70 claimed
unfolding enqueue dequeue ready_rows is_ready
claimed-IsHeld = record { present = refl; rows = ((λ h. refl), tt) }

-- Another worker polls an hour later, after a second upload.
abandoned_job_example :
    let later =
      (dequeue (λ t. t) unlocked 3600000000 (codes "b") 5 (enqueue 71 200 request claimed).1).1 in
    IsHeld 70 later
    × (claims (claimed_jobs (dequeue (λ t. t) unlocked 7200000000 (codes "c") 5 later)) 70 ≡ false)
abandoned_job_example =
    abandoned_job 70 claimed
      (dequeue (λ t. t) unlocked 3600000000 (codes "b") 5 (enqueue 71 200 request claimed).1).1
      claimed-IsHeld
      (then_dequeue (λ t. t) unlocked 3600000000 (codes "b") 5
        (then_enqueue 71 200 request no_step))
      (λ t. t) rows-KeepsItems unlocked 7200000000 (codes "c") 5

-- The stop event is set before the second turn.
abbrev turns : ℕ → Turn Floating
turns i = record {
  stopping = ltb 0 i;
  others = λ w. w;
  locked = unlocked;
  now = 100 + i;
  clocks = λ j. clock (120 + i + j);
}

abbrev waiting_world : World Floating
waiting_world = record ready_world { jobs = queued }

build_worker_iff_example :
    (ltb_ℤ (pos 120) (pos 800) ≡ true)
    ↔ ((w : Worker) × (build_worker default_settings ≡ ok w) × IsWorkerOf default_settings w)
unfolding is_valid
build_worker_iff_example = build_worker_iff default_settings refl

abbrev complete_world : World Floating
complete_world = record ready_world { store = old_store }

abbrev registered_document : Document
registered_document = record ingesting_document { status = registered }

process-IsFinished_example :
    ((process wide_embeddings config (clock 120) job (λ e. codes "error") complete_world).0 ≡ ok tt)
    × IsFinished config
        (clock 120)
        job
        (λ t. t)
        complete_world
        registered_document
        (wide_embedding ∷ [])
        (codes "abc")
        (process wide_embeddings config (clock 120) job (λ e. codes "error") complete_world).1
unfolding chunking_config get_content owns_content scalar_one_or_none D.is_hex D.matches_hex
    D.content_hash D.title parse_source parse_status to_domain get_query is_live check_table
    fits_columns is_unique clashes is_space lstrip rstrip strip
process-IsFinished_example =
    process-IsFinished wide_embeddings config (clock 120) job (λ t. t) same_order
      (λ e. codes "error") complete_world old_store-IsReady (pos 6) (pos 2) registered_document
      (codes "abc") (wide_embedding ∷ []) refl refl start_ingestion refl refl pieces-IsEmbedded refl

abbrev named_hash : Text → Text
named_hash t = repeat 64 97

old_contents-HasOneContent : HasOneContent 1 7 old_store.contents
old_contents-HasOneContent = record { one = refl; ours = (refl, tt) }

upload-process_example :
    ((process wide_embeddings config
        (clock 120)
        job
        (λ e. codes "error")
        (upload_content named_hash 2 80 110 1 7 (codes "abc") complete_world).1).0
      ≡ ok tt)
    × IsFinished config
        (clock 120)
        job
        (λ t. t)
        (upload_content named_hash 2 80 110 1 7 (codes "abc") complete_world).1
        registered_document
        (wide_embedding ∷ [])
        (codes "abc")
        (process wide_embeddings config
          (clock 120)
          job
          (λ e. codes "error")
          (upload_content named_hash 2 80 110 1 7 (codes "abc") complete_world).1).1
unfolding chunking_config scalar_one_or_none D.is_hex D.matches_hex D.content_hash D.title
    parse_source parse_status to_domain get_query get is_live check_table fits_columns is_unique
    clashes is_space lstrip rstrip strip upload_content accept get_handle from_aggregate put
    with_uow commit check_store enqueue dequeue ready_rows
upload-process_example =
    upload-process named_hash 2 80 110 (codes "abc") wide_embeddings config (clock 120) job (λ t. t)
      same_order (λ e. codes "error") complete_world (pos 6) (pos 2) registered_document
      (wide_embedding ∷ []) refl old_contents-HasOneContent refl refl start_ingestion refl
      old_store-IsReady pieces-IsEmbedded refl
