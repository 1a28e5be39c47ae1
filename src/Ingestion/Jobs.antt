-- ===== src/Ingestion/Jobs.antt =====
-- src/eka/modules/ingestion/application/jobs.py and infrastructure/queue.py: the retry policy and
-- the queue over the `ingestion_jobs` table. Each operation is one transaction of its own.
pub mod Backoff
pub mod Claims
pub mod Life
pub mod Reach
pub mod Abandoned
pub mod Enqueue
use eka_knowledge_assistant.Prelude.{
  ℕ, zero, suc, ◌+◌, ◌-◌, ◌*◌, ◌/◌, ◌%◌, ◌^◌, ◌≤◌, ◌<◌, min, max, String, ◌≡◌, refl, sym, ap, ◌∙◌,
  subst, ◌≢◌, ◌↔◌, ◌⊎◌, inl, inr, Bool, true, false, ◌&&◌, ◌||◌, not, Option, none, some, List, [],
  ◌∷◌, ◌++◌, map, arith, ltb, leb, ◌==◌, if◌then◌else◌, ltb→lt, lt→ltb, leb→le, le→leb, ==_iff,
  ==_refl, Bool-cases, Option-cases, &&-eq-true, length, is_empty, take, drop, get_elem?, filter,
  any, find?, All, length-append, length-take, length-drop, length-map, take-append-drop,
  All-append, All-append_left, All-append_right, All-take, All-drop, All-filter, All-of, All-mono,
  filter-All, filter-append, filter-eq-nil, All-of_filter, any-eq-false, any_of_All, Text, codes,
  text_eq, is_space, lstrip, rstrip, strip, is_blank, text_eq→eq, text_eq_refl, text_eq_iff,
  length-lstrip-le, length-rstrip-le, length-strip-le, strip_idem, rstrip-strip, strip-eq-nil_iff,
  ℤ, pos, negsuc, pos_part, neg_part, ltb_ℤ, Exception, validation_error, invariant_violation,
  state_transition_error, not_found_error, conflict_error, authentication_error,
  content_missing_error, value_error, key_error, integrity_error, data_error,
  multiple_results_found, other_exception, Result, ok, err, Action, and_then, map_result,
  bind_result, ◌>>=◌, ◌>>◌, bind_result-eq-ok, map_result-eq-ok, Result-cases, pure, raise, lift,
  gets, modify,
}
use eka_knowledge_assistant.Documents.Document.{Uuid, Instant}

abbrev pub base_backoff_seconds : ℕ
base_backoff_seconds = 5

abbrev pub max_backoff_seconds : ℕ
max_backoff_seconds = 3600

unfoldable pub compute_backoff_seconds : ℕ → ℕ
compute_backoff_seconds attempts =
    if ltb attempts 1
    then 0
    else min (base_backoff_seconds * 2 ^ (attempts - 1)) max_backoff_seconds

pub data JobStatus : Type 0 where
  pending processing completed dead_letter : JobStatus

abbrev pub is_pending : JobStatus → Bool
is_pending pending = true
is_pending _ = false

-- IngestionJobModel; the status column holds the value of a JobStatus.
pub record IngestionJobModel : Type 0 where
  pub id : Uuid
  pub tenant_id : Uuid
  pub document_id : Uuid
  pub collection_id : Uuid
  pub document_version : ℕ
  pub status : JobStatus
  pub attempts : ℕ
  pub max_attempts : ℕ
  pub available_at : Instant
  pub locked_at : Option Instant
  pub locked_by : Option Text
  pub last_error : Option Text
  pub created_at : Instant
  pub updated_at : Instant

abbrev pub Jobs : Type 0
Jobs = List IngestionJobModel

pub record IngestionJob : Type 0 where
  pub id : Uuid
  pub tenant_id : Uuid
  pub document_id : Uuid
  pub collection_id : Uuid
  pub document_version : ℕ
  pub attempts : ℕ
  pub max_attempts : ℕ

-- The arguments of `enqueue`.
pub record EnqueueRequest : Type 0 where
  pub tenant_id : Uuid
  pub document_id : Uuid
  pub collection_id : Uuid
  pub document_version : ℕ
  pub max_attempts : ℕ

abbrev pub new_job : Uuid → Instant → EnqueueRequest → IngestionJobModel
new_job id now r = record {
  id = id;
  tenant_id = r.tenant_id;
  document_id = r.document_id;
  collection_id = r.collection_id;
  document_version = r.document_version;
  status = pending;
  attempts = 0;
  max_attempts = r.max_attempts;
  available_at = now;
  locked_at = none;
  locked_by = none;
  last_error = none;
  created_at = now;
  updated_at = now;
}

-- The columns of uq_jobs_document_version.
abbrev pub has_key : Uuid → ℕ → IngestionJobModel → Bool
has_key document_id version r = r.document_id == document_id && r.document_version == version

-- INSERT … ON CONFLICT (document_id, document_version) DO NOTHING; the primary key still raises.
unfoldable pub enqueue : Uuid → Instant → EnqueueRequest → Action Jobs (Unit {0})
enqueue id now request jobs =
    if any (has_key request.document_id request.document_version) jobs
    then (ok tt, jobs)
    else if any (λ r. r.id == id) jobs
    then (err integrity_error, jobs)
    else (ok tt, jobs ++ new_job id now request ∷ [])

abbrev pub to_job : IngestionJobModel → IngestionJob
to_job r = record {
  id = r.id;
  tenant_id = r.tenant_id;
  document_id = r.document_id;
  collection_id = r.collection_id;
  document_version = r.document_version;
  attempts = r.attempts;
  max_attempts = r.max_attempts;
}

unfoldable pub is_ready : Instant → IngestionJobModel → Bool
is_ready now r = is_pending r.status && leb r.available_at now

abbrev pub claim : Instant → Text → IngestionJobModel → IngestionJobModel
claim now worker_id r = record r {
  status = processing;
  locked_at = some now;
  locked_by = some worker_id;
  updated_at = now;
}

-- Whether one of the rows is the row with the identifier.
abbrev pub has_id : Uuid → Jobs → Bool
has_id id rows = any (λ r. r.id == id) rows

-- SELECT … WHERE ready ORDER BY available_at LIMIT n FOR UPDATE SKIP LOCKED. `order` is the
-- database's sort and `locked` tells the rows that other transactions hold. The column locked_by is
-- String(64).
module _ (order : Jobs → Jobs) (locked : Uuid → Bool) where
  unfoldable pub ready_rows : Instant → ℕ → Jobs → Jobs
  unfolding is_ready
  ready_rows now batch_size jobs =
      take batch_size (order (filter (λ r. is_ready now r && not (locked r.id)) jobs))

  unfoldable pub dequeue : Instant → Text → ℕ → Action Jobs (List IngestionJob)
  dequeue now worker_id batch_size jobs =
      let rows = ready_rows now batch_size jobs in
      if is_empty rows || leb (length worker_id) 64
      then (
        ok (map to_job rows),
        map (λ r. if has_id r.id rows then claim now worker_id r else r) jobs,
      )
      else (err data_error, jobs)

-- UPDATE … WHERE id = job.id
abbrev pub update_row : Uuid → (IngestionJobModel → IngestionJobModel) → Jobs → Jobs
update_row id f jobs = map (λ r. if r.id == id then f r else r) jobs

abbrev pub complete_row : Instant → IngestionJobModel → IngestionJobModel
complete_row now r = record r {
  status = completed;
  locked_at = none;
  locked_by = none;
  updated_at = now;
}

unfoldable pub complete : Instant → IngestionJob → Action Jobs (Unit {0})
complete now job jobs = (ok tt, update_row job.id (complete_row now) jobs)

abbrev pub dead_letter_row : Instant → ℕ → Text → IngestionJobModel → IngestionJobModel
dead_letter_row now attempts error r = record r {
  status = dead_letter;
  attempts = attempts;
  last_error = some (take 2000 error);
  locked_at = none;
  locked_by = none;
  updated_at = now;
}

-- Instants count microseconds.
abbrev pub retry_row : Instant → ℕ → Text → IngestionJobModel → IngestionJobModel
retry_row now attempts error r = record r {
  status = pending;
  attempts = attempts;
  available_at = now + compute_backoff_seconds attempts * 1000000;
  last_error = some (take 2000 error);
  locked_at = none;
  locked_by = none;
  updated_at = now;
}

abbrev pub exhausted : IngestionJob → Bool
exhausted job = leb job.max_attempts (job.attempts + 1)

unfoldable pub fail : Instant → IngestionJob → Text → Action Jobs Bool
fail now job error jobs =
    let attempts = job.attempts + 1 in
    if exhausted job
    then (ok true, update_row job.id (dead_letter_row now attempts error) jobs)
    else (ok false, update_row job.id (retry_row now attempts error) jobs)
