-- ===== src/Ingestion/Jobs/Reach.antt =====
-- The queue table after any sequence of operations: its jobs, its locks and its keys.
use eka_knowledge_assistant.Prelude.{
  ◌+◌, ◌<◌, ◌≡◌, refl, sym, ap, inl, inr, true, arith, ◌==◌, leb→le, Bool-cases, All, All-mono,
  All-apply, Text,
}
use eka_knowledge_assistant.Documents.Document.{Uuid, Instant}
use eka_knowledge_assistant.Ingestion.Jobs.{
  processing, IngestionJobModel, IngestionJob, Jobs, to_job, complete, fail, complete_row,
  retry_row, dead_letter_row, exhausted, update_row,
}
use eka_knowledge_assistant.Ingestion.Jobs.Life.{
  IsSound, IsClaim, QueueStep, enqueued, dequeued, job_completed, job_failed, QueueReach, start,
  and_next, All-update_row, IsQueue, KeepsKeys, KeepsKeys-if, map-IsQueue, enqueue-IsQueue,
  dequeue-IsQueue,
}

update_row-IsQueue :
    (id : Uuid) (f : IngestionJobModel → IngestionJobModel) (jobs : Jobs)
    → KeepsKeys f
    → All (λ r. (r.id == id) ≡ true → IsSound (f r)) jobs
    → IsQueue jobs
    → IsQueue (update_row id f jobs)
update_row-IsQueue id f jobs k h q =
    map-IsQueue _ jobs (KeepsKeys-if (λ r. r.id == id) f k) q (All-update_row id f jobs h q.rows)

-- A claimed row has attempts left, and the job says how many.
pub claimed_row_fits :
    (job : IngestionJob) (r : IngestionJobModel)
    → IsSound r
    → (r.status ≡ processing) × (to_job r ≡ job)
    → (r.attempts < r.max_attempts)
      × (job.attempts ≡ r.attempts)
      × (job.max_attempts ≡ r.max_attempts)
claimed_row_fits job r s (st, same) =
    ((rw st at s).0, sym (ap (λ j. j.attempts) same), sym (ap (λ j. j.max_attempts) same))

pub complete-IsQueue :
    (now : Instant) (job : IngestionJob) (jobs : Jobs)
    → IsClaim job jobs
    → IsQueue jobs
    → IsQueue (complete now job jobs).1
unfolding complete
complete-IsQueue now job jobs c q =
    update_row-IsQueue job.id (complete_row now) jobs (λ r. (refl, refl, refl))
      (All-apply _ _ jobs
        (All-mono (λ r s k e. ((claimed_row_fits job r s (k e)).0, refl)) jobs q.rows) c)
      q

pub fail-IsQueue :
    (now : Instant) (job : IngestionJob) (error : Text) (jobs : Jobs)
    → IsClaim job jobs
    → IsQueue jobs
    → IsQueue (fail now job error jobs).1
unfolding fail
fail-IsQueue now job error jobs c q = elim (Bool-cases (exhausted job)) [
  | inl e ↦ rw e (
      update_row-IsQueue job.id (dead_letter_row now (job.attempts + 1) error) jobs
        (λ r. (refl, refl, refl))
        (All-apply _ _ jobs
          (All-mono
            (λ r s k i.
              let fits = claimed_row_fits job r s (k i) in
              (omega (arith, fits.0, fits.1, fits.2, leb→le _ _ e), refl))
            jobs q.rows)
          c)
        q)
  | inr e ↦ rw e (
      update_row-IsQueue job.id (retry_row now (job.attempts + 1) error) jobs
        (λ r. (refl, refl, refl))
        (All-apply _ _ jobs
          (All-mono (λ r s k i. let fits = claimed_row_fits job r s (k i) in (ground arith, refl))
            jobs q.rows)
          c)
        q)
]

step-IsQueue : {jobs jobs' : Jobs} → IsQueue jobs → QueueStep jobs jobs' → IsQueue jobs'
step-IsQueue q (enqueued id now request h) = enqueue-IsQueue id now request _ h q
step-IsQueue q (dequeued order locked now worker n keeps) =
    dequeue-IsQueue order keeps locked now worker n _ q
step-IsQueue q (job_completed now job c) = complete-IsQueue now job _ c q
step-IsQueue q (job_failed now job error c) = fail-IsQueue now job error _ c q

-- In every table that enqueues, dequeues, completions and failures build from the empty one, in any
-- order and by any workers, where a job is enqueued with at least one attempt and is completed or
-- failed only while it is claimed, and where the sort of a dequeue keeps the rows: a pending or completed job has attempts left and no lock, a
-- processing job has attempts left and a worker's lock, a dead-lettered job has used exactly its
-- attempts and has no lock, and the identifiers and the (document, version) pairs are unique.
pub QueueReach-IsQueue : {jobs : Jobs} → QueueReach jobs → IsQueue jobs
QueueReach-IsQueue start = record { rows = tt; ids = refl; keys = refl }
QueueReach-IsQueue (and_next reach step) = step-IsQueue (QueueReach-IsQueue reach) step
