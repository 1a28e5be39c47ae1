-- ===== src/Ingestion/Pipeline/Attempts.antt =====
-- The attempts that a history of the queue and of the pipeline can take.
use eka_knowledge_assistant.Prelude.{
  ℕ, suc, ◌+◌, ◌-◌, ◌≤◌, ◌<◌, none, ◌∙◌, sym, ◌≡◌, refl, inl, inr, Bool, true, List, [], ◌∷◌, ◌++◌,
  map, arith, ◌==◌, if◌then◌else◌, Bool-cases, any, All, All-mono, All-apply, KeepsItems, Text,
  Exception, Result,
}
use mathlib.Core.Bool.{false≢true}
use eka_knowledge_assistant.Documents.Document.{Uuid, Instant}
use eka_knowledge_assistant.Ingestion.Chunking.{ChunkingConfig}
use eka_knowledge_assistant.Ingestion.Chunks.{Embedding}
use eka_knowledge_assistant.Ingestion.Jobs.{
  JobStatus, pending, processing, completed, dead_letter, IngestionJobModel, IngestionJob,
  EnqueueRequest, Jobs, has_key, has_id, new_job, claim, enqueue, dequeue, complete, fail,
  complete_row, retry_row, dead_letter_row, exhausted, is_ready, is_pending, ready_rows, update_row,
}
use eka_knowledge_assistant.Ingestion.Jobs.Claims.{selected, claimed_result, dequeue-cases}
use eka_knowledge_assistant.Ingestion.Jobs.Life.{
  IsClaim, IsQueue, claimed-selected, enqueue-IsQueue, dequeue-IsQueue,
}
use eka_knowledge_assistant.Ingestion.Jobs.Reach.{claimed_row_fits, complete-IsQueue, fail-IsQueue}
use eka_knowledge_assistant.Ingestion.Pipeline.{World, Clock, process}
use eka_knowledge_assistant.Ingestion.Pipeline.Settled.{completes, fails, breaks, process-Ends}

abbrev pub open_attempts : JobStatus → ℕ → ℕ
open_attempts pending n = n
open_attempts processing n = n
open_attempts completed n = 0
open_attempts dead_letter n = 0

-- The attempts that a row still has, the one that runs included.
abbrev pub attempts_left : IngestionJobModel → ℕ
attempts_left r = open_attempts r.status (r.max_attempts - r.attempts)

unfoldable pub total_attempts_left : Jobs → ℕ
total_attempts_left [] = 0
total_attempts_left (r ∷ rs) = attempts_left r + total_attempts_left rs

total_attempts_left-append :
    (xs : Jobs) (r : IngestionJobModel)
    → total_attempts_left (xs ++ r ∷ []) ≡ total_attempts_left xs + attempts_left r
unfolding total_attempts_left
total_attempts_left-append [] r = omega arith
total_attempts_left-append (x ∷ xs) r = rw (total_attempts_left-append xs r) (omega arith)

-- A change that leaves the attempts of each row leaves their sum.
total_attempts_left-map :
    (f : IngestionJobModel → IngestionJobModel) (rows : Jobs)
    → All (λ r. attempts_left (f r) ≡ attempts_left r) rows
    → total_attempts_left (map f rows) ≡ total_attempts_left rows
unfolding total_attempts_left
total_attempts_left-map f [] h = refl
total_attempts_left-map f (r ∷ rs) h = rw h.0 (rw (total_attempts_left-map f rs h.1) refl)

-- A change that takes an attempt from each row of an identifier lowers their sum.
total_attempts_left-update_row :
    (id : Uuid) (f : IngestionJobModel → IngestionJobModel) (rows : Jobs)
    → All (λ r. (r.id == id) ≡ true → attempts_left (f r) < attempts_left r) rows
    → (total_attempts_left (update_row id f rows) ≤ total_attempts_left rows)
      × (has_id id rows ≡ true
          → total_attempts_left (update_row id f rows) < total_attempts_left rows)
unfolding total_attempts_left
total_attempts_left-update_row id f [] h = (omega arith, λ e. ground (arith, e))
total_attempts_left-update_row id f (r ∷ rs) h =
    let (le, lt) = total_attempts_left-update_row id f rs h.1 in
    elim (Bool-cases (r.id == id)) [
      | inl e ↦ let less = h.0 e in rw e (omega (arith, less, le), λ _. omega (arith, less, le))
      | inr e ↦ rw e (omega (arith, le), λ k. let l = lt k in omega (arith, l))
    ]

complete-attempts :
    (now : Instant) (job : IngestionJob) (jobs : Jobs)
    → IsQueue jobs
    → IsClaim job jobs
    → has_id job.id jobs ≡ true
    → total_attempts_left (complete now job jobs).1 < total_attempts_left jobs
unfolding complete
complete-attempts now job jobs q c =
    (total_attempts_left-update_row job.id (complete_row now) jobs (
      All-apply _ _ jobs
        (All-mono
          (λ r s k e.
            let fits = claimed_row_fits job r s (k e) in rw (k e).0 (omega (arith, fits.0)))
          jobs q.rows)
        c)).1

fail-attempts :
    (now : Instant) (job : IngestionJob) (error : Text) (jobs : Jobs)
    → IsQueue jobs
    → IsClaim job jobs
    → has_id job.id jobs ≡ true
    → total_attempts_left (fail now job error jobs).1 < total_attempts_left jobs
unfolding fail
fail-attempts now job error jobs q c = elim (Bool-cases (exhausted job)) [
  | inl e ↦ rw e (
      (total_attempts_left-update_row job.id (dead_letter_row now (job.attempts + 1) error) jobs (
        All-apply _ _ jobs
          (All-mono
            (λ r s k i.
              let fits = claimed_row_fits job r s (k i) in rw (k i).0 (omega (arith, fits.0)))
            jobs q.rows)
          c)).1)
  | inr e ↦ rw e (
      (total_attempts_left-update_row job.id (retry_row now (job.attempts + 1) error) jobs (
        All-apply _ _ jobs
          (All-mono
            (λ r s k i.
              let fits = claimed_row_fits job r s (k i) in
              rw (k i).0 (omega (arith, fits.0, fits.1, fits.2)))
            jobs q.rows)
          c)).1)
]

-- What an attempt at a claimed job leaves.
process-attempts :
    {F : Type 0} (embed : List Text → Result (List (Embedding F))) (config : ChunkingConfig)
    (clock : Clock) (job : IngestionJob) (repr : Exception → Text) (w : World F)
    → IsQueue w.jobs
    → IsClaim job w.jobs
    → has_id job.id w.jobs ≡ true
    → clock.fail_error ≡ none
    → IsQueue (process embed config clock job repr w).1.jobs
      × (total_attempts_left (process embed config clock job repr w).1.jobs
          < total_attempts_left w.jobs)
process-attempts embed config clock job repr w q c h up =
    elim (process-Ends embed config clock job repr w) [
      | completes _ e ↦
          rw e (
            complete-IsQueue clock.now job w.jobs c q,
            complete-attempts clock.now job w.jobs q c h,
          )
      | fails error _ e ↦ rw e (
        fail-IsQueue clock.now job error w.jobs c q,
        fail-attempts clock.now job error w.jobs q c h,
      )
      | breaks x down _ _ ↦ absurd (ground (arith, sym up ∙ down))
    ]

-- A dequeue takes no attempt.
claimed_result-attempts :
    (order : Jobs → Jobs) (keeps : KeepsItems order) (locked : Uuid → Bool) (now : Instant)
    (worker : Text) (n : ℕ) (jobs : Jobs)
    → IsQueue jobs
    → total_attempts_left (claimed_result order locked now worker n jobs).1
      ≡ total_attempts_left jobs
unfolding is_ready
claimed_result-attempts order keeps locked now worker n jobs q =
    total_attempts_left-map _ jobs
      (All-mono one jobs (claimed-selected order keeps locked now worker n jobs q.ids))
  where
    pending_row :
        (s : JobStatus) (k : ℕ)
        → is_pending s ≡ true
        → open_attempts processing k ≡ open_attempts s k
    pending_row pending k h = refl
    pending_row processing k h = refl
    pending_row completed k h = absurd (false≢true h)
    pending_row dead_letter k h = absurd (false≢true h)

    one :
        (r : IngestionJobModel)
        → (has_id r.id (ready_rows order locked now n jobs) ≡ true
            → selected order keeps locked now worker n r ≡ true)
        → attempts_left
            (if has_id r.id (ready_rows order locked now n jobs) then claim now worker r else r)
          ≡ attempts_left r
    one r f = elim (Bool-cases (has_id r.id (ready_rows order locked now n jobs))) [
      | inl e ↦
          let s = f e in
          rw e (pending_row r.status (r.max_attempts - r.attempts) (ground (arith, s)))
      | inr e ↦ rw e refl
    ]

dequeue-attempts :
    (order : Jobs → Jobs) (keeps : KeepsItems order) (locked : Uuid → Bool) (now : Instant)
    (worker : Text) (n : ℕ) (jobs : Jobs)
    → IsQueue jobs
    → total_attempts_left (dequeue order locked now worker n jobs).1 ≡ total_attempts_left jobs
dequeue-attempts order keeps locked now worker n jobs q =
    elim (dequeue-cases order locked now worker n jobs) [
      | inl e ↦ rw e (claimed_result-attempts order keeps locked now worker n jobs q)
      | inr e ↦ rw e refl
    ]

enqueue-attempts :
    (id : Uuid) (now : Instant) (request : EnqueueRequest) (jobs : Jobs)
    → total_attempts_left (enqueue id now request jobs).1
      ≤ total_attempts_left jobs + request.max_attempts
unfolding enqueue
enqueue-attempts id now request jobs =
    elim (Bool-cases (any (has_key request.document_id request.document_version) jobs)) [
      | inl e ↦ rw e (omega arith)
      | inr e ↦ elim (Bool-cases (any (λ r. r.id == id) jobs)) [
        | inl i ↦ rw e (rw i (omega arith))
        | inr i ↦
            let sum = total_attempts_left-append jobs (new_job id now request) in
            rw e (rw i (omega (arith, sum)))
      ]
    ]

-- A history of the tables, with the number of the attempts in it and the attempts that its enqueues
-- allow. An attempt is at a job that is claimed and has a row, and its end is recorded: one whose
-- `fail` the database refuses leaves the jobs as they are and is a change like others; what the rest of the program does
-- leaves the jobs.
pub data History {F : Type 0} : ℕ → ℕ → World F → Type 0 where
  begun : (w : World F) → w.jobs ≡ [] → History 0 0 w
  and_enqueue :
      {n allowed : ℕ} {w : World F} (id : Uuid) (now : Instant) (request : EnqueueRequest)
      → History n allowed w
      → 0 < request.max_attempts
      → History n
          (allowed + request.max_attempts)
          (record w { jobs = (enqueue id now request w.jobs).1 })
  and_dequeue :
      {n allowed : ℕ} {w : World F} (order : Jobs → Jobs) (locked : Uuid → Bool) (now : Instant)
      (worker : Text) (batch_size : ℕ)
      → History n allowed w
      → KeepsItems order
      → History n allowed
          (record w { jobs = (dequeue order locked now worker batch_size w.jobs).1 })
  and_attempt :
      {n allowed : ℕ} {w : World F} (embed : List Text → Result (List (Embedding F)))
      (config : ChunkingConfig) (clock : Clock) (job : IngestionJob) (repr : Exception → Text)
      → History n allowed w
      → IsClaim job w.jobs
      → has_id job.id w.jobs ≡ true
      → clock.fail_error ≡ none
      → History (suc n) allowed (process embed config clock job repr w).1
  and_change :
      {n allowed : ℕ} {w : World F} (w' : World F)
      → History n allowed w
      → w'.jobs ≡ w.jobs
      → History n allowed w'

History-IsQueue :
    {F : Type 0} {n allowed : ℕ} {w : World F}
    → History n allowed w
    → IsQueue w.jobs × (n + total_attempts_left w.jobs ≤ allowed)
unfolding total_attempts_left
History-IsQueue (begun w e) = rw e (record { rows = tt; ids = refl; keys = refl }, omega arith)
History-IsQueue (and_enqueue {w = w} id now request h m) =
    let (q, le) = History-IsQueue h in
    let more = enqueue-attempts id now request w.jobs in
    (enqueue-IsQueue id now request w.jobs m q, omega (arith, le, more))
History-IsQueue (and_dequeue {w = w} order locked now worker k h keeps) =
    let (q, le) = History-IsQueue h in
    let same = dequeue-attempts order keeps locked now worker k w.jobs q in
    (dequeue-IsQueue order keeps locked now worker k w.jobs q, omega (arith, le, same))
History-IsQueue (and_attempt {w = w} embed config clock job repr h c i up) =
    let (q, le) = History-IsQueue h in
    let (queue, less) = process-attempts embed config clock job repr w q c i up in
    (queue, omega (arith, le, less))
History-IsQueue (and_change w' h e) = rw e (History-IsQueue h)

-- In every history of enqueues, dequeues by any workers and attempts at claimed jobs whose end the
-- database records, failed ones and successful ones, from an empty queue, where each enqueue allows at least one attempt and the
-- sort of a dequeue keeps the rows, the attempts made and the attempts that the rows still have are
-- together at most those that the enqueues allow: no job is tried for ever.
pub attempts_bounded :
    {F : Type 0} {n allowed : ℕ} {w : World F}
    → History n allowed w
    → n + total_attempts_left w.jobs ≤ allowed
attempts_bounded h = (History-IsQueue h).1
