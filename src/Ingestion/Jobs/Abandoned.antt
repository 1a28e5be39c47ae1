-- ===== src/Ingestion/Jobs/Abandoned.antt =====
-- src/eka/modules/ingestion/infrastructure/queue.py: a job whose worker stops before the job ends.
use eka_knowledge_assistant.Prelude.{
  ℕ, ◌+◌, ◌≡◌, refl, sym, ap, ◌∙◌, inl, inr, Bool, true, false, [], ◌∷◌, ◌++◌, map, arith, ◌==◌,
  if◌then◌else◌, ==_iff, Bool-cases, any, All, All-append, All-mono, any_of_All, any-map, All-map,
  KeepsItems, Text,
}
use mathlib.Core.Bool.{false≢true}
use eka_knowledge_assistant.Documents.Document.{Uuid, Instant}
use eka_knowledge_assistant.Ingestion.Jobs.{
  processing, IngestionJobModel, IngestionJob, EnqueueRequest, Jobs, to_job, has_key, has_id, claim,
  enqueue, dequeue, complete, fail, complete_row, retry_row, dead_letter_row, exhausted, is_ready,
  ready_rows, update_row,
}
use eka_knowledge_assistant.Ingestion.Jobs.Claims.{
  claimed_result, dequeue-cases, ready_rows-All, claims, claimed_jobs,
}

-- The table has the job, and its rows are PROCESSING.
pub record IsHeld (id : Uuid) (jobs : Jobs) : Type 0 where
  pub present : has_id id jobs ≡ true
  pub rows : All (λ r. (r.id == id) ≡ true → r.status ≡ processing) jobs

-- What can happen to the queue after the worker of the job has stopped: enqueues, dequeues by any
-- workers, and the ends of other jobs.
pub data OtherSteps (id : Uuid) (jobs : Jobs) : Jobs → Type 0 where
  no_step : OtherSteps id jobs jobs
  then_enqueue :
      {jobs' : Jobs} (new_id : Uuid) (now : Instant) (request : EnqueueRequest)
      → OtherSteps id jobs jobs'
      → OtherSteps id jobs (enqueue new_id now request jobs').1
  then_dequeue :
      {jobs' : Jobs} (order : Jobs → Jobs) (locked : Uuid → Bool) (now : Instant) (worker : Text)
      (n : ℕ)
      → OtherSteps id jobs jobs'
      → OtherSteps id jobs (dequeue order locked now worker n jobs').1
  then_complete :
      {jobs' : Jobs} (now : Instant) (job : IngestionJob)
      → OtherSteps id jobs jobs'
      → (id == job.id) ≡ false
      → OtherSteps id jobs (complete now job jobs').1
  then_fail :
      {jobs' : Jobs} (now : Instant) (job : IngestionJob) (error : Text)
      → OtherSteps id jobs jobs'
      → (id == job.id) ≡ false
      → OtherSteps id jobs (fail now job error jobs').1

has_id-map :
    (id : Uuid) (f : IngestionJobModel → IngestionJobModel) (jobs : Jobs)
    → ((r : IngestionJobModel) → (f r).id ≡ r.id)
    → has_id id (map f jobs) ≡ has_id id jobs
has_id-map id f [] ids = refl
has_id-map id f (r ∷ rs) ids = rw (ids r) (rw (has_id-map id f rs ids) refl)

has_id-append :
    (id : Uuid) (jobs more : Jobs) → has_id id jobs ≡ true → has_id id (jobs ++ more) ≡ true
has_id-append id [] more h = absurd (false≢true h)
has_id-append id (r ∷ rs) more h = elim (Bool-cases (r.id == id)) [
  | inl e ↦ rw e refl
  | inr e ↦ rw e (has_id-append id rs more (rw e at h))
]

-- A change of the rows that leaves the identifiers, and PROCESSING in the rows of the job.
map-IsHeld :
    (id : Uuid) (f : IngestionJobModel → IngestionJobModel) (jobs : Jobs)
    → ((r : IngestionJobModel) → (f r).id ≡ r.id)
    → ((r : IngestionJobModel)
        → (r.id == id) ≡ true
        → r.status ≡ processing
        → (f r).status ≡ processing)
    → IsHeld id jobs
    → IsHeld id (map f jobs)
map-IsHeld id f jobs ids keeps h = record {
  present = has_id-map id f jobs ids ∙ h.present;
  rows = All-map f _ jobs (
      All-mono (λ r k e. let i = sym (ap (λ x. x == id) (ids r)) ∙ e in keeps r i (k i)) jobs
        h.rows);
}

update_row-IsHeld :
    (id other : Uuid) (f : IngestionJobModel → IngestionJobModel) (jobs : Jobs)
    → ((r : IngestionJobModel) → (f r).id ≡ r.id)
    → (id == other) ≡ false
    → IsHeld id jobs
    → IsHeld id (update_row other f jobs)
update_row-IsHeld id other f jobs ids apart h =
    map-IsHeld id (λ r. if r.id == other then f r else r) jobs
      (λ r. elim (Bool-cases (r.id == other)) [ inl e ↦ rw e (ids r) | inr e ↦ rw e refl ])
      (λ r i s. elim (Bool-cases (r.id == other)) [
        | inl e ↦ absurd (ground (arith, i, e, apart))
        | inr e ↦ rw e s
      ])
      h

enqueue-IsHeld :
    (id new_id : Uuid) (now : Instant) (request : EnqueueRequest) (jobs : Jobs)
    → IsHeld id jobs
    → IsHeld id (enqueue new_id now request jobs).1
unfolding enqueue
enqueue-IsHeld id new_id now request jobs h =
    elim (Bool-cases (any (has_key request.document_id request.document_version) jobs)) [
      | inl e ↦ rw e h
      | inr e ↦ elim (Bool-cases (has_id new_id jobs)) [
        | inl i ↦ rw e (rw i h)
        | inr i ↦ rw e (
            rw i (record {
              present = has_id-append id jobs _ h.present;
              rows = All-append _ jobs _ h.rows (
                λ same. absurd (
                    false≢true
                      (sym i ∙ ap (λ x. has_id x jobs) ((==_iff new_id id).0 same) ∙ h.present)),
                tt,
              );
            }))
      ]
    ]

claimed_result-IsHeld :
    (id : Uuid) (order : Jobs → Jobs) (locked : Uuid → Bool) (now : Instant) (worker : Text) (n : ℕ)
    (jobs : Jobs)
    → IsHeld id jobs
    → IsHeld id (claimed_result order locked now worker n jobs).1
claimed_result-IsHeld id order locked now worker n jobs h =
    let rows = ready_rows order locked now n jobs in
    map-IsHeld id (λ r. if has_id r.id rows then claim now worker r else r) jobs
      (λ r. elim (Bool-cases (has_id r.id rows)) [ inl e ↦ rw e refl | inr e ↦ rw e refl ])
      (λ r i s. elim (Bool-cases (has_id r.id rows)) [ inl e ↦ rw e refl | inr e ↦ rw e s ]) h

dequeue-IsHeld :
    (id : Uuid) (order : Jobs → Jobs) (locked : Uuid → Bool) (now : Instant) (worker : Text) (n : ℕ)
    (jobs : Jobs)
    → IsHeld id jobs
    → IsHeld id (dequeue order locked now worker n jobs).1
dequeue-IsHeld id order locked now worker n jobs h =
    elim (dequeue-cases order locked now worker n jobs) [
      | inl e ↦ rw e (claimed_result-IsHeld id order locked now worker n jobs h)
      | inr e ↦ rw e h
    ]

steps-IsHeld :
    {id : Uuid} {jobs jobs' : Jobs} → OtherSteps id jobs jobs' → IsHeld id jobs → IsHeld id jobs'
unfolding complete fail
steps-IsHeld no_step h = h
steps-IsHeld (then_enqueue new_id now request s) h =
    enqueue-IsHeld _ new_id now request _ (steps-IsHeld s h)
steps-IsHeld (then_dequeue order locked now worker n s) h =
    dequeue-IsHeld _ order locked now worker n _ (steps-IsHeld s h)
steps-IsHeld (then_complete now job s apart) h =
    update_row-IsHeld _ job.id (complete_row now) _ (λ r. refl) apart (steps-IsHeld s h)
steps-IsHeld (then_fail now job error s apart) h = elim (Bool-cases (exhausted job)) [
  | inl e ↦ rw e (
      update_row-IsHeld _ job.id (dead_letter_row now (job.attempts + 1) error) _ (λ r. refl) apart
        (steps-IsHeld s h))
  | inr e ↦ rw e (
      update_row-IsHeld _ job.id (retry_row now (job.attempts + 1) error) _ (λ r. refl) apart
        (steps-IsHeld s h))
]

-- A job in processing whose worker does not end it stays in processing: after whatever enqueues,
-- dequeues by any workers and ends of other jobs, at any times, its rows are in processing, and no
-- dequeue whose sort keeps the rows hands it out again.
pub abandoned_job :
    (id : Uuid) (jobs jobs' : Jobs)
    → IsHeld id jobs
    → OtherSteps id jobs jobs'
    → (order : Jobs → Jobs) → KeepsItems order
    → (locked : Uuid → Bool) (now : Instant) (worker : Text) (n : ℕ)
    → IsHeld id jobs' × (claims (claimed_jobs (dequeue order locked now worker n jobs')) id ≡ false)
unfolding is_ready
abandoned_job id jobs jobs' h s order keeps locked now worker n =
    let held = steps-IsHeld s h in
    let unclaimed : claims (map to_job (ready_rows order locked now n jobs')) id ≡ false =
      any-map to_job (λ j. j.id == id) (ready_rows order locked now n jobs')
      ∙ any_of_All (λ r. r.id == id) _
          (ready_rows-All order keeps locked now worker n (λ r. r.id == id) jobs'
            (All-mono
              (λ r k ready. elim (Bool-cases (r.id == id)) [
                | inl e ↦ absurd (false≢true (rw (k e) at ready))
                | inr e ↦ e
              ])
              jobs' held.rows)) in
    (
      held,
      elim (dequeue-cases order locked now worker n jobs') [
        | inl e ↦ rw e unclaimed
        | inr e ↦ rw e refl
      ],
    )
