-- ===== src/Ingestion/Jobs/Claims.antt =====
-- What a dequeue claims, and that no job is claimed twice.
use eka_knowledge_assistant.Prelude.{
  ℕ, ◌≤◌, ◌≡◌, refl, sym, ap, ◌∙◌, ◌⊎◌, ◌||◌, leb, is_empty, data_error, inl, inr, Bool, true,
  false, ◌&&◌, not, some, List, [], map, arith, ◌==◌, if◌then◌else◌, ==_refl, Bool-cases,
  &&-eq-true, length, any, All, length-take, length-map, All-take, All-filter, All-of, All-mono,
  All-apply, filter-All, any_self, any-map, All-map, KeepsItems, KeepsItems-All, Text, Result, ok,
  err,
}
use mathlib.Core.Bool.{false≢true}
use eka_knowledge_assistant.Documents.Document.{Uuid, Instant}
use eka_knowledge_assistant.Ingestion.Jobs.{
  processing, IngestionJobModel, IngestionJob, Jobs, to_job, is_ready, claim, has_id, ready_rows,
  dequeue,
}

-- Whether one of the jobs is the row with the identifier.
abbrev pub claims : List IngestionJob → Uuid → Bool
claims jobs id = any (λ j. j.id == id) jobs

abbrev pub claimed_jobs : Result (List IngestionJob) × Jobs → List IngestionJob
claimed_jobs (ok jobs, _) = jobs
claimed_jobs (err _, _) = []

-- A dequeue that goes through.
abbrev pub claimed_result :
    (Jobs → Jobs) → (Uuid → Bool) → Instant → Text → ℕ → Jobs → Result (List IngestionJob) × Jobs
claimed_result order locked now worker_id n jobs =
    let rows = ready_rows order locked now n jobs in
    (ok (map to_job rows), map (λ r. if has_id r.id rows then claim now worker_id r else r) jobs)

module _ (order : Jobs → Jobs) (locked : Uuid → Bool) (now : Instant) (worker_id : Text) (n : ℕ)
    (jobs : Jobs) where
  -- A dequeue goes through, or the column refuses the worker's name and nothing changes.
  pub dequeue-cases :
      (dequeue order locked now worker_id n jobs ≡ claimed_result order locked now worker_id n jobs)
      ⊎ (dequeue order locked now worker_id n jobs ≡ (err data_error, jobs))
  unfolding dequeue
  dequeue-cases =
      elim (Bool-cases
        (is_empty (ready_rows order locked now n jobs) || leb (length worker_id) 64)) [
          | inl e ↦ inl (rw e refl)
          | inr e ↦ inr (rw e refl)
        ]

  pub dequeue-fits :
      length worker_id ≤ 64
      → dequeue order locked now worker_id n jobs ≡ claimed_result order locked now worker_id n jobs
  unfolding dequeue
  dequeue-fits h =
      elim (Bool-cases
        (is_empty (ready_rows order locked now n jobs) || leb (length worker_id) 64)) [
          | inl e ↦ rw e refl
          | inr e ↦ absurd (ground (arith, h, e))
        ]

module _ (order : Jobs → Jobs) (keeps : KeepsItems order) (locked : Uuid → Bool) (now : Instant)
    (worker_id : Text) (batch_size : ℕ) where
  abbrev pub selected : IngestionJobModel → Bool
  selected r = is_ready now r && not (locked r.id)

  -- Whatever no selected row is, no claimed row is.
  pub ready_rows-All :
      (p : IngestionJobModel → Bool) (jobs : Jobs)
      → All (λ r. selected r ≡ true → p r ≡ false) jobs
      → All (λ r. p r ≡ false) (ready_rows order locked now batch_size jobs)
  unfolding ready_rows
  ready_rows-All p jobs h = All-take _ batch_size _ (
      KeepsItems-All keeps p _
        (All-apply _ _ _ (All-filter _ selected jobs h) (filter-All selected jobs)))

  claimed_row : (rows : Jobs) (r : IngestionJobModel) → IngestionJobModel
  claimed_row rows r = if has_id r.id rows then claim now worker_id r else r

  -- After a dequeue no row that was claimed is ready, at whatever time.
  claimed_not_ready :
      (later : Instant) (rows : Jobs) (r : IngestionJobModel)
      → is_ready later (claimed_row rows r) ≡ true
      → has_id (claimed_row rows r).id rows ≡ false
  unfolding is_ready claimed_row
  claimed_not_ready later rows r h = elim (Bool-cases (has_id r.id rows)) [
    | inl e ↦ absurd (false≢true (rw e at h))
    | inr e ↦ rw e e
  ]

module _ (order : Jobs → Jobs) (keeps : KeepsItems order) where
  claimed_once :
      (locked locked' : Uuid → Bool) (now later : Instant) (worker worker' : Text) (n m : ℕ)
      (jobs : Jobs)
      → let first = claimed_result order locked now worker n jobs in
        let second = claimed_result order locked' later worker' m first.1 in
        All (λ j. claims (claimed_jobs first) j.id ≡ false) (claimed_jobs second)
  unfolding claimed_row
  claimed_once locked locked' now later worker worker' n m jobs =
      let rows = ready_rows order locked now n jobs in
      All-map to_job _ _ (
        All-mono (λ r e. any-map to_job (λ j. j.id == r.id) rows ∙ e) _
          (ready_rows-All order keeps locked' later worker' m (λ r. has_id r.id rows) _
            (All-map _ _ jobs (
              All-of _
                (λ r h.
                  claimed_not_ready order keeps locked now worker n later rows r
                    (&&-eq-true _ _ h).0)
                jobs))))

  -- Two dequeues, one after the other, by whatever workers, at whatever times and under whatever
  -- row locks, never return the same job, if the database's sort keeps the rows.
  pub no_double_claim :
      (locked locked' : Uuid → Bool) (now later : Instant) (worker worker' : Text) (n m : ℕ)
      (jobs : Jobs)
      → let first = dequeue order locked now worker n jobs in
        let second = dequeue order locked' later worker' m first.1 in
        All (λ j. claims (claimed_jobs first) j.id ≡ false) (claimed_jobs second)
  no_double_claim locked locked' now later worker worker' n m jobs =
      let first = dequeue order locked now worker n jobs in
      elim (dequeue-cases order locked' later worker' m first.1) [
        | inr e ↦ rw e tt
        | inl e ↦ rw e (elim (dequeue-cases order locked now worker n jobs) [
          | inr f ↦ rw f (All-of _ (λ j. refl) _)
          | inl f ↦ rw f (claimed_once locked locked' now later worker worker' n m jobs)
        ])
      ]

  length_ready :
      (locked : Uuid → Bool) (now : Instant) (worker : Text) (n : ℕ) (jobs : Jobs)
      → length (ready_rows order locked now n jobs) ≤ n
  unfolding ready_rows
  length_ready locked now worker n jobs = omega (arith, length-take n (order _))

  not-eq-false : (b : Bool) → not b ≡ false → b ≡ true
  not-eq-false true h = refl
  not-eq-false false h = absurd (false≢true (sym h))

  claimed_after :
      (now : Instant) (worker : Text) (rows : Jobs) (r : IngestionJobModel)
      → let r' = if has_id r.id rows then claim now worker r else r in
        claims (map to_job rows) r'.id ≡ true
        → (r'.status ≡ processing) × (r'.locked_by ≡ some worker)
  claimed_after now worker rows r = elim (Bool-cases (has_id r.id rows)) [
    | inl e ↦ rw e (λ _. (refl, refl))
    | inr e ↦
        rw e (λ h. absurd (false≢true (sym e ∙ sym (any-map to_job (λ j. j.id == r.id) rows) ∙ h)))
  ]

  claimed_result-claims :
      (locked : Uuid → Bool) (now : Instant) (worker : Text) (n : ℕ) (jobs : Jobs)
      → let result = claimed_result order locked now worker n jobs in
        (length (claimed_jobs result) ≤ n)
        × All
            (λ j. any (λ r. r.id == j.id && (is_ready now r && not (locked r.id))) jobs ≡ true)
            (claimed_jobs result)
        × All
            (λ r.
              claims (claimed_jobs result) r.id ≡ true
              → (r.status ≡ processing) × (r.locked_by ≡ some worker))
            result.1
        × (length result.1 ≡ length jobs)
  claimed_result-claims locked now worker n jobs =
      let rows = ready_rows order locked now n jobs in
      (
        omega (arith, length-map to_job rows, length_ready locked now worker n jobs),
        All-map to_job _ rows (
            All-mono (λ r e. not-eq-false _ e) rows
              (ready_rows-All order keeps locked now worker n
                (λ r.
                  not (any (λ x. x.id == r.id && selected order keeps locked now worker n x) jobs))
                jobs
                (All-mono (λ r e h. ap not (e h)) jobs
                  (any_self (λ x y. x.id == y.id) (selected order keeps locked now worker n) jobs
                    (λ x. ==_refl x.id))))),
        All-map _ _ jobs (All-of _ (λ r. claimed_after now worker rows r) jobs),
        length-map _ jobs,
      )

  -- If the database's sort keeps the rows, a dequeue returns at most the batch; each job that it returns was a pending row whose time had
  -- come and that no other transaction held; and afterwards every row of a returned job is
  -- PROCESSING and locked by the worker, while no row is added or lost.
  pub dequeue-claims :
      (locked : Uuid → Bool) (now : Instant) (worker : Text) (n : ℕ) (jobs : Jobs)
      → let result = dequeue order locked now worker n jobs in
        (length (claimed_jobs result) ≤ n)
        × All
            (λ j. any (λ r. r.id == j.id && (is_ready now r && not (locked r.id))) jobs ≡ true)
            (claimed_jobs result)
        × All
            (λ r.
              claims (claimed_jobs result) r.id ≡ true
              → (r.status ≡ processing) × (r.locked_by ≡ some worker))
            result.1
        × (length result.1 ≡ length jobs)
  dequeue-claims locked now worker n jobs = elim (dequeue-cases order locked now worker n jobs) [
    | inl e ↦ rw e (claimed_result-claims locked now worker n jobs)
    | inr e ↦ rw e (omega arith, tt, All-of _ (λ r h. absurd (false≢true h)) jobs, refl)
  ]
