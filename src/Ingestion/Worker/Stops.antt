-- ===== src/Ingestion/Worker/Stops.antt =====
-- The loop ends once the stop event is set, and a worker leaves no job of its own in processing.
use eka_knowledge_assistant.Prelude.{
  ℕ, ◌+◌, ◌≤◌, ◌≡◌, ◌&&◌, Option, none, text_eq, text_eq_refl, refl, sym, ap, ◌∙◌, subst, inl, inr,
  Bool, true, false, ◌||◌, not, some, List, [], ◌∷◌, map, arith, ◌==◌, if◌then◌else◌, Bool-cases,
  length, filter, any, All, length-map, All-filter, All-mono, any-map, Text, Exception, Result, ok,
}
use eka_knowledge_assistant.Documents.Document.{Uuid, Instant}
use eka_knowledge_assistant.Ingestion.Jobs.Claims.{claimed_result, dequeue-fits}
use eka_knowledge_assistant.Ingestion.Jobs.{
  JobStatus, pending, processing, completed, dead_letter, IngestionJobModel, IngestionJob, Jobs,
  has_id, to_job, claim, ready_rows,
}
use eka_knowledge_assistant.Ingestion.Chunking.{ChunkingConfig}
use eka_knowledge_assistant.Ingestion.Chunks.{Embedding}
use eka_knowledge_assistant.Ingestion.Pipeline.{World, Clock, process, process_all, drain_once}
use eka_knowledge_assistant.Ingestion.Pipeline.Settled.{
  settled, is_settled, not_job, process-Settles,
}

abbrev pub is_processing : JobStatus → Bool
is_processing processing = true
is_processing _ = false

abbrev pub is_locked_by : Text → Option Text → Bool
is_locked_by worker_id none = false
is_locked_by worker_id (some holder) = text_eq worker_id holder

-- The worker has the row in processing.
abbrev pub is_held_by : Text → IngestionJobModel → Bool
is_held_by worker_id r = is_processing r.status && is_locked_by worker_id r.locked_by

-- The worker has no row in processing.
abbrev pub Quiet : Text → Jobs → Type 0
Quiet worker_id rows = All (λ r. is_held_by worker_id r ≡ false) rows

module _ (worker_id : Text) where
  -- The worker has the row in processing for none but the listed jobs.
  abbrev pub held_for : List IngestionJob → IngestionJobModel → Bool
  held_for jobs r = not (is_held_by worker_id r) || any (λ j. j.id == r.id) jobs

  settled_row :
      (job : IngestionJob) (jobs : List IngestionJob) (r : IngestionJobModel)
      → (r.id == job.id) ≡ true
      → is_settled job r ≡ true
      → held_for jobs r ≡ true
  settled_row job jobs r h k = go r.status (rw h at k)
    where
      go :
          (s : JobStatus)
          → settled job s r.attempts ≡ true
          → (not (is_processing s && is_locked_by worker_id r.locked_by)
              || any (λ j. j.id == r.id) jobs)
            ≡ true
      go pending l = refl
      go completed l = refl
      go dead_letter l = refl
      go processing l = absurd (ground (arith, l))

  other_row :
      (job : IngestionJob) (jobs : List IngestionJob) (r : IngestionJobModel)
      → (r.id == job.id) ≡ false
      → held_for (job ∷ jobs) r ≡ true
      → held_for jobs r ≡ true
  other_row job jobs r h k = ground (arith, h, k)

  -- One job less is held after its attempt.
  settled_rows :
      (job : IngestionJob) (jobs : List IngestionJob) (after : Jobs)
      → All (λ r. is_settled job r ≡ true) after
      → All (λ r. held_for (job ∷ jobs) r ≡ true) (filter (not_job job) after)
      → All (λ r. held_for jobs r ≡ true) after
  settled_rows job jobs [] h k = tt
  settled_rows job jobs (r ∷ rs) h k = elim (Bool-cases (r.id == job.id)) [
    | inl e ↦ (settled_row job jobs r e h.0, settled_rows job jobs rs h.1 (rw e at k))
    | inr e ↦
        let kept : All (λ x. held_for (job ∷ jobs) x ≡ true) (r ∷ filter (not_job job) rs) =
          rw e at k in
        (other_row job jobs r e kept.0, settled_rows job jobs rs h.1 kept.1)
  ]

  jobs_of_rows :
      (rows : Jobs) (id : Uuid) → any (λ j. j.id == id) (map to_job rows) ≡ has_id id rows
  jobs_of_rows rows id = any-map to_job (λ j. j.id == id) rows

  -- What a worker takes from a table without rows in processing is held for the jobs it takes.
  dequeue-held :
      (now : Instant) (rows jobs : Jobs)
      → Quiet worker_id jobs
      → All
          (λ r. held_for (map to_job rows) r ≡ true)
          (map (λ r. if has_id r.id rows then claim now worker_id r else r) jobs)
  dequeue-held now rows [] h = tt
  dequeue-held now rows (r ∷ rs) h = elim (Bool-cases (has_id r.id rows)) [
    | inl e ↦
        rw e
          (rw (text_eq_refl worker_id) (jobs_of_rows rows r.id ∙ e), dequeue-held now rows rs h.1)
    | inr e ↦ rw e (rw h.0 refl, dequeue-held now rows rs h.1)
  ]

module _ {F : Type 0} (embed : List Text → Result (List (Embedding F))) (config : ChunkingConfig)
    (repr : Exception → Text) (worker_id : Text) where
  process_all-Quiet :
      (jobs : List IngestionJob) (clocks : ℕ → Clock) (w : World F)
      → ((i : ℕ) → (clocks i).fail_error ≡ none)
      → All (λ r. held_for worker_id jobs r ≡ true) w.jobs
      → ((process_all embed config repr clocks jobs w).0 ≡ ok tt)
        × Quiet worker_id (process_all embed config repr clocks jobs w).1.jobs
  unfolding process_all
  process_all-Quiet [] clocks w up h = (refl, All-mono (λ r k. ground (arith, k)) w.jobs h)
  process_all-Quiet (job ∷ jobs) clocks w up h =
      elim (process-Settles embed config (clocks 0) job repr w) [
        | inr (x, down, _, _) ↦ absurd (ground (arith, sym (up 0) ∙ down))
        | inl (done, settles) ↦
            let w' = (process embed config (clocks 0) job repr w).1 in
            rw done (
              process_all-Quiet jobs (λ i. clocks (i + 1)) w' (λ i. up (i + 1))
                (settled_rows worker_id job jobs w'.jobs settles.0 (
                  subst (All (λ r. held_for worker_id (job ∷ jobs) r ≡ true)) (sym settles.1)
                    (All-filter _ (not_job job) w.jobs h))))
      ]

  module _ (order : Jobs → Jobs) (batch_size : ℕ) (fits : length worker_id ≤ 64) where
    -- A batch never raises; if the worker had no job in processing before, it has none after it.
    pub drain_once-Quiet :
        (locked : Uuid → Bool) (now : Instant) (clocks : ℕ → Clock) (w : World F)
        → ((i : ℕ) → (clocks i).fail_error ≡ none)
        → Quiet worker_id w.jobs
        → ((drain_once embed config repr order locked now clocks worker_id batch_size w).0
            ≡ ok (length (ready_rows order locked now batch_size w.jobs)))
          × Quiet worker_id
              (drain_once embed config repr order locked now clocks worker_id batch_size w).1.jobs
    unfolding drain_once
    drain_once-Quiet locked now clocks w up h =
        let rows = ready_rows order locked now batch_size w.jobs in
        let claimed = claimed_result order locked now worker_id batch_size w.jobs in
        let (done, quiet) =
          process_all-Quiet (map to_job rows) clocks (record w { jobs = claimed.1 }) up
            (dequeue-held worker_id now rows w.jobs h) in
        rw (dequeue-fits order locked now worker_id batch_size w.jobs fits)
          (rw done (ap ok (length-map to_job rows), quiet))
