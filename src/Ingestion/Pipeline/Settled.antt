-- ===== src/Ingestion/Pipeline/Settled.antt =====
-- How an attempt at a job ends.
use eka_knowledge_assistant.Prelude.{
  ℕ, ◌+◌, sym, ◌≡◌, ◌⊎◌, refl, ap, ◌∙◌, inl, inr, Bool, true, false, ◌&&◌, ◌||◌, not, List, [], ◌∷◌,
  arith, ltb, leb, ◌==◌, Bool-cases, filter, All, Text, Exception, Result, ok, err, Action,
  and_then, ◌>>◌, ◌>>=◌, Result-cases, none, some, Option-cases,
}
use eka_knowledge_assistant.Documents.Commands.{mark_ingesting, mark_indexed}
use eka_knowledge_assistant.Documents.Document.{Instant}
use eka_knowledge_assistant.Ingestion.Jobs.{
  JobStatus, pending, processing, completed, dead_letter, IngestionJobModel, IngestionJob, Jobs,
  complete_row, update_row, complete, dead_letter_row, retry_row, exhausted, fail,
}
use eka_knowledge_assistant.Ingestion.Chunking.{ChunkingConfig}
use eka_knowledge_assistant.Ingestion.Chunks.{Embedding}
use eka_knowledge_assistant.Ingestion.Pipeline.{
  World, Clock, unless_down, on_documents, on_store, on_jobs, handle, index_document, give_up,
  process,
}

-- The states in which an attempt at the job can leave a row of the job.
abbrev pub settled : IngestionJob → JobStatus → ℕ → Bool
settled job completed attempts = true
settled job dead_letter attempts = leb job.max_attempts attempts && attempts == job.attempts + 1
settled job pending attempts = ltb attempts job.max_attempts && attempts == job.attempts + 1
settled job processing attempts = false

abbrev pub is_settled : IngestionJob → IngestionJobModel → Bool
is_settled job r = not (r.id == job.id) || settled job r.status r.attempts

abbrev pub not_job : IngestionJob → IngestionJobModel → Bool
not_job job r = not (r.id == job.id)

-- The rows of the job are settled, and the others are as they were.
abbrev pub Settles : IngestionJob → Jobs → Jobs → Type 0
Settles job before after =
    All (λ r. is_settled job r ≡ true) after
    × (filter (not_job job) after ≡ filter (not_job job) before)

update-Settles :
    (job : IngestionJob) (f : IngestionJobModel → IngestionJobModel) (jobs : Jobs)
    → ((r : IngestionJobModel) → (f r).id ≡ r.id)
    → ((r : IngestionJobModel) → settled job (f r).status (f r).attempts ≡ true)
    → Settles job jobs (update_row job.id f jobs)
update-Settles job f [] h k = (tt, refl)
update-Settles job f (r ∷ rs) h k =
    let (all, same) = update-Settles job f rs h k in
    elim (Bool-cases (r.id == job.id)) [
      | inl e ↦ rw e ((rw (h r) (rw e (k r)), all), rw (h r) (rw e same))
      | inr e ↦ rw e ((rw e refl, all), rw e (ap (λ l. r ∷ l) same))
    ]

pub complete-completed :
    (now : Instant) (job : IngestionJob) (jobs : Jobs)
    → All (λ r. (r.id == job.id) ≡ true → r.status ≡ completed) (complete now job jobs).1
unfolding complete
complete-completed now job [] = tt
complete-completed now job (r ∷ rs) = elim (Bool-cases (r.id == job.id)) [
  | inl e ↦ rw e ((λ _. refl), complete-completed now job rs)
  | inr e ↦ rw e ((λ h. absurd (ground (arith, sym e ∙ h))), complete-completed now job rs)
]

pub complete-Settles :
    (now : Instant) (job : IngestionJob) (jobs : Jobs) → Settles job jobs (complete now job jobs).1
unfolding complete
complete-Settles now job jobs = update-Settles job (complete_row now) jobs (λ r. refl) (λ r. refl)

fail-Settles :
    (now : Instant) (job : IngestionJob) (error : Text) (jobs : Jobs)
    → Settles job jobs (fail now job error jobs).1
unfolding fail
fail-Settles now job error jobs = elim (Bool-cases (exhausted job)) [
  | inl e ↦ rw e (
      update-Settles job (dead_letter_row now (job.attempts + 1) error) jobs (λ r. refl)
        (λ r. ground (arith, e)))
  | inr e ↦ rw e (
      update-Settles job (retry_row now (job.attempts + 1) error) jobs (λ r. refl)
        (λ r. ground (arith, e)))
]

then-jobs :
    {F A B : Type 0} (r : Result A) (f : A → Action (World F) B) (w : World F)
    → ((a : A) (w' : World F) → (f a w').1.jobs ≡ w'.jobs)
    → (and_then r f w).1.jobs ≡ w.jobs
then-jobs (ok a) f w h = h a w
then-jobs (err e) f w h = refl

module _ {F : Type 0} (embed : List Text → Result (List (Embedding F))) (config : ChunkingConfig)
    (clock : Clock) (job : IngestionJob) where
  handle-jobs : (w : World F) → (handle embed config clock job w).1.jobs ≡ w.jobs
  unfolding handle
  handle-jobs w =
      let marking = on_documents (mark_ingesting clock.now job.tenant_id job.document_id) in
      let indexing = on_store (index_document embed config clock job) in
      then-jobs ((marking >> indexing) w).0
        (λ _ w'. on_documents (mark_indexed clock.now job.tenant_id job.document_id) w')
        ((marking >> indexing) w).1 (λ _ w'. refl)
      ∙ then-jobs (marking w).0 (λ _ w'. indexing w') (marking w).1 (λ _ w'. refl)

  give_up-lem :
      (last : Bool) (w : World F)
      → ((give_up embed config clock job last w).0 ≡ ok tt)
        × ((give_up embed config clock job last w).1.jobs ≡ w.jobs)
  give_up-lem true w = (refl, refl)
  give_up-lem false w = (refl, refl)

  fail-answers :
      (error : Text) (jobs : Jobs) → (fail clock.now job error jobs).0 ≡ ok (exhausted job)
  unfolding fail
  fail-answers error jobs = elim (Bool-cases (exhausted job)) [
    | inl e ↦ rw e refl
    | inr e ↦ rw e refl
  ]

  pub process-completed :
      (repr : Exception → Text) (w : World F) (u : Unit {0})
      → (handle embed config clock job w).0 ≡ ok u
      → clock.complete_error ≡ none
      → process embed config clock job repr w ≡ (
        ok tt,
        record (handle embed config clock job w).1 {
          jobs = (complete clock.now job (handle embed config clock job w).1.jobs).1;
        },
      )
  unfolding process complete
  process-completed repr w u e up = simp (e, up) refl

  -- The ways in which an attempt ends: its job is completed, its job is failed, or the database
  -- refuses the failure and the queue stays as it was.
  pub data Ends (jobs : Jobs) (result : Result (Unit {0})) (after : Jobs) : Type 0 where
    completes : result ≡ ok tt → after ≡ (complete clock.now job jobs).1 → Ends jobs result after
    fails :
        (error : Text)
        → result ≡ ok tt
        → after ≡ (fail clock.now job error jobs).1
        → Ends jobs result after
    breaks :
        (e : Exception)
        → clock.fail_error ≡ some e
        → result ≡ err e
        → after ≡ jobs
        → Ends jobs result after

  abbrev failed_world : Text → World F → World F
  failed_world error w = record w { jobs = (fail clock.now job error w.jobs).1 }

  abbrev failing : (Exception → Text) → Exception → World F → Result (Unit {0}) × World F
  failing repr x v =
      (on_jobs (unless_down clock.fail_error (fail clock.now job (repr x)))
          >>= give_up embed config clock job)
        v

  failing-up :
      (repr : Exception → Text) (x : Exception) (v : World F)
      → clock.fail_error ≡ none
      → failing repr x v ≡ give_up embed config clock job (exhausted job) (failed_world (repr x) v)
  failing-up repr x v up = simp (up, fail-answers (repr x) v.jobs) refl

  failing-down :
      (repr : Exception → Text) (x y : Exception) (v : World F)
      → clock.fail_error ≡ some y
      → failing repr x v ≡ (err y, v)
  failing-down repr x y v down = simp down refl

  failing-Ends :
      (repr : Exception → Text) (x : Exception) (v : World F) (jobs : Jobs)
      → v.jobs ≡ jobs
      → Ends jobs (failing repr x v).0 (failing repr x v).1.jobs
  failing-Ends repr x v jobs same = elim (Option-cases clock.fail_error) [
    | inl up ↦
        let (raised, kept) = give_up-lem (exhausted job) (failed_world (repr x) v) in
        rw (failing-up repr x v up)
          (fails (repr x) raised (kept ∙ ap (λ js. (fail clock.now job (repr x) js).1) same))
    | inr (y, down) ↦ rw (failing-down repr x y v down) (breaks y down refl same)
  ]

  process-raised :
      (repr : Exception → Text) (w : World F) (x : Exception)
      → (handle embed config clock job w).0 ≡ err x
      → process embed config clock job repr w ≡ failing repr x (handle embed config clock job w).1
  unfolding process
  process-raised repr w x e = simp e refl

  process-incomplete :
      (repr : Exception → Text) (w : World F) (u : Unit {0}) (x : Exception)
      → (handle embed config clock job w).0 ≡ ok u
      → clock.complete_error ≡ some x
      → process embed config clock job repr w ≡ failing repr x (handle embed config clock job w).1
  unfolding process
  process-incomplete repr w u x e down = simp (e, down) refl

  pub process-Ends :
      (repr : Exception → Text) (w : World F)
      → Ends w.jobs
          (process embed config clock job repr w).0
          (process embed config clock job repr w).1.jobs
  process-Ends repr w = elim (Result-cases (handle embed config clock job w).0) [
    | inr (x, e) ↦ rw (process-raised repr w x e) (failing-Ends repr x _ w.jobs (handle-jobs w))
    | inl (u, e) ↦ elim (Option-cases clock.complete_error) [
      | inl up ↦
          rw (process-completed repr w u e up)
            (completes refl (ap (λ js. (complete clock.now job js).1) (handle-jobs w)))
      | inr (x, down) ↦
          rw (process-incomplete repr w u x e down) (failing-Ends repr x _ w.jobs (handle-jobs w))
    ]
  ]

  -- Whatever happens in the attempt at a job, errors of the database in `complete` included, each row
  -- of the job is completed after it, or dead-lettered with its attempts used up, or pending with one
  -- attempt more and attempts left, the rows of other jobs are as before, and nothing is raised; unless
  -- the database raises in `fail`: then that error is raised, and the queue is as before.
  pub process-Settles :
      (repr : Exception → Text) (w : World F)
      → (((process embed config clock job repr w).0 ≡ ok tt)
          × Settles job w.jobs (process embed config clock job repr w).1.jobs)
        ⊎ ((e : Exception) × (clock.fail_error ≡ some e)
            × ((process embed config clock job repr w).0 ≡ err e)
            × ((process embed config clock job repr w).1.jobs ≡ w.jobs))
  process-Settles repr w = elim (process-Ends repr w) [
    | completes done e ↦ inl (done, rw e (complete-Settles clock.now job w.jobs))
    | fails error done e ↦ inl (done, rw e (fail-Settles clock.now job error w.jobs))
    | breaks x down raised e ↦ inr (x, down, raised, e)
  ]
