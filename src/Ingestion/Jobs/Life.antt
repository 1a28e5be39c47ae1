-- ===== src/Ingestion/Jobs/Life.antt =====
-- The life of the queue: what every reachable table keeps.
use eka_knowledge_assistant.Prelude.{
  ℕ, ◌<◌, ◌≡◌, refl, sym, ap, ◌∙◌, inl, inr, Bool, true, ◌&&◌, none, some, [], ◌∷◌, map, arith,
  ◌==◌, if◌then◌else◌, Bool-cases, any, All, All-append, All-mono, All-apply, any-eq-false,
  any_of_All, unique, unique-All, unique-map, unique-snoc, All-map, KeepsItems, Text,
}
use mathlib.Core.Bool.{false≢true}
use eka_knowledge_assistant.Ingestion.Jobs.Claims.{
  ready_rows-All, selected, claimed_result, dequeue-cases,
}
use eka_knowledge_assistant.Documents.Document.{Uuid, Instant}
use eka_knowledge_assistant.Ingestion.Jobs.{
  JobStatus, pending, processing, completed, dead_letter, IngestionJobModel, IngestionJob,
  EnqueueRequest, Jobs, to_job, has_key, has_id, claim, enqueue, dequeue, complete, fail, is_ready,
  is_pending, ready_rows, update_row,
}

-- What each status says of the attempts and of the lock.
abbrev pub StatusFits : JobStatus → IngestionJobModel → Type 0
StatusFits pending r = (r.attempts < r.max_attempts) × (r.locked_by ≡ none)
StatusFits processing r = (r.attempts < r.max_attempts) × ((w : Text) × (r.locked_by ≡ some w))
StatusFits completed r = (r.attempts < r.max_attempts) × (r.locked_by ≡ none)
StatusFits dead_letter r = (r.attempts ≡ r.max_attempts) × (r.locked_by ≡ none)

abbrev pub IsSound : IngestionJobModel → Type 0
IsSound r = StatusFits r.status r

-- The rows of the identifier are PROCESSING and as they were when the job was claimed.
abbrev pub IsClaim : IngestionJob → Jobs → Type 0
IsClaim job jobs =
    All (λ r. (r.id == job.id) ≡ true → (r.status ≡ processing) × (to_job r ≡ job)) jobs

-- One operation of the queue. A job is completed or failed while it is claimed.
pub data QueueStep (jobs : Jobs) : Jobs → Type 0 where
  enqueued :
      (id : Uuid) (now : Instant) (request : EnqueueRequest)
      → 0 < request.max_attempts
      → QueueStep jobs (enqueue id now request jobs).1
  dequeued :
      (order : Jobs → Jobs) (locked : Uuid → Bool) (now : Instant) (worker : Text) (n : ℕ)
      → KeepsItems order
      → QueueStep jobs (dequeue order locked now worker n jobs).1
  job_completed :
      (now : Instant) (job : IngestionJob)
      → IsClaim job jobs
      → QueueStep jobs (complete now job jobs).1
  job_failed :
      (now : Instant) (job : IngestionJob) (error : Text)
      → IsClaim job jobs
      → QueueStep jobs (fail now job error jobs).1

pub data QueueReach : Jobs → Type 0 where
  start : QueueReach []
  and_next : {jobs jobs' : Jobs} → QueueReach jobs → QueueStep jobs jobs' → QueueReach jobs'

pub All-update_row :
    (id : Uuid) (f : IngestionJobModel → IngestionJobModel) (jobs : Jobs)
    → All (λ r. (r.id == id) ≡ true → IsSound (f r)) jobs
    → All IsSound jobs
    → All IsSound (update_row id f jobs)
All-update_row id f [] h k = tt
All-update_row id f (r ∷ jobs) h k = elim (Bool-cases (r.id == id)) [
  | inl e ↦ rw e (h.0 e, All-update_row id f jobs h.1 k.1)
  | inr e ↦ rw e (k.0, All-update_row id f jobs h.1 k.1)
]

abbrev pub same_id : IngestionJobModel → IngestionJobModel → Bool
same_id a b = a.id == b.id

abbrev pub same_key : IngestionJobModel → IngestionJobModel → Bool
same_key a b = has_key a.document_id a.document_version b

-- The rows are sound, and the two unique constraints of the table hold.
pub record IsQueue (jobs : Jobs) : Type 0 where
  pub rows : All IsSound jobs
  pub ids : unique same_id jobs ≡ true
  pub keys : unique same_key jobs ≡ true

-- A change of a row that leaves the columns of the constraints.
abbrev pub KeepsKeys : (IngestionJobModel → IngestionJobModel) → Type 0
KeepsKeys f =
    (r : IngestionJobModel)
    → ((f r).id ≡ r.id)
      × ((f r).document_id ≡ r.document_id)
      × ((f r).document_version ≡ r.document_version)

pub KeepsKeys-if :
    (test : IngestionJobModel → Bool) (f : IngestionJobModel → IngestionJobModel)
    → KeepsKeys f
    → KeepsKeys (λ r. if test r then f r else r)
KeepsKeys-if test f k r = elim (Bool-cases (test r)) [
  | inl e ↦ rw e (k r)
  | inr e ↦ rw e (refl, refl, refl)
]

pub map-IsQueue :
    (f : IngestionJobModel → IngestionJobModel) (jobs : Jobs)
    → KeepsKeys f
    → IsQueue jobs
    → All IsSound (map f jobs)
    → IsQueue (map f jobs)
map-IsQueue f jobs k q sound = record {
  rows = sound;
  ids =
      unique-map same_id f jobs
        (λ x y. ap (λ a. a == (f y).id) (k x).0 ∙ ap (λ b. x.id == b) (k y).0)
      ∙ q.ids;
  keys =
      unique-map same_key f jobs (λ x y.
        ap (λ a. has_key a (f x).document_version (f y)) (k x).1
        ∙ ap (λ a. has_key x.document_id a (f y)) (k x).2
        ∙ ap (λ a. a == x.document_id && (f y).document_version == x.document_version) (k y).1
        ∙ ap (λ a. y.document_id == x.document_id && a == x.document_version) (k y).2)
      ∙ q.keys;
}

has_key_symm :
    (x : IngestionJobModel) (document_id : Uuid) (version : ℕ)
    → has_key document_id version x
      ≡ (document_id == x.document_id && version == x.document_version)
has_key_symm x document_id version = ground arith

pub enqueue-IsQueue :
    (id : Uuid) (now : Instant) (request : EnqueueRequest) (jobs : Jobs)
    → 0 < request.max_attempts
    → IsQueue jobs
    → IsQueue (enqueue id now request jobs).1
unfolding enqueue
enqueue-IsQueue id now request jobs h q =
    elim (Bool-cases (any (has_key request.document_id request.document_version) jobs)) [
      | inl e ↦ rw e q
      | inr e ↦ elim (Bool-cases (any (λ r. r.id == id) jobs)) [
        | inl i ↦ rw e (rw i q)
        | inr i ↦ rw e (
            rw i (record {
              rows = All-append IsSound jobs _ q.rows ((h, refl), tt);
              ids = unique-snoc same_id jobs _ q.ids (any-eq-false _ jobs i);
              keys =
                  unique-snoc same_key jobs _ q.keys
                    (All-mono (λ x k. sym (has_key_symm x _ _) ∙ k) jobs (any-eq-false _ jobs e));
            }))
      ]
    ]

module _ (order : Jobs → Jobs) (keeps : KeepsItems order) (locked : Uuid → Bool) (now : Instant)
    (worker : Text) (n : ℕ) where
  -- Only selected rows are claimed, since no other row has their identifiers.
  pub claimed-selected :
      (jobs : Jobs)
      → unique same_id jobs ≡ true
      → All
          (λ r.
            has_id r.id (ready_rows order locked now n jobs) ≡ true
            → selected order keeps locked now worker n r ≡ true)
          jobs
  claimed-selected jobs u =
      All-mono one jobs
        (unique-All same_id (selected order keeps locked now worker n) jobs (λ x y. ground arith) u)
    where
      one :
          (r : IngestionJobModel)
          → All
              (λ x.
                same_id x r ≡ true
                → selected order keeps locked now worker n x ≡ true
                → selected order keeps locked now worker n r ≡ true)
              jobs
          → has_id r.id (ready_rows order locked now n jobs) ≡ true
          → selected order keeps locked now worker n r ≡ true
      one r all h = elim (Bool-cases (selected order keeps locked now worker n r)) [
        | inl e ↦ e
        | inr e ↦
            let apart =
              ready_rows-All order keeps locked now worker n (λ x. x.id == r.id) jobs
                (All-mono
                  (λ x f s. elim (Bool-cases (x.id == r.id)) [
                    | inl i ↦ absurd (false≢true (sym e ∙ f i s))
                    | inr i ↦ i
                  ])
                  jobs all) in
            absurd (false≢true (sym (any_of_All (λ x. x.id == r.id) _ apart) ∙ h))
      ]

  claim-IsSound :
      (r : IngestionJobModel)
      → selected order keeps locked now worker n r ≡ true
      → IsSound r
      → IsSound (claim now worker r)
  unfolding is_ready
  claim-IsSound r h s = go r.status s (ground arith)
    where
      go : (st : JobStatus) → StatusFits st r → is_pending st ≡ true → IsSound (claim now worker r)
      go pending f e = (f.0, (worker, refl))
      go processing f e = absurd (false≢true e)
      go completed f e = absurd (false≢true e)
      go dead_letter f e = absurd (false≢true e)

  claimed_result-IsQueue :
      (jobs : Jobs) → IsQueue jobs → IsQueue (claimed_result order locked now worker n jobs).1
  claimed_result-IsQueue jobs q =
      let rows = ready_rows order locked now n jobs in
      map-IsQueue _ jobs
        (KeepsKeys-if (λ r. has_id r.id rows) (claim now worker) (λ r. (refl, refl, refl))) q
        (All-map _ IsSound jobs
          (All-apply _ _ jobs (All-mono sound jobs (claimed-selected jobs q.ids)) q.rows))
    where
      sound :
          (r : IngestionJobModel)
          → (has_id r.id (ready_rows order locked now n jobs) ≡ true
              → selected order keeps locked now worker n r ≡ true)
          → IsSound r
          → IsSound
              (if has_id r.id (ready_rows order locked now n jobs) then claim now worker r else r)
      sound r f s = elim (Bool-cases (has_id r.id (ready_rows order locked now n jobs))) [
        | inl e ↦ rw e (claim-IsSound r (f e) s)
        | inr e ↦ rw e s
      ]

  pub dequeue-IsQueue :
      (jobs : Jobs) → IsQueue jobs → IsQueue (dequeue order locked now worker n jobs).1
  dequeue-IsQueue jobs q = elim (dequeue-cases order locked now worker n jobs) [
    | inl e ↦ rw e (claimed_result-IsQueue jobs q)
    | inr e ↦ rw e q
  ]
