-- ===== src/Ingestion/Jobs/Enqueue.antt =====
-- Enqueueing the same version of a document again.
use eka_knowledge_assistant.Prelude.{
  ◌≡◌, refl, inl, inr, Bool, true, List, [], ◌∷◌, ◌++◌, arith, ◌==◌, Bool-cases, any, ok,
}
use eka_knowledge_assistant.Documents.Document.{Uuid, Instant}
use eka_knowledge_assistant.Ingestion.Jobs.{EnqueueRequest, Jobs, new_job, has_key, enqueue}

new_job-has_key :
    (id : Uuid) (now : Instant) (r : EnqueueRequest)
    → has_key r.document_id r.document_version (new_job id now r) ≡ true
new_job-has_key id now r = ground arith

any-append {ℓ} :
    {A : Type ℓ} (p : A → Bool) (xs ys : List A) → any p ys ≡ true → any p (xs ++ ys) ≡ true
any-append p [] ys h = h
any-append p (x ∷ xs) ys h = elim (Bool-cases (p x)) [
  | inl e ↦ rw e refl
  | inr e ↦ rw e (any-append p xs ys h)
]

-- After an enqueue that did not raise, the table has a row of the document's version, and enqueueing
-- the version again, with whatever identifier, at whatever time and for however many attempts,
-- succeeds and leaves the table alone.
pub enqueue_once :
    (id id' : Uuid) (now later : Instant) (first again : EnqueueRequest) (jobs : Jobs)
    → again.document_id ≡ first.document_id
    → again.document_version ≡ first.document_version
    → (enqueue id now first jobs).0 ≡ ok tt
    → let after = (enqueue id now first jobs).1 in
      (any (has_key first.document_id first.document_version) after ≡ true)
      × (enqueue id' later again after ≡ (ok tt, after))
unfolding enqueue
enqueue_once id id' now later first again jobs d v h = (present, rw d (rw v (rw present refl)))
  where
    present :
        any (has_key first.document_id first.document_version) (enqueue id now first jobs).1 ≡ true
    present = elim (Bool-cases (any (has_key first.document_id first.document_version) jobs)) [
      | inl e ↦ rw e e
      | inr e ↦ elim (Bool-cases (any (λ r. r.id == id) jobs)) [
        | inl i ↦ absurd (ground arith)
        | inr i ↦ rw e (rw i (any-append _ jobs _ (ground (arith, new_job-has_key id now first))))
      ]
    ]
