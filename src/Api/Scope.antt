-- ===== src/Api/Scope.antt =====
-- The requests of a tenant and the rows of the others.
use eka_knowledge_assistant.Prelude.{
  ℕ, ◌≡◌, refl, sym, ap, ◌∙◌, subst, inl, inr, Bool, true, false, not, [], ◌∷◌, ◌++◌, ◌==◌, ==_refl,
  Bool-cases, filter, any, Text, text_eq, pos_part, Result, ok, err, Action, and_then, ◌>>◌,
  Result-cases, pure,
}
use eka_knowledge_assistant.Documents.Document.{Uuid, Instant}
use eka_knowledge_assistant.Documents.Repository.{is_unique}
use eka_knowledge_assistant.Documents.Http.{register_document, delete_document}
use eka_knowledge_assistant.Documents.Commands.Tenants.{
  others, register_handle-others, delete_handle-others,
}
use eka_knowledge_assistant.Ingestion.Jobs.{Jobs, EnqueueRequest, has_key, enqueue}
use eka_knowledge_assistant.Ingestion.Chunks.{Store, put, put_row, check_store}
use eka_knowledge_assistant.Ingestion.Pipeline.{World}
use eka_knowledge_assistant.Ingestion.Uploads.{upload, accept}
use eka_knowledge_assistant.Ingestion.Http.{upload_content}
use eka_knowledge_assistant.Identity.{AuthenticatedIdentity}
use eka_knowledge_assistant.Api.Endpoint.{guarded}
use eka_knowledge_assistant.Api.Routes.{
  Request, register_request, get_request, delete_request, chunks_request, list_request,
  upload_request, jobs_request, search_request, answer_request, token_request, live_request,
  ready_request, malformed_request, Body, Server, Context, identity, register_route, delete_route,
  upload_route, serve,
}
use eka_knowledge_assistant.Documents.Commands.{DocumentDto}
use eka_knowledge_assistant.Documents.Queries.{get_handle}
use eka_knowledge_assistant.Shared.Transaction.{Session, commit, commit-ok, commit-err, with_uow}
use eka_knowledge_assistant.Ingestion.Jobs.{IngestionJobModel, new_job}
use eka_knowledge_assistant.Ingestion.Pipeline.{on_store, on_jobs}
use eka_knowledge_assistant.Ingestion.Uploads.{request_for}
use eka_knowledge_assistant.Api.Reads.{is_write, serve_reads}

abbrev pub other_jobs : Uuid → Jobs → Jobs
other_jobs tenant_id jobs = filter (λ r. not (r.tenant_id == tenant_id)) jobs

-- The documents and jobs of the other tenants and all chunks are the same.
abbrev pub Scoped : {F : Type 0} → Uuid → World F → World F → Type 0
Scoped tenant_id before after =
    (others tenant_id after.documents ≡ others tenant_id before.documents)
    × (after.store.chunks ≡ before.store.chunks)
    × (other_jobs tenant_id after.jobs ≡ other_jobs tenant_id before.jobs)

other_jobs-snoc :
    (tenant_id : Uuid) (jobs : Jobs) (r : IngestionJobModel)
    → r.tenant_id ≡ tenant_id
    → other_jobs tenant_id (jobs ++ r ∷ []) ≡ other_jobs tenant_id jobs
other_jobs-snoc tenant_id [] r h = rw h (rw (==_refl tenant_id) refl)
other_jobs-snoc tenant_id (x ∷ jobs) r h = elim (Bool-cases (x.tenant_id == tenant_id)) [
  | inl e ↦ rw e (other_jobs-snoc tenant_id jobs r h)
  | inr e ↦ rw e (ap (λ l. x ∷ l) (other_jobs-snoc tenant_id jobs r h))
]

enqueue-other_jobs :
    (id : Uuid) (now : Instant) (request : EnqueueRequest) (jobs : Jobs)
    → other_jobs request.tenant_id (enqueue id now request jobs).1
      ≡ other_jobs request.tenant_id jobs
unfolding enqueue
enqueue-other_jobs id now request jobs =
    elim (Bool-cases (any (has_key request.document_id request.document_version) jobs)) [
      | inl e ↦ rw e refl
      | inr e ↦ elim (Bool-cases (any (λ r. r.id == id) jobs)) [
        | inl f ↦ rw (e, f) refl
        | inr f ↦ rw (e, f) (other_jobs-snoc request.tenant_id jobs (new_job id now request) refl)
      ]
    ]

put-chunks :
    {F : Type 0} (now : Instant) (tenant_id document_id : Uuid) (content : Text) (s : Store F)
    → (with_uow (put now tenant_id document_id content >> commit check_store) s).1.chunks ≡ s.chunks
unfolding with_uow put
put-chunks now tenant_id document_id content s =
    let written : Session (Store _) = record {
      stored = s;
      pending = record s { contents = put_row now tenant_id document_id content s.contents };
    } in
    elim (Result-cases (check_store written.pending)) [
      | inl (u, e) ↦ ap (λ r. r.1.stored.chunks) (commit-ok check_store written e)
      | inr (x, e) ↦ ap (λ r. r.1.stored.chunks) (commit-err check_store written e)
    ]

module _ {F : Type 0} (sha256 : Text → Text) (max_attempts : ℕ) (job_id : Uuid) (now : Instant)
    (tenant_id document_id : Uuid) (content : Text) where
  abbrev stores : Action (World F) (Unit {0})
  stores = on_store (with_uow (put now tenant_id document_id content >> commit check_store))

  abbrev enqueues : DocumentDto → Action (World F) (Unit {0})
  enqueues document =
      on_jobs (enqueue job_id now (request_for tenant_id document_id document max_attempts))

  stored-Scoped :
      (document : DocumentDto) (r : Result (Unit {0})) (w w' : World F)
      → Scoped tenant_id w w'
      → Scoped tenant_id w (and_then r (λ _. enqueues document) w').1
  stored-Scoped document (err e) w w' h = h
  stored-Scoped document (ok u) w w' h = (
    h.0,
    h.1,
    enqueue-other_jobs job_id now (request_for tenant_id document_id document max_attempts) w'.jobs
        ∙ h.2,
  )

  accept-Scoped :
      (document : DocumentDto) (w : World F)
      → Scoped tenant_id w
          (accept sha256 max_attempts job_id now tenant_id document_id content document w).1
  unfolding accept
  accept-Scoped document w = elim (Bool-cases (text_eq (sha256 content) document.content_hash)) [
    | inl e ↦ rw e (
        stored-Scoped document (stores w).0 w (stores w).1
          (refl, put-chunks now tenant_id document_id content w.store, refl))
    | inr e ↦ rw e (refl, refl, refl)
  ]

  found-Scoped :
      (r : Result DocumentDto) (w : World F)
      → Scoped tenant_id w
          (and_then r (accept sha256 max_attempts job_id now tenant_id document_id content) w).1
  found-Scoped (ok document) w = accept-Scoped document w
  found-Scoped (err e) w = (refl, refl, refl)

  then-same :
      {A B : Type 0} (r : Result A) (b : B) (w : World F) → (and_then r (λ _. pure b) w).1 ≡ w
  then-same (ok a) b w = refl
  then-same (err e) b w = refl

  upload_content-Scoped :
      (w : World F)
      → Scoped tenant_id w
          (upload_content sha256 max_attempts job_id now document_id content tenant_id w).1
  unfolding upload_content upload
  upload_content-Scoped w =
      let found =
        get_handle (record { tenant_id = tenant_id; document_id = document_id }) w.documents in
      let r =
        and_then found (accept sha256 max_attempts job_id now tenant_id document_id content) w in
      subst (Scoped tenant_id w) (sym (then-same r.0 _ r.1)) (found-Scoped found w)

module _ {F S P Token : Type 0} (c : Context F S P Token) (i : AuthenticatedIdentity)
    (s : Server F S) where
  guarded-Scoped :
      (status : ℕ) (valid : Bool) (function : Uuid → Action (Server F S) (Body F Token))
      (found : Result AuthenticatedIdentity)
      → found ≡ ok i
      → Scoped i.tenant_id s.world (function i.tenant_id s).1.world
      → Scoped i.tenant_id s.world (guarded c.request_id found status valid function s).1.world
  unfolding guarded
  guarded-Scoped status true function found h k = rw h k
  guarded-Scoped status false function found h k = rw h (refl, refl, refl)

  abbrev Unchanged : World F → Type 0
  Unchanged w = Scoped i.tenant_id s.world w

  reads-Scoped :
      (request : Request) → is_write request ≡ false → Unchanged (serve c request s).1.world
  reads-Scoped request h = subst Unchanged (sym (serve_reads c request s h)) (refl, refl, refl)

  -- On documents without clashing rows, a request of a tenant leaves the documents and the jobs of
  -- the other tenants as they are, and all chunks.
  pub serve-Scoped :
      (request : Request)
      → identity c ≡ ok i
      → is_unique s.world.documents ≡ true
      → Scoped i.tenant_id s.world (serve c request s).1.world
  unfolding serve register_route register_document delete_route delete_document upload_route
  serve-Scoped (register_request body) h u =
      guarded-Scoped _ _ _ (identity c) h
        (register_handle-others c.fresh _ s.world.documents, refl, refl)
  serve-Scoped (delete_request id) h u =
      guarded-Scoped _ _ _ (identity c) h
        (delete_handle-others c.now c.base _ s.world.documents u, refl, refl)
  serve-Scoped (upload_request id content) h u = guarded-Scoped _ _ _ (identity c) h (
      upload_content-Scoped c.sha256 (pos_part c.settings.ingestion_max_attempts) c.job_id c.now
        i.tenant_id id content s.world)
  serve-Scoped (get_request id) h u = reads-Scoped (get_request id) refl
  serve-Scoped (list_request params) h u = reads-Scoped (list_request params) refl
  serve-Scoped (chunks_request id) h u = reads-Scoped (chunks_request id) refl
  serve-Scoped (jobs_request params) h u = reads-Scoped (jobs_request params) refl
  serve-Scoped (search_request body) h u = reads-Scoped (search_request body) refl
  serve-Scoped (answer_request body) h u = reads-Scoped (answer_request body) refl
  serve-Scoped (token_request body) h u = (refl, refl, refl)
  serve-Scoped live_request h u = (refl, refl, refl)
  serve-Scoped ready_request h u = (refl, refl, refl)
  serve-Scoped malformed_request h u = (refl, refl, refl)
