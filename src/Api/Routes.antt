-- ===== src/Api/Routes.antt =====
-- The routes of the application (src/eka/api/app.py) with what their dependencies give them
-- (src/eka/api/dependencies.py, security.py): one function from a request to its response, over the
-- database and the cache.
use eka_knowledge_assistant.Prelude.{
  ℕ, Bool, true, false, Option, none, some, List, if◌then◌else◌, is_empty, Text, pos_part, Result,
  Action, map_result,
}
use eka_knowledge_assistant.Config.{Settings}
use eka_knowledge_assistant.Shared.Pagination.{Sort}
use eka_knowledge_assistant.Documents.Document.{Uuid, Instant, EventBase}
use eka_knowledge_assistant.Documents.Repository.{Table}
use eka_knowledge_assistant.Documents.Commands.{Fresh}
use eka_knowledge_assistant.Documents.Http.{
  RegisterDocumentRequest, is_register_request, DocumentResponse, DocumentListResponse, Created,
  register_document, get_document, ListDocumentsParams, is_page, list_documents, delete_document,
}
use eka_knowledge_assistant.Ingestion.Jobs.{Jobs}
use eka_knowledge_assistant.Ingestion.Chunks.{ChunkModel}
use eka_knowledge_assistant.Ingestion.Embedding.{HashingEmbeddingModel}
use eka_knowledge_assistant.Ingestion.Pipeline.{World, on_documents}
use eka_knowledge_assistant.Ingestion.Http.{
  is_upload_request, ContentAcceptedResponse, ChunkListResponse, JobResponse, ListJobsParams,
  upload_content, list_chunks, list_ingestion_jobs,
}
use eka_knowledge_assistant.Retrieval.Search.{SearchQuery, ScoredChunk, KeyParts}
use eka_knowledge_assistant.Retrieval.RedisCache.{Codec, Redis, cached_search}
use eka_knowledge_assistant.Retrieval.Http.{
  SearchRequest, is_search_request, SearchResponse, SearchBackend, search_ports, search_route,
}
use eka_knowledge_assistant.Generation.Answers.{GroundedPrompt, Event}
use eka_knowledge_assistant.Generation.Http.{answer_route}
use eka_knowledge_assistant.Identity.{
  AuthenticatedIdentity, TokenLibrary, get_current_identity, issue_token,
}
use eka_knowledge_assistant.Api.Endpoint.{Reply, replied, reply_of, request_validation, guarded}

-- TokenRequest, with its default subject filled in.
pub record TokenRequest : Type 0 where
  pub tenant_id : Uuid
  pub subject : Text
  pub roles : List Text

pub data Request : Type 0 where
  register_request : RegisterDocumentRequest → Request
  get_request delete_request chunks_request : Uuid → Request
  list_request : ListDocumentsParams → Request
  upload_request : Uuid → Text → Request
  jobs_request : ListJobsParams → Request
  search_request answer_request : SearchRequest → Request
  token_request : TokenRequest → Request
  live_request ready_request : Request
  -- A body that is not JSON, to a path that takes a body.
  malformed_request : Request

-- FastAPI reads the body before it runs the dependencies.
abbrev pub is_malformed : Request → Bool
is_malformed malformed_request = true
is_malformed _ = false

-- The paths that take no identity.
abbrev pub is_open : Request → Bool
is_open (token_request body) = true
is_open live_request = true
is_open ready_request = true
is_open _ = false

pub data Body (F Token : Type 0) : Type 0 where
  created_body : Created → Body F Token
  document_body : DocumentResponse → Body F Token
  documents_body : DocumentListResponse → Body F Token
  no_content : Body F Token
  accepted_body : ContentAcceptedResponse → Body F Token
  chunks_body : ChunkListResponse → Body F Token
  jobs_body : List JobResponse → Body F Token
  search_body : SearchResponse F → Body F Token
  stream_body : Result (List Text) → Body F Token
  token_body : (access_token : Token) (expires_in : ℕ) → Body F Token
  health_body : (database : Option Bool) → Body F Token

-- The database and the cache.
pub record Server (F S : Type 0) : Type 0 where
  pub world : World F
  pub cache : S

-- The settings, what libraries and the database do, and what the clock and the source of identifiers
-- give while one request is served. Instants count microseconds, `seconds` is the JWT library's time.
pub record Context (F S P Token : Type 0) : Type 0 where
  pub settings : Settings
  pub tokens : TokenLibrary Token
  pub issuer : Text
  pub credentials : Option Token
  pub token_header : Option Token
  pub request_id : Option Text
  pub seconds : Instant
  pub now : Instant
  pub fresh : Fresh
  pub base : EventBase
  pub job_id : Uuid
  pub str_uuid : Uuid → Text
  pub sha256 : Text → Text
  pub document_order : Sort → Table → Table
  pub chunk_order : List (ChunkModel F) → List (ChunkModel F)
  pub job_order : Jobs → Jobs
  pub key_parts : KeyParts
  pub codec : Codec F P
  pub redis : Redis S P
  pub backend : SearchBackend F
  pub embedder : HashingEmbeddingModel
  pub patterns : List (Text → Text × ℕ)
  pub language_model : GroundedPrompt → List Text
  pub system : Text
  pub dumps : Event → Text
  pub database_up : Bool

module _ {F S P Token : Type 0} (c : Context F S P Token) where
  -- get_current_identity of the request.
  abbrev pub identity : Result AuthenticatedIdentity
  identity = get_current_identity c.tokens c.issuer c.seconds c.credentials c.token_header

  abbrev pub on_world : {A : Type 0} → Action (World F) A → Action (Server F S) A
  on_world m s = ((m s.world).0, record s { world = (m s.world).1 })

  abbrev pub with_body :
      {A : Type 0} → (A → Body F Token) → Action (Server F S) A → Action (Server F S) (Body F Token)
  with_body f m s = (map_result f (m s).0, (m s).1)

  abbrev pub query : {A : Type 0} → (World F → Result A) → Action (Server F S) A
  query f s = (f s.world, s)

  -- The handler of search_handler.
  unfoldable pub searcher : Uuid → SearchQuery → Action (Server F S) (List (ScoredChunk F))
  searcher tenant_id q s =
      let ports = search_ports c.backend c.embedder c.settings s.world.store in
      let r = cached_search c.codec c.redis c.key_parts ports tenant_id q s.cache in
      (r.0, record s { cache = r.1 })

  unfoldable pub register_route :
      RegisterDocumentRequest → Uuid → Action (Server F S) (Body F Token)
  register_route body tenant_id =
      with_body created_body
        (on_world (on_documents (register_document c.str_uuid c.fresh body tenant_id)))

  unfoldable pub delete_route : Uuid → Uuid → Action (Server F S) (Body F Token)
  delete_route document_id tenant_id =
      with_body (λ _. no_content)
        (on_world (on_documents (delete_document c.now c.base document_id tenant_id)))

  unfoldable pub upload_route : Uuid → Text → Uuid → Action (Server F S) (Body F Token)
  upload_route document_id content tenant_id = with_body accepted_body (
      on_world (
        upload_content c.sha256 (pos_part c.settings.ingestion_max_attempts) c.job_id c.now
          document_id content tenant_id))

  abbrev pub authenticated :
      ℕ
      → Bool
      → (Uuid → Action (Server F S) (Body F Token))
      → Server F S
      → Reply (Body F Token) × Server F S
  authenticated status valid function = guarded c.request_id identity status valid function

  -- POST /v1/auth/token, which takes no identity.
  unfoldable pub token_route : TokenRequest → Reply (Body F Token)
  token_route body =
      let ttl = pos_part c.settings.jwt_access_ttl_seconds in
      if is_empty body.subject
      then request_validation c.request_id
      else reply_of c.request_id 200 (
          map_result (λ t. token_body t ttl)
            (issue_token c.tokens c.issuer c.settings.auth_dev_token_enabled c.seconds
              body.tenant_id body.subject body.roles ttl))

  unfoldable pub live_route : Reply (Body F Token)
  live_route = replied 200 (health_body none)

  -- GET /health/ready; `database_up` is whether `SELECT 1` went through.
  unfoldable pub ready_route : Reply (Body F Token)
  ready_route = replied (if c.database_up then 200 else 503) (health_body (some c.database_up))

  unfoldable pub serve : Request → Server F S → Reply (Body F Token) × Server F S
  serve (register_request body) = authenticated 201 (is_register_request body) (register_route body)
  serve (get_request id) =
      authenticated 200 true
        λ tenant_id. with_body document_body (query λ w. get_document id tenant_id w.documents)
  serve (list_request params) = authenticated 200 (is_page params.limit params.offset) λ tenant_id.
      with_body documents_body
        (query λ w. list_documents c.document_order params tenant_id w.documents)
  serve (delete_request id) = authenticated 204 true (delete_route id)
  serve (upload_request id content) =
      authenticated 202 (is_upload_request content) (upload_route id content)
  serve (chunks_request id) =
      authenticated 200 true λ tenant_id.
        with_body chunks_body (query λ w. list_chunks c.chunk_order id tenant_id w.store)
  serve (jobs_request params) = authenticated 200 (is_page params.limit params.offset) λ tenant_id.
      with_body jobs_body (query λ w. list_ingestion_jobs c.job_order params tenant_id w.jobs)
  serve (search_request body) =
      authenticated 200 (is_search_request body)
        λ tenant_id. with_body search_body (search_route searcher body tenant_id)
  serve (answer_request body) = authenticated 200 (is_search_request body) λ tenant_id.
      with_body stream_body
        (answer_route c.patterns c.language_model c.system c.dumps searcher body tenant_id)
  serve (token_request body) = λ s. (token_route body, s)
  serve live_request = λ s. (live_route, s)
  serve ready_request = λ s. (ready_route, s)
  serve malformed_request = λ s. (request_validation c.request_id, s)
