-- ===== src/Api/Reads.antt =====
-- The requests that read leave the database as it is.
use eka_knowledge_assistant.Prelude.{
  ℕ, ◌≡◌, refl, ◌∙◌, Bool, true, false, arith, Result, ok, err, Action, and_then,
}
use eka_knowledge_assistant.Documents.Document.{Uuid}
use eka_knowledge_assistant.Identity.{AuthenticatedIdentity}
use eka_knowledge_assistant.Api.Endpoint.{guarded}
use eka_knowledge_assistant.Api.Routes.{
  Request, register_request, get_request, delete_request, chunks_request, list_request,
  upload_request, jobs_request, search_request, answer_request, token_request, live_request,
  ready_request, malformed_request, Body, Server, Context, identity, serve,
}
use eka_knowledge_assistant.Retrieval.Search.{SearchQuery, search_query}
use eka_knowledge_assistant.Retrieval.Http.{SearchRequest, search_route}
use eka_knowledge_assistant.Generation.Http.{answer_route}
use eka_knowledge_assistant.Api.Routes.{searcher}

-- The requests that a route may write the database for.
abbrev pub is_write : Request → Bool
is_write (register_request body) = true
is_write (delete_request id) = true
is_write (upload_request id content) = true
is_write _ = false

module _ {F S P Token : Type 0} (c : Context F S P Token) where
  then-world :
      {A B : Type 0} (r : Result A) (f : A → Action (Server F S) B) (s : Server F S)
      → ((a : A) (s' : Server F S) → (f a s').1.world ≡ s'.world)
      → (and_then r f s).1.world ≡ s.world
  then-world (ok a) f s h = h a s
  then-world (err e) f s h = refl

  guarded-world :
      (i : Result AuthenticatedIdentity) (status : ℕ) (valid : Bool)
      (function : Uuid → Action (Server F S) (Body F Token)) (s : Server F S)
      → ((tenant_id : Uuid) → (function tenant_id s).1.world ≡ s.world)
      → (guarded c.request_id i status valid function s).1.world ≡ s.world
  unfolding guarded
  guarded-world (err e) status valid function s h = refl
  guarded-world (ok i) status false function s h = refl
  guarded-world (ok i) status true function s h = h i.tenant_id

  searcher-world :
      (tenant_id : Uuid) (q : SearchQuery) (s : Server F S)
      → (searcher c tenant_id q s).1.world ≡ s.world
  unfolding searcher
  searcher-world tenant_id q s = refl

  search-world :
      (body : SearchRequest) (tenant_id : Uuid) (s : Server F S)
      → (search_route (searcher c) body tenant_id s).1.world ≡ s.world
  unfolding search_route
  search-world body tenant_id s =
      then-world (search_query body.query body.top_k body.collection_id) _ s (λ q s'.
        then-world (searcher c tenant_id q s').0 _ (searcher c tenant_id q s').1 (λ _ _. refl)
        ∙ searcher-world tenant_id q s')

  answer-world :
      (body : SearchRequest) (tenant_id : Uuid) (s : Server F S)
      → (answer_route c.patterns c.language_model c.system c.dumps
          (searcher c)
          body
          tenant_id
          s).1.world
        ≡ s.world
  unfolding answer_route
  answer-world body tenant_id s =
      then-world (search_query body.query body.top_k body.collection_id) _ s
        (λ q s'. searcher-world tenant_id q s')

  -- Only a registration, a deletion and an upload can change the database; every other request leaves
  -- it as it is, whether it is answered or refused.
  pub serve_reads :
      (request : Request) (s : Server F S)
      → is_write request ≡ false
      → (serve c request s).1.world ≡ s.world
  unfolding serve
  serve_reads (register_request body) s h = absurd (ground arith)
  serve_reads (get_request id) s h = guarded-world (identity c) _ _ _ s (λ _. refl)
  serve_reads (list_request params) s h = guarded-world (identity c) _ _ _ s (λ _. refl)
  serve_reads (delete_request id) s h = absurd (ground arith)
  serve_reads (upload_request id content) s h = absurd (ground arith)
  serve_reads (chunks_request id) s h = guarded-world (identity c) _ _ _ s (λ _. refl)
  serve_reads (jobs_request params) s h = guarded-world (identity c) _ _ _ s (λ _. refl)
  serve_reads (search_request body) s h =
      guarded-world (identity c) _ _ _ s (λ t. search-world body t s)
  serve_reads (answer_request body) s h =
      guarded-world (identity c) _ _ _ s (λ t. answer-world body t s)
  serve_reads (token_request body) s h = refl
  serve_reads live_request s h = refl
  serve_reads ready_request s h = refl
  serve_reads malformed_request s h = refl
