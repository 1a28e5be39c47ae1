-- ===== src/Api/Deletion.antt =====
-- The chunks of a deleted document.
use eka_knowledge_assistant.Prelude.{
  ℕ, ◌≡◌, refl, sym, ap, ◌∙◌, Bool, true, false, List, Result, ok, err, Action, and_then,
  map_result, bind_result, ◌>>=◌, pure,
}
use eka_knowledge_assistant.Documents.Document.{Uuid}
use eka_knowledge_assistant.Retrieval.Search.{SearchQuery, search_query, ScoredChunk}
use eka_knowledge_assistant.Ingestion.Http.{list_chunks}
use eka_knowledge_assistant.Retrieval.Http.{
  SearchRequest, is_search_request, search_response, search_route,
}
use eka_knowledge_assistant.Identity.{AuthenticatedIdentity}
use eka_knowledge_assistant.Api.Endpoint.{reply_of, guarded}
use eka_knowledge_assistant.Api.Routes.{
  chunks_body, search_body, delete_request, chunks_request, search_request, Body, Server, Context,
  identity, delete_route, searcher, serve,
}

-- Only the documents differ.
abbrev pub SameButDocuments : {F S : Type 0} → Server F S → Server F S → Type 0
SameButDocuments a b =
    (a.world.store ≡ b.world.store) × (a.world.jobs ≡ b.world.jobs) × (a.cache ≡ b.cache)

module _ {F S P Token : Type 0} (c : Context F S P Token) where
  delete-store :
      (id : Uuid) (s : Server F S) (found : Result AuthenticatedIdentity)
      → SameButDocuments (guarded c.request_id found 204 true (delete_route c id) s).1 s
  unfolding guarded delete_route
  delete-store id s (ok i) = (refl, refl, refl)
  delete-store id s (err e) = (refl, refl, refl)

  deleted : (id : Uuid) (s : Server F S) → SameButDocuments (serve c (delete_request id) s).1 s
  unfolding serve
  deleted id s = delete-store id s (identity c)

  -- The reply of a route is that of its function.
  reply-same :
      (status : ℕ) (valid : Bool) (function : Uuid → Action (Server F S) (Body F Token))
      (found : Result AuthenticatedIdentity) (a b : Server F S)
      → ((tenant_id : Uuid) → (function tenant_id a).0 ≡ (function tenant_id b).0)
      → (guarded c.request_id found status valid function a).0
        ≡ (guarded c.request_id found status valid function b).0
  unfolding guarded
  reply-same status valid function (err e) a b h = refl
  reply-same status false function (ok i) a b h = refl
  reply-same status true function (ok i) a b h = ap (reply_of c.request_id status) (h i.tenant_id)

  chunks-same :
      (id : Uuid) (a b : Server F S)
      → a.world.store ≡ b.world.store
      → (serve c (chunks_request id) a).0 ≡ (serve c (chunks_request id) b).0
  unfolding serve
  chunks-same id a b h =
      reply-same 200 true _ (identity c) a b
        (λ t. ap (λ s. map_result chunks_body (list_chunks c.chunk_order id t s)) h)

  found-reply :
      (body : SearchRequest) (r : Result (List (ScoredChunk F))) (s : Server F S)
      → (and_then r (λ results. pure (search_response body.query results)) s).0
        ≡ map_result (search_response body.query) r
  found-reply body (ok results) s = refl
  found-reply body (err e) s = refl

  search_reply :
      (body : SearchRequest) (t : Uuid) (q : Result SearchQuery) (s : Server F S)
      → (and_then q
          (λ query. searcher c t query >>= λ results. pure (search_response body.query results))
          s).0
        ≡ bind_result q λ query. map_result (search_response body.query) (searcher c t query s).0
  search_reply body t (err e) s = refl
  search_reply body t (ok query) s =
      found-reply body (searcher c t query s).0 (searcher c t query s).1

  searcher-same :
      (t : Uuid) (q : SearchQuery) (a b : Server F S)
      → a.world.store ≡ b.world.store
      → a.cache ≡ b.cache
      → (searcher c t q a).0 ≡ (searcher c t q b).0
  unfolding searcher
  searcher-same t q a b h k = rw (h, k) refl

  search-same :
      (body : SearchRequest) (a b : Server F S)
      → a.world.store ≡ b.world.store
      → a.cache ≡ b.cache
      → (serve c (search_request body) a).0 ≡ (serve c (search_request body) b).0
  unfolding serve search_route
  search-same body a b h k = reply-same 200 (is_search_request body) _ (identity c) a b (λ t.
      let q = search_query body.query body.top_k body.collection_id in
      ap (map_result search_body) (
        search_reply body t q a
        ∙ ap (bind_result q)
            (λ j query. map_result (search_response body.query) (searcher-same t query a b h k j))
        ∙ sym (search_reply body t q b)))

-- After a deletion, whoever asks gets the same list of chunks and the same results of a search as
-- before it: the chunks of the deleted document stay in the store and stay searchable.
pub deleted_chunks_stay :
    {F S P Token : Type 0} (c d : Context F S P Token) (id other_id : Uuid) (body : SearchRequest)
    (s : Server F S)
    → ((serve d (chunks_request other_id) (serve c (delete_request id) s).1).0
        ≡ (serve d (chunks_request other_id) s).0)
      × ((serve d (search_request body) (serve c (delete_request id) s).1).0
          ≡ (serve d (search_request body) s).0)
deleted_chunks_stay c d id other_id body s =
    let (store, jobs, cache) = deleted c id s in
    (
      chunks-same d other_id (serve c (delete_request id) s).1 s store,
      search-same d body (serve c (delete_request id) s).1 s store cache,
    )
