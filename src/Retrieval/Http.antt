-- ===== src/Retrieval/Http.antt =====
-- src/eka/modules/retrieval/presentation, and the search handler that src/eka/api/dependencies.py
-- wires: the hashing embedder, the hybrid retriever over the chunks, the lexical reranker and the
-- settings' pool size and lifetime.
use eka_knowledge_assistant.Prelude.{
  ℕ, Bool, ◌&&◌, not, Option, List, map, is_empty, Text, ℤ, pos_part, Action, ◌>>=◌, pure, lift,
}
use eka_knowledge_assistant.Config.{Settings, between}
use eka_knowledge_assistant.Shared.Builtins.{Floats}
use eka_knowledge_assistant.Documents.Document.{Uuid}
use eka_knowledge_assistant.Ingestion.Chunks.{ChunkModel, Embedding, Store}
use eka_knowledge_assistant.Ingestion.Embedding.{HashingEmbeddingModel, embed}
use eka_knowledge_assistant.Retrieval.Search.{
  SearchQuery, search_query, ScoredChunk, SearchResultDto, from_scored_chunk, SearchPorts,
}
use eka_knowledge_assistant.Retrieval.Retriever.{retrieve}
use eka_knowledge_assistant.Retrieval.Reranker.{rerank}

-- SearchRequest and AnswerRequest have the same fields.
pub record SearchRequest : Type 0 where
  pub query : Text
  pub collection_id : Option Uuid
  pub top_k : ℤ

-- Field(min_length=1), Field(ge=1, le=50)
unfoldable pub is_search_request : SearchRequest → Bool
is_search_request body = not (is_empty body.query) && between 1 50 body.top_k

pub record SearchResultItem (F : Type 0) : Type 0 where
  pub chunk_id : Uuid
  pub document_id : Uuid
  pub text : Text
  pub score : F

unfoldable pub result_item : {F : Type 0} → SearchResultDto F → SearchResultItem F
result_item d = record {
  chunk_id = d.chunk_id;
  document_id = d.document_id;
  text = d.text;
  score = d.score;
}

pub record SearchResponse (F : Type 0) : Type 0 where
  pub query : Text
  pub results : List (SearchResultItem F)

-- What the database and Python's library do for a search.
pub record SearchBackend (F : Type 0) : Type 0 where
  pub floats : Floats F
  pub lower : Text → Text
  pub sha1 : Text → List ℕ
  pub by_distance : Embedding F → List (ChunkModel F) → List (ChunkModel F)
  pub by_rank : Text → List (ChunkModel F) → List (ChunkModel F)
  pub matches : Text → ChunkModel F → Bool

module _ {F : Type 0} where
  -- search_handler, over the chunks that its session reads.
  unfoldable pub search_ports :
      SearchBackend F → HashingEmbeddingModel → Settings → Store F → SearchPorts F
  search_ports b model settings s = record {
    embed = embed b.floats b.lower b.sha1 model;
    retrieve = λ tenant_id query embedding pool.
        retrieve b.floats b.by_distance b.by_rank b.matches tenant_id query embedding pool s.chunks;
    rerank = rerank b.floats b.lower;
    pool_size = pos_part settings.search_pool_size;
    cache_ttl_seconds = pos_part settings.search_cache_ttl_seconds;
  }

  unfoldable pub search_response : Text → List (ScoredChunk F) → SearchResponse F
  search_response query results = record {
    query = query;
    results = map result_item (map from_scored_chunk results);
  }

  -- The route POST /v1/search; `searcher` is the handler.
  unfoldable pub search_route :
      {S : Type 0}
      → (Uuid → SearchQuery → Action S (List (ScoredChunk F)))
      → SearchRequest
      → Uuid
      → Action S (SearchResponse F)
  search_route searcher body tenant_id = do
    query ← lift (search_query body.query body.top_k body.collection_id)
    results ← searcher tenant_id query
    pure (search_response body.query results)
