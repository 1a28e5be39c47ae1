-- ===== src/Retrieval/Tests.antt =====
-- The theorems of the retrieval context at one stored chunk.
use eka_knowledge_assistant.Prelude.{
  ℕ, ◌+◌, ◌-◌, ◌*◌, ◌≤◌, min, ◌≡◌, refl, true, none, List, [], ◌∷◌, arith, ltb, ◌==◌, length, take,
  All, Bool, false, Text, codes, pos, value_error, other_exception, ok, err,
}
use eka_knowledge_assistant.Retrieval.RedisCache.{
  Codec, Redis, cached_search, IsDown, cached_search-IsDown,
}
use eka_knowledge_assistant.Shared.Builtins.{Floats, sorted_desc, insert_desc}
use eka_knowledge_assistant.Ingestion.Chunks.{ChunkModel, Embedding}
use eka_knowledge_assistant.Retrieval.Search.{
  SearchQuery, ScoredChunk, KeyParts, SearchPorts, cache_get, search, live_search,
}
use eka_knowledge_assistant.Retrieval.Search.Caching.{search_cached}
use eka_knowledge_assistant.Retrieval.Reranker.{rerank}
use eka_knowledge_assistant.Retrieval.Reranker.Kept.{IsReranked, rerank-IsReranked}
use eka_knowledge_assistant.Retrieval.Retriever.{
  retrieve, vector_rows, keyword_rows, reciprocal_rank_fusion, fuse_rankings, fuse_ranking,
  add_score, scored_chunks, catalog_row,
}
use eka_knowledge_assistant.Retrieval.Retriever.Tenants.{InventsNothing, retrieve_scoped}

abbrev Floating : Type 0
Floating = ℕ

-- Whole numbers in place of the floats.
abbrev floats : Floats Floating
floats = record {
  of_nat = λ n. n;
  add = λ a b. a + b;
  sub = λ a b. a - b;
  mul = λ a b. a * b;
  div = λ a b. min a b;
  sqrt = λ a. a;
  lt = ltb;
  is_zero = λ a. a == 0;
}

abbrev found : ScoredChunk Floating
found = record { chunk_id = 5; document_id = 7; text = codes "alpha"; score = 1 }

abbrev stored : ChunkModel Floating
stored = record {
  id = 5;
  tenant_id = 1;
  document_id = 7;
  collection_id = 2;
  document_version = 1;
  ordinal = pos 0;
  text = codes "alpha";
  embedding = 1 ∷ [];
  created_at = 10;
}

abbrev query : SearchQuery
query = record { text = codes "alpha"; top_k = 5; collection_id = none }

abbrev vector : Embedding Floating
vector = record { values = 1 ∷ [] }

rerank-IsReranked_example :
    IsReranked floats
      (λ t. t)
      (codes "alpha")
      (found ∷ record found { chunk_id = 6; text = codes "beta" } ∷ [])
      1
      (rerank floats
        (λ t. t)
        (codes "alpha")
        (found ∷ record found { chunk_id = 6; text = codes "beta" } ∷ [])
        1)
rerank-IsReranked_example =
    rerank-IsReranked floats (λ t. t) (codes "alpha")
      (found ∷ record found { chunk_id = 6; text = codes "beta" } ∷ []) 1
      (λ a b h. ground (arith, h))

-- An approximate scan that finds the first row alone.
abbrev first_row : List (ChunkModel Floating) → List (ChunkModel Floating)
first_row [] = []
first_row (m ∷ ms) = m ∷ []

first_row-InventsNothing : InventsNothing first_row
first_row-InventsNothing = record { no_new = found }
  where
    found :
        (p : ChunkModel Floating → Bool) (xs : List (ChunkModel Floating))
        → All (λ x. p x ≡ false) xs
        → All (λ x. p x ≡ false) (first_row xs)
    found p [] h = tt
    found p (x ∷ xs) h = (h.0, tt)

sort-InventsNothing : InventsNothing {A = ChunkModel Floating} (λ t. t)
sort-InventsNothing = record { no_new = λ p xs h. h }

abbrev foreign : ChunkModel Floating
foreign = record stored { id = 6; tenant_id = 2; document_id = 8 }

abbrev answer : List (ScoredChunk Floating)
answer = record found { score = 2 } ∷ []

retrieve_scoped_example : (length answer ≤ 5) × All (λ c. (c.document_id == 7) ≡ true) answer
unfolding retrieve vector_rows keyword_rows reciprocal_rank_fusion fuse_rankings fuse_ranking
    add_score scored_chunks catalog_row sorted_desc insert_desc
retrieve_scoped_example =
    retrieve_scoped floats (λ c d t. d == 7) (λ e. first_row) (λ q t. t) (λ q m. true)
      (λ e. first_row-InventsNothing) (λ q. sort-InventsNothing) 1 query vector 5
      (stored ∷ foreign ∷ []) answer ((λ h. refl), ((λ h. absurd (ground (arith, h))), tt)) refl

abbrev parts : KeyParts
parts = record { str_uuid = λ u. u ∷ []; str_int = λ n. n ∷ []; lower = λ t. t; sha256 = λ t. t }

abbrev ports : List (ScoredChunk Floating) → SearchPorts Floating
ports candidates = record {
  embed = λ ts. ok (vector ∷ []);
  retrieve = λ t q e n. ok candidates;
  rerank = λ t cs k. take k cs;
  pool_size = 50;
  cache_ttl_seconds = 300;
}

search_cached_example :
    (live_search (ports (found ∷ [])) 1 query ≡ ok (found ∷ []))
    × (search parts
          (ports [])
          200
          201
          1
          query
          (search parts (ports (found ∷ [])) 100 101 1 query []).1
        ≡ (ok (found ∷ []), (search parts (ports (found ∷ [])) 100 101 1 query []).1))
unfolding cache_get search live_search
search_cached_example =
    search_cached parts (ports (found ∷ [])) (ports []) 100 101 200 201 1 query [] (found ∷ []) refl
      (omega arith) refl

-- A cache that is not there.
abbrev no_redis : Redis (Unit {0}) Text
no_redis = record {
  get = λ key s. (err (other_exception "ConnectionError"), s);
  set = λ key payload ttl s. (err (other_exception "ConnectionError"), s);
  is_redis_error = λ e. true;
}

no_redis-IsDown : IsDown no_redis
no_redis-IsDown = record {
  get_fails = λ key s. (other_exception "ConnectionError", refl, refl);
  set_fails = λ key payload ttl s. (other_exception "ConnectionError", refl, refl);
}

abbrev codec : Codec Floating Text
codec = record {
  dumps = λ items. [];
  loads = λ payload. ok [];
  str_uuid = λ u. u ∷ [];
  parse_uuid = λ t. err value_error;
}

abbrev plain_parts : KeyParts
plain_parts = record {
  str_uuid = λ u. u ∷ [];
  str_int = λ n. n ∷ [];
  lower = λ t. t;
  sha256 = λ t. t;
}

abbrev found_ports : SearchPorts Floating
found_ports = record {
  embed = λ texts. ok (vector ∷ []);
  retrieve = λ tenant_id q embedding pool. ok (found ∷ []);
  rerank = λ text chunks top_k. take top_k chunks;
  pool_size = 50;
  cache_ttl_seconds = 300;
}

cached_search-IsDown_example :
    (cached_search codec no_redis plain_parts found_ports 1 query tt).0
    ≡ live_search found_ports 1 query
cached_search-IsDown_example =
    cached_search-IsDown codec no_redis no_redis-IsDown plain_parts found_ports 1 query tt
