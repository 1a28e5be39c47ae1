-- ===== src/Retrieval/Search.antt =====
-- src/eka/modules/retrieval: the query and result values (domain/search.py), the in-memory cache, the
-- cache key and the search handler (application/search.py). The embedding model, the retriever, the
-- digest and `str` of an identifier are parameters.
pub mod Caching
use eka_knowledge_assistant.Prelude.{
  ℕ, zero, suc, ◌+◌, ◌-◌, ◌*◌, ◌/◌, ◌%◌, ◌^◌, ◌≤◌, ◌<◌, min, max, String, ◌≡◌, refl, sym, ap, ◌∙◌,
  subst, ◌≢◌, ◌↔◌, ◌⊎◌, inl, inr, Bool, true, false, ◌&&◌, ◌||◌, not, Option, none, some, List, [],
  ◌∷◌, ◌++◌, map, arith, ltb, leb, ◌==◌, if◌then◌else◌, ltb→lt, lt→ltb, leb→le, le→leb, ==_iff,
  ==_refl, Bool-cases, Option-cases, &&-eq-true, length, is_empty, take, drop, get_elem?, filter,
  any, find?, All, length-append, length-take, length-drop, length-map, take-append-drop,
  All-append, All-append_left, All-append_right, All-take, All-drop, All-filter, All-of, All-mono,
  All-apply, filter-All, filter-append, filter-eq-nil, All-of_filter, any-eq-false, any_of_All,
  unique, unique-All, unique-map, unique-snoc, any_self, any-map, All-map, KeepsItems,
  KeepsItems-All, Text, codes, text_eq, is_space, lstrip, rstrip, strip, is_blank, text_eq→eq,
  text_eq_refl, text_eq_iff, length-lstrip-le, length-rstrip-le, length-strip-le, strip_idem,
  rstrip-strip, strip-eq-nil_iff, ℤ, pos, negsuc, pos_part, neg_part, ltb_ℤ, eq_ℤ, Exception,
  validation_error, invariant_violation, state_transition_error, not_found_error, conflict_error,
  authentication_error, content_missing_error, value_error, key_error, integrity_error, data_error,
  multiple_results_found, other_exception, Result, ok, err, Action, and_then, map_result,
  bind_result, ◌>>=◌, ◌>>◌, bind_result-eq-ok, map_result-eq-ok, Result-cases, pure, raise, lift,
  gets, modify,
}
use eka_knowledge_assistant.Shared.Builtins.{split_words, join}
use eka_knowledge_assistant.Ingestion.Chunks.{Embedding}
use eka_knowledge_assistant.Documents.Document.{Uuid, Instant}

abbrev pub max_top_k : ℕ
max_top_k = 50

-- A query that passed its guards, so that `top_k` is not negative.
pub record SearchQuery : Type 0 where
  pub text : Text
  pub top_k : ℕ
  pub collection_id : Option Uuid

unfoldable pub search_query : Text → ℤ → Option Uuid → Result SearchQuery
search_query text top_k collection_id =
    if is_empty (strip text)
    then err (validation_error "query text must not be empty")
    else if ltb_ℤ top_k (pos 1) || ltb_ℤ (pos max_top_k) top_k
    then err (validation_error "top_k must be between 1 and 50")
    else ok (record { text = text; top_k = pos_part top_k; collection_id = collection_id })

pub record ScoredChunk (F : Type 0) : Type 0 where
  pub chunk_id : Uuid
  pub document_id : Uuid
  pub text : Text
  pub score : F

pub record SearchResultDto (F : Type 0) : Type 0 where
  pub chunk_id : Uuid
  pub document_id : Uuid
  pub text : Text
  pub score : F

abbrev pub from_scored_chunk : {F : Type 0} → ScoredChunk F → SearchResultDto F
from_scored_chunk c = record {
  chunk_id = c.chunk_id;
  document_id = c.document_id;
  text = c.text;
  score = c.score;
}

-- InMemorySearchCache: the dictionary, and the clock's readings.
pub record CacheEntry (F : Type 0) : Type 0 where
  pub key : Text
  pub expires_at : Instant
  pub results : List (ScoredChunk F)

abbrev pub Cache : Type 0 → Type 0
Cache F = List (CacheEntry F)

module _ {F : Type 0} where
  abbrev pub entry_of : Text → Cache F → Option (CacheEntry F)
  entry_of key cache = find? (λ e. text_eq e.key key) cache

  -- del self._store[key]
  abbrev pub remove : Text → Cache F → Cache F
  remove key cache = filter (λ e. not (text_eq e.key key)) cache

  abbrev pub fresh_results :
      Instant → Text → Cache F → Option (CacheEntry F) → Option (List (ScoredChunk F)) × Cache F
  fresh_results now key cache none = (none, cache)
  fresh_results now key cache (some e) =
      if ltb e.expires_at now then (none, remove key cache) else (some e.results, cache)

  unfoldable pub cache_get : Instant → Text → Cache F → Option (List (ScoredChunk F)) × Cache F
  cache_get now key cache = fresh_results now key cache (entry_of key cache)

  unfoldable pub cache_set : Instant → Text → List (ScoredChunk F) → ℕ → Cache F → Cache F
  cache_set now key results ttl [] =
      record { key = key; expires_at = now + ttl; results = results } ∷ []
  cache_set now key results ttl (e ∷ cache) =
      let rest = cache_set now key results ttl cache in
      if text_eq e.key key
      then record e { expires_at = now + ttl; results = results } ∷ cache
      else e ∷ rest

-- str() of the values in a key, str.lower and the hexadecimal digest.
pub record KeyParts : Type 0 where
  pub str_uuid : Uuid → Text
  pub str_int : ℕ → Text
  pub lower : Text → Text
  pub sha256 : Text → Text

module _ (parts : KeyParts) where
  unfoldable pub normalize : Text → Text
  normalize text = join (codes " ") (split_words (parts.lower text))

  abbrev pub collection_text : Option Uuid → Text
  collection_text none = codes "*"
  collection_text (some c) = parts.str_uuid c

  unfoldable pub material : Uuid → Option Uuid → Text → ℕ → Text
  material tenant_id collection_id query_text top_k =
      parts.str_uuid tenant_id
      ++ codes "|"
      ++ collection_text collection_id
      ++ codes "|"
      ++ parts.str_int top_k
      ++ codes "|"
      ++ normalize query_text

  unfoldable pub build_cache_key : Uuid → Option Uuid → Text → ℕ → Text
  build_cache_key tenant_id collection_id query_text top_k =
      codes "search:"
      ++ parts.str_uuid tenant_id
      ++ codes ":"
      ++ parts.sha256 (material tenant_id collection_id query_text top_k)

-- The ports of the search handler and its settings.
pub record SearchPorts (F : Type 0) : Type 0 where
  pub embed : List Text → Result (List (Embedding F))
  pub retrieve : Uuid → SearchQuery → Embedding F → ℕ → Result (List (ScoredChunk F))
  pub rerank : Text → List (ScoredChunk F) → ℕ → List (ScoredChunk F)
  pub pool_size : ℕ
  pub cache_ttl_seconds : ℕ

module _ {F : Type 0} where
  abbrev pub first_embedding : List (Embedding F) → Result (Embedding F)
  first_embedding [] = err (other_exception "IndexError")
  first_embedding (e ∷ es) = ok e

  -- The body after the cache: embed, retrieve, rerank.
  unfoldable pub live_search : SearchPorts F → Uuid → SearchQuery → Result (List (ScoredChunk F))
  live_search ports tenant_id query = bind_result (ports.embed (query.text ∷ [])) λ embeddings.
      bind_result (first_embedding embeddings) λ embedding.
        map_result (λ candidates. ports.rerank query.text candidates query.top_k)
          (ports.retrieve tenant_id query embedding ports.pool_size)

  abbrev pub answer_from :
      SearchPorts F
      → Text
      → Instant
      → Uuid
      → SearchQuery
      → Option (List (ScoredChunk F))
      → Action (Cache F) (List (ScoredChunk F))
  answer_from ports key stored_at tenant_id query (some cached) = pure cached
  answer_from ports key stored_at tenant_id query none = do
    ranked ← lift (live_search ports tenant_id query)
    modify (cache_set stored_at key ranked ports.cache_ttl_seconds)
    pure ranked

  -- SearchHandler.handle; the clock is read at the look-up and at the store. Times are seconds.
  unfoldable pub search :
      KeyParts
      → SearchPorts F
      → (now stored_at : Instant) → Uuid
      → SearchQuery
      → Action (Cache F) (List (ScoredChunk F))
  search parts ports now stored_at tenant_id query cache =
      let key = build_cache_key parts tenant_id query.collection_id query.text query.top_k in
      let (cached, rest) = cache_get now key cache in
      answer_from ports key stored_at tenant_id query cached rest
