-- ===== src/Retrieval/Search/Caching.antt =====
-- The cache of the search handler: hits, and the separation of tenants.
use eka_knowledge_assistant.Prelude.{
  ℕ, ◌+◌, ◌≤◌, ◌≡◌, refl, ap, ◌∙◌, inl, inr, Option, none, some, List, [], ◌∷◌, arith, ltb, ltb→lt,
  Bool-cases, Text, text_eq, text_eq_refl, ok, Result-cases,
}
use eka_knowledge_assistant.Documents.Document.{Uuid, Instant}
use eka_knowledge_assistant.Documents.Repository.Rows.{ok-injective}
use eka_knowledge_assistant.Retrieval.Search.{
  SearchQuery, ScoredChunk, CacheEntry, Cache, entry_of, cache_get, cache_set, KeyParts,
  build_cache_key, SearchPorts, live_search, answer_from, search,
}

module _ {F : Type 0} where
  entry-cache_set :
      (now : Instant) (key : Text) (results : List (ScoredChunk F)) (ttl : ℕ) (cache : Cache F)
      → (e : CacheEntry F) × (entry_of key (cache_set now key results ttl cache) ≡ some e)
        × (e.expires_at ≡ now + ttl)
        × (e.results ≡ results)
  unfolding cache_set
  entry-cache_set now key results ttl [] = (
    record { key = key; expires_at = now + ttl; results = results },
    rw (text_eq_refl key) refl,
    refl,
    refl,
  )
  entry-cache_set now key results ttl (e ∷ cache) = elim (Bool-cases (text_eq e.key key)) [
    | inl h ↦ (record e { expires_at = now + ttl; results = results }, rw h (rw h refl), refl, refl)
    | inr h ↦
        let (found, p, q, r) = entry-cache_set now key results ttl cache in
        (found, rw h (rw h p), q, r)
  ]

  -- What `get` finds right after a `set`, until the entry expires.
  pub cache_get-cache_set :
      (now later : Instant) (key : Text) (results : List (ScoredChunk F)) (ttl : ℕ)
      (cache : Cache F)
      → later ≤ now + ttl
      → cache_get later key (cache_set now key results ttl cache)
        ≡ (some results, cache_set now key results ttl cache)
  unfolding cache_get
  cache_get-cache_set now later key results ttl cache h =
      let (e, p, q, r) = entry-cache_set now key results ttl cache in
      rw p (elim (Bool-cases (ltb e.expires_at later)) [
        | inl x ↦ absurd (omega (arith, h, q, ltb→lt _ _ x))
        | inr x ↦ rw x (rw r refl)
      ])

  answered :
      (ports : SearchPorts F) (key : Text) (stored_at later : Instant) (tenant_id : Uuid)
      (query : SearchQuery) (found : Option (List (ScoredChunk F))) (rest : Cache F)
      (results : List (ScoredChunk F))
      → found ≡ none
      → later ≤ stored_at + ports.cache_ttl_seconds
      → (answer_from ports key stored_at tenant_id query found rest).0 ≡ ok results
      → (live_search ports tenant_id query ≡ ok results)
        × (cache_get later key (answer_from ports key stored_at tenant_id query found rest).1
            ≡ (some results, (answer_from ports key stored_at tenant_id query found rest).1))
  answered ports key stored_at later tenant_id query (some r) rest results miss h k =
      absurd (ground arith)
  answered ports key stored_at later tenant_id query none rest results miss h k =
      elim (Result-cases (live_search ports tenant_id query)) [
        | inl (ranked, e) ↦
            let same = ok-injective (rw e at k) in
            let kept = cache_set stored_at key ranked ports.cache_ttl_seconds rest in
            rw e (
              ap ok same,
              cache_get-cache_set stored_at later key ranked ports.cache_ttl_seconds rest h ∙ λ i.
                  (some (same i), kept),
            )
        | inr (x, e) ↦ absurd (ground (arith, rw e at k))
      ]

  -- A search that misses the cache and succeeds returns the live result, and until the stored entry
  -- expires a search by the same tenant for the same query returns that result again, whatever the
  -- embedding model, the retriever and the reranker would answer by then, and leaves the cache alone.
  pub search_cached :
      (parts : KeyParts) (ports ports' : SearchPorts F) (now stored_at later last : Instant)
      (tenant_id : Uuid) (query : SearchQuery) (cache : Cache F) (results : List (ScoredChunk F))
      → (cache_get now
          (build_cache_key parts tenant_id query.collection_id query.text query.top_k)
          cache).0
        ≡ none
      → later ≤ stored_at + ports.cache_ttl_seconds
      → (search parts ports now stored_at tenant_id query cache).0 ≡ ok results
      → (live_search ports tenant_id query ≡ ok results)
        × (search parts ports' later last tenant_id query
              (search parts ports now stored_at tenant_id query cache).1
            ≡ (ok results, (search parts ports now stored_at tenant_id query cache).1))
  unfolding search
  search_cached parts ports ports' now stored_at later last tenant_id query cache results miss h k =
      let key = build_cache_key parts tenant_id query.collection_id query.text query.top_k in
      let got = cache_get now key cache in
      let (live, again) =
        answered ports key stored_at later tenant_id query got.0 got.1 results miss h k in
      (live, rw again refl)
