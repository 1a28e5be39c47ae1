-- ===== src/Retrieval/RedisCache.antt =====
-- src/eka/modules/retrieval/infrastructure/redis_cache.py, and the search handler over it. The Redis
-- client, the JSON codec and the texts of identifiers are parameters.
use eka_knowledge_assistant.Prelude.{
  ℕ, ◌≡◌, refl, inl, inr, Bool, true, Option, none, some, List, [], ◌∷◌, map, if◌then◌else◌, Text,
  Exception, Result, ok, err, Action, map_result, bind_result, ◌>>=◌, ◌>>◌, Result-cases, pure,
  lift,
}
use eka_knowledge_assistant.Documents.Document.{Uuid}
use eka_knowledge_assistant.Retrieval.Search.{
  SearchQuery, ScoredChunk, KeyParts, SearchPorts, build_cache_key, live_search,
}

-- The object that stands for one result in the payload.
pub record Item (F : Type 0) : Type 0 where
  pub chunk_id : Text
  pub document_id : Text
  pub text : Text
  pub score : F

-- json.dumps and json.loads on lists of items, str of an identifier and the constructor of UUID.
pub record Codec (F P : Type 0) : Type 0 where
  pub dumps : List (Item F) → P
  pub loads : P → Result (List (Item F))
  pub str_uuid : Uuid → Text
  pub parse_uuid : Text → Result Uuid

-- redis.get, redis.set with its expiry, and which exceptions are a RedisError.
pub record Redis (S P : Type 0) : Type 0 where
  pub get : Text → Action S (Option P)
  pub set : Text → P → ℕ → Action S (Unit {0})
  pub is_redis_error : Exception → Bool

module _ {F P : Type 0} (codec : Codec F P) where
  abbrev pub item_of : ScoredChunk F → Item F
  item_of c = record {
    chunk_id = codec.str_uuid c.chunk_id;
    document_id = codec.str_uuid c.document_id;
    text = c.text;
    score = c.score;
  }

  unfoldable pub serialize : List (ScoredChunk F) → P
  serialize results = codec.dumps (map item_of results)

  abbrev pub chunk_of_item : Item F → Result (ScoredChunk F)
  chunk_of_item item = bind_result (codec.parse_uuid item.chunk_id) λ chunk_id.
      bind_result (codec.parse_uuid item.document_id) λ document_id. ok (record {
        chunk_id = chunk_id;
        document_id = document_id;
        text = item.text;
        score = item.score;
      })

  abbrev pub chunks_of_items : List (Item F) → Result (List (ScoredChunk F))
  chunks_of_items [] = ok []
  chunks_of_items (item ∷ items) =
      bind_result (chunk_of_item item) λ c. bind_result (chunks_of_items items) λ cs. ok (c ∷ cs)

  unfoldable pub deserialize : P → Result (List (ScoredChunk F))
  deserialize payload = bind_result (codec.loads payload) chunks_of_items

  module _ {S : Type 0} (redis : Redis S P) where
    -- The answer of `get` after the client's.
    abbrev pub cached_results : Result (Option P) → Result (Option (List (ScoredChunk F)))
    cached_results (ok none) = ok none
    cached_results (ok (some raw)) = map_result some (deserialize raw)
    cached_results (err e) = if redis.is_redis_error e then ok none else err e

    -- RedisSearchCache.get
    unfoldable pub get : Text → Action S (Option (List (ScoredChunk F)))
    get key s = let r = redis.get key s in (cached_results r.0, r.1)

    abbrev pub suppressed : Result (Unit {0}) → Result (Unit {0})
    suppressed (ok u) = ok u
    suppressed (err e) = if redis.is_redis_error e then ok tt else err e

    -- RedisSearchCache.set
    unfoldable pub set : Text → List (ScoredChunk F) → ℕ → Action S (Unit {0})
    set key results ttl_seconds s =
        let r = redis.set key (serialize results) ttl_seconds s in (suppressed r.0, r.1)

    abbrev pub ranked_results :
        SearchPorts F
        → Text
        → Uuid
        → SearchQuery
        → Option (List (ScoredChunk F))
        → Action S (List (ScoredChunk F))
    ranked_results ports key tenant_id query (some cached) = pure cached
    ranked_results ports key tenant_id query none = do
      ranked ← lift (live_search ports tenant_id query)
      set key ranked ports.cache_ttl_seconds
      pure ranked

    -- SearchHandler.handle over this cache.
    unfoldable pub cached_search :
        KeyParts → SearchPorts F → Uuid → SearchQuery → Action S (List (ScoredChunk F))
    cached_search parts ports tenant_id query =
        let key = build_cache_key parts tenant_id query.collection_id query.text query.top_k in
        get key >>= ranked_results ports key tenant_id query

-- What the codec promises: JSON and the texts of identifiers are read back.
pub record CodecLaws {F P : Type 0} (codec : Codec F P) : Type 0 where
  pub loads-dumps : (items : List (Item F)) → codec.loads (codec.dumps items) ≡ ok items
  pub parse-str : (u : Uuid) → codec.parse_uuid (codec.str_uuid u) ≡ ok u

items_back :
    {F P : Type 0} (codec : Codec F P)
    → CodecLaws codec
    → (results : List (ScoredChunk F))
    → chunks_of_items codec (map (item_of codec) results) ≡ ok results
items_back codec laws [] = refl
items_back codec laws (c ∷ cs) =
    simp (laws.parse-str c.chunk_id, laws.parse-str c.document_id, items_back codec laws cs) refl

-- If JSON and the texts of identifiers are read back, so are the results that a payload was made of.
pub deserialize-serialize :
    {F P : Type 0} (codec : Codec F P) (results : List (ScoredChunk F))
    → CodecLaws codec
    → deserialize codec (serialize codec results) ≡ ok results
unfolding deserialize serialize
deserialize-serialize codec results laws =
    rw (laws.loads-dumps (map (item_of codec) results)) (items_back codec laws results)

-- The client raises a RedisError at every call.
pub record IsDown {S P : Type 0} (redis : Redis S P) : Type 0 where
  pub get_fails :
      (key : Text) (s : S)
      → (e : Exception) × ((redis.get key s).0 ≡ err e) × (redis.is_redis_error e ≡ true)
  pub set_fails :
      (key : Text) (payload : P) (ttl : ℕ) (s : S)
      → (e : Exception) × ((redis.set key payload ttl s).0 ≡ err e)
        × (redis.is_redis_error e ≡ true)

module _ {F P S : Type 0} (codec : Codec F P) (redis : Redis S P) (down : IsDown redis) where
  get-down : (key : Text) (s : S) → (get codec redis key s).0 ≡ ok none
  unfolding get
  get-down key s = let (e, p, q) = down.get_fails key s in rw p (rw q refl)

  set-down :
      (key : Text) (results : List (ScoredChunk F)) (ttl : ℕ) (s : S)
      → (set codec redis key results ttl s).0 ≡ ok tt
  unfolding set
  set-down key results ttl s =
      let (e, p, q) = down.set_fails key (serialize codec results) ttl s in rw p (rw q refl)

  ranked-down :
      (ports : SearchPorts F) (key : Text) (tenant_id : Uuid) (query : SearchQuery) (s : S)
      → (ranked_results codec redis ports key tenant_id query none s).0
        ≡ live_search ports tenant_id query
  ranked-down ports key tenant_id query s =
      elim (Result-cases (live_search ports tenant_id query)) [
        | inl (ranked, e) ↦ simp (e, set-down key ranked ports.cache_ttl_seconds s) refl
        | inr (x, e) ↦ simp e refl
      ]

  -- While Redis fails at every call, a search answers what the live search answers, its error
  -- included.
  pub cached_search-IsDown :
      (parts : KeyParts) (ports : SearchPorts F) (tenant_id : Uuid) (query : SearchQuery) (s : S)
      → (cached_search codec redis parts ports tenant_id query s).0
        ≡ live_search ports tenant_id query
  unfolding cached_search
  cached_search-IsDown parts ports tenant_id query s =
      let key = build_cache_key parts tenant_id query.collection_id query.text query.top_k in
      simp (get-down key s) (ranked-down ports key tenant_id query (get codec redis key s).1)
