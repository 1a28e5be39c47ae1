-- ===== src/Retrieval/Retriever.antt =====
-- src/eka/modules/retrieval: the fusion of rankings (domain/fusion.py) and the hybrid retriever
-- (infrastructure/pgvector_retriever.py). The two orders and the full-text match are the database's.
pub mod Tenants
use eka_knowledge_assistant.Prelude.{
  ℕ, zero, suc, ◌+◌, ◌-◌, ◌*◌, ◌/◌, ◌%◌, ◌^◌, ◌≤◌, ◌<◌, min, max, String, ◌≡◌, refl, sym, ap, ◌∙◌,
  subst, ◌≢◌, ◌↔◌, ◌⊎◌, inl, inr, Bool, true, false, ◌&&◌, ◌||◌, not, Option, none, some, List, [],
  ◌∷◌, ◌++◌, map, arith, ltb, leb, ◌==◌, if◌then◌else◌, ltb→lt, lt→ltb, leb→le, le→leb, ==_iff,
  ==_refl, Bool-cases, Option-cases, &&-eq-true, length, is_empty, take, drop, get_elem?, filter,
  any, find?, All, length-append, length-take, length-drop, length-map, take-append-drop,
  All-append, All-append_left, All-append_right, All-take, All-drop, All-filter, All-of, All-mono,
  All-apply, filter-All, filter-append, filter-eq-nil, All-of_filter, any-eq-false, any_of_All,
  unique, unique-All, unique-map, unique-snoc, any_self, any-map, All-map, KeepsItems,
  KeepsItems-All, Text, codes, text_eq, is_space, lstrip, rstrip, strip, is_blank, text_eq→eq,
  text_eq_refl, text_eq_iff, length-lstrip-le, length-rstrip-le, length-strip-le, strip_idem,
  rstrip-strip, strip-eq-nil_iff, ℤ, pos, negsuc, pos_part, neg_part, ltb_ℤ, eq_ℤ, Exception,
  validation_error, invariant_violation, state_transition_error, not_found_error, conflict_error,
  authentication_error, content_missing_error, value_error, key_error, integrity_error, data_error,
  multiple_results_found, other_exception, Result, ok, err, Action, and_then, map_result,
  bind_result, ◌>>=◌, ◌>>◌, bind_result-eq-ok, map_result-eq-ok, Result-cases, pure, raise, lift,
  gets, modify,
}
use eka_knowledge_assistant.Shared.Builtins.{Floats, sorted_desc}
use eka_knowledge_assistant.Documents.Document.{Uuid}
use eka_knowledge_assistant.Ingestion.Chunks.{ChunkModel, Embedding}
use eka_knowledge_assistant.Retrieval.Search.{SearchQuery, ScoredChunk}

module _ {F : Type 0} (floats : Floats F) where
  -- scores[item] = scores.get(item, 0.0) + gain, in a dictionary that keeps its insertion order.
  unfoldable pub add_score : Uuid → F → List (Uuid × F) → List (Uuid × F)
  add_score item gain [] = (item, floats.add (floats.of_nat 0) gain) ∷ []
  add_score item gain ((key, score) ∷ scores) =
      let rest = add_score item gain scores in
      if key == item then (key, floats.add score gain) ∷ scores else (key, score) ∷ rest

  unfoldable pub fuse_ranking : ℕ → ℕ → List Uuid → List (Uuid × F) → List (Uuid × F)
  fuse_ranking k rank [] scores = scores
  fuse_ranking k rank (item ∷ items) scores =
      fuse_ranking k (rank + 1) items
        (add_score item (floats.div (floats.of_nat 1) (floats.of_nat (k + rank))) scores)

  unfoldable pub fuse_rankings : ℕ → List (List Uuid) → List (Uuid × F) → List (Uuid × F)
  fuse_rankings k [] scores = scores
  fuse_rankings k (ranking ∷ rankings) scores =
      fuse_rankings k rankings (fuse_ranking k 1 ranking scores)

  unfoldable pub reciprocal_rank_fusion : List (List Uuid) → ℤ → Result (List (Uuid × F))
  reciprocal_rank_fusion rankings k =
      if ltb_ℤ k (pos 1) then err value_error else ok (fuse_rankings (pos_part k) rankings [])

  abbrev pub in_scope : Uuid → SearchQuery → ChunkModel F → Bool
  in_scope tenant_id query m =
      m.tenant_id == tenant_id && filter_matches query.collection_id m.collection_id
    where
      filter_matches : Option Uuid → Uuid → Bool
      filter_matches none c = true
      filter_matches (some d) c = c == d

  abbrev pub later_row : Option (ChunkModel F) → Bool → ChunkModel F → Option (ChunkModel F)
  later_row (some m) b r = some m
  later_row none true r = some r
  later_row none false r = none

  -- catalog[row.id] after the loop: the last row with the identifier.
  unfoldable pub catalog_row : Uuid → List (ChunkModel F) → Option (ChunkModel F)
  catalog_row id [] = none
  catalog_row id (r ∷ rows) = later_row (catalog_row id rows) (r.id == id) r

  abbrev pub scored : Option (ChunkModel F) → Uuid × F → Result (ScoredChunk F)
  scored none (id, score) = err key_error
  scored (some m) (id, score) =
      ok (record { chunk_id = id; document_id = m.document_id; text = m.text; score = score })

  unfoldable pub scored_chunks :
      List (ChunkModel F) → List (Uuid × F) → Result (List (ScoredChunk F))
  scored_chunks rows [] = ok []
  scored_chunks rows ((id, score) ∷ fused) =
      bind_result (scored (catalog_row id rows) (id, score))
        λ c. bind_result (scored_chunks rows fused) λ cs. ok (c ∷ cs)

  module _ (by_distance : Embedding F → List (ChunkModel F) → List (ChunkModel F))
      (by_rank : Text → List (ChunkModel F) → List (ChunkModel F))
      (matches : Text → ChunkModel F → Bool) where
    -- The scan of the index by distance, which need not reach every row; the conditions of the query
    -- filter its rows.
    unfoldable pub vector_rows :
        Uuid → SearchQuery → Embedding F → ℕ → List (ChunkModel F) → List (ChunkModel F)
    vector_rows tenant_id query embedding pool t =
        take pool (filter (in_scope tenant_id query) (by_distance embedding t))

    unfoldable pub keyword_rows : Uuid → SearchQuery → ℕ → List (ChunkModel F) → List (ChunkModel F)
    keyword_rows tenant_id query pool t =
        take pool
          (by_rank query.text (filter (λ m. in_scope tenant_id query m && matches query.text m) t))

    -- PgVectorHybridRetriever.retrieve
    unfoldable pub retrieve :
        Uuid → SearchQuery → Embedding F → ℕ → List (ChunkModel F) → Result (List (ScoredChunk F))
    retrieve tenant_id query embedding pool t =
        let vectors = vector_rows tenant_id query embedding pool t in
        let keywords = keyword_rows tenant_id query pool t in
        bind_result
          (reciprocal_rank_fusion (map (λ r. r.id) vectors ∷ map (λ r. r.id) keywords ∷ [])
            (pos 60))
          λ fused.
            scored_chunks (vectors ++ keywords)
              (take pool (sorted_desc (λ a b. floats.lt a.1 b.1) fused))
