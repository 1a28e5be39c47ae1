-- ===== src/Evaluation/InMemorySearcher.antt =====
-- src/eka/modules/evaluation/infrastructure/in_memory_searcher.py: the search of the evaluation over
-- its corpus. `doc_uuid` is uuid5 of a document's name, and `lower` str.lower.
use eka_knowledge_assistant.Prelude.{
  ℕ, ◌≡◌, refl, sym, ap, ◌∙◌, subst, inl, inr, Bool, true, false, Option, none, some, List, [], ◌∷◌,
  map, ltb, ◌==◌, length, filter, Text, pos, key_error, other_exception, Result, ok, err, Action,
  and_then, map_result, bind_result, ◌>>=◌, Result-cases, lift,
}
use eka_knowledge_assistant.Shared.Builtins.{Floats, sorted_desc, find_tokens, to_set, intersection}
use eka_knowledge_assistant.Documents.Document.{Uuid}
use eka_knowledge_assistant.Ingestion.Chunks.{Embedding}
use eka_knowledge_assistant.Ingestion.Embedding.{cosine_similarity}
use eka_knowledge_assistant.Retrieval.Search.{SearchQuery, ScoredChunk, first_embedding}
use eka_knowledge_assistant.Retrieval.Retriever.{reciprocal_rank_fusion}
use eka_knowledge_assistant.Evaluation.Gate.{CorpusDoc}

-- The embedder and reranker that the searcher is built with, and its corpus.
pub record Searcher (F : Type 0) : Type 0 where
  pub floats : Floats F
  pub lower : Text → Text
  pub doc_uuid : Text → Uuid
  pub embed : List Text → Result (List (Embedding F))
  pub rerank : Text → List (ScoredChunk F) → ℕ → List (ScoredChunk F)
  pub corpus : List CorpusDoc

-- The embeddings of the corpus once they were made.
abbrev pub Memo : Type 0 → Type 0
Memo F = Option (List (Embedding F))

module _ {F : Type 0} (c : Searcher F) where
  unfoldable pub ensure_embedded : Action (Memo F) (List (Embedding F))
  ensure_embedded (some embeddings) = (ok embeddings, some embeddings)
  ensure_embedded none = keep (c.embed (map (λ d. d.text) c.corpus))
    where
      keep : Result (List (Embedding F)) → Result (List (Embedding F)) × Memo F
      keep (ok embeddings) = (ok embeddings, some embeddings)
      keep (err e) = (err e, none)

  -- The key of each document of the corpus: its similarity to the query.
  unfoldable pub similarities :
      Embedding F → List CorpusDoc → List (Embedding F) → Result (List (CorpusDoc × F))
  similarities query [] embeddings = ok []
  similarities query (d ∷ ds) [] = err (other_exception "IndexError")
  similarities query (d ∷ ds) (e ∷ es) =
      bind_result (cosine_similarity c.floats query e)
        λ s. bind_result (similarities query ds es) λ rest. ok ((d, s) ∷ rest)

  abbrev pub tokens : Text → List Text
  tokens text = to_set (find_tokens (c.lower text))

  unfoldable pub keyword_ids : Text → List Uuid
  keyword_ids text =
      let overlaps : List (CorpusDoc × ℕ) =
        map (λ d. (d, length (intersection (tokens d.text) (tokens text)))) c.corpus in
      map (λ p. c.doc_uuid p.0.id)
        (filter (λ p. ltb 0 p.1) (sorted_desc (λ a b. ltb a.1 b.1) overlaps))

  abbrev pub later_doc : Option CorpusDoc → Bool → CorpusDoc → Option CorpusDoc
  later_doc (some d) b e = some d
  later_doc none true e = some e
  later_doc none false e = none

  -- by_id.get(id): the last document with the identifier.
  unfoldable pub by_id : Uuid → List CorpusDoc → Option CorpusDoc
  by_id id [] = none
  by_id id (d ∷ ds) = later_doc (by_id id ds) (c.doc_uuid d.id == id) d

  abbrev pub candidate : Option CorpusDoc → Uuid × F → Result (ScoredChunk F)
  candidate none (id, score) = err key_error
  candidate (some d) (id, score) =
      ok (record { chunk_id = id; document_id = id; text = d.text; score = score })

  unfoldable pub candidates : List (Uuid × F) → Result (List (ScoredChunk F))
  candidates [] = ok []
  candidates ((id, score) ∷ fused) =
      bind_result (candidate (by_id id c.corpus) (id, score))
        λ chunk. bind_result (candidates fused) λ rest. ok (chunk ∷ rest)

  -- The body after the embeddings.
  unfoldable pub search_corpus : SearchQuery → List (Embedding F) → Result (List (ScoredChunk F))
  search_corpus query embeddings = bind_result (c.embed (query.text ∷ [])) λ es.
      bind_result (first_embedding es) λ query_embedding.
        bind_result (similarities query_embedding c.corpus embeddings) λ sims.
          let vector_ids =
            map (λ p. c.doc_uuid p.0.id) (sorted_desc (λ a b. c.floats.lt a.1 b.1) sims) in
          bind_result
            (reciprocal_rank_fusion c.floats (vector_ids ∷ keyword_ids query.text ∷ []) (pos 60))
            λ fused.
              map_result (λ found. c.rerank query.text found query.top_k)
                (candidates (sorted_desc (λ a b. c.floats.lt a.1 b.1) fused))

  -- InMemorySearcher.handle
  unfoldable pub handle : Uuid → SearchQuery → Action (Memo F) (List (ScoredChunk F))
  handle tenant_id query = ensure_embedded >>= λ embeddings. lift (search_corpus query embeddings)

  -- What is kept are the embeddings of the corpus.
  abbrev pub IsMemo : Memo F → Type 0
  IsMemo none = Unit {0}
  IsMemo (some embeddings) = c.embed (map (λ d. d.text) c.corpus) ≡ ok embeddings

  ensure_embedded-lem :
      (memo : Memo F)
      → IsMemo memo
      → ((ensure_embedded memo).0 ≡ c.embed (map (λ d. d.text) c.corpus))
        × IsMemo (ensure_embedded memo).1
  unfolding ensure_embedded
  ensure_embedded-lem (some embeddings) h = (sym h, h)
  ensure_embedded-lem none h = elim (Result-cases (c.embed (map (λ d. d.text) c.corpus))) [
    | inl (es, e) ↦ rw e (refl, e)
    | inr (x, e) ↦ rw e (refl, tt)
  ]

  then-lift :
      {S A B : Type 0} (r : Result A) (f : A → Result B) (s : S)
      → and_then r (λ a. lift (f a)) s ≡ (bind_result r f, s)
  then-lift (ok a) f s = refl
  then-lift (err e) f s = refl

  -- A search answers the same whether the corpus was embedded by an earlier search or not, its errors
  -- included, and keeps the embeddings of the corpus for the next one.
  pub handle-IsMemo :
      (tenant_id : Uuid) (query : SearchQuery) (memo : Memo F)
      → IsMemo memo
      → ((handle tenant_id query memo).0 ≡ (handle tenant_id query none).0)
        × IsMemo (handle tenant_id query memo).1
  unfolding handle
  handle-IsMemo tenant_id query memo h =
      let (same, kept) = ensure_embedded-lem memo h in
      let (fresh, _) = ensure_embedded-lem none tt in
      let first =
        then-lift (ensure_embedded memo).0 (search_corpus query) (ensure_embedded memo).1 in
      let again =
        then-lift (ensure_embedded none).0 (search_corpus query) (ensure_embedded none).1 in
      (
        ap (λ r. r.0) first
            ∙ ap (λ r. bind_result r (search_corpus query)) (same ∙ sym fresh)
            ∙ sym (ap (λ r. r.0) again),
        subst IsMemo (sym (ap (λ r. r.1) first)) kept,
      )
