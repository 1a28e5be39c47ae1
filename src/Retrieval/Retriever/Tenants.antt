-- ===== src/Retrieval/Retriever/Tenants.antt =====
-- Whose chunks a retrieval returns.
use eka_knowledge_assistant.Prelude.{
  ℕ, suc, ◌≤◌, ◌≡◌, refl, ap, subst, ◌⊎◌, inl, inr, Bool, true, false, ◌&&◌, not, Option, none,
  some, List, [], ◌∷◌, ◌++◌, arith, ◌==◌, ==_iff, &&-eq-true, length, All, length-take, All-append,
  All-take, All-filter, All-mono, All-apply, filter-All, Text, pos, ok, bind_result-eq-ok,
}
use eka_knowledge_assistant.Shared.Builtins.{Floats, sorted_desc}
use eka_knowledge_assistant.Documents.Document.{Uuid}
use eka_knowledge_assistant.Documents.Repository.Rows.{ok-injective}
use eka_knowledge_assistant.Ingestion.Chunks.{ChunkModel, Embedding}
use eka_knowledge_assistant.Retrieval.Search.{SearchQuery, ScoredChunk}
use eka_knowledge_assistant.Retrieval.Retriever.{
  in_scope, later_row, catalog_row, scored, scored_chunks, vector_rows, keyword_rows,
  reciprocal_rank_fusion, retrieve,
}

some_injective : {A : Type 0} {x y : A} → some x ≡ some y → x ≡ y
some_injective h = cc

-- A scan of an index or a sort: it may lose rows, and it makes none up.
pub record InventsNothing {A : Type 0} (order : List A → List A) : Type 0 where
  pub no_new :
      (p : A → Bool) (xs : List A) → All (λ x. p x ≡ false) xs → All (λ x. p x ≡ false) (order xs)

unless_good : (a b : Bool) → (a ≡ true → b ≡ true) → (a && not b) ≡ false
unless_good false b h = refl
unless_good true b h = rw (h refl) refl

good_if : (a b : Bool) → (a && not b) ≡ false → a ≡ true → b ≡ true
good_if a b h k = ground (arith, h, k)

module _ {F : Type 0} (floats : Floats F) (q : Uuid → Uuid → Text → Bool) where
  abbrev IsGood : ChunkModel F → Type 0
  IsGood m = q m.id m.document_id m.text ≡ true

  abbrev IsGoodResult : ScoredChunk F → Type 0
  IsGoodResult c = q c.chunk_id c.document_id c.text ≡ true

  later_row-cases :
      (o : Option (ChunkModel F)) (b : Bool) (r m : ChunkModel F)
      → later_row floats o b r ≡ some m
      → (o ≡ some m) ⊎ ((b ≡ true) × (r ≡ m))
  later_row-cases (some x) b r m h = inl h
  later_row-cases none true r m h = inr (refl, some_injective h)
  later_row-cases none false r m h = absurd (ground arith)

  catalog_row-IsGood :
      (id : Uuid) (rows : List (ChunkModel F)) (m : ChunkModel F)
      → All IsGood rows
      → catalog_row floats id rows ≡ some m
      → (m.id ≡ id) × IsGood m
  unfolding catalog_row
  catalog_row-IsGood id [] m h e = absurd (ground arith)
  catalog_row-IsGood id (r ∷ rows) m h e =
      elim (later_row-cases (catalog_row floats id rows) (r.id == id) r m e) [
        | inl s ↦ catalog_row-IsGood id rows m h.1 s
        | inr (b, same) ↦ subst (λ x. (x.id ≡ id) × IsGood x) same ((==_iff r.id id).0 b, h.0)
      ]

  scored-IsGood :
      (found : Option (ChunkModel F)) (id : Uuid) (score : F) (c : ScoredChunk F)
      → ((m : ChunkModel F) → found ≡ some m → (m.id ≡ id) × IsGood m)
      → scored floats found (id, score) ≡ ok c
      → IsGoodResult c
  scored-IsGood none id score c h e = absurd (ground arith)
  scored-IsGood (some m) id score c h e =
      let (same, good) = h m refl in
      subst IsGoodResult (ok-injective e) (subst (λ i. q i m.document_id m.text ≡ true) same good)

  scored_chunks-IsGood :
      (rows : List (ChunkModel F)) (fused : List (Uuid × F)) (cs : List (ScoredChunk F))
      → All IsGood rows
      → scored_chunks floats rows fused ≡ ok cs
      → All IsGoodResult cs × (length cs ≡ length fused)
  unfolding scored_chunks
  scored_chunks-IsGood rows [] cs h e =
      subst (λ x. All IsGoodResult x × (length x ≡ 0)) (ok-injective e) (tt, refl)
  scored_chunks-IsGood rows ((id, score) ∷ fused) cs h e =
      let (c, p, k) =
        bind_result-eq-ok (scored floats (catalog_row floats id rows) (id, score)) _ e in
      let (cs', p', k') = bind_result-eq-ok (scored_chunks floats rows fused) _ k in
      let (good, same) = scored_chunks-IsGood rows fused cs' h p' in
      subst (λ x. All IsGoodResult x × (length x ≡ suc (length fused))) (ok-injective k')
        (
          (
            scored-IsGood (catalog_row floats id rows) id score c
                (λ m s. catalog_row-IsGood id rows m h s) p,
            good,
          ),
          ap suc same,
        )

  module _ (by_distance : Embedding F → List (ChunkModel F) → List (ChunkModel F))
      (by_rank : Text → List (ChunkModel F) → List (ChunkModel F))
      (matches : Text → ChunkModel F → Bool)
      (keeps : (e : Embedding F) → InventsNothing (by_distance e))
      (keeps' : (t : Text) → InventsNothing (by_rank t)) (tenant_id : Uuid)
      (query : SearchQuery) where
    rows-IsGood :
        (embedding : Embedding F) (pool : ℕ) (t : List (ChunkModel F))
        → All (λ m. in_scope floats tenant_id query m ≡ true → IsGood m) t
        → All IsGood (
            vector_rows floats by_distance by_rank matches tenant_id query embedding pool t
            ++ keyword_rows floats by_distance by_rank matches tenant_id query pool t)
    unfolding vector_rows keyword_rows
    rows-IsGood embedding pool t h =
        All-append IsGood _ _
          (All-take IsGood pool _ (
            All-apply _ _ _
              (All-filter _ (in_scope floats tenant_id query) _ (
                All-mono (λ m e s. good_if _ _ e s) _
                  ((keeps embedding).no_new
                    (λ m. in_scope floats tenant_id query m && not (q m.id m.document_id m.text)) t
                    (All-mono (λ m k. unless_good _ _ k) t h))))
              (filter-All (in_scope floats tenant_id query) _)))
          (All-take IsGood pool _ (
            All-mono (λ m e. not-false e) _
              ((keeps' query.text).no_new (λ m. not (q m.id m.document_id m.text)) _
                (All-mono (λ m e. ap not e) _
                  (All-apply _ _ _
                    (All-filter _ (λ m. in_scope floats tenant_id query m && matches query.text m) t
                      (All-mono (λ m k e. k (&&-eq-true _ _ e).0) t h))
                    (filter-All (λ m. in_scope floats tenant_id query m && matches query.text m)
                      t))))))
      where
        not-false : {b : Bool} → not b ≡ false → b ≡ true
        not-false e = ground arith

    -- If the database's scan by distance and its sort by rank make no rows up, a retrieval that succeeds returns at most
    -- `pool_size` chunks, and whatever holds of the identifier, the document and the text of every
    -- chunk of the tenant, in the query's collection if it names one, holds of those of every result.
    pub retrieve_scoped :
        (embedding : Embedding F) (pool : ℕ) (t : List (ChunkModel F)) (cs : List (ScoredChunk F))
        → All (λ m. in_scope floats tenant_id query m ≡ true → IsGood m) t
        → retrieve floats by_distance by_rank matches tenant_id query embedding pool t ≡ ok cs
        → (length cs ≤ pool) × All IsGoodResult cs
    unfolding retrieve
    retrieve_scoped embedding pool t cs h e =
        let (fused, p, k) = bind_result-eq-ok (reciprocal_rank_fusion floats _ (pos 60)) _ e in
        let (good, same) = scored_chunks-IsGood _ _ cs (rows-IsGood embedding pool t h) k in
        (omega (arith, same, length-take pool (sorted_desc (λ a b. floats.lt a.1 b.1) fused)), good)
