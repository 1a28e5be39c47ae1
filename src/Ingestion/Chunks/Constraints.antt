-- ===== src/Ingestion/Chunks/Constraints.antt =====
-- The constraints of the `chunks` table after the chunks of a document are replaced.
use eka_knowledge_assistant.Prelude.{
  ◌≡◌, refl, inl, inr, Bool, true, false, ◌&&◌, not, List, [], ◌∷◌, ◌++◌, map, arith, ◌==◌,
  Bool-cases, length, filter, any, All, All-append, All-filter, any-eq-false, any_of_All, unique,
  unique-filter, unique-append, ltb_ℤ, ok,
}
use eka_knowledge_assistant.Documents.Document.{Uuid, Instant}
use eka_knowledge_assistant.Ingestion.Chunks.{
  dimension, Chunk, ChunkModel, Store, to_model, owns_chunk, same_chunk, check_store,
}
use eka_knowledge_assistant.Ingestion.Chunks.Replaced.{belongs, Ascending, other, replaced}

module _ {F : Type 0} where
  -- The row carries an id that none of the chunks has.
  abbrev pub HasOtherId : ChunkModel F → List (Chunk F) → Type 0
  HasOtherId m cs = All (λ c. (m.id == c.id) ≡ false) cs

  -- No two of the chunks have the same id.
  abbrev pub DistinctIds : List (Chunk F) → Type 0
  DistinctIds [] = Unit {0}
  DistinctIds (c ∷ cs) = All (λ d. (c.id == d.id) ≡ false) cs × DistinctIds cs

  check-wide :
      (s : Store F)
      → check_store s ≡ ok tt
      → (any (λ m. not (length m.embedding == 384)) s.chunks ≡ false)
        × (unique same_chunk s.chunks ≡ true)
  unfolding check_store
  check-wide s h = elim (Bool-cases (any (λ m. not (length m.embedding == 384)) s.chunks)) [
    | inl e ↦ absurd (ground (arith, rw e at h))
    | inr e ↦ elim (Bool-cases (unique same_chunk s.chunks)) [
      | inl f ↦ (e, f)
      | inr f ↦ absurd (ground (arith, rw (e, f) at h))
    ]
  ]

  check_of :
      (s : Store F)
      → any (λ m. not (length m.embedding == 384)) s.chunks ≡ false
      → unique same_chunk s.chunks ≡ true
      → check_store s ≡ ok tt
  unfolding check_store
  check_of s h k = rw (h, k) refl

  -- Chunks in order with different ids do not clash.
  apart_new :
      (now : Instant) (c : Chunk F) (cs : List (Chunk F))
      → All (λ n. ltb_ℤ c.ordinal n.ordinal ≡ true) (map (to_model now) cs)
      → All (λ d. (c.id == d.id) ≡ false) cs
      → any (same_chunk (to_model now c)) (map (to_model now) cs) ≡ false
  unfolding to_model
  apart_new now c [] h k = refl
  apart_new now c (d ∷ cs) h k = ground (arith, apart_new now c cs h.1 k.1, h.0, k.0)

  unique_new :
      (now : Instant) (cs : List (Chunk F))
      → Ascending (map (to_model now) cs)
      → DistinctIds cs
      → unique same_chunk (map (to_model now) cs) ≡ true
  unfolding to_model
  unique_new now [] h k = refl
  unique_new now (c ∷ cs) h k = rw (apart_new now c cs h.0 k.0) (unique_new now cs h.1 k.1)

  any-append :
      (p : ChunkModel F → Bool) (xs ys : List (ChunkModel F))
      → any p xs ≡ false
      → any p ys ≡ false
      → any p (xs ++ ys) ≡ false
  any-append p xs ys h k =
      any_of_All p _ (All-append _ xs ys (any-eq-false p xs h) (any-eq-false p ys k))

  wide_new :
      (now : Instant) (cs : List (Chunk F))
      → All (λ c. dimension c.embedding ≡ 384) cs
      → any (λ m. not (length m.embedding == 384)) (map (to_model now) cs) ≡ false
  unfolding to_model dimension
  wide_new now [] h = refl
  wide_new now (c ∷ cs) h = rw h.0 (wide_new now cs h.1)

  -- A row that is kept clashes with no new chunk.
  kept_clashes :
      (now : Instant) (tenant_id document_id : Uuid) (m : ChunkModel F) (cs : List (Chunk F))
      → (m.document_id == document_id) ≡ false
      → All (λ c. belongs tenant_id document_id c ≡ true) cs
      → HasOtherId m cs
      → All (λ n. same_chunk m n ≡ false) (map (to_model now) cs)
  unfolding to_model
  kept_clashes now tenant_id document_id m [] h k l = tt
  kept_clashes now tenant_id document_id m (c ∷ cs) h k l =
      (ground (arith, h, k.0, l.0), kept_clashes now tenant_id document_id m cs h k.1 l.1)

module _ {F : Type 0} (now : Instant) (tenant_id document_id : Uuid) (cs : List (Chunk F))
    (owned : All (λ c. belongs tenant_id document_id c ≡ true) cs) where
  all_clashes :
      (ms : List (ChunkModel F))
      → All (λ m. (m.document_id == document_id && not (m.tenant_id == tenant_id)) ≡ false) ms
      → All (λ m. HasOtherId m cs) ms
      → All
          (λ m. All (λ n. same_chunk m n ≡ false) (map (to_model now) cs))
          (filter (other tenant_id document_id) ms)
  unfolding owns_chunk
  all_clashes [] h k = tt
  all_clashes (m ∷ ms) h k =
      elim (Bool-cases (m.tenant_id == tenant_id && m.document_id == document_id)) [
        | inl e ↦ rw e (all_clashes ms h.1 k.1)
        | inr e ↦ rw e (
          kept_clashes now tenant_id document_id m cs (ground (arith, e, h.0)) owned k.0,
          all_clashes ms h.1 k.1,
        )
      ]

  -- Chunks of the column's dimension, in order and with fresh ids, keep the table's constraints.
  pub check-replaced :
      (s : Store F)
      → check_store s ≡ ok tt
      → All (λ m. (m.document_id == document_id && not (m.tenant_id == tenant_id)) ≡ false) s.chunks
      → All (λ m. HasOtherId m cs) s.chunks
      → Ascending (map (to_model now) cs)
      → DistinctIds cs
      → All (λ c. dimension c.embedding ≡ 384) cs
      → check_store (record s { chunks = replaced now tenant_id document_id cs s }) ≡ ok tt
  check-replaced s h single fresh ascending distinct wide =
      let (before, u) = check-wide s h in
      let keep = other tenant_id document_id in
      check_of _
        (any-append _ (filter keep s.chunks) (map (to_model now) cs)
          (any_of_All _ _ (All-filter _ keep s.chunks (any-eq-false _ s.chunks before)))
          (wide_new now cs wide))
        (unique-append same_chunk (filter keep s.chunks) (map (to_model now) cs)
          (unique-filter same_chunk keep s.chunks u) (unique_new now cs ascending distinct)
          (all_clashes s.chunks single fresh))
