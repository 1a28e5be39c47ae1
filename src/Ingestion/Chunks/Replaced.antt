-- ===== src/Ingestion/Chunks/Replaced.antt =====
-- What replacing the chunks of a document leaves in the store.
use eka_knowledge_assistant.Prelude.{
  ◌≡◌, refl, sym, ap, ◌∙◌, inl, inr, Bool, true, false, ◌&&◌, not, List, [], ◌∷◌, ◌++◌, map, ◌==◌,
  Bool-cases, is_empty, filter, All, filter-append, strip, pos, ltb_ℤ, ok,
}
use mathlib.Core.Bool.{false≢true}
use eka_knowledge_assistant.Shared.Transaction.{Session}
use eka_knowledge_assistant.Documents.Document.{Uuid, Instant}
use eka_knowledge_assistant.Ingestion.Chunks.{
  Embedding, chunk_text, Chunk, ChunkModel, Store, collect, embedding, chunk, to_domain, to_model,
  owns_chunk, delete_for_document, replace_for_document, list_for_document,
}

-- The values that the constructors of a chunk accept.
pub record IsChunk {F : Type 0} (c : Chunk F) : Type 0 where
  pub some_text : is_empty (strip c.text.value) ≡ false
  pub some_values : is_empty c.embedding.values ≡ false
  pub natural : ltb_ℤ c.ordinal (pos 0) ≡ false

abbrev pub belongs : {F : Type 0} → Uuid → Uuid → Chunk F → Bool
belongs tenant_id document_id c = c.tenant_id == tenant_id && c.document_id == document_id

-- Rows in the order of their ordinals.
abbrev pub Ascending : {F : Type 0} → List (ChunkModel F) → Type 0
Ascending [] = Unit {0}
Ascending (m ∷ ms) = All (λ n. ltb_ℤ m.ordinal n.ordinal ≡ true) ms × Ascending ms

-- ORDER BY ordinal: what is in order stays as it is.
pub record SortsByOrdinal {F : Type 0} (order : List (ChunkModel F) → List (ChunkModel F))
    : Type 0 where
  pub sorted : (ms : List (ChunkModel F)) → Ascending ms → order ms ≡ ms

module _ {F : Type 0} where
  embedding_values : (e : Embedding F) → is_empty e.values ≡ false → embedding e.values ≡ ok e
  unfolding embedding
  embedding_values e h = go e.values refl
    where
      go : (vs : List F) → e.values ≡ vs → embedding e.values ≡ ok e
      go [] k = absurd (false≢true (sym h ∙ ap is_empty k))
      go (v ∷ vs) k = rw k refl

  to_domain-to_model : (now : Instant) (c : Chunk F) → IsChunk c → to_domain (to_model now c) ≡ ok c
  unfolding to_domain to_model chunk_text chunk
  to_domain-to_model now c h =
      simp (h.some_text, embedding_values c.embedding h.some_values, h.natural) refl

  collect-to_model :
      (now : Instant) (cs : List (Chunk F))
      → All IsChunk cs
      → collect to_domain (map (to_model now) cs) ≡ ok cs
  collect-to_model now [] h = refl
  collect-to_model now (c ∷ cs) h =
      simp (to_domain-to_model now c h.0, collect-to_model now cs h.1) refl

  owns_new :
      (now : Instant) (tenant_id document_id : Uuid) (cs : List (Chunk F))
      → All (λ c. belongs tenant_id document_id c ≡ true) cs
      → filter (owns_chunk tenant_id document_id) (map (to_model now) cs) ≡ map (to_model now) cs
  unfolding owns_chunk to_model
  owns_new now tenant_id document_id [] h = refl
  owns_new now tenant_id document_id (c ∷ cs) h =
      rw h.0 (ap (λ l. to_model now c ∷ l) (owns_new now tenant_id document_id cs h.1))

  -- The row is of another document or another tenant.
  abbrev pub other : Uuid → Uuid → ChunkModel F → Bool
  other tenant_id document_id m = not (owns_chunk tenant_id document_id m)

  -- The rows that a replacement leaves.
  abbrev pub replaced : Instant → Uuid → Uuid → List (Chunk F) → Store F → List (ChunkModel F)
  replaced now tenant_id document_id cs s =
      filter (other tenant_id document_id) s.chunks ++ map (to_model now) cs

  pub replace-replaced :
      (now : Instant) (tenant_id document_id : Uuid) (cs : List (Chunk F)) (s : Session (Store F))
      → replace_for_document now tenant_id document_id cs s ≡ (
        ok tt,
        record s {
          pending = record s.pending { chunks = replaced now tenant_id document_id cs s.pending };
        },
      )
  unfolding replace_for_document delete_for_document
  replace-replaced now tenant_id document_id cs s = refl

  filter_complement :
      (p : ChunkModel F → Bool) (ms : List (ChunkModel F))
      → filter p (filter (λ m. not (p m)) ms) ≡ []
  filter_complement p [] = refl
  filter_complement p (m ∷ ms) = elim (Bool-cases (p m)) [
    | inl e ↦ rw e (filter_complement p ms)
    | inr e ↦ rw e (rw e (filter_complement p ms))
  ]

  filter_idem :
      (p : ChunkModel F → Bool) (ms : List (ChunkModel F)) → filter p (filter p ms) ≡ filter p ms
  filter_idem p [] = refl
  filter_idem p (m ∷ ms) = elim (Bool-cases (p m)) [
    | inl e ↦ rw e (rw e (ap (λ l. m ∷ l) (filter_idem p ms)))
    | inr e ↦ rw e (filter_idem p ms)
  ]

  not_owns_new :
      (now : Instant) (tenant_id document_id : Uuid) (cs : List (Chunk F))
      → All (λ c. belongs tenant_id document_id c ≡ true) cs
      → filter (other tenant_id document_id) (map (to_model now) cs) ≡ []
  unfolding owns_chunk to_model
  not_owns_new now tenant_id document_id [] h = refl
  not_owns_new now tenant_id document_id (c ∷ cs) h =
      rw h.0 (not_owns_new now tenant_id document_id cs h.1)

append_nil : {A : Type 0} (xs : List A) → xs ++ [] ≡ xs
append_nil [] = refl
append_nil (x ∷ xs) = ap (λ l. x ∷ l) (append_nil xs)

-- The chunks of the document are `cs`, in their order, and all that is of another document and all
-- stored contents are as before.
pub record IsReplacement {F : Type 0} (order : List (ChunkModel F) → List (ChunkModel F))
    (tenant_id document_id : Uuid) (cs : List (Chunk F)) (before after : Store F) : Type 0 where
  pub listed :
      (list_for_document order tenant_id document_id (record { stored = after; pending = after })).0
      ≡ ok cs
  pub others :
      filter (other tenant_id document_id) after.chunks
      ≡ filter (other tenant_id document_id) before.chunks
  pub contents : after.contents ≡ before.contents

module _ {F : Type 0} (order : List (ChunkModel F) → List (ChunkModel F))
    (by_ordinal : SortsByOrdinal order) (now : Instant) (tenant_id document_id : Uuid)
    (cs : List (Chunk F)) (s : Store F) where
  -- The chunks that a session writes for a document are the ones that it reads back.
  pub replaced-IsReplacement :
      All IsChunk cs
      → All (λ c. belongs tenant_id document_id c ≡ true) cs
      → Ascending (map (to_model now) cs)
      → IsReplacement order tenant_id document_id cs s
          (record s { chunks = replaced now tenant_id document_id cs s })
  unfolding list_for_document
  replaced-IsReplacement valid owned ascending = record {
    listed =
        ap (λ ms. collect to_domain (order ms))
          (filter-append (owns_chunk tenant_id document_id) _ (map (to_model now) cs)
            ∙ ap (λ l. l ++ filter (owns_chunk tenant_id document_id) (map (to_model now) cs))
                (filter_complement (owns_chunk tenant_id document_id) s.chunks)
            ∙ owns_new now tenant_id document_id cs owned)
        ∙ ap (collect to_domain) (by_ordinal.sorted _ ascending)
        ∙ collect-to_model now cs valid;
    others =
        filter-append (other tenant_id document_id) _ (map (to_model now) cs)
        ∙ ap
            (λ l.
              filter (other tenant_id document_id) (filter (other tenant_id document_id) s.chunks)
              ++ l)
            (not_owns_new now tenant_id document_id cs owned)
        ∙ append_nil _
        ∙ filter_idem (other tenant_id document_id) s.chunks;
    contents = refl;
  }
