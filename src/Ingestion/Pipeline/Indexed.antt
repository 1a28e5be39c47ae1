-- ===== src/Ingestion/Pipeline/Indexed.antt =====
-- What the unit of work on a document's content leaves in the store.
use eka_knowledge_assistant.Prelude.{
  ℕ, ◌≡◌, refl, sym, subst, true, false, ◌&&◌, not, some, List, [], ◌∷◌, map, ◌==◌, ==_refl, length,
  All, All-of, All-mono, Text, is_blank, ℤ, Result, ok,
}
use eka_knowledge_assistant.Documents.Document.{Uuid}
use eka_knowledge_assistant.Ingestion.Jobs.{IngestionJob}
use eka_knowledge_assistant.Ingestion.Chunking.{
  ChunkingConfig, chunking_config, TextPiece, enumerate, split,
}
use eka_knowledge_assistant.Ingestion.Chunking.NonBlank.{split_some_text}
use eka_knowledge_assistant.Ingestion.Chunks.{
  Embedding, dimension, ChunkModel, Store, get_content, check_store,
}
use eka_knowledge_assistant.Ingestion.Chunks.Replaced.{
  IsChunk, belongs, SortsByOrdinal, IsReplacement, replaced-IsReplacement,
}
use eka_knowledge_assistant.Ingestion.Chunks.Constraints.{HasOtherId, check-replaced}
use eka_knowledge_assistant.Ingestion.Pipeline.{Clock, index_document}
use eka_knowledge_assistant.Ingestion.Pipeline.Indexing.{
  stripped_text, wide_values, not_negative, chunk_of, chunks_of, chunks-All, chunks-Ascending,
  distinct_chunks, create_chunks-ok, split-enumerate, new_chunks, new_store, index_document-stored,
}

-- A store that keeps its constraints, in which the rows of the job's document are of the job's
-- tenant, and ids for new chunks that no two share and no row has.
pub record IsReady {F : Type 0} (clock : Clock) (job : IngestionJob) (s : Store F) : Type 0 where
  pub valid : check_store s ≡ ok tt
  pub single :
      All
        (λ m. (m.document_id == job.document_id && not (m.tenant_id == job.tenant_id)) ≡ false)
        s.chunks
  pub distinct : (i j : ℕ) → clock.new_id i ≡ clock.new_id j → i ≡ j
  pub fresh : (i : ℕ) → All (λ m. (m.id == clock.new_id i) ≡ false) s.chunks

-- What the embedding model answers for a list of pieces: an embedding for each, of the dimension of
-- the column.
pub record IsEmbedded {F : Type 0} (embed : List Text → Result (List (Embedding F)))
    (ps : List TextPiece) (es : List (Embedding F)) : Type 0 where
  pub answer : embed (map (λ q. q.text) ps) ≡ ok es
  pub each : length es ≡ length ps
  pub wide : All (λ e. dimension e ≡ 384) es

chunks-HasOtherId :
    {F : Type 0} (new_id : ℕ → Uuid) (job : IngestionJob) (m : ChunkModel F) (ps : List TextPiece)
    (es : List (Embedding F))
    → All (λ p. (m.id == new_id p.ordinal) ≡ false) ps
    → HasOtherId m (chunks_of new_id job ps es)
chunks-HasOtherId new_id job m [] es h = tt
chunks-HasOtherId new_id job m (p ∷ ps) [] h = tt
chunks-HasOtherId new_id job m (p ∷ ps) (e ∷ es) h = (h.0, chunks-HasOtherId new_id job m ps es h.1)

all_fresh :
    {F : Type 0} (new_id : ℕ → Uuid) (job : IngestionJob) (ps : List TextPiece)
    (es : List (Embedding F)) (ms : List (ChunkModel F))
    → All (λ p. All (λ m. (m.id == new_id p.ordinal) ≡ false) ms) ps
    → All (λ m. HasOtherId m (chunks_of new_id job ps es)) ms
all_fresh new_id job ps es [] h = tt
all_fresh new_id job ps es (m ∷ ms) h = (
  chunks-HasOtherId new_id job m ps es (All-mono (λ p k. k.0) ps h),
  all_fresh new_id job ps es ms (All-mono (λ p k. k.1) ps h),
)

module _ {F : Type 0} (embed : List Text → Result (List (Embedding F))) (config : ChunkingConfig)
    (clock : Clock) (job : IngestionJob) (order : List (ChunkModel F) → List (ChunkModel F))
    (by_ordinal : SortsByOrdinal order) (s : Store F) (ready : IsReady clock job s) where
  abbrev Listing : List TextPiece → List (Embedding F) → Type 0
  Listing ps es =
      (check_store (new_store embed config clock job (new_chunks embed config clock job ps es) s)
        ≡ ok tt)
      × IsReplacement order job.tenant_id job.document_id (new_chunks embed config clock job ps es)
          s (new_store embed config clock job (new_chunks embed config clock job ps es) s)

  owned_chunk :
      (p : TextPiece) (e : Embedding F)
      → belongs job.tenant_id job.document_id (chunk_of clock.new_id job p e) ≡ true
  owned_chunk p e = rw (==_refl job.tenant_id) (==_refl job.document_id)

  enumerated :
      (ts : List Text) (es : List (Embedding F))
      → All (λ p. is_blank p.text ≡ false) (enumerate 0 ts)
      → All (λ e. dimension e ≡ 384) es
      → Listing (enumerate 0 ts) es
  enumerated ts es h k =
      let cs = chunks_of clock.new_id job (enumerate 0 ts) es in
      let owned =
        chunks-All clock.new_id job (λ c. belongs job.tenant_id job.document_id c ≡ true)
          (enumerate 0 ts) es h k (λ p e _ _. owned_chunk p e) in
      let ascending = chunks-Ascending clock.new_id job clock.now 0 ts es in
      (
        check-replaced clock.now job.tenant_id job.document_id cs owned s ready.valid ready.single
            (all_fresh clock.new_id job (enumerate 0 ts) es s.chunks
              (All-of _ (λ p. ready.fresh p.ordinal) (enumerate 0 ts)))
            ascending (distinct_chunks clock.new_id job ready.distinct 0 ts es)
            (chunks-All clock.new_id job (λ c. dimension c.embedding ≡ 384) (enumerate 0 ts) es h k
              (λ p e _ w. w)),
        replaced-IsReplacement order by_ordinal clock.now job.tenant_id job.document_id cs s
            (chunks-All clock.new_id job IsChunk (enumerate 0 ts) es h k (λ p e b w. record {
              some_text = stripped_text p.text b;
              some_values = wide_values e w;
              natural = not_negative p.ordinal;
            }))
            owned ascending,
      )

  -- With a configuration that passes its checks, a stored content, a store that keeps its
  -- constraints, fresh ids and an embedding of the column's dimension for each piece, the unit of work
  -- succeeds. It leaves the chunks of the document's pieces in their order, in place of the ones
  -- before, and the chunks of other documents and the contents as they were.
  pub index_document-IsReplacement :
      (size overlap : ℤ) (text : Text) (es : List (Embedding F))
      → chunking_config size overlap ≡ ok config
      → (get_content job.tenant_id job.document_id (record { stored = s; pending = s })).0
        ≡ ok (some text)
      → IsEmbedded embed (split config text) es
      → ((index_document embed config clock job s).0 ≡ ok tt)
        × IsReplacement order job.tenant_id job.document_id
            (chunks_of clock.new_id job (split config text) es)
            s
            (index_document embed config clock job s).1
  index_document-IsReplacement size overlap text es h k l =
      let some_text = split_some_text size overlap config text h in
      let (ts, e) = split-enumerate config text in
      let (valid, done) =
        subst (λ ps. Listing ps es) (sym e)
          (enumerated ts es (subst (All (λ p. is_blank p.text ≡ false)) e some_text) l.wide) in
      rw
        (index_document-stored embed config clock job text es s k l.answer
          (create_chunks-ok clock.new_id job (split config text) es some_text l.each) valid)
        (refl, done)
