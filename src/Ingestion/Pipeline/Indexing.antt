-- ===== src/Ingestion/Pipeline/Indexing.antt =====
-- The chunks that are made of the pieces of a text, and the run of the unit of work on them.
use eka_knowledge_assistant.Prelude.{
  ℕ, ◌+◌, ◌<◌, ◌≡◌, refl, sym, ap, ◌∙◌, inl, inr, true, false, some, List, [], ◌∷◌, map, arith,
  ◌==◌, ==_iff, Bool-cases, length, is_empty, All, Text, strip, is_blank, blank-strip, pos, ltb_ℤ,
  Result, ok, ◌>>◌,
}
use mathlib.Core.Bool.{false≢true}
use eka_knowledge_assistant.Shared.Transaction.{Session, commit, commit-ok, with_uow}
use eka_knowledge_assistant.Documents.Document.{Uuid, Instant}
use eka_knowledge_assistant.Ingestion.Jobs.{IngestionJob}
use eka_knowledge_assistant.Ingestion.Chunking.{
  ChunkingConfig, TextPiece, separators, recursive_split, merge_with_overlap, enumerate, split,
}
use eka_knowledge_assistant.Ingestion.Chunks.{
  Embedding, dimension, chunk_text, Chunk, chunk, create, Store, get_content, to_model, check_store,
  replace_for_document,
}
use eka_knowledge_assistant.Ingestion.Chunks.Replaced.{Ascending, replaced, replace-replaced}
use eka_knowledge_assistant.Ingestion.Chunks.Constraints.{DistinctIds}
use eka_knowledge_assistant.Ingestion.Pipeline.{
  Clock, create_chunks, index_pieces, index_content, index_document,
}

pub stripped_text : (t : Text) → is_blank t ≡ false → is_empty (strip t) ≡ false
stripped_text t h = go (strip t) (blank-strip t h)
  where
    go : (s : Text) → is_blank s ≡ false → is_empty s ≡ false
    go [] k = absurd (false≢true (sym k ∙ unfold is_blank in refl))
    go (c ∷ s) k = refl

pub not_negative : (n : ℕ) → ltb_ℤ (pos n) (pos 0) ≡ false
not_negative n = ground arith

pub wide_values : {F : Type 0} (e : Embedding F) → dimension e ≡ 384 → is_empty e.values ≡ false
unfolding dimension
wide_values {F} e h = go e.values h
  where
    go : (vs : List F) → length vs ≡ 384 → is_empty vs ≡ false
    go [] k = absurd (omega arith)
    go (v ∷ vs) k = refl

module _ {F : Type 0} (new_id : ℕ → Uuid) (job : IngestionJob) where
  -- The chunk of a piece and its embedding.
  abbrev pub chunk_of : TextPiece → Embedding F → Chunk F
  chunk_of p e = record {
    id = new_id p.ordinal;
    tenant_id = job.tenant_id;
    document_id = job.document_id;
    collection_id = job.collection_id;
    document_version = job.document_version;
    ordinal = pos p.ordinal;
    text = record { value = p.text };
    embedding = e;
  }

  abbrev pub chunks_of : List TextPiece → List (Embedding F) → List (Chunk F)
  chunks_of [] es = []
  chunks_of (p ∷ ps) [] = []
  chunks_of (p ∷ ps) (e ∷ es) = chunk_of p e ∷ chunks_of ps es

  create-ok :
      (p : TextPiece) (e : Embedding F)
      → is_blank p.text ≡ false
      → create
          (new_id p.ordinal)
          job.tenant_id
          job.document_id
          job.collection_id
          job.document_version
          (pos p.ordinal)
          p.text
          e
        ≡ ok (chunk_of p e)
  unfolding create chunk_text chunk
  create-ok p e h = simp (stripped_text p.text h, not_negative p.ordinal) refl

  pub create_chunks-ok :
      (ps : List TextPiece) (es : List (Embedding F))
      → All (λ p. is_blank p.text ≡ false) ps
      → length es ≡ length ps
      → create_chunks new_id job ps es ≡ ok (chunks_of ps es)
  unfolding create_chunks
  create_chunks-ok [] [] h k = refl
  create_chunks-ok [] (e ∷ es) h k = absurd (omega arith)
  create_chunks-ok (p ∷ ps) [] h k = absurd (omega arith)
  create_chunks-ok (p ∷ ps) (e ∷ es) h k =
      simp (create-ok p e h.0, create_chunks-ok ps es h.1 (omega arith)) refl

  pub chunks-All :
      (P : Chunk F → Type 0) (ps : List TextPiece) (es : List (Embedding F))
      → All (λ p. is_blank p.text ≡ false) ps
      → All (λ e. dimension e ≡ 384) es
      → ((p : TextPiece) (e : Embedding F)
          → is_blank p.text ≡ false
          → dimension e ≡ 384
          → P (chunk_of p e))
      → All P (chunks_of ps es)
  chunks-All P [] es h k f = tt
  chunks-All P (p ∷ ps) [] h k f = tt
  chunks-All P (p ∷ ps) (e ∷ es) h k f = (f p e h.0 k.0, chunks-All P ps es h.1 k.1 f)

  later_ordinals :
      (now : Instant) (i j : ℕ) (ts : List Text) (es : List (Embedding F))
      → i < j
      → All
          (λ n. ltb_ℤ (pos i) n.ordinal ≡ true)
          (map (to_model now) (chunks_of (enumerate j ts) es))
  unfolding enumerate to_model
  later_ordinals now i j [] es h = tt
  later_ordinals now i j (t ∷ ts) [] h = tt
  later_ordinals now i j (t ∷ ts) (e ∷ es) h =
      (ground arith, later_ordinals now i (j + 1) ts es (omega arith))

  pub chunks-Ascending :
      (now : Instant) (i : ℕ) (ts : List Text) (es : List (Embedding F))
      → Ascending (map (to_model now) (chunks_of (enumerate i ts) es))
  unfolding enumerate to_model
  chunks-Ascending now i [] es = tt
  chunks-Ascending now i (t ∷ ts) [] = tt
  chunks-Ascending now i (t ∷ ts) (e ∷ es) =
      (later_ordinals now i (i + 1) ts es (omega arith), chunks-Ascending now (i + 1) ts es)

  module _ (distinct : (i j : ℕ) → new_id i ≡ new_id j → i ≡ j) where
    pub later_ids :
        (i j : ℕ) (ts : List Text) (es : List (Embedding F))
        → i < j
        → All (λ d. (new_id i == d.id) ≡ false) (chunks_of (enumerate j ts) es)
    unfolding enumerate
    later_ids i j [] es h = tt
    later_ids i j (t ∷ ts) [] h = tt
    later_ids i j (t ∷ ts) (e ∷ es) h = (different, later_ids i (j + 1) ts es (omega arith))
      where
        different : (new_id i == new_id j) ≡ false
        different = elim (Bool-cases (new_id i == new_id j)) [
          | inl f ↦ absurd (omega (arith, distinct i j ((==_iff (new_id i) (new_id j)).0 f)))
          | inr f ↦ f
        ]

    pub distinct_chunks :
        (i : ℕ) (ts : List Text) (es : List (Embedding F))
        → DistinctIds (chunks_of (enumerate i ts) es)
    unfolding enumerate
    distinct_chunks i [] es = tt
    distinct_chunks i (t ∷ ts) [] = tt
    distinct_chunks i (t ∷ ts) (e ∷ es) =
        (later_ids i (i + 1) ts es (omega arith), distinct_chunks (i + 1) ts es)

pub split-enumerate :
    (config : ChunkingConfig) (text : Text)
    → (ts : List Text) × (split config text ≡ enumerate 0 ts)
unfolding split
split-enumerate config text = elim (Bool-cases (is_empty (strip text))) [
  | inl e ↦ ([], rw e (unfold enumerate in refl))
  | inr e ↦ (
    merge_with_overlap config [] (recursive_split config.chunk_size separators (strip text)),
    rw e refl,
  )
]

module _ {F : Type 0} (embed : List Text → Result (List (Embedding F))) (config : ChunkingConfig)
    (clock : Clock) (job : IngestionJob) where
  abbrev pub new_chunks : List TextPiece → List (Embedding F) → List (Chunk F)
  new_chunks ps es = chunks_of clock.new_id job ps es

  abbrev pub new_store : List (Chunk F) → Store F → Store F
  new_store cs s = record s { chunks = replaced clock.now job.tenant_id job.document_id cs s }

  replace_and_commit :
      (cs : List (Chunk F)) (s : Session (Store F))
      → check_store (new_store cs s.pending) ≡ ok tt
      → (replace_for_document clock.now job.tenant_id job.document_id cs >> commit check_store) s
        ≡ (ok tt, record { stored = new_store cs s.pending; pending = new_store cs s.pending })
  replace_and_commit cs s h =
      simp (replace-replaced clock.now job.tenant_id job.document_id cs s)
        (commit-ok check_store (record s { pending = new_store cs s.pending }) h)

  index_pieces-ok :
      (ps : List TextPiece) (es : List (Embedding F)) (s : Session (Store F))
      → embed (map (λ q. q.text) ps) ≡ ok es
      → create_chunks clock.new_id job ps es ≡ ok (new_chunks ps es)
      → check_store (new_store (new_chunks ps es) s.pending) ≡ ok tt
      → index_pieces embed config clock job ps s ≡ (
        ok tt,
        record {
          stored = new_store (new_chunks ps es) s.pending;
          pending = new_store (new_chunks ps es) s.pending;
        },
      )
  unfolding index_pieces
  index_pieces-ok [] es s h k l = replace_and_commit [] s l
  index_pieces-ok (p ∷ ps) es s h k l =
      simp (h, k) (replace_and_commit (new_chunks (p ∷ ps) es) s l)

  pub index_document-reads :
      (text : Text) (s : Store F)
      → (get_content job.tenant_id job.document_id (record { stored = s; pending = s })).0
        ≡ ok (some text)
      → index_document embed config clock job s
        ≡ with_uow (index_pieces embed config clock job (split config text)) s
  unfolding index_document index_content get_content with_uow
  index_document-reads text s h = simp h refl

  pub index_document-stored :
      (text : Text) (es : List (Embedding F)) (s : Store F)
      → (get_content job.tenant_id job.document_id (record { stored = s; pending = s })).0
        ≡ ok (some text)
      → embed (map (λ q. q.text) (split config text)) ≡ ok es
      → create_chunks clock.new_id job (split config text) es
        ≡ ok (new_chunks (split config text) es)
      → check_store (new_store (new_chunks (split config text) es) s) ≡ ok tt
      → index_document embed config clock job s
        ≡ (ok tt, new_store (new_chunks (split config text) es) s)
  unfolding with_uow
  index_document-stored text es s k a c v =
      index_document-reads text s k
      ∙ ap (λ r. (r.0, r.1.stored))
          (index_pieces-ok (split config text) es (record { stored = s; pending = s }) a c v)
