-- ===== src/Ingestion/Pipeline/Dimension.antt =====
-- The hashing embedder in the pipeline, and a dimension that the column of the table does not take.
use eka_knowledge_assistant.Prelude.{
  ℕ, ◌<◌, ◌≡◌, refl, sym, ap, ◌∙◌, ◌≢◌, inl, inr, Bool, true, false, not, some, List, [], ◌∷◌, ◌++◌,
  map, arith, ◌==◌, ==_iff, Bool-cases, length, filter, any, All, length-map, All-mono, Text,
  is_blank, ℤ, data_error, Result, ok, err,
}
use eka_knowledge_assistant.Shared.Builtins.{Floats}
use eka_knowledge_assistant.Shared.Transaction.{commit-err, with_uow}
use eka_knowledge_assistant.Ingestion.Jobs.{IngestionJob}
use eka_knowledge_assistant.Ingestion.Chunking.{ChunkingConfig, chunking_config, TextPiece, split}
use eka_knowledge_assistant.Ingestion.Chunking.NonBlank.{split_some_text, split_some_piece}
use eka_knowledge_assistant.Ingestion.Chunks.{
  Embedding, dimension, Store, get_content, to_model, check_store,
}
use eka_knowledge_assistant.Ingestion.Chunks.Replaced.{replace-replaced, other}
use eka_knowledge_assistant.Ingestion.Embedding.{HashingEmbeddingModel, embed, embed-HasDimension}
use eka_knowledge_assistant.Ingestion.Pipeline.{Clock, create_chunks, index_pieces, index_document}
use eka_knowledge_assistant.Ingestion.Pipeline.Indexing.{
  chunks_of, create_chunks-ok, new_chunks, new_store, index_document-reads,
}

any-append_right :
    {A : Type 0} (p : A → Bool) (xs ys : List A) → any p ys ≡ true → any p (xs ++ ys) ≡ true
any-append_right p [] ys h = h
any-append_right p (x ∷ xs) ys h = elim (Bool-cases (p x)) [
  | inl e ↦ rw e refl
  | inr e ↦ rw e (any-append_right p xs ys h)
]

narrow_store :
    {F : Type 0} (s : Store F)
    → any (λ m. not (length m.embedding == 384)) s.chunks ≡ true
    → check_store s ≡ err data_error
unfolding check_store
narrow_store s h = rw h refl

module _ {F : Type 0} (embed : List Text → Result (List (Embedding F))) (config : ChunkingConfig)
    (clock : Clock) (job : IngestionJob) where
  narrow_chunks :
      (p : TextPiece) (ps : List TextPiece) (e : Embedding F) (es : List (Embedding F))
      (s : Store F)
      → (dimension e == 384) ≡ false
      → check_store
          (new_store embed config clock job (new_chunks embed config clock job (p ∷ ps) (e ∷ es)) s)
        ≡ err data_error
  unfolding dimension to_model
  narrow_chunks p ps e es s h = narrow_store _ (
      any-append_right (λ m. not (length m.embedding == 384))
        (filter (other job.tenant_id job.document_id) s.chunks) _ (rw h refl))

  narrow_pieces :
      (ps : List TextPiece) (es : List (Embedding F)) (s : Store F)
      → 0 < length ps
      → length es ≡ length ps
      → embed (map (λ q. q.text) ps) ≡ ok es
      → create_chunks clock.new_id job ps es ≡ ok (chunks_of clock.new_id job ps es)
      → All (λ e. (dimension e == 384) ≡ false) es
      → index_pieces embed config clock job ps (record { stored = s; pending = s })
        ≡ (err data_error, record { stored = s; pending = s })
  unfolding index_pieces
  narrow_pieces [] es s h l a c w = absurd (omega arith)
  narrow_pieces (p ∷ ps) [] s h l a c w = absurd (omega arith)
  narrow_pieces (p ∷ ps) (e ∷ es) s h l a c w =
      let cs = chunks_of clock.new_id job (p ∷ ps) (e ∷ es) in
      simp
        (
          a,
          c,
          replace-replaced clock.now job.tenant_id job.document_id cs
              (record { stored = s; pending = s }),
        )
        (commit-err check_store
          (record { stored = s; pending = new_store embed config clock job cs s })
          (narrow_chunks p ps e es s w.0))

module _ {F : Type 0} (floats : Floats F) (lower : Text → Text) (sha1 : Text → List ℕ)
    (sha1_size : (t : Text) → length (sha1 t) ≡ 20) (model : HashingEmbeddingModel) where
  -- With an embedding dimension other than 384, every attempt to index a text that is not blank fails
  -- on the constraint of the column, and the store is as it was.
  pub wrong_dimension :
      (size overlap : ℤ) (config : ChunkingConfig) (clock : Clock) (job : IngestionJob)
      (text : Text) (s : Store F)
      → 0 < model.dimension
      → model.dimension ≢ 384
      → chunking_config size overlap ≡ ok config
      → (get_content job.tenant_id job.document_id (record { stored = s; pending = s })).0
        ≡ ok (some text)
      → is_blank text ≡ false
      → index_document (embed floats lower sha1 model) config clock job s ≡ (err data_error, s)
  unfolding with_uow
  wrong_dimension size overlap config clock job text s positive other h k b =
      let ps = split config text in
      let (es, a, l, w) =
        embed-HasDimension floats lower sha1 sha1_size model (map (λ q. q.text) ps) positive in
      let each = l ∙ length-map (λ (q : TextPiece). q.text) ps in
      index_document-reads (embed floats lower sha1 model) config clock job text s k
      ∙ ap (λ r. (r.0, r.1.stored))
          (narrow_pieces (embed floats lower sha1 model) config clock job ps es s
            (split_some_piece size overlap config text h b) each a
            (create_chunks-ok clock.new_id job ps es (split_some_text size overlap config text h)
              each)
            (All-mono (λ e d. differs e d) es w))
    where
      differs : (e : Embedding F) → dimension e ≡ model.dimension → (dimension e == 384) ≡ false
      differs e d = elim (Bool-cases (dimension e == 384)) [
        | inl f ↦ absurd (other (sym d ∙ (==_iff (dimension e) 384).0 f))
        | inr f ↦ f
      ]
