-- ===== src/Ingestion/Worker/Built.antt =====
-- The worker that valid settings build.
use eka_knowledge_assistant.Prelude.{
  ℕ, suc, ◌≤◌, ◌≡◌, refl, sym, ◌∙◌, ◌↔◌, inl, inr, Bool, true, false, ◌&&◌, arith, if◌then◌else◌,
  Bool-cases, ℤ, pos, negsuc, pos_part, ltb_ℤ, validation_error, ok, err,
}
use eka_knowledge_assistant.Config.{Settings, between, at_least, is_valid}
use eka_knowledge_assistant.Ingestion.Chunking.{chunking_config}
use eka_knowledge_assistant.Ingestion.Chunking.Bounds.{IsConfig, chunking_config-IsConfig}
use eka_knowledge_assistant.Ingestion.Embedding.{hashing_embedding_model}
use eka_knowledge_assistant.Ingestion.Worker.{Worker, build_worker}

-- A worker for the settings, whose parts keep the bounds of the settings' fields.
pub record IsWorkerOf (s : Settings) (w : Worker) : Type 0 where
  pub sound_config : IsConfig w.config
  pub same_size : w.config.chunk_size ≡ pos_part s.chunk_size
  pub same_overlap : w.config.chunk_overlap ≡ pos_part s.chunk_overlap
  pub same_dimension : w.embedder.dimension ≡ pos_part s.embedding_dimension
  pub same_id : w.worker_id ≡ s.worker_id
  pub wide : (8 ≤ w.embedder.dimension) × (w.embedder.dimension ≤ 4096)
  pub batch : (1 ≤ w.batch_size) × (w.batch_size ≤ 100)

between-pos :
    (low high : ℕ) (n : ℤ)
    → between (suc low) high n ≡ true
    → (suc low ≤ pos_part n) × (pos_part n ≤ high)
between-pos low high (pos n) h = ground arith
between-pos low high (negsuc n) h = absurd (ground arith)

embedder-ok :
    (d : ℤ)
    → between 8 4096 d ≡ true
    → hashing_embedding_model d ≡ ok (record { dimension = pos_part d })
unfolding hashing_embedding_model
embedder-ok (pos n) h = ground arith
embedder-ok (negsuc n) h = absurd (ground arith)

-- The settings' bounds leave one way to fail: an overlap that is not below the size.
config-cases :
    (size overlap : ℤ)
    → at_least 64 size ≡ true
    → at_least 0 overlap ≡ true
    → chunking_config size overlap ≡ (
        if ltb_ℤ overlap size
        then ok (record { chunk_size = pos_part size; chunk_overlap = pos_part overlap })
        else err (validation_error "chunk_overlap must be in [0, chunk_size)"))
unfolding chunking_config
config-cases (pos n) (pos m) h k = ground arith
config-cases (pos n) (negsuc m) h k = absurd (ground arith)
config-cases (negsuc n) (pos m) h k = absurd (ground arith)
config-cases (negsuc n) (negsuc m) h k = absurd (ground arith)

-- What the bounds say of the parts of the worker.
record Bounded (s : Settings) : Type 0 where
  dimension_bound : between 8 4096 s.embedding_dimension ≡ true
  size_bound : at_least 64 s.chunk_size ≡ true
  overlap_bound : at_least 0 s.chunk_overlap ≡ true
  batch_bound : between 1 100 s.worker_batch_size ≡ true

six_of_ten :
    (a b c d e f g h i j : Bool)
    → (a && b && c && d && e && f && g && h && i && j) ≡ true
    → (b ≡ true) × (c ≡ true) × (d ≡ true) × (f ≡ true)
six_of_ten a b c d e f g h i j k = ground (arith, k)

valid-Bounded : (s : Settings) → is_valid s ≡ true → Bounded s
unfolding is_valid
valid-Bounded s h =
    let (b, c, d, f) = six_of_ten _ _ _ _ _ _ _ _ _ _ h in
    record { dimension_bound = b; size_bound = c; overlap_bound = d; batch_bound = f }

module _ (s : Settings) (valid : is_valid s ≡ true) where
  abbrev worker : Worker
  worker = record {
    config = record {
      chunk_size = pos_part s.chunk_size;
      chunk_overlap = pos_part s.chunk_overlap;
    };
    embedder = record { dimension = pos_part s.embedding_dimension };
    worker_id = s.worker_id;
    batch_size = pos_part s.worker_batch_size;
  }

  built :
      Bounded s
      → build_worker s ≡ (
          if ltb_ℤ s.chunk_overlap s.chunk_size
          then ok worker
          else err (validation_error "chunk_overlap must be in [0, chunk_size)"))
  unfolding build_worker
  built b = rw (config-cases s.chunk_size s.chunk_overlap b.size_bound b.overlap_bound) (
      rw (embedder-ok s.embedding_dimension b.dimension_bound)
        (elim (Bool-cases (ltb_ℤ s.chunk_overlap s.chunk_size)) [
          | inl e ↦ rw e refl
          | inr e ↦ rw e refl
        ]))

  unbuilt :
      Bounded s
      → ltb_ℤ s.chunk_overlap s.chunk_size ≡ false
      → build_worker s ≡ err (validation_error "chunk_overlap must be in [0, chunk_size)")
  unbuilt b e = built b ∙ rw e refl

  -- With settings within the bounds of their fields, a worker is built exactly when the overlap of the
  -- chunks is below their size. Then its chunks' size, their overlap, the dimension of its embedder and
  -- its name are those of the settings, the dimension is from 8 to 4096 and the batch from 1 to 100.
  pub build_worker_iff :
      (ltb_ℤ s.chunk_overlap s.chunk_size ≡ true)
      ↔ ((w : Worker) × (build_worker s ≡ ok w) × IsWorkerOf s w)
  build_worker_iff =
      let b = valid-Bounded s valid in
      (
        λ e. (
          worker,
          built b ∙ rw e refl,
          record {
            sound_config = chunking_config-IsConfig s.chunk_size s.chunk_overlap worker.config (
                config-cases s.chunk_size s.chunk_overlap b.size_bound b.overlap_bound ∙ rw e refl);
            same_size = refl;
            same_overlap = refl;
            same_dimension = refl;
            same_id = refl;
            wide = between-pos 7 4096 s.embedding_dimension b.dimension_bound;
            batch = between-pos 0 100 s.worker_batch_size b.batch_bound;
          },
        ),
        λ h. elim (Bool-cases (ltb_ℤ s.chunk_overlap s.chunk_size)) [
          | inl e ↦ e
          | inr e ↦ absurd (ground (arith, sym (unbuilt b e) ∙ h.1))
        ],
      )
