-- ===== src/Ingestion/Worker.antt =====
-- src/eka/worker.py: the polling loop, and the worker that is built from the settings.
pub mod Stops
pub mod Built
use eka_knowledge_assistant.Prelude.{
  ℕ, zero, suc, ◌+◌, ◌-◌, ◌*◌, ◌/◌, ◌%◌, ◌^◌, ◌≤◌, ◌<◌, min, max, String, ◌≡◌, refl, sym, ap, ◌∙◌,
  subst, ◌≢◌, ◌↔◌, ◌⊎◌, inl, inr, Bool, true, false, ◌&&◌, ◌||◌, not, Option, none, some, List, [],
  ◌∷◌, ◌++◌, map, arith, ltb, leb, ◌==◌, if◌then◌else◌, ltb→lt, lt→ltb, leb→le, le→leb, ==_iff,
  ==_refl, Bool-cases, Option-cases, &&-eq-true, length, is_empty, take, drop, get_elem?, filter,
  any, find?, All, length-append, length-take, length-drop, length-map, take-append-drop,
  All-append, All-append_left, All-append_right, All-take, All-drop, All-filter, All-of, All-mono,
  All-apply, filter-All, filter-append, filter-eq-nil, All-of_filter, any-eq-false, any_of_All,
  unique, unique-All, unique-map, unique-snoc, unique-filter, unique-append, unique-head,
  unique-tail, any_self, any-map, All-map, KeepsItems, KeepsItems-All, Text, codes, text_eq,
  is_space, lstrip, rstrip, snoc_space, strip, is_blank, text_eq→eq, text_eq_refl, text_eq_iff,
  length-lstrip-le, length-rstrip-le, length-strip-le, strip_idem, rstrip-strip, strip-eq-nil_iff,
  blank-append, blank-rstrip, blank-strip, blank-drop, length-strip_space, length-strip-append,
  strip_head, ℤ, pos, negsuc, pos_part, neg_part, ltb_ℤ, eq_ℤ, Exception, validation_error,
  invariant_violation, state_transition_error, not_found_error, conflict_error,
  authentication_error, content_missing_error, value_error, key_error, integrity_error, data_error,
  multiple_results_found, other_exception, Result, ok, err, Action, and_then, map_result,
  bind_result, ◌>>=◌, ◌>>◌, bind_result-eq-ok, map_result-eq-ok, Result-cases, pure, raise, lift,
  gets, modify,
}
use eka_knowledge_assistant.Documents.Document.{Uuid, Instant}
use eka_knowledge_assistant.Config.{Settings, is_valid}
use eka_knowledge_assistant.Ingestion.Jobs.{Jobs}
use eka_knowledge_assistant.Ingestion.Chunking.{ChunkingConfig, chunking_config}
use eka_knowledge_assistant.Ingestion.Chunks.{Embedding}
use eka_knowledge_assistant.Ingestion.Embedding.{HashingEmbeddingModel, hashing_embedding_model}
use eka_knowledge_assistant.Ingestion.Pipeline.{World, Clock, drain_once}

-- The parts that the settings choose.
pub record Worker : Type 0 where
  pub config : ChunkingConfig
  pub embedder : HashingEmbeddingModel
  pub worker_id : Text
  pub batch_size : ℕ

unfoldable pub build_worker : Settings → Result Worker
build_worker s = bind_result (chunking_config s.chunk_size s.chunk_overlap) λ config.
    map_result
      (λ embedder. record {
        config = config;
        embedder = embedder;
        worker_id = s.worker_id;
        batch_size = pos_part s.worker_batch_size;
      })
      (hashing_embedding_model s.embedding_dimension)

-- What one turn of the loop meets: whether the stop event is set when the loop tests it, what other
-- workers and requests have done to the tables since the turn before, the rows that other
-- transactions hold, and the times and identifiers that the turn takes.
pub record Turn (F : Type 0) : Type 0 where
  pub stopping : Bool
  pub others : World F → World F
  pub locked : Uuid → Bool
  pub now : Instant
  pub clocks : ℕ → Clock

-- IngestionWorker.run, in at most `fuel` tests of the stop event; `none` is a run that goes on. The
-- result counts the turns. The wait after a turn without jobs changes no state.
module _ {F : Type 0} (embed : List Text → Result (List (Embedding F))) (repr : Exception → Text)
    (order : Jobs → Jobs) (config : ChunkingConfig) (worker_id : Text) (batch_size : ℕ) where
  abbrev pub turn : Turn F → Action (World F) ℕ
  turn t w =
      drain_once embed config repr order t.locked t.now t.clocks worker_id batch_size (t.others w)

  abbrev pub one_more : Option ℕ → Option ℕ
  one_more none = none
  one_more (some n) = some (suc n)

  unfoldable pub run : ℕ → (ℕ → Turn F) → Action (World F) (Option ℕ)
  run zero turns w = (ok none, w)
  run (suc fuel) turns w =
      let rest =
        (turn (turns 0) >>= λ processed w'.
        let r = run fuel (λ i. turns (suc i)) w' in (map_result one_more r.0, r.1))
          w in
      if (turns 0).stopping then (ok (some 0), w) else rest
