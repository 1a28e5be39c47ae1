-- ===== src/Evaluation/Gate.antt =====
-- src/eka/modules/evaluation: the dataset and the report (domain/dataset.py), the gate
-- (application/gate.py) and the harness (application/harness.py). The messages of the gate carry the
-- metric and leave out the formatted numbers.
pub mod Verdict
use eka_knowledge_assistant.Prelude.{
  ℕ, zero, suc, ◌+◌, ◌-◌, ◌*◌, ◌/◌, ◌%◌, ◌^◌, ◌≤◌, ◌<◌, min, max, String, ◌≡◌, refl, sym, ap, ◌∙◌,
  subst, ◌≢◌, ◌↔◌, ◌⊎◌, inl, inr, Bool, true, false, ◌&&◌, ◌||◌, not, Option, none, some, List, [],
  ◌∷◌, ◌++◌, map, arith, ltb, leb, ◌==◌, if◌then◌else◌, ltb→lt, lt→ltb, leb→le, le→leb, ==_iff,
  ==_refl, Bool-cases, Option-cases, &&-eq-true, length, is_empty, take, drop, get_elem?, filter,
  any, find?, All, length-append, length-take, length-drop, length-map, take-append-drop,
  All-append, All-append_left, All-append_right, All-take, All-drop, All-filter, All-of, All-mono,
  All-apply, filter-All, filter-append, filter-eq-nil, All-of_filter, any-eq-false, any_of_All,
  unique, unique-All, unique-map, unique-snoc, any_self, any-map, All-map, KeepsItems,
  KeepsItems-All, Text, codes, text_eq, is_space, lstrip, rstrip, strip, is_blank, text_eq→eq,
  text_eq_refl, text_eq_iff, length-lstrip-le, length-rstrip-le, length-strip-le, strip_idem,
  rstrip-strip, strip-eq-nil_iff, ℤ, pos, negsuc, pos_part, neg_part, ltb_ℤ, eq_ℤ, Exception,
  validation_error, invariant_violation, state_transition_error, not_found_error, conflict_error,
  authentication_error, content_missing_error, value_error, key_error, integrity_error, data_error,
  multiple_results_found, other_exception, Result, ok, err, Action, and_then, map_result,
  bind_result, ◌>>=◌, ◌>>◌, bind_result-eq-ok, map_result-eq-ok, Result-cases, pure, raise, lift,
  gets, modify,
}
use eka_knowledge_assistant.Shared.Builtins.{Floats}
use eka_knowledge_assistant.Documents.Document.{Uuid}
use eka_knowledge_assistant.Retrieval.Search.{SearchQuery, search_query, ScoredChunk}
use eka_knowledge_assistant.Generation.Answers.{GroundedPrompt, build_grounded_prompt, sanitize}
use eka_knowledge_assistant.Generation.LocalModel.{concat}
use eka_knowledge_assistant.Evaluation.Metrics.{
  context_recall, context_precision, faithfulness, answer_relevance,
}

pub record CorpusDoc : Type 0 where
  pub id : Text
  pub text : Text

pub record EvalCase : Type 0 where
  pub id : Text
  pub question : Text
  pub expected_keywords : List Text

pub record EvalDataset : Type 0 where
  pub corpus : List CorpusDoc
  pub cases : List EvalCase

pub record CaseResult (F : Type 0) : Type 0 where
  pub case_id : Text
  pub context_recall : F
  pub context_precision : F
  pub faithfulness : F
  pub answer_relevance : F

pub record Threshold (F : Type 0) : Type 0 where
  pub metric : Text
  pub minimum : F

pub data Failure : Type 0 where
  unknown_metric below_minimum : Text → Failure

module _ {F : Type 0} (floats : Floats F) where
  unfoldable pub total : (CaseResult F → F) → F → List (CaseResult F) → F
  total attr sum [] = sum
  total attr sum (r ∷ rs) = total attr (floats.add sum (attr r)) rs

  unfoldable pub mean : (CaseResult F → F) → List (CaseResult F) → F
  mean attr results =
      if is_empty results
      then floats.of_nat 0
      else floats.div (total attr (floats.of_nat 0) results) (floats.of_nat (length results))

  unfoldable pub aggregates : List (CaseResult F) → List (Text × F)
  aggregates results =
      (codes "context_recall", mean (λ r. r.context_recall) results)
      ∷ (codes "context_precision", mean (λ r. r.context_precision) results)
      ∷ (codes "faithfulness", mean (λ r. r.faithfulness) results)
      ∷ (codes "answer_relevance", mean (λ r. r.answer_relevance) results)
      ∷ []

  -- aggregates.get(metric)
  abbrev pub lookup : Text → List (Text × F) → Option F
  lookup key [] = none
  lookup key ((k, v) ∷ kvs) = let rest = lookup key kvs in if text_eq k key then some v else rest

  abbrev pub failure_of : Threshold F → Option F → List Failure
  failure_of threshold none = unknown_metric threshold.metric ∷ []
  failure_of threshold (some value) =
      if floats.lt value threshold.minimum then below_minimum threshold.metric ∷ [] else []

  unfoldable pub gate_failures : List (Text × F) → List (Threshold F) → List Failure
  gate_failures values [] = []
  gate_failures values (t ∷ ts) = failure_of t (lookup t.metric values) ++ gate_failures values ts

  unfoldable pub evaluate_gate : List (CaseResult F) → List (Threshold F) → Bool × List Failure
  evaluate_gate results thresholds =
      let failures = gate_failures (aggregates results) thresholds in (is_empty failures, failures)

  module _ (lower : Text → Text) (searcher : Uuid → SearchQuery → Result (List (ScoredChunk F)))
      (patterns : List (Text → Text × ℕ)) (language_model : GroundedPrompt → List Text)
      (system : Text) where
    unfoldable pub score_case : EvalCase → List (ScoredChunk F) → CaseResult F
    score_case case chunks =
        let sanitized = (sanitize patterns chunks).0 in
        let contexts = map (λ c. c.text) sanitized in
        let answer =
          concat (language_model (build_grounded_prompt case.question sanitized system)) in
        record {
          case_id = case.id;
          context_recall = context_recall floats lower case.expected_keywords contexts;
          context_precision = context_precision floats lower case.question contexts;
          faithfulness = faithfulness floats lower answer contexts;
          answer_relevance = answer_relevance floats lower answer case.expected_keywords;
        }

    -- EvaluationHarness.run over the cases from one on.
    unfoldable pub run_cases : Uuid → ℤ → List EvalCase → Result (List (CaseResult F))
    run_cases tenant_id top_k [] = ok []
    run_cases tenant_id top_k (case ∷ cases) =
        bind_result (search_query case.question top_k none) λ query.
          bind_result (searcher tenant_id query) λ chunks.
            bind_result (run_cases tenant_id top_k cases)
              λ results. ok (score_case case chunks ∷ results)

    unfoldable pub run : EvalDataset → Uuid → ℤ → Result (List (CaseResult F))
    run dataset tenant_id top_k = run_cases tenant_id top_k dataset.cases
