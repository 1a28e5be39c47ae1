-- ===== src/Evaluation/RunEval.antt =====
-- src/scripts/run_eval.py: the evaluation with its thresholds, and the exit status of the program.
-- What it prints is left out.
use eka_knowledge_assistant.Prelude.{
  ℕ, ◌≡◌, refl, sym, ◌∙◌, ◌↔◌, inl, inr, List, [], ◌∷◌, arith, if◌then◌else◌, Bool-cases, All, Text,
  codes, ℤ, pos, Result, map_result,
}
use mathlib.Core.Bool.{false≢true}
use eka_knowledge_assistant.Shared.Builtins.{Floats}
use eka_knowledge_assistant.Documents.Document.{Uuid}
use eka_knowledge_assistant.Retrieval.Search.{SearchQuery, ScoredChunk}
use eka_knowledge_assistant.Generation.Answers.{GroundedPrompt}
use eka_knowledge_assistant.Evaluation.Gate.{EvalDataset, CaseResult, Threshold, evaluate_gate, run}
use eka_knowledge_assistant.Evaluation.Gate.Verdict.{IsMet, evaluate_gate_iff}

abbrev pub top_k : ℤ
top_k = pos 3

module _ {F : Type 0} (floats : Floats F) where
  abbrev percent : ℕ → F
  percent n = floats.div (floats.of_nat n) (floats.of_nat 100)

  -- _THRESHOLDS
  unfoldable pub thresholds : List (Threshold F)
  thresholds =
      record { metric = codes "context_recall"; minimum = percent 75 }
      ∷ record { metric = codes "context_precision"; minimum = percent 30 }
      ∷ record { metric = codes "faithfulness"; minimum = percent 75 }
      ∷ record { metric = codes "answer_relevance"; minimum = percent 55 }
      ∷ []

  -- The status after the report: 0 for a pass.
  unfoldable pub exit_status : List (CaseResult F) → ℕ
  exit_status results = if (evaluate_gate floats results thresholds).0 then 0 else 1

  unfoldable pub main :
      (Text → Text)
      → (Uuid → SearchQuery → Result (List (ScoredChunk F)))
      → List (Text → Text × ℕ)
      → (GroundedPrompt → List Text)
      → Text
      → EvalDataset
      → Uuid
      → Result ℕ
  main lower searcher patterns language_model system dataset tenant_id =
      map_result exit_status
        (run floats lower searcher patterns language_model system dataset tenant_id top_k)

  -- An evaluation that ends in a report exits with 0 exactly when the mean of each of the four metrics
  -- is not below its minimum.
  pub exit_status_iff :
      (results : List (CaseResult F))
      → (exit_status results ≡ 0) ↔ All (IsMet floats results) thresholds
  unfolding exit_status
  exit_status_iff results =
      let verdict = evaluate_gate_iff floats results thresholds in
      elim (Bool-cases (evaluate_gate floats results thresholds).0) [
        | inl e ↦ (λ _. verdict.0 e, λ _. rw e refl)
        | inr e ↦ (
          λ h. absurd (ground (arith, rw e at h)),
          λ h. absurd (false≢true (sym e ∙ verdict.1 h)),
        )
      ]
