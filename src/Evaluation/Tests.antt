-- ===== src/Evaluation/Tests.antt =====
-- The theorems of the evaluation context at one case.
use eka_knowledge_assistant.Prelude.{
  ℕ, ◌+◌, ◌-◌, ◌*◌, ◌/◌, ◌≤◌, min, [], ◌∷◌, arith, ltb, ◌==◌, codes,
}
use eka_knowledge_assistant.Shared.Builtins.{Floats}
use eka_knowledge_assistant.Evaluation.Metrics.{
  context_recall, context_precision, faithfulness, answer_relevance,
}
use eka_knowledge_assistant.Evaluation.Metrics.Bounds.{HoldsOfShares, metrics_bounded}
use eka_knowledge_assistant.Evaluation.Gate.{CaseResult, Threshold}

abbrev Floating : Type 0
Floating = ℕ

-- Whole numbers in place of the floats.
abbrev floats : Floats Floating
floats = record {
  of_nat = λ n. n;
  add = λ a b. a + b;
  sub = λ a b. a - b;
  mul = λ a b. a * b;
  div = λ a b. min a b;
  sqrt = λ a. a;
  lt = ltb;
  is_zero = λ a. a == 0;
}

-- Quotients of the test's numbers, cut to 1.
abbrev cut : Floats Floating
cut = record floats { div = λ a b. min 1 (a / b) }

cut-HoldsOfShares : HoldsOfShares cut (λ x. x ≤ 1)
cut-HoldsOfShares = record {
  at_zero = omega arith;
  at_one = omega arith;
  at_share = λ n d h k. omega arith;
}

metrics_bounded_example :
    (context_recall cut (λ t. t) (codes "keys" ∷ []) (codes "keys rotate" ∷ []) ≤ 1)
    × (context_precision cut (λ t. t) (codes "how do keys rotate") (codes "keys rotate" ∷ []) ≤ 1)
    × (faithfulness cut (λ t. t) (codes "they rotate") (codes "keys rotate" ∷ []) ≤ 1)
    × (answer_relevance cut (λ t. t) (codes "they rotate") (codes "keys" ∷ []) ≤ 1)
metrics_bounded_example =
    metrics_bounded cut (λ t. t) (λ x. x ≤ 1) cut-HoldsOfShares (codes "how do keys rotate")
      (codes "they rotate") (codes "keys" ∷ []) (codes "keys rotate" ∷ [])

abbrev result : CaseResult Floating
result = record {
  case_id = codes "one";
  context_recall = 3;
  context_precision = 2;
  faithfulness = 1;
  answer_relevance = 0;
}

abbrev threshold : Threshold Floating
threshold = record { metric = codes "faithfulness"; minimum = 1 }
