-- ===== src/Evaluation/Metrics/Bounds.antt =====
-- Every metric is a share of a whole.
use eka_knowledge_assistant.Prelude.{
  ℕ, ◌≤◌, ◌<◌, ◌≡◌, inl, inr, Bool, false, List, [], ◌∷◌, arith, Bool-cases, length, is_empty,
  filter, Text,
}
use eka_knowledge_assistant.Shared.Builtins.{Floats, intersection}
use eka_knowledge_assistant.Evaluation.Metrics.{
  content_tokens, share, context_recall, context_precision, faithfulness, answer_relevance,
}

length-filter {ℓ} : {A : Type ℓ} (p : A → Bool) (xs : List A) → length (filter p xs) ≤ length xs
length-filter p [] = omega arith
length-filter p (x ∷ xs) = elim (Bool-cases (p x)) [
  | inl e ↦ rw e (omega (arith, length-filter p xs))
  | inr e ↦ rw e (omega (arith, length-filter p xs))
]

nonempty {ℓ} : {A : Type ℓ} (xs : List A) → is_empty xs ≡ false → 0 < length xs
nonempty [] h = absurd (ground arith)
nonempty (x ∷ xs) h = omega arith

-- What holds of 0, of 1 and of every quotient of a count by a count that is positive and no smaller.
pub record HoldsOfShares {F : Type 0} (floats : Floats F) (P : F → Type 0) : Type 0 where
  pub at_zero : P (floats.of_nat 0)
  pub at_one : P (floats.of_nat 1)
  pub at_share : (n d : ℕ) → n ≤ d → 0 < d → P (floats.div (floats.of_nat n) (floats.of_nat d))

module _ {F : Type 0} (floats : Floats F) (lower : Text → Text) (P : F → Type 0)
    (holds : HoldsOfShares floats P) where
  share-holds : (a b : List Text) → P (share floats lower 1 a b)
  unfolding intersection
  share-holds a b = elim (Bool-cases (is_empty a)) [
    | inl e ↦ rw e holds.at_one
    | inr e ↦ rw e (holds.at_share _ _ (length-filter _ a) (nonempty a e))
  ]

  precision-holds :
      (question : Text) (contexts : List Text)
      → P (context_precision floats lower question contexts)
  unfolding context_precision
  precision-holds question contexts = elim (Bool-cases (is_empty contexts)) [
    | inl e ↦ rw e holds.at_zero
    | inr e ↦ elim (Bool-cases (is_empty (content_tokens floats lower question))) [
      | inl h ↦ rw e (rw h holds.at_zero)
      | inr h ↦ rw e (rw h (holds.at_share _ _ (length-filter _ contexts) (nonempty contexts e)))
    ]
  ]

  -- Whatever holds of 0, of 1 and of every share n / d with n ≤ d and 0 < d, such as lying between 0
  -- and 1, holds of all four metrics, for every answer, question, keywords and contexts.
  pub metrics_bounded :
      (question answer : Text) (keywords contexts : List Text)
      → P (context_recall floats lower keywords contexts)
        × P (context_precision floats lower question contexts)
        × P (faithfulness floats lower answer contexts)
        × P (answer_relevance floats lower answer keywords)
  unfolding context_recall faithfulness answer_relevance
  metrics_bounded question answer keywords contexts =
      (share-holds _ _, precision-holds question contexts, share-holds _ _, share-holds _ _)
