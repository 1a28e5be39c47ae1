-- ===== src/Evaluation/Gate/Verdict.antt =====
-- When the gate passes.
use eka_knowledge_assistant.Prelude.{
  ◌≡◌, refl, sym, ap, ◌∙◌, ◌↔◌, inl, inr, true, false, ◌&&◌, Option, none, some, List, [], ◌∷◌,
  ◌++◌, arith, Bool-cases, &&-eq-true, is_empty, All, Text, codes, subst, map, length, length-map,
  text_eq, text_eq→eq, if◌then◌else◌,
}
use mathlib.Core.Bool.{false≢true}
use eka_knowledge_assistant.Shared.Builtins.{Floats}
use eka_knowledge_assistant.Evaluation.Gate.{
  CaseResult, Threshold, total, mean, aggregates, lookup, failure_of, gate_failures, evaluate_gate,
}

is_empty-append : {A : Type 0} (xs ys : List A) → is_empty (xs ++ ys) ≡ (is_empty xs && is_empty ys)
is_empty-append [] ys = refl
is_empty-append (x ∷ xs) ys = refl

some_injective : {A : Type 0} {x y : A} → some x ≡ some y → x ≡ y
some_injective h = cc

-- The four metrics and their values in a case.
pub data Metric {F : Type 0} : Text → (CaseResult F → F) → Type 0 where
  recall : Metric (codes "context_recall") (λ r. r.context_recall)
  precision : Metric (codes "context_precision") (λ r. r.context_precision)
  faithful : Metric (codes "faithfulness") (λ r. r.faithfulness)
  relevance : Metric (codes "answer_relevance") (λ r. r.answer_relevance)

module _ {F : Type 0} (floats : Floats F) where
  -- The sum of the values after a first one, from the left.
  abbrev pub sum_from : F → List F → F
  sum_from x [] = x
  sum_from x (y ∷ ys) = sum_from (floats.add x y) ys

  -- The sum divided by the number of the values; 0 without values.
  abbrev pub average : List F → F
  average [] = floats.of_nat 0
  average (x ∷ xs) =
      floats.div (sum_from (floats.of_nat 0) (x ∷ xs)) (floats.of_nat (length (x ∷ xs)))

  total-sum :
      (attr : CaseResult F → F) (x : F) (results : List (CaseResult F))
      → total floats attr x results ≡ sum_from x (map attr results)
  unfolding total
  total-sum attr x [] = refl
  total-sum attr x (r ∷ rs) = total-sum attr (floats.add x (attr r)) rs

  mean-average :
      (attr : CaseResult F → F) (results : List (CaseResult F))
      → mean floats attr results ≡ average (map attr results)
  unfolding mean
  mean-average attr [] = refl
  mean-average attr (r ∷ rs) =
      ap (λ s. floats.div s (floats.of_nat (length (r ∷ rs))))
        (total-sum attr (floats.of_nat 0) (r ∷ rs))
      ∙ ap (λ n. floats.div (sum_from (floats.of_nat 0) (map attr (r ∷ rs))) (floats.of_nat n))
          (sym (length-map attr (r ∷ rs)))

module _ {F : Type 0} (floats : Floats F) (results : List (CaseResult F)) where
  -- The metric is one of the four and the average of its values is not below the minimum.
  abbrev pub IsMet : Threshold F → Type 0
  IsMet t =
      (attr : CaseResult F → F) × Metric t.metric attr
      × (floats.lt (average floats (map attr results)) t.minimum ≡ false)

  -- A value under a metric's name is the average of the metric.
  abbrev HasValue : Text → F → Type 0
  HasValue name v =
      (attr : CaseResult F → F) × Metric name attr × (v ≡ average floats (map attr results))

  named :
      (name key : Text) (attr : CaseResult F → F) (v : F) (rest : Option F)
      → Metric name attr
      → (rest ≡ some v → HasValue key v)
      → (if text_eq name key then some (mean floats attr results) else rest) ≡ some v
      → HasValue key v
  named name key attr v rest m k h = elim (Bool-cases (text_eq name key)) [
    | inl e ↦ (
      attr,
      subst (λ x. Metric x attr) (text_eq→eq name key e) m,
      some_injective (sym (rw e at h)) ∙ mean-average floats attr results,
    )
    | inr e ↦ k (rw e at h)
  ]

  lookup-HasValue :
      (key : Text) (v : F) → lookup floats key (aggregates floats results) ≡ some v → HasValue key v
  unfolding aggregates
  lookup-HasValue key v h =
      named (codes "context_recall") key (λ r. r.context_recall) v _ recall
        (named (codes "context_precision") key (λ r. r.context_precision) v _ precision
          (named (codes "faithfulness") key (λ r. r.faithfulness) v _ faithful
            (named (codes "answer_relevance") key (λ r. r.answer_relevance) v none relevance
              (λ e. absurd (ground arith)))))
        h

  lookup-Metric :
      (key : Text) (attr : CaseResult F → F)
      → Metric key attr
      → lookup floats key (aggregates floats results) ≡ some (average floats (map attr results))
  unfolding aggregates
  lookup-Metric _ _ recall = ap some (mean-average floats (λ r. r.context_recall) results)
  lookup-Metric _ _ precision = ap some (mean-average floats (λ r. r.context_precision) results)
  lookup-Metric _ _ faithful = ap some (mean-average floats (λ r. r.faithfulness) results)
  lookup-Metric _ _ relevance = ap some (mean-average floats (λ r. r.answer_relevance) results)

  found_iff :
      (t : Threshold F) (found : Option F)
      → (is_empty (failure_of floats t found) ≡ true)
        ↔ ((value : F) × (found ≡ some value) × (floats.lt value t.minimum ≡ false))
  found_iff t none = (λ h. absurd (ground arith), λ h. absurd (ground (arith, h.1)))
  found_iff t (some v) = elim (Bool-cases (floats.lt v t.minimum)) [
    | inl e ↦ (
      λ h. absurd (ground (arith, rw e at h)),
      λ h.
          absurd
            (false≢true (sym h.2 ∙ ap (λ x. floats.lt x t.minimum) (sym (some_injective h.1)) ∙ e)),
    )
    | inr e ↦ (λ h. (v, refl, e), λ h. rw e refl)
  ]

  failure_of-IsMet :
      (t : Threshold F)
      → (is_empty (failure_of floats t (lookup floats t.metric (aggregates floats results))) ≡ true)
        ↔ IsMet t
  failure_of-IsMet t =
      let (to, from) = found_iff t (lookup floats t.metric (aggregates floats results)) in
      (
        λ h.
            let (v, found, above) = to h in
            let (attr, metric, same) = lookup-HasValue t.metric v found in
            (attr, metric, subst (λ x. floats.lt x t.minimum ≡ false) same above),
        λ h. from (_, lookup-Metric t.metric h.0 h.1, h.2),
      )

  gate_failures-IsMet :
      (ts : List (Threshold F))
      → (is_empty (gate_failures floats (aggregates floats results) ts) ≡ true) ↔ All IsMet ts
  unfolding gate_failures
  gate_failures-IsMet [] = (λ _. tt, λ _. refl)
  gate_failures-IsMet (t ∷ ts) = (
    λ h.
        let (a, b) = &&-eq-true _ _ (sym (is_empty-append (failure_of floats t _) _) ∙ h) in
        ((failure_of-IsMet t).0 a, (gate_failures-IsMet ts).0 b),
    λ h.
        is_empty-append (failure_of floats t _) _
        ∙ rw ((failure_of-IsMet t).1 h.0) ((gate_failures-IsMet ts).1 h.1),
  )

  pub evaluate_gate_iff :
      (thresholds : List (Threshold F))
      → ((evaluate_gate floats results thresholds).0 ≡ true) ↔ All IsMet thresholds
  unfolding evaluate_gate
  evaluate_gate_iff thresholds = gate_failures-IsMet thresholds
