-- ===== src/Evaluation/Metrics.antt =====
-- src/eka/modules/evaluation/domain/metrics.py: the answer-quality metrics. `lower` is str.lower.
pub mod Bounds
use eka_knowledge_assistant.Prelude.{
  ℕ, zero, suc, ◌+◌, ◌-◌, ◌*◌, ◌/◌, ◌%◌, ◌^◌, ◌≤◌, ◌<◌, min, max, String, ◌≡◌, refl, sym, ap, ◌∙◌,
  subst, ◌≢◌, ◌↔◌, ◌⊎◌, inl, inr, Bool, true, false, ◌&&◌, ◌||◌, not, Option, none, some, List, [],
  ◌∷◌, ◌++◌, map, arith, ltb, leb, ◌==◌, if◌then◌else◌, ltb→lt, lt→ltb, leb→le, le→leb, ==_iff,
  ==_refl, Bool-cases, Option-cases, &&-eq-true, length, is_empty, take, drop, get_elem?, filter,
  any, find?, All, length-append, length-take, length-drop, length-map, take-append-drop,
  All-append, All-append_left, All-append_right, All-take, All-drop, All-filter, All-of, All-mono,
  All-apply, filter-All, filter-append, filter-eq-nil, All-of_filter, any-eq-false, any_of_All,
  unique, unique-All, unique-map, unique-snoc, any_self, any-map, All-map, KeepsItems,
  KeepsItems-All, Text, codes, text_eq, is_space, lstrip, rstrip, strip, is_blank, text_eq→eq,
  text_eq_refl, text_eq_iff, length-lstrip-le, length-rstrip-le, length-strip-le, strip_idem,
  rstrip-strip, strip-eq-nil_iff, ℤ, pos, negsuc, pos_part, neg_part, ltb_ℤ, eq_ℤ, Exception,
  validation_error, invariant_violation, state_transition_error, not_found_error, conflict_error,
  authentication_error, content_missing_error, value_error, key_error, integrity_error, data_error,
  multiple_results_found, other_exception, Result, ok, err, Action, and_then, map_result,
  bind_result, ◌>>=◌, ◌>>◌, bind_result-eq-ok, map_result-eq-ok, Result-cases, pure, raise, lift,
  gets, modify,
}
use eka_knowledge_assistant.Shared.Builtins.{Floats, find_tokens, member, to_set, intersection}
use eka_knowledge_assistant.Ingestion.Chunking.{concat_map}

abbrev pub stopwords : List Text
stopwords =
    codes "a"
    ∷ codes "an"
    ∷ codes "the"
    ∷ codes "is"
    ∷ codes "are"
    ∷ codes "was"
    ∷ codes "were"
    ∷ codes "be"
    ∷ codes "been"
    ∷ codes "being"
    ∷ codes "of"
    ∷ codes "to"
    ∷ codes "in"
    ∷ codes "on"
    ∷ codes "for"
    ∷ codes "and"
    ∷ codes "or"
    ∷ codes "but"
    ∷ codes "with"
    ∷ codes "as"
    ∷ codes "by"
    ∷ codes "at"
    ∷ codes "from"
    ∷ codes "it"
    ∷ codes "its"
    ∷ codes "this"
    ∷ codes "that"
    ∷ codes "these"
    ∷ codes "those"
    ∷ codes "how"
    ∷ codes "what"
    ∷ codes "why"
    ∷ codes "when"
    ∷ codes "where"
    ∷ codes "which"
    ∷ codes "who"
    ∷ codes "do"
    ∷ codes "does"
    ∷ codes "did"
    ∷ codes "can"
    ∷ codes "could"
    ∷ codes "will"
    ∷ codes "would"
    ∷ codes "should"
    ∷ codes "so"
    ∷ codes "if"
    ∷ codes "then"
    ∷ []

module _ {F : Type 0} (floats : Floats F) (lower : Text → Text) where
  unfoldable pub content_tokens : Text → List Text
  content_tokens text = to_set (filter (λ t. not (member t stopwords)) (find_tokens (lower text)))

  -- The union of the tokens of several texts; _keyword_tokens is the same union.
  unfoldable pub union_tokens : List Text → List Text
  union_tokens texts = to_set (concat_map content_tokens texts)

  -- len(a & b) / len(a), or the given value when `a` is empty.
  abbrev pub share : ℕ → List Text → List Text → F
  share default a b =
      if is_empty a
      then floats.of_nat default
      else floats.div (floats.of_nat (length (intersection a b))) (floats.of_nat (length a))

  unfoldable pub context_recall : List Text → List Text → F
  context_recall expected_keywords contexts =
      share 1 (union_tokens expected_keywords) (union_tokens contexts)

  abbrev pub is_relevant : List Text → Text → Bool
  is_relevant question_tokens c = not (is_empty (intersection (content_tokens c) question_tokens))

  unfoldable pub context_precision : Text → List Text → F
  context_precision question contexts =
      if is_empty contexts
      then floats.of_nat 0
      else if is_empty (content_tokens question)
      then floats.of_nat 0
      else floats.div
          (floats.of_nat (length (filter (is_relevant (content_tokens question)) contexts)))
          (floats.of_nat (length contexts))

  unfoldable pub faithfulness : Text → List Text → F
  faithfulness answer contexts = share 1 (content_tokens answer) (union_tokens contexts)

  unfoldable pub answer_relevance : Text → List Text → F
  answer_relevance answer expected_keywords =
      share 1 (union_tokens expected_keywords) (content_tokens answer)
