-- ===== src/Retrieval/Reranker.antt =====
-- src/eka/modules/retrieval/infrastructure/reranker.py: the lexical reranker. `lower` is str.lower.
pub mod Kept
use eka_knowledge_assistant.Prelude.{
  ℕ, zero, suc, ◌+◌, ◌-◌, ◌*◌, ◌/◌, ◌%◌, ◌^◌, ◌≤◌, ◌<◌, min, max, String, ◌≡◌, refl, sym, ap, ◌∙◌,
  subst, ◌≢◌, ◌↔◌, ◌⊎◌, inl, inr, Bool, true, false, ◌&&◌, ◌||◌, not, Option, none, some, List, [],
  ◌∷◌, ◌++◌, map, arith, ltb, leb, ◌==◌, if◌then◌else◌, ltb→lt, lt→ltb, leb→le, le→leb, ==_iff,
  ==_refl, Bool-cases, Option-cases, &&-eq-true, length, is_empty, take, drop, get_elem?, filter,
  any, find?, All, length-append, length-take, length-drop, length-map, take-append-drop,
  All-append, All-append_left, All-append_right, All-take, All-drop, All-filter, All-of, All-mono,
  All-apply, filter-All, filter-append, filter-eq-nil, All-of_filter, any-eq-false, any_of_All,
  unique, unique-All, unique-map, unique-snoc, any_self, any-map, All-map, KeepsItems,
  KeepsItems-All, Text, codes, text_eq, is_space, lstrip, rstrip, strip, is_blank, text_eq→eq,
  text_eq_refl, text_eq_iff, length-lstrip-le, length-rstrip-le, length-strip-le, strip_idem,
  rstrip-strip, strip-eq-nil_iff, ℤ, pos, negsuc, pos_part, neg_part, ltb_ℤ, eq_ℤ, Exception,
  validation_error, invariant_violation, state_transition_error, not_found_error, conflict_error,
  authentication_error, content_missing_error, value_error, key_error, integrity_error, data_error,
  multiple_results_found, other_exception, Result, ok, err, Action, and_then, map_result,
  bind_result, ◌>>=◌, ◌>>◌, bind_result-eq-ok, map_result-eq-ok, Result-cases, pure, raise, lift,
  gets, modify,
}
use eka_knowledge_assistant.Shared.Builtins.{
  Floats, sorted_desc, find_tokens, to_set, intersection, split_words, join,
}
use eka_knowledge_assistant.Ingestion.Chunking.{is_prefix}
use eka_knowledge_assistant.Retrieval.Search.{ScoredChunk}

-- `needle in text`
unfoldable pub contains : Text → Text → Bool
unfolding is_prefix
contains needle [] = is_prefix needle []
contains needle (c ∷ s) = is_prefix needle (c ∷ s) || contains needle s

module _ {F : Type 0} (floats : Floats F) (lower : Text → Text) where
  abbrev pub tokens : Text → List Text
  tokens text = to_set (find_tokens (lower text))

  -- 0.3, 0.6 and 0.1
  abbrev pub tenths : ℕ → F
  tenths n = floats.div (floats.of_nat n) (floats.of_nat 10)

  -- min(scores) and max(scores) of the scores after the first.
  unfoldable pub lowest : F → List (ScoredChunk F) → F
  lowest low [] = low
  lowest low (c ∷ cs) = lowest (if floats.lt c.score low then c.score else low) cs

  unfoldable pub highest : F → List (ScoredChunk F) → F
  highest high [] = high
  highest high (c ∷ cs) = highest (if floats.lt high c.score then c.score else high) cs

  unfoldable pub coverage : List Text → List Text → F
  coverage query_tokens chunk_tokens =
      if is_empty query_tokens
      then floats.of_nat 0
      else floats.div (floats.of_nat (length (intersection query_tokens chunk_tokens)))
          (floats.of_nat (length query_tokens))

  unfoldable pub final_score : Text → F → F → ScoredChunk F → F
  final_score query_text low span c =
      let base =
        if floats.is_zero span then floats.of_nat 0 else floats.div (floats.sub c.score low) span in
      let normalized_query = join (codes " ") (split_words (lower query_text)) in
      let phrase =
        if contains normalized_query (lower c.text) then floats.of_nat 1 else floats.of_nat 0 in
      floats.add
        (floats.add (floats.mul (tenths 3) base)
          (floats.mul (tenths 6) (coverage (tokens query_text) (tokens c.text))))
        (floats.mul (tenths 1) phrase)

  abbrev pub rescored : Text → F → F → ScoredChunk F → ScoredChunk F
  rescored query_text low span c = record c { score = final_score query_text low span c }

  -- LexicalReranker.rerank
  unfoldable pub rerank : Text → List (ScoredChunk F) → ℕ → List (ScoredChunk F)
  rerank query_text [] top_k = []
  rerank query_text (c ∷ cs) top_k =
      let low = lowest c.score cs in
      let span = floats.sub (highest c.score cs) low in
      take top_k (
        sorted_desc (λ a b. floats.lt a.score b.score)
          (map (rescored query_text low span) (c ∷ cs)))
