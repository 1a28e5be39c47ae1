-- ===== src/Generation/LocalModel.antt =====
-- src/eka/modules/generation/infrastructure/local_llm.py: the local language model.
use eka_knowledge_assistant.Prelude.{
  ℕ, ◌≡◌, refl, sym, ap, ◌∙◌, ◌≢◌, ◌⊎◌, inl, inr, Bool, true, false, ◌||◌, not, List, [], ◌∷◌, ◌++◌,
  map, arith, ltb, ◌==◌, if◌then◌else◌, ==_iff, Bool-cases, length, is_empty, take, filter, Text,
  codes, strip,
}
use eka_knowledge_assistant.Shared.Builtins.{find_tokens, to_set, intersection, join}
use eka_knowledge_assistant.Ingestion.Chunking.{split_from, is_prefix, cons_head}
use eka_knowledge_assistant.Generation.Answers.{PromptPassage, GroundedPrompt}

abbrev is_end : ℕ → Bool
is_end c = c == 46 || c == 33 || c == 63

-- _SENTENCE_RE.findall from the characters of a sentence on.
unfoldable pub scan_sentences : Text → Text → List Text
scan_sentences [] [] = []
scan_sentences [] (d ∷ run) = (d ∷ run) ∷ []
scan_sentences (c ∷ s) run = elim (is_end c) [
  | true ↦ elim (is_empty run) [
    | true ↦ scan_sentences s []
    | false ↦ (run ++ c ∷ []) ∷ scan_sentences s []
  ]
  | false ↦ scan_sentences s (run ++ c ∷ [])
]

module _ (lower : Text → Text) (str_int : ℕ → Text) where
  abbrev pub overlap : List Text → Text → ℕ
  overlap query_tokens s = length (intersection (to_set (find_tokens (lower s))) query_tokens)

  -- max(sentences, key=…), which takes the first of the largest.
  unfoldable pub best_of : List Text → Text → List Text → Text
  best_of query_tokens best [] = best
  best_of query_tokens best (s ∷ ss) =
      best_of query_tokens
        (if ltb (overlap query_tokens best) (overlap query_tokens s) then s else best) ss

  unfoldable pub best_sentence : Text → List Text → Text
  best_sentence text query_tokens =
      let stripped = filter (λ s. not (is_empty s)) (map strip (scan_sentences text [])) in
      best text query_tokens stripped
    where
      best : Text → List Text → List Text → Text
      best text query_tokens [] = strip text
      best text query_tokens (s ∷ ss) = best_of query_tokens s ss

  unfoldable pub compose : GroundedPrompt → Text
  compose prompt =
      if is_empty prompt.passages
      then codes "I could not find relevant information in the retrieved context to answer that."
      else let query_tokens = to_set (find_tokens (lower prompt.question)) in
        codes "Based on the retrieved context: "
        ++ join (codes " ") (
            map
              (λ (p : PromptPassage).
                best_sentence p.text query_tokens ++ codes " [" ++ str_int p.marker ++ codes "]")
              (take 3 prompt.passages))

-- `word if index == len(words) - 1 else word + " "`
unfoldable pub spaced : List Text → List Text
spaced [] = []
spaced (w ∷ []) = w ∷ []
spaced (w ∷ v ∷ ws) = (w ++ 32 ∷ []) ∷ spaced (v ∷ ws)

-- LocalTemplateLanguageModel.stream
unfoldable pub stream : (Text → Text) → (ℕ → Text) → GroundedPrompt → List Text
stream lower str_int prompt = spaced (split_from (32 ∷ []) 0 (compose lower str_int prompt))

abbrev pub concat : List Text → Text
concat [] = []
concat (w ∷ ws) = w ++ concat ws

concat-cons_head :
    (c : ℕ) (ws : List Text) → concat (spaced (cons_head c ws)) ≡ c ∷ concat (spaced ws)
unfolding spaced
concat-cons_head c [] = refl
concat-cons_head c (w ∷ []) = refl
concat-cons_head c (w ∷ v ∷ ws) = refl

concat-nil_head : (ws : List Text) → ws ≢ [] → concat (spaced ([] ∷ ws)) ≡ 32 ∷ concat (spaced ws)
unfolding spaced
concat-nil_head [] h = absurd (h refl)
concat-nil_head (w ∷ ws) h = refl

split_from-cons :
    (c : ℕ) (s : Text)
    → ((32 ≡ c) × (split_from (32 ∷ []) 0 (c ∷ s) ≡ [] ∷ split_from (32 ∷ []) 0 s))
      ⊎ (split_from (32 ∷ []) 0 (c ∷ s) ≡ cons_head c (split_from (32 ∷ []) 0 s))
unfolding split_from is_prefix
split_from-cons c s = elim (Bool-cases (32 == c)) [
  | inl e ↦ inl ((==_iff 32 c).0 e, rw (e, split_from) refl)
  | inr e ↦ inr (rw (e, split_from) refl)
]

cons_head-nonempty : (c : ℕ) (ws : List Text) → cons_head c ws ≢ []
cons_head-nonempty c [] h = ground arith
cons_head-nonempty c (w ∷ ws) h = ground arith

split_from-nonempty : (s : Text) → split_from (32 ∷ []) 0 s ≢ []
split_from-nonempty [] h = unfold split_from in ground arith
split_from-nonempty (c ∷ s) h = elim (split_from-cons c s) [
  | inl (_, e) ↦ absurd (ground (arith, sym e ∙ h))
  | inr e ↦ cons_head-nonempty c (split_from (32 ∷ []) 0 s) (sym e ∙ h)
]

concat-spaced : (s : Text) → concat (spaced (split_from (32 ∷ []) 0 s)) ≡ s
concat-spaced [] = unfold spaced in unfold split_from in refl
concat-spaced (c ∷ s) = elim (split_from-cons c s) [
  | inl (same, e) ↦
      rw e (concat-nil_head (split_from (32 ∷ []) 0 s) (split_from-nonempty s))
      ∙ (λ i. same i ∷ concat-spaced s i)
  | inr e ↦ rw e (concat-cons_head c (split_from (32 ∷ []) 0 s)) ∙ ap (λ r. c ∷ r) (concat-spaced s)
]

-- The tokens that the local model streams, put together, are the answer that it composed.
pub concat-stream :
    (lower : Text → Text) (str_int : ℕ → Text) (prompt : GroundedPrompt)
    → concat (stream lower str_int prompt) ≡ compose lower str_int prompt
unfolding stream
concat-stream lower str_int prompt = concat-spaced (compose lower str_int prompt)
