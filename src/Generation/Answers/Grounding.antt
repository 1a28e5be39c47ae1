-- ===== src/Generation/Answers/Grounding.antt =====
-- What a stream cites, and what the model sees of the passages.
use eka_knowledge_assistant.Prelude.{
  ℕ, ◌+◌, ◌≡◌, refl, ap, ◌∙◌, ◌⊎◌, inl, inr, Bool, List, [], ◌∷◌, ◌++◌, map, Bool-cases, any, Text,
  Exception, Result, ok, err, Result-cases,
}
use eka_knowledge_assistant.Documents.Document.{Uuid}
use eka_knowledge_assistant.Retrieval.Search.{SearchQuery, ScoredChunk}
use eka_knowledge_assistant.Generation.Answers.{
  Citation, GroundedPrompt, citations, scan, sources, token, done, passages_from,
  build_grounded_prompt, sanitize, stream,
}

abbrev pub number_from : {A : Type 0} → ℕ → List A → List (ℕ × A)
number_from i [] = []
number_from i (x ∷ xs) = (i, x) ∷ number_from (i + 1) xs

map-map :
    {A B C : Type 0} (g : B → C) (f : A → B) (xs : List A)
    → map g (map f xs) ≡ map (λ x. g (f x)) xs
map-map g f [] = refl
map-map g f (x ∷ xs) = ap (λ ys. g (f x) ∷ ys) (map-map g f xs)

module _ {F : Type 0} (patterns : List (Text → Text × ℕ)) where
  abbrev prompt_of : Text → Text → List (ScoredChunk F) → GroundedPrompt
  prompt_of question system chunks =
      build_grounded_prompt question (sanitize patterns chunks).0 system

  cited_from :
      (i : ℕ) (chunks : List (ScoredChunk F))
      → map
          (λ p. (p.marker, (p.chunk_id, p.document_id)))
          (passages_from i (sanitize patterns chunks).0)
        ≡ number_from {A = Uuid × Uuid} i (map (λ c. (c.chunk_id, c.document_id)) chunks)
  unfolding passages_from sanitize
  cited_from i [] = refl
  cited_from i (c ∷ chunks) =
      ap (λ xs. (i, (c.chunk_id, c.document_id)) ∷ xs) (cited_from (i + 1) chunks)

  texts_from :
      (i : ℕ) (chunks : List (ScoredChunk F))
      → map (λ p. p.text) (passages_from i (sanitize patterns chunks).0)
        ≡ map (λ c. (scan patterns c.text).0) chunks
  unfolding passages_from sanitize
  texts_from i [] = refl
  texts_from i (c ∷ chunks) = ap (λ xs. (scan patterns c.text).0 ∷ xs) (texts_from (i + 1) chunks)

  flagged-any :
      (chunks : List (ScoredChunk F))
      → (sanitize patterns chunks).1 ≡ any (λ c. (scan patterns c.text).1) chunks
  unfolding sanitize
  flagged-any [] = refl
  flagged-any (c ∷ chunks) = elim (Bool-cases (scan patterns c.text).1) [
    | inl e ↦ rw e refl
    | inr e ↦ rw e (flagged-any chunks)
  ]

  -- The two ways a stream goes: the search raises; or the search finds chunks, and the events, the
  -- flag, the citations and the model's prompt are those of the cleaned chunks.
  abbrev pub IsGrounded :
      (Uuid → SearchQuery → Result (List (ScoredChunk F)))
      → (GroundedPrompt → List Text)
      → Text
      → Uuid
      → SearchQuery
      → Type 0
  IsGrounded searcher language_model system tenant_id query =
      ((e : Exception) × (searcher tenant_id query ≡ err e)
        × (stream searcher patterns language_model system tenant_id query ≡ err e))
      ⊎ ((chunks : List (ScoredChunk F)) × (flagged : Bool) × (cited : List Citation)
          × (prompt : GroundedPrompt) × (searcher tenant_id query ≡ ok chunks)
          × (stream searcher patterns language_model system tenant_id query
              ≡ ok (sources flagged cited ∷ (map token (language_model prompt) ++ done ∷ [])))
          × (flagged ≡ any (λ c. (scan patterns c.text).1) chunks)
          × (map (λ c. (c.marker, (c.chunk_id, c.document_id))) cited
              ≡ number_from {A = Uuid × Uuid} 1 (map (λ c. (c.chunk_id, c.document_id)) chunks))
          × (map (λ p. p.text) prompt.passages ≡ map (λ c. (scan patterns c.text).0) chunks))

  -- A stream raises what the search raises. Otherwise it has the sources first, then one event for
  -- each token of the model, and `done` last; it is flagged if the guard flagged a passage; the
  -- citations have the identifiers and the documents of the found chunks, numbered from 1 in the
  -- order of the search; and the model's
  -- passages have the texts that the guard cleaned, in the same order.
  pub stream-IsGrounded :
      (searcher : Uuid → SearchQuery → Result (List (ScoredChunk F)))
      (language_model : GroundedPrompt → List Text) (system : Text) (tenant_id : Uuid)
      (query : SearchQuery)
      → IsGrounded searcher language_model system tenant_id query
  unfolding stream citations build_grounded_prompt
  stream-IsGrounded searcher language_model system tenant_id query =
      elim (Result-cases (searcher tenant_id query)) [
        | inr (e, h) ↦ inl (e, h, rw h refl)
        | inl (chunks, h) ↦ inr (
          chunks,
          (sanitize patterns chunks).1,
          citations (prompt_of query.text system chunks),
          prompt_of query.text system chunks,
          h,
          rw h refl,
          flagged-any chunks,
          map-map _ _ (passages_from 1 (sanitize patterns chunks).0) ∙ cited_from 1 chunks,
          texts_from 1 chunks,
        )
      ]
