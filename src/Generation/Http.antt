-- ===== src/Generation/Http.antt =====
-- src/eka/modules/generation/presentation: the route POST /v1/answer. The status goes out before the
-- events are made, so an error of the search ends the stream of a response that says 200. `dumps` is
-- json.dumps of an event.
use eka_knowledge_assistant.Prelude.{
  ℕ, List, [], ◌∷◌, ◌++◌, map, Text, codes, Result, ok, Action, map_result, ◌>>=◌, lift,
}
use eka_knowledge_assistant.Documents.Document.{Uuid}
use eka_knowledge_assistant.Retrieval.Search.{SearchQuery, search_query, ScoredChunk}
use eka_knowledge_assistant.Retrieval.Http.{SearchRequest}
use eka_knowledge_assistant.Generation.Answers.{GroundedPrompt, Event, stream}

-- f"data: {json.dumps(event)}\n\n"
abbrev pub frame : (Event → Text) → Event → Text
frame dumps event = codes "data: " ++ dumps event ++ 10 ∷ 10 ∷ []

module _ {F : Type 0} (patterns : List (Text → Text × ℕ))
    (language_model : GroundedPrompt → List Text) (system : Text) (dumps : Event → Text) where
  -- The body of the response: the frames, or the exception that ends it.
  unfoldable pub event_stream :
      Uuid → SearchQuery → Result (List (ScoredChunk F)) → Result (List Text)
  event_stream tenant_id query found =
      map_result (map (frame dumps))
        (stream (λ _ _. found) patterns language_model system tenant_id query)

  unfoldable pub answer_route :
      {S : Type 0}
      → (Uuid → SearchQuery → Action S (List (ScoredChunk F)))
      → SearchRequest
      → Uuid
      → Action S (Result (List Text))
  answer_route searcher body tenant_id = do
    query ← lift (search_query body.query body.top_k body.collection_id)
    λ s. let r = searcher tenant_id query s in (ok (event_stream tenant_id query r.0), r.1)
