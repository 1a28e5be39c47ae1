-- ===== src/Generation/Tests.antt =====
-- The theorems of the generation context at one passage.
use eka_knowledge_assistant.Prelude.{ℕ, none, List, [], ◌∷◌, Text, codes, Result, ok}
use eka_knowledge_assistant.Documents.Document.{Uuid}
use eka_knowledge_assistant.Retrieval.Search.{SearchQuery, ScoredChunk}
use eka_knowledge_assistant.Generation.Answers.{GroundedPrompt, PromptPassage}
use eka_knowledge_assistant.Generation.Answers.Grounding.{IsGrounded, stream-IsGrounded}

abbrev passage : PromptPassage
passage = record { marker = 1; chunk_id = 5; document_id = 7; text = codes "Keys rotate. Ask IT." }

abbrev prompt : GroundedPrompt
prompt = record { system = []; question = codes "keys"; passages = passage ∷ [] }

-- A pattern that replaces every text.
abbrev redact : Text → Text × ℕ
redact text = (codes "[redacted]", 1)

abbrev found : ScoredChunk ℕ
found = record { chunk_id = 5; document_id = 7; text = codes "Keys rotate."; score = 1 }

abbrev question : SearchQuery
question = record { text = codes "keys"; top_k = 5; collection_id = none }

abbrev searcher : Uuid → SearchQuery → Result (List (ScoredChunk ℕ))
searcher tenant_id query = ok (found ∷ [])

stream-IsGrounded_example :
    IsGrounded (redact ∷ []) searcher (λ p. codes "yes" ∷ []) (codes "system") 1 question
stream-IsGrounded_example =
    stream-IsGrounded (redact ∷ []) searcher (λ p. codes "yes" ∷ []) (codes "system") 1 question
