-- ===== src/Ingestion/Http.antt =====
-- src/eka/modules/ingestion/presentation and application/dto.py: the routes for content, chunks and
-- jobs with their schemas.
use eka_knowledge_assistant.Prelude.{
  ℕ, Bool, not, Option, none, List, map, length, is_empty, Text, codes, ℤ, Result, Action,
  map_result, ◌>>◌, pure,
}
use eka_knowledge_assistant.Shared.Pagination.{page_request}
use eka_knowledge_assistant.Documents.Document.{Uuid, Instant}
use eka_knowledge_assistant.Ingestion.Jobs.{Jobs}
use eka_knowledge_assistant.Ingestion.JobQueries.{JobDto, list_jobs}
use eka_knowledge_assistant.Ingestion.Chunks.{
  Chunk, ChunkModel, Store, dimension, list_for_document,
}
use eka_knowledge_assistant.Ingestion.Pipeline.{World}
use eka_knowledge_assistant.Ingestion.Uploads.{upload}

-- UploadContentRequest: Field(min_length=1)
unfoldable pub is_upload_request : Text → Bool
is_upload_request content = not (is_empty content)

pub record ContentAcceptedResponse : Type 0 where
  pub document_id : Uuid
  pub status : Text

pub record ChunkDto : Type 0 where
  pub id : Uuid
  pub document_id : Uuid
  pub ordinal : ℤ
  pub text : Text
  pub dimension : ℕ

unfoldable pub from_entity : {F : Type 0} → Chunk F → ChunkDto
from_entity c = record {
  id = c.id;
  document_id = c.document_id;
  ordinal = c.ordinal;
  text = c.text.value;
  dimension = dimension c.embedding;
}

pub record ChunkResponse : Type 0 where
  pub id : Uuid
  pub document_id : Uuid
  pub ordinal : ℤ
  pub text : Text
  pub dimension : ℕ

unfoldable pub chunk_response : ChunkDto → ChunkResponse
chunk_response d = record {
  id = d.id;
  document_id = d.document_id;
  ordinal = d.ordinal;
  text = d.text;
  dimension = d.dimension;
}

pub record ChunkListResponse : Type 0 where
  pub items : List ChunkResponse
  pub count : ℕ

pub record JobResponse : Type 0 where
  pub id : Uuid
  pub document_id : Uuid
  pub status : Text
  pub attempts : ℕ
  pub max_attempts : ℕ
  pub last_error : Option Text

unfoldable pub job_response : JobDto → JobResponse
job_response d = record {
  id = d.id;
  document_id = d.document_id;
  status = d.status;
  attempts = d.attempts;
  max_attempts = d.max_attempts;
  last_error = d.last_error;
}

-- The query parameters of the list of jobs.
pub record ListJobsParams : Type 0 where
  pub status : Option Text
  pub limit : ℤ
  pub offset : ℤ

module _ {F : Type 0} where
  unfoldable pub upload_content :
      (Text → Text)
      → ℕ
      → Uuid
      → Instant
      → Uuid
      → Text
      → Uuid
      → Action (World F) ContentAcceptedResponse
  upload_content sha256 max_attempts job_id now document_id content tenant_id = do
    upload sha256 max_attempts job_id now tenant_id document_id content
    pure (record { document_id = document_id; status = codes "queued" })

  unfoldable pub list_chunks :
      (List (ChunkModel F) → List (ChunkModel F)) → Uuid → Uuid → Store F → Result ChunkListResponse
  list_chunks order document_id tenant_id s =
      map_result
        (λ chunks.
          let dtos = map from_entity chunks in
          record { items = map chunk_response dtos; count = length dtos })
        (list_for_document order tenant_id document_id (record { stored = s; pending = s })).0

unfoldable pub list_ingestion_jobs :
    (Jobs → Jobs) → ListJobsParams → Uuid → Jobs → Result (List JobResponse)
list_ingestion_jobs order params tenant_id jobs =
    map_result
      (λ page.
        map job_response
          (list_jobs order (record { tenant_id = tenant_id; page = page; status = params.status })
            jobs).items)
      (page_request params.limit params.offset none)
