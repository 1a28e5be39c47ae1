-- ===== src/Documents/Http.antt =====
-- src/eka/modules/documents/presentation: the request and response schemas, and the functions of the
-- routes under /v1/documents. `str_uuid` is str of an identifier.
use eka_knowledge_assistant.Prelude.{
  ℕ, zero, suc, Bool, true, false, ◌&&◌, Option, some, List, [], ◌∷◌, ◌++◌, map, leb, length, Text,
  codes, ℤ, Result, Action, map_result, bind_result,
}
use eka_knowledge_assistant.Config.{between, at_least}
use eka_knowledge_assistant.Shared.Pagination.{
  max_limit, SortDirection, Sort, page_request, Page, has_more,
}
use eka_knowledge_assistant.Documents.Document.{Uuid, Instant, EventBase, is_hex}
use eka_knowledge_assistant.Documents.Repository.{Table}
use eka_knowledge_assistant.Documents.Commands.{
  Fresh, DocumentDto, RegisterDocumentCommand, register_handle, delete_handle,
}
use eka_knowledge_assistant.Documents.Queries.{get_handle, list_handle}

-- Field(min_length=low, max_length=high)
abbrev pub sized : ℕ → ℕ → Text → Bool
sized low high t = leb low (length t) && leb (length t) high

pub record RegisterDocumentRequest : Type 0 where
  pub collection_id : Uuid
  pub title : Text
  pub source_type : Text
  pub source_uri : Text
  pub content_hash : Text

-- `^[0-9a-f]{64}$` as pydantic matches it, whose `$` is the end of the text alone.
unfoldable pub matches_digest : ℕ → Text → Bool
matches_digest zero [] = true
matches_digest zero (c ∷ s) = false
matches_digest (suc n) [] = false
matches_digest (suc n) (c ∷ s) = is_hex c && matches_digest n s

unfoldable pub is_register_request : RegisterDocumentRequest → Bool
is_register_request body =
    sized 1 512 body.title && sized 1 2048 body.source_uri && matches_digest 64 body.content_hash

pub record DocumentResponse : Type 0 where
  pub id : Uuid
  pub tenant_id : Uuid
  pub collection_id : Uuid
  pub title : Text
  pub source_type : Text
  pub source_uri : Text
  pub content_hash : Text
  pub status : Text
  pub version : ℕ
  pub created_at : Instant
  pub updated_at : Instant

unfoldable pub from_dto : DocumentDto → DocumentResponse
from_dto dto = record {
  id = dto.id;
  tenant_id = dto.tenant_id;
  collection_id = dto.collection_id;
  title = dto.title;
  source_type = dto.source_type;
  source_uri = dto.source_uri;
  content_hash = dto.content_hash;
  status = dto.status;
  version = dto.version;
  created_at = dto.created_at;
  updated_at = dto.updated_at;
}

pub record PageMeta : Type 0 where
  pub total : ℕ
  pub limit : ℕ
  pub offset : ℕ
  pub has_more : Bool

pub record DocumentListResponse : Type 0 where
  pub items : List DocumentResponse
  pub meta : PageMeta

-- The response of a registration with its Location header.
pub record Created : Type 0 where
  pub location : Text
  pub body : DocumentResponse

abbrev pub created : (Uuid → Text) → DocumentDto → Created
created str_uuid dto = record {
  location = codes "/v1/documents/" ++ str_uuid dto.id;
  body = from_dto dto;
}

unfoldable pub register_document :
    (Uuid → Text) → Fresh → RegisterDocumentRequest → Uuid → Action Table Created
register_document str_uuid fresh body tenant_id t =
    let command : RegisterDocumentCommand = record {
      tenant_id = tenant_id;
      collection_id = body.collection_id;
      title = body.title;
      source_type = body.source_type;
      source_uri = body.source_uri;
      content_hash = body.content_hash;
    } in
    let r = register_handle fresh command t in (map_result (created str_uuid) r.0, r.1)

unfoldable pub get_document : Uuid → Uuid → Table → Result DocumentResponse
get_document document_id tenant_id t =
    map_result from_dto (get_handle (record { tenant_id = tenant_id; document_id = document_id }) t)

-- The query parameters of the list, with their bounds.
pub record ListDocumentsParams : Type 0 where
  pub collection_id : Option Uuid
  pub limit : ℤ
  pub offset : ℤ
  pub sort_by : Text
  pub sort_dir : SortDirection

unfoldable pub is_page : ℤ → ℤ → Bool
is_page limit offset = between 1 max_limit limit && at_least 0 offset

unfoldable pub list_response : Page DocumentDto → DocumentListResponse
list_response page = record {
  items = map from_dto page.items;
  meta = record {
    total = page.total;
    limit = page.limit;
    offset = page.offset;
    has_more = has_more page;
  };
}

unfoldable pub list_documents :
    (Sort → Table → Table) → ListDocumentsParams → Uuid → Table → Result DocumentListResponse
list_documents order params tenant_id t =
    bind_result
      (page_request params.limit params.offset
        (some (record { field = params.sort_by; direction = params.sort_dir })))
      λ page. map_result list_response (
        list_handle order
          (record { tenant_id = tenant_id; page = page; collection_id = params.collection_id }) t)

unfoldable pub delete_document : Instant → EventBase → Uuid → Uuid → Action Table (Unit {0})
delete_document now base document_id tenant_id =
    delete_handle now base (record { tenant_id = tenant_id; document_id = document_id })
