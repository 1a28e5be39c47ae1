-- ===== src/Documents/Queries.antt =====
-- src/eka/modules/documents/application/queries.py and the repository's `list`.
pub mod Pages
use eka_knowledge_assistant.Prelude.{
  ℕ, zero, suc, ◌+◌, ◌-◌, ◌*◌, ◌/◌, ◌%◌, ◌^◌, ◌≤◌, ◌<◌, min, max, String, ◌≡◌, refl, sym, ap, ◌∙◌,
  subst, ◌≢◌, ◌↔◌, ◌⊎◌, inl, inr, Bool, true, false, ◌&&◌, ◌||◌, not, Option, none, some, List, [],
  ◌∷◌, ◌++◌, map, arith, ltb, leb, ◌==◌, if◌then◌else◌, ltb→lt, lt→ltb, leb→le, le→leb, ==_iff,
  ==_refl, Bool-cases, Option-cases, &&-eq-true, length, is_empty, take, drop, get_elem?, filter,
  any, find?, All, length-append, length-take, length-drop, length-map, take-append-drop,
  All-append, All-append_left, All-append_right, All-take, All-drop, All-filter, All-of, All-mono,
  All-apply, filter-All, filter-append, filter-eq-nil, All-of_filter, any-eq-false, any_of_All,
  unique, unique-All, unique-map, unique-snoc, any_self, any-map, All-map, KeepsItems,
  KeepsItems-All, Text, codes, text_eq, is_space, lstrip, rstrip, strip, is_blank, text_eq→eq,
  text_eq_refl, text_eq_iff, length-lstrip-le, length-rstrip-le, length-strip-le, strip_idem,
  rstrip-strip, strip-eq-nil_iff, ℤ, pos, negsuc, pos_part, neg_part, ltb_ℤ, eq_ℤ, Exception,
  validation_error, invariant_violation, state_transition_error, not_found_error, conflict_error,
  authentication_error, content_missing_error, value_error, key_error, integrity_error, data_error,
  multiple_results_found, other_exception, Result, ok, err, Action, and_then, map_result,
  bind_result, ◌>>=◌, ◌>>◌, bind_result-eq-ok, map_result-eq-ok, Result-cases, pure, raise, lift,
  gets, modify,
}
use eka_knowledge_assistant.Shared.Pagination.{
  SortDirection, asc, desc, Sort, PageRequest, Page, has_more,
}
use eka_knowledge_assistant.Shared.Transaction.{Session}
use eka_knowledge_assistant.Documents.Document.{Uuid, Document}
use eka_knowledge_assistant.Documents.Repository.{DocumentModel, Table, to_domain, is_live, get}
use eka_knowledge_assistant.Documents.Commands.{DocumentDto, from_aggregate}

pub record GetDocumentQuery : Type 0 where
  pub tenant_id : Uuid
  pub document_id : Uuid

abbrev pub found_dto : Option Document → Result DocumentDto
found_dto none = err (not_found_error "document not found")
found_dto (some document) = ok (from_aggregate document)

-- GetDocumentHandler.handle, over a session of its own.
unfoldable pub get_handle : GetDocumentQuery → Table → Result DocumentDto
get_handle query t =
    bind_result (get query.tenant_id query.document_id (record { stored = t; pending = t })).0
      found_dto

abbrev pub in_collection : Option Uuid → DocumentModel → Bool
in_collection none r = true
in_collection (some c) r = r.collection_id == c

unfoldable pub list_query : Uuid → Option Uuid → DocumentModel → Bool
list_query tenant_id collection_id r =
    r.tenant_id == tenant_id && is_live r && in_collection collection_id r

-- _SORTABLE
abbrev pub is_sortable : Text → Bool
is_sortable field =
    text_eq field (codes "created_at")
    || text_eq field (codes "updated_at")
    || text_eq field (codes "title")
    || text_eq field (codes "status")

unfoldable pub sort_of : Option Sort → Sort
sort_of none = record { field = codes "created_at"; direction = desc }
sort_of (some s) =
    if is_sortable s.field then s else record { field = codes "created_at"; direction = desc }

abbrev pub collect_documents : List DocumentModel → Result (List Document)
collect_documents [] = ok []
collect_documents (r ∷ rs) =
    bind_result (to_domain r) λ d. bind_result (collect_documents rs) λ ds. ok (d ∷ ds)

-- SqlAlchemyDocumentRepository.list; `order` is the database's sort by a column.
unfoldable pub list :
    (Sort → Table → Table) → Uuid → PageRequest → Option Uuid → Table → Result (Page Document)
list order tenant_id page collection_id t =
    let matching = filter (list_query tenant_id collection_id) t in
    let rows = take page.limit (drop page.offset (order (sort_of page.sort) matching)) in
    bind_result (collect_documents rows) λ items.
      ok (record {
        items = items;
        total = length matching;
        limit = page.limit;
        offset = page.offset;
      })

pub record ListDocumentsQuery : Type 0 where
  pub tenant_id : Uuid
  pub page : PageRequest
  pub collection_id : Option Uuid

-- ListDocumentsHandler.handle
unfoldable pub list_handle :
    (Sort → Table → Table) → ListDocumentsQuery → Table → Result (Page DocumentDto)
list_handle order query t =
    map_result
      (λ page. record {
        items = map from_aggregate page.items;
        total = page.total;
        limit = page.limit;
        offset = page.offset;
      })
      (list order query.tenant_id query.page query.collection_id t)
