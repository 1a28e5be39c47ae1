-- ===== src/Documents/Tests.antt =====
-- The theorems of the documents context at a registered, an ingesting and a deleted document.
use eka_knowledge_assistant.Prelude.{
  ℕ, zero, suc, ◌-◌, min, ◌≡◌, refl, ap, ◌↔◌, ◌⊎◌, true, none, some, [], ◌∷◌, ◌++◌, length, filter,
  All, KeepsItems, Text, codes, is_space, lstrip, rstrip, strip, Exception, state_transition_error,
  not_found_error, ok, err,
}
use eka_knowledge_assistant.Shared.Pagination.{PageRequest, Page}
use eka_knowledge_assistant.Shared.Transaction.{scalar_one_or_none, commit, with_uow}
use eka_knowledge_assistant.Documents.Document.{
  Uuid, EventBase, DocumentStatus, registered, ingesting, indexed, deleted, upload, ContentHash,
  Title, Document, status_eq,
}
use eka_knowledge_assistant.Documents.Document as D
use eka_knowledge_assistant.Documents.Document.Lifecycle.{
  Edge, Call, change, operation, step, here, next, transition_lem,
}
use eka_knowledge_assistant.Documents.Document.History.{Reach-replay, view, replay}
use eka_knowledge_assistant.Documents.Document.Values.{IsHexDigest, content_hash_iff}
use eka_knowledge_assistant.Documents.Repository.{
  DocumentModel, Table, clashes, is_unique, fits_columns, check_table, status_value, parse_status,
  source_value, parse_source, to_domain, apply, add, upsert, save, is_live, get_query, get,
  hash_query, find_by_content_hash,
}
use eka_knowledge_assistant.Documents.Repository.Rows.{IsValid, without_events, to_domain-apply}
use eka_knowledge_assistant.Documents.Commands.{
  DocumentDto, from_aggregate, RegisterDocumentCommand, Fresh, register_new, register_handle,
  save_changed, update_document, mark_ingesting, DeleteDocumentCommand, delete_handle,
}
use eka_knowledge_assistant.Documents.Commands.Idempotency.{register_idem}
use eka_knowledge_assistant.Documents.Commands.Blocked.{register_blocked}
use eka_knowledge_assistant.Documents.Commands.Updates.{stored_document}
use eka_knowledge_assistant.Documents.Commands.ReadBack.{transition_read_back}
use eka_knowledge_assistant.Documents.Commands.Deletion.{Misses, MissesPage, delete_is_final}
use eka_knowledge_assistant.Documents.Queries.{list_query, sort_of, list}
use eka_knowledge_assistant.Documents.Queries.Pages.{IsListed, list_page}

abbrev repeat : ℕ → ℕ → Text
repeat zero c = []
repeat (suc n) c = c ∷ repeat n c

abbrev digest : Text
digest = repeat 64 97

abbrev command : RegisterDocumentCommand
command = record {
  tenant_id = 1;
  collection_id = 2;
  title = codes "Handbook";
  source_type = codes "upload";
  source_uri = codes "file";
  content_hash = digest;
}

abbrev base : EventBase
base = record { event_id = 90; occurred_at = 10 }

abbrev fresh : Fresh
fresh = record { id = 7; now = 10; base = base }

abbrev again : Fresh
again = record { id = 8; now = 20; base = base }

abbrev row : Text → DocumentModel
row status = record {
  id = 7;
  tenant_id = 1;
  collection_id = 2;
  title = codes "Handbook";
  source_type = codes "upload";
  source_uri = codes "file";
  content_hash = digest;
  status = status;
  version = 1;
  created_at = 10;
  updated_at = 10;
}

abbrev dto : DocumentDto
dto = record {
  id = 7;
  tenant_id = 1;
  collection_id = 2;
  title = codes "Handbook";
  source_type = codes "upload";
  source_uri = codes "file";
  content_hash = digest;
  status = codes "registered";
  version = 1;
  created_at = 10;
  updated_at = 10;
}

abbrev registered_rows : Table
registered_rows = row (codes "registered") ∷ []

register_once : register_handle fresh command [] ≡ (ok dto, registered_rows)
unfolding D.is_hex D.matches_hex D.content_hash D.title D.record_event D.register
    D.allowed_transitions D.transition D.mark_ingesting clashes is_unique fits_columns check_table
    status_value parse_status source_value parse_source to_domain apply add upsert save is_live
    get_query get hash_query find_by_content_hash from_aggregate register_new register_handle
    save_changed update_document mark_ingesting delete_handle D.delete scalar_one_or_none commit
    with_uow is_space lstrip rstrip strip
register_once = refl

register_idem_example :
    register_handle again command (register_handle fresh command []).1
    ≡ (ok dto, (register_handle fresh command []).1)
register_idem_example = register_idem fresh again command [] dto (ap (λ x. x.0) register_once)

abbrev foreign : RegisterDocumentCommand
foreign = record command { source_type = codes "fax"; content_hash = repeat 64 98 }

register_blocked_example :
    (e : Exception) × (register_handle again command ([] ++ row (codes "deleted") ∷ [])
      ≡ (err e, [] ++ row (codes "deleted") ∷ []))
unfolding D.is_hex D.matches_hex D.content_hash D.title D.record_event D.register
    D.allowed_transitions D.transition D.mark_ingesting clashes is_unique fits_columns check_table
    status_value parse_status source_value parse_source to_domain apply add upsert save is_live
    get_query get hash_query find_by_content_hash from_aggregate register_new register_handle
    save_changed update_document mark_ingesting delete_handle D.delete scalar_one_or_none commit
    with_uow is_space lstrip rstrip strip
register_blocked_example =
    register_blocked again command [] [] (row (codes "deleted")) refl refl refl refl

transition_read_back_example :
    (doc : Document) × (stored_document 1 7 registered_rows ≡ ok (some doc))
    × Edge doc.status ingesting
    × (stored_document 1 7 (update_document (D.transition ingesting 30) 1 7 registered_rows).1
        ≡ ok (some (record doc { status = ingesting; updated_at = 30 })))
    × (is_unique (update_document (D.transition ingesting 30) 1 7 registered_rows).1 ≡ true)
unfolding D.is_hex D.matches_hex D.content_hash D.title D.record_event D.register
    D.allowed_transitions D.transition D.mark_ingesting clashes is_unique fits_columns check_table
    status_value parse_status source_value parse_source to_domain apply add upsert save is_live
    get_query get hash_query find_by_content_hash from_aggregate register_new register_handle
    save_changed update_document mark_ingesting delete_handle D.delete scalar_one_or_none commit
    with_uow is_space lstrip rstrip strip
transition_read_back_example = transition_read_back ingesting 30 1 7 registered_rows refl refl refl

abbrev removal : DeleteDocumentCommand
removal = record { tenant_id = 1; document_id = 7 }

abbrev document : Document
document = record {
  id = 7;
  tenant_id = 1;
  collection_id = 2;
  title = record { value = codes "Handbook" };
  source_type = upload;
  source_uri = codes "file";
  content_hash = record { value = digest };
  status = registered;
  version = 1;
  created_at = 10;
  updated_at = 10;
  events = [];
}

transition_lem_example :
    (Edge registered indexed
      × (D.transition indexed 5 document
          ≡ (ok tt, record document { status = indexed; updated_at = 5 })))
    ⊎ (¬ Edge registered indexed
        × (D.transition indexed 5 document
            ≡ (err (state_transition_error "cannot move document"), document)))
transition_lem_example = transition_lem indexed 5 document

document-IsValid : IsValid document
unfolding D.is_hex D.matches_hex D.content_hash D.title D.record_event D.register
    D.allowed_transitions D.transition D.mark_ingesting clashes is_unique fits_columns check_table
    status_value parse_status source_value parse_source to_domain apply add upsert save is_live
    get_query get hash_query find_by_content_hash from_aggregate register_new register_handle
    save_changed update_document mark_ingesting delete_handle D.delete scalar_one_or_none commit
    with_uow is_space lstrip rstrip strip
document-IsValid = record { valid_title = refl; valid_hash = refl }

to_domain-apply_example : to_domain (apply 7 document) ≡ ok (without_events document)
to_domain-apply_example = to_domain-apply document document-IsValid

content_hash_iff_example :
    (D.content_hash (digest ++ 10 ∷ []) ≡ ok (record { value = digest ++ 10 ∷ [] })) ↔ (
      (d : Text) × IsHexDigest 64 d
      × ((digest ++ 10 ∷ [] ≡ d) ⊎ (digest ++ 10 ∷ [] ≡ d ++ 10 ∷ [])))
content_hash_iff_example = content_hash_iff (digest ++ 10 ∷ [])

abbrev first_page : PageRequest
first_page = record { limit = 5; offset = 0; sort = none }

abbrev listed : Page Document
listed = record { items = document ∷ []; total = 1; limit = 5; offset = 0 }

id-KeepsItems : KeepsItems {A = DocumentModel} (λ t. t)
id-KeepsItems = record { keeps = λ p xs. refl }

list_page_example :
    (listed.limit ≡ first_page.limit)
    × (listed.offset ≡ first_page.offset)
    × (listed.total ≡ length (filter (list_query 1 (some 2)) registered_rows))
    × (length listed.items ≡ min first_page.limit (listed.total - first_page.offset))
    × All (IsListed 1 (some 2)) listed.items
unfolding D.is_hex D.matches_hex D.content_hash D.title D.record_event D.register
    D.allowed_transitions D.transition D.mark_ingesting clashes is_unique fits_columns check_table
    status_value parse_status source_value parse_source to_domain apply add upsert save is_live
    get_query get hash_query find_by_content_hash from_aggregate register_new register_handle
    save_changed update_document mark_ingesting delete_handle D.delete scalar_one_or_none commit
    with_uow is_space lstrip rstrip strip list list_query sort_of
list_page_example =
    list_page (λ s t. t) (λ s. id-KeepsItems) 1 first_page (some 2) registered_rows listed refl

abbrev at_start : Document
at_start =
    D.register 7 10 base 1 2 (record { value = codes "Handbook" }) upload (codes "file")
      (record { value = digest })

abbrev new_content : Call
new_content = change (record { value = repeat 64 98 }) 20 base

Reach-replay_example :
    replay (operation new_content at_start).1.events ≡ view (operation new_content at_start).1
Reach-replay_example =
    Reach-replay 7 10 base 1 2 (record { value = codes "Handbook" }) upload (codes "file")
      (record { value = digest }) (next here (step new_content refl))

delete_is_final_example :
    let t = (delete_handle 40 base removal registered_rows).1 in
    (stored_document 1 7 t ≡ ok none)
    × Misses 7
        (find_by_content_hash 1 (record { value = digest }) (record { stored = t; pending = t })).0
    × MissesPage 7 (list (λ s rows. rows) 1 first_page (some 2) t)
    × (delete_handle 50 base removal t ≡ (err (not_found_error "document not found"), t))
unfolding D.is_hex D.matches_hex D.content_hash D.title D.record_event D.register
    D.allowed_transitions D.transition D.mark_ingesting clashes is_unique fits_columns check_table
    status_value parse_status source_value parse_source to_domain apply add upsert save is_live
    get_query get hash_query find_by_content_hash from_aggregate register_new register_handle
    save_changed update_document mark_ingesting delete_handle D.delete scalar_one_or_none commit
    with_uow is_space lstrip rstrip strip
delete_is_final_example =
    delete_is_final 40 50 base base removal registered_rows (record { value = digest })
      (λ s rows. rows) (λ s. id-KeepsItems) first_page (some 2) refl refl
