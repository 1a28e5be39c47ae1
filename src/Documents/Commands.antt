-- ===== src/Documents/Commands.antt =====
-- src/eka/modules/documents/application: the DTO, the command handlers (commands.py) and the
-- lifecycle service (lifecycle.py), each in a unit of work of its own.
pub mod Register
pub mod Idempotency
pub mod Blocked
pub mod Updates
pub mod ReadBack
pub mod Deletion
pub mod Progress
pub mod Tenants
use eka_knowledge_assistant.Prelude.{
  ℕ, zero, suc, ◌+◌, ◌-◌, ◌*◌, ◌/◌, ◌%◌, ◌^◌, ◌≤◌, ◌<◌, min, max, String, ◌≡◌, refl, sym, ap, ◌∙◌,
  subst, ◌≢◌, ◌↔◌, ◌⊎◌, inl, inr, Bool, true, false, ◌&&◌, ◌||◌, not, Option, none, some, List, [],
  ◌∷◌, ◌++◌, map, arith, ltb, leb, ◌==◌, if◌then◌else◌, ltb→lt, lt→ltb, leb→le, le→leb, ==_iff,
  ==_refl, Bool-cases, Option-cases, &&-eq-true, length, is_empty, take, drop, get_elem?, filter,
  any, find?, All, length-append, length-take, length-drop, length-map, take-append-drop,
  All-append, All-append_left, All-append_right, All-take, All-drop, All-filter, All-of, All-mono,
  filter-All, Text, codes, text_eq, is_space, lstrip, rstrip, strip, is_blank, text_eq→eq,
  text_eq_refl, text_eq_iff, length-lstrip-le, length-rstrip-le, length-strip-le, strip_idem,
  rstrip-strip, strip-eq-nil_iff, ℤ, pos, negsuc, pos_part, neg_part, ltb_ℤ, Exception,
  validation_error, invariant_violation, state_transition_error, not_found_error, conflict_error,
  authentication_error, content_missing_error, value_error, key_error, integrity_error, data_error,
  multiple_results_found, other_exception, Result, ok, err, Action, and_then, map_result,
  bind_result, ◌>>=◌, ◌>>◌, pure, raise, lift, gets, modify,
}
use eka_knowledge_assistant.Shared.Transaction.{Session, commit, with_uow}
use eka_knowledge_assistant.Documents.Document.{
  Uuid, Instant, DocumentStatus, EventBase, ContentHash, Document,
}
use eka_knowledge_assistant.Documents.Document as D
use eka_knowledge_assistant.Documents.Repository.{
  Table, DocumentAction, check_table, parse_source, source_value, status_value, add, save, get,
  find_by_content_hash,
}

pub record DocumentDto : Type 0 where
  pub id : Uuid
  pub tenant_id : Uuid
  pub collection_id : Uuid
  pub title : Text
  pub source_type : Text
  pub source_uri : Text
  pub content_hash : Text
  pub status : Text
  pub version : ℕ
  pub created_at : Instant
  pub updated_at : Instant

unfoldable pub from_aggregate : Document → DocumentDto
unfolding source_value status_value
from_aggregate doc = record {
  id = doc.id;
  tenant_id = doc.tenant_id;
  collection_id = doc.collection_id;
  title = doc.title.value;
  source_type = source_value doc.source_type;
  source_uri = doc.source_uri;
  content_hash = doc.content_hash.value;
  status = status_value doc.status;
  version = doc.version;
  created_at = doc.created_at;
  updated_at = doc.updated_at;
}

pub record RegisterDocumentCommand : Type 0 where
  pub tenant_id : Uuid
  pub collection_id : Uuid
  pub title : Text
  pub source_type : Text
  pub source_uri : Text
  pub content_hash : Text

-- What `new_uuid()` and `utcnow()` return while one command runs.
pub record Fresh : Type 0 where
  pub id : Uuid
  pub now : Instant
  pub base : EventBase

-- The part of the handler after no document with the hash was found.
unfoldable pub register_new :
    Fresh → RegisterDocumentCommand → ContentHash → DocumentAction DocumentDto
unfolding add
register_new fresh command hash = do
  t ← lift (D.title command.title)
  source ← lift (parse_source command.source_type)
  let document =
      D.register fresh.id fresh.now fresh.base command.tenant_id command.collection_id t source
        command.source_uri hash
  add document
  commit check_table
  pure (from_aggregate document)

-- `if existing is not None: return …`
abbrev pub known_or_new :
    Fresh → RegisterDocumentCommand → ContentHash → Option Document → DocumentAction DocumentDto
known_or_new fresh command hash (some document) = pure (from_aggregate document)
known_or_new fresh command hash none = register_new fresh command hash

-- RegisterDocumentHandler.handle
unfoldable pub register_handle : Fresh → RegisterDocumentCommand → Action Table DocumentDto
unfolding find_by_content_hash with_uow
register_handle fresh command = do
  hash ← lift (D.content_hash command.content_hash)
  with_uow (find_by_content_hash command.tenant_id hash >>= known_or_new fresh command hash)

-- A method call on the aggregate: the changed document, or what the method raised.
abbrev pub on_document : Action Document (Unit {0}) → Document → Result Document
on_document m doc = map_result (λ _. (m doc).1) (m doc).0

-- The body after the look-up: `if document is None: raise …`, the call, `save` and `commit`.
unfoldable pub save_changed :
    Action Document (Unit {0}) → Option Document → DocumentAction (Unit {0})
unfolding save
save_changed method none = raise (not_found_error "document not found")
save_changed method (some document) = do
  changed ← lift (on_document method document)
  save changed
  commit check_table

-- What the delete command and the lifecycle service share.
unfoldable pub update_document : Action Document (Unit {0}) → Uuid → Uuid → Action Table (Unit {0})
unfolding get with_uow save_changed
update_document method tenant_id document_id =
    with_uow (get tenant_id document_id >>= save_changed method)

pub record DeleteDocumentCommand : Type 0 where
  pub tenant_id : Uuid
  pub document_id : Uuid

-- DeleteDocumentHandler.handle
unfoldable pub delete_handle : Instant → EventBase → DeleteDocumentCommand → Action Table (Unit {0})
unfolding update_document
delete_handle now base command =
    update_document (D.delete now base) command.tenant_id command.document_id

-- DocumentLifecycleService
unfoldable pub mark_ingesting : Instant → Uuid → Uuid → Action Table (Unit {0})
unfolding update_document
mark_ingesting now = update_document (D.mark_ingesting now)

unfoldable pub mark_indexed : Instant → Uuid → Uuid → Action Table (Unit {0})
unfolding update_document
mark_indexed now = update_document (D.mark_indexed now)

unfoldable pub mark_failed : Instant → Uuid → Uuid → Action Table (Unit {0})
unfolding update_document
mark_failed now = update_document (D.mark_failed now)
