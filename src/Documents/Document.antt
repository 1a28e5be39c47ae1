-- ===== src/Documents/Document.antt =====
-- src/eka/modules/documents/domain/document.py: the Document aggregate, its value objects, its
-- events and its lifecycle. Identifiers and instants are numbers; `utcnow()` and `new_uuid()` are
-- arguments, one for each call.
pub mod Values
pub mod Lifecycle
pub mod History
use eka_knowledge_assistant.Prelude.{
  ℕ, zero, suc, ◌+◌, Bool, true, false, ◌&&◌, ◌||◌, List, [], ◌∷◌, ◌++◌, ltb, leb, ◌==◌,
  if◌then◌else◌, length, is_empty, any, Text, text_eq, strip, validation_error,
  state_transition_error, Result, ok, err, Action, ◌>>◌, modify,
}

abbrev pub Uuid : Type 0
Uuid = ℕ

abbrev pub Instant : Type 0
Instant = ℕ

pub data SourceType : Type 0 where
  upload confluence sharepoint jira notion google_drive : SourceType

pub data DocumentStatus : Type 0 where
  registered ingesting indexed failed deleted : DocumentStatus

abbrev pub status_eq : DocumentStatus → DocumentStatus → Bool
status_eq registered registered = true
status_eq ingesting ingesting = true
status_eq indexed indexed = true
status_eq failed failed = true
status_eq deleted deleted = true
status_eq _ _ = false

unfoldable pub allowed_transitions : DocumentStatus → List DocumentStatus
allowed_transitions registered = ingesting ∷ deleted ∷ []
allowed_transitions ingesting = indexed ∷ failed ∷ deleted ∷ []
allowed_transitions indexed = ingesting ∷ deleted ∷ []
allowed_transitions failed = ingesting ∷ deleted ∷ []
allowed_transitions deleted = []

-- The class [0-9a-f].
unfoldable pub is_hex : ℕ → Bool
is_hex c = (leb b'0' c && leb c b'9') || (leb b'a' c && leb c b'f')

-- `^[0-9a-f]{n}$` by `re.match`: the `$` also matches before a line feed that ends the text.
unfoldable pub matches_hex : ℕ → Text → Bool
unfolding is_hex
matches_hex zero [] = true
matches_hex zero (c ∷ []) = c == 10
matches_hex zero (c ∷ d ∷ s) = false
matches_hex (suc n) [] = false
matches_hex (suc n) (c ∷ s) = if is_hex c then matches_hex n s else false

pub record ContentHash : Type 0 where
  pub value : Text

unfoldable pub content_hash : Text → Result ContentHash
content_hash value =
    if matches_hex 64 value
    then ok (record { value = value })
    else err (validation_error "content_hash must be a lowercase hex sha256 digest")

abbrev pub max_title_len : ℕ
max_title_len = 512

pub record Title : Type 0 where
  pub value : Text

unfoldable pub title : Text → Result Title
title value =
    let stripped = strip value in
    if is_empty stripped
    then err (validation_error "title must not be empty")
    else if ltb max_title_len (length stripped)
    then err (validation_error "title must be at most 512 characters")
    else ok (record { value = stripped })

-- The fields that DomainEvent gives every event.
pub record EventBase : Type 0 where
  pub event_id : Uuid
  pub occurred_at : Instant

pub data DomainEvent : Type 0 where
  document_registered :
      EventBase → (document_id tenant_id collection_id : Uuid) (content_hash : Text) → DomainEvent
  document_content_changed :
      EventBase
      → (document_id tenant_id : Uuid) (new_content_hash : Text) (version : ℕ) → DomainEvent
  document_deleted : EventBase → (document_id tenant_id : Uuid) → DomainEvent

pub record Document : Type 0 where
  pub id : Uuid
  pub tenant_id : Uuid
  pub collection_id : Uuid
  pub title : Title
  pub source_type : SourceType
  pub source_uri : Text
  pub content_hash : ContentHash
  pub status : DocumentStatus
  pub version : ℕ
  pub created_at : Instant
  pub updated_at : Instant
  pub events : List DomainEvent

-- `record` and `pull_events` of AggregateRoot (src/eka/shared/domain/base.py)
unfoldable pub record_event : DomainEvent → Document → Document
record_event event doc = record doc { events = doc.events ++ event ∷ [] }

unfoldable pub pull_events : Document → List DomainEvent × Document
pull_events doc = (doc.events, record doc { events = [] })

unfoldable pub register :
    (id : Uuid) (now : Instant) (base : EventBase) (tenant_id collection_id : Uuid)
    → Title
    → SourceType
    → Text
    → ContentHash
    → Document
unfolding record_event
register id now base tenant_id collection_id t source_type source_uri hash =
    record_event (document_registered base id tenant_id collection_id hash.value) (record {
      id = id;
      tenant_id = tenant_id;
      collection_id = collection_id;
      title = t;
      source_type = source_type;
      source_uri = source_uri;
      content_hash = hash;
      status = registered;
      version = 1;
      created_at = now;
      updated_at = now;
      events = [];
    })

unfoldable pub transition : DocumentStatus → Instant → Action Document (Unit {0})
unfolding allowed_transitions
transition target now doc =
    if any (status_eq target) (allowed_transitions doc.status)
    then (ok tt, record doc { status = target; updated_at = now })
    else (err (state_transition_error "cannot move document"), doc)

unfoldable pub mark_ingesting : Instant → Action Document (Unit {0})
unfolding transition
mark_ingesting = transition ingesting

unfoldable pub mark_indexed : Instant → Action Document (Unit {0})
unfolding transition
mark_indexed = transition indexed

unfoldable pub mark_failed : Instant → Action Document (Unit {0})
unfolding transition
mark_failed = transition failed

unfoldable pub change_content : ContentHash → Instant → EventBase → Action Document (Unit {0})
unfolding record_event
change_content new_hash now base doc =
    if status_eq doc.status deleted
    then (err (state_transition_error "cannot change content of a deleted document"), doc)
    else if text_eq new_hash.value doc.content_hash.value
    then (ok tt, doc)
    else (
      ok tt,
      record_event
          (document_content_changed base doc.id doc.tenant_id new_hash.value (doc.version + 1))
          (record doc {
            content_hash = new_hash;
            version = doc.version + 1;
            status = registered;
            updated_at = now;
          }),
    )

unfoldable pub delete : Instant → EventBase → Action Document (Unit {0})
unfolding transition record_event
delete now base doc =
    if status_eq doc.status deleted
    then (ok tt, doc)
    else (transition deleted now
          >> modify (record_event (document_deleted base doc.id doc.tenant_id)))
        doc
