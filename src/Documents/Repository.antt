-- ===== src/Documents/Repository.antt =====
-- src/eka/modules/documents/infrastructure: the rows of the `documents` table, their constraints,
-- the mapping to and from the aggregate, and the repository over a session.
pub mod Rows
pub mod Reads
pub mod Saves
use eka_knowledge_assistant.Prelude.{
  ℕ, zero, suc, ◌+◌, ◌-◌, ◌*◌, ◌/◌, ◌%◌, ◌^◌, ◌≤◌, ◌<◌, min, max, String, ◌≡◌, refl, sym, ap, ◌∙◌,
  subst, ◌≢◌, ◌↔◌, ◌⊎◌, inl, inr, Bool, true, false, ◌&&◌, ◌||◌, not, Option, none, some, List, [],
  ◌∷◌, ◌++◌, map, arith, ltb, leb, ◌==◌, if◌then◌else◌, ltb→lt, lt→ltb, leb→le, le→leb, ==_iff,
  ==_refl, Bool-cases, Option-cases, &&-eq-true, length, is_empty, take, drop, get_elem?, filter,
  any, find?, All, length-append, length-take, length-drop, length-map, take-append-drop,
  All-append, All-append_left, All-append_right, All-take, All-drop, All-filter, All-of, All-mono,
  filter-All, Text, codes, text_eq, is_space, lstrip, rstrip, strip, is_blank, text_eq→eq,
  text_eq_refl, text_eq_iff, length-lstrip-le, length-rstrip-le, length-strip-le, strip_idem,
  rstrip-strip, strip-eq-nil_iff, ℤ, pos, negsuc, pos_part, neg_part, ltb_ℤ, Exception,
  validation_error, invariant_violation, state_transition_error, not_found_error, conflict_error,
  authentication_error, content_missing_error, value_error, key_error, integrity_error, data_error,
  multiple_results_found, other_exception, Result, ok, err, Action, and_then, map_result,
  bind_result, ◌>>=◌, ◌>>◌, pure, raise, lift, gets, modify,
}
use eka_knowledge_assistant.Shared.Pagination.{SortDirection, desc, Sort, PageRequest, Page}
use eka_knowledge_assistant.Shared.Transaction.{Session, reading, writing, scalar_one_or_none}
use eka_knowledge_assistant.Documents.Document.{
  Uuid, Instant, SourceType, upload, confluence, sharepoint, jira, notion, google_drive,
  DocumentStatus, registered, ingesting, indexed, failed, deleted, ContentHash, Title, Document,
}
use eka_knowledge_assistant.Documents.Document as D

-- DocumentModel
pub record DocumentModel : Type 0 where
  pub id : Uuid
  pub tenant_id : Uuid
  pub collection_id : Uuid
  pub title : Text
  pub source_type : Text
  pub source_uri : Text
  pub content_hash : Text
  pub status : Text
  pub version : ℕ
  pub created_at : Instant
  pub updated_at : Instant

abbrev pub Table : Type 0
Table = List DocumentModel

-- The primary key and uq_documents_tenant_hash, which counts deleted rows too.
unfoldable pub clashes : DocumentModel → DocumentModel → Bool
clashes a b = a.id == b.id || (a.tenant_id == b.tenant_id && text_eq a.content_hash b.content_hash)

unfoldable pub is_unique : Table → Bool
is_unique [] = true
is_unique (r ∷ t) = not (any (clashes r) t) && is_unique t

-- The lengths of the String columns.
unfoldable pub fits_columns : DocumentModel → Bool
fits_columns r =
    leb (length r.title) 512
    && leb (length r.source_type) 32
    && leb (length r.source_uri) 2048
    && leb (length r.content_hash) 64
    && leb (length r.status) 16

unfoldable pub check_table : Table → Result (Unit {0})
check_table t =
    if any (λ r. not (fits_columns r)) t
    then err data_error
    else if is_unique t
    then ok tt
    else err integrity_error

-- The values of the string enumerations, and the lookup `DocumentStatus(value)`.
unfoldable pub status_value : DocumentStatus → Text
status_value registered = codes "registered"
status_value ingesting = codes "ingesting"
status_value indexed = codes "indexed"
status_value failed = codes "failed"
status_value deleted = codes "deleted"

unfoldable pub parse_status : Text → Result DocumentStatus
parse_status s =
    if text_eq s (codes "registered")
    then ok registered
    else if text_eq s (codes "ingesting")
    then ok ingesting
    else if text_eq s (codes "indexed")
    then ok indexed
    else if text_eq s (codes "failed")
    then ok failed
    else if text_eq s (codes "deleted")
    then ok deleted
    else err value_error

unfoldable pub source_value : SourceType → Text
source_value upload = codes "upload"
source_value confluence = codes "confluence"
source_value sharepoint = codes "sharepoint"
source_value jira = codes "jira"
source_value notion = codes "notion"
source_value google_drive = codes "google_drive"

unfoldable pub parse_source : Text → Result SourceType
parse_source s =
    if text_eq s (codes "upload")
    then ok upload
    else if text_eq s (codes "confluence")
    then ok confluence
    else if text_eq s (codes "sharepoint")
    then ok sharepoint
    else if text_eq s (codes "jira")
    then ok jira
    else if text_eq s (codes "notion")
    then ok notion
    else if text_eq s (codes "google_drive")
    then ok google_drive
    else err value_error

abbrev pub build : DocumentModel → Title → SourceType → ContentHash → DocumentStatus → Document
build m t source hash status = record {
  id = m.id;
  tenant_id = m.tenant_id;
  collection_id = m.collection_id;
  title = t;
  source_type = source;
  source_uri = m.source_uri;
  content_hash = hash;
  status = status;
  version = m.version;
  created_at = m.created_at;
  updated_at = m.updated_at;
  events = [];
}

-- The value objects are built from left to right, and the first failure is raised.
unfoldable pub to_domain : DocumentModel → Result Document
to_domain m = bind_result (D.title m.title) λ t. bind_result (parse_source m.source_type) λ source.
    bind_result (D.content_hash m.content_hash)
      λ hash. bind_result (parse_status m.status) λ status. ok (build m t source hash status)

unfoldable pub apply : Uuid → Document → DocumentModel
apply id doc = record {
  id = id;
  tenant_id = doc.tenant_id;
  collection_id = doc.collection_id;
  title = doc.title.value;
  source_type = source_value doc.source_type;
  source_uri = doc.source_uri;
  content_hash = doc.content_hash.value;
  status = status_value doc.status;
  version = doc.version;
  created_at = doc.created_at;
  updated_at = doc.updated_at;
}

abbrev pub DocumentAction : Type 0 → Type 0
DocumentAction A = Action (Session Table) A

unfoldable pub add : Document → DocumentAction (Unit {0})
add doc = writing (λ t. t ++ apply doc.id doc ∷ [])

-- session.get(DocumentModel, id), then the assignment of every other column.
unfoldable pub upsert : Document → Table → Table
upsert doc [] = apply doc.id doc ∷ []
upsert doc (r ∷ t) = if r.id == doc.id then apply r.id doc ∷ t else r ∷ upsert doc t

unfoldable pub save : Document → DocumentAction (Unit {0})
save doc = writing (upsert doc)

unfoldable pub is_live : DocumentModel → Bool
is_live r = not (text_eq r.status (codes "deleted"))

abbrev pub to_optional_domain : Option DocumentModel → Result (Option Document)
to_optional_domain none = ok none
to_optional_domain (some m) = map_result some (to_domain m)

unfoldable pub get_query : Uuid → Uuid → DocumentModel → Bool
get_query tenant_id document_id r = r.id == document_id && (r.tenant_id == tenant_id && is_live r)

unfoldable pub get : Uuid → Uuid → DocumentAction (Option Document)
get tenant_id document_id = reading λ t.
    bind_result (scalar_one_or_none (filter (get_query tenant_id document_id) t)) to_optional_domain

unfoldable pub hash_query : Uuid → ContentHash → DocumentModel → Bool
hash_query tenant_id hash r =
    r.tenant_id == tenant_id && (text_eq r.content_hash hash.value && is_live r)

unfoldable pub find_by_content_hash : Uuid → ContentHash → DocumentAction (Option Document)
find_by_content_hash tenant_id hash =
    reading λ t.
      bind_result (scalar_one_or_none (filter (hash_query tenant_id hash) t)) to_optional_domain
