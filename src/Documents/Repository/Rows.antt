-- ===== src/Documents/Repository/Rows.antt =====
-- Laws of the rows: the mapping loses nothing but the events, and the constraints of the table.
use eka_knowledge_assistant.Prelude.{
  ◌≡◌, refl, subst, [], arith, Text, codes, text_eq→eq, strip_idem, ok, bind_result-eq-ok,
}
use eka_knowledge_assistant.Documents.Document.{
  Uuid, SourceType, upload, confluence, sharepoint, jira, notion, google_drive, DocumentStatus,
  registered, ingesting, indexed, failed, deleted, ContentHash, Title, Document,
}
use eka_knowledge_assistant.Documents.Document as D
use eka_knowledge_assistant.Documents.Repository.{
  DocumentModel, status_value, parse_status, source_value, parse_source, to_domain, build, apply,
}

parse-status_value : (s : DocumentStatus) → parse_status (status_value s) ≡ ok s
unfolding parse_status status_value
parse-status_value registered = refl
parse-status_value ingesting = refl
parse-status_value indexed = refl
parse-status_value failed = refl
parse-status_value deleted = refl

parse-source_value : (s : SourceType) → parse_source (source_value s) ≡ ok s
unfolding parse_source source_value
parse-source_value upload = refl
parse-source_value confluence = refl
parse-source_value sharepoint = refl
parse-source_value jira = refl
parse-source_value notion = refl
parse-source_value google_drive = refl

-- The value objects hold what their own guards accept.
pub record IsValid (d : Document) : Type 0 where
  pub valid_title : D.title d.title.value ≡ ok d.title
  pub valid_hash : D.content_hash d.content_hash.value ≡ ok d.content_hash

abbrev pub without_events : Document → Document
without_events d = record d { events = [] }

-- Writing a valid document to a row and reading the row back gives the document, with no events.
pub to_domain-apply : (d : Document) → IsValid d → to_domain (apply d.id d) ≡ ok (without_events d)
unfolding to_domain apply
to_domain-apply d v =
    rw (v.valid_title)
      (rw (parse-source_value d.source_type) (rw (v.valid_hash) (rw (parse-status_value d.status))))

-- What a row that loads gives.
pub record Loaded (m : DocumentModel) (d : Document) : Type 0 where
  pub loaded_id : d.id ≡ m.id
  pub loaded_tenant : d.tenant_id ≡ m.tenant_id
  pub loaded_collection : d.collection_id ≡ m.collection_id
  pub loaded_uri : d.source_uri ≡ m.source_uri
  pub loaded_valid : IsValid d
  pub loaded_hash : d.content_hash.value ≡ m.content_hash
  pub loaded_status : status_value d.status ≡ m.status
  pub loaded_events : d.events ≡ []

status_value-parse : (s : Text) (x : DocumentStatus) → parse_status s ≡ ok x → status_value x ≡ s
unfolding parse_status status_value
status_value-parse s x h = ground (
  arith,
  text_eq→eq s (codes "registered"),
  text_eq→eq s (codes "ingesting"),
  text_eq→eq s (codes "indexed"),
  text_eq→eq s (codes "failed"),
  text_eq→eq s (codes "deleted"),
)

pub title-valid : (s : Text) (t : Title) → D.title s ≡ ok t → D.title t.value ≡ ok t
unfolding D.title
title-valid s t h = ground (arith, strip_idem s)

pub hash-valid :
    (s : Text) (c : ContentHash)
    → D.content_hash s ≡ ok c
    → (c.value ≡ s) × (D.content_hash c.value ≡ ok c)
unfolding D.content_hash
hash-valid s c h = ground arith

pub ok-injective {ℓ} : {A : Type ℓ} {a b : A} → ok a ≡ ok b → a ≡ b
ok-injective h = cc

build-Loaded :
    (m : DocumentModel) (t : Title) (source : SourceType) (hash : ContentHash) (st : DocumentStatus)
    → D.title m.title ≡ ok t
    → D.content_hash m.content_hash ≡ ok hash
    → parse_status m.status ≡ ok st
    → Loaded m (build m t source hash st)
build-Loaded m t source hash st ht hh hst = record {
  loaded_id = refl;
  loaded_tenant = refl;
  loaded_collection = refl;
  loaded_uri = refl;
  loaded_valid = record {
    valid_title = title-valid m.title t ht;
    valid_hash = (hash-valid m.content_hash hash hh).1;
  };
  loaded_hash = (hash-valid m.content_hash hash hh).0;
  loaded_status = status_value-parse m.status st hst;
  loaded_events = refl;
}

pub to_domain-Loaded : (m : DocumentModel) (d : Document) → to_domain m ≡ ok d → Loaded m d
unfolding to_domain
to_domain-Loaded m d h =
    let (t, ht, h₁) = bind_result-eq-ok (D.title m.title) _ h in
    let (src, hs, h₂) = bind_result-eq-ok (parse_source m.source_type) _ h₁ in
    let (hash, hh, h₃) = bind_result-eq-ok (D.content_hash m.content_hash) _ h₂ in
    let (st, hst, h₄) = bind_result-eq-ok (parse_status m.status) _ h₃ in
    subst (Loaded m) (ok-injective h₄) (build-Loaded m t src hash st ht hh hst)
