-- ===== src/Documents/Commands/ReadBack.antt =====
-- Reading back what the commands wrote: a transition is seen by the next query.
use eka_knowledge_assistant.Prelude.{
  ◌≡◌, refl, sym, ap, ◌∙◌, subst, inl, inr, true, false, Option, none, some, [], arith,
  if◌then◌else◌, ==_iff, Bool-cases, &&-eq-true, filter, All, filter-All, codes, text_eq, Result,
  ok, bind_result-eq-ok, map_result-eq-ok,
}
use eka_knowledge_assistant.Shared.Transaction.{scalar_one_or_none}
use eka_knowledge_assistant.Documents.Document.{
  Uuid, Instant, EventBase, DocumentStatus, registered, ingesting, indexed, failed, deleted,
  status_eq, ContentHash, Title, Document, record_event,
}
use eka_knowledge_assistant.Documents.Document as D
use eka_knowledge_assistant.Documents.Document.Lifecycle.{Edge, transition_lem}
use eka_knowledge_assistant.Documents.Repository.{
  DocumentModel, Table, is_unique, to_domain, upsert, is_live, get_query, to_optional_domain,
  status_value,
}
use eka_knowledge_assistant.Documents.Repository.Rows.{
  IsValid, to_domain-apply, without_events, to_domain-Loaded,
}
use eka_knowledge_assistant.Documents.Repository.Reads.{
  scalar-eq-some, filter-upsert, check_table-ok,
}
use eka_knowledge_assistant.Documents.Commands.{update_document}
use eka_knowledge_assistant.Documents.Commands.Updates.{
  stored_document, missing, raised, refused, saved, update_document-Updated,
}

-- What is known of a document that `get` returned.
pub record IsFound (tenant_id document_id : Uuid) (doc : Document) : Type 0 where
  pub same_id : doc.id ≡ document_id
  pub same_tenant : doc.tenant_id ≡ tenant_id
  pub found_valid : IsValid doc
  pub found_live : status_eq doc.status deleted ≡ false
  pub no_events : doc.events ≡ []

pub live_status :
    (m : DocumentModel) (s : DocumentStatus)
    → is_live m ≡ true
    → status_value s ≡ m.status
    → status_eq s deleted ≡ false
unfolding is_live status_value
live_status m deleted h e = absurd (ground (arith, ap (λ x. text_eq x (codes "deleted")) e))
live_status m _ h e = refl

model_of_found :
    (tenant_id document_id : Uuid) (t : Table) (doc : Document)
    → stored_document tenant_id document_id t ≡ ok (some doc)
    → (m : DocumentModel) × (get_query tenant_id document_id m ≡ true) × (to_domain m ≡ ok doc)
model_of_found tenant_id document_id t doc h =
    let rows = filter (get_query tenant_id document_id) t in
    let (found, p, q) = bind_result-eq-ok (scalar_one_or_none rows) to_optional_domain h in
    go found p q
  where
    go :
        (found : Option DocumentModel)
        → scalar_one_or_none (filter (get_query tenant_id document_id) t) ≡ ok found
        → to_optional_domain found ≡ ok (some doc)
        → (m : DocumentModel) × (get_query tenant_id document_id m ≡ true) × (to_domain m ≡ ok doc)
    go none p q = absurd (ground arith)
    go (some m) p q =
        let one = scalar-eq-some _ m p in
        let passed =
          subst (All (λ r. get_query tenant_id document_id r ≡ true)) one
            (filter-All (get_query tenant_id document_id) t) in
        let (d, l, e) = map_result-eq-ok some (to_domain m) q in
        (m, passed.0, l ∙ ap ok (ground arith))

pub stored_document-IsFound :
    (tenant_id document_id : Uuid) (t : Table) (doc : Document)
    → stored_document tenant_id document_id t ≡ ok (some doc)
    → IsFound tenant_id document_id doc
unfolding get_query
stored_document-IsFound tenant_id document_id t doc h =
    let (m, q, l) = model_of_found tenant_id document_id t doc h in
    let loaded = to_domain-Loaded m doc l in
    let (i, rest) = &&-eq-true _ _ q in
    let (te, live) = &&-eq-true _ _ rest in
    record {
      same_id = loaded.loaded_id ∙ (==_iff m.id document_id).0 i;
      same_tenant = loaded.loaded_tenant ∙ (==_iff m.tenant_id tenant_id).0 te;
      found_valid = loaded.loaded_valid;
      found_live = live_status m doc.status live loaded.loaded_status;
      no_events = loaded.loaded_events;
    }

-- What the aggregate's methods leave alone and the look-up reads.
pub record IsUpdateOf (doc new : Document) : Type 0 where
  pub kept_id : new.id ≡ doc.id
  pub kept_tenant : new.tenant_id ≡ doc.tenant_id
  pub kept_title : new.title ≡ doc.title
  pub kept_hash : new.content_hash ≡ doc.content_hash

stored_document-upsert_self :
    (t : Table) (new : Document)
    → is_unique t ≡ true
    → IsValid new
    → stored_document new.tenant_id new.id (upsert new t)
      ≡ (if status_eq new.status deleted then ok none else ok (some (without_events new)))
unfolding scalar_one_or_none
stored_document-upsert_self t new unique valid =
    rw (filter-upsert new t unique) (elim (Bool-cases (status_eq new.status deleted)) [
      | inl e ↦ rw e
      | inr e ↦ rw e (rw (to_domain-apply new valid))
    ])

pub stored_document-upsert :
    (tenant_id document_id : Uuid) (t : Table) (doc new : Document)
    → is_unique t ≡ true
    → IsFound tenant_id document_id doc
    → IsUpdateOf doc new
    → stored_document tenant_id document_id (upsert new t)
      ≡ (if status_eq new.status deleted then ok none else ok (some (without_events new)))
stored_document-upsert tenant_id document_id t doc new unique found kept =
    subst (λ x. stored_document x document_id (upsert new t) ≡ result)
      (kept.kept_tenant ∙ found.same_tenant)
      (subst (λ x. stored_document new.tenant_id x (upsert new t) ≡ result)
        (kept.kept_id ∙ found.same_id) (stored_document-upsert_self t new unique valid))
  where
    result : Result (Option Document)
    result = if status_eq new.status deleted then ok none else ok (some (without_events new))

    valid : IsValid new
    valid = record {
      valid_title = rw kept.kept_title found.found_valid.valid_title;
      valid_hash = rw kept.kept_hash found.found_valid.valid_hash;
    }

transition-IsUpdateOf :
    (target : DocumentStatus) (now : Instant) (doc : Document)
    → IsUpdateOf doc (D.transition target now doc).1
transition-IsUpdateOf target now doc = elim (transition_lem target now doc) [
  | inl (_, e) ↦
      rw e (record { kept_id = refl; kept_tenant = refl; kept_title = refl; kept_hash = refl })
  | inr (_, e) ↦
      rw e (record { kept_id = refl; kept_tenant = refl; kept_title = refl; kept_hash = refl })
]

module _ (target : DocumentStatus) (now : Instant) (doc : Document) where
  abbrev moved : Document
  moved = record doc { status = target; updated_at = now }

  transition-done :
      (D.transition target now doc).0 ≡ ok tt
      → Edge doc.status target × ((D.transition target now doc).1 ≡ moved)
  transition-done q = elim (transition_lem target now doc) [
    | inl (edge, e) ↦ (edge, ap (λ x. x.1) e)
    | inr (_, e) ↦ absurd (ground arith)
  ]

  stored_document-transition :
      (tenant_id document_id : Uuid) (t : Table)
      → is_unique t ≡ true
      → status_eq target deleted ≡ false
      → stored_document tenant_id document_id t ≡ ok (some doc)
      → (D.transition target now doc).0 ≡ ok tt
      → stored_document tenant_id document_id (upsert (D.transition target now doc).1 t)
        ≡ ok (some moved)
  stored_document-transition tenant_id document_id t unique live p q =
      let found = stored_document-IsFound tenant_id document_id t doc p in
      stored_document-upsert tenant_id document_id t doc _ unique found
        (transition-IsUpdateOf target now doc)
      ∙ rw (transition-done q).1
          (rw live (ap (λ e. ok (some (record moved { events = e }))) (sym found.no_events)))

-- On a table without clashing rows, a transition to a status other than DELETED that the lifecycle
-- service reports as done is seen by the next look-up: the stored
-- document stood at the start of an edge, and the same document is now found at its end, changed in
-- its status and the time of its update alone. The table stays free of clashes.
pub transition_read_back :
    (target : DocumentStatus) (now : Instant) (tenant_id document_id : Uuid) (t : Table)
    → is_unique t ≡ true
    → status_eq target deleted ≡ false
    → (update_document (D.transition target now) tenant_id document_id t).0 ≡ ok tt
    → (doc : Document) × (stored_document tenant_id document_id t ≡ ok (some doc))
      × Edge doc.status target
      × (stored_document tenant_id document_id
            (update_document (D.transition target now) tenant_id document_id t).1
          ≡ ok (some (record doc { status = target; updated_at = now })))
      × (is_unique (update_document (D.transition target now) tenant_id document_id t).1 ≡ true)
transition_read_back target now tenant_id document_id t unique live h =
    elim (update_document-Updated (D.transition target now) tenant_id document_id t) [
      | missing p r same ↦ absurd (ground arith)
      | raised doc e p q r same ↦ absurd (ground arith)
      | refused e r same ↦ absurd (ground arith)
      | saved doc p q c r same ↦ (
        doc,
        p,
        (transition-done target now doc q).0,
        rw same (stored_document-transition target now doc tenant_id document_id t unique live p q),
        rw same (check_table-ok _ c),
      )
    ]
