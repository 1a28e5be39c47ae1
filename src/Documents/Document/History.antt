-- ===== src/Documents/Document/History.antt =====
-- What a whole life of a document keeps: deletion is final, identity never changes, and the events
-- recorded since the registration tell the document's content, version and deletion.
use eka_knowledge_assistant.Prelude.{
  ℕ, ◌+◌, ◌≤◌, ◌≡◌, refl, sym, ap, ◌∙◌, ◌≢◌, ◌⊎◌, inl, inr, Bool, true, false, List, [], ◌∷◌, ◌++◌,
  arith, Text,
}
use mathlib.Core.List.{foldl, foldl-append}
use eka_knowledge_assistant.Documents.Document.{
  Uuid, Instant, SourceType, DocumentStatus, registered, ingesting, indexed, failed, deleted,
  status_eq, ContentHash, Title, EventBase, DomainEvent, document_registered,
  document_content_changed, document_deleted, Document, register,
}
use eka_knowledge_assistant.Documents.Document.Lifecycle.{
  Edge, Step, Reach, here, next, Outcome, unchanged, moved, changed, removed, Step→Outcome,
}

-- A status changes along an edge of the lifecycle, or back to REGISTERED by new content of a
-- document that is not deleted.
pub Step-Edge :
    {d e : Document}
    → Step d e
    → (e.status ≡ d.status)
      ⊎ Edge d.status e.status
      ⊎ ((d.status ≢ deleted) × (e.status ≡ registered))
Step-Edge {d} {e} st = elim (Step→Outcome st) [
  | unchanged p ↦ inl (ap (λ x. x.status) p)
  | moved target now edge live p ↦ inr (inl (rw p edge))
  | changed hash now base live p ↦ inr (inr (live, ap (λ x. x.status) p))
  | removed now base edge p ↦ inr (inl (rw p edge))
]

Edge-ne-deleted : {s t : DocumentStatus} → Edge s t → s ≢ deleted
Edge-ne-deleted Edge.start_ingestion p = cc
Edge-ne-deleted _ p = cc

-- A deleted document stays as it is, whatever is called on it.
pub Reach-deleted : {d e : Document} → Reach d e → d.status ≡ deleted → e ≡ d
Reach-deleted here h = refl
Reach-deleted {d} (next {t = t} r st) h =
    let same = Reach-deleted r h in
    let gone = ap (λ x. x.status) same ∙ h in
    elim (Step→Outcome st) [
      | unchanged p ↦ p ∙ same
      | moved target now edge live p ↦ absurd (Edge-ne-deleted edge gone)
      | changed hash now base live p ↦ absurd (live gone)
      | removed now base edge p ↦ absurd (Edge-ne-deleted edge gone)
    ]

-- What an observer of the events knows of a document.
pub record View : Type 0 where
  pub hash : Text
  pub version : ℕ
  pub is_deleted : Bool

abbrev pub view : Document → View
view d = record {
  hash = d.content_hash.value;
  version = d.version;
  is_deleted = status_eq d.status deleted;
}

abbrev apply_event : View → DomainEvent → View
apply_event v (document_registered _ _ _ _ hash) = record {
  hash = hash;
  version = 1;
  is_deleted = false;
}
apply_event v (document_content_changed _ _ _ hash version) = record v {
  hash = hash;
  version = version;
}
apply_event v (document_deleted _ _ _) = record v { is_deleted = true }

abbrev pub replay : List DomainEvent → View
replay = foldl apply_event (record { hash = []; version = 0; is_deleted = false })

replay-append :
    (events : List DomainEvent) (event : DomainEvent)
    → replay (events ++ event ∷ []) ≡ apply_event (replay events) event
replay-append events event = rw foldl-append

live-view : (s : DocumentStatus) → s ≢ deleted → status_eq s deleted ≡ false
live-view registered h = refl
live-view ingesting h = refl
live-view indexed h = refl
live-view failed h = refl
live-view deleted h = absurd (h refl)

Outcome-replay :
    {d e : Document} → Outcome d e → replay d.events ≡ view d → replay e.events ≡ view e
Outcome-replay (unchanged p) h = rw p h
Outcome-replay {d} (moved target now edge live p) h = rw p (
    h
    ∙ ap (λ b. record { hash = d.content_hash.value; version = d.version; is_deleted = b })
        (live-view d.status (Edge-ne-deleted edge) ∙ sym (live-view target live)))
Outcome-replay {d} (changed hash now base live p) h = rw p (
    replay-append d.events _
    ∙ ap (λ (v : View). record v { hash = hash.value; version = d.version + 1 }) h
    ∙ ap (λ b. record { hash = hash.value; version = d.version + 1; is_deleted = b })
        (live-view d.status live))
Outcome-replay {d} (removed now base edge p) h =
    rw p (replay-append d.events _ ∙ ap (λ (v : View). record v { is_deleted = true }) h)

module _ (id : Uuid) (now : Instant) (base : EventBase) (tenant_id collection_id : Uuid) (t : Title)
    (source_type : SourceType) (uri : Text) (hash : ContentHash) where
  -- After any calls on a registered document, failing or not, its recorded events replay to its
  -- content hash, its version and whether it is deleted.
  pub Reach-replay :
      {d : Document}
      → Reach (register id now base tenant_id collection_id t source_type uri hash) d
      → replay d.events ≡ view d
  unfolding register
  Reach-replay here = refl
  Reach-replay (next r st) = Outcome-replay (Step→Outcome st) (Reach-replay r)

-- What no operation touches, and the order of the versions.
pub record IsSuccessor (d e : Document) : Type 0 where
  pub same_id : e.id ≡ d.id
  pub same_tenant : e.tenant_id ≡ d.tenant_id
  pub same_collection : e.collection_id ≡ d.collection_id
  pub same_title : e.title ≡ d.title
  pub same_created : e.created_at ≡ d.created_at
  pub newer : d.version ≤ e.version

Outcome-IsSuccessor : {d e : Document} → Outcome d e → IsSuccessor d e
Outcome-IsSuccessor (unchanged p) = ground arith
Outcome-IsSuccessor (moved _ _ _ _ p) = ground arith
Outcome-IsSuccessor (changed _ _ _ _ p) = ground arith
Outcome-IsSuccessor (removed _ _ _ p) = ground arith

IsSuccessor-trans : {d e f : Document} → IsSuccessor d e → IsSuccessor e f → IsSuccessor d f
IsSuccessor-trans h k = record {
  same_id = k.same_id ∙ h.same_id;
  same_tenant = k.same_tenant ∙ h.same_tenant;
  same_collection = k.same_collection ∙ h.same_collection;
  same_title = k.same_title ∙ h.same_title;
  same_created = k.same_created ∙ h.same_created;
  newer = omega arith;
}

-- Whatever is called on a document, its identity, tenant, collection, title and time of creation
-- stay, and its version never falls.
pub Reach-IsSuccessor : {d e : Document} → Reach d e → IsSuccessor d e
Reach-IsSuccessor {d} here = Outcome-IsSuccessor {d = d} (unchanged refl)
Reach-IsSuccessor (next r st) =
    IsSuccessor-trans (Reach-IsSuccessor r) (Outcome-IsSuccessor (Step→Outcome st))
