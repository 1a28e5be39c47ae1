-- ===== src/Documents/Document/Lifecycle.antt =====
-- The lifecycle of a document: the transition table, and what any sequence of the aggregate's
-- operations, failing or not, keeps.
use eka_knowledge_assistant.Prelude.{
  ◌+◌, ◌≡◌, refl, ap, ◌∙◌, ◌≢◌, ◌⊎◌, inl, inr, Bool, true, false, [], ◌∷◌, ◌++◌, arith, Bool-cases,
  any, text_eq, state_transition_error, ok, err, Action,
}
use eka_knowledge_assistant.Documents.Document.{
  document_content_changed, document_deleted, Instant, DocumentStatus, registered, ingesting,
  indexed, failed, deleted, status_eq, allowed_transitions, ContentHash, EventBase, Document,
  transition, mark_ingesting, mark_indexed, mark_failed, change_content, delete,
}

-- The lifecycle as the documentation draws it, edge by edge.
pub data Edge : DocumentStatus → DocumentStatus → Type 0 where
  start_ingestion : Edge registered ingesting
  finish_ingestion : Edge ingesting indexed
  fail_ingestion : Edge ingesting failed
  reingest_indexed : Edge indexed ingesting
  reingest_failed : Edge failed ingesting
  drop_registered : Edge registered deleted
  drop_ingesting : Edge ingesting deleted
  drop_indexed : Edge indexed deleted
  drop_failed : Edge failed deleted

abbrev pub allows : DocumentStatus → DocumentStatus → Bool
allows from to = any (status_eq to) (allowed_transitions from)

allows_sound : (from to : DocumentStatus) → allows from to ≡ true → Edge from to
unfolding allowed_transitions
allows_sound registered ingesting h = start_ingestion
allows_sound registered deleted h = drop_registered
allows_sound ingesting indexed h = finish_ingestion
allows_sound ingesting failed h = fail_ingestion
allows_sound ingesting deleted h = drop_ingesting
allows_sound indexed ingesting h = reingest_indexed
allows_sound indexed deleted h = drop_indexed
allows_sound failed ingesting h = reingest_failed
allows_sound failed deleted h = drop_failed
allows_sound _ _ h = absurd (ground arith)

pub allows_complete : {from to : DocumentStatus} → Edge from to → allows from to ≡ true
unfolding allowed_transitions
allows_complete start_ingestion = refl
allows_complete _ = refl

-- A transition succeeds exactly along an edge of the lifecycle. It then sets the status and the
-- time of the update and nothing else; otherwise it raises StateTransitionError and changes nothing.
pub transition_lem :
    (target : DocumentStatus) (now : Instant) (doc : Document)
    → (Edge doc.status target
        × (transition target now doc ≡ (ok tt, record doc { status = target; updated_at = now })))
      ⊎ (¬ Edge doc.status target
          × (transition target now doc
              ≡ (err (state_transition_error "cannot move document"), doc)))
unfolding transition
transition_lem target now doc = elim (Bool-cases (allows doc.status target)) [
  | inl e ↦ inl (allows_sound doc.status target e, rw e)
  | inr e ↦ inr (λ edge. cc (allows_complete edge, e), rw e)
]

-- A call of one of the aggregate's operations.
pub data Call : Type 0 where
  start finish fail : Instant → Call
  change : ContentHash → Instant → EventBase → Call
  remove : Instant → EventBase → Call

unfoldable pub operation : Call → Action Document (Unit {0})
unfolding mark_ingesting mark_indexed mark_failed change_content delete
operation (start now) = mark_ingesting now
operation (finish now) = mark_indexed now
operation (fail now) = mark_failed now
operation (change hash now base) = change_content hash now base
operation (remove now base) = delete now base

-- One call, whether it raises or not, and any number of calls.
pub data Step (d e : Document) : Type 0 where
  step : (c : Call) → e ≡ (operation c d).1 → Step d e

pub data Reach (s : Document) : Document → Type 0 where
  here : Reach s s
  next : {t u : Document} → Reach s t → Step t u → Reach s u

-- What one call can do to a document.
pub data Outcome (d e : Document) : Type 0 where
  unchanged : e ≡ d → Outcome d e
  moved :
      (target : DocumentStatus) (now : Instant)
      → Edge d.status target
      → target ≢ deleted
      → e ≡ record d { status = target; updated_at = now }
      → Outcome d e
  changed :
      (hash : ContentHash) (now : Instant) (base : EventBase)
      → d.status ≢ deleted
      → e ≡ record d {
        content_hash = hash;
        version = d.version + 1;
        status = registered;
        updated_at = now;
        events =
            d.events
            ++ document_content_changed base d.id d.tenant_id hash.value (d.version + 1) ∷ [];
      }
      → Outcome d e
  removed :
      (now : Instant) (base : EventBase)
      → Edge d.status deleted
      → e ≡ record d {
        status = deleted;
        updated_at = now;
        events = d.events ++ document_deleted base d.id d.tenant_id ∷ [];
      }
      → Outcome d e

transition-Outcome :
    (target : DocumentStatus) (now : Instant) (d e : Document)
    → target ≢ deleted
    → e ≡ (transition target now d).1
    → Outcome d e
transition-Outcome target now d e live p = elim (transition_lem target now d) [
  | inl (edge, q) ↦ moved target now edge live (p ∙ ap (λ r. r.1) q)
  | inr (_, q) ↦ unchanged (p ∙ ap (λ r. r.1) q)
]

Edge-to_deleted : (s : DocumentStatus) → status_eq s deleted ≡ false → Edge s deleted
Edge-to_deleted registered h = drop_registered
Edge-to_deleted ingesting h = drop_ingesting
Edge-to_deleted indexed h = drop_indexed
Edge-to_deleted failed h = drop_failed
Edge-to_deleted deleted h = absurd (ground arith)

not_deleted : (s : DocumentStatus) → status_eq s deleted ≡ false → s ≢ deleted
not_deleted s h = λ p. ground arith

change-Outcome :
    (hash : ContentHash) (now : Instant) (base : EventBase) (d e : Document)
    → e ≡ (change_content hash now base d).1
    → Outcome d e
unfolding change_content
change-Outcome hash now base d e p = elim (Bool-cases (status_eq d.status deleted)) [
  | inl h ↦ unchanged (rw h at p)
  | inr h ↦ elim (Bool-cases (text_eq hash.value d.content_hash.value)) [
    | inl same ↦ unchanged (rw (h, same) at p)
    | inr other ↦ changed hash now base (not_deleted d.status h) (rw (h, other) at p)
  ]
]

remove-Outcome :
    (now : Instant) (base : EventBase) (d e : Document) → e ≡ (delete now base d).1 → Outcome d e
unfolding delete
remove-Outcome now base d e p = elim (Bool-cases (status_eq d.status deleted)) [
  | inl h ↦ unchanged (rw h at p)
  | inr h ↦
      let edge = Edge-to_deleted d.status h in
      removed now base edge (rw (h, allows_complete edge) at p)
]

pub Step→Outcome : {d e : Document} → Step d e → Outcome d e
unfolding operation
Step→Outcome {d} {e} (step (start now) p) = transition-Outcome ingesting now d e (λ q. cc) p
Step→Outcome {d} {e} (step (finish now) p) = transition-Outcome indexed now d e (λ q. cc) p
Step→Outcome {d} {e} (step (fail now) p) = transition-Outcome failed now d e (λ q. cc) p
Step→Outcome {d} {e} (step (change hash now base) p) = change-Outcome hash now base d e p
Step→Outcome {d} {e} (step (remove now base) p) = remove-Outcome now base d e p
