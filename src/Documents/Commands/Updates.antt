-- ===== src/Documents/Commands/Updates.antt =====
-- What deletion and the lifecycle service do on every path, and what the queries find afterwards.
use eka_knowledge_assistant.Prelude.{
  ◌≡◌, refl, Option, none, some, filter, Exception, not_found_error, Result, ok, err, Action,
  and_then, bind_result,
}
use eka_knowledge_assistant.Shared.Transaction.{Session, scalar_one_or_none, commit-ok, commit-err}
use eka_knowledge_assistant.Documents.Document.{Uuid, Document}
use eka_knowledge_assistant.Documents.Repository.{
  Table, check_table, upsert, get_query, to_optional_domain, save,
}
use eka_knowledge_assistant.Documents.Commands.{save_changed, update_document}

-- What `get` returns on a table.
abbrev pub stored_document : Uuid → Uuid → Table → Result (Option Document)
stored_document tenant_id document_id t =
    bind_result (scalar_one_or_none (filter (get_query tenant_id document_id) t)) to_optional_domain

module _ (method : Action Document (Unit {0})) (tenant_id document_id : Uuid) (t : Table) where
  pub data Updated (r : Result (Unit {0})) (t' : Table) : Type 0 where
    missing :
        stored_document tenant_id document_id t ≡ ok none
        → r ≡ err (not_found_error "document not found")
        → t' ≡ t
        → Updated r t'
    raised :
        (doc : Document) (e : Exception)
        → stored_document tenant_id document_id t ≡ ok (some doc)
        → (method doc).0 ≡ err e
        → r ≡ err e
        → t' ≡ t
        → Updated r t'
    refused : (e : Exception) → r ≡ err e → t' ≡ t → Updated r t'
    saved :
        (doc : Document)
        → stored_document tenant_id document_id t ≡ ok (some doc)
        → (method doc).0 ≡ ok tt
        → check_table (upsert (method doc).1 t) ≡ ok tt
        → r ≡ ok tt
        → t' ≡ upsert (method doc).1 t
        → Updated r t'

  abbrev session : Session Table
  session = record { stored = t; pending = t }

  save_changed-Updated :
      (doc : Document) (outcome : Result (Unit {0})) (checked : Result (Unit {0}))
      → stored_document tenant_id document_id t ≡ ok (some doc)
      → (method doc).0 ≡ outcome
      → check_table (upsert (method doc).1 t) ≡ checked
      → let s = save_changed method (some doc) session in Updated s.0 s.1.stored
  unfolding save_changed save
  save_changed-Updated doc (err e) checked found p c = simp p (raised doc e found p refl refl)
  save_changed-Updated doc (ok u) (err e) found p c =
      simp (p, commit-err check_table _ c) (refused e refl refl)
  save_changed-Updated doc (ok u) (ok v) found p c =
      simp (p, commit-ok check_table _ c) (saved doc found p c refl refl)

  found-Updated :
      (found : Result (Option Document))
      → stored_document tenant_id document_id t ≡ found
      → let s = and_then found (save_changed method) session in Updated s.0 s.1.stored
  found-Updated (err e) h = refused e refl refl
  found-Updated (ok none) h = unfold save_changed in missing h refl refl
  found-Updated (ok (some doc)) h = save_changed-Updated doc _ _ h refl refl

  pub update_document-Updated :
      Updated
        (update_document method tenant_id document_id t).0
        (update_document method tenant_id document_id t).1
  unfolding update_document
  update_document-Updated = found-Updated (stored_document tenant_id document_id t) refl
