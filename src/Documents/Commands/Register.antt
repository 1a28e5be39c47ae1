-- ===== src/Documents/Commands/Register.antt =====
-- What registration does on every path, its idempotency, and the rows that stand in its way.
use eka_knowledge_assistant.Prelude.{
  ◌≡◌, refl, inl, inr, Option, none, some, [], ◌∷◌, ◌++◌, filter, Exception, Result, ok, err,
  and_then, bind_result, Result-cases,
}
use eka_knowledge_assistant.Shared.Transaction.{scalar_one_or_none, commit-ok, commit-err}
use eka_knowledge_assistant.Documents.Document.{Uuid, SourceType, ContentHash, Title, Document}
use eka_knowledge_assistant.Documents.Document as D
use eka_knowledge_assistant.Documents.Repository.{
  DocumentModel, Table, check_table, parse_source, apply, hash_query, to_optional_domain,
}
use eka_knowledge_assistant.Documents.Commands.{
  DocumentDto, from_aggregate, RegisterDocumentCommand, Fresh, register_new, register_handle,
  known_or_new,
}

-- The document that the command makes.
abbrev pub new_document :
    Fresh → RegisterDocumentCommand → Title → SourceType → ContentHash → Document
new_document fresh command t source hash =
    D.register fresh.id fresh.now fresh.base command.tenant_id command.collection_id t source
      command.source_uri hash

abbrev pub new_row :
    Fresh → RegisterDocumentCommand → Title → SourceType → ContentHash → DocumentModel
new_row fresh command t source hash =
    let doc = new_document fresh command t source hash in apply doc.id doc

abbrev pub known_document : Uuid → ContentHash → Table → Result (Option Document)
known_document tenant_id hash t =
    bind_result (scalar_one_or_none (filter (hash_query tenant_id hash) t)) to_optional_domain

pub data Registered (fresh : Fresh) (command : RegisterDocumentCommand) (t : Table)
    (r : Result DocumentDto) (t' : Table) : Type 0 where
  rejected : (e : Exception) → r ≡ err e → t' ≡ t → Registered fresh command t r t'
  known :
      (hash : ContentHash) (doc : Document)
      → D.content_hash command.content_hash ≡ ok hash
      → known_document command.tenant_id hash t ≡ ok (some doc)
      → r ≡ ok (from_aggregate doc)
      → t' ≡ t
      → Registered fresh command t r t'
  created :
      (hash : ContentHash) (ti : Title) (source : SourceType)
      → D.content_hash command.content_hash ≡ ok hash
      → known_document command.tenant_id hash t ≡ ok none
      → D.title command.title ≡ ok ti
      → parse_source command.source_type ≡ ok source
      → check_table (t ++ new_row fresh command ti source hash ∷ []) ≡ ok tt
      → r ≡ ok (from_aggregate (new_document fresh command ti source hash))
      → t' ≡ t ++ new_row fresh command ti source hash ∷ []
      → Registered fresh command t r t'

register_new-Registered :
    (fresh : Fresh) (command : RegisterDocumentCommand) (t : Table) (hash : ContentHash)
    → D.content_hash command.content_hash ≡ ok hash
    → known_document command.tenant_id hash t ≡ ok none
    → let s = register_new fresh command hash (record { stored = t; pending = t }) in
      Registered fresh command t s.0 s.1.stored
unfolding register_new
register_new-Registered fresh command t hash hh hn = elim (Result-cases (D.title command.title)) [
  | inr (e, p) ↦ simp p (rejected e refl refl)
  | inl (ti, p) ↦ elim (Result-cases (parse_source command.source_type)) [
    | inr (e, q) ↦ simp (p, q) (rejected e refl refl)
    | inl (source, q) ↦
        elim (Result-cases (check_table (t ++ new_row fresh command ti source hash ∷ []))) [
          | inr (e, c) ↦ simp (p, q, commit-err check_table _ c) (rejected e refl refl)
          | inl (done, c) ↦
              simp (p, q, commit-ok check_table _ c) (created hash ti source hh hn p q c refl refl)
        ]
  ]
]

known_or_new-Registered :
    (fresh : Fresh) (command : RegisterDocumentCommand) (t : Table) (hash : ContentHash)
    (found : Result (Option Document))
    → D.content_hash command.content_hash ≡ ok hash
    → known_document command.tenant_id hash t ≡ found
    → let s =
        and_then found (known_or_new fresh command hash) (record { stored = t; pending = t }) in
      Registered fresh command t s.0 s.1.stored
known_or_new-Registered fresh command t hash (ok (some doc)) hh h = known hash doc hh h refl refl
known_or_new-Registered fresh command t hash (ok none) hh h =
    register_new-Registered fresh command t hash hh h
known_or_new-Registered fresh command t hash (err e) hh h = rejected e refl refl

pub register_handle-Registered :
    (fresh : Fresh) (command : RegisterDocumentCommand) (t : Table)
    → Registered fresh command t
        (register_handle fresh command t).0
        (register_handle fresh command t).1
unfolding register_handle
register_handle-Registered fresh command t =
    elim (Result-cases (D.content_hash command.content_hash)) [
      | inr (e, p) ↦ simp p (rejected e refl refl)
      | inl (hash, p) ↦ simp p (
          known_or_new-Registered fresh command t hash (known_document command.tenant_id hash t) p
            refl)
    ]
