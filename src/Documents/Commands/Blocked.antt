-- ===== src/Documents/Commands/Blocked.antt =====
-- A deleted document keeps its content hash in uq_documents_tenant_hash, and the look-up of the
-- handler does not see it: the content cannot be registered again.
use eka_knowledge_assistant.Prelude.{
  ◌≡◌, sym, ap, ◌∙◌, true, false, Option, none, some, [], ◌∷◌, ◌++◌, arith, ==_refl, filter, All,
  All-append_right, filter-append, filter-eq-nil, text_eq, text_eq_refl, text_eq_iff, Exception,
  Result, ok, err,
}
use eka_knowledge_assistant.Shared.Transaction.{scalar_one_or_none}
use eka_knowledge_assistant.Documents.Document.{Uuid, SourceType, ContentHash, Title, Document}
use eka_knowledge_assistant.Documents.Document as D
use eka_knowledge_assistant.Documents.Repository.{
  DocumentModel, Table, clashes, is_unique, apply, is_live, hash_query,
}
use eka_knowledge_assistant.Documents.Repository.Rows.{hash-valid}
use eka_knowledge_assistant.Documents.Repository.Reads.{is_unique_around, check_table-ok}
use eka_knowledge_assistant.Documents.Commands.{RegisterDocumentCommand, Fresh, register_handle}
use eka_knowledge_assistant.Documents.Commands.Register.{
  rejected, known, created, register_handle-Registered, known_document, new_row,
}

module _ (tenant_id : Uuid) (hash : ContentHash) (row : DocumentModel)
    (same_tenant : row.tenant_id ≡ tenant_id) (same_hash : row.content_hash ≡ hash.value) where
  query_dead : (r : DocumentModel) → is_live r ≡ false → hash_query tenant_id hash r ≡ false
  unfolding hash_query
  query_dead r dead = ground arith

  query_apart_before :
      (t : Table)
      → All (λ x. clashes x row ≡ false) t
      → All (λ x. hash_query tenant_id hash x ≡ false) t
  unfolding clashes hash_query
  query_apart_before [] h = tt
  query_apart_before (x ∷ t) h = (ground (arith, h.0), query_apart_before t h.1)

  query_apart_after :
      (t : Table)
      → All (λ x. clashes row x ≡ false) t
      → All (λ x. hash_query tenant_id hash x ≡ false) t
  unfolding clashes hash_query
  query_apart_after [] h = tt
  query_apart_after (x ∷ t) h = (
    ground (
      arith,
      h.0,
      text_eq_iff row.content_hash x.content_hash,
      text_eq_iff x.content_hash hash.value,
    ),
    query_apart_after t h.1,
  )

  query_finds_nothing :
      (xs ys : Table)
      → is_unique (xs ++ row ∷ ys) ≡ true
      → is_live row ≡ false
      → filter (hash_query tenant_id hash) (xs ++ row ∷ ys) ≡ []
  query_finds_nothing xs ys unique dead =
      let (before, after) = is_unique_around xs row ys unique in
      rw (filter-append (hash_query tenant_id hash) xs (row ∷ ys)) (
        rw (filter-eq-nil _ xs (query_apart_before xs before))
          (filter-eq-nil _ (row ∷ ys) (query_dead row dead, query_apart_after ys after)))

  known_document-blocked :
      (xs ys : Table)
      → is_unique (xs ++ row ∷ ys) ≡ true
      → is_live row ≡ false
      → known_document tenant_id hash (xs ++ row ∷ ys) ≡ ok none
  unfolding scalar_one_or_none
  known_document-blocked xs ys unique dead = rw (query_finds_nothing xs ys unique dead)

new_row-clashes :
    (fresh : Fresh) (command : RegisterDocumentCommand) (t : Title) (source : SourceType)
    (hash : ContentHash) (row : DocumentModel)
    → row.tenant_id ≡ command.tenant_id
    → row.content_hash ≡ hash.value
    → clashes row (new_row fresh command t source hash) ≡ true
unfolding clashes apply D.register
new_row-clashes fresh command t source hash row same_tenant same_hash = ground (
  arith,
  text_eq_refl hash.value,
  ap (λ x. text_eq x hash.value) same_hash,
  ==_refl command.tenant_id,
)

-- Where the rows do not clash and the row of the tenant with the command's hash is deleted, the command never succeeds and the
-- table stays as it is, whatever identifiers and instants it is given.
pub register_blocked :
    (fresh : Fresh) (command : RegisterDocumentCommand) (xs ys : Table) (row : DocumentModel)
    → is_unique (xs ++ row ∷ ys) ≡ true
    → row.tenant_id ≡ command.tenant_id
    → row.content_hash ≡ command.content_hash
    → is_live row ≡ false
    → (e : Exception) × (register_handle fresh command (xs ++ row ∷ ys) ≡ (err e, xs ++ row ∷ ys))
register_blocked fresh command xs ys row unique same_tenant same_hash dead =
    elim (register_handle-Registered fresh command (xs ++ row ∷ ys)) [
      | rejected e r same ↦ (e, λ i. (r i, same i))
      | known hash doc p q r same ↦ absurd (some_ne_none (sym q ∙ blocked hash p))
      | created hash ti source p q pt ps c r same ↦
          let apart = (is_unique_around (xs ++ row ∷ ys) _ [] (check_table-ok _ c)).0 in
          let free =
            (All-append_right (λ x. clashes x (new_row fresh command ti source hash) ≡ false) xs
              (row ∷ ys) apart).0 in
          let taken =
            new_row-clashes fresh command ti source hash row same_tenant (hashes hash p) in
          absurd (ground arith)
    ]
  where
    hashes :
        (hash : ContentHash)
        → D.content_hash command.content_hash ≡ ok hash
        → row.content_hash ≡ hash.value
    hashes hash p = same_hash ∙ sym (hash-valid command.content_hash hash p).0

    blocked :
        (hash : ContentHash)
        → D.content_hash command.content_hash ≡ ok hash
        → known_document command.tenant_id hash (xs ++ row ∷ ys) ≡ ok none
    blocked hash p =
        known_document-blocked command.tenant_id hash row same_tenant (hashes hash p) xs ys unique
          dead

    some_ne_none : {A : Type 0} {a : A} → ◌≡◌ {A = Result (Option A)} (ok (some a)) (ok none) → ⊥
    some_ne_none h = cc
