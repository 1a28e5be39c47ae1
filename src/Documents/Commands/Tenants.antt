-- ===== src/Documents/Commands/Tenants.antt =====
-- The commands of one tenant and the rows of the others.
use eka_knowledge_assistant.Prelude.{
  ◌≡◌, refl, sym, ap, ◌∙◌, subst, inl, inr, Bool, true, false, ◌&&◌, not, some, [], ◌∷◌, ◌++◌,
  arith, ◌==◌, ==_refl, Bool-cases, filter, any, All, All-mono, filter-eq-nil, any-eq-false, ok,
  Action,
}
use eka_knowledge_assistant.Shared.Transaction.{scalar_one_or_none}
use eka_knowledge_assistant.Documents.Document.{Uuid, Instant, EventBase, Document}
use eka_knowledge_assistant.Documents.Document as D
use eka_knowledge_assistant.Documents.Repository.{
  Table, DocumentModel, is_live, is_unique, apply, upsert, get_query,
}
use eka_knowledge_assistant.Documents.Commands.{
  Fresh, RegisterDocumentCommand, register_handle, update_document, DeleteDocumentCommand,
  delete_handle,
}
use eka_knowledge_assistant.Documents.Commands.Register.{
  rejected, known, created, register_handle-Registered,
}
use eka_knowledge_assistant.Documents.Commands.Updates.{
  missing, raised, refused, saved, stored_document, update_document-Updated,
}
use eka_knowledge_assistant.Documents.Repository.Saves.{sole_row}
use eka_knowledge_assistant.Documents.Commands.ReadBack.{stored_document-IsFound}

-- The rows of the other tenants.
abbrev pub others : Uuid → Table → Table
others tenant_id t = filter (λ r. not (r.tenant_id == tenant_id)) t

-- The row with the identifier would be of another tenant.
abbrev foreign : Uuid → Uuid → DocumentModel → Bool
foreign tenant_id document_id r = r.id == document_id && not (r.tenant_id == tenant_id)

-- The identifier of a live row of the tenant is of no other tenant's row.
owned_id :
    (tenant_id document_id : Uuid) (t : Table)
    → is_unique t ≡ true
    → any (get_query tenant_id document_id) t ≡ true
    → All (λ r. foreign tenant_id document_id r ≡ false) t
unfolding get_query
owned_id tenant_id document_id t u h =
    All-mono (λ r k. ground (arith, k)) t
      (sole_row (λ r. r.tenant_id == tenant_id && is_live r) document_id t u h)

has_row :
    (tenant_id document_id : Uuid) (t : Table) (doc : Document)
    → stored_document tenant_id document_id t ≡ ok (some doc)
    → any (get_query tenant_id document_id) t ≡ true
unfolding scalar_one_or_none
has_row tenant_id document_id t doc h =
    elim (Bool-cases (any (get_query tenant_id document_id) t)) [
      | inl e ↦ e
      | inr e ↦ absurd (
          ground (
            arith,
            rw (filter-eq-nil (get_query tenant_id document_id) t (any-eq-false _ t e)) at h,
          ))
    ]

others-upsert :
    (t : Table) (new : Document)
    → All (λ r. foreign new.tenant_id new.id r ≡ false) t
    → others new.tenant_id (upsert new t) ≡ others new.tenant_id t
unfolding upsert apply
others-upsert [] new h = rw (==_refl new.tenant_id) refl
others-upsert (r ∷ t) new h = elim (Bool-cases (r.id == new.id)) [
  | inl e ↦ rw e (
      rw (==_refl new.tenant_id)
        (let ours : (r.tenant_id == new.tenant_id) ≡ true = ground (arith, h.0, e) in rw ours refl))
  | inr e ↦ rw e (elim (Bool-cases (r.tenant_id == new.tenant_id)) [
    | inl f ↦ rw f (others-upsert t new h.1)
    | inr f ↦ rw f (ap (λ l. r ∷ l) (others-upsert t new h.1))
  ])
]

module _ (method : Action Document (Unit {0}))
    (keeps : (doc : Document)
      → ((method doc).1.id ≡ doc.id) × ((method doc).1.tenant_id ≡ doc.tenant_id))
    (tenant_id document_id : Uuid) (t : Table) where
  pub update_document-others :
      is_unique t ≡ true
      → others tenant_id (update_document method tenant_id document_id t).1 ≡ others tenant_id t
  update_document-others u = elim (update_document-Updated method tenant_id document_id t) [
    | missing p r same ↦ ap (others tenant_id) same
    | raised doc e p q r same ↦ ap (others tenant_id) same
    | refused e r same ↦ ap (others tenant_id) same
    | saved doc p q c r same ↦
        let found = stored_document-IsFound tenant_id document_id t doc p in
        let (i, k) = keeps doc in
        let new = (method doc).1 in
        let rows = owned_id tenant_id document_id t u (has_row tenant_id document_id t doc p) in
        ap (others tenant_id) same
        ∙ subst (λ x. others x (upsert new t) ≡ others x t) (k ∙ found.same_tenant)
            (others-upsert t new (
              subst (λ x. All (λ r. foreign x new.id r ≡ false) t) (sym (k ∙ found.same_tenant))
                (subst (λ x. All (λ r. foreign tenant_id x r ≡ false) t) (sym (i ∙ found.same_id))
                  rows)))
  ]

delete-keeps :
    (now : Instant) (base : EventBase) (doc : Document)
    → ((D.delete now base doc).1.id ≡ doc.id)
      × ((D.delete now base doc).1.tenant_id ≡ doc.tenant_id)
unfolding D.delete
delete-keeps now base doc = ground arith

pub delete_handle-others :
    (now : Instant) (base : EventBase) (command : DeleteDocumentCommand) (t : Table)
    → is_unique t ≡ true
    → others command.tenant_id (delete_handle now base command t).1 ≡ others command.tenant_id t
unfolding delete_handle
delete_handle-others now base command t u =
    update_document-others (D.delete now base) (delete-keeps now base) command.tenant_id
      command.document_id t u

others-snoc :
    (tenant_id : Uuid) (t : Table) (r : DocumentModel)
    → r.tenant_id ≡ tenant_id
    → others tenant_id (t ++ r ∷ []) ≡ others tenant_id t
others-snoc tenant_id [] r h = rw h (rw (==_refl tenant_id) refl)
others-snoc tenant_id (x ∷ t) r h = elim (Bool-cases (x.tenant_id == tenant_id)) [
  | inl e ↦ rw e (others-snoc tenant_id t r h)
  | inr e ↦ rw e (ap (λ l. x ∷ l) (others-snoc tenant_id t r h))
]

pub register_handle-others :
    (fresh : Fresh) (command : RegisterDocumentCommand) (t : Table)
    → others command.tenant_id (register_handle fresh command t).1 ≡ others command.tenant_id t
unfolding D.register D.record_event apply
register_handle-others fresh command t = elim (register_handle-Registered fresh command t) [
  | rejected e r same ↦ ap (others command.tenant_id) same
  | known hash doc p q r same ↦ ap (others command.tenant_id) same
  | created hash ti source p q a b c r same ↦
      ap (others command.tenant_id) same ∙ others-snoc command.tenant_id t _ refl
]
