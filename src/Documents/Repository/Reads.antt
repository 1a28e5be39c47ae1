-- ===== src/Documents/Repository/Reads.antt =====
-- Laws of the table's constraints and of what the queries find after a write.
use eka_knowledge_assistant.Prelude.{
  ◌≡◌, refl, inl, inr, Bool, true, false, not, none, some, List, [], ◌∷◌, ◌++◌, arith, ◌==◌,
  if◌then◌else◌, ==_iff, ==_refl, Bool-cases, &&-eq-true, filter, All, All-append_right,
  filter-eq-nil, any-eq-false, codes, text_eq, ok,
}
use eka_knowledge_assistant.Shared.Transaction.{scalar_one_or_none}
use eka_knowledge_assistant.Documents.Document.{
  Uuid, DocumentStatus, registered, ingesting, indexed, failed, deleted, status_eq, Document,
}
use eka_knowledge_assistant.Documents.Repository.{
  DocumentModel, Table, clashes, is_unique, check_table, status_value, apply, upsert, is_live,
  get_query,
}

pub scalar-eq-none {ℓ} : {A : Type ℓ} (xs : List A) → scalar_one_or_none xs ≡ ok none → xs ≡ []
unfolding scalar_one_or_none
scalar-eq-none [] h = refl
scalar-eq-none (x ∷ []) h = absurd (ground arith)
scalar-eq-none (x ∷ y ∷ xs) h = absurd (ground arith)

pub scalar-eq-some {ℓ} :
    {A : Type ℓ} (xs : List A) (a : A) → scalar_one_or_none xs ≡ ok (some a) → xs ≡ a ∷ []
unfolding scalar_one_or_none
scalar-eq-some [] a h = absurd (ground arith)
scalar-eq-some (x ∷ []) a h = ground arith
scalar-eq-some (x ∷ y ∷ xs) a h = absurd (ground arith)

-- A table that passes its checks has no clash.
pub check_table-ok : (t : Table) → check_table t ≡ ok tt → is_unique t ≡ true
unfolding check_table
check_table-ok t h = ground arith

-- A row of a unique table clashes with no row before it and none after it.
pub is_unique_around :
    (xs : Table) (r : DocumentModel) (ys : Table)
    → is_unique (xs ++ r ∷ ys) ≡ true
    → All (λ x. clashes x r ≡ false) xs × All (λ y. clashes r y ≡ false) ys
unfolding is_unique
is_unique_around [] r ys h = (tt, any-eq-false (clashes r) ys (ground arith))
is_unique_around (x ∷ xs) r ys h =
    let (before, after) = is_unique_around xs r ys (ground arith) in
    let apart = any-eq-false (clashes x) (xs ++ r ∷ ys) (ground arith) in
    (((All-append_right (λ y. clashes x y ≡ false) xs (r ∷ ys) apart).0, before), after)

apply-is_live : (doc : Document) → is_live (apply doc.id doc) ≡ not (status_eq doc.status deleted)
unfolding is_live apply status_value
apply-is_live doc = go doc.status
  where
    go :
        (s : DocumentStatus)
        → not (text_eq (status_value s) (codes "deleted")) ≡ not (status_eq s deleted)
    go registered = refl
    go ingesting = refl
    go indexed = refl
    go failed = refl
    go deleted = refl

-- No other row has the identifier.
ids_apart :
    (r : DocumentModel) (t : Table) (tenant_id document_id : Uuid)
    → r.id ≡ document_id
    → All (λ y. clashes r y ≡ false) t
    → All (λ y. get_query tenant_id document_id y ≡ false) t
unfolding clashes get_query
ids_apart r [] tenant_id document_id e h = tt
ids_apart r (y ∷ t) tenant_id document_id e h =
    (ground (arith, h.0), ids_apart r t tenant_id document_id e h.1)

get_query-apply :
    (doc : Document)
    → get_query doc.tenant_id doc.id (apply doc.id doc) ≡ not (status_eq doc.status deleted)
unfolding get_query
get_query-apply doc =
    let live = apply-is_live doc in
    unfold apply in rw (==_refl doc.id) (rw (==_refl doc.tenant_id) live)

if-not {ℓ} : {A : Type ℓ} (b : Bool) (x y : A) → (if not b then x else y) ≡ (if b then y else x)
if-not true x y = refl
if-not false x y = refl

filter-apply :
    (doc : Document) (t : Table)
    → filter (get_query doc.tenant_id doc.id) t ≡ []
    → filter (get_query doc.tenant_id doc.id) (apply doc.id doc ∷ t)
      ≡ (if status_eq doc.status deleted then [] else apply doc.id doc ∷ [])
filter-apply doc t h = rw (get_query-apply doc) (rw h (if-not (status_eq doc.status deleted) _ _))

get_query_other :
    (r : DocumentModel) (tenant_id document_id : Uuid)
    → (r.id == document_id) ≡ false
    → get_query tenant_id document_id r ≡ false
unfolding get_query
get_query_other r tenant_id document_id e = rw e

is_unique-tail : (r : DocumentModel) (t : Table) → is_unique (r ∷ t) ≡ true → is_unique t ≡ true
unfolding is_unique
is_unique-tail r t h = (&&-eq-true _ (is_unique t) h).1

-- After a save the query by identifier finds the saved row alone, or nothing if it is deleted.
pub filter-upsert :
    (doc : Document) (t : Table)
    → is_unique t ≡ true
    → filter (get_query doc.tenant_id doc.id) (upsert doc t)
      ≡ (if status_eq doc.status deleted then [] else apply doc.id doc ∷ [])
unfolding upsert
filter-upsert doc [] h = filter-apply doc [] refl
filter-upsert doc (r ∷ t) h = elim (Bool-cases (r.id == doc.id)) [
  | inl e ↦
      let same = (==_iff r.id doc.id).0 e in
      let apart = (is_unique_around [] r t h).1 in
      rw e (
        rw same
          (filter-apply doc t (filter-eq-nil _ t (ids_apart r t doc.tenant_id doc.id same apart))))
  | inr e ↦
      rw e
        (rw (get_query_other r doc.tenant_id doc.id e) (filter-upsert doc t (is_unique-tail r t h)))
]
