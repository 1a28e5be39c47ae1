-- ===== src/Documents/Queries/Pages.antt =====
-- What a page of documents holds.
use eka_knowledge_assistant.Prelude.{
  suc, ◌-◌, min, ◌≡◌, refl, sym, ap, ◌∙◌, subst, Bool, true, false, not, Option, none, some, List,
  [], ◌∷◌, arith, ==_iff, &&-eq-true, length, take, drop, filter, All, length-take, length-drop,
  All-take, All-drop, All-mono, filter-All, KeepsItems, KeepsItems-All, ok, bind_result-eq-ok,
}
use eka_knowledge_assistant.Shared.Pagination.{Sort, PageRequest, Page}
use eka_knowledge_assistant.Documents.Document.{Uuid, Document, status_eq, deleted}
use eka_knowledge_assistant.Documents.Repository.{DocumentModel, Table, to_domain}
use eka_knowledge_assistant.Documents.Repository.Rows.{ok-injective, to_domain-Loaded}
use eka_knowledge_assistant.Documents.Commands.ReadBack.{live_status}
use eka_knowledge_assistant.Documents.Queries.{
  in_collection, list_query, collect_documents, sort_of, list,
}

length-collect_documents :
    (rows : Table) (ds : List Document) → collect_documents rows ≡ ok ds → length ds ≡ length rows
length-collect_documents [] ds h = ground arith
length-collect_documents (r ∷ rows) ds h =
    let (d, p, q) = bind_result-eq-ok (to_domain r) _ h in
    let (ds', p', q') = bind_result-eq-ok (collect_documents rows) _ q in
    omega (arith, length-collect_documents rows ds' p', ap length (ok-injective q'))

abbrev pub IsInCollection : Option Uuid → Document → Type 0
IsInCollection none d = Unit {0}
IsInCollection (some c) d = d.collection_id ≡ c

-- A document of the tenant, and of the collection if one is asked for, that is not deleted.
abbrev pub IsListed : Uuid → Option Uuid → Document → Type 0
IsListed tenant_id collection_id d =
    (d.tenant_id ≡ tenant_id)
    × (status_eq d.status deleted ≡ false)
    × IsInCollection collection_id d

row-IsInCollection :
    (collection_id : Option Uuid) (m : DocumentModel) (d : Document)
    → d.collection_id ≡ m.collection_id
    → in_collection collection_id m ≡ true
    → IsInCollection collection_id d
row-IsInCollection none m d same h = tt
row-IsInCollection (some c) m d same h = same ∙ (==_iff m.collection_id c).0 h

row-IsListed :
    (tenant_id : Uuid) (collection_id : Option Uuid) (m : DocumentModel) (d : Document)
    → list_query tenant_id collection_id m ≡ true
    → to_domain m ≡ ok d
    → IsListed tenant_id collection_id d
unfolding list_query
row-IsListed tenant_id collection_id m d q h =
    let loaded = to_domain-Loaded m d h in
    let (both, collected) = &&-eq-true _ _ q in
    let (te, live) = &&-eq-true _ _ both in
    (
      loaded.loaded_tenant ∙ (==_iff m.tenant_id tenant_id).0 te,
      live_status m d.status live loaded.loaded_status,
      row-IsInCollection collection_id m d loaded.loaded_collection collected,
    )

collect-IsListed :
    (tenant_id : Uuid) (collection_id : Option Uuid) (rows : Table) (ds : List Document)
    → All (λ r. list_query tenant_id collection_id r ≡ true) rows
    → collect_documents rows ≡ ok ds
    → All (IsListed tenant_id collection_id) ds
collect-IsListed tenant_id collection_id [] ds q h =
    subst (All (IsListed tenant_id collection_id)) (ok-injective h) tt
collect-IsListed tenant_id collection_id (r ∷ rows) ds q h =
    let (d, p, k) = bind_result-eq-ok (to_domain r) _ h in
    let (ds', p', k') = bind_result-eq-ok (collect_documents rows) _ k in
    subst (All (IsListed tenant_id collection_id)) (ok-injective k') (
      row-IsListed tenant_id collection_id r d q.0 p,
      collect-IsListed tenant_id collection_id rows ds' q.1 p',
    )

length-filter_all : (xs : Table) → length (filter (λ _. true) xs) ≡ length xs
length-filter_all [] = refl
length-filter_all (x ∷ xs) = ap suc (length-filter_all xs)

module _ (order : Sort → Table → Table) (keeps : (s : Sort) → KeepsItems (order s)) where
  length-order : (s : Sort) (xs : Table) → length (order s xs) ≡ length xs
  length-order s xs =
      sym (length-filter_all (order s xs)) ∙ (keeps s).keeps (λ _. true) xs ∙ length-filter_all xs

  -- If the database's sorts keep the rows, a page of documents that was listed has the asked limit and offset; it holds as many documents as
  -- the limit lets through of the matching ones from the offset on, of which the total is the count;
  -- and each is a document of the tenant, and
  -- of the collection if one is asked for, that is not deleted.
  pub list_page :
      (tenant_id : Uuid) (request : PageRequest) (collection_id : Option Uuid) (t : Table)
      (page : Page Document)
      → list order tenant_id request collection_id t ≡ ok page
      → (page.limit ≡ request.limit)
        × (page.offset ≡ request.offset)
        × (page.total ≡ length (filter (list_query tenant_id collection_id) t))
        × (length page.items ≡ min request.limit (page.total - request.offset))
        × All (IsListed tenant_id collection_id) page.items
  unfolding list
  list_page tenant_id request collection_id t page h =
      let matching = filter (list_query tenant_id collection_id) t in
      let sorted = order (sort_of request.sort) matching in
      let (items, p, q) =
        bind_result-eq-ok (collect_documents (take request.limit (drop request.offset sorted))) _
          h in
      subst
        (λ (g : Page Document).
          (g.limit ≡ request.limit)
          × (g.offset ≡ request.offset)
          × (g.total ≡ length matching)
          × (length g.items ≡ min request.limit (g.total - request.offset))
          × All (IsListed tenant_id collection_id) g.items)
        (ok-injective q)
        (
          refl,
          refl,
          refl,
          omega (
            arith,
            length-collect_documents _ items p,
            length-take request.limit (drop request.offset sorted),
            length-drop request.offset sorted,
            length-order (sort_of request.sort) matching,
          ),
          collect-IsListed tenant_id collection_id _ items
              (All-take _ request.limit _ (
                All-drop _ request.offset _ (
                  All-mono (λ r e. not-false e) _
                    (KeepsItems-All (keeps (sort_of request.sort))
                      (λ r. not (list_query tenant_id collection_id r)) matching
                      (All-mono (λ r e. ap not e) _
                        (filter-All (list_query tenant_id collection_id) t))))))
              p,
        )
    where
      not-false : {b : Bool} → not b ≡ false → b ≡ true
      not-false e = ground arith
