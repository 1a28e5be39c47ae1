-- ===== src/Shared/Transaction.antt =====
-- A unit of work over a database session (src/eka/shared/application/unit_of_work.py and the
-- SqlAlchemyUnitOfWork of both contexts). Entering opens a session on the stored database;
-- `commit` checks the constraints of the tables and makes what was written the stored database;
-- leaving, by an exception or not, closes the session and drops what was not committed.
use eka_knowledge_assistant.Prelude.{
  ◌≡◌, Option, none, some, List, [], ◌∷◌, Exception, multiple_results_found, Result, ok, err,
  Action,
}

pub record Session (Db : Type 0) : Type 0 where
  pub stored : Db
  pub pending : Db

-- session.execute(select(…)).scalar_one_or_none()
unfoldable pub scalar_one_or_none {ℓ} : {A : Type ℓ} → List A → Result (Option A)
scalar_one_or_none [] = ok none
scalar_one_or_none (x ∷ []) = ok (some x)
scalar_one_or_none (x ∷ y ∷ xs) = err multiple_results_found

module _ {Db : Type 0} where
  -- A query sees what the session has written.
  abbrev pub reading : {A : Type 0} → (Db → Result A) → Action (Session Db) A
  reading f s = (f s.pending, s)

  abbrev pub writing : (Db → Db) → Action (Session Db) (Unit {0})
  writing f s = (ok tt, record s { pending = f s.pending })

  -- `check` raises what the database raises for a table that breaks a constraint. A failed commit
  -- rolls the session back.
  unfoldable pub commit : (Db → Result (Unit {0})) → Action (Session Db) (Unit {0})
  commit check s = elim (check s.pending) [
    | ok _ ↦ (ok tt, record s { stored = s.pending })
    | err e ↦ (err e, record s { pending = s.stored })
  ]

  -- `async with uow: body`
  unfoldable pub with_uow : {A : Type 0} → Action (Session Db) A → Action Db A
  with_uow body db = let r = body (record { stored = db; pending = db }) in (r.0, r.1.stored)

module _ {Db : Type 0} (check : Db → Result (Unit {0})) (s : Session Db) where
  pub commit-ok :
      {u : Unit {0}}
      → check s.pending ≡ ok u
      → commit check s ≡ (ok tt, record s { stored = s.pending })
  unfolding commit
  commit-ok h = rw (h, commit)

  pub commit-err :
      {e : Exception}
      → check s.pending ≡ err e
      → commit check s ≡ (err e, record s { pending = s.stored })
  unfolding commit
  commit-err h = rw (h, commit)
