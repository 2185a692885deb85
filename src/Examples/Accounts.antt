-- ===== src/Examples/Accounts.antt =====
-- The operations of the store on accounts and sessions.
use dokkup.Store.Operators
use dokkup.Common.{
  ◌≡◌, refl, List, [], ◌∷◌, ◌++◌, map, ltb, if◌then◌else◌, number_key, text_key, ◌+◌,
}
use dokkup.Common.Strings.{codes}
use dokkup.Examples.{engine, engine-IsEngine, owned}
use dokkup.Server.SignIn.{audited}
use dokkup.Store.Atomicity.{perform_atomic}
use dokkup.Store.Audit.Trail.{AllKept, run-Extends}
use dokkup.Store.History.{
  create_owner, start_session, record_entry, remove_operator, Call, perform, run, run-IsValid,
}
use dokkup.Store.Schema.{
  AuditEntry, empty, owner_protected, err, delete_operator, select_operator, failed,
}
use dokkup.Store.Sessions.{session_by_hash}
use dokkup.Store.Sessions.Book.{
  book, Action, start, revoke, revoke_all, drop_expired, call_of, retained, trace, Reaches, told,
  grant_of,
}
use dokkup.Store.Sessions.Refinement.{sessions_refine_book}
use dokkup.Store.Sql.{World, millis, actions}
use dokkup.Store.Valid.{IsValid, empty-IsValid}

abbrev calls : List Call
calls =
    create_owner (codes "Ana@example.com") (codes "Ana") (codes "$a")
    ∷ start_session 1 (codes "#s") 9000000000
    ∷ record_entry (audited 1 (codes "app.created") (codes "blog"))
    ∷ remove_operator 1
    ∷ []

run-IsValid_example : IsValid (run calls engine (record { db = empty; tick = 0 })).db
run-IsValid_example =
    run-IsValid calls engine (record { db = empty; tick = 0 }) engine-IsEngine empty-IsValid

owner_is_kept : (perform (remove_operator 1) engine owned).0 ≡ err owner_protected
unfolding perform actions Operators.remove_operator delete_operator select_operator
owner_is_kept = refl

perform_atomic_example : (perform (remove_operator 1) engine owned).1.db ≡ owned.db
perform_atomic_example =
    perform_atomic (remove_operator 1) engine owned (λ n. refl) owner_protected owner_is_kept

run-Extends_example :
    (new left : List AuditEntry) × ((run (remove_operator 2 ∷ []) engine owned).db.audit_entries
      ≡ new ++ left)
    × AllKept owned.db.audit_entries left
run-Extends_example = run-Extends (remove_operator 2 ∷ []) engine owned engine-IsEngine

-- what the owner's first visit leaves
abbrev visit : List Call
visit =
    create_owner (codes "Ana@example.com") (codes "Ana") (codes "$a")
    ∷ start_session 1 (codes "#s") 9000000000
    ∷ []

abbrev visited : World
visited = run visit engine (record { db = empty; tick = 0 })

visited-IsValid : IsValid visited.db
visited-IsValid =
    run-IsValid visit engine (record { db = empty; tick = 0 }) engine-IsEngine empty-IsValid

-- a session that is started, one of the same hash that is refused, and the ends of both
abbrev session_actions : List Action
session_actions =
    start 1 (codes "#new") 9000000000
    ∷ start 1 (codes "#new") 9000000000
    ∷ drop_expired
    ∷ revoke (codes "#s")
    ∷ revoke_all 1
    ∷ []

sessions_refine_book_example :
    let v : World = run (map call_of session_actions) engine visited in
    Reaches (trace session_actions engine visited) (book visited.db) (book v.db)
    × (grant_of (session_by_hash (codes "#new") engine v).0 ≡ (
        if engine.fault (v.tick + 1)
        then err failed
        else told (
            retained (λ g. ltb (millis (engine.clock v.tick)) g.until) (book v.db (codes "#new")))))
sessions_refine_book_example =
    sessions_refine_book session_actions (codes "#new") engine visited engine-IsEngine
      visited-IsValid
