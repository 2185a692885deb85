-- ===== src/Store/Sessions/Refinement.antt =====
-- The operations of internal/store/session.go, on an engine that fails where it likes, against the
-- book of sessions.
use dokkup.Store.Sessions
use dokkup.Common.{
  ℕ, ◌≡◌, refl, inl, inr, Bool, Bool-cases, count_where, ◌+◌, not, Option, none, some, List, [],
  ◌∷◌, map, arith, ltb, leb, if◌then◌else◌, drop_where, find, contains, Distinct, ◌==◌, Text,
  number_key, text_key, same_text_iff, ◌∙◌, same_number_iff,
}
use dokkup.Store.Atomicity.{drop_where_none}
use dokkup.Store.History.{
  silently, perform, run, run-IsValid, start_session, revoke_session, revoke_operator_sessions,
  drop_expired_sessions,
}
use dokkup.Store.Schema.{
  Session, ids, err, failed, Engine, IsEngine, live, one_row, select_session, insert_session,
  delete_sessions,
}
use dokkup.Store.Sessions.{session_by_hash}
use dokkup.Store.Sessions.Book.{
  entry, rows, book, Action, start, revoke, revoke_all, drop_expired, retained, Effect, Step, trace,
  Reaches, told, grant_of, rows-drop_where, rows-revoked, free, rows-live, call_of,
}
use dokkup.Store.Sql.{
  World, millis, is_after, actions, advance, mapped, not_found_error, exec, reported, ◌>>=◌,
}
use dokkup.Store.Valid.{IsValid}

start_session-Step :
    (id : ℕ) (hash : Text) (expires_at : ℕ) (e : Engine) (w : World)
    → let (r, v) = perform (start_session id hash expires_at) e w in
      Step (start id hash expires_at) (millis (e.clock w.tick)) r (book w.db) (book v.db)
unfolding perform actions Sessions.start_session insert_session
start_session-Step id hash expires_at e w =
    let at : ℕ = millis (e.clock w.tick) in
    elim (Bool-cases (hash == [])) [
      | inl f ↦ rw f (inl (λ h. refl))
      | inr f ↦ elim (Bool-cases (is_after expires_at at)) [
        | inr g ↦ rw (f, g) (inl (λ h. refl))
        | inl g ↦ elim (Bool-cases (e.fault (w.tick + 1))) [
          | inl k ↦ rw (f, g, k) (inl (λ h. refl))
          | inr k ↦ elim (Bool-cases (contains hash (map (λ s. s.token_hash) w.db.sessions))) [
            | inl m ↦ rw (f, g, k, m) (inl (λ h. refl))
            | inr m ↦ elim (Bool-cases (contains id (ids w.db.operators))) [
              | inr n ↦ rw (f, g, k, m, n) (inl (λ h. refl))
              | inl n ↦
                  rw (f, g, k, m, n)
                    (
                      (free hash w.db.sessions m, g, ground (arith, same_text_iff hash [])),
                      λ h. ground arith,
                    )
            ]
          ]
        ]
      ]
    ]

revoke_session-Step :
    (hash : Text) (e : Engine) (w : World)
    → let (r, v) = perform (revoke_session hash) e w in
      Step (revoke hash) (millis (e.clock w.tick)) r (book w.db) (book v.db)
unfolding perform actions Sessions.revoke_session delete_sessions
revoke_session-Step hash e w =
    let effect = rows-revoked hash w.db.sessions in
    elim (Bool-cases (e.fault w.tick)) [
      | inl f ↦ rw f (inl (λ h. refl))
      | inr f ↦ elim (Bool-cases (e.driver_fault (w.tick + 1))) [
        | inl g ↦ rw (f, g) (inr (refl, (tt, effect)))
        | inr g ↦ elim (Bool-cases (count_where (λ s. s.token_hash == hash) w.db.sessions == 0)) [
          | inl z ↦
              rw (f, g, z)
                (inl (λ h. rw (drop_where_none _ w.db.sessions ((same_number_iff _ 0).0 z)) refl))
          | inr z ↦ rw (f, g, z) (tt, effect)
        ]
      ]
    ]

-- a statement that deletes, and the number of rows that it deleted
deleted-Step :
    (a : Action) (at : ℕ) (p : Session → Bool) (e : Engine) (w : World)
    → Effect a at (book w.db) (rows (drop_where p w.db.sessions))
    → let (r, v) = silently (exec (λ _. delete_sessions p) >>= reported) e w in
      Step a at r (book w.db) (book v.db)
unfolding actions delete_sessions
deleted-Step a at p e w effect = elim (Bool-cases (e.fault w.tick)) [
  | inl f ↦ rw f (inl (λ h. refl))
  | inr f ↦ elim (Bool-cases (e.driver_fault (w.tick + 1))) [
    | inl g ↦ rw (f, g) (inr (refl, effect))
    | inr g ↦ rw (f, g) effect
  ]
]

revoke_all-Step :
    (id : ℕ) (e : Engine) (w : World)
    → Distinct (map (λ s. s.token_hash) w.db.sessions)
    → let (r, v) = perform (revoke_operator_sessions id) e w in
      Step (revoke_all id) (millis (e.clock w.tick)) r (book w.db) (book v.db)
unfolding perform Sessions.revoke_operator_sessions
revoke_all-Step id e w d =
    deleted-Step (revoke_all id) (millis (e.clock w.tick)) (λ s. s.operator_id == id) e w
      (
        tt,
        rows-drop_where (λ s. s.operator_id == id) (λ g. not (g.holder == id)) (λ s. refl)
            w.db.sessions d,
      )

drop_expired-Step :
    (e : Engine) (w : World)
    → Distinct (map (λ s. s.token_hash) w.db.sessions)
    → let (r, v) = perform drop_expired_sessions e w in
      Step drop_expired (millis (e.clock w.tick)) r (book w.db) (book v.db)
unfolding perform actions Sessions.drop_expired_sessions
drop_expired-Step e w d =
    let at : ℕ = millis (e.clock w.tick) in
    deleted-Step drop_expired at (λ s. leb s.expires_at at) e (advance w)
      (
        tt,
        rows-drop_where (λ s. leb s.expires_at at) (λ g. ltb at g.until) (λ s. ground arith)
            w.db.sessions d,
      )

call_of-Step :
    (a : Action) (e : Engine) (w : World)
    → Distinct (map (λ s. s.token_hash) w.db.sessions)
    → let (r, v) = perform (call_of a) e w in
      Step a (millis (e.clock w.tick)) r (book w.db) (book v.db)
call_of-Step (start id hash expires_at) e w d = start_session-Step id hash expires_at e w
call_of-Step (revoke hash) e w d = revoke_session-Step hash e w
call_of-Step (revoke_all id) e w d = revoke_all-Step id e w d
call_of-Step drop_expired e w d = drop_expired-Step e w d

run-Reaches :
    (actions : List Action) (e : Engine) (w : World)
    → IsEngine e
    → IsValid w.db
    → Reaches (trace actions e w) (book w.db) (book (run (map call_of actions) e w).db)
unfolding run
run-Reaches [] e w l v = λ h. refl
run-Reaches (a ∷ actions) e w l v = (
  book (perform (call_of a) e w).1.db,
  call_of-Step a e w v.session_keys,
  run-Reaches actions e (perform (call_of a) e w).1 l (run-IsValid (call_of a ∷ []) e w l v),
)

grant_of-one_row :
    (row : Option Session) (w : World)
    → grant_of (mapped not_found_error (one_row row, w)).0 ≡ told (entry row)
grant_of-one_row none w = refl
grant_of-one_row (some s) w = refl

session_by_hash-told :
    (hash : Text) (e : Engine) (w : World)
    → Distinct (map (λ s. s.token_hash) w.db.sessions)
    → grant_of (session_by_hash hash e w).0 ≡ (
        if e.fault (w.tick + 1)
        then err failed
        else told (retained (λ g. ltb (millis (e.clock w.tick)) g.until) (book w.db hash)))
unfolding session_by_hash actions select_session
session_by_hash-told hash e w d = elim (Bool-cases (e.fault (w.tick + 1))) [
  | inl f ↦ rw f refl
  | inr f ↦ rw f (
      grant_of-one_row (find (live hash (millis (e.clock w.tick))) w.db.sessions)
        (advance (advance w))
      ∙ (rw (rows-live (millis (e.clock w.tick)) hash w.db.sessions d) refl))
]

-- Every sequence of starts, revocations and drops of expired sessions, on a valid database and an
-- engine that fails where it likes, takes the abstract book of sessions (whose a token's hash is, and
-- until when) from step to step as the book's own actions do at the times of the calls: an action
-- answered without an error was allowed and had its effect on every hash, and one answered with an
-- error changed nothing, or had its effect where the driver failed. A lookup after them is told what the book says of the hash, if it
-- has not expired at the time, and that there is no session otherwise, unless its query fails.
pub sessions_refine_book :
    (actions : List Action) (hash : Text) (e : Engine) (w : World)
    → IsEngine e
    → IsValid w.db
    → let v : World = run (map call_of actions) e w in
      Reaches (trace actions e w) (book w.db) (book v.db)
      × (grant_of (session_by_hash hash e v).0 ≡ (
          if e.fault (v.tick + 1)
          then err failed
          else told (retained (λ g. ltb (millis (e.clock v.tick)) g.until) (book v.db hash))))
sessions_refine_book actions hash e w l v =
    let k = run-IsValid (map call_of actions) e w l v in
    (
      run-Reaches actions e w l v,
      session_by_hash-told hash e (run (map call_of actions) e w) k.session_keys,
    )
