-- ===== src/Store/Sessions/Lifetime.antt =====
-- internal/store/session.go: how long a session authenticates.
use dokkup.Common.{
  ℕ, ◌+◌, ◌≤◌, ◌≡◌, refl, inl, inr, true, false, Option, none, some, List, [], ◌∷◌, map, arith, ltb,
  leb, if◌then◌else◌, Bool-cases, drop_where, find, contains, ◌==◌, same_number_iff, Text,
  number_key, text_key, ◌∙◌, same_text_iff,
}
use dokkup.Store.Schema.{
  Operator, Session, Db, not_found, Result, ok, err, Engine, ids, insert_session, delete_sessions,
  live, select_session_operator,
}
use dokkup.Store.Sessions.{start_session, revoke_session, drop_expired_sessions, session_operator}
use dokkup.Store.Sql.{World, millis, now, actions}

-- what a lookup of a session answers, from the row that it found
abbrev pub holder : Option Session → Db → Result Operator
holder none d = err not_found
holder (some s) d = elim (find (λ o. o.id == s.operator_id) d.operators) [
  | none ↦ err not_found
  | some o ↦ ok o
]

pub session_operator_lem :
    (hash : Text) (e : Engine) (w : World)
    → e.fault (w.tick + 1) ≡ false
    → (session_operator hash e w).0
      ≡ holder (find (live hash (millis (e.clock w.tick))) w.db.sessions) w.db
unfolding session_operator actions select_session_operator
session_operator_lem hash e w f = ground arith

find_known :
    (id : ℕ) (ops : List Operator)
    → contains id (ids ops) ≡ true
    → (o : Operator) × (find (λ o. o.id == id) ops ≡ some o) × (o.id ≡ id)
find_known id [] h = cc
find_known id (x ∷ ops) h = elim (Bool-cases (x.id == id)) [
  | inl g ↦ (x, rw g refl, (same_number_iff x.id id).0 g)
  | inr g ↦ let (o, p, q) = find_known id ops (ground arith) in (o, rw g p, q)
]

find_absent :
    (hash : Text) (now : ℕ) (ss : List Session)
    → contains hash (map (λ s. s.token_hash) ss) ≡ false
    → find (live hash now) ss ≡ none
find_absent hash now [] h = refl
find_absent hash now (s ∷ ss) h = ground (
  arith,
  same_text_iff hash s.token_hash,
  same_text_iff s.token_hash hash,
  find_absent hash now ss,
)

pub start_session_row :
    (id : ℕ) (hash : Text) (expires_at : ℕ) (e : Engine) (w : World) (s : Session)
    → (start_session id hash expires_at e w).0 ≡ ok s
    → ((start_session id hash expires_at e w).1.db ≡ record w.db { sessions = s ∷ w.db.sessions })
      × (contains id (ids w.db.operators) ≡ true)
      × (contains hash (map (λ s. s.token_hash) w.db.sessions) ≡ false)
      × (s.token_hash ≡ hash)
      × (s.operator_id ≡ id)
      × (s.expires_at ≡ millis expires_at)
unfolding start_session actions insert_session
start_session_row id hash expires_at e w s h = ground arith

-- A session that has been started authenticates an operator of the id that it was started for, at
-- every later reading of the clock before its expiry, and nobody from its expiry on, as long as the
-- database stays as it is and the query does not fail.
pub start_session_authenticates :
    (id : ℕ) (hash : Text) (expires_at : ℕ) (e : Engine) (w : World) (s : Session)
    → (start_session id hash expires_at e w).0 ≡ ok s
    → (v : World) → v.db ≡ (start_session id hash expires_at e w).1.db
    → e.fault (v.tick + 1) ≡ false
    → (o : Operator) × (o.id ≡ id)
      × ((session_operator hash e v).0
          ≡ (if ltb (millis (e.clock v.tick)) (millis expires_at) then ok o else err not_found))
start_session_authenticates id hash expires_at e w s h v same f =
    let (d, known, fresh, hs, os, es) = start_session_row id hash expires_at e w s h in
    let (o, found, io) = find_known id w.db.operators known in
    let at : ℕ = millis (e.clock v.tick) in
    (
      o,
      io,
      session_operator_lem hash e v f
          ∙ (rw (same, d)
              (ground
                (arith, same_text_iff s.token_hash hash, find_absent hash at w.db.sessions fresh))),
    )

pub drop_where-find :
    (hash : Text) (now : ℕ) (ss : List Session)
    → find (live hash now) (drop_where (λ s. s.token_hash == hash) ss) ≡ none
drop_where-find hash now [] = refl
drop_where-find hash now (s ∷ ss) = ground (arith, drop_where-find hash now ss)

-- A session that has been ended authenticates nobody, at any time, while the database stays as it
-- is and the query does not fail.
pub revoke_session_ends :
    (hash : Text) (e : Engine) (w : World)
    → (revoke_session hash e w).0 ≡ ok tt
    → (v : World) → v.db ≡ (revoke_session hash e w).1.db
    → e.fault (v.tick + 1) ≡ false
    → (session_operator hash e v).0 ≡ err not_found
unfolding revoke_session actions delete_sessions
revoke_session_ends hash e w h v same f = ground (
  arith,
  session_operator_lem hash e v f,
  drop_where-find hash (millis (e.clock v.tick)) w.db.sessions,
)

drop_expired-find :
    (hash : Text) (at now : ℕ) (ss : List Session)
    → at ≤ now
    → find (live hash now) (drop_where (λ s. leb s.expires_at at) ss) ≡ find (live hash now) ss
drop_expired-find hash at now [] h = refl
drop_expired-find hash at now (s ∷ ss) h = ground (arith, drop_expired-find hash at now ss h)

-- Dropping the expired sessions is invisible: whoever a hash authenticated, at the moment of the
-- drop or later, it still does, and it authenticates nobody new, where the query does not fail.
pub drop_expired_sessions_invisible :
    (hash : Text) (e : Engine) (w v u : World)
    → u.db ≡ w.db
    → v.db ≡ (drop_expired_sessions e w).1.db
    → v.tick ≡ u.tick
    → e.fault (v.tick + 1) ≡ false
    → e.clock w.tick ≤ e.clock v.tick
    → (session_operator hash e v).0 ≡ (session_operator hash e u).0
unfolding drop_expired_sessions actions delete_sessions
drop_expired_sessions_invisible hash e w v u p q t f later = ground (
  arith,
  session_operator_lem hash e v f,
  session_operator_lem hash e u,
  drop_expired-find hash (millis (e.clock w.tick)) (millis (e.clock v.tick)) w.db.sessions,
)
