-- ===== src/Store/Operators/Laws.antt =====
-- What changing a password and removing an account do to the rest of the database.
use dokkup.Common.{
  ℕ, ◌+◌, ◌≡◌, refl, false, not, Option, none, some, List, [], ◌∷◌, arith, ltb, if◌then◌else◌,
  drop_where, count_where, find, exists, Distinct, ◌==◌, Text, map-update_where, number_key,
  text_key, ◌<◌, Bool, true, keep, contains, map, contains-drop_where,
}
use dokkup.Store.Operators.{set_password, remove_operator}
use dokkup.Store.Schema.{
  Operator, Session, not_found, owner_protected, Result, ok, err, Engine, ids, update_password,
  removable, delete_sessions, IsHealthy, delete_operator, select_operator, forget,
}
use dokkup.Store.Sql.{World, millis, actions}

no_sessions-drop_where :
    (id : ℕ) (ss : List Session)
    → exists (λ s. s.operator_id == id) (drop_where (λ s. s.operator_id == id) ss) ≡ false
no_sessions-drop_where id [] = refl
no_sessions-drop_where id (s ∷ ss) = ground (arith, no_sessions-drop_where id ss)

-- A password that has been changed ends every session of its operator and none of anybody else's,
-- reports how many there were, and leaves the other tables alone.
pub set_password_revokes :
    (id : ℕ) (hash : Text) (e : Engine) (w : World) (n : ℕ)
    → (set_password id hash e w).0 ≡ ok n
    → let d = (set_password id hash e w).1.db in
      (n ≡ count_where (λ s. s.operator_id == id) w.db.sessions)
      × (d.sessions ≡ drop_where (λ s. s.operator_id == id) w.db.sessions)
      × (exists (λ s. s.operator_id == id) d.sessions ≡ false)
      × (ids d.operators ≡ ids w.db.operators)
      × (d.setup_tokens ≡ w.db.setup_tokens)
      × (d.audit_entries ≡ w.db.audit_entries)
unfolding set_password actions update_password delete_sessions
set_password_revokes id hash e w n h = ground (
  arith,
  no_sessions-drop_where id w.db.sessions,
  map-update_where (λ o. o.id) (λ o. o.id == id)
      (λ o. record o { password_hash = hash; updated_at = millis (e.clock (w.tick + 1)) })
      (λ o. refl) w.db.operators,
)

-- what the removal of an account answers, from the row with that id
abbrev pub removal_answer : Option Operator → Result (Unit {0})
removal_answer none = err not_found
removal_answer (some o) = if o.is_owner then err owner_protected else ok tt

absent-count :
    (id : ℕ) (ops : List Operator)
    → contains id (ids ops) ≡ false
    → count_where (removable id) ops ≡ 0
absent-count id [] h = refl
absent-count id (o ∷ ops) h = ground (arith, absent-count id ops)

-- in a table with unique ids the statement's two conditions select the row with that id, or nothing
abbrev removes : Option Operator → Bool
removes none = false
removes (some o) = not o.is_owner

removable-count :
    (id : ℕ) (ops : List Operator)
    → Distinct (ids ops)
    → ltb 0 (count_where (removable id) ops) ≡ removes (find (λ o. o.id == id) ops)
removable-count id [] u = refl
removable-count id (o ∷ ops) u = ground (arith, removable-count id ops u.1, absent-count id ops)

-- where nothing was removable, the second look finds what the first one passed over
find-dropped :
    (id : ℕ) (ops : List Operator)
    → ltb 0 (count_where (removable id) ops) ≡ false
    → drop_where (removable id) ops ≡ ops
find-dropped id [] h = refl
find-dropped id (o ∷ ops) h = ground (arith, find-dropped id ops)

-- What `RemoveOperator` answers on an engine that does not fail, where ids are distinct, on every
-- branch: there is no such account, it is the owner's, or it is removed.
pub remove_operator_answers :
    (id : ℕ) (e : Engine) (w : World)
    → IsHealthy e
    → Distinct (ids w.db.operators)
    → (remove_operator id e w).0 ≡ removal_answer (find (λ o. o.id == id) w.db.operators)
unfolding remove_operator actions delete_operator select_operator
remove_operator_answers id e w g u = ground (
  arith,
  g.no_fault w.tick,
  g.no_fault (w.tick + 1 + 1),
  g.reports (w.tick + 1),
  removable-count id w.db.operators u,
  find-dropped id w.db.operators,
)

kept-contains :
    (id : ℕ) (ops : List Operator)
    → 0 < count_where (removable id) ops
    → contains id (ids (keep (removable id) ops)) ≡ true
kept-contains id [] h = absurd (omega arith)
kept-contains id (o ∷ ops) h = ground (arith, kept-contains id ops)

no_sessions-removed :
    (id : ℕ) (ops : List Operator) (ss : List Session)
    → 0 < count_where (removable id) ops
    → exists
        (λ s. s.operator_id == id)
        (drop_where (λ s. contains s.operator_id (ids (keep (removable id) ops))) ss)
      ≡ false
no_sessions-removed id ops [] h = refl
no_sessions-removed id ops (s ∷ ss) h =
    ground (arith, no_sessions-removed id ops ss h, kept-contains id ops h)

absent-dropped :
    (id : ℕ) (ops : List Operator)
    → Distinct (ids ops)
    → 0 < count_where (removable id) ops
    → contains id (ids (drop_where (removable id) ops)) ≡ false
absent-dropped id [] u h = refl
absent-dropped id (o ∷ ops) u h = ground (
  arith,
  absent-dropped id ops u.1,
  absent-count id ops,
  contains-drop_where (λ o. o.id) (removable id) id ops,
)

-- Where ids are distinct, an account that has been removed is gone, with every session of its, and
-- the entries of the trail are the same but for their reference to it.
pub remove_operator_forgets :
    (id : ℕ) (e : Engine) (w : World)
    → Distinct (ids w.db.operators)
    → (remove_operator id e w).0 ≡ ok tt
    → let d = (remove_operator id e w).1.db in
      (contains id (ids d.operators) ≡ false)
      × (exists (λ s. s.operator_id == id) d.sessions ≡ false)
      × (d.setup_tokens ≡ w.db.setup_tokens)
      × (d.audit_entries
          ≡ map (forget (ids (keep (removable id) w.db.operators))) w.db.audit_entries)
unfolding remove_operator actions delete_operator select_operator
remove_operator_forgets id e w u h =
    ground (
      arith,
      absent-dropped id w.db.operators u,
      no_sessions-removed id w.db.operators w.db.sessions,
    )
