-- ===== src/Store/Atomicity.antt =====
-- The operations of internal/store that report an error, and what they leave behind.
use dokkup.Common.{
  ℕ, ◌+◌, ◌≡◌, refl, Bool, List, [], ◌∷◌, arith, keep, drop_where, count_where, update_where, ◌==◌,
  Text, number_key, text_key, map, contains, true, false, not,
}
use dokkup.Store.Audit.{record_entry, record_unauthenticated, Audited}
use dokkup.Store.History.{Call, silently, perform}
use dokkup.Store.Operators.{
  rename, create_operator, set_password, remove_operator, create_owner, create_invited,
  normalise_email,
}
use dokkup.Store.Schema.{
  Error, Result, err, Engine, Reports, update_name, delete_sessions, insert_operator,
  insert_session, delete_setup_tokens, insert_attributed, insert_unattributed, Session, AuditEntry,
  forget, removable, delete_operator, no_token_hash, no_email, no_password_hash, expired,
}
use dokkup.Store.Sessions.{
  revoke_session, start_session, revoke_operator_sessions, drop_expired_sessions,
}
use dokkup.Store.SetupTokens.{drop_expired_setup_tokens, issue_setup_token, redeem_setup_token}
use dokkup.Store.Sql.{
  World, actions, millis, M, ◌>>=◌, ◌>>◌, refuse_if, transaction, pure, advance, now, is_after,
}

-- the rows that a statement counts are the rows that it changes
pub drop_where_none {ℓ} :
    {A : Type ℓ} (p : A → Bool) (xs : List A) → count_where p xs ≡ 0 → drop_where p xs ≡ xs
drop_where_none p [] h = refl
drop_where_none p (x ∷ xs) h = ground (arith, drop_where_none p xs)

update_where_none {ℓ} :
    {A : Type ℓ} (p : A → Bool) (u : A → A) (xs : List A)
    → count_where p xs ≡ 0
    → update_where p u xs ≡ xs
update_where_none p u [] h = refl
update_where_none p u (x ∷ xs) h = ground (arith, update_where_none p u xs)

keep_none {ℓ} : {A : Type ℓ} (p : A → Bool) (xs : List A) → count_where p xs ≡ 0 → keep p xs ≡ []
keep_none p [] h = refl
keep_none p (x ∷ xs) h = ground (arith, keep_none p xs)

drop_where_never : (ss : List Session) → drop_where (λ s. contains s.operator_id []) ss ≡ ss
drop_where_never [] = refl
drop_where_never (s ∷ ss) = ground (arith, drop_where_never ss)

map-forget_none : (trail : List AuditEntry) → map (forget []) trail ≡ trail
map-forget_none [] = refl
map-forget_none (a ∷ trail) = ground (arith, map-forget_none trail)

-- What a failed run of an action has left behind: the database that it found.
abbrev Unchanged : {A : Type 0} → Result A × World → World → Type 0
Unchanged r w = (x : Error) → r.0 ≡ err x → r.1.db ≡ w.db

-- A transaction that fails is rolled back, whatever it did.
transaction_atomic :
    {A : Type 0} (m : M A) (e : Engine) (w : World) → Unchanged (transaction m e w) w
unfolding transaction
transaction_atomic m e w x h = ground arith

refuse_if_atomic :
    {A : Type 0} (b : Bool) (y : Error) (m : M A) (e : Engine) (w : World)
    → Unchanged (m e w) w
    → Unchanged ((refuse_if b y >> m) e w) w
unfolding refuse_if ◌>>◌ ◌>>=◌
refuse_if_atomic true y m e w k x h = refl
refuse_if_atomic false y m e w k x h = k x h

now_atomic :
    {A : Type 0} (f : ℕ → M A) (e : Engine) (w : World)
    → ((at : ℕ) → Unchanged (f at e (advance w)) w)
    → Unchanged ((now >>= f) e w) w
unfolding now ◌>>=◌
now_atomic f e w k x h = k (millis (e.clock w.tick)) x h

-- Nothing happened to the database while the arguments were checked.
module _ (e : Engine) (w : World) (r : Reports e) where
  revoke_session_atomic : (hash : Text) → Unchanged (revoke_session hash e w) w
  unfolding revoke_session actions delete_sessions
  revoke_session_atomic hash x h =
      ground (arith, r (w.tick + 1), drop_where_none (λ s. s.token_hash == hash) w.db.sessions)

  rename_atomic : (id : ℕ) (name : Text) → Unchanged (rename id name e w) w
  unfolding rename actions update_name
  rename_atomic id name x h = ground (
    arith,
    r (w.tick + 1 + 1),
    update_where_none (λ o. o.id == id)
        (λ o. record o { name = name; updated_at = millis (e.clock w.tick) }) w.db.operators,
  )

  create_operator_atomic :
      (email name hash : Text) (owner : Bool)
      → Unchanged (create_operator email name hash owner e w) w
  unfolding create_operator actions insert_operator
  create_operator_atomic email name hash owner x h = ground (arith, r (w.tick + 1 + 1))

  start_session_atomic :
      (id : ℕ) (hash : Text) (expires_at : ℕ) → Unchanged (start_session id hash expires_at e w) w
  unfolding start_session actions insert_session
  start_session_atomic id hash expires_at x h = ground arith

  record_unauthenticated_atomic : (entry : Audited) → Unchanged (record_unauthenticated entry e w) w
  unfolding record_unauthenticated actions insert_unattributed
  record_unauthenticated_atomic entry x h = ground arith

  record_entry_atomic : (entry : Audited) → Unchanged (record_entry entry e w) w
  unfolding record_entry actions insert_attributed
  record_entry_atomic entry x h = ground (arith, r (w.tick + 1 + 1))

  revoke_operator_sessions_atomic : (id : ℕ) → Unchanged (revoke_operator_sessions id e w) w
  unfolding revoke_operator_sessions actions delete_sessions
  revoke_operator_sessions_atomic id x h = ground (arith, r (w.tick + 1))

  drop_expired_sessions_atomic : Unchanged (drop_expired_sessions e w) w
  unfolding drop_expired_sessions actions delete_sessions
  drop_expired_sessions_atomic x h = ground (arith, r (w.tick + 1 + 1))

  drop_expired_setup_tokens_atomic : Unchanged (drop_expired_setup_tokens e w) w
  unfolding drop_expired_setup_tokens actions delete_setup_tokens
  drop_expired_setup_tokens_atomic x h = ground (arith, r (w.tick + 1 + 1))

  set_password_atomic : (id : ℕ) (hash : Text) → Unchanged (set_password id hash e w) w
  unfolding set_password
  set_password_atomic id hash =
      refuse_if_atomic (hash == []) no_password_hash _ e w (transaction_atomic _ e w)

  issue_setup_token_atomic :
      (hash : Text) (expires_at : ℕ) → Unchanged (issue_setup_token hash expires_at e w) w
  unfolding issue_setup_token
  issue_setup_token_atomic hash expires_at = refuse_if_atomic (hash == []) no_token_hash _ e w (
      now_atomic _ e w (λ at.
        refuse_if_atomic (not (is_after expires_at at)) expired _ e (advance w)
          (transaction_atomic _ e (advance w))))

  redeem_setup_token_atomic :
      (hash email name password_hash : Text)
      → Unchanged (redeem_setup_token hash email name password_hash e w) w
  unfolding redeem_setup_token
  redeem_setup_token_atomic hash email name password_hash =
      refuse_if_atomic (hash == []) no_token_hash _ e w (
        refuse_if_atomic (normalise_email email == []) no_email _ e w (
          refuse_if_atomic (password_hash == []) no_password_hash _ e w (transaction_atomic _ e w)))

  remove_operator_atomic : (id : ℕ) → Unchanged (remove_operator id e w) w
  unfolding remove_operator actions delete_operator
  remove_operator_atomic id x h = ground (
    arith,
    r (w.tick + 1),
    drop_where_none (removable id) w.db.operators,
    keep_none (removable id) w.db.operators,
    drop_where_never w.db.sessions,
    map-forget_none w.db.audit_entries,
  )

  silently_atomic : {A : Type 0} (m : M A) → Unchanged (m e w) w → Unchanged (silently m e w) w
  unfolding pure ◌>>◌ ◌>>=◌
  silently_atomic m k x h = ground (arith, k x)

-- Where the driver can always tell how many rows a statement touched, a call that reports an error
-- has left the database as it found it: all fourteen operations that write are atomic.
pub perform_atomic :
    (c : Call) (e : Engine) (w : World)
    → Reports e
    → (x : Error) → (perform c e w).0 ≡ err x
    → (perform c e w).1.db ≡ w.db
unfolding perform
perform_atomic (Call.create_owner email name hash) e w r =
    silently_atomic e w r _
      (unfold create_owner in create_operator_atomic e w r email name hash true)
perform_atomic (Call.create_invited email name hash) e w r =
    silently_atomic e w r _
      (unfold create_invited in create_operator_atomic e w r email name hash false)
perform_atomic (Call.set_password id hash) e w r =
    silently_atomic e w r _ (set_password_atomic e w r id hash)
perform_atomic (Call.rename id name) e w r = rename_atomic e w r id name
perform_atomic (Call.remove_operator id) e w r = remove_operator_atomic e w r id
perform_atomic (Call.start_session id hash expires_at) e w r =
    silently_atomic e w r _ (start_session_atomic e w r id hash expires_at)
perform_atomic (Call.revoke_session hash) e w r = revoke_session_atomic e w r hash
perform_atomic (Call.revoke_operator_sessions id) e w r =
    silently_atomic e w r _ (revoke_operator_sessions_atomic e w r id)
perform_atomic Call.drop_expired_sessions e w r =
    silently_atomic e w r _ (drop_expired_sessions_atomic e w r)
perform_atomic (Call.issue_setup_token hash expires_at) e w r =
    silently_atomic e w r _ (issue_setup_token_atomic e w r hash expires_at)
perform_atomic (Call.redeem_setup_token hash email name password_hash) e w r =
    silently_atomic e w r _ (redeem_setup_token_atomic e w r hash email name password_hash)
perform_atomic Call.drop_expired_setup_tokens e w r =
    silently_atomic e w r _ (drop_expired_setup_tokens_atomic e w r)
perform_atomic (Call.record_entry entry) e w r = record_entry_atomic e w r entry
perform_atomic (Call.record_unauthenticated entry) e w r = record_unauthenticated_atomic e w r entry
