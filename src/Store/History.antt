-- ===== src/Store/History.antt =====
-- Every sequence of calls of the operations that write, on an engine that fails where it likes.
use dokkup.Store.Operators
use dokkup.Store.Sessions
use dokkup.Store.SetupTokens
use dokkup.Store.Audit
use dokkup.Common.{ℕ, List, [], ◌∷◌, Text}
use dokkup.Store.Audit.{Audited}
use dokkup.Store.Operations.{
  create_owner-Preserves, create_invited-Preserves, set_password-Preserves, rename-Preserves,
  remove_operator-Preserves, start_session-Preserves, revoke_session-Preserves,
  revoke_operator_sessions-Preserves, drop_expired_sessions-Preserves, issue_setup_token-Preserves,
  redeem_setup_token-Preserves, drop_expired_setup_tokens-Preserves, record_entry-Preserves,
  record_unauthenticated-Preserves,
}
use dokkup.Store.Preservation.{Preserves, Preserves-pure, Preserves->>}
use dokkup.Store.Respects.{Respects}
use dokkup.Store.Schema.{Engine, IsEngine, Db}
use dokkup.Store.Sql.{World, M, pure, ◌>>◌}
use dokkup.Store.Valid.{IsValid}
use dokkup.Store.Valid.Respected.{IsValid-respected}

-- a call, with its arguments
pub data Call : Type 0 where
  create_owner create_invited : Text → Text → Text → Call
  set_password : ℕ → Text → Call
  rename : ℕ → Text → Call
  remove_operator : ℕ → Call
  start_session : ℕ → Text → ℕ → Call
  revoke_session : Text → Call
  revoke_operator_sessions : ℕ → Call
  drop_expired_sessions : Call
  issue_setup_token : Text → ℕ → Call
  redeem_setup_token : Text → Text → Text → Text → Call
  drop_expired_setup_tokens : Call
  record_entry record_unauthenticated : Audited → Call

abbrev pub silently : {A : Type 0} → M A → M (Unit {0})
silently m = m >> pure tt

unfoldable pub perform : Call → M (Unit {0})
perform (create_owner email name hash) = silently (Operators.create_owner email name hash)
perform (create_invited email name hash) = silently (Operators.create_invited email name hash)
perform (set_password id hash) = silently (Operators.set_password id hash)
perform (rename id name) = Operators.rename id name
perform (remove_operator id) = Operators.remove_operator id
perform (start_session id hash expires_at) = silently (Sessions.start_session id hash expires_at)
perform (revoke_session hash) = Sessions.revoke_session hash
perform (revoke_operator_sessions id) = silently (Sessions.revoke_operator_sessions id)
perform drop_expired_sessions = silently Sessions.drop_expired_sessions
perform (issue_setup_token hash expires_at) =
    silently (SetupTokens.issue_setup_token hash expires_at)
perform (redeem_setup_token hash email name password_hash) =
    silently (SetupTokens.redeem_setup_token hash email name password_hash)
perform drop_expired_setup_tokens = silently SetupTokens.drop_expired_setup_tokens
perform (record_entry entry) = Audit.record_entry entry
perform (record_unauthenticated entry) = Audit.record_unauthenticated entry

-- each caller goes on from what the call before it left, failed or not
unfoldable pub run : List Call → Engine → World → World
unfolding perform
run [] e w = w
run (c ∷ calls) e w = run calls e (perform c e w).1

module _ {P : Db → Type 0} (r : Respects P) where
  silently-Preserves : {A : Type 0} (m : M A) → Preserves P m → Preserves P (silently m)
  silently-Preserves m k = Preserves->> m (pure tt) k (Preserves-pure tt)

  perform-Preserves : (c : Call) → Preserves P (perform c)
  unfolding perform
  perform-Preserves (create_owner email name hash) =
      silently-Preserves _ (create_owner-Preserves r email name hash)
  perform-Preserves (create_invited email name hash) =
      silently-Preserves _ (create_invited-Preserves r email name hash)
  perform-Preserves (set_password id hash) = silently-Preserves _ (set_password-Preserves r id hash)
  perform-Preserves (rename id name) = rename-Preserves r id name
  perform-Preserves (remove_operator id) = remove_operator-Preserves r id
  perform-Preserves (start_session id hash expires_at) =
      silently-Preserves _ (start_session-Preserves r id hash expires_at)
  perform-Preserves (revoke_session hash) = revoke_session-Preserves r hash
  perform-Preserves (revoke_operator_sessions id) =
      silently-Preserves _ (revoke_operator_sessions-Preserves r id)
  perform-Preserves drop_expired_sessions = silently-Preserves _ (drop_expired_sessions-Preserves r)
  perform-Preserves (issue_setup_token hash expires_at) =
      silently-Preserves _ (issue_setup_token-Preserves r hash expires_at)
  perform-Preserves (redeem_setup_token hash email name password_hash) =
      silently-Preserves _ (redeem_setup_token-Preserves r hash email name password_hash)
  perform-Preserves drop_expired_setup_tokens =
      silently-Preserves _ (drop_expired_setup_tokens-Preserves r)
  perform-Preserves (record_entry entry) = record_entry-Preserves r entry
  perform-Preserves (record_unauthenticated entry) = record_unauthenticated-Preserves r entry

  pub run-Preserves :
      (calls : List Call) (e : Engine) (w : World) → IsEngine e → P w.db → P (run calls e w).db
  unfolding run
  run-Preserves [] e w l v = v
  run-Preserves (c ∷ calls) e w l v =
      run-Preserves calls e (perform c e w).1 l ((perform-Preserves c).at e l w v)

-- With new keys that are in no row, every sequence of calls leads from a valid database to a valid
-- one: the ids and the addresses of accounts, and the token hashes of sessions and of setup tokens, are
-- unique, there is at most one owner, every stored account has a normalised address and a password hash, and no session or trail entry refers to an
-- account that is gone. This holds whichever statements fail on the way.
pub run-IsValid :
    (calls : List Call) (e : Engine) (w : World)
    → IsEngine e
    → IsValid w.db
    → IsValid (run calls e w).db
run-IsValid = run-Preserves IsValid-respected
