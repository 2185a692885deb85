-- ===== src/Store/Respects.antt =====
-- What it takes of the statements of internal/store for a property of the database to be kept. The
-- arguments of a statement are known to have passed the checks that its callers make.
use dokkup.Common.{ℕ, ◌≤◌, ◌≡◌, ◌≢◌, Bool, [], Text}
use dokkup.Store.Operators.{normalise_email}
use dokkup.Store.Preservation.{Leaves}
use dokkup.Store.Schema.{
  Operator, Session, SetupToken, AuditEntry, Db, Engine, IsEngine, insert_operator, update_password,
  update_name, delete_operator, insert_session, delete_sessions, delete_setup_tokens,
  insert_setup_token, insert_attributed, insert_unattributed,
}

-- An account can be signed in to: its address is normalised, and there is a password to check.
pub record IsAccount (o : Operator) : Type 0 where
  pub has_email : o.email ≢ []
  pub has_password : o.password_hash ≢ []
  pub normal : normalise_email o.email ≡ o.email

pub record IsSession (s : Session) : Type 0 where
  pub has_hash : s.token_hash ≢ []
  pub lasts : s.created_at ≤ s.expires_at

pub record Respects (P : Db → Type 0) : Type 0 where
  pub on_insert_operator :
      (e : Engine) (o : Operator) (d : Db)
      → IsEngine e
      → IsAccount o
      → P d
      → Leaves P (insert_operator e o d)
  pub on_update_password :
      (hash : Text) (at id : ℕ) (d : Db) → hash ≢ [] → P d → Leaves P (update_password hash at id d)
  pub on_update_name :
      (name : Text) (at id : ℕ) (d : Db) → P d → Leaves P (update_name name at id d)
  pub on_delete_operator : (id : ℕ) (d : Db) → P d → Leaves P (delete_operator id d)
  pub on_insert_session : (s : Session) (d : Db) → IsSession s → P d → Leaves P (insert_session s d)
  pub on_delete_sessions : (p : Session → Bool) (d : Db) → P d → Leaves P (delete_sessions p d)
  pub on_delete_setup_tokens :
      (p : SetupToken → Bool) (d : Db) → P d → Leaves P (delete_setup_tokens p d)
  pub on_insert_setup_token : (t : SetupToken) (d : Db) → P d → Leaves P (insert_setup_token t d)
  pub on_insert_attributed :
      (e : Engine) (id : ℕ) (a : AuditEntry) (d : Db) → P d → Leaves P (insert_attributed e id a d)
  pub on_insert_unattributed :
      (e : Engine) (a : AuditEntry) (d : Db) → P d → Leaves P (insert_unattributed e a d)
