-- ===== src/Store/Sessions.antt =====
-- internal/store/session.go: signed-in browsers. An expiry is given in nanoseconds, and kept in
-- milliseconds.
pub mod Book
pub mod Lifetime
pub mod Refinement
use dokkup.Common.{ℕ, not, [], leb, ◌==◌, Text, number_key, text_key}
use dokkup.Store.Schema.{
  Operator, Session, Error, unique_key, foreign_key, not_found, already_exists, no_token_hash,
  expired, insert_session, delete_sessions, select_session, select_session_operator,
}
use dokkup.Store.Sql.{
  M, refuse_if, map_error, exec, query, millis, now, is_after, not_found_error, ◌>>=◌, ◌>>◌, ended,
  pure, reported,
}

abbrev pub session_error : Error → Error
session_error foreign_key = not_found
session_error unique_key = already_exists
session_error x = x

unfoldable pub start_session : ℕ → Text → ℕ → M Session
start_session operator_id hash expires_at = do
  refuse_if (hash == []) no_token_hash
  created ← now
  refuse_if (not (is_after expires_at created)) expired
  let session : Session = record {
    token_hash = hash;
    operator_id = operator_id;
    created_at = created;
    expires_at = millis expires_at;
  }
  n ← map_error session_error (exec (λ _. insert_session session))
  pure session

unfoldable pub session_operator : Text → M Operator
session_operator hash = do
  at ← now
  map_error not_found_error (query (select_session_operator hash at))

-- Session
unfoldable pub session_by_hash : Text → M Session
session_by_hash hash = do at ← now; map_error not_found_error (query (select_session hash at))

unfoldable pub revoke_session : Text → M (Unit {0})
revoke_session hash = do
  n ← exec (λ _. delete_sessions (λ s. s.token_hash == hash))
  ended ← reported n
  refuse_if (ended == 0) not_found

unfoldable pub revoke_operator_sessions : ℕ → M ℕ
revoke_operator_sessions id = do
  n ← exec (λ _. delete_sessions (λ s. s.operator_id == id))
  reported n

unfoldable pub drop_expired_sessions : M ℕ
drop_expired_sessions = do
  at ← now
  n ← exec (λ _. delete_sessions (λ s. leb s.expires_at at))
  reported n
