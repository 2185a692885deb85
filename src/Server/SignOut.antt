-- ===== src/Server/SignOut.antt =====
-- internal/server/session.go: handleSignOut.
use dokkup.Common.{Bool, true, false, not, Option, none, some, [], Text}
use dokkup.Server.Handler.{◌>>=◌, ◌>>◌, Env, State, H, respond, respond_if, asks, call, handle}
use dokkup.Server.Http.{
  Config, Cookie, not_signed_in, no_session_ended, no_content, Response, reply, refusal,
}
use dokkup.Server.SignIn.{session_ended, audited}
use dokkup.Store.Audit.{record_entry}
use dokkup.Store.Schema.{Operator, not_found, Result, ok, err}
use dokkup.Store.Sessions.{revoke_session}

-- clearedSessionCookie
abbrev pub cleared_session_cookie : Config → Cookie
cleared_session_cookie cfg = record {
  value = [];
  max_age = none;
  http_only = true;
  secure = not cfg.plain_http;
  same_site_strict = true;
}

-- the row is gone, or was never there; any other error stops the handler
abbrev pub survives : Result (Unit {0}) → Bool
survives (ok _) = false
survives (err not_found) = false
survives (err _) = true

unfoldable pub end_session : Option Text → H (Unit {0})
end_session none = asks (λ _. tt)
end_session (some value) = do
  hash ← asks (λ e. e.secrets.hash_token value)
  r ← call (revoke_session hash)
  respond_if (survives r) (refusal 500 no_session_ended)

unfoldable pub signed_in : Option Operator → H Operator
signed_in none = respond (refusal 401 not_signed_in)
signed_in (some o) = asks (λ _. o)

-- `cookie` is the value of the session cookie, if the request has one
unfoldable pub sign_out : Option Text → Option Operator → H (Unit {0})
unfolding end_session signed_in
sign_out cookie operator = do
  o ← signed_in operator
  end_session cookie
  cfg ← asks (λ e. e.cfg)
  recorded ← call (record_entry (audited o.id session_ended o.email))
  respond (record (reply 204 no_content) { cookie = some (cleared_session_cookie cfg) })

-- handleSignOut
unfoldable pub handle_sign_out : Option Text → Option Operator → Env → State → Response × State
unfolding sign_out handle
handle_sign_out cookie operator = handle (sign_out cookie operator)
