-- ===== src/Server/Guards.antt =====
-- internal/server/middleware.go and the route table of server.go: the CSRF header, the session, and
-- the handlers behind them.
pub mod Laws
pub mod Journeys
use dokkup.Common.{
  Bool, true, false, not, ◌&&◌, ◌||◌, Option, none, some, [], if◌then◌else◌, ◌==◌, Text, number_key,
  text_key,
}
use dokkup.Common.Strings.{codes, has_prefix}
use dokkup.Server.Handler.{◌>>=◌, ◌>>◌, H, respond_if, asks, call}
use dokkup.Server.Http.{not_signed_in, missing_csrf_header, refusal}
use dokkup.Store.Schema.{Operator, Result, ok, err}
use dokkup.Store.Sessions.{session_operator}

pub data Method : Type 0 where
  get head options post put patch delete : Method

-- A request as the guards see it: the cookie's value, if there is a session cookie, and whether the
-- CSRF header is there and not empty.
pub record Request : Type 0 where
  pub method : Method
  pub path : Text
  pub cookie : Option Text
  pub has_csrf : Bool

abbrev pub api_prefix : Text
api_prefix = codes "/api/"

-- unauthenticatedRoutes
abbrev pub unauthenticated : Text → Bool
unauthenticated path =
    path == codes "/api/health"
    || path == codes "/api/session"
    || path == codes "/api/setup"
    || path == codes "/api/signin"

abbrev pub is_safe : Method → Bool
is_safe get = true
is_safe head = true
is_safe options = true
is_safe _ = false

-- an error of the store other than a missing row is logged, and authenticates nobody either
abbrev pub holder_of : Result Operator → Option Operator
holder_of (ok o) = some o
holder_of (err _) = none

-- the second half of authenticate, for a cookie that is there and not empty
unfoldable pub session_holder : Text → H (Option Operator)
session_holder value = do
  hash ← asks (λ e. e.secrets.hash_token value)
  r ← call (session_operator hash)
  asks (λ _. holder_of r)

abbrev pub cookie_value : Option Text → Text
cookie_value none = []
cookie_value (some v) = v

-- authenticate
unfoldable pub authenticate : Request → H (Option Operator)
unfolding session_holder
authenticate r = do
  cfg ← asks (λ e. e.cfg)
  if cfg.has_store && not (cookie_value r.cookie == [])
      then session_holder (cookie_value r.cookie)
      else asks (λ _. none)

abbrev pub is_some : {A : Type 0} → Option A → Bool
is_some none = false
is_some (some _) = true

-- requireSession; the handler is given the operator on the context, or none
unfoldable pub require_session : (Request → Option Operator → H (Unit {0})) → Request → H (Unit {0})
unfolding authenticate
require_session next r = do
  operator ← authenticate r
  respond_if (not (is_some operator || unauthenticated r.path)) (refusal 401 not_signed_in)
  next r operator

-- requireCSRF
unfoldable pub require_csrf : (Request → H (Unit {0})) → Request → H (Unit {0})
require_csrf next r = do
  respond_if (not (is_safe r.method || r.has_csrf)) (refusal 403 missing_csrf_header)
  next r

-- apiOnly
unfoldable pub api_only :
    (Request → H (Unit {0})) → (Request → H (Unit {0})) → Request → H (Unit {0})
api_only guarded next r = if has_prefix r.path api_prefix then guarded r else next r

-- Handler, but for the fixed security headers and the request log
unfoldable pub guarded : (Request → Option Operator → H (Unit {0})) → Request → H (Unit {0})
unfolding require_session require_csrf api_only
guarded mux =
    let inner : Request → H (Unit {0}) = api_only (require_session mux) (λ r. mux r none) in
    api_only (require_csrf inner) inner
