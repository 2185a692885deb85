-- ===== src/Server/SignIn.antt =====
-- internal/server/session.go: handleSignIn.
pub mod Sessions
pub mod Refusals
use dokkup.Common.{
  ℕ, ◌+◌, ◌-◌, ◌/◌, Bool, true, false, not, ◌&&◌, ◌||◌, Option, none, some, [], ltb, if◌then◌else◌,
  length, ◌==◌, Text, number_key, text_key,
}
use dokkup.Common.Strings.{codes}
use dokkup.Server.Handler.{
  ◌>>=◌, ◌>>◌, Env, State, Progress, answer, go_on, H, respond, respond_if, asks, call, time_now,
  draw, handle,
}
use dokkup.Server.Http.{
  restricted, Config, Cookie, too_many_attempts, no_database, invalid_json, signin_refusal,
  unreadable_database, no_session_started, operator_body, Response, reply, refusal, describe,
}
use dokkup.Server.RateLimit.{TokenBucket, take_token, retry_after_seconds}
use dokkup.Store.Audit.{record_entry, record_unauthenticated, Audited}
use dokkup.Store.Operators.{normalise_email, operator_by_email}
use dokkup.Store.Schema.{Operator, Session, not_found, Result, ok, err}
use dokkup.Store.Sessions.{start_session}

pub record SigninRequest : Type 0 where
  pub email : Text
  pub password : Text

abbrev pub max_password_bytes : ℕ
max_password_bytes = 1024

abbrev pub max_email_bytes : ℕ
max_email_bytes = 320

-- 7 * 24 * time.Hour, in nanoseconds
abbrev pub session_lifetime : ℕ
session_lifetime = 604800000000000

abbrev pub session_started : Text
session_started = codes "session.started"

abbrev pub session_ended : Text
session_ended = codes "session.ended"

abbrev pub session_rejected : Text
session_rejected = codes "session.rejected"

-- An entry for the trail, by whom (0 for nobody), what and on what.
abbrev pub audited : ℕ → Text → Text → Audited
audited operator action target = record {
  operator_id = operator;
  action = action;
  target = target;
  config_key = [];
}

-- recordRejectedSignIn; a failure to record is logged and goes no further
unfoldable pub record_rejected : Audited → H (Unit {0})
record_rejected entry = do
  r ← call (if entry.operator_id == 0 then record_unauthenticated entry else record_entry entry)
  asks (λ _. tt)

-- rejectSignIn
unfoldable pub reject_signin : {A : Type 0} → Audited → H A
unfolding record_rejected
reject_signin entry = do record_rejected entry; respond (refusal 401 signin_refusal)

abbrev refuse_flood : Bool × ℕ × TokenBucket → Response
refuse_flood (_, wait, _) = record (refusal 429 too_many_attempts) {
  retry_after = some (retry_after_seconds wait);
}

abbrev charged : Bool × ℕ × TokenBucket → State → Progress (Unit {0}) × State
charged (true, wait, b) s = (go_on tt, record s { signin_limiter = b })
charged (false, wait, b) s =
    (answer (refuse_flood (false, wait, b)), record s { signin_limiter = b })

-- the limiter reads the clock by itself, here the moment of the attempt
unfoldable pub limit_signin : ℕ → H (Unit {0})
limit_signin at e s = charged (take_token at s.signin_limiter) s

-- a body that did not decode
unfoldable pub decoded : Option SigninRequest → H SigninRequest
decoded none = do
  record_rejected (audited 0 session_rejected [])
  respond (refusal 400 invalid_json)
decoded (some body) = asks (λ _. body)

abbrev pub malformed : Text → Text → Bool
malformed email password =
    email == [] || ltb max_email_bytes (length email) || ltb max_password_bytes (length password)

unfoldable pub bounded : Text → Text → H (Unit {0})
unfolding reject_signin
bounded email password =
    if malformed email password
    then reject_signin
        (audited 0 session_rejected (if ltb max_email_bytes (length email) then [] else email))
    else asks (λ _. tt)

-- the operator signing in; an address that is not known is refused like a password that is wrong
unfoldable pub known : Text → Result Operator → H Operator
unfolding reject_signin
known email (ok o) = asks (λ _. o)
known email (err not_found) = reject_signin (audited 0 session_rejected email)
known email (err _) = respond (refusal 500 unreadable_database)

-- a stored hash that does not parse is logged, and is not a password that matched
unfoldable pub matching : Text → Option Bool → H (Unit {0})
unfolding reject_signin
matching email (some true) = asks (λ _. tt)
matching email _ = reject_signin (audited 0 session_rejected email)

-- IP Mode is for the owner alone; this refusal knows whom it refused
unfoldable pub permitted : Text → Config → Operator → H (Unit {0})
unfolding reject_signin
permitted email cfg o =
    if restricted cfg.mode && not o.is_owner
    then reject_signin (audited o.id session_rejected email)
    else asks (λ _. tt)

-- the operator whom an address and a password sign in
unfoldable pub checked_operator : Config → SigninRequest → H Operator
unfolding bounded known matching permitted
checked_operator cfg body = do
  let email = normalise_email body.email
  bounded email body.password
  found ← call (operator_by_email email)
  operator ← known email found
  fits ← asks (λ e. e.secrets.verify_password operator.password_hash body.password)
  matching email fits
  permitted email cfg operator
  asks (λ _. operator)

unfoldable pub drawn : Option (Text × Text) → H (Text × Text)
drawn none = respond (refusal 500 no_session_started)
drawn (some t) = asks (λ _. t)

unfoldable pub started : Result Session → H (Unit {0})
started (ok _) = asks (λ _. tt)
started (err _) = respond (refusal 500 no_session_started)

-- sessionCookie, at the moment `now`; time.Until gives whole seconds
abbrev pub session_cookie : Config → Text → ℕ → ℕ → Cookie
session_cookie cfg token expires now = record {
  value = token;
  max_age = some ((expires - now) / 1000000000);
  http_only = true;
  secure = not cfg.plain_http;
  same_site_strict = true;
}

-- the session, its cookie and its entry in the trail
unfoldable pub begin_session : Config → Operator → H (Unit {0})
unfolding drawn started
begin_session cfg operator = do
  n ← draw
  t ← asks (λ e. e.secrets.new_token n)
  fresh ← drawn t
  signed_in_at ← time_now
  let expires = signed_in_at + session_lifetime
  session ← call (start_session operator.id fresh.1 expires)
  started session
  cookie_at ← time_now
  recorded ← call (record_entry (audited operator.id session_started operator.email))
  respond (record (reply 200 (operator_body (describe operator))) {
    cookie = some (session_cookie cfg fresh.0 expires cookie_at);
  })

unfoldable pub sign_in : ℕ → Option SigninRequest → H (Unit {0})
unfolding limit_signin decoded checked_operator begin_session
sign_in at request = do
  limit_signin at
  cfg ← asks (λ e. e.cfg)
  respond_if (not cfg.has_store) (refusal 503 no_database)
  body ← decoded request
  operator ← checked_operator cfg body
  begin_session cfg operator

-- handleSignIn
unfoldable pub handle_sign_in : ℕ → Option SigninRequest → Env → State → Response × State
unfolding sign_in handle
handle_sign_in at request = handle (sign_in at request)
