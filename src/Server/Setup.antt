-- ===== src/Server/Setup.antt =====
-- internal/server/setup.go: the setup token is redeemed for the owner's account.
pub mod Laws
use dokkup.Common.{
  ℕ, Bool, true, false, not, Option, none, some, [], ltb, if◌then◌else◌, length, ◌==◌, Text,
  number_key, text_key,
}
use dokkup.Common.Strings.{codes}
use dokkup.Server.Handler.{
  ◌>>=◌, ◌>>◌, Env, State, Progress, answer, go_on, H, respond, respond_if, asks, call, draw,
  handle,
}
use dokkup.Server.Http.{
  Message, too_many_attempts, no_database, invalid_json, unreadable_database, email_required,
  email_too_long, password_too_short, password_too_long, setup_owner_refusal, setup_token_refusal,
  unhashable_password, owner_not_created, operator_body, Response, reply, refusal, describe,
}
use dokkup.Server.RateLimit.{TokenBucket, take_token, retry_after_seconds}
use dokkup.Server.SignIn.{max_password_bytes, max_email_bytes, audited}
use dokkup.Store.Audit.{record_entry, record_unauthenticated}
use dokkup.Store.Operators.{normalise_email}
use dokkup.Store.Schema.{Operator, not_found, already_exists, owner_exists, Result, ok, err}
use dokkup.Store.SetupTokens.{redeem_setup_token, is_owned}

pub record SetupRequest : Type 0 where
  pub token : Text
  pub email : Text
  pub name : Text
  pub password : Text

abbrev pub min_password_bytes : ℕ
min_password_bytes = 12

abbrev pub setup_redeemed : Text
setup_redeemed = codes "setup-token.redeemed"

abbrev pub setup_rejected : Text
setup_rejected = codes "setup-token.rejected"

-- invalidSetup: what the caller is told, and what the trail says the attempt was on
pub record InvalidSetup : Type 0 where
  pub message : Message
  pub target : Text

unfoldable pub validate_setup : SetupRequest → Text × Option InvalidSetup
validate_setup body =
    let email = normalise_email body.email in
    if email == []
    then (email, some (record { message = email_required; target = [] }))
    else if ltb max_email_bytes (length email)
    then (email, some (record { message = email_too_long; target = [] }))
    else if ltb (length body.password) min_password_bytes
    then (email, some (record { message = password_too_short; target = email }))
    else if ltb max_password_bytes (length body.password)
    then (email, some (record { message = password_too_long; target = email }))
    else (email, none)

-- rejectSetup; a failure to record is logged and goes no further
unfoldable pub reject_setup : {A : Type 0} → ℕ → Message → Text → H A
reject_setup status message email = do
  recorded ← call (record_unauthenticated (audited 0 setup_rejected email))
  respond (refusal status message)

abbrev setup_charged : Bool × ℕ × TokenBucket → State → Progress (Unit {0}) × State
setup_charged (true, wait, b) s = (go_on tt, record s { setup_limiter = b })
setup_charged (false, wait, b) s = (
  answer (record (refusal 429 too_many_attempts) { retry_after = some (retry_after_seconds wait) }),
  record s { setup_limiter = b },
)

unfoldable pub limit_setup : ℕ → H (Unit {0})
limit_setup at e s = setup_charged (take_token at s.setup_limiter) s

unfoldable pub decoded_setup : Option SetupRequest → H SetupRequest
unfolding reject_setup
decoded_setup none = reject_setup 400 invalid_json []
decoded_setup (some body) = asks (λ _. body)

unfoldable pub valid_setup : Text × Option InvalidSetup → H Text
unfolding reject_setup
valid_setup (email, none) = asks (λ _. email)
valid_setup (email, some invalid) = reject_setup 400 invalid.message invalid.target

-- a cheap look before the password is hashed; what decides is the index behind the redemption
unfoldable pub unowned : Text → Result Bool → H (Unit {0})
unfolding reject_setup
unowned email (ok false) = asks (λ _. tt)
unowned email (ok true) = reject_setup 409 setup_owner_refusal email
unowned email (err _) = respond (refusal 500 unreadable_database)

unfoldable pub hashed : Option Text → H Text
hashed none = respond (refusal 500 unhashable_password)
hashed (some hash) = asks (λ _. hash)

unfoldable pub redeemed : Text → Result Operator → H Operator
unfolding reject_setup
redeemed email (ok o) = asks (λ _. o)
redeemed email (err not_found) = reject_setup 403 setup_token_refusal email
redeemed email (err owner_exists) = reject_setup 409 setup_owner_refusal email
redeemed email (err already_exists) = reject_setup 409 setup_owner_refusal email
redeemed email (err _) = respond (refusal 500 owner_not_created)

-- from the password's hash on
unfoldable pub claim : SetupRequest → Text → H (Unit {0})
unfolding hashed redeemed
claim body email = do
  n ← draw
  h ← asks (λ e. e.secrets.hash_password n body.password)
  password_hash ← hashed h
  token_hash ← asks (λ e. e.secrets.hash_token body.token)
  r ← call (redeem_setup_token token_hash email body.name password_hash)
  owner ← redeemed email r
  recorded ← call (record_entry (audited owner.id setup_redeemed owner.email))
  respond (reply 201 (operator_body (describe owner)))

unfoldable pub setup : ℕ → Option SetupRequest → H (Unit {0})
unfolding limit_setup decoded_setup validate_setup valid_setup unowned claim
setup at request = do
  limit_setup at
  cfg ← asks (λ e. e.cfg)
  respond_if (not cfg.has_store) (refusal 503 no_database)
  body ← decoded_setup request
  email ← valid_setup (validate_setup body)
  owned ← call is_owned
  unowned email owned
  claim body email

-- handleSetup
unfoldable pub handle_setup : ℕ → Option SetupRequest → Env → State → Response × State
unfolding setup handle
handle_setup at request = handle (setup at request)
