-- ===== src/Server/Http.antt =====
-- What the handlers of internal/server are given and what they answer. A request is what net/http and
-- encoding/json have made of it; a response is its status, its JSON body and the headers that differ.
use dokkup.Common.{ℕ, Bool, true, false, Option, none, Text}
use dokkup.Store.Schema.{Operator}

pub data Mode : Type 0 where
  published ip : Mode

-- func (m Mode) Restricted
abbrev pub restricted : Mode → Bool
restricted ip = true
restricted published = false

-- Config; `has_store` is whether Store is set.
pub record Config : Type 0 where
  pub mode : Mode
  pub plain_http : Bool
  pub has_store : Bool
  pub version : Text

-- The part of internal/secret that the server calls: a drawn token with its hash, the hash of a token,
-- the hash of a password, and whether a password fits a stored hash. `none` is an error. Draws are
-- numbered, since each is fresh randomness.
pub record Secrets : Type 0 where
  pub new_token : ℕ → Option (Text × Text)
  pub hash_token : Text → Text
  pub hash_password : ℕ → Text → Option Text
  pub verify_password : Text → Text → Option Bool

-- the session cookie; a lifetime of `none` is MaxAge -1, which tells the browser to drop it
pub record Cookie : Type 0 where
  pub value : Text
  pub max_age : Option ℕ
  pub http_only : Bool
  pub secure : Bool
  pub same_site_strict : Bool

-- the messages of the error bodies
pub data Message : Type 0 where
  too_many_attempts no_database invalid_json signin_refusal not_signed_in : Message
  unreadable_database no_session_started no_session_ended : Message
  email_required email_too_long password_too_short password_too_long : Message
  setup_owner_refusal setup_token_refusal unhashable_password owner_not_created : Message
  missing_csrf_header post_only : Message

-- operatorBody: there is no field for the password hash
pub record OperatorBody : Type 0 where
  pub email : Text
  pub name : Text
  pub is_owner : Bool

pub record SessionBody : Type 0 where
  pub mode : Mode
  pub owner_only : Bool
  pub authenticated : Bool
  pub setup_completed : Bool
  pub operator : Option OperatorBody

-- the health endpoint: its own version, and Dokku's, or that Dokku is unreachable
pub data DokkuHealth : Type 0 where
  unconfigured unreachable : DokkuHealth
  running : Text → DokkuHealth

pub data Body : Type 0 where
  no_content : Body
  error_body : Message → Body
  operator_body : OperatorBody → Body
  session_body : SessionBody → Body
  health_body : Text → DokkuHealth → Body

pub record Response : Type 0 where
  pub status : ℕ
  pub body : Body
  pub retry_after : Option ℕ
  pub cookie : Option Cookie

-- writeJSON
abbrev pub reply : ℕ → Body → Response
reply status body = record { status = status; body = body; retry_after = none; cookie = none }

abbrev pub refusal : ℕ → Message → Response
refusal status message = reply status (error_body message)

abbrev pub describe : Operator → OperatorBody
describe o = record { email = o.email; name = o.name; is_owner = o.is_owner }
