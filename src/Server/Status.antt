-- ===== src/Server/Status.antt =====
-- internal/server/server.go: handleHealth and handleSession, which anybody may ask.
use dokkup.Common.{ℕ, Bool, true, false, Option, none, some, Text}
use dokkup.Server.Guards.{is_some}
use dokkup.Server.Handler.{◌>>=◌, H, respond, asks, call}
use dokkup.Server.Http.{
  restricted, OperatorBody, DokkuHealth, unconfigured, unreachable, running, session_body,
  health_body, reply, describe,
}
use dokkup.Store.Schema.{Operator, Result, ok, err}
use dokkup.Store.SetupTokens.{is_owned}

-- what Dokku's client answers, where there is one: a version, or an error
abbrev pub dokku_health : Option (Option Text) → DokkuHealth
dokku_health none = unconfigured
dokku_health (some none) = unreachable
dokku_health (some (some version)) = running version

abbrev pub health_status : DokkuHealth → ℕ
health_status unreachable = 503
health_status _ = 200

-- handleHealth
unfoldable pub health : Option (Option Text) → H (Unit {0})
health dokku = do
  cfg ← asks (λ e. e.cfg)
  let h = dokku_health dokku
  respond (reply (health_status h) (health_body cfg.version h))

-- whether the setup screen is offered: a database that cannot be read counts as set up
abbrev pub completed : Result Bool → Bool
completed (ok owned) = owned
completed (err _) = true

unfoldable pub setup_completed_now : Bool → H Bool
setup_completed_now true = do r ← call is_owned; asks (λ _. completed r)
setup_completed_now false = asks (λ _. false)

abbrev pub described : Option Operator → Option OperatorBody
described none = none
described (some o) = some (describe o)

-- handleSession
unfoldable pub session_status : Option Operator → H (Unit {0})
unfolding setup_completed_now
session_status operator = do
  cfg ← asks (λ e. e.cfg)
  set_up ← setup_completed_now cfg.has_store
  respond (
      reply 200 (
        session_body (record {
          mode = cfg.mode;
          owner_only = restricted cfg.mode;
          authenticated = is_some operator;
          setup_completed = set_up;
          operator = described operator;
        })))
