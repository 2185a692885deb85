-- ===== src/Command.antt =====
-- internal/cli/setuptoken.go: the command that issues the token by which a host is claimed. Opening and
-- closing the database, and giving its files back to the service's account, are not modelled.
pub mod Laws
use dokkup.Common.{ℕ, ◌+◌, ◌*◌, none, some, [], Text}
use dokkup.Common.Strings.{codes}
use dokkup.Server.Http.{Secrets}
use dokkup.Server.SignIn.{audited, started}
use dokkup.Store.Audit.{record_unauthenticated}
use dokkup.Store.Migrations.{recorded}
use dokkup.Store.Schema.{err, failed, ok}
use dokkup.Store.SetupTokens.{issue_setup_token}
use dokkup.Store.Sql.{◌>>=◌, ◌>>◌, M, pure, advance}

-- setupTokenIssued
pub record IssuedToken : Type 0 where
  pub token : Text
  pub expires : ℕ

-- setupTokenIssuedAction
abbrev pub setup_token_issued : Text
setup_token_issued = codes "setup-token.issued"

-- TokenLifetime, in nanoseconds
abbrev pub token_lifetime : ℕ
token_lifetime = 30 * 60 * 1000000000

-- secret.NewToken, whose draw is numbered by the moment at which it happens
unfoldable pub new_token : Secrets → M (Text × Text)
new_token k e w = elim (k.new_token w.tick) [
  | none ↦ (err failed, advance w)
  | some drawn ↦ (ok drawn, advance w)
]

-- time.Now
unfoldable pub clock_now : M ℕ
clock_now e w = (ok (e.clock w.tick), advance w)

-- setupTokenWrite
unfoldable pub write_setup_token : Secrets → ℕ → M IssuedToken
write_setup_token k ttl = do
  drawn ← new_token k
  started ← clock_now
  stored ← issue_setup_token drawn.1 (started + ttl)
  recorded ← record_unauthenticated (audited 0 setup_token_issued [])
  pure (record { token = drawn.0; expires = stored.expires_at })
