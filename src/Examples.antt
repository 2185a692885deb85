-- ===== src/Examples.antt =====
-- A small host on which every conditional theorem is put to use: an engine that does not fail, secrets
-- that are told from texts, an owner, an account and a session.
mod Hosts
mod Sites
mod Accounts
mod Clients
mod Certificates
mod Tokens
mod Limits
mod Passwords
mod Requests
mod Starts
mod Updates
mod Vhosts
use dokkup.Common.{
  ℕ, ◌+◌, ◌*◌, ◌≤◌, ◌<◌, ◌≡◌, refl, true, false, some, List, [], ◌∷◌, arith, ltb, if◌then◌else◌,
  contains, ◌==◌, same_number_iff, number_key, text_key,
}
use dokkup.Common.Strings.{codes}
use dokkup.Server.Handler.{Env, State}
use dokkup.Server.Http.{ip, Config, Secrets}
use dokkup.Server.RateLimit.{new_token_bucket}
use dokkup.Store.Audit.{audit_entries}
use dokkup.Store.Schema.{
  Operator, Session, SetupToken, AuditEntry, empty, Engine, IsEngine, IsHealthy,
}
use dokkup.Store.Sql.{World}

abbrev pub above : List ℕ → ℕ
above [] = 1
above (x ∷ xs) = let m = above xs in if ltb x m then m else x + 1

above-fresh : (xs : List ℕ) (k : ℕ) → above xs ≤ k → contains k xs ≡ false
above-fresh [] k h = refl
above-fresh (x ∷ xs) k h = ground (arith, above-fresh xs k, same_number_iff k x)

above-pos : (xs : List ℕ) → 0 < above xs
above-pos [] = omega arith
above-pos (x ∷ xs) = ground (arith, above-pos xs)

-- a millisecond passes with every statement
abbrev pub engine : Engine
engine = record {
  fault = λ _. false;
  driver_fault = λ _. false;
  clock = λ n. (n + 1000) * 1000000;
  new_id = above;
  names_owner = true;
}

pub engine-IsEngine : IsEngine engine
engine-IsEngine = record {
  id_fresh = λ xs. above-fresh xs (above xs) (omega arith);
  id_pos = above-pos;
}

pub engine-IsHealthy : IsHealthy engine
engine-IsHealthy = record { no_fault = λ n. refl; reports = λ n. refl }

abbrev pub secrets : Secrets
secrets = record {
  new_token = λ n. some (codes "token", codes "#token");
  hash_token = λ t. b'#' ∷ t;
  hash_password = λ n p. some (b'$' ∷ p);
  verify_password = λ h p. some (h == (b'$' ∷ p));
}

abbrev pub config : Config
config = record { mode = ip; plain_http = true; has_store = true; version = codes "1.2.3" }

abbrev pub env : Env
env = record { cfg = config; secrets = secrets; engine = engine }

abbrev pub ana : Operator
ana = record {
  id = 1;
  email = codes "ana@example.com";
  name = codes "Ana";
  password_hash = codes "$correct horse";
  is_owner = true;
  created_at = 1;
  updated_at = 1;
}

abbrev pub bo : Operator
bo = record {
  id = 2;
  email = codes "bo@example.com";
  name = codes "Bo";
  password_hash = codes "$battery staple";
  is_owner = false;
  created_at = 2;
  updated_at = 2;
}

abbrev pub bo_session : Session
bo_session = record { token_hash = codes "#bo"; operator_id = 2; created_at = 3; expires_at = 9000 }

abbrev pub bo_entry : AuditEntry
bo_entry = record {
  id = 1;
  operator_id = some 2;
  operator_email = bo.email;
  action = codes "session.started";
  target = bo.email;
  config_key = [];
  recorded_at = 3;
}

-- a host with two accounts
abbrev pub owned : World
owned = record {
  db = record {
    operators = ana ∷ bo ∷ [];
    sessions = bo_session ∷ [];
    setup_tokens = [];
    audit_entries = bo_entry ∷ [];
  };
  tick = 0;
}

abbrev pub setup_token : SetupToken
setup_token = record { token_hash = codes "#setup"; created_at = 1; expires_at = 9000 }

-- a host that nobody has claimed, with a token to claim it
abbrev pub unclaimed : World
unclaimed = record { db = record empty { setup_tokens = setup_token ∷ [] }; tick = 0 }

-- the server over a world, with both limiters full
abbrev pub serving : World → State
serving w = record {
  setup_limiter = new_token_bucket 5 2000000000 0;
  signin_limiter = new_token_bucket 10 6000000000 0;
  world = w;
}
