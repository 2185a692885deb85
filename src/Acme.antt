-- ===== src/Acme.antt =====
-- internal/acme/acme.go: a Manager, which obtains and renews the certificate of one domain. The
-- certificate authority, the files and the keys are the parameter Exterior.
pub mod Disk
pub mod Attempt
pub mod Preserved
pub mod Tokens
pub mod Pairs
pub mod AccountKey
pub mod Soundness
pub mod Honest
pub mod Issued
pub mod Success
pub mod Retries
use dokkup.Acme.Attempt.{
  ◌>>=◌, ◌>>◌, Registration, registered, account_exists, unregistered, Leaf, Acme, ask, succeed,
  fail, deferring, or_else, modify, Read, found, missing, unreadable, read_file, AcmeChallenge,
  Exterior, Task, advanced, give, store_file, Order, attempting,
}
use dokkup.Acme.Disk.{account_key, certificate, private_key}
use dokkup.Common.{
  ℕ, zero, suc, ◌+◌, ◌*◌, Bool, true, false, not, ◌&&◌, Option, none, some, List, [], ◌∷◌, ◌++◌,
  ltb, if◌then◌else◌, drop_where, find, ◌==◌, Text, number_key, text_key,
}
use dokkup.Common.Strings.{codes, trim_prefix}

abbrev pub challenge_path : Text
challenge_path = codes "/.well-known/acme-challenge/"

-- 30 days, 12 hours and 15 minutes, in nanoseconds
abbrev pub renew_before : ℕ
renew_before = 30 * 24 * 3600 * 1000000000

abbrev pub check_interval : ℕ
check_interval = 12 * 3600 * 1000000000

abbrev pub retry_interval : ℕ
retry_interval = 15 * 60 * 1000000000

pub record Manager : Type 0 where
  pub domain : Text
  pub reloads : Bool

-- present, forget and the look-up of Handler, in a map
abbrev pub forget_token : Text → List (Text × Text) → List (Text × Text)
forget_token token = drop_where (λ t. t.0 == token)

abbrev pub present : Text → Text → List (Text × Text) → List (Text × Text)
present token response tokens = (token, response) ∷ forget_token token tokens

abbrev pub response_of : Option (Text × Text) → Option Text
response_of none = none
response_of (some (token, response)) = some response

-- Handler: the answer_challenge at a path, none where it is not found
unfoldable pub handler : List (Text × Text) → Text → Option Text
handler tokens path =
    let token = trim_prefix path challenge_path in response_of (find (λ t. t.0 == token) tokens)

abbrev pub http01 : List AcmeChallenge → Option AcmeChallenge
http01 = find (λ c. c.kind == codes "http-01")

-- Accept and WaitAuthorization, while the answer stands
unfoldable pub checked : Text → AcmeChallenge → Task (Unit {0})
checked url c = do
  succeed (λ o s. o.accept s.tick c)
  succeed (λ o s. o.wait_authorization s.tick url (handler s.tokens))

-- what is done with the answer to a challenge
unfoldable pub presented : Text → AcmeChallenge → Text → Task (Unit {0})
presented url c response = do
  modify (λ s. record s { tokens = present c.token response s.tokens })
  deferring (λ s. record s { tokens = forget_token c.token s.tokens }) (checked url c)

-- satisfy, from the challenge that was chosen
unfoldable pub answer_challenge : Text → Text → Option AcmeChallenge → Task (Unit {0})
answer_challenge key url none = fail
answer_challenge key url (some c) = do
  response ← ask (λ o s. o.challenge_response key c.token)
  presented url c response

unfoldable pub satisfy : Text → Text → Task (Unit {0})
satisfy key url = do
  authz ← ask (λ o s. o.get_authorization s.tick url)
  if authz.is_valid then give tt else answer_challenge key url (http01 authz.challenges)

-- the loop over order.AuthzURLs
unfoldable pub satisfy_all : Text → List Text → Task (Unit {0})
satisfy_all key [] = give tt
satisfy_all key (url ∷ urls) = do satisfy key url; satisfy_all key urls

unfoldable pub create_account_key : Task Text
create_account_key = do
  key ← ask (λ o s. o.new_key s.tick)
  pem ← ask (λ o s. o.key_pem key)
  store_file account_key pem
  give key

unfoldable pub stored_key : Read → Task Text
stored_key (found pem) = ask (λ o s. o.parse_key pem)
stored_key missing = create_account_key
stored_key unreadable = fail

-- accountKey
unfoldable pub own_key : Task Text
own_key = do stored ← ask (λ o s. some (read_file account_key o s)); stored_key stored

abbrev pub accepted_as_account : Registration → Bool
accepted_as_account registered = true
accepted_as_account account_exists = true
accepted_as_account unregistered = false

-- collect
unfoldable pub collect : Text → Task (List Text)
collect url = do
  if url == [] then fail else give tt
  order ← ask (λ o s. o.wait_order s.tick url)
  if order.cert_url == [] then fail else give tt
  ask (λ o s. o.fetch_cert s.tick order.cert_url)

abbrev pub appended : Option Text → Option Text → Option Text
appended none rest = none
appended (some p) none = none
appended (some p) (some rest) = some (p ++ rest)

abbrev pub joined_pem : (Text → Option Text) → List Text → Option Text
joined_pem pem [] = some []
joined_pem pem (der ∷ chain) = appended (pem der) (joined_pem pem chain)

-- chainPEM
abbrev pub chain_pem : (Text → Option Text) → List Text → Option Text
chain_pem pem [] = none
chain_pem pem (der ∷ chain) = joined_pem pem (der ∷ chain)

-- obtain, from the order on
unfoldable pub fulfil : Manager → Text → Order → Task (Text × Text)
fulfil m key order = do
  satisfy_all key order.authz_urls
  ready ← ask (λ o s. o.wait_order s.tick order.uri)
  cert_key ← ask (λ o s. o.new_key s.tick)
  csr ← ask (λ o s. o.certificate_request s.tick m.domain cert_key)
  chain ←
      or_else (ask (λ o s. o.create_order_cert s.tick ready.finalize_url csr)) (collect order.uri)
  cert_text ← ask (λ o s. chain_pem o.certificate_pem chain)
  key_text ← ask (λ o s. o.key_pem cert_key)
  give (cert_text, key_text)

unfoldable pub obtain : Manager → Task (Text × Text)
obtain m = do
  key ← own_key
  succeed (λ o s. accepted_as_account (o.register s.tick key))
  order ← ask (λ o s. o.authorize_order s.tick m.domain)
  fulfil m key order

-- write: the key first
unfoldable pub install_pair : Text → Text → Task (Unit {0})
install_pair cert_text key_text = do
  store_file private_key key_text
  store_file certificate cert_text

abbrev pub will_do : Text → ℕ → Leaf → Bool
will_do domain at leaf =
    not leaf.self_signed && leaf.covers domain && not (ltb leaf.not_after (at + renew_before))

-- needsCertificate, the other way round, of what was read
abbrev pub read_will_do : Text → ℕ → (Text → Option Leaf) → Read → Bool
read_will_do domain at leaf_of missing = false
read_will_do domain at leaf_of unreadable = false
read_will_do domain at leaf_of (found pem) = elim (leaf_of pem) [
  | none ↦ false
  | some leaf ↦ will_do domain at leaf
]

unfoldable pub needs_certificate : Manager → Exterior → Acme → Bool
needs_certificate m o s =
    not (read_will_do m.domain (o.clock s.tick) o.leaf_of (read_file certificate o s))

-- What Ensure returns: false or true without an error, or an error after the certificate was written
-- or before.
pub data Ensured : Type 0 where
  kept obtained unreloaded unobtained : Ensured

abbrev pub ensured_by : Bool → Ensured
ensured_by true = obtained
ensured_by false = unreloaded

abbrev pub reloaded : Manager → Exterior → Option (Unit {0}) × Acme → Ensured × Acme
reloaded m o (none, s) = (unobtained, s)
reloaded m o (some u, s) =
    if m.reloads then (ensured_by (o.reload s.tick), advanced s) else (obtained, s)

unfoldable pub renew : Manager → Task (Unit {0})
renew m = do pair ← obtain m; install_pair pair.0 pair.1

unfoldable pub ensure : Manager → Exterior → Acme → Ensured × Acme
ensure m o s =
    if m.domain == []
    then (unobtained, s)
    else if needs_certificate m o s
    then reloaded m o (renew m o (advanced s))
    else (kept, advanced s)

-- how long Run waits
abbrev pub wait_after : Ensured → ℕ
wait_after kept = check_interval
wait_after obtained = check_interval
wait_after unreloaded = retry_interval
wait_after unobtained = retry_interval

-- the rounds of Run, until its context is done
unfoldable pub rounds : ℕ → Manager → Exterior → Acme → Acme
rounds zero m o s = s
rounds (suc n) m o s = rounds n m o (ensure m o s).1

-- The same for a round.
unfoldable pub managing : Unit {0}
unfolding attempting ensure needs_certificate renew obtain fulfil own_key stored_key
    create_account_key satisfy_all satisfy answer_challenge presented checked collect install_pair
    handler
managing = tt
