-- ===== src/Examples/Certificates.antt =====
-- A certificate authority that asks for one challenge, checks it, and fails to answer finalize with a
-- place to look.
use mathlib.Core.Path.{subst}
use dokkup.Acme.{
  challenge_path, Manager, http01, handler, obtain, Ensured, obtained, unreloaded, unobtained,
  ensure, rounds, managing,
}
use dokkup.Acme.AccountKey.{account_key_kept}
use dokkup.Acme.Attempt.{
  AcmeChallenge, Authorization, Order, account_exists, Leaf, Exterior, Acme, advanced,
}
use dokkup.Acme.Disk.{whole, Slot, Disk}
use dokkup.Acme.Honest.{IsHonest}
use dokkup.Acme.Pairs.{certificate_of, key_of}
use dokkup.Acme.Retries.{starts, failures_within, retries_bounded}
use dokkup.Acme.Soundness.{Usable, Sound, Found, ensure-Sound}
use dokkup.Acme.Success.{IssuesLasting, none_yet, IsFresh, round_settles}
use dokkup.Acme.Tokens.{rounds_silent}
use dokkup.Common.{
  arith, ◌⊎◌, ℕ, ◌*◌, ◌≡◌, refl, true, false, Option, none, some, [], ◌∷◌, ◌++◌, ◌==◌, Text,
  number_key, text_key, ◌≤◌, sym, Bool, List,
}
use dokkup.Common.Strings.{codes, has_prefix}

abbrev manager : Manager
manager = record { domain = codes "a.example"; reloads = true }

abbrev the_order : Order
the_order = record {
  uri = codes "/order";
  authz_urls = codes "/authz" ∷ [];
  finalize_url = codes "/finalize";
  cert_url = codes "/cert";
}

abbrev offered : AcmeChallenge
offered = record { kind = codes "http-01"; token = codes "t1" }

abbrev demand : Authorization
demand = record {
  is_valid = false;
  challenges = record { kind = codes "dns-01"; token = codes "t0" } ∷ offered ∷ [];
}

abbrev good_leaf : Leaf
good_leaf = record {
  self_signed = false;
  covers = λ d. d == codes "a.example";
  not_after = 90 * 24 * 3600 * 1000000000;
}

abbrev key_response : Text → Text → Text
key_response key token = token ++ (b'.' ∷ key)

abbrev approved : Option Text → Bool
approved none = false
approved (some text) = has_prefix text (codes "t1.")

abbrev authority : Exterior
authority = record {
  writes = λ n. whole;
  rename_fails = λ n. false;
  remove_fails = λ n. false;
  read_fails = λ n. false;
  clock = λ n. 5;
  new_key = λ n. some (codes "key");
  key_pem = λ key. some (codes "PEM " ++ key);
  parse_key = λ pem. some (codes "key");
  certificate_pem = λ der. some (codes "CERT " ++ der);
  leaf_of = λ pem. some good_leaf;
  register = λ n key. account_exists;
  authorize_order = λ n domain. some the_order;
  get_authorization = λ n url. some demand;
  challenge_response = λ key token. some (key_response key token);
  accept = λ n c. true;
  wait_authorization = λ n url served. approved (served (challenge_path ++ codes "t1"));
  wait_order = λ n url. some the_order;
  certificate_request = λ n domain key. some domain;
  create_order_cert = λ n url csr. none;
  fetch_cert = λ n url. some (codes "leaf" ∷ codes "issuer" ∷ []);
  reload = λ n. true;
}

abbrev empty_slot : Slot
empty_slot = record { content = none; staging = none }

abbrev fresh_host : Acme
fresh_host = record {
  disk = record { account_slot = empty_slot; certificate_slot = empty_slot; key_slot = empty_slot };
  tokens = [];
  tick = 0;
  seen = [];
}

response_checked :
    (key : Text) (served : Text → Option Text) (c : AcmeChallenge)
    → http01 demand.challenges ≡ some c
    → served (challenge_path ++ c.token) ≡ some (key_response key c.token)
    → approved (served (challenge_path ++ codes "t1")) ≡ true
response_checked key served c h g =
    let e : offered ≡ c = cc in
    let k : served (challenge_path ++ codes "t1") ≡ some (key_response key (codes "t1")) =
      subst (λ x. served (challenge_path ++ x.token) ≡ some (key_response key x.token)) (sym e) g in
    rw k refl

authority-IsHonest : IsHonest manager authority
authority-IsHonest = record {
  writes = λ n. refl;
  renames = λ n. refl;
  reads = λ n. refl;
  keys = λ n. (codes "key", refl);
  encodes = λ key. (codes "PEM " ++ key, refl);
  registers = λ n key. refl;
  order = the_order;
  ordered = λ n. refl;
  waits = λ n url. (the_order, refl, refl);
  located = refl;
  wants = λ url. demand;
  wanted = λ n url. refl;
  offers = λ url. (offered, refl);
  response = key_response;
  responds = λ key token. refl;
  accepts = λ n c. refl;
  checks = λ n key url served c h g. response_checked key served c h g;
  requests = λ n key. (codes "a.example", refl);
  issues = λ n url csr. λ h. cc;
  fetches = λ n url. (codes "leaf", codes "issuer" ∷ [], refl);
  prints = λ der. (codes "CERT " ++ der, refl);
}

-- the certificate is obtained, and stays
abbrev issued_on : Disk
issued_on = (ensure manager authority fresh_host).1.disk

obtained_now :
    ((ensure manager authority fresh_host).0 ≡ obtained)
    × (certificate_of issued_on ≡ some (codes "CERT leafCERT issuer"))
    × (key_of issued_on ≡ some (codes "PEM key"))
unfolding managing
obtained_now = (refl, refl, refl)

authority-IssuesLasting : IssuesLasting manager authority
authority-IssuesLasting = record {
  leaf_in = λ chain pem issued printed. (good_leaf, refl, refl, refl, λ n. omega arith);
}

round_settles_example :
    (¬ ((ensure manager authority fresh_host).0 ≡ unobtained))
    × (Usable manager authority fresh_host
        ⊎ (IsFresh manager authority issued_on
            × ((rounds 3 manager authority (ensure manager authority fresh_host).1).disk
                ≡ issued_on)))
round_settles_example =
    round_settles 3 manager authority fresh_host authority-IsHonest refl (none_yet refl)
      authority-IssuesLasting refl

rounds_silent_example :
    handler (rounds 3 manager authority fresh_host).tokens (challenge_path ++ codes "t1") ≡ none
rounds_silent_example =
    rounds_silent 3 manager authority fresh_host (challenge_path ++ codes "t1") refl

abbrev registered_host : Acme
registered_host = (ensure manager authority fresh_host).1

account_stored : registered_host.disk.account_slot.content ≡ some (codes "PEM key")
unfolding managing
account_stored = refl

account_key_kept_example :
    (rounds 3 manager authority registered_host).disk.account_slot.content ≡ some (codes "PEM key")
account_key_kept_example =
    account_key_kept 3 manager authority registered_host (codes "PEM key") account_stored

ensure-Sound_example :
    let got = (obtain manager authority (advanced fresh_host)).0 in
    Sound manager authority fresh_host got (ensure manager authority fresh_host)
    × Found none got (ensure manager authority fresh_host).1.seen
ensure-Sound_example = ensure-Sound manager authority fresh_host refl

-- attempts that each take a minute and fail
abbrev failures : List (ℕ × Ensured)
failures =
    (60000000000, unobtained)
    ∷ (60000000000, unobtained)
    ∷ (60000000000, unreloaded)
    ∷ (60000000000, unobtained)
    ∷ (60000000000, unobtained)
    ∷ []

retries_bounded_example : failures_within 0 (starts 0 failures) ≤ 4
retries_bounded_example = retries_bounded 0 0 failures
