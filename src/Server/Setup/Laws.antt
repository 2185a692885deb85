-- ===== src/Server/Setup/Laws.antt =====
-- When a host is claimed, and by whom.
use dokkup.Common.{
  ℕ, ◌≤◌, ◌≡◌, ◌≢◌, false, none, some, [], arith, length, same_text_iff, refl, sym, ap, ◌∙◌, inl,
  inr, true, List, ◌∷◌, Option-cases, exists, ◌==◌, Text, number_key, text_key, Option,
}
use dokkup.Common.Strings.Trimming.{lower-trim_idem}
use dokkup.Server.Handler.{Env, State, handling, handle}
use dokkup.Server.RateLimit.{take_token}
use dokkup.Server.Setup.{
  SetupRequest, validate_setup, setup_redeemed, claim, reject_setup, limit_setup, decoded_setup,
  valid_setup, unowned, setup, handle_setup,
}
use dokkup.Server.SignIn.{audited}
use dokkup.Server.SignIn.Refusals.{record_entry-SameAccounts}
use dokkup.Store.Operators.{normalise_email}
use dokkup.Store.Ownership.{redeem_setup_token_creates}
use dokkup.Store.Schema.{has_owner, Operator, SetupToken, Db, Result, Result-cases}
use dokkup.Store.SetupTokens.{redeem_setup_token, spendable, is_owned}
use dokkup.Store.Sql.{World, advance, actions}

-- The checks of the fields, each of the four with its own message, in their order; the trail is told
-- the address unless the address is what is wrong.
pub validate_setup_lem :
    (body : SetupRequest)
    → (validate_setup body).1 ≡ none
    → (normalise_email body.email ≢ [])
      × (length (normalise_email body.email) ≤ 320)
      × (12 ≤ length body.password)
      × (length body.password ≤ 1024)
unfolding validate_setup
validate_setup_lem body h = ground (arith, same_text_iff (normalise_email body.email) [])

-- the host as a successful claim of it leaves it
pub record Claimed (e : Env) (body : SetupRequest) (d d' : Db) : Type 0 where
  pub owner : Operator
  pub draw_number : ℕ
  pub was_free : has_owner d.operators ≡ false
  pub had_token :
      exists (λ t. t.token_hash == e.secrets.hash_token body.token) d.setup_tokens ≡ true
  pub added : d'.operators ≡ owner ∷ d.operators
  pub is_the_owner : owner.is_owner ≡ true
  pub address : owner.email ≡ normalise_email body.email
  pub hashed_password : e.secrets.hash_password draw_number body.password ≡ some owner.password_hash
  pub same_sessions : d'.sessions ≡ d.sessions

exists-spendable :
    (hash : Text) (at : ℕ) (ts : List SetupToken)
    → exists (spendable hash at) ts ≡ true
    → exists (λ t. t.token_hash == hash) ts ≡ true
exists-spendable hash at [] h = h
exists-spendable hash at (t ∷ ts) h = ground (arith, exists-spendable hash at ts)

claim-Claimed :
    (body : SetupRequest) (email : Text) (e : Env) (s : State)
    → email ≡ normalise_email body.email
    → normalise_email email ≡ email
    → (handle (claim body email) e s).0.status ≡ 201
    → Claimed e body s.world.db (handle (claim body email) e s).1.world.db
unfolding claim handling
claim-Claimed body email e s same normal h =
    elim (Option-cases (e.secrets.hash_password s.world.tick body.password)) [
      | inl g ↦ absurd (ground arith)
      | inr (ph, g) ↦
          let run : Result Operator × World =
            redeem_setup_token (e.secrets.hash_token body.token) email body.name ph e.engine
              (advance s.world) in
          elim (Result-cases run.0) [
            | inr (x, f) ↦ absurd (ground arith)
            | inl (o, f) ↦
                let (free, live, owner, address, hash, d) =
                  redeem_setup_token_creates (e.secrets.hash_token body.token) email body.name ph
                    e.engine (advance s.world) o f in
                let kept =
                  record_entry-SameAccounts (audited o.id setup_redeemed o.email) e.engine run.1 in
                record {
                  owner = o;
                  draw_number = s.world.tick;
                  was_free = free;
                  had_token = exists-spendable _ _ s.world.db.setup_tokens live;
                  added = ground (arith, d, kept);
                  is_the_owner = owner;
                  address = address ∙ (normal ∙ same);
                  hashed_password = g ∙ ap (λ (t : Text). some t) (sym hash);
                  same_sessions = ground (arith, d, kept);
                }
          ]
    ]

-- the state in which a claim that was let through begins
abbrev claimed_state : ℕ → State → State
claimed_state at s = record s {
  setup_limiter = (take_token at s.setup_limiter).2;
  world = advance s.world;
}

not_decoded : (at : ℕ) (e : Env) (s : State) → (handle_setup at none e s).0.status ≢ 201
unfolding handle_setup handling setup limit_setup decoded_setup reject_setup
not_decoded at e s h = ground arith

reached :
    (at : ℕ) (body : SetupRequest) (e : Env) (s : State)
    → (handle_setup at (some body) e s).0.status ≡ 201
    → handle_setup at (some body) e s
      ≡ handle (claim body (normalise_email body.email)) e (claimed_state at s)
unfolding handle_setup handling setup limit_setup decoded_setup validate_setup valid_setup unowned
    is_owned actions reject_setup
reached at body e s h = ground arith

was_valid :
    (at : ℕ) (body : SetupRequest) (e : Env) (s : State)
    → (handle_setup at (some body) e s).0.status ≡ 201
    → (validate_setup body).1 ≡ none
unfolding handle_setup handling setup limit_setup decoded_setup valid_setup unowned reject_setup
was_valid at body e s h = elim (Option-cases (validate_setup body).1) [
  | inl g ↦ g
  | inr (i, g) ↦ absurd (ground arith)
]

normalise_email_idem : (s : Text) → normalise_email (normalise_email s) ≡ normalise_email s
unfolding normalise_email
normalise_email_idem s = lower-trim_idem s

-- Setup answers 201 only to a body that passes the checks of its fields, on a host with no owner, for a
-- token that is stored. Then the host has its owner: one account more, under the normalised address and
-- with the hash of the password, and nobody is signed in by it.
pub setup_claims :
    (at : ℕ) (request : Option SetupRequest) (e : Env) (s : State)
    → (handle_setup at request e s).0.status ≡ 201
    → (body : SetupRequest) × (request ≡ some body)
      × ((validate_setup body).1 ≡ none)
      × Claimed e body s.world.db (handle_setup at request e s).1.world.db
setup_claims at none e s h = absurd (not_decoded at e s h)
setup_claims at (some body) e s h =
    let same = reached at body e s h in
    (
      body,
      refl,
      was_valid at body e s h,
      rw same (
          claim-Claimed body (normalise_email body.email) e (claimed_state at s) refl
            (normalise_email_idem body.email) (rw same at h)),
    )
