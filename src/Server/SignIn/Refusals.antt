-- ===== src/Server/SignIn/Refusals.antt =====
-- internal/server/session.go, handleSignIn: the sign-ins that are refused.
use dokkup.Common.{
  ◌≡◌, not, ◌&&◌, Option, none, some, List, arith, if◌then◌else◌, find, ◌==◌, number_key, text_key,
  [], Text, inl, inr, Option-cases, ℕ, true,
}
use dokkup.Common.Strings.Trimming.{lower-trim_idem}
use dokkup.Server.Handler.{Env, State, answer, handling, Progress, go_on}
use dokkup.Server.Http.{restricted, signin_refusal, refusal}
use dokkup.Server.RateLimit.{take_token}
use dokkup.Server.SignIn.{
  SigninRequest, reject_signin, malformed, checked_operator, session_rejected, audited,
  limit_signin, decoded, sign_in, handle_sign_in,
}
use dokkup.Store.Audit.{record_entry, record_unauthenticated, Audited}
use dokkup.Store.Operators.{normalise_email, operator_by_email}
use dokkup.Store.Schema.{
  Operator, Db, Engine, insert_attributed, insert_unattributed, IsHealthy, select_operator,
  not_found, Result, ok, err,
}
use dokkup.Store.Sql.{World, actions, advance}

-- The account that an address and a password sign in to: it is stored under the normalised address,
-- the password fits its hash, and in IP Mode it is the owner's.
abbrev pub credentials : Env → List Operator → SigninRequest → Option Operator
credentials e ops body =
    if malformed (normalise_email body.email) body.password
    then none
    else elim (find (λ o. o.email == normalise_email body.email) ops) [
      | none ↦ none
      | some o ↦ elim (e.secrets.verify_password o.password_hash body.password) [
        | none ↦ none
        | some b ↦ if b && not (restricted e.cfg.mode && not o.is_owner) then some o else none
      ]
    ]

-- the tables that a refused sign-in leaves alone
abbrev pub SameAccounts : Db → Db → Type 0
SameAccounts d d' =
    (d'.operators ≡ d.operators) × (d'.sessions ≡ d.sessions) × (d'.setup_tokens ≡ d.setup_tokens)

pub record_entry-SameAccounts :
    (entry : Audited) (e : Engine) (w : World) → SameAccounts w.db (record_entry entry e w).1.db
unfolding record_entry actions insert_attributed
record_entry-SameAccounts entry e w = ground arith

pub record_unauthenticated-SameAccounts :
    (entry : Audited) (e : Engine) (w : World)
    → SameAccounts w.db (record_unauthenticated entry e w).1.db
unfolding record_unauthenticated actions insert_unattributed
record_unauthenticated-SameAccounts entry e w = ground arith

reject_signin_lem :
    {A : Type 0} (entry : Audited) (e : Env) (s : State)
    → let r = reject_signin {A = A} entry e s in
      (r.0 ≡ answer (refusal 401 signin_refusal)) × SameAccounts s.world.db r.1.world.db
unfolding reject_signin handling
reject_signin_lem entry e s = ground (
  arith,
  record_entry-SameAccounts entry e.engine s.world,
  record_unauthenticated-SameAccounts entry e.engine s.world,
)

-- the outcome of the checks on an engine that does not fail
abbrev pub outcome : Option Operator → Progress Operator
outcome none = answer (refusal 401 signin_refusal)
outcome (some o) = go_on o

-- what a look-up by address answers
abbrev by_email : Option Operator → Result Operator
by_email none = err not_found
by_email (some o) = ok o

operator_by_email_lem :
    (email : Text) (e : Engine) (w : World)
    → IsHealthy e
    → operator_by_email email e w
      ≡ (by_email (find (λ o. o.email == normalise_email email) w.db.operators), advance w)
unfolding operator_by_email actions select_operator
operator_by_email_lem email e w g = ground (arith, g.no_fault w.tick)

normalise_email_idem :
    (email : Text) → normalise_email (normalise_email email) ≡ normalise_email email
unfolding normalise_email
normalise_email_idem = lower-trim_idem

pub checked_operator_lem :
    (body : SigninRequest) (e : Env) (s : State)
    → IsHealthy e.engine
    → let r = checked_operator e.cfg body e s in
      (r.0 ≡ outcome (credentials e s.world.db.operators body))
      × SameAccounts s.world.db r.1.world.db
unfolding checked_operator handling reject_signin
checked_operator_lem body e s g =
    elim (Option-cases (find (λ o. o.email == normalise_email body.email) s.world.db.operators)) [
      | inl none_such ↦ ground (
        arith,
        looked_up,
        same,
        none_such,
        record_unauthenticated-SameAccounts (audited 0 session_rejected email) e.engine w,
        record_unauthenticated-SameAccounts (audited 0 session_rejected email) e.engine s.world,
        record_unauthenticated-SameAccounts (audited 0 session_rejected []) e.engine s.world,
      )
      | inr (o, found) ↦ ground (
        arith,
        looked_up,
        same,
        found,
        record_unauthenticated-SameAccounts (audited 0 session_rejected email) e.engine w,
        record_unauthenticated-SameAccounts (audited 0 session_rejected email) e.engine s.world,
        record_unauthenticated-SameAccounts (audited 0 session_rejected []) e.engine s.world,
        record_entry-SameAccounts (audited o.id session_rejected email) e.engine w,
        record_unauthenticated-SameAccounts (audited o.id session_rejected email) e.engine w,
      )
    ]
  where
    email : Text
    email = normalise_email body.email

    w : World
    w = advance s.world

    looked_up :
        operator_by_email email e.engine s.world
        ≡ (by_email (find (λ o. o.email == normalise_email email) s.world.db.operators), w)
    looked_up = operator_by_email_lem email e.engine s.world g

    same : normalise_email email ≡ email
    same = normalise_email_idem body.email

-- While the limiter lets it through and the database answers, a sign-in whose credentials do not fit
-- is answered with one and the same response, whether the address is unknown, the password wrong or
-- too long, the stored hash unreadable, or the account kept out by IP Mode. It starts no session and
-- changes no account and no token.
pub sign_in_refuses :
    (at : ℕ) (body : SigninRequest) (e : Env) (s : State)
    → IsHealthy e.engine
    → e.cfg.has_store ≡ true
    → (take_token at s.signin_limiter).0 ≡ true
    → credentials e s.world.db.operators body ≡ none
    → let r = handle_sign_in at (some body) e s in
      (r.0 ≡ refusal 401 signin_refusal) × SameAccounts s.world.db r.1.world.db
unfolding handle_sign_in handling decoded limit_signin sign_in
sign_in_refuses at body e s g has allowed none_fit = ground (
  arith,
  checked_operator_lem body e (record s { signin_limiter = (take_token at s.signin_limiter).2 }) g,
)
