-- ===== src/Server/SignIn/Sessions.antt =====
-- internal/server/session.go, handleSignIn: the session behind an answer of 200.
use dokkup.Common.{
  ◌+◌, ◌≡◌, refl, inl, inr, true, not, some, ◌∷◌, arith, Option-cases, Text, ℕ, ◌≢◌, Option, none,
}
use dokkup.Server.Handler.{Env, State, handle, handling}
use dokkup.Server.Http.{Cookie, operator_body, Response, describe}
use dokkup.Server.RateLimit.{take_token}
use dokkup.Server.SignIn.{
  session_lifetime, session_started, audited, session_cookie, begin_session, SigninRequest,
  record_rejected, limit_signin, decoded, checked_operator, sign_in, handle_sign_in,
}
use dokkup.Server.SignIn.Refusals.{
  record_entry-SameAccounts, credentials, SameAccounts, outcome, checked_operator_lem,
}
use dokkup.Store.Schema.{Operator, Session, Result, IsHealthy, Result-cases}
use dokkup.Store.Sessions.{start_session}
use dokkup.Store.Sessions.Lifetime.{start_session_row}
use dokkup.Store.Sql.{World, advance}

-- The response and the state after a session has been issued to an operator.
pub record Issued (e : Env) (s : State) (o : Operator) (r : Response × State) : Type 0 where
  pub token : Text
  pub session : Session
  pub was_drawn : e.secrets.new_token s.world.tick ≡ some (token, session.token_hash)
  pub in_cookie :
      (c : Cookie) × (r.0.cookie ≡ some c)
      × (c.value ≡ token)
      × (c.http_only ≡ true)
      × (c.secure ≡ not e.cfg.plain_http)
      × (c.same_site_strict ≡ true)
  pub body_names : r.0.body ≡ operator_body (describe o)
  pub of_operator : session.operator_id ≡ o.id
  pub stored : r.1.world.db.sessions ≡ session ∷ s.world.db.sessions
  pub others_same :
      (r.1.world.db.operators ≡ s.world.db.operators)
      × (r.1.world.db.setup_tokens ≡ s.world.db.setup_tokens)

-- where the parts of the handler stand in time
abbrev drawn_world : State → World
drawn_world s = advance s.world

abbrev begun : Env → State → Operator → Text → Result Session × World
begun e s o hash =
    start_session o.id hash (e.engine.clock (drawn_world s).tick + session_lifetime) e.engine
      (advance (drawn_world s))

begin_session_issues :
    (o : Operator) (e : Env) (s : State)
    → let r = handle (begin_session e.cfg o) e s in r.0.status ≡ 200 → Issued e s o r
unfolding begin_session handling
begin_session_issues o e s h = elim (Option-cases (e.secrets.new_token s.world.tick)) [
  | inl g ↦ absurd (ground arith)
  | inr ((t, hash), g) ↦ elim (Result-cases (begun e s o hash).0) [
    | inr (x, f) ↦ absurd (ground arith)
    | inl (session, f) ↦
        let (d, _, _, hs, os, _) =
          start_session_row o.id hash (e.engine.clock (drawn_world s).tick + session_lifetime)
            e.engine (advance (drawn_world s)) session f in
        let kept =
          record_entry-SameAccounts (audited o.id session_started o.email) e.engine
            (advance (begun e s o hash).1) in
        record {
          token = t;
          session = session;
          was_drawn = ground arith;
          in_cookie = (
            session_cookie e.cfg t (e.engine.clock (drawn_world s).tick + session_lifetime)
                (e.engine.clock (begun e s o hash).1.tick),
            ground arith,
            refl,
            refl,
            refl,
            refl,
          );
          body_names = ground arith;
          of_operator = os;
          stored = ground (arith, d, kept);
          others_same = ground (arith, d, kept);
        }
  ]
]

-- the state in which the session of an accepted sign-in is begun
abbrev accepted_state : ℕ → SigninRequest → Env → State → State
accepted_state at body e s =
    (checked_operator e.cfg body e
      (record s { signin_limiter = (take_token at s.signin_limiter).2 })).1

accepted :
    (at : ℕ) (body : SigninRequest) (e : Env) (s : State)
    → IsHealthy e.engine
    → (handle_sign_in at (some body) e s).0.status ≡ 200
    → (o : Operator) × (credentials e s.world.db.operators body ≡ some o)
      × (handle_sign_in at (some body) e s
          ≡ handle (begin_session e.cfg o) e (accepted_state at body e s))
unfolding handle_sign_in handling decoded limit_signin sign_in
accepted at body e s g h = elim (Option-cases (credentials e s.world.db.operators body)) [
  | inl c ↦ absurd (ground (arith, checked.0))
  | inr (o, c) ↦ (o, c, ground (arith, checked.0))
]
  where
    limited : State
    limited = record s { signin_limiter = (take_token at s.signin_limiter).2 }

    checked :
        let r = checked_operator e.cfg body e limited in
        (r.0 ≡ outcome (credentials e s.world.db.operators body))
        × SameAccounts s.world.db r.1.world.db
    checked = checked_operator_lem body e limited g

undecoded : (at : ℕ) (e : Env) (s : State) → (handle_sign_in at none e s).0.status ≢ 200
unfolding handle_sign_in handling decoded limit_signin sign_in record_rejected
undecoded at e s h = ground arith

-- On an engine that does not fail, an answer of 200 means that the body held the credentials of a
-- stored account, by which the sign-in was permitted, and that exactly one session was added, of that
-- account, under the hash of a fresh token that the cookie carries and no script can read.
pub sign_in_sound :
    (at : ℕ) (request : Option SigninRequest) (e : Env) (s : State)
    → IsHealthy e.engine
    → (handle_sign_in at request e s).0.status ≡ 200
    → (body : SigninRequest) × (o : Operator) × (before : State) × (request ≡ some body)
      × (credentials e s.world.db.operators body ≡ some o)
      × SameAccounts s.world.db before.world.db
      × Issued e before o (handle_sign_in at request e s)
sign_in_sound at none e s g h = absurd (undecoded at e s h)
sign_in_sound at (some body) e s g h =
    let (o, c, same) = accepted at body e s g h in
    let before : State = accepted_state at body e s in
    (
      body,
      o,
      before,
      refl,
      c,
      (checked_operator_lem body e
          (record s { signin_limiter = (take_token at s.signin_limiter).2 }) g).1,
      rw same (begin_session_issues o e before (rw same at h)),
    )
