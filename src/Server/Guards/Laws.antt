-- ===== src/Server/Guards/Laws.antt =====
-- What the guards let through to the handlers behind them, whatever those are.
use dokkup.Common.{
  Bool-cases, same_text_iff, ◌==◌, Text, List, [], ◌∷◌, ◌⊎◌, ◌≢◌, ◌≤◌, ℕ, inl, inr, All, find, refl,
  contains, text_key, if◌then◌else◌, ◌≡◌, true, false, ◌||◌, Option, none, arith,
}
use dokkup.Common.Strings.{codes, has_prefix}
use dokkup.Server.Guards.{
  Request, api_prefix, cookie_value, session_holder, is_safe, authenticate, require_session,
  require_csrf, api_only, guarded,
}
use dokkup.Server.Handler.{Env, State, go_on, H, handle, handling}
use dokkup.Server.Http.{not_signed_in, missing_csrf_header, refusal}
use dokkup.Server.Routes.{mux}
use dokkup.Store.Schema.{Operator, Session, live, select_session_operator}
use dokkup.Store.Sessions.{session_operator}
use dokkup.Store.Sql.{actions, millis}

-- A request to the API by a method that may change something, without the CSRF header, is refused
-- before anything else is done with it.
pub csrf_required :
    (mux : Request → Option Operator → H (Unit {0})) (r : Request) (e : Env) (s : State)
    → has_prefix r.path api_prefix ≡ true
    → is_safe r.method ≡ false
    → r.has_csrf ≡ false
    → handle (guarded mux r) e s ≡ (refusal 403 missing_csrf_header, s)
unfolding guarded handling
csrf_required mux r e s p m c = ground arith

-- a look at the session leaves the database as it is
authenticate_reads :
    (r : Request) (e : Env) (s : State) → (authenticate r e s).1.world.db ≡ s.world.db
unfolding authenticate handling session_operator actions
authenticate_reads r e s = ground arith

-- the paths of the API that need no session
abbrev pub open_paths : List Text
open_paths =
    codes "/api/health" ∷ codes "/api/session" ∷ codes "/api/setup" ∷ codes "/api/signin" ∷ []

-- There is no cookie, or an empty one, or every session has another token's hash or is over.
abbrev pub Nobody : Request → Env → State → Type 0
Nobody r e s =
    (cookie_value r.cookie ≡ [])
    ⊎ All
        (λ t.
          (t.token_hash ≢ e.secrets.hash_token (cookie_value r.cookie))
          ⊎ (t.expires_at ≤ millis (e.engine.clock s.world.tick)))
        s.world.db.sessions

no_live :
    (hash : Text) (at : ℕ) (ts : List Session)
    → All (λ t. (t.token_hash ≢ hash) ⊎ (t.expires_at ≤ at)) ts
    → find (live hash at) ts ≡ none
no_live hash at [] h = refl
no_live hash at (t ∷ ts) (inl h, k) = elim (Bool-cases (t.token_hash == hash)) [
  | inl same ↦ absurd (h ((same_text_iff t.token_hash hash).0 same))
  | inr other ↦ ground (arith, other, no_live hash at ts k)
]
no_live hash at (t ∷ ts) (inr h, k) = ground (arith, no_live hash at ts k)

Nobody-authenticate :
    (r : Request) (e : Env) (s : State) → Nobody r e s → (authenticate r e s).0 ≡ go_on none
unfolding authenticate session_holder handling session_operator actions select_session_operator
Nobody-authenticate r e s (inl h) = ground (arith, (same_text_iff (cookie_value r.cookie) []).1 h)
Nobody-authenticate r e s (inr h) =
    let hash : Text = e.secrets.hash_token (cookie_value r.cookie) in
    ground (arith, no_live hash (millis (e.engine.clock s.world.tick)) s.world.db.sessions h)

-- A request to the API, for a path other than /api/health, /api/session, /api/setup and /api/signin,
-- reaches no handler where its cookie is that of no session that lasts: it is refused, for want of a
-- session or, where its method may change something and it has no CSRF header, for want of that; and
-- the database is as it was. This holds whichever statements fail.
pub session_required :
    (mux : Request → Option Operator → H (Unit {0})) (r : Request) (e : Env) (s : State)
    → has_prefix r.path api_prefix ≡ true
    → contains r.path open_paths ≡ false
    → Nobody r e s
    → let (answered, after) = handle (guarded mux r) e s in
      (answered ≡ (
        if is_safe r.method || r.has_csrf
        then refusal 401 not_signed_in
        else refusal 403 missing_csrf_header))
      × (after.world.db ≡ s.world.db)
unfolding guarded handling api_only require_csrf require_session
session_required mux r e s p c n =
    ground (arith, Nobody-authenticate r e s n, authenticate_reads r e s)
