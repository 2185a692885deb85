-- ===== src/Server/Guards/Journeys.antt =====
-- From a sign-in to the requests that its cookie authenticates, and to the sign-out that ends it.
use dokkup.Common.{
  ◌+◌, ◌<◌, ◌≡◌, ◌∙◌, Bool, true, false, none, some, List, [], ◌∷◌, arith, find, contains, Distinct,
  ◌==◌, same_number_iff, Text, number_key, text_key, same_text_iff, drop_where,
}
use dokkup.Server.Guards.{holder_of, session_holder}
use dokkup.Server.Handler.{Env, State, go_on, handling}
use dokkup.Server.Http.{Response}
use dokkup.Server.Setup.{hashed}
use dokkup.Server.SignIn.{session_ended, audited}
use dokkup.Server.SignIn.Refusals.{record_entry-SameAccounts}
use dokkup.Server.SignIn.Sessions.{Issued}
use dokkup.Server.SignOut.{sign_out, handle_sign_out, survives}
use dokkup.Store.Schema.{Operator, ids, live, Engine, delete_sessions}
use dokkup.Store.Sessions.{revoke_session}
use dokkup.Store.Sessions.Lifetime.{holder, session_operator_lem, drop_where-find}
use dokkup.Store.Sql.{millis, World, actions}

find-by_id :
    (p : Operator → Bool) (ops : List Operator) (o : Operator)
    → find p ops ≡ some o
    → Distinct (ids ops)
    → (find (λ x. x.id == o.id) ops ≡ some o) × (contains o.id (ids ops) ≡ true)
find-by_id p [] o h u = cc
find-by_id p (x ∷ ops) o h u =
    ground (arith, find-by_id p ops o, same_number_iff x.id o.id, same_number_iff o.id x.id)

session_holder_lem :
    (value : Text) (e : Env) (s : State)
    → e.engine.fault (s.world.tick + 1) ≡ false
    → (session_holder value e s).0
      ≡ go_on (
          holder_of (
            holder
              (find
                (live (e.secrets.hash_token value) (millis (e.engine.clock s.world.tick)))
                s.world.db.sessions)
              s.world.db))
unfolding session_holder handling
session_holder_lem value e s f =
    ground (arith, session_operator_lem (e.secrets.hash_token value) e.engine s.world f)

-- The cookie that a sign-in set authenticates its operator on a later request before the session
-- expires, while the database stays as the sign-in left it, where the ids of the accounts are
-- distinct, the token's hash is the one that was drawn with it, and the look-up does not fail.
pub issued_authenticates :
    (e : Env) (s : State) (o : Operator) (answered : Response × State) (p : Operator → Bool)
    → (i : Issued e s o answered) → find p s.world.db.operators ≡ some o
    → Distinct (ids s.world.db.operators)
    → e.secrets.hash_token i.token ≡ i.session.token_hash
    → (v : State) → v.world.db ≡ answered.1.world.db
    → e.engine.fault (v.world.tick + 1) ≡ false
    → millis (e.engine.clock v.world.tick) < i.session.expires_at
    → (session_holder i.token e v).0 ≡ go_on (some o)
issued_authenticates e s o answered p i found u hashed v same f early =
    session_holder_lem i.token e v f
    ∙ (rw (hashed, same, i.stored, i.others_same.0)
        (ground (
          arith,
          i.of_operator,
          (find-by_id p s.world.db.operators o found u).0,
          same_text_iff i.session.token_hash i.session.token_hash,
        )))

revoked :
    (hash : Text) (e : Engine) (w : World)
    → survives (revoke_session hash e w).0 ≡ false
    → (revoke_session hash e w).1.db.sessions ≡ drop_where (λ s. s.token_hash == hash) w.db.sessions
unfolding revoke_session actions delete_sessions
revoked hash e w h = ground arith

-- After a sign-out that answered 204 the same cookie authenticates nobody, at any later time, while
-- the database stays as it left it and the look-up does not fail.
pub sign_out_ends :
    (value : Text) (o : Operator) (e : Env) (s : State)
    → (handle_sign_out (some value) (some o) e s).0.status ≡ 204
    → (v : State) → v.world.db ≡ (handle_sign_out (some value) (some o) e s).1.world.db
    → e.engine.fault (v.world.tick + 1) ≡ false
    → (session_holder value e v).0 ≡ go_on none
unfolding handle_sign_out handling sign_out
sign_out_ends value o e s h v same f =
    session_holder_lem value e v f
    ∙ ground (
      arith,
      revoked (e.secrets.hash_token value) e.engine s.world,
      drop_where-find (e.secrets.hash_token value) (millis (e.engine.clock v.world.tick))
          s.world.db.sessions,
      record_entry-SameAccounts (audited o.id session_ended o.email) e.engine
          (revoke_session (e.secrets.hash_token value) e.engine s.world).1,
    )
