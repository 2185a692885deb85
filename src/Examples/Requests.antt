-- ===== src/Examples/Requests.antt =====
-- The handlers of the server.
use dokkup.Common.{inl, inr, ◌<◌, ◌≡◌, refl, true, Option, none, some, arith}
use dokkup.Common.Strings.{codes, trim_space, to_lower}
use dokkup.Examples.{engine-IsHealthy, config, env, ana, bo, owned, unclaimed, serving}
use dokkup.Server.Guards.{post, Request, session_holder, guarded}
use dokkup.Server.Guards.Journeys.{issued_authenticates, sign_out_ends}
use dokkup.Server.Guards.Laws.{Nobody, session_required}
use dokkup.Server.Handler.{State, go_on, H, respond, handle, handling}
use dokkup.Server.Http.{signin_refusal, not_signed_in, no_content, Response, reply, refusal}
use dokkup.Server.RateLimit.{refilled, take_token}
use dokkup.Server.Setup.{
  SetupRequest, validate_setup, limit_setup, decoded_setup, valid_setup, unowned, hashed, redeemed,
  claim, setup, handle_setup,
}
use dokkup.Server.Setup.Laws.{Claimed, setup_claims}
use dokkup.Server.SignIn.{
  SigninRequest, limit_signin, decoded, bounded, known, matching, permitted, checked_operator,
  drawn, started, session_cookie, begin_session, sign_in, handle_sign_in,
}
use dokkup.Server.SignIn.Refusals.{credentials, SameAccounts, sign_in_refuses}
use dokkup.Server.SignIn.Sessions.{Issued, sign_in_sound}
use dokkup.Server.SignOut.{end_session, signed_in, sign_out, handle_sign_out}
use dokkup.Store.Audit.{record_entry}
use dokkup.Store.Migrations.Resumption.{after}
use dokkup.Store.Operators.{normalise_email, operator_by_email}
use dokkup.Store.Schema.{
  Operator, Session, insert_operator, insert_session, delete_sessions, delete_setup_tokens,
  insert_attributed, select_operator,
}
use dokkup.Store.Sessions.{start_session, revoke_session}
use dokkup.Store.SetupTokens.{redeem_setup_token, is_owned}
use dokkup.Store.Sql.{millis, actions}

-- signing in

abbrev wrong : SigninRequest
wrong = record { email = codes "ana@example.com"; password = codes "a guess" }

abbrev right : SigninRequest
right = record { email = codes " Ana@example.com"; password = codes "correct horse" }

limiter_full : (take_token 1 (serving owned).signin_limiter).0 ≡ true
unfolding take_token refilled
limiter_full = refl

no_credentials : credentials env owned.db.operators wrong ≡ none
unfolding normalise_email trim_space to_lower
no_credentials = refl

sign_in_refuses_example :
    let r = handle_sign_in 1 (some wrong) env (serving owned) in
    (r.0 ≡ refusal 401 signin_refusal) × SameAccounts owned.db r.1.world.db
sign_in_refuses_example =
    sign_in_refuses 1 wrong env (serving owned) engine-IsHealthy refl limiter_full no_credentials

abbrev signed : Response × State
signed = handle_sign_in 1 (some right) env (serving owned)

signed_200 : signed.0.status ≡ 200
unfolding handle_sign_in handling decoded limit_signin sign_in take_token refilled checked_operator
    bounded known matching permitted begin_session drawn started operator_by_email start_session
    record_entry actions select_operator insert_session insert_attributed normalise_email trim_space
    to_lower
signed_200 = refl

sign_in_sound_example :
    (body : SigninRequest) × (o : Operator) × (before : State) × (some right ≡ some body)
    × (credentials env owned.db.operators body ≡ some o)
    × SameAccounts owned.db before.world.db
    × Issued env before o signed
sign_in_sound_example = sign_in_sound 1 (some right) env (serving owned) engine-IsHealthy signed_200

-- the session of a cookie

abbrev issued_session : Session
issued_session = record {
  token_hash = codes "#token";
  operator_id = 1;
  created_at = 1002;
  expires_at = 604801001;
}

abbrev issuing : Response × State
issuing = handle (begin_session config ana) env (serving owned)

ana_issued : Issued env (serving owned) ana issuing
unfolding begin_session handling drawn started start_session record_entry actions insert_session
    insert_attributed
ana_issued = record {
  token = codes "token";
  session = issued_session;
  was_drawn = refl;
  in_cookie = (
    session_cookie config (codes "token") 604801001000000 1004000000,
    refl,
    refl,
    refl,
    refl,
    refl,
  );
  body_names = refl;
  of_operator = refl;
  stored = refl;
  others_same = (refl, refl);
}

early : millis (env.engine.clock issuing.1.world.tick) < issued_session.expires_at
unfolding begin_session handling drawn started start_session record_entry actions insert_session
    insert_attributed
early = omega arith

issued_authenticates_example : (session_holder (codes "token") env issuing.1).0 ≡ go_on (some ana)
unfolding ana_issued
issued_authenticates_example =
    issued_authenticates env (serving owned) ana issuing (λ o. o.is_owner) ana_issued refl
      (refl, (refl, tt)) refl issuing.1 refl refl early

abbrev signed_out : Response × State
signed_out = handle_sign_out (some (codes "bo")) (some bo) env (serving owned)

signed_out_204 : signed_out.0.status ≡ 204
unfolding handle_sign_out handling sign_out end_session signed_in revoke_session record_entry
    actions delete_sessions insert_attributed
signed_out_204 = refl

sign_out_ends_example : (session_holder (codes "bo") env signed_out.1).0 ≡ go_on none
sign_out_ends_example =
    sign_out_ends (codes "bo") bo env (serving owned) signed_out_204 signed_out.1 refl refl

-- the guards, before handlers that would answer 200 to everything

abbrev reaching : Request → Option Operator → H (Unit {0})
reaching r o = respond (reply 200 no_content)

abbrev anonymous : Request
anonymous = record {
  method = post;
  path = codes "/api/session";
  cookie = some (codes "nobody");
  has_csrf = true;
}

abbrev to_apps : Request
to_apps = record anonymous { path = codes "/api/apps" }

nobody : Nobody to_apps env (serving owned)
nobody = inr (inl (λ h. cc), tt)

session_required_example :
    let (answered, after) = handle (guarded reaching to_apps) env (serving owned) in
    (answered ≡ refusal 401 not_signed_in) × (after.world.db ≡ owned.db)
session_required_example = session_required reaching to_apps env (serving owned) refl refl nobody

-- setup

abbrev claimant : SetupRequest
claimant = record {
  token = codes "setup";
  email = codes "cy@example.com";
  name = codes "Cy";
  password = codes "a long password";
}

claimant_is_valid : (validate_setup claimant).1 ≡ none
unfolding validate_setup normalise_email trim_space to_lower
claimant_is_valid = refl

abbrev claimed : Response × State
claimed = handle_setup 1 (some claimant) env (serving unclaimed)

claimed_201 : claimed.0.status ≡ 201
unfolding handle_setup handling setup limit_setup decoded_setup validate_setup valid_setup unowned
    is_owned actions take_token refilled claim hashed redeemed redeem_setup_token
    delete_setup_tokens insert_operator record_entry insert_attributed normalise_email trim_space
    to_lower
claimed_201 = refl

setup_claims_example :
    (body : SetupRequest) × (some claimant ≡ some body)
    × ((validate_setup body).1 ≡ none)
    × Claimed env body unclaimed.db claimed.1.world.db
setup_claims_example = setup_claims 1 (some claimant) env (serving unclaimed) claimed_201
