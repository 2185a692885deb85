-- ===== src/Examples/Tokens.antt =====
-- The claim of a host by a setup token.
use dokkup.Store.SetupTokens
use dokkup.Command.{IssuedToken, token_lifetime, new_token, clock_now, write_setup_token}
use dokkup.Command.Laws.{IsHashed, Claimable, write_setup_token-Claimable, written_token_redeems}
use dokkup.Common.{◌≡◌, refl, ◌≢◌, true, some, List, [], ◌∷◌, ◌+◌, ◌*◌, arith, ltb}
use dokkup.Common.Strings.{codes, trim_space, to_lower}
use dokkup.Examples.{engine, engine-IsEngine, engine-IsHealthy, owned, unclaimed, secrets}
use dokkup.Server.SignIn.{drawn}
use dokkup.Store.Audit.{record_unauthenticated}
use dokkup.Store.History.{remove_operator, issue_setup_token, Call, run}
use dokkup.Store.Operators.{normalise_email}
use dokkup.Store.Ownership.{owner_key, owner_persists, redeem_once}
use dokkup.Store.Schema.{
  Operator, SetupToken, Result, ok, insert_operator, delete_setup_tokens, insert_setup_token,
  insert_unattributed,
}
use dokkup.Store.SetupTokens.{redeem_setup_token}
use dokkup.Store.Sql.{World, millis, actions}

abbrev owner : Operator
owner = record {
  id = 1;
  email = codes "cy@example.com";
  name = codes "Cy";
  password_hash = codes "$a long password";
  is_owner = true;
  created_at = 1004;
  updated_at = 1004;
}

abbrev redemption : Result Operator × World
redemption =
    redeem_setup_token (codes "#setup") (codes " Cy@example.com") (codes "Cy")
      (codes "$a long password") engine unclaimed

token_works : redemption.0 ≡ ok owner
unfolding redeem_setup_token actions delete_setup_tokens insert_operator normalise_email trim_space
    to_lower
token_works = refl

abbrev another : List Call
another = issue_setup_token (codes "#again") 9000000000 ∷ []

redeem_once_example :
    (redeem_setup_token
      (codes "#again")
      (codes "d@example.com")
      []
      (codes "$d")
      engine
      (run another engine redemption.1)).0
    ≢ ok owner
redeem_once_example =
    redeem_once (codes "#setup") (codes " Cy@example.com") (codes "Cy") (codes "$a long password")
      engine unclaimed owner engine-IsEngine token_works another (codes "#again")
      (codes "d@example.com") [] (codes "$d") owner

normalised : normalise_email (codes " Cy@example.com") ≡ codes "cy@example.com"
unfolding normalise_email trim_space to_lower
normalised = refl

owner_persists_example :
    owner_key (run (remove_operator 1 ∷ []) engine owned).db.operators
    ≡ some (1, codes "ana@example.com")
owner_persists_example =
    owner_persists (1, codes "ana@example.com") (remove_operator 1 ∷ []) engine owned
      engine-IsEngine refl

abbrev fresh : SetupToken
fresh = record { token_hash = codes "#fresh"; created_at = 1000; expires_at = 9000 }

abbrev issued : Result SetupToken × World
issued = SetupTokens.issue_setup_token (codes "#fresh") 9000000000 engine unclaimed

token_issued : issued.0 ≡ ok fresh
unfolding SetupTokens.issue_setup_token actions delete_setup_tokens insert_setup_token
token_issued = refl

-- tokens whose hash is the token behind a mark, as `hash_token` has it
secrets-IsHashed : IsHashed secrets
secrets-IsHashed n drawn h = ground (arith, h)

abbrev issuing : Result IssuedToken × World
issuing = write_setup_token secrets token_lifetime engine unclaimed

abbrev printed : IssuedToken
printed = record { token = codes "token"; expires = 1801001 }

command_prints : issuing.0 ≡ ok printed
unfolding write_setup_token new_token clock_now SetupTokens.issue_setup_token record_unauthenticated
    actions delete_setup_tokens insert_setup_token insert_unattributed
command_prints = refl

write_setup_token-Claimable_example :
    Claimable secrets printed (1801001 * 1000000) unclaimed.db issuing.1.db
write_setup_token-Claimable_example =
    write_setup_token-Claimable secrets token_lifetime engine unclaimed printed secrets-IsHashed
      command_prints

early_enough : ltb (millis (engine.clock (issuing.1.tick + 1))) printed.expires ≡ true
unfolding write_setup_token new_token clock_now SetupTokens.issue_setup_token record_unauthenticated
    actions delete_setup_tokens insert_setup_token insert_unattributed
early_enough = refl

written_token_redeems_example :
    (o : Operator) × ((redeem_setup_token
        (codes "#token")
        (codes " Cy@example.com")
        (codes "Cy")
        (codes "$a long password")
        engine
        issuing.1).0
      ≡ ok o)
written_token_redeems_example =
    written_token_redeems secrets token_lifetime engine unclaimed printed (codes " Cy@example.com")
      (codes "Cy") (codes "$a long password") secrets-IsHashed engine-IsHealthy command_prints
      (rw normalised refl) refl refl early_enough
