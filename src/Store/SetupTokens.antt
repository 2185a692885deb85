-- ===== src/Store/SetupTokens.antt =====
-- internal/store/setuptoken.go: the single-use token that creates the owner.
use dokkup.Common.{ℕ, Bool, true, not, ◌&&◌, [], ltb, leb, ◌==◌, Text, number_key, text_key}
use dokkup.Store.Operators.{normalise_email, creation_error, new_operator}
use dokkup.Store.Schema.{
  Operator, SetupToken, not_found, owner_exists, no_token_hash, no_email, no_password_hash, expired,
  ok, has_owner, insert_operator, delete_setup_tokens, insert_setup_token,
}
use dokkup.Store.Sql.{
  M, pure, refuse_if, map_error, exec, query, reported, millis, now, is_after, transaction, ◌>>=◌,
  ◌>>◌,
}

unfoldable pub issue_setup_token : Text → ℕ → M SetupToken
issue_setup_token hash expires_at = do
  refuse_if (hash == []) no_token_hash
  created ← now
  refuse_if (not (is_after expires_at created)) expired
  let token : SetupToken = record {
    token_hash = hash;
    created_at = created;
    expires_at = millis expires_at;
  }
  transaction do
    exec (λ _. delete_setup_tokens (λ _. true))
    n ← exec (λ _. insert_setup_token token)
    issued ← reported n
    refuse_if (issued == 0) owner_exists
    pure token

-- a token that is still redeemable: token_hash = ? AND expires_at > ?
abbrev pub spendable : Text → ℕ → SetupToken → Bool
spendable hash at t = t.token_hash == hash && ltb at t.expires_at

unfoldable pub redeem_setup_token : Text → Text → Text → Text → M Operator
unfolding normalise_email
redeem_setup_token hash email name password_hash = do
  refuse_if (hash == []) no_token_hash
  refuse_if (normalise_email email == []) no_email
  refuse_if (password_hash == []) no_password_hash
  transaction do
    at ← now
    n ← exec (λ _. delete_setup_tokens (spendable hash at))
    tokens ← reported n
    refuse_if (tokens == 0) not_found
    stamp ← now
    let owner = new_operator (normalise_email email) name password_hash true stamp
    k ← map_error (creation_error true) (exec (λ e. insert_operator e owner))
    id ← reported k
    pure (record owner { id = id })

-- HasOwner
unfoldable pub is_owned : M Bool
is_owned = query (λ d. ok (has_owner d.operators))

unfoldable pub drop_expired_setup_tokens : M ℕ
drop_expired_setup_tokens = do
  at ← now
  n ← exec (λ _. delete_setup_tokens (λ t. leb t.expires_at at))
  reported n
