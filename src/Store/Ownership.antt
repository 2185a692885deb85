-- ===== src/Store/Ownership.antt =====
-- Who controls the host: the setup token (internal/store/setuptoken.go) and the owner's row.
use dokkup.Common.{
  ℕ, ◌+◌, ◌≤◌, ◌≡◌, refl, ◌∙◌, ◌≢◌, Bool, true, false, Option, none, some, List, [], ◌∷◌, arith,
  if◌then◌else◌, drop_where, count_where, update_where, exists, ◌==◌, Text, number_key, text_key,
  contains,
}
use dokkup.Store.History.{Call, run, run-Preserves}
use dokkup.Store.Operators.{normalise_email, new_operator}
use dokkup.Store.Preservation.{Leaves}
use dokkup.Store.Respects.{Respects}
use dokkup.Store.Schema.{
  Operator, SetupToken, Db, ok, Engine, IsEngine, has_owner, insert_operator, update_password,
  update_name, removable, delete_operator, insert_session, delete_sessions, delete_setup_tokens,
  insert_setup_token, insert_attributed, insert_unattributed, IsHealthy, ids, emails, live,
}
use dokkup.Store.SetupTokens.{issue_setup_token, redeem_setup_token, spendable}
use dokkup.Store.Sql.{World, millis, actions}

abbrev pub owner_key : List Operator → Option (ℕ × Text)
owner_key [] = none
owner_key (o ∷ ops) = if o.is_owner then some (o.id, o.email) else owner_key ops

-- the owner is the account with this id and this address
abbrev pub OwnedBy : ℕ × Text → Db → Type 0
OwnedBy k d = owner_key d.operators ≡ some k

owner_key-has_owner :
    (k : ℕ × Text) (ops : List Operator) → owner_key ops ≡ some k → has_owner ops ≡ true
owner_key-has_owner k [] h = cc
owner_key-has_owner k (o ∷ ops) h = ground (arith, owner_key-has_owner k ops)

owner_key-update :
    (p : Operator → Bool) (u : Operator → Operator)
    → ((o : Operator) → (u o).id ≡ o.id)
    → ((o : Operator) → (u o).email ≡ o.email)
    → ((o : Operator) → (u o).is_owner ≡ o.is_owner)
    → (ops : List Operator) → owner_key (update_where p u ops) ≡ owner_key ops
owner_key-update p u si se so [] = refl
owner_key-update p u si se so (o ∷ ops) =
    ground (arith, si o, se o, so o, owner_key-update p u si se so ops)

owner_key-delete :
    (id : ℕ) (ops : List Operator) → owner_key (drop_where (removable id) ops) ≡ owner_key ops
owner_key-delete id [] = refl
owner_key-delete id (o ∷ ops) = ground (arith, owner_key-delete id ops)

insert_operator-OwnedBy :
    (k : ℕ × Text) (e : Engine) (o : Operator) (d : Db)
    → OwnedBy k d
    → Leaves (OwnedBy k) (insert_operator e o d)
unfolding insert_operator
insert_operator-OwnedBy k e o d h = ground (arith, owner_key-has_owner k d.operators)

pub OwnedBy-respected : (k : ℕ × Text) → Respects (OwnedBy k)
unfolding update_password update_name delete_operator insert_session delete_sessions
    delete_setup_tokens insert_setup_token insert_attributed insert_unattributed
OwnedBy-respected k = record {
  on_insert_operator = λ e o d l a. insert_operator-OwnedBy k e o d;
  on_update_password = λ hash at id d n h.
      owner_key-update (λ o. o.id == id) (λ o. record o { password_hash = hash; updated_at = at })
        (λ o. refl) (λ o. refl) (λ o. refl) d.operators
      ∙ h;
  on_update_name = λ name at id d h.
      owner_key-update (λ o. o.id == id) (λ o. record o { name = name; updated_at = at })
        (λ o. refl) (λ o. refl) (λ o. refl) d.operators
      ∙ h;
  on_delete_operator = λ id d h. owner_key-delete id d.operators ∙ h;
  on_insert_session = λ s d i h. ground arith;
  on_delete_sessions = λ p d h. h;
  on_delete_setup_tokens = λ p d h. h;
  on_insert_setup_token = λ t d h. ground arith;
  on_insert_attributed = λ e id a d h. ground arith;
  on_insert_unattributed = λ e a d h. h;
}

-- With new keys that are in no row: once a host has an owner, no sequence of calls removes that
-- account, makes another one the owner or changes its address.
pub owner_persists :
    (k : ℕ × Text) (calls : List Call) (e : Engine) (w : World)
    → IsEngine e
    → owner_key w.db.operators ≡ some k
    → owner_key (run calls e w).db.operators ≡ some k
owner_persists k = run-Preserves (OwnedBy-respected k)

drop_where_all {ℓ} : {A : Type ℓ} (xs : List A) → drop_where (λ _. true) xs ≡ []
drop_where_all [] = refl
drop_where_all (x ∷ xs) = drop_where_all xs

count_where-exists {ℓ} :
    {A : Type ℓ} (p : A → Bool) (xs : List A) → count_where p xs ≢ 0 → exists p xs ≡ true
count_where-exists p [] h = absurd (h refl)
count_where-exists p (x ∷ xs) h = ground (arith, count_where-exists p xs)

-- Issuing a token succeeds only on a host with no owner, and then it is the one token there is: it
-- replaces whatever was outstanding.
pub issue_setup_token_outstanding :
    (hash : Text) (expires_at : ℕ) (e : Engine) (w : World) (t : SetupToken)
    → (issue_setup_token hash expires_at e w).0 ≡ ok t
    → (has_owner w.db.operators ≡ false)
      × ((issue_setup_token hash expires_at e w).1.db ≡ record w.db { setup_tokens = t ∷ [] })
      × (t.token_hash ≡ hash)
      × (t.created_at ≤ t.expires_at)
unfolding issue_setup_token actions delete_setup_tokens insert_setup_token
issue_setup_token_outstanding hash expires_at e w t h =
    ground (arith, drop_where_all w.db.setup_tokens)

-- Redeeming a token succeeds only with a token that is stored and has not expired, on a host with no
-- owner. It takes that token out and adds one account, the owner, under the normalised address;
-- sessions and the trail are untouched.
pub redeem_setup_token_creates :
    (hash email name password_hash : Text) (e : Engine) (w : World) (o : Operator)
    → (redeem_setup_token hash email name password_hash e w).0 ≡ ok o
    → let live = spendable hash (millis (e.clock (w.tick + 1))) in
      (has_owner w.db.operators ≡ false)
      × (exists live w.db.setup_tokens ≡ true)
      × (o.is_owner ≡ true)
      × (o.email ≡ normalise_email email)
      × (o.password_hash ≡ password_hash)
      × ((redeem_setup_token hash email name password_hash e w).1.db ≡ record w.db {
        operators = o ∷ w.db.operators;
        setup_tokens = drop_where live w.db.setup_tokens;
      })
unfolding redeem_setup_token actions delete_setup_tokens insert_operator
redeem_setup_token_creates hash email name password_hash e w o h =
    ground
      (arith, count_where-exists (spendable hash (millis (e.clock (w.tick + 1)))) w.db.setup_tokens)

owned_no_redemption :
    (k : ℕ × Text) (hash email name password_hash : Text) (e : Engine) (w : World) (o : Operator)
    → owner_key w.db.operators ≡ some k
    → (redeem_setup_token hash email name password_hash e w).0 ≢ ok o
owned_no_redemption k hash email name password_hash e w o h r = cc (
  owner_key-has_owner k w.db.operators h,
  (redeem_setup_token_creates hash email name password_hash e w o r).0,
)

redeemed_key :
    (hash email name password_hash : Text) (e : Engine) (w : World) (o : Operator)
    → (redeem_setup_token hash email name password_hash e w).0 ≡ ok o
    → owner_key (redeem_setup_token hash email name password_hash e w).1.db.operators
      ≡ some (o.id, o.email)
redeemed_key hash email name password_hash e w o h =
    let (_, _, owner, _, _, d) = redeem_setup_token_creates hash email name password_hash e w o h in
    rw (d, owner) refl

-- With new keys that are in no row, a host is claimed once: after a redemption that succeeded, and
-- any calls at all, no redemption succeeds, whichever token it names.
pub redeem_once :
    (hash email name password_hash : Text) (e : Engine) (w : World) (o : Operator)
    → IsEngine e
    → (redeem_setup_token hash email name password_hash e w).0 ≡ ok o
    → (calls : List Call) (hash' email' name' password_hash' : Text) (o' : Operator)
    → let v = run calls e (redeem_setup_token hash email name password_hash e w).1 in
      (redeem_setup_token hash' email' name' password_hash' e v).0 ≢ ok o'
redeem_once hash email name password_hash e w o l h calls hash' email' name' password_hash' o' =
    let v : World = run calls e (redeem_setup_token hash email name password_hash e w).1 in
    owned_no_redemption (o.id, o.email) hash' email' name' password_hash' e v o'
      (owner_persists (o.id, o.email) calls e
        (redeem_setup_token hash email name password_hash e w).1 l
        (redeemed_key hash email name password_hash e w o h))

exists-count_where :
    (t : SetupToken → Bool) (xs : List SetupToken)
    → exists t xs ≡ true
    → (count_where t xs == 0) ≡ false
exists-count_where t [] h = cc
exists-count_where t (x ∷ xs) h = ground (arith, exists-count_where t xs)

-- On an engine that does not fail, a live token creates the owner of a host that has none, unless
-- the address is already an account's, or an argument is empty.
pub redeem_setup_token_succeeds :
    (hash email name password_hash : Text) (e : Engine) (w : World)
    → IsHealthy e
    → (hash == []) ≡ false
    → (normalise_email email == []) ≡ false
    → (password_hash == []) ≡ false
    → exists (spendable hash (millis (e.clock (w.tick + 1)))) w.db.setup_tokens ≡ true
    → has_owner w.db.operators ≡ false
    → contains (normalise_email email) (emails w.db.operators) ≡ false
    → (o : Operator) × ((redeem_setup_token hash email name password_hash e w).0 ≡ ok o)
unfolding redeem_setup_token actions delete_setup_tokens insert_operator
redeem_setup_token_succeeds hash email name password_hash e w g h1 h2 h3 live none_yet free = (
  record (new_operator (normalise_email email) name password_hash true
      (millis (e.clock (w.tick + 1 + 1 + 1 + 1)))) { id = e.new_id (ids w.db.operators) },
  grind (
    arith,
    exists-count_where (spendable hash (millis (e.clock (w.tick + 1)))) w.db.setup_tokens,
    g.no_fault,
    g.reports,
  ),
)
