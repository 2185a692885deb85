-- ===== src/Command/Laws.antt =====
-- What a setup token that was issued on the host is good for.
use dokkup.Command.{setup_token_issued, new_token, write_setup_token, IssuedToken, clock_now}
use dokkup.Common.{
  ℕ, ◌+◌, ◌≡◌, false, none, some, [], ◌∷◌, Text, inl, inr, arith, Option-cases, refl, ap, ◌∙◌, true,
  ltb, contains, ◌==◌, number_key, text_key, List, exists, same_text_iff,
}
use dokkup.Server.Http.{Secrets}
use dokkup.Server.Setup.{hashed}
use dokkup.Server.SignIn.{audited}
use dokkup.Store.Audit.{record_unauthenticated, entry_row}
use dokkup.Store.Operators.{normalise_email}
use dokkup.Store.Ownership.{issue_setup_token_outstanding, redeem_setup_token_succeeds}
use dokkup.Store.Schema.{
  SetupToken, AuditEntry, Db, Engine, has_owner, insert_unattributed, Result, ok, audit_ids,
  Result-cases, delete_setup_tokens, insert_setup_token, Operator, IsHealthy, emails,
}
use dokkup.Store.SetupTokens.{issue_setup_token, redeem_setup_token, spendable}
use dokkup.Store.Sql.{World, millis, actions, advance}

-- the hash that a new token comes with is the hash of the token
abbrev pub IsHashed : Secrets → Type 0
IsHashed k =
    (n : ℕ) (drawn : Text × Text) → k.new_token n ≡ some drawn → drawn.1 ≡ k.hash_token drawn.0

-- the host after a token was issued
pub record Claimable (k : Secrets) (i : IssuedToken) (at : ℕ) (d d' : Db) : Type 0 where
  pub stored : SetupToken
  pub entry : AuditEntry
  pub free : has_owner d.operators ≡ false
  pub only_token : d'.setup_tokens ≡ stored ∷ []
  pub for_token : stored.token_hash ≡ k.hash_token i.token
  pub deadline : (stored.expires_at ≡ i.expires) × (i.expires ≡ millis at)
  pub same_operators : d'.operators ≡ d.operators
  pub same_sessions : d'.sessions ≡ d.sessions
  pub recorded : d'.audit_entries ≡ entry ∷ d.audit_entries
  pub as_issued : entry ≡ record {
    id = entry.id;
    operator_id = none;
    operator_email = [];
    action = setup_token_issued;
    target = [];
    config_key = [];
    recorded_at = entry.recorded_at;
  }

-- an entry for the trail that is recorded changes nothing else
record_unauthenticated_lem :
    (action : Text) (e : Engine) (w : World)
    → (record_unauthenticated (audited 0 action []) e w).0 ≡ ok tt
    → let row = entry_row (audited 0 action []) (millis (e.clock w.tick)) in
      (record_unauthenticated (audited 0 action []) e w).1.db ≡ record w.db {
        audit_entries =
            record row { id = e.new_id (audit_ids w.db.audit_entries) } ∷ w.db.audit_entries;
      }
unfolding record_unauthenticated actions insert_unattributed
record_unauthenticated_lem action e w h = ground arith

issue_setup_token-deadline :
    (hash : Text) (expires_at : ℕ) (e : Engine) (w : World) (t : SetupToken)
    → (issue_setup_token hash expires_at e w).0 ≡ ok t
    → t.expires_at ≡ millis expires_at
unfolding issue_setup_token actions delete_setup_tokens insert_setup_token
issue_setup_token-deadline hash expires_at e w t h = ground arith

-- A token is printed only for a host with no owner. Then it is the one token that can be redeemed there,
-- until the deadline that is printed with it, which is the moment of the issue and the lifetime; the
-- trail has one entry more, of which every field but the action, the id and the time is empty; accounts and sessions are as
-- they were.
pub write_setup_token-Claimable :
    (k : Secrets) (ttl : ℕ) (e : Engine) (w : World) (i : IssuedToken)
    → IsHashed k
    → (write_setup_token k ttl e w).0 ≡ ok i
    → Claimable k i (e.clock (w.tick + 1) + ttl) w.db (write_setup_token k ttl e w).1.db
unfolding write_setup_token new_token clock_now actions
write_setup_token-Claimable k ttl e w i hashed h = elim (Option-cases (k.new_token w.tick)) [
  | inl undrawn ↦ absurd (ground arith)
  | inr (drawn, found) ↦
      let deadline = e.clock (w.tick + 1) + ttl in
      let run : Result SetupToken × World =
        issue_setup_token drawn.1 deadline e (advance (advance w)) in
      elim (Result-cases run.0) [
        | inr (x, refused) ↦ absurd (ground arith)
        | inl (t, stored) ↦
            let (free, written_db, same_hash, order) =
              issue_setup_token_outstanding drawn.1 deadline e (advance (advance w)) t stored in
            elim (Result-cases
              (record_unauthenticated (audited 0 setup_token_issued []) e run.1).0) [
                | inr (x, refused) ↦ absurd (ground arith)
                | inl (u, done) ↦
                    let trail = record_unauthenticated_lem setup_token_issued e run.1 done in
                    let printed : i ≡ record { token = drawn.0; expires = t.expires_at } =
                      ground arith in
                    let last : (write_setup_token k ttl e w).1.db
                        ≡ (record_unauthenticated (audited 0 setup_token_issued []) e run.1).1.db =
                      ground arith in
                    record {
                      stored = t;
                      entry =
                          record (entry_row (audited 0 setup_token_issued [])
                            (millis (e.clock run.1.tick))) {
                              id = e.new_id (audit_ids run.1.db.audit_entries);
                            };
                      free = free;
                      only_token = ground (arith, last, trail, written_db);
                      for_token = ground (arith, same_hash, hashed w.tick drawn found, printed);
                      deadline = (
                        ground (arith, printed),
                        ground (
                          arith,
                          printed,
                          issue_setup_token-deadline drawn.1 deadline e (advance (advance w)) t
                              stored,
                        ),
                      );
                      same_operators = ground (arith, last, trail, written_db);
                      same_sessions = ground (arith, last, trail, written_db);
                      recorded = ground (arith, last, trail, written_db);
                      as_issued = refl;
                    }
              ]
      ]
]

issued_hash :
    (k : Secrets) (ttl : ℕ) (e : Engine) (w : World) (i : IssuedToken)
    → IsHashed k
    → (write_setup_token k ttl e w).0 ≡ ok i
    → (k.hash_token i.token == []) ≡ false
unfolding write_setup_token new_token clock_now issue_setup_token actions
issued_hash k ttl e w i hashed h = elim (Option-cases (k.new_token w.tick)) [
  | inl undrawn ↦ absurd (ground arith)
  | inr (drawn, found) ↦ ground (arith, hashed w.tick drawn found)
]

only_one-spendable :
    (hash : Text) (at : ℕ) (t : SetupToken) (ts : List SetupToken)
    → ts ≡ t ∷ []
    → t.token_hash ≡ hash
    → ltb at t.expires_at ≡ true
    → exists (spendable hash at) ts ≡ true
only_one-spendable hash at t ts only same_hash early =
    ap (exists (spendable hash at)) only
    ∙ ground (arith, (same_text_iff t.token_hash hash).1 same_hash, early)

-- On an engine that does not fail, the token that was just printed creates the owner, before the
-- deadline that was printed with it, under an address that is not empty and no account's, with a
-- password hash that is not empty.
pub written_token_redeems :
    (k : Secrets) (ttl : ℕ) (e : Engine) (w : World) (i : IssuedToken)
    (email name password_hash : Text)
    → IsHashed k
    → IsHealthy e
    → (write_setup_token k ttl e w).0 ≡ ok i
    → (normalise_email email == []) ≡ false
    → (password_hash == []) ≡ false
    → contains (normalise_email email) (emails w.db.operators) ≡ false
    → ltb (millis (e.clock ((write_setup_token k ttl e w).1.tick + 1))) i.expires ≡ true
    → (o : Operator) × ((redeem_setup_token
          (k.hash_token i.token)
          email
          name
          password_hash
          e
          (write_setup_token k ttl e w).1).0
        ≡ ok o)
written_token_redeems k ttl e w i email name password_hash hashed healthy h h1 h2 free early =
    let w' = (write_setup_token k ttl e w).1 in
    let claimable = write_setup_token-Claimable k ttl e w i hashed h in
    redeem_setup_token_succeeds (k.hash_token i.token) email name password_hash e w' healthy
      (issued_hash k ttl e w i hashed h) h1 h2
      (only_one-spendable (k.hash_token i.token) (millis (e.clock (w'.tick + 1))) claimable.stored
        w'.db.setup_tokens claimable.only_token claimable.for_token
        (ground (arith, early, claimable.deadline.0)))
      (ap has_owner claimable.same_operators ∙ claimable.free)
      (ap (λ ops. contains (normalise_email email) (emails ops)) claimable.same_operators ∙ free)
