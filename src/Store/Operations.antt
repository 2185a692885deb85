-- ===== src/Store/Operations.antt =====
-- Every operation of the store keeps what its statements keep, whatever fails on the way.
use dokkup.Common.{
  ℕ, ◌≤◌, ◌≡◌, refl, Bool, true, false, not, [], arith, leb, ◌==◌, Text, same_text_iff, number_key,
  text_key,
}
use dokkup.Common.Strings.Trimming.{lower-trim_idem}
use dokkup.Store.Audit.{record_entry, record_unauthenticated, Audited, entry_row}
use dokkup.Store.Operators.{
  create_owner, create_invited, set_password, rename, remove_operator, normalise_email,
  creation_error, new_operator, create_operator,
}
use dokkup.Store.Preservation.{
  Preserves, Leaves, Preserves-refuse_if, Preserves-now, Preserves-reported, Preserves->>=,
  Preserves->>, Preserves-map_error, Preserves-exec, Preserves-transaction, preserving,
}
use dokkup.Store.Respects.{IsAccount, Respects}
use dokkup.Store.Schema.{
  Db, Error, no_token_hash, no_email, no_password_hash, expired, Result, Engine, IsEngine,
}
use dokkup.Store.Sessions.{
  start_session, revoke_session, revoke_operator_sessions, drop_expired_sessions, session_error,
}
use dokkup.Store.SetupTokens.{
  issue_setup_token, redeem_setup_token, drop_expired_setup_tokens, spendable,
}
use dokkup.Store.Sql.{M, ◌>>=◌, ◌>>◌, refuse_if, exec, reported, millis, now, is_after}

-- an address that passed the check makes an account, with a password hash that passed it too
new_operator-IsAccount :
    (email name hash : Text) (owner : Bool) (stamp : ℕ)
    → (normalise_email email == []) ≡ false
    → (hash == []) ≡ false
    → IsAccount (new_operator (normalise_email email) name hash owner stamp)
unfolding normalise_email
new_operator-IsAccount email name hash owner stamp h g = record {
  has_email = ground (arith, same_text_iff (normalise_email email) []);
  has_password = ground (arith, same_text_iff hash []);
  normal = lower-trim_idem email;
}

module _ {P : Db → Type 0} (r : Respects P) where
  -- after a test that refuses, the rest may use that the test failed
  guarded :
      (b : Bool) (x : Error) {A : Type 0} (m : M A)
      → (b ≡ false → Preserves P m)
      → Preserves P (refuse_if b x >> m)
  unfolding refuse_if ◌>>◌ ◌>>=◌
  guarded true x m k = record { at = λ e l w h. h }
  guarded false x m k = k refl

  pub create_operator-Preserves :
      (email name hash : Text) (owner : Bool) → Preserves P (create_operator email name hash owner)
  unfolding create_operator
  create_operator-Preserves email name hash owner =
      guarded (normalise_email email == []) no_email _ (λ h.
        guarded (hash == []) no_password_hash _ (λ g. Preserves->>= now _ Preserves-now (λ stamp.
          Preserves->>= _ _
            (Preserves-map_error (creation_error owner) _ (
              Preserves-exec _ (λ e l d v.
                r.on_insert_operator e _ d l
                  (new_operator-IsAccount email name hash owner stamp h g) v)))
            (λ n. search preserving))))

  pub create_owner-Preserves : (email name hash : Text) → Preserves P (create_owner email name hash)
  unfolding create_owner
  create_owner-Preserves email name hash = create_operator-Preserves email name hash true

  pub create_invited-Preserves :
      (email name hash : Text) → Preserves P (create_invited email name hash)
  unfolding create_invited
  create_invited-Preserves email name hash = create_operator-Preserves email name hash false

  -- a statement of its own: its row count is all that is left to do
  statement-Preserves :
      (s : Engine → Db → Result (ℕ × Db)) {A : Type 0} (f : ℕ → M A)
      → ((e : Engine) → IsEngine e → (d : Db) → P d → Leaves P (s e d))
      → ((n : ℕ) → Preserves P (f n))
      → Preserves P (exec s >>= f)
  statement-Preserves s f k ks = Preserves->>= (exec s) f (Preserves-exec s k) ks

  pub set_password-Preserves : (id : ℕ) (hash : Text) → Preserves P (set_password id hash)
  unfolding set_password
  set_password-Preserves id hash = guarded (hash == []) no_password_hash _ (λ g.
      Preserves-transaction _ (
        Preserves->>= now _ Preserves-now (λ at.
          statement-Preserves _ _
            (λ e l d. r.on_update_password hash at id d (ground (arith, same_text_iff hash [])))
            (λ n. Preserves->>= (reported n) _ (Preserves-reported n) (λ changed.
              Preserves->> _ _ (Preserves-refuse_if _ _) (
                statement-Preserves _ _ (λ e l d. r.on_delete_sessions (λ s. s.operator_id == id) d)
                  (λ m. search preserving)))))))

  pub rename-Preserves : (id : ℕ) (name : Text) → Preserves P (rename id name)
  unfolding rename
  rename-Preserves id name = Preserves->>= now _ Preserves-now (λ at.
      statement-Preserves _ _ (λ e l d. r.on_update_name name at id d) (λ n. search preserving))

  pub remove_operator-Preserves : (id : ℕ) → Preserves P (remove_operator id)
  unfolding remove_operator
  remove_operator-Preserves id =
      statement-Preserves _ _ (λ e l d. r.on_delete_operator id d) (λ n. search preserving)

  expiry_in_order :
      (expires_at created : ℕ)
      → not (is_after expires_at created) ≡ false
      → created ≤ millis expires_at
  expiry_in_order expires_at created h = ground arith

  pub start_session-Preserves :
      (id : ℕ) (hash : Text) (expires_at : ℕ) → Preserves P (start_session id hash expires_at)
  unfolding start_session
  start_session-Preserves id hash expires_at = guarded (hash == []) no_token_hash _ (λ g.
      Preserves->>= now _ Preserves-now (λ created.
        guarded (not (is_after expires_at created)) expired _ (λ h.
          Preserves->>= _ _
            (Preserves-map_error session_error _ (
              Preserves-exec _ (λ e l d. r.on_insert_session _ d (record {
                has_hash = ground (arith, same_text_iff hash []);
                lasts = expiry_in_order expires_at created h;
              }))))
            (λ n. search preserving))))

  pub revoke_session-Preserves : (hash : Text) → Preserves P (revoke_session hash)
  unfolding revoke_session
  revoke_session-Preserves hash =
      statement-Preserves _ _ (λ e l d. r.on_delete_sessions (λ s. s.token_hash == hash) d)
        (λ n. search preserving)

  pub revoke_operator_sessions-Preserves : (id : ℕ) → Preserves P (revoke_operator_sessions id)
  unfolding revoke_operator_sessions
  revoke_operator_sessions-Preserves id =
      statement-Preserves _ _ (λ e l d. r.on_delete_sessions (λ s. s.operator_id == id) d)
        (λ n. search preserving)

  pub drop_expired_sessions-Preserves : Preserves P drop_expired_sessions
  unfolding drop_expired_sessions
  drop_expired_sessions-Preserves = Preserves->>= now _ Preserves-now (λ at.
      statement-Preserves _ _ (λ e l d. r.on_delete_sessions (λ s. leb s.expires_at at) d)
        (λ n. search preserving))

  pub issue_setup_token-Preserves :
      (hash : Text) (expires_at : ℕ) → Preserves P (issue_setup_token hash expires_at)
  unfolding issue_setup_token
  issue_setup_token-Preserves hash expires_at = guarded (hash == []) no_token_hash _ (λ g.
      Preserves->>= now _ Preserves-now (λ created.
        guarded (not (is_after expires_at created)) expired _ (λ h. Preserves-transaction _ (
          Preserves->> _ _ (Preserves-exec _ (λ e l d. r.on_delete_setup_tokens (λ _. true) d)) (
            statement-Preserves _ _ (λ e l d. r.on_insert_setup_token _ d)
              (λ n. search preserving))))))

  pub redeem_setup_token-Preserves :
      (hash email name password_hash : Text)
      → Preserves P (redeem_setup_token hash email name password_hash)
  unfolding redeem_setup_token
  redeem_setup_token-Preserves hash email name password_hash =
      Preserves->> _ _ (Preserves-refuse_if _ _) (
        guarded (normalise_email email == []) no_email _ (λ h.
          guarded (password_hash == []) no_password_hash _ (λ g. Preserves-transaction _ (
            Preserves->>= now _ Preserves-now (λ at.
              statement-Preserves _ _ (λ e l d. r.on_delete_setup_tokens (spendable hash at) d)
                (λ n. Preserves->>= (reported n) _ (Preserves-reported n) (λ tokens.
                  Preserves->> _ _ (Preserves-refuse_if _ _) (
                    Preserves->>= now _ Preserves-now (λ stamp.
                      Preserves->>= _ _
                        (Preserves-map_error (creation_error true) _ (
                          Preserves-exec _ (λ e l d v.
                            r.on_insert_operator e _ d l
                              (new_operator-IsAccount email name password_hash true stamp h g) v)))
                        (λ k. search preserving))))))))))

  pub drop_expired_setup_tokens-Preserves : Preserves P drop_expired_setup_tokens
  unfolding drop_expired_setup_tokens
  drop_expired_setup_tokens-Preserves = Preserves->>= now _ Preserves-now (λ at.
      statement-Preserves _ _ (λ e l d. r.on_delete_setup_tokens (λ t. leb t.expires_at at) d)
        (λ n. search preserving))

  pub record_entry-Preserves : (entry : Audited) → Preserves P (record_entry entry)
  unfolding record_entry
  record_entry-Preserves entry = Preserves->> _ _ (Preserves-refuse_if _ _) (
      Preserves->>= now _ Preserves-now (λ at.
        statement-Preserves _ _
          (λ e l d. r.on_insert_attributed e entry.operator_id (entry_row entry at) d)
          (λ n. search preserving)))

  pub record_unauthenticated-Preserves :
      (entry : Audited) → Preserves P (record_unauthenticated entry)
  unfolding record_unauthenticated
  record_unauthenticated-Preserves entry = Preserves->> _ _ (Preserves-refuse_if _ _) (
      Preserves->> _ _ (Preserves-refuse_if _ _) (
        Preserves->>= now _ Preserves-now (λ at.
          statement-Preserves _ _ (λ e l d. r.on_insert_unattributed e (entry_row entry at) d)
            (λ n. search preserving))))
