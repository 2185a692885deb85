-- ===== src/Store/Valid/OperatorRows.antt =====
-- The statements on `operators` of internal/store/operator.go keep a valid database valid, with what
-- the foreign keys of the other tables add.
use dokkup.Common.{
  ℕ, ◌≡◌, ◌≢◌, ◌⊎◌, inl, inr, true, false, ◌&&◌, List, [], ◌∷◌, map, arith, Bool-cases, All,
  contains, All-weaken, exists-count_where, number_key, text_key, refl, Bool, keep, drop_where,
  update_where, ◌==◌, Text, contains-kept, map-update_where, count_where-update_where,
  All-update_where, All-drop_where, count_where-drop_where, Distinct-drop_where,
}
use dokkup.Store.Preservation.{Leaves}
use dokkup.Store.Respects.{IsAccount, IsSession}
use dokkup.Store.Schema.{
  Operator, Session, AuditEntry, Db, Engine, IsEngine, ids, emails, has_owner, insert_operator,
  update_password, update_name, forget, removable, delete_operator,
}
use dokkup.Store.Valid.{Refers, IsValid}

contains-cons : (k i : ℕ) (known : List ℕ) → contains k known ≡ true → contains k (i ∷ known) ≡ true
contains-cons k i known h = ground arith

pub insert_operator-IsValid :
    (e : Engine) (o : Operator) (d : Db)
    → IsEngine e
    → IsAccount o
    → IsValid d
    → Leaves IsValid (insert_operator e o d)
unfolding insert_operator
insert_operator-IsValid e o d l a v =
    go (Bool-cases (contains o.email (emails d.operators)))
      (Bool-cases (o.is_owner && has_owner d.operators))
  where
    go :
        (contains o.email (emails d.operators) ≡ true)
          ⊎ (contains o.email (emails d.operators) ≡ false)
        → ((o.is_owner && has_owner d.operators) ≡ true)
          ⊎ ((o.is_owner && has_owner d.operators) ≡ false)
        → Leaves IsValid (unfold insert_operator in insert_operator e o d)
    go (inl h) _ = rw h tt
    go (inr h) (inl g) = rw (h, g) tt
    go (inr h) (inr g) =
        rw (h, g)
          (record {
            ids_distinct = (l.id_fresh (ids d.operators), v.ids_distinct);
            emails_distinct = (h, v.emails_distinct);
            single_owner =
                ground (arith, v.single_owner, exists-count_where (λ o. o.is_owner) d.operators);
            accounts = (
              record { has_email = a.has_email; has_password = a.has_password; normal = a.normal },
              v.accounts,
            );
            session_keys = v.session_keys;
            sessions_ok = v.sessions_ok;
            session_refs =
                All-weaken (λ s. contains s.operator_id (ids d.operators) ≡ true)
                  (λ s.
                    contains s.operator_id (e.new_id (ids d.operators) ∷ ids d.operators) ≡ true)
                  (λ s h. contains-cons s.operator_id _ (ids d.operators) h) d.sessions
                  v.session_refs;
            token_keys = v.token_keys;
            audit_refs =
                All-weaken (Refers (ids d.operators))
                  (Refers (e.new_id (ids d.operators) ∷ ids d.operators))
                  (λ a h id q. contains-cons id _ (ids d.operators) (h id q)) d.audit_entries
                  v.audit_refs;
          })

-- An update that leaves the key, the address and the ownership of each account alone.
module _ (p : Operator → Bool) (u : Operator → Operator)
    (same_id : (o : Operator) → (u o).id ≡ o.id)
    (same_email : (o : Operator) → (u o).email ≡ o.email)
    (same_owner : (o : Operator) → (u o).is_owner ≡ o.is_owner)
    (keeps : (o : Operator) → IsAccount o → IsAccount (u o)) where
  update-IsValid :
      (d : Db) → IsValid d → IsValid (record d { operators = update_where p u d.operators })
  update-IsValid d v = record {
    ids_distinct = rw same_ids v.ids_distinct;
    emails_distinct =
        rw (map-update_where (λ o. o.email) p u same_email d.operators) v.emails_distinct;
    single_owner =
        rw (count_where-update_where (λ o. o.is_owner) p u same_owner d.operators) v.single_owner;
    accounts = All-update_where IsAccount p u keeps d.operators v.accounts;
    session_keys = v.session_keys;
    sessions_ok = v.sessions_ok;
    session_refs = rw same_ids v.session_refs;
    token_keys = v.token_keys;
    audit_refs = rw same_ids v.audit_refs;
  }
    where
      same_ids : ids (update_where p u d.operators) ≡ ids d.operators
      same_ids = map-update_where (λ o. o.id) p u same_id d.operators

pub update_password-IsValid :
    (hash : Text) (at id : ℕ) (d : Db)
    → hash ≢ []
    → IsValid d
    → Leaves IsValid (update_password hash at id d)
unfolding update_password
update_password-IsValid hash at id d h =
    update-IsValid (λ o. o.id == id) (λ o. record o { password_hash = hash; updated_at = at })
      (λ o. refl) (λ o. refl) (λ o. refl)
      (λ o a. record { has_email = a.has_email; has_password = h; normal = a.normal }) d

pub update_name-IsValid :
    (name : Text) (at id : ℕ) (d : Db) → IsValid d → Leaves IsValid (update_name name at id d)
unfolding update_name
update_name-IsValid name at id d =
    update-IsValid (λ o. o.id == id) (λ o. record o { name = name; updated_at = at }) (λ o. refl)
      (λ o. refl) (λ o. refl)
      (λ o a. record { has_email = a.has_email; has_password = a.has_password; normal = a.normal })
      d

-- the sessions that a deletion leaves belong to accounts that it leaves
refs-kept :
    (p : Operator → Bool) (ops : List Operator) (ss : List Session)
    → All (λ s. contains s.operator_id (ids ops) ≡ true) ss
    → All
        (λ s. contains s.operator_id (ids (drop_where p ops)) ≡ true)
        (drop_where (λ s. contains s.operator_id (ids (keep p ops))) ss)
refs-kept p ops [] h = tt
refs-kept p ops (s ∷ ss) h =
    ground (arith, refs-kept p ops ss h.1, contains-kept (λ o. o.id) p s.operator_id ops h.0)

Refers-forget :
    (p : Operator → Bool) (ops : List Operator) (a : AuditEntry)
    → Refers (ids ops) a
    → Refers (ids (drop_where p ops)) (forget (ids (keep p ops)) a)
Refers-forget p ops a h id q = ground (arith, h id, contains-kept (λ o. o.id) p id ops)

-- `map (forget doomed)` over the trail, as a recursion on the trail
Refers-map-forget :
    (p : Operator → Bool) (ops : List Operator) (trail : List AuditEntry)
    → All (Refers (ids ops)) trail
    → All (Refers (ids (drop_where p ops))) (map (forget (ids (keep p ops))) trail)
Refers-map-forget p ops [] h = tt
Refers-map-forget p ops (a ∷ trail) h =
    (Refers-forget p ops a h.0, Refers-map-forget p ops trail h.1)

pub delete_operator-IsValid : (id : ℕ) (d : Db) → IsValid d → Leaves IsValid (delete_operator id d)
unfolding delete_operator
delete_operator-IsValid id d v = record {
  ids_distinct = Distinct-drop_where (λ o. o.id) (removable id) d.operators v.ids_distinct;
  emails_distinct = Distinct-drop_where (λ o. o.email) (removable id) d.operators v.emails_distinct;
  single_owner =
      omega (
        arith,
        v.single_owner,
        count_where-drop_where (λ o. o.is_owner) (removable id) d.operators,
      );
  accounts = All-drop_where IsAccount (removable id) d.operators v.accounts;
  session_keys = Distinct-drop_where (λ s. s.token_hash) _ d.sessions v.session_keys;
  sessions_ok = All-drop_where IsSession _ d.sessions v.sessions_ok;
  session_refs = refs-kept (removable id) d.operators d.sessions v.session_refs;
  token_keys = v.token_keys;
  audit_refs = Refers-map-forget (removable id) d.operators d.audit_entries v.audit_refs;
}
