-- ===== src/Store/Valid/OtherRows.antt =====
-- The statements on sessions, setup tokens and the audit trail keep a valid database valid.
use dokkup.Common.{
  ℕ, ◌≡◌, inl, inr, true, some, List, [], ◌∷◌, map, arith, contains, Distinct, number_key, text_key,
  Bool, drop_where, ◌==◌, Option-cases, find, All-drop_where, Distinct-drop_where,
}
use dokkup.Store.Preservation.{Leaves, Leaves-if}
use dokkup.Store.Respects.{IsSession}
use dokkup.Store.Schema.{
  Operator, Session, AuditEntry, Db, Engine, ids, has_owner, SetupToken, insert_session,
  delete_sessions, delete_setup_tokens, insert_setup_token, insert_attributed, insert_unattributed,
}
use dokkup.Store.Valid.{Refers, IsValid}

pub insert_session-IsValid :
    (s : Session) (d : Db) → IsSession s → IsValid d → Leaves IsValid (insert_session s d)
unfolding insert_session
insert_session-IsValid s d i v = ground (
  arith, i, v.session_keys, v.sessions_ok, v.session_refs, v.ids_distinct, v.emails_distinct,
  v.single_owner, v.accounts, v.token_keys, v.audit_refs,
)

pub delete_sessions-IsValid :
    (p : Session → Bool) (d : Db) → IsValid d → Leaves IsValid (delete_sessions p d)
unfolding delete_sessions
delete_sessions-IsValid p d v = record {
  ids_distinct = v.ids_distinct;
  emails_distinct = v.emails_distinct;
  single_owner = v.single_owner;
  accounts = v.accounts;
  session_keys = Distinct-drop_where (λ s. s.token_hash) p d.sessions v.session_keys;
  sessions_ok = All-drop_where IsSession p d.sessions v.sessions_ok;
  session_refs =
      All-drop_where (λ s. contains s.operator_id (ids d.operators) ≡ true) p d.sessions
        v.session_refs;
  token_keys = v.token_keys;
  audit_refs = v.audit_refs;
}

-- The other tables are no concern of the setup tokens.
with_tokens :
    (ts : List SetupToken) (d : Db)
    → Distinct (map (λ t. t.token_hash) ts)
    → IsValid d
    → IsValid (record d { setup_tokens = ts })
with_tokens ts d h v = record {
  ids_distinct = v.ids_distinct;
  emails_distinct = v.emails_distinct;
  single_owner = v.single_owner;
  accounts = v.accounts;
  session_keys = v.session_keys;
  sessions_ok = v.sessions_ok;
  session_refs = v.session_refs;
  token_keys = h;
  audit_refs = v.audit_refs;
}

pub delete_setup_tokens-IsValid :
    (p : SetupToken → Bool) (d : Db) → IsValid d → Leaves IsValid (delete_setup_tokens p d)
unfolding delete_setup_tokens
delete_setup_tokens-IsValid p d v =
    with_tokens (drop_where p d.setup_tokens) d
      (Distinct-drop_where (λ t. t.token_hash) p d.setup_tokens v.token_keys) v

pub insert_setup_token-IsValid :
    (t : SetupToken) (d : Db) → IsValid d → Leaves IsValid (insert_setup_token t d)
unfolding insert_setup_token
insert_setup_token-IsValid t d v = Leaves-if IsValid (has_owner d.operators) _ _ v (λ _.
    Leaves-if IsValid (contains t.token_hash (map (λ u. u.token_hash) d.setup_tokens)) _ _ tt
      (λ h. with_tokens (t ∷ d.setup_tokens) d (h, v.token_keys) v))

-- A new entry of the trail refers to an account that is there, or to none.
with_entry :
    (a : AuditEntry) (d : Db)
    → Refers (ids d.operators) a
    → IsValid d
    → IsValid (record d { audit_entries = a ∷ d.audit_entries })
with_entry a d h v = record {
  ids_distinct = v.ids_distinct;
  emails_distinct = v.emails_distinct;
  single_owner = v.single_owner;
  accounts = v.accounts;
  session_keys = v.session_keys;
  sessions_ok = v.sessions_ok;
  session_refs = v.session_refs;
  token_keys = v.token_keys;
  audit_refs = (h, v.audit_refs);
}

pub insert_unattributed-IsValid :
    (e : Engine) (a : AuditEntry) (d : Db) → IsValid d → Leaves IsValid (insert_unattributed e a d)
unfolding insert_unattributed
insert_unattributed-IsValid e a d v = with_entry _ d (λ id h. cc) v

find-contains :
    (k : ℕ) (ops : List Operator) (o : Operator)
    → find (λ o. o.id == k) ops ≡ some o
    → contains o.id (ids ops) ≡ true
find-contains k [] o h = cc
find-contains k (x ∷ ops) o h = ground (arith, find-contains k ops o)

pub insert_attributed-IsValid :
    (e : Engine) (id : ℕ) (a : AuditEntry) (d : Db)
    → IsValid d
    → Leaves IsValid (insert_attributed e id a d)
unfolding insert_attributed
insert_attributed-IsValid e id a d v = elim (Option-cases (find (λ o. o.id == id) d.operators)) [
  | inl h ↦ rw (h, insert_attributed) v
  | inr (o, h) ↦
      rw (h, insert_attributed)
        (with_entry _ d (λ i q. ground (arith, find-contains id d.operators o h)) v)
]
