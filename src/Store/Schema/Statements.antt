-- ===== src/Store/Schema/Statements.antt =====
-- The SQL statements of internal/store, as functions on the tables.
use dokkup.Common.{
  ℕ, Bool, not, ◌&&◌, ◌||◌, Option, none, some, List, [], ◌∷◌, map, leb, ltb, if◌then◌else◌, ◌==◌,
  Text, keep, drop_where, count_where, find, update_where, take, contains, sort_by, number_key,
  text_key,
}
use dokkup.Store.Schema.Rows.{
  Operator, Session, SetupToken, AuditEntry, Db, email_column, owner_column, unique_operator,
  unique_key, foreign_key, no_rows, Result, ok, err, Engine, ids, emails, audit_ids, has_owner,
}

-- INSERT INTO operators, under the unique indexes operators_email and operators_single_owner
unfoldable pub insert_operator : Engine → Operator → Db → Result (ℕ × Db)
insert_operator e o d =
    let id = e.new_id (ids d.operators) in
    let email_taken = contains o.email (emails d.operators) in
    let owner_taken = o.is_owner && has_owner d.operators in
    if email_taken
    then err (unique_operator (if owner_taken && e.names_owner then owner_column else email_column))
    else if owner_taken
    then err (unique_operator owner_column)
    else ok (id, record d { operators = record o { id = id } ∷ d.operators })

-- UPDATE operators SET password_hash = ?, updated_at = ? WHERE id = ?
unfoldable pub update_password : Text → ℕ → ℕ → Db → Result (ℕ × Db)
update_password hash at id d = ok (
  count_where (λ o. o.id == id) d.operators,
  record d {
    operators =
        update_where (λ o. o.id == id) (λ o. record o { password_hash = hash; updated_at = at })
          d.operators;
  },
)

-- UPDATE operators SET name = ?, updated_at = ? WHERE id = ?
unfoldable pub update_name : Text → ℕ → ℕ → Db → Result (ℕ × Db)
update_name name at id d = ok (
  count_where (λ o. o.id == id) d.operators,
  record d {
    operators =
        update_where (λ o. o.id == id) (λ o. record o { name = name; updated_at = at }) d.operators;
  },
)

-- ON DELETE SET NULL
abbrev pub forget : List ℕ → AuditEntry → AuditEntry
forget doomed a = record a {
  operator_id = elim a.operator_id [
    | none ↦ none
    | some id ↦ if contains id doomed then none else some id
  ];
}

abbrev pub removable : ℕ → Operator → Bool
removable id o = o.id == id && not o.is_owner

-- DELETE FROM operators WHERE id = ? AND NOT is_owner, with what the foreign keys of `sessions`
-- (ON DELETE CASCADE) and `audit_entries` (ON DELETE SET NULL) add
unfoldable pub delete_operator : ℕ → Db → Result (ℕ × Db)
delete_operator id d =
    let doomed = ids (keep (removable id) d.operators) in
    ok (
      count_where (removable id) d.operators,
      record d {
        operators = drop_where (removable id) d.operators;
        sessions = drop_where (λ s. contains s.operator_id doomed) d.sessions;
        audit_entries = map (forget doomed) d.audit_entries;
      },
    )

-- INSERT INTO sessions, under its primary key and its foreign key
unfoldable pub insert_session : Session → Db → Result (ℕ × Db)
insert_session s d =
    if contains s.token_hash (map (λ t. t.token_hash) d.sessions)
    then err unique_key
    else if contains s.operator_id (ids d.operators)
    then ok (1, record d { sessions = s ∷ d.sessions })
    else err foreign_key

-- DELETE FROM sessions WHERE ...
unfoldable pub delete_sessions : (Session → Bool) → Db → Result (ℕ × Db)
delete_sessions p d = ok (count_where p d.sessions, record d { sessions = drop_where p d.sessions })

-- DELETE FROM setup_tokens WHERE ...
unfoldable pub delete_setup_tokens : (SetupToken → Bool) → Db → Result (ℕ × Db)
delete_setup_tokens p d =
    ok (count_where p d.setup_tokens, record d { setup_tokens = drop_where p d.setup_tokens })

-- INSERT INTO setup_tokens ... SELECT ... WHERE NOT EXISTS (SELECT 1 FROM operators WHERE is_owner)
unfoldable pub insert_setup_token : SetupToken → Db → Result (ℕ × Db)
insert_setup_token t d =
    if has_owner d.operators
    then ok (0, d)
    else if contains t.token_hash (map (λ u. u.token_hash) d.setup_tokens)
    then err unique_key
    else ok (1, record d { setup_tokens = t ∷ d.setup_tokens })

-- INSERT INTO audit_entries ... SELECT id, email, ?, ?, ?, ? FROM operators WHERE id = ?
unfoldable pub insert_attributed : Engine → ℕ → AuditEntry → Db → Result (ℕ × Db)
insert_attributed e id a d = elim (find (λ o. o.id == id) d.operators) [
  | none ↦ ok (0, d)
  | some o ↦ ok (
    1,
    record d {
      audit_entries =
          record a {
            id = e.new_id (audit_ids d.audit_entries);
            operator_id = some o.id;
            operator_email = o.email;
          }
          ∷ d.audit_entries;
    },
  )
]

-- INSERT INTO audit_entries ... VALUES (NULL, '', ?, ?, ?, ?)
unfoldable pub insert_unattributed : Engine → AuditEntry → Db → Result (ℕ × Db)
insert_unattributed e a d = ok (
  1,
  record d {
    audit_entries =
        record a {
          id = e.new_id (audit_ids d.audit_entries);
          operator_id = none;
          operator_email = [];
        }
        ∷ d.audit_entries;
  },
)

abbrev pub one_row : {A : Type 0} → Option A → Result A
one_row none = err no_rows
one_row (some a) = ok a

-- SELECT ... FROM operators WHERE ...; every such clause selects one row at most
unfoldable pub select_operator : (Operator → Bool) → Db → Result Operator
select_operator p d = one_row (find p d.operators)

-- owners first, then by id: ORDER BY is_owner DESC, id
abbrev pub listed_before : Operator → Operator → Bool
listed_before a b =
    (a.is_owner && not b.is_owner) || (not (b.is_owner && not a.is_owner) && leb a.id b.id)

unfoldable pub select_operators : Db → Result (List Operator)
select_operators d = ok (sort_by listed_before d.operators)

-- token_hash = ? AND expires_at > ?
abbrev pub live : Text → ℕ → Session → Bool
live hash now s = s.token_hash == hash && ltb now s.expires_at

unfoldable pub select_session : Text → ℕ → Db → Result Session
select_session hash now d = one_row (find (live hash now) d.sessions)

-- the join of `sessions` and `operators`
unfoldable pub select_session_operator : Text → ℕ → Db → Result Operator
select_session_operator hash now d = elim (find (live hash now) d.sessions) [
  | none ↦ err no_rows
  | some s ↦ one_row (find (λ o. o.id == s.operator_id) d.operators)
]

-- ORDER BY recorded_at DESC, id DESC
abbrev pub newer_than : AuditEntry → AuditEntry → Bool
newer_than a b =
    ltb b.recorded_at a.recorded_at || (a.recorded_at == b.recorded_at && leb b.id a.id)

-- LIMIT ?, where `none` stands for -1, which is no limit
abbrev pub limit_to : {A : Type 0} → Option ℕ → List A → List A
limit_to none xs = xs
limit_to (some n) xs = take n xs

unfoldable pub select_audit_entries : (AuditEntry → Bool) → Option ℕ → Db → Result (List AuditEntry)
select_audit_entries p limit d = ok (limit_to limit (sort_by newer_than (keep p d.audit_entries)))
