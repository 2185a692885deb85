-- ===== src/Store/Audit.antt =====
-- internal/store/audit.go: the audit trail, which is only ever added to.
pub mod Trail
use dokkup.Common.{
  ℕ, zero, suc, true, not, Option, none, some, List, [], ◌==◌, Text, number_key, text_key,
}
use dokkup.Store.Operators.{normalise_email}
use dokkup.Store.Schema.{
  AuditEntry, not_found, no_action, names_operator, insert_attributed, insert_unattributed,
  select_audit_entries,
}
use dokkup.Store.Sql.{M, pure, refuse_if, exec, query, reported, now, ◌>>=◌, ◌>>◌, written}

-- The struct Audited; an `operator_id` of 0 names nobody.
pub record Audited : Type 0 where
  pub operator_id : ℕ
  pub action : Text
  pub target : Text
  pub config_key : Text

-- the row of an entry, but for the columns that the statement fills
abbrev pub entry_row : Audited → ℕ → AuditEntry
entry_row a at = record {
  id = 0;
  operator_id = none;
  operator_email = [];
  action = a.action;
  target = a.target;
  config_key = a.config_key;
  recorded_at = at;
}

-- Record
unfoldable pub record_entry : Audited → M (Unit {0})
record_entry entry = do
  refuse_if (entry.action == []) no_action
  at ← now
  n ← exec (λ e. insert_attributed e entry.operator_id (entry_row entry at))
  written ← reported n
  refuse_if (written == 0) not_found

unfoldable pub record_unauthenticated : Audited → M (Unit {0})
record_unauthenticated entry = do
  refuse_if (entry.action == []) no_action
  refuse_if (not (entry.operator_id == 0)) names_operator
  at ← now
  n ← exec (λ e. insert_unattributed e (entry_row entry at))
  pure tt

-- A limit of 0 or less asks for every entry; `none` is such a limit.
abbrev pub effective_limit : Option ℕ → Option ℕ
effective_limit none = none
effective_limit (some zero) = none
effective_limit (some (suc n)) = some (suc n)

unfoldable pub audit_entries : Option ℕ → M (List AuditEntry)
audit_entries limit = query (select_audit_entries (λ _. true) (effective_limit limit))

unfoldable pub operator_audit_entries : Text → Option ℕ → M (List AuditEntry)
unfolding normalise_email
operator_audit_entries email limit =
    query (
      select_audit_entries (λ a. a.operator_email == normalise_email email) (effective_limit limit))
