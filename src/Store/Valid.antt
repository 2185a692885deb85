-- ===== src/Store/Valid.antt =====
-- What the schema of internal/store/migrate.go and the code around it ask of a database; the children
-- are about the statements that write.
mod OperatorRows
mod OtherRows
pub mod Respected
use dokkup.Common.{
  ℕ, ◌≤◌, ◌≡◌, true, some, List, map, arith, All, count_where, contains, Distinct, number_key,
  text_key,
}
use dokkup.Store.Respects.{IsAccount, IsSession}
use dokkup.Store.Schema.{AuditEntry, Db, empty, ids, emails}

abbrev pub Refers : List ℕ → AuditEntry → Type 0
Refers known a = (id : ℕ) → a.operator_id ≡ some id → contains id known ≡ true

-- Keys are unique, there is at most one owner, and no row points at an operator that is gone.
pub record IsValid (d : Db) : Type 0 where
  pub ids_distinct : Distinct (ids d.operators)
  pub emails_distinct : Distinct (emails d.operators)
  pub single_owner : count_where (λ o. o.is_owner) d.operators ≤ 1
  pub accounts : All IsAccount d.operators
  pub session_keys : Distinct (map (λ s. s.token_hash) d.sessions)
  pub sessions_ok : All IsSession d.sessions
  pub session_refs : All (λ s. contains s.operator_id (ids d.operators) ≡ true) d.sessions
  pub token_keys : Distinct (map (λ t. t.token_hash) d.setup_tokens)
  pub audit_refs : All (Refers (ids d.operators)) d.audit_entries

pub empty-IsValid : IsValid empty
empty-IsValid = record {
  ids_distinct = tt;
  emails_distinct = tt;
  single_owner = omega arith;
  accounts = tt;
  session_keys = tt;
  sessions_ok = tt;
  session_refs = tt;
  token_keys = tt;
  audit_refs = tt;
}
