-- ===== src/Store/Schema/Rows.antt =====
-- The rows, the errors and the engine of internal/store. Times in the tables are Unix milliseconds.
use dokkup.Common.{
  ℕ, ◌<◌, ◌≡◌, refl, ◌⊎◌, inl, inr, Bool, false, Option, List, [], map, exists, contains, Text,
  number_key, text_key,
}

pub record Operator : Type 0 where
  pub id : ℕ
  pub email : Text
  pub name : Text
  pub password_hash : Text
  pub is_owner : Bool
  pub created_at : ℕ
  pub updated_at : ℕ

pub record Session : Type 0 where
  pub token_hash : Text
  pub operator_id : ℕ
  pub created_at : ℕ
  pub expires_at : ℕ

pub record SetupToken : Type 0 where
  pub token_hash : Text
  pub created_at : ℕ
  pub expires_at : ℕ

-- `operator_id` is NULL for an entry that nobody signed in stands behind.
pub record AuditEntry : Type 0 where
  pub id : ℕ
  pub operator_id : Option ℕ
  pub operator_email : Text
  pub action : Text
  pub target : Text
  pub config_key : Text
  pub recorded_at : ℕ

pub record Db : Type 0 where
  pub operators : List Operator
  pub sessions : List Session
  pub setup_tokens : List SetupToken
  pub audit_entries : List AuditEntry

abbrev pub empty : Db
empty = record { operators = []; sessions = []; setup_tokens = []; audit_entries = [] }

-- the two unique indexes of `operators`, by the column that SQLite names in its message
pub data Column : Type 0 where
  email_column owner_column : Column

-- The errors that callers tell apart. `failed` is any other error of the database or its driver;
-- the last seven are the package's own refusals of an argument.
pub data Error : Type 0 where
  unique_operator : Column → Error
  unique_key foreign_key no_rows failed : Error
  not_found already_exists owner_exists owner_protected : Error
  no_token_hash no_email no_password_hash expired no_action names_operator : Error

pub data Result {ℓ} (A : Type ℓ) : Type ℓ where
  ok : A → Result A
  err : Error → Result A

-- SQLite, its Go driver and the clock, as the operations meet them: `fault n` says whether the n-th
-- statement fails for a reason of its own (I/O, a lock, a cancelled context), `driver_fault n`
-- whether the driver then fails to say how many rows it touched, `clock n` what the n-th reading of
-- the clock gives, in nanoseconds. `new_id` is the key that an INTEGER PRIMARY KEY column gets, from
-- those in use, and `names_owner` which of two violated unique indexes is named.
pub record Engine : Type 0 where
  pub fault : ℕ → Bool
  pub driver_fault : ℕ → Bool
  pub clock : ℕ → ℕ
  pub new_id : List ℕ → ℕ
  pub names_owner : Bool

-- what the package relies on: a new key is not in use, and is not 0
pub record IsEngine (e : Engine) : Type 0 where
  pub id_fresh : (ids : List ℕ) → contains (e.new_id ids) ids ≡ false
  pub id_pos : (ids : List ℕ) → 0 < e.new_id ids

-- the driver always knows how many rows a statement has touched
abbrev pub Reports : Engine → Type 0
Reports e = (n : ℕ) → e.driver_fault n ≡ false

-- an engine on which nothing fails
pub record IsHealthy (e : Engine) : Type 0 where
  pub no_fault : (n : ℕ) → e.fault n ≡ false
  pub reports : Reports e

abbrev pub ids : List Operator → List ℕ
ids = map (λ o. o.id)

abbrev pub emails : List Operator → List Text
emails = map (λ o. o.email)

abbrev pub audit_ids : List AuditEntry → List ℕ
audit_ids = map (λ a. a.id)

abbrev pub has_owner : List Operator → Bool
has_owner = exists (λ o. o.is_owner)

pub Result-cases :
    {A : Type 0} (r : Result A) → ((a : A) × (r ≡ ok a)) ⊎ ((x : Error) × (r ≡ err x))
Result-cases (ok a) = inl (a, refl)
Result-cases (err x) = inr (x, refl)
