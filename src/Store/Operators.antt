-- ===== src/Store/Operators.antt =====
-- internal/store/operator.go: the accounts.
pub mod Laws
use dokkup.Common.{
  ℕ, Bool, true, false, List, [], ltb, if◌then◌else◌, ◌==◌, Text, number_key, text_key,
}
use dokkup.Common.Strings.{trim_space, to_lower}
use dokkup.Store.Schema.{
  Operator, owner_column, Error, unique_operator, not_found, already_exists, owner_exists,
  owner_protected, no_email, no_password_hash, insert_operator, update_password, update_name,
  delete_operator, delete_sessions, select_operator, select_operators,
}
use dokkup.Store.Sql.{
  M, pure, raise, refuse_if, map_error, exec, query, reported, now, transaction, not_found_error,
  ◌>>=◌, ◌>>◌,
}

-- func normaliseEmail
unfoldable pub normalise_email : Text → Text
normalise_email email = to_lower (trim_space email)

-- what a refused insert means to whoever creates an operator, or the owner
abbrev pub creation_error : Bool → Error → Error
creation_error true (unique_operator owner_column) = owner_exists
creation_error owner (unique_operator c) = already_exists
creation_error owner x = x

-- the row of an account that begins at `stamp`, before it has an id
abbrev pub new_operator : Text → Text → Text → Bool → ℕ → Operator
new_operator email name hash owner stamp = record {
  id = 0;
  email = email;
  name = name;
  password_hash = hash;
  is_owner = owner;
  created_at = stamp;
  updated_at = stamp;
}

unfoldable pub create_operator : Text → Text → Text → Bool → M Operator
unfolding normalise_email
create_operator email name hash owner = do
  refuse_if (normalise_email email == []) no_email
  refuse_if (hash == []) no_password_hash
  stamp ← now
  let row = new_operator (normalise_email email) name hash owner stamp
  n ← map_error (creation_error owner) (exec (λ e. insert_operator e row))
  id ← reported n
  pure (record row { id = id })

-- CreateOwner
unfoldable pub create_owner : Text → Text → Text → M Operator
unfolding create_operator
create_owner email name hash = create_operator email name hash true

-- CreateOperator
unfoldable pub create_invited : Text → Text → Text → M Operator
unfolding create_operator
create_invited email name hash = create_operator email name hash false

-- Operator
unfoldable pub operator_by_id : ℕ → M Operator
operator_by_id id = map_error not_found_error (query (select_operator (λ o. o.id == id)))

unfoldable pub operator_by_email : Text → M Operator
unfolding normalise_email
operator_by_email email =
    map_error not_found_error (query (select_operator (λ o. o.email == normalise_email email)))

-- Owner
unfoldable pub the_owner : M Operator
the_owner = map_error not_found_error (query (select_operator (λ o. o.is_owner)))

-- Operators
unfoldable pub all_operators : M (List Operator)
all_operators = query select_operators

unfoldable pub set_password : ℕ → Text → M ℕ
set_password id hash = do
  refuse_if (hash == []) no_password_hash
  transaction do
    at ← now
    n ← exec (λ _. update_password hash at id)
    changed ← reported n
    refuse_if (changed == 0) not_found
    m ← exec (λ _. delete_sessions (λ s. s.operator_id == id))
    reported m

unfoldable pub rename : ℕ → Text → M (Unit {0})
rename id name = do
  at ← now
  n ← exec (λ _. update_name name at id)
  changed ← reported n
  refuse_if (changed == 0) not_found

-- why the statement of `remove_operator` removed nothing
unfoldable pub removal_refusal : ℕ → M (Unit {0})
removal_refusal id = do
  map_error not_found_error (query (select_operator (λ o. o.id == id)))
  raise owner_protected

unfoldable pub remove_operator : ℕ → M (Unit {0})
unfolding removal_refusal
remove_operator id = do
  n ← exec (λ _. delete_operator id)
  removed ← reported n
  if ltb 0 removed then pure tt else removal_refusal id
