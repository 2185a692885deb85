-- ===== src/Store/Valid/Respected.antt =====
-- All statements together keep a valid database valid.
use dokkup.Store.Respects.{Respects}
use dokkup.Store.Valid.{IsValid}
use dokkup.Store.Valid.OperatorRows.{
  insert_operator-IsValid, update_password-IsValid, update_name-IsValid, delete_operator-IsValid,
}
use dokkup.Store.Valid.OtherRows.{
  insert_session-IsValid, delete_sessions-IsValid, delete_setup_tokens-IsValid,
  insert_setup_token-IsValid, insert_unattributed-IsValid, insert_attributed-IsValid,
}

pub IsValid-respected : Respects IsValid
IsValid-respected = record {
  on_insert_operator = insert_operator-IsValid;
  on_update_password = update_password-IsValid;
  on_update_name = update_name-IsValid;
  on_delete_operator = delete_operator-IsValid;
  on_insert_session = insert_session-IsValid;
  on_delete_sessions = delete_sessions-IsValid;
  on_delete_setup_tokens = delete_setup_tokens-IsValid;
  on_insert_setup_token = insert_setup_token-IsValid;
  on_insert_attributed = insert_attributed-IsValid;
  on_insert_unattributed = insert_unattributed-IsValid;
}
