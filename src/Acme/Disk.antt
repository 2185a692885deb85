-- ===== src/Acme/Disk.antt =====
-- internal/acme/acme.go: the three files of a Manager, and writeFile.
use dokkup.Common.{ℕ, Bool, true, false, Option, none, some, take, Text}

-- AccountKeyFile, CertFile and KeyFile
pub data File : Type 0 where
  account_key certificate private_key : File

-- how os.WriteFile ends: with the whole text, with a part of it, or before the file was opened
pub data Written : Type 0 where
  whole unopened : Written
  torn : ℕ → Written

-- what is at a path, and at the path of the temporary file beside it
pub record Slot : Type 0 where
  pub content : Option Text
  pub staging : Option Text

pub record Disk : Type 0 where
  pub account_slot : Slot
  pub certificate_slot : Slot
  pub key_slot : Slot

abbrev pub slot : File → Disk → Slot
slot account_key d = d.account_slot
slot certificate d = d.certificate_slot
slot private_key d = d.key_slot

abbrev pub put_slot : File → Slot → Disk → Disk
put_slot account_key s d = record d { account_slot = s }
put_slot certificate s d = record d { certificate_slot = s }
put_slot private_key s d = record d { key_slot = s }

-- os.Rename of the temporary file, and os.Remove of it where that fails
abbrev pub renamed : (rename_fails remove_fails : Bool) → Text → Slot → Bool × Slot
renamed true true text s = (false, record s { staging = some text })
renamed true false text s = (false, record s { staging = none })
renamed false b text s = (true, record { content = some text; staging = none })

abbrev pub replace_slot : Written → (rename_fails remove_fails : Bool) → Text → Slot → Bool × Slot
replace_slot unopened r m text s = (false, s)
replace_slot (torn n) r m text s = (false, record s { staging = some (take n text) })
replace_slot whole r m text s = renamed r m text s
