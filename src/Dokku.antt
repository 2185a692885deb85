-- ===== src/Dokku.antt =====
-- internal/dokku/dokku.go and exec.go: which process is started for a command, and what is kept of
-- what it writes. Running it is not modelled.
pub mod Arguments
pub mod Tail
pub mod Stream
use dokkup.Common.{
  ℕ, zero, suc, ◌-◌, Bool, false, not, ◌&&◌, ◌||◌, Option, none, some, List, [], ◌∷◌, ◌++◌, ltb,
  leb, if◌then◌else◌, length, exists, ◌==◌, Text, number_key, text_key, map, keep,
}
use dokkup.Common.Strings.{codes, is_digit, trim_space, has_prefix, trim_prefix}
use dokkup.Release.{split_on}
use dokkup.Secret.{print_number}

pub data ℤ : Type 0 where
  pos negsuc : ℕ → ℤ

pub record LogOptions : Type 0 where
  pub process_type : Text
  pub tail : ℤ
  pub follow : Bool

pub record ExecClient : Type 0 where
  pub binary : Text
  pub run_as : Text
  pub sudo : Text

abbrev pub or_usual : Text → Text → Text
or_usual usual s = if s == [] then usual else s

abbrev pub command : ExecClient → List Text → Text × List Text
command c args =
    let binary = or_usual (codes "/usr/bin/dokku") c.binary in
    if c.run_as == [] then (binary, args) else (
      or_usual (codes "/usr/bin/sudo") c.sudo,
      codes "-n" ∷ codes "-u" ∷ c.run_as ∷ binary ∷ args,
    )

abbrev pub is_lower : ℕ → Bool
is_lower c = leb b'a' c && leb c b'z'

abbrev pub is_upper : ℕ → Bool
is_upper c = leb b'A' c && leb c b'Z'

-- the first byte, and the others, of a text that matches an expression
abbrev pub matches : (ℕ → Bool) → (ℕ → Bool) → Text → Bool
matches first other [] = false
matches first other (c ∷ s) = first c && not (exists (λ d. not (other d)) s)

-- appName
abbrev pub app_name : Text → Bool
app_name = matches (λ c. is_lower c || is_digit c) (λ c. is_lower c || is_digit c || c == b'-')

unfoldable pub validate_app_name : Text → Bool
validate_app_name name =
    if name == [] then false else if ltb 63 (length name) then false else app_name name

-- processType
abbrev pub process_type_name : Text → Bool
process_type_name =
    matches (λ c. is_lower c || is_upper c || is_digit c)
      (λ c. is_lower c || is_upper c || is_digit c || c == b'_' || c == b'-')

unfoldable pub validate_process_type : Text → Bool
validate_process_type name = process_type_name name

-- the flag for the past lines, with strconv.Itoa of a positive number
abbrev pub num_flag : ℤ → List Text
num_flag (negsuc n) = []
num_flag (pos n) = if ltb 0 n then codes "--num" ∷ print_number n ∷ [] else []

unfoldable pub log_args : Text → LogOptions → List Text
log_args app opts =
    let typed = if opts.process_type == [] then [] else codes "--ps" ∷ opts.process_type ∷ [] in
    let counted = num_flag opts.tail ++ (typed ++ (app ∷ [])) in
    codes "logs" ∷ (if opts.follow then codes "--tail" ∷ counted else counted)

-- Logs, up to the start of the process: which one, unless a check refuses
unfoldable pub logs : ExecClient → Text → LogOptions → Option (Text × List Text)
logs c app opts =
    if not (validate_app_name app)
    then none
    else if not (opts.process_type == []) && not (validate_process_type opts.process_type)
    then none
    else some (command c (log_args app opts))

-- AppReport, ProcessTypes and Domains, in the same way, with the topic of each
unfoldable pub report : ExecClient → Text → Text → Option (Text × List Text)
report c topic app =
    if not (validate_app_name app)
    then none
    else some (command c (topic ∷ app ∷ codes "--format" ∷ codes "json" ∷ []))

abbrev pub is_dokku_narration : Text → Bool
is_dokku_narration line =
    exists (has_prefix line)
      (codes "=====>" ∷ codes "----->" ∷ codes "!" ∷ codes "NOTE:" ∷ codes "WARN:" ∷ [])

-- Version, of what the command printed
abbrev pub version : Text → Text
version out = trim_prefix (trim_space out) (codes "dokku version ")

abbrev pub drop : ℕ → Text → Text
drop zero s = s
drop (suc n) [] = []
drop (suc n) (c ∷ s) = drop n s

-- Apps, of what the command printed
abbrev pub apps : Text → List Text
apps out =
    keep (λ name. not (name == [] || is_dokku_narration name)) (map trim_space (split_on 10 out))

-- cappedBuffer.Write
unfoldable pub write : ℕ → Text → Text → Text
write limit buf p =
    let all = buf ++ p in if ltb limit (length all) then drop (length all - limit) all else all
