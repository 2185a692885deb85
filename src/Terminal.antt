-- ===== src/Terminal.antt =====
-- What a command asks_password at the terminal: yesOrNo and readLine of internal/cli/install.go, and the
-- challenges of internal/authn/authn.go. The environment, the account database and the run of sudo are
-- the parameter `Invocation`; names of hosts are ASCII.
pub mod Answers
use dokkup.Common.{
  ℕ, ◌+◌, ◌-◌, ◌*◌, ◌^◌, Bool, true, false, not, ◌&&◌, ◌||◌, Option, none, some, [], ◌∷◌, ltb,
  if◌then◌else◌, ◌==◌, Text, number_key, text_key,
}
use dokkup.Common.Strings.{codes, is_digit, trim_space, to_lower}
use dokkup.Release.{before}

-- The standard input: the bytes that are not read yet, and whether it ends after them or fails.
pub record Input : Type 0 where
  pub bytes : Text
  pub ends : Bool

abbrev pub split_line : Text → Option (Text × Text)
split_line [] = none
split_line (c ∷ s) =
    let rest = split_line s in
    if c == 10
    then some ([], s)
    else elim rest [ none ↦ none | some (line, left) ↦ some (c ∷ line, left) ]

-- readLine, with what is left of the input; none where reading fails
unfoldable pub read_line : Input → Option (Text × Input)
read_line i = elim (split_line i.bytes) [
  | some (line, left) ↦ some (line, record i { bytes = left })
  | none ↦ if i.ends then some (i.bytes, record i { bytes = [] }) else none
]

-- What yesOrNo returns: its answers, errNoAnswer, and its other errors.
pub data Answer : Type 0 where
  yes no nothing_typed not_an_answer : Answer

abbrev pub answer_of : Text → Answer
answer_of word =
    if word == codes "y" || word == codes "yes"
    then yes
    else if word == codes "n" || word == codes "no"
    then no
    else if word == []
    then nothing_typed
    else not_an_answer

-- yesOrNo
unfoldable pub yes_or_no : Input → Answer × Input
yes_or_no i = elim (read_line i) [
  | none ↦ (not_an_answer, i)
  | some (line, left) ↦ (answer_of (to_lower (trim_space line)), left)
]

pub data SudoRun : Type 0 where
  accepted rejected not_started : SudoRun

pub record Invocation : Type 0 where
  pub sudo_uid : Text
  pub sudo_gid : Text
  pub sudo_user : Text
  pub user_name : ℕ → Option Text
  pub has_sudo : Bool
  pub has_terminal : Bool
  -- what `sudo -k -v` run as an account says
  pub sudo : ℕ → SudoRun
  pub hostname : Option Text

abbrev pub digits_value : ℕ → Text → Option ℕ
digits_value sum [] = some sum
digits_value sum (c ∷ s) =
    let rest = digits_value (sum * 10 + (c - 48)) s in if is_digit c then rest else none

-- strconv.ParseUint(s, 10, 32)
unfoldable pub parse_uint32 : Text → Option ℕ
parse_uint32 [] = none
parse_uint32 (c ∷ s) = elim (digits_value 0 (c ∷ s)) [
  | none ↦ none
  | some n ↦ if ltb n (2 ^ 32) then some n else none
]

-- What SudoPassword returns: nil, a function that refuses, or one that asks_password for the password of an
-- account.
pub data Challenge : Type 0 where
  no_challenge refuses : Challenge
  asks_password : ℕ → Challenge

abbrev pub names_user : Invocation → ℕ → Bool
names_user e uid = elim (e.user_name uid) [ none ↦ false | some name ↦ name == e.sudo_user ]

-- SudoPassword
unfoldable pub sudo_password : Invocation → Challenge
sudo_password e = elim (parse_uint32 e.sudo_uid) [
  | none ↦ no_challenge
  | some uid ↦ if uid == 0 then no_challenge else elim (parse_uint32 e.sudo_gid) [
    | none ↦ no_challenge
    | some gid ↦
        if not (names_user e uid) || not e.has_sudo
        then no_challenge
        else if e.has_terminal
        then asks_password uid
        else refuses
  ]
]

-- firstLabel
abbrev pub first_label : Text → Text
first_label name = before b'.' name

-- strings.EqualFold, on ASCII
abbrev pub equal_fold : Text → Text → Bool
equal_fold a b = to_lower a == to_lower b

-- the answer that Confirmer.confirmHostname takes for the name
abbrev pub names_host : Text → Text → Bool
names_host want got = not (got == []) && (equal_fold got want || equal_fold got (first_label want))

-- Confirmer.confirmHostname, as SudoPassword and os.Hostname set it up
unfoldable pub confirm_hostname : Invocation → Input → Bool
confirm_hostname e i = elim e.hostname [
  | none ↦ false
  | some want ↦ elim (read_line i) [
    | none ↦ false
    | some (line, left) ↦ names_host want (trim_space line)
  ]
]

-- Confirmer.Confirm: whether it returns nil
unfoldable pub confirm : Invocation → Input → Bool
confirm e i = elim (sudo_password e) [
  | no_challenge ↦ confirm_hostname e i
  | refuses ↦ false
  | asks_password uid ↦ elim (e.sudo uid) [
    | accepted ↦ true
    | rejected ↦ false
    | not_started ↦ confirm_hostname e i
  ]
]
