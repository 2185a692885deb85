-- ===== src/Dokku/Arguments.antt =====
-- How the command line of internal/dokku/exec.go for the logs is read at the other end.
use dokkup.Common.{
  ℕ, zero, suc, ◌+◌, ◌/◌, ◌%◌, ◌≡◌, refl, Bool, true, false, Option, none, some, List, [], ◌∷◌,
  arith, ltb, if◌then◌else◌, same_number_iff, ◌==◌, Text, number_key, text_key, sym, inl, inr, ◌++◌,
  Bool-cases, ◌||◌,
}
use dokkup.Common.Strings.{codes}
use dokkup.Dokku.{
  ℤ, pos, negsuc, LogOptions, validate_app_name, validate_process_type, ExecClient, command,
  log_args, logs, num_flag,
}
use dokkup.Secret.{digits, print_number}
use dokkup.Server.SignIn.{started}

-- what is asked of the command
pub record Asked : Type 0 where
  pub followed : Bool
  pub num : Option Text
  pub ps : Option Text
  pub app : Text

-- a word that a command takes for a flag
abbrev pub is_flag : Text → Bool
is_flag [] = false
is_flag (c ∷ s) = c == b'-'

abbrev pub asking : Text → Asked
asking app = record { followed = false; num = none; ps = none; app = app }

abbrev noting : (Asked → Asked) → Option Asked → Option Asked
noting f none = none
noting f (some a) = some (f a)

-- Flags come before the one word that is the app; the value of a flag is no flag.
abbrev pub read_words : List Text → Option Asked
read_words [] = none
read_words (w ∷ []) = if is_flag w then none else some (asking w)
read_words (w ∷ v ∷ words) =
    let rest = read_words (v ∷ words) in
    let after = read_words words in
    if w == codes "--tail"
    then noting (λ a. record a { followed = true }) rest
    else if is_flag v
    then none
    else if w == codes "--num"
    then noting (λ a. record a { num = some v }) after
    else if w == codes "--ps"
    then noting (λ a. record a { ps = some v }) after
    else none

abbrev pub read_logs : List Text → Option Asked
read_logs [] = none
read_logs (w ∷ words) = if w == codes "logs" then read_words words else none

abbrev pub num_of : ℤ → Option Text
num_of (negsuc n) = none
num_of (pos n) = if ltb 0 n then some (print_number n) else none

-- what the options say
abbrev pub asked : Text → LogOptions → Asked
asked app opts = record {
  followed = opts.follow;
  num = num_of opts.tail;
  ps = if opts.process_type == [] then none else some opts.process_type;
  app = app;
}

digits-plain : (fuel n : ℕ) (s : Text) → is_flag s ≡ false → is_flag (digits fuel n s) ≡ false
digits-plain zero n s h = h
digits-plain (suc fuel) n s h = ground (
  arith,
  digits-plain fuel (n / 10) ((b'0' + n % 10) ∷ s),
  same_number_iff (b'0' + n) b'-',
  same_number_iff (b'0' + n % 10) b'-',
)

app_name-plain : (name : Text) → validate_app_name name ≡ true → is_flag name ≡ false
unfolding validate_app_name
app_name-plain [] h = refl
app_name-plain (c ∷ s) h = ground (arith, same_number_iff c b'-')

process_type-plain : (name : Text) → validate_process_type name ≡ true → is_flag name ≡ false
unfolding validate_process_type
process_type-plain [] h = refl
process_type-plain (c ∷ s) h = ground (arith, same_number_iff c b'-')

read_words-app : (name : Text) → is_flag name ≡ false → read_words (name ∷ []) ≡ some (asking name)
read_words-app name h = rw h refl

read_words-ps :
    (value : Text) (words : List Text) (a : Asked)
    → is_flag value ≡ false
    → read_words words ≡ some a
    → read_words (codes "--ps" ∷ value ∷ words) ≡ some (record a { ps = some value })
read_words-ps value words a h g = rw (h, g) refl

read_words-num_flag :
    (n : ℤ) (words : List Text) (a : Asked)
    → a.num ≡ none
    → read_words words ≡ some a
    → read_words (num_flag n ++ words) ≡ some (record a { num = num_of n })
read_words-num_flag (negsuc n) words a h g = rw (sym h) g
read_words-num_flag (pos n) words a h g = elim (Bool-cases (ltb 0 n)) [
  | inl k ↦ rw (k, digits-plain 20 n [] refl, g) refl
  | inr k ↦ rw (k, sym h) g
]

read_words-tail :
    (words : List Text) (a : Asked)
    → read_words words ≡ some a
    → read_words (codes "--tail" ∷ words) ≡ some (record a { followed = true })
read_words-tail [] a g = cc
read_words-tail (w ∷ words) a g = rw g refl

read_words-process_type :
    (name app : Text)
    → is_flag name ≡ false
    → is_flag app ≡ false
    → read_words ((if name == [] then [] else codes "--ps" ∷ name ∷ []) ++ (app ∷ []))
      ≡ some (record (asking app) { ps = if name == [] then none else some name })
read_words-process_type name app h g = elim (Bool-cases (name == [])) [
  | inl k ↦ rw k (read_words-app app g)
  | inr k ↦ rw k (read_words-ps name (app ∷ []) (asking app) h (read_words-app app g))
]

read_logs-log_args :
    (app : Text) (opts : LogOptions)
    → is_flag opts.process_type ≡ false
    → is_flag app ≡ false
    → read_logs (log_args app opts) ≡ some (asked app opts)
unfolding log_args
read_logs-log_args app opts h g =
    let ps : Option Text = if opts.process_type == [] then none else some opts.process_type in
    let words = read_words-process_type opts.process_type app h g in
    let rest : List Text =
      (if opts.process_type == [] then [] else codes "--ps" ∷ opts.process_type ∷ [])
      ++ (app ∷ []) in
    let counted = read_words-num_flag opts.tail rest (record (asking app) { ps = ps }) refl words in
    elim (Bool-cases opts.follow) [
      | inl k ↦ rw k (
          read_words-tail (num_flag opts.tail ++ rest)
            (record (asking app) { ps = ps; num = num_of opts.tail }) counted)
      | inr k ↦ rw k counted
    ]

logs_checked :
    (c : ExecClient) (app : Text) (opts : LogOptions) (started : Text × List Text)
    → logs c app opts ≡ some started
    → (validate_app_name app ≡ true)
      × ((opts.process_type == [] || validate_process_type opts.process_type) ≡ true)
      × (started ≡ command c (log_args app opts))
unfolding logs
logs_checked c app opts started h = ground arith

or_empty-plain :
    (name : Text) → (name == [] || validate_process_type name) ≡ true → is_flag name ≡ false
or_empty-plain [] h = refl
or_empty-plain (c ∷ s) h = process_type-plain (c ∷ s) h

-- Whatever process `Logs` starts, it is the command line of `log_args`, and a reader that takes every
-- word with a dash in front for a flag reads it as what was asked: neither the name of the app nor the
-- process type is taken for a flag, and no other flag is there.
pub logs_read :
    (c : ExecClient) (app : Text) (opts : LogOptions) (started : Text × List Text)
    → logs c app opts ≡ some started
    → (started ≡ command c (log_args app opts))
      × (read_logs (log_args app opts) ≡ some (asked app opts))
logs_read c app opts started h =
    let (named, typed, same) = logs_checked c app opts started h in
    (
      same,
      read_logs-log_args app opts (or_empty-plain opts.process_type typed)
          (app_name-plain app named),
    )
