-- ===== src/Terminal/Answers.antt =====
-- What an answer at the terminal proves.
use dokkup.Common.{
  ℕ, ◌≡◌, ◌≢◌, inl, inr, true, some, arith, Option-cases, Text, refl, ap, ◌∙◌, ◌⊎◌, same_text_iff,
  [], Bool-cases,
}
use dokkup.Common.Strings.{trim_space, to_lower}
use dokkup.Terminal.{
  Input, read_line, accepted, parse_uint32, names_host, confirm_hostname, not_started, Invocation,
  Challenge, no_challenge, refuses, names_user, sudo_password, asks_password, SudoRun, rejected,
  confirm, first_label, equal_fold,
}

-- A line was read from the input that is the host's name or the first label of it, white space around
-- it and the case of its letters aside, and that is not empty.
abbrev pub NamedHost : Invocation → Input → Type 0
NamedHost e i =
    (want line : Text) × (left : Input) × (e.hostname ≡ some want)
    × (read_line i ≡ some (line, left))
    × (trim_space line ≢ [])
    × ((to_lower (trim_space line) ≡ to_lower want)
        ⊎ (to_lower (trim_space line) ≡ to_lower (first_label want)))

-- sudo accepted the password of the account that started the command, which is not root and which the
-- account database names as the environment does.
abbrev pub GavePassword : Invocation → Type 0
GavePassword e =
    (uid : ℕ) × (e.sudo uid ≡ accepted)
    × (uid ≢ 0)
    × (parse_uint32 e.sudo_uid ≡ some uid)
    × (e.user_name uid ≡ some e.sudo_user)
    × (e.has_terminal ≡ true)

names_host_lem :
    (want got : Text)
    → names_host want got ≡ true
    → (got ≢ []) × ((to_lower got ≡ to_lower want) ⊎ (to_lower got ≡ to_lower (first_label want)))
names_host_lem want got h = (
  λ empty_one. absurd (ground (arith, (same_text_iff got []).1 empty_one)),
  elim (Bool-cases (equal_fold got want)) [
    | inl whole ↦ inl ((same_text_iff (to_lower got) (to_lower want)).0 whole)
    | inr other ↦
        inr ((same_text_iff (to_lower got) (to_lower (first_label want))).0 (ground arith))
  ],
)

confirm_hostname-NamedHost :
    (e : Invocation) (i : Input) → confirm_hostname e i ≡ true → NamedHost e i
unfolding confirm_hostname
confirm_hostname-NamedHost e i h = elim (Option-cases e.hostname) [
  | inl unnamed ↦ absurd (ground arith)
  | inr (want, named) ↦ elim (Option-cases (read_line i)) [
    | inl unread ↦ absurd (ground arith)
    | inr ((line, left), read) ↦
        let (typed_one, same_one) = names_host_lem want (trim_space line) (ground arith) in
        (want, line, left, named, read, typed_one, same_one)
  ]
]

-- there is nobody to ask for a password, or sudo did not run
abbrev pub NotAsked : Invocation → Type 0
NotAsked e =
    (sudo_password e ≡ no_challenge)
    ⊎ ((uid : ℕ) × (sudo_password e ≡ asks_password uid) × (e.sudo uid ≡ not_started))

names_user-name :
    (e : Invocation) (uid : ℕ) → names_user e uid ≡ true → e.user_name uid ≡ some e.sudo_user
names_user-name e uid h = elim (Option-cases (e.user_name uid)) [
  | inl unknown ↦ absurd (ground arith)
  | inr (name, found) ↦ found ∙ ap some ((same_text_iff name e.sudo_user).0 (ground arith))
]

Challenge-cases :
    (c : Challenge) → (c ≡ no_challenge) ⊎ (c ≡ refuses) ⊎ ((uid : ℕ) × (c ≡ asks_password uid))
Challenge-cases no_challenge = inl refl
Challenge-cases refuses = inr (inl refl)
Challenge-cases (asks_password uid) = inr (inr (uid, refl))

sudo_password_asks :
    (e : Invocation) (uid : ℕ)
    → sudo_password e ≡ asks_password uid
    → (uid ≢ 0)
      × (parse_uint32 e.sudo_uid ≡ some uid)
      × (names_user e uid ≡ true)
      × (e.has_terminal ≡ true)
unfolding sudo_password
sudo_password_asks e uid h = elim (Option-cases (parse_uint32 e.sudo_uid)) [
  | inl no_uid ↦ absurd (ground arith)
  | inr (n, uid_read) ↦ elim (Option-cases (parse_uint32 e.sudo_gid)) [
    | inl no_gid ↦ absurd (ground arith)
    | inr (gid, gid_read) ↦ ground arith
  ]
]

asks_password-GavePassword :
    (e : Invocation) (uid : ℕ)
    → sudo_password e ≡ asks_password uid
    → e.sudo uid ≡ accepted
    → GavePassword e
asks_password-GavePassword e uid h took =
    let (not_root, uid_read, named, terminal) = sudo_password_asks e uid h in
    (uid, took, not_root, uid_read, names_user-name e uid named, terminal)

SudoRun-cases : (r : SudoRun) → (r ≡ accepted) ⊎ (r ≡ rejected) ⊎ (r ≡ not_started)
SudoRun-cases accepted = inl refl
SudoRun-cases rejected = inr (inl refl)
SudoRun-cases not_started = inr (inr refl)

-- What is confirmed was confirmed by the password of the account that started the command, which is not
-- root, on a terminal, or else, where nobody could be asked for a password, by typing the host's name
-- or its first label, which an empty answer never is.
pub confirm_sound :
    (e : Invocation) (i : Input)
    → confirm e i ≡ true
    → GavePassword e ⊎ (NotAsked e × NamedHost e i)
unfolding confirm
confirm_sound e i h = elim (Challenge-cases (sudo_password e)) [
  | inl nobody ↦ inr (inl nobody, confirm_hostname-NamedHost e i (ground arith))
  | inr (inl refused) ↦ absurd (ground arith)
  | inr (inr (uid, asked)) ↦ elim (SudoRun-cases (e.sudo uid)) [
    | inl took ↦ inl (asks_password-GavePassword e uid asked took)
    | inr (inl wrong) ↦ absurd (ground arith)
    | inr (inr missing) ↦
        inr (inr (uid, asked, missing), confirm_hostname-NamedHost e i (ground arith))
  ]
]
