-- ===== src/Unit.antt =====
-- internal/service/unit.go: the systemd unit that is written, and the address that is read back from
-- it; and the health endpoint that an update works out from that (internal/cli/update.go).
pub mod RoundTrip
use dokkup.Common.{
  Bool, true, false, Option, none, some, List, [], ◌∷◌, ◌++◌, if◌then◌else◌, ◌==◌, Text, number_key,
  text_key,
}
use dokkup.Common.Strings.{codes, trim_space, has_prefix, trim_prefix}
use dokkup.Release.{split_on}
use dokkup.Release.Fetch.{fields}

-- UnitConfig
pub record UnitConfig : Type 0 where
  pub listen : Text
  pub mode : Text
  pub domain : Text
  pub plain_http : Bool
  pub manage_certificate : Bool
  pub acme_email : Text
  pub acme_directory : Text

-- DefaultListen, DefaultMode
abbrev pub default_listen : Text
default_listen = codes "127.0.0.1:8080"

abbrev pub default_mode : Text
default_mode = codes "ip"

abbrev pub or_default : Text → Text → Text
or_default [] default_one = default_one
or_default (c ∷ s) default_one = c ∷ s

-- a flag with its value, where there is one
abbrev pub value_flag : Text → Text → List Text
value_flag flag [] = []
value_flag flag (c ∷ s) = flag ∷ (c ∷ s) ∷ []

abbrev pub bare_flag : Text → Bool → List Text
bare_flag flag true = flag ∷ []
bare_flag flag false = []

-- `extra`: the flags that follow
unfoldable pub extra_flags : UnitConfig → List Text
extra_flags cfg =
    value_flag (codes "--domain") cfg.domain
    ++ (bare_flag (codes "--manage-certificate") cfg.manage_certificate
        ++ (value_flag (codes "--acme-email") cfg.acme_email
            ++ (value_flag (codes "--acme-directory") cfg.acme_directory
                ++ bare_flag (codes "--plain-http") cfg.plain_http)))

-- words with one space between
abbrev pub unwords : List Text → Text
unwords [] = []
unwords (w ∷ []) = w
unwords (w ∷ v ∷ ws) = w ++ 32 ∷ unwords (v ∷ ws)

-- the words of the ExecStart line
unfoldable pub exec_words : UnitConfig → List Text
unfolding extra_flags
exec_words cfg =
    codes "ExecStart=/usr/local/bin/dokkup"
    ∷ codes "serve"
    ∷ codes "--listen"
    ∷ or_default cfg.listen default_listen
    ∷ codes "--mode"
    ∷ or_default cfg.mode default_mode
    ∷ extra_flags cfg

-- lines, each ended by a newline
abbrev pub unlines : List Text → Text
unlines [] = []
unlines (l ∷ ls) = l ++ 10 ∷ unlines ls

-- the lines before and after the ExecStart line
unfoldable pub head_lines : List Text
head_lines =
    codes "[Unit]"
    ∷ codes "Description=dokkup -- a web interface for a Dokku host"
    ∷ codes "Documentation=https://github.com/eduardotorresdev/dokkup"
    ∷ []
    ∷ codes "# Dokku does its work through Docker, and dokkup's first request usually asks"
    ∷ codes "# Dokku something. Starting after both means a reboot does not present a"
    ∷ codes "# degraded interface to whoever is watching it come back."
    ∷ codes "After=network-online.target docker.service"
    ∷ codes "Wants=network-online.target"
    ∷ []
    ∷ codes "[Service]"
    ∷ codes "Type=exec"
    ∷ []

unfoldable pub tail_lines : List Text
tail_lines =
    codes "User=dokkup"
    ∷ codes "Group=dokkup"
    ∷ codes "Restart=on-failure"
    ∷ codes "RestartSec=2s"
    ∷ []
    ∷ codes "# Defence in depth per ADR-0005, not a security boundary. NoNewPrivileges,"
    ∷ codes "# ProtectHome and ProtectSystem=strict are absent on purpose: each one is"
    ∷ codes "# inherited by the dokku process this service runs, and each one breaks it"
    ∷ codes "# silently. See the doc comment on UnitFile, and ADR-0012."
    ∷ codes "ProtectSystem=full"
    ∷ codes "PrivateTmp=yes"
    ∷ codes "ReadWritePaths=/var/lib/dokkup"
    ∷ []
    ∷ codes "[Install]"
    ∷ codes "WantedBy=multi-user.target"
    ∷ []

-- UnitFile
unfoldable pub unit_file : UnitConfig → Text
unfolding exec_words head_lines tail_lines
unit_file cfg = unlines (head_lines ++ unwords (exec_words cfg) ∷ tail_lines)

abbrev non_empty : Text → Option Text
non_empty [] = none
non_empty (c ∷ s) = some (c ∷ s)

abbrev first_of : List Text → Option (Option Text)
first_of [] = none
first_of (w ∷ ws) = some (some w)

-- what a flag of the line says of the address: none where the flags go on
abbrev pub flag_says : Text → List Text → Option (Option Text)
flag_says field rest =
    if has_prefix field (codes "--listen=")
    then some (non_empty (trim_prefix field (codes "--listen=")))
    else if field == codes "--listen"
    then first_of rest
    else none

abbrev pub listen_flag : List Text → Option (Option Text)
listen_flag [] = none
listen_flag (field ∷ rest) =
    let later_one = listen_flag rest in
    elim (flag_says field rest) [ none ↦ later_one | some found ↦ some found ]

unfoldable pub line_says : Text → Option (Option Text)
line_says line =
    let bare = trim_space line in
    if has_prefix bare (codes "ExecStart=")
    then listen_flag (fields (trim_prefix bare (codes "ExecStart=")))
    else none

abbrev pub or_else_says : Option (Option Text) → Option (Option Text) → Option (Option Text)
or_else_says none rest = rest
or_else_says (some found) rest = some found

abbrev pub first_line_says : List Text → Option (Option Text)
first_line_says [] = none
first_line_says (line ∷ lines) = or_else_says (line_says line) (first_line_says lines)

abbrev pub said : Option (Option Text) → Option Text
said none = none
said (some found) = found

-- ListenFromUnit: the address, or none where it reports false
unfoldable pub listen_from_unit : Text → Option Text
listen_from_unit text = said (first_line_says (split_on 10 text))
