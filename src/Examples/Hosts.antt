-- ===== src/Examples/Hosts.antt =====
-- Installations and removals of a host.
use dokkup.Common.{ℕ, ◌≡◌, refl, ◌≢◌, ◌⊎◌, inr, Bool, true, false, none, some, [], arith}
use dokkup.Common.Strings.{codes, trim_space, to_lower}
use dokkup.Installer.{
  Plan, ensure_account, ensure_data_dir, ensure_sudoers, install_binary, replace_file,
  install_certificate, install_vhost, install_unit, start_service, change,
}
use dokkup.Installer.Outcomes.{install_restores, install_serves}
use dokkup.Installer.Undoing.{
  unwind, Dokku, require_dokku, Installation, in_place, unwound, install,
}
use dokkup.Places.{binary, tls_key}
use dokkup.Removal.{
  removed_all, remove_file, remove_tree, remove_vhost, disable_service, remove_unit, remove_account,
  remove_data_dir, removal, decide_about_data, nothing_yet, uninstall,
}
use dokkup.Removal.Laws.{IsRooted}
use dokkup.Removal.Outcomes.{uninstall_deliberate, uninstall_complete}
use dokkup.Removal.Success.{uninstall_succeeds}
use dokkup.System.{System, Tools}
use dokkup.Terminal.{
  Input, read_line, yes_or_no, rejected, Invocation, parse_uint32, sudo_password, confirm_hostname,
  confirm,
}
use dokkup.Terminal.Answers.{NamedHost, GavePassword, NotAsked}

abbrev steady : Tools
steady = record {
  fails = λ n. false;
  fails_late = λ n. false;
  spared = λ n p. false;
  torn = λ n content. content;
  shared_group = false;
}

-- a host on which an older dokkup runs
abbrev old_host : System
old_host = record {
  files = λ p. some (codes "old");
  user = true;
  group = true;
  member = true;
  enabled = true;
  running = some (codes "old");
  tick = 0;
}

old_host-IsRooted : IsRooted old_host
old_host-IsRooted p q under absent = absurd cc

abbrev at_console : Invocation
at_console = record {
  sudo_uid = [];
  sudo_gid = [];
  sudo_user = [];
  user_name = λ uid. none;
  has_sudo = true;
  has_terminal = true;
  sudo = λ uid. rejected;
  hostname = some (codes "Dokku.example.org");
}

abbrev typed : Input
typed = record { bytes = codes "no\ndokku \n"; ends = true }

abbrev just_name : Input
just_name = record { bytes = codes " DOKKU\r\n"; ends = true }

named_it : confirm at_console just_name ≡ true
unfolding confirm confirm_hostname sudo_password parse_uint32 read_line trim_space to_lower
named_it = refl

uninstall_deliberate_example :
    ((uninstall steady at_console false typed old_host).1 ≡ (old_host, nothing_yet))
    ⊎ (GavePassword at_console
        ⊎ (NotAsked at_console × NamedHost at_console (decide_about_data false old_host typed).1))
uninstall_deliberate_example = uninstall_deliberate steady at_console false typed old_host

all_gone : (uninstall steady at_console true just_name old_host).0 ≡ removed_all
unfolding confirm confirm_hostname sudo_password parse_uint32 read_line trim_space to_lower
    yes_or_no uninstall decide_about_data removal remove_file remove_tree remove_vhost
    disable_service remove_unit remove_account remove_data_dir
all_gone = refl

decided_to : decide_about_data true old_host just_name ≡ (some true, just_name)
unfolding decide_about_data
decided_to = refl

uninstall_succeeds_example : (uninstall steady at_console true just_name old_host).0 ≡ removed_all
uninstall_succeeds_example =
    uninstall_succeeds steady at_console true just_name old_host true just_name (λ n. refl)
      (inr refl) decided_to named_it

decided_one : (decide_about_data true old_host just_name).0 ≡ some true
unfolding decide_about_data
decided_one = refl

uninstall_complete_example :
    let (ending, (s', r)) = uninstall steady at_console true just_name old_host in
    (s'.files tls_key ≡ none)
    × (s'.user ≡ false)
    × (s'.group ≡ false)
    × (s'.running ≡ none)
    × (s'.enabled ≡ false)
uninstall_complete_example =
    uninstall_complete steady at_console true just_name old_host true tls_key old_host-IsRooted refl
      all_gone decided_one refl

abbrev new_plan : (ℕ → Bool) → Plan
new_plan reached = record {
  self = codes "new";
  self_is_installed = false;
  rule = codes "rule";
  vhost_text = codes "vhost";
  unit_text = codes "unit";
  pem = some (codes "cert", codes "key");
  healthy = λ n. true;
  reached = reached;
}

abbrev with_dokku : Dokku
with_dokku = record { dokku_group = true; dokku_user = true; dokku_binary = true }

-- an installation that nothing reaches, and one that succeeds
abbrev unreached : Installation × System
unreached = install steady steady with_dokku (some (new_plan (λ n. false))) old_host

abbrev reached_one : Installation × System
reached_one = install steady steady with_dokku (some (new_plan (λ n. true))) old_host

failed_install : unreached.0 ≡ unwound
unfolding install require_dokku change ensure_account ensure_data_dir ensure_sudoers install_binary
    install_certificate replace_file install_vhost install_unit start_service unwind
failed_install = refl

good_install : reached_one.0 ≡ in_place
unfolding install require_dokku change ensure_account ensure_data_dir ensure_sudoers install_binary
    install_certificate replace_file install_vhost install_unit start_service unwind
good_install = refl

not_in_place : unreached.0 ≢ in_place
not_in_place h = absurd (ground (arith, failed_install, h))

install_restores_example : unreached.1.files binary ≡ some (codes "old")
install_restores_example =
    install_restores steady steady with_dokku (some (new_plan (λ n. false))) old_host binary
      (λ n. (refl, λ c. refl)) (λ n. (refl, refl)) old_host-IsRooted refl not_in_place

install_serves_example :
    (reached_one.1.running ≡ reached_one.1.files binary)
    × (reached_one.1.enabled ≡ true)
    × ((n : ℕ) × (true ≡ true))
    × ((n : ℕ) × (true ≡ true))
install_serves_example =
    install_serves steady steady with_dokku (new_plan (λ n. true)) old_host good_install

-- what an unwinding does not put back: a service that was running is stopped
stopped_by_unwinding : unreached.1.running ≡ none
unfolding install require_dokku change ensure_account ensure_data_dir ensure_sudoers install_binary
    install_certificate replace_file install_vhost install_unit start_service unwind
stopped_by_unwinding = refl
