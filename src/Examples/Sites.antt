-- ===== src/Examples/Sites.antt =====
-- Units, and the sites that they are written for.
use dokkup.Common.{◌≡◌, refl, ◌≢◌, ◌⊎◌, true, false, none, some, [], ◌∷◌}
use dokkup.Common.Strings.{codes, trim_space, to_lower}
use dokkup.Installer.Site.{
  InstallConfig, resolves_to, Outside, confirm_install, resolve_domain_site, choose_ip, plain_site,
  resolve_ip_site, resolve_site,
}
use dokkup.Installer.Site.Laws.{AtDomain, AtAddressWithTls, AtAddressPlain, resolve_site_sound}
use dokkup.Places.{sudoers}
use dokkup.System.{System, Tools, write_sudoers}
use dokkup.System.Sudoers.{Sudoers, Staging, stage_sudoers, Staged, text_of, stage_sudoers_refines}
use dokkup.Terminal.{Input, read_line, yes_or_no}
use dokkup.Unit.{UnitConfig, unit_file, listen_from_unit}
use dokkup.Unit.RoundTrip.{listen_from_unit-unit_file}

abbrev a_unit : UnitConfig
a_unit = record {
  listen = codes "127.0.0.1:9090";
  mode = [];
  domain = codes "paas.example.org";
  plain_http = false;
  manage_certificate = true;
  acme_email = [];
  acme_directory = [];
}

listen_from_unit-unit_file_example :
    listen_from_unit (unit_file a_unit) ≡ some (codes "127.0.0.1:9090")
listen_from_unit-unit_file_example =
    listen_from_unit-unit_file a_unit (refl, refl, refl, refl, refl)

abbrev nat : Outside
nat = record {
  read = λ path. none;
  pairs = λ cert key. false;
  covers = λ cert domain. false;
  look_up = λ domain. resolves_to (codes "203.0.113.7" ∷ []);
  local = some (codes "10.0.0.2" ∷ []);
  local_ip = some (codes "10.0.0.2");
  parse_ip = λ s. some s;
  self_signed_for_domain = λ domain. some (codes "cert", codes "key");
  self_signed_for = λ addr. some ((codes "cert", codes "key"), codes "AB:CD");
}

abbrev no_flags : InstallConfig
no_flags = record {
  domain = [];
  cert = [];
  key = [];
  ip = [];
  self_signed = false;
  plain_http = false;
}

abbrev declines : Input
declines = record { bytes = codes "No\n"; ends = true }

plain_resolved : (resolve_site nat no_flags declines).0 ≡ some (plain_site (codes "10.0.0.2"))
unfolding resolve_site resolve_ip_site resolve_domain_site choose_ip confirm_install yes_or_no
    read_line trim_space to_lower
plain_resolved = refl

resolve_site_sound_example :
    ((no_flags.domain ≢ []) × AtDomain nat no_flags declines (plain_site (codes "10.0.0.2")))
    ⊎ ((no_flags.domain ≡ [])
        × (AtAddressWithTls nat (plain_site (codes "10.0.0.2"))
            ⊎ AtAddressPlain no_flags declines (plain_site (codes "10.0.0.2"))))
resolve_site_sound_example =
    resolve_site_sound nat no_flags declines (plain_site (codes "10.0.0.2")) plain_resolved

-- A sudoers rule that visudo refuses, over one that is there.
abbrev old_rule : Sudoers
old_rule = record {
  rule = some (record { text = codes "old"; mode = 288; rooted = true });
  staging = none;
}

abbrev refusing : Staging
refusing = record {
  write_fails = false;
  torn = λ text e. none;
  mode_of = λ e. 256;
  rooted_of = λ e. true;
  chmod_fails = false;
  is_root = true;
  chown_fails = false;
  visudo = λ e. false;
  rename_fails = false;
  remove_fails = false;
}

abbrev refusing_tools : Tools
refusing_tools = record {
  fails = λ n. true;
  fails_late = λ n. false;
  spared = λ n p. false;
  torn = λ n c. c;
  shared_group = false;
}

abbrev ruled : System
ruled = record {
  files = λ p. some (codes "old");
  user = true;
  group = true;
  member = true;
  enabled = false;
  running = none;
  tick = 0;
}

new_rule_refused : (stage_sudoers refusing (codes "new") old_rule).0 ≡ false
unfolding stage_sudoers
new_rule_refused = refl

stage_sudoers_refines_example :
    let r = stage_sudoers refusing (codes "new") old_rule in
    let one = write_sudoers refusing_tools sudoers (codes "new") ruled in
    Staged refusing (codes "new") old_rule r
    × (one.0 ≡ r.0)
    × (one.1.files sudoers ≡ text_of r.1.rule)
stage_sudoers_refines_example =
    stage_sudoers_refines refusing refusing_tools sudoers (codes "new") old_rule ruled
      (rw new_rule_refused refl) refl
