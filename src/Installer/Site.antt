-- ===== src/Installer/Site.antt =====
-- internal/cli/install.go: resolveSite, which works out from the flags, the host and the operator's
-- answers how dokkup will be reached. An address is a text. What x509, DNS and the network say is the
-- parameter `Outside`; what is printed is not modelled.
pub mod Laws
use dokkup.Common.{
  Bool, true, false, not, ◌&&◌, ◌||◌, Option, none, some, List, [], if◌then◌else◌, exists, contains,
  ◌==◌, Text, number_key, text_key,
}
use dokkup.Common.Strings.{codes}
use dokkup.Places.{place_key}
use dokkup.Server.Http.{Mode, ip as ip_mode, published as published_mode}
use dokkup.Terminal.{Input, Answer, yes, no, nothing_typed, not_an_answer, yes_or_no}
use dokkup.Unit.{UnitConfig}

-- installConfig, but for what only the unit is told
pub record InstallConfig : Type 0 where
  pub domain : Text
  pub cert : Text
  pub key : Text
  pub ip : Text
  pub self_signed : Bool
  pub plain_http : Bool

-- proxy.Reachability
pub data Reachability : Type 0 where
  at_domain at_ip_with_tls at_ip_plain : Reachability

-- site
pub record Site : Type 0 where
  pub how : Reachability
  pub domain : Text
  pub ip : Text
  pub pem : Option (Text × Text)
  pub fingerprint : Option Text
  pub manage_cert : Bool
  pub mode : Mode

-- what a look-up of a name answers: addresses, that there is no such name, or another error
pub data LookUp : Type 0 where
  resolves_to : List Text → LookUp
  no_such_name look_up_failed : LookUp

pub record Outside : Type 0 where
  pub read : Text → Option Text
  -- whether a key is a certificate's, and whether the certificate is valid for a name
  pub pairs : Text → Text → Bool
  pub covers : Text → Text → Bool
  pub look_up : Text → LookUp
  pub local : Option (List Text)
  pub local_ip : Option Text
  -- net.ParseIP
  pub parse_ip : Text → Option Text
  pub self_signed_for_domain : Text → Option (Text × Text)
  -- the certificate with its key and its fingerprint
  pub self_signed_for : Text → Option ((Text × Text) × Text)

abbrev agreed : Answer → Option Bool
agreed yes = some true
agreed no = some false
agreed nothing_typed = none
agreed not_an_answer = none

abbrev said_yes : Option Bool → Bool
said_yes (some true) = true
said_yes _ = false

-- installer.confirm; none where it returns an error
unfoldable pub confirm_install : Input → Option Bool × Input
confirm_install i = let (word, left) = yes_or_no i in (agreed word, left)

-- installer.mustConfirm: whether it returns nil
unfoldable pub must_confirm : Input → Bool × Input
unfolding confirm_install
must_confirm i = let (agreement, left) = confirm_install i in (said_yes agreement, left)

abbrev pub meets : List Text → List Text → Bool
meets addrs mine = exists (λ a. contains a mine) addrs

-- checkDomainResolves: whether it returns nil
unfoldable pub check_domain_resolves : Outside → Text → Input → Bool × Input
unfolding must_confirm
check_domain_resolves o domain i = elim (o.look_up domain) [
  | no_such_name ↦ (false, i)
  | look_up_failed ↦ must_confirm i
  | resolves_to addrs ↦ elim o.local [
    | none ↦ (false, i)
    | some mine ↦ if meets addrs mine then (true, i) else must_confirm i
  ]
]

abbrev pub domain_site : Text → Text × Text → Bool → Site
domain_site domain pem manage_cert = record {
  how = at_domain;
  domain = domain;
  ip = [];
  pem = some pem;
  fingerprint = none;
  manage_cert = manage_cert;
  mode = published_mode;
}

abbrev pub once_resolved : Option Site → Bool × Input → Option Site × Input
once_resolved found (true, i) = (found, i)
once_resolved found (false, i) = (none, i)

abbrev pub managed_site : Text → Option (Text × Text) → Option Site
managed_site domain none = none
managed_site domain (some pem) = some (domain_site domain pem true)

-- resolveManagedDomainSite
unfoldable pub resolve_managed : Outside → InstallConfig → Input → Option Site × Input
unfolding check_domain_resolves
resolve_managed o cfg i =
    once_resolved (managed_site cfg.domain (o.self_signed_for_domain cfg.domain))
      (check_domain_resolves o cfg.domain i)

-- the certificate and the key, once both are read
abbrev pub given : Outside → InstallConfig → Input → Option Text → Option Text → Option Site × Input
given o cfg i (some cert) (some key) =
    if o.pairs cert key && o.covers cert cfg.domain
    then once_resolved (some (domain_site cfg.domain (cert, key) false))
        (check_domain_resolves o cfg.domain i)
    else (none, i)
given o cfg i _ _ = (none, i)

-- resolveDomainSite
unfoldable pub resolve_domain_site : Outside → InstallConfig → Input → Option Site × Input
unfolding resolve_managed check_domain_resolves
resolve_domain_site o cfg i =
    if cfg.cert == [] && cfg.key == []
    then resolve_managed o cfg i
    else if cfg.cert == [] || cfg.key == []
    then (none, i)
    else given o cfg i (o.read cfg.cert) (o.read cfg.key)

-- chooseIP
unfoldable pub choose_ip : Outside → InstallConfig → Option Text
choose_ip o cfg = if cfg.ip == [] then o.local_ip else o.parse_ip cfg.ip

abbrev pub plain_site : Text → Site
plain_site addr = record {
  how = at_ip_plain;
  domain = [];
  ip = addr;
  pem = none;
  fingerprint = none;
  manage_cert = false;
  mode = ip_mode;
}

abbrev pub tls_site : Text → Option ((Text × Text) × Text) → Option Site
tls_site addr none = none
tls_site addr (some (pem, fingerprint)) = some (record {
  how = at_ip_with_tls;
  domain = [];
  ip = addr;
  pem = some pem;
  fingerprint = some fingerprint;
  manage_cert = false;
  mode = ip_mode;
})

abbrev pub as_answered : Outside → Text → Option Bool × Input → Option Site × Input
as_answered o addr (none, i) = (none, i)
as_answered o addr (some true, i) = (tls_site addr (o.self_signed_for addr), i)
as_answered o addr (some false, i) = (some (plain_site addr), i)

abbrev pub at_address : Outside → InstallConfig → Input → Option Text → Option Site × Input
at_address o cfg i none = (none, i)
at_address o cfg i (some addr) =
    if cfg.plain_http
    then (some (plain_site addr), i)
    else as_answered o addr (if cfg.self_signed then (some true, i) else confirm_install i)

-- resolveIPSite
unfoldable pub resolve_ip_site : Outside → InstallConfig → Input → Option Site × Input
unfolding choose_ip confirm_install
resolve_ip_site o cfg i =
    if cfg.self_signed && cfg.plain_http then (none, i) else at_address o cfg i (choose_ip o cfg)

-- resolveSite; none where it returns an error
unfoldable pub resolve_site : Outside → InstallConfig → Input → Option Site × Input
unfolding resolve_domain_site resolve_ip_site
resolve_site o cfg i =
    if not (cfg.domain == [])
    then if cfg.self_signed || cfg.plain_http || not (cfg.ip == [])
      then (none, i)
      else resolve_domain_site o cfg i
    else resolve_ip_site o cfg i

abbrev pub is_plain : Reachability → Bool
is_plain at_ip_plain = true
is_plain _ = false

-- what installUnit tells UnitFile
unfoldable pub unit_config : Text → Text → Text → Site → UnitConfig
unit_config listen acme_email acme_directory s = record {
  listen = listen;
  mode = elim s.mode [ published_mode ↦ codes "published" | ip_mode ↦ codes "ip" ];
  domain = s.domain;
  plain_http = is_plain s.how;
  manage_certificate = s.manage_cert;
  acme_email = acme_email;
  acme_directory = acme_directory;
}
