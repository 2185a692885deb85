-- ===== src/Installer/Site/Laws.antt =====
-- What is known of a site that was resolved.
use mathlib.Core.Path.{subst}
use dokkup.Common.{
  ◌≡◌, refl, ◌≢◌, ◌⊎◌, inl, inr, Bool, true, false, Option, none, some, List, [], arith, Bool-cases,
  Option-cases, Text, ◌↔◌, ◌&&◌, ◌||◌, ◌==◌, same_text_iff, number_key, text_key,
}
use dokkup.Installer.Site.{
  InstallConfig, at_domain, at_ip_with_tls, at_ip_plain, Site, LookUp, resolves_to, no_such_name,
  look_up_failed, Outside, confirm_install, must_confirm, meets, check_domain_resolves,
  once_resolved, resolve_managed, given, at_address, domain_site, managed_site, resolve_domain_site,
  choose_ip, plain_site, tls_site, resolve_ip_site, resolve_site, unit_config,
}
use dokkup.Server.Http.{ip as ip_mode, published as published_mode}
use dokkup.Terminal.{Input, Answer, yes, no, nothing_typed, not_an_answer, yes_or_no}

-- the name resolves to an address of this host, or to something, or could not be looked up, and the
-- operator went on
abbrev pub Resolves : Outside → Text → Input → Type 0
Resolves o domain i =
    ((addrs mine : List Text) × (o.look_up domain ≡ resolves_to addrs)
      × (o.local ≡ some mine)
      × (meets addrs mine ≡ true))
    ⊎ ((o.look_up domain ≢ no_such_name) × ((yes_or_no i).0 ≡ yes))

-- at a name, with a certificate that was given and fits it, or with one that the service will get
abbrev pub AtDomain : Outside → InstallConfig → Input → Site → Type 0
AtDomain o cfg i s =
    (s.how ≡ at_domain)
    × (s.domain ≡ cfg.domain)
    × (s.mode ≡ published_mode)
    × Resolves o cfg.domain i
    × (((s.manage_cert ≡ true)
          × (cfg.cert ≡ [])
          × (cfg.key ≡ [])
          × ((pem : Text × Text) × (o.self_signed_for_domain cfg.domain ≡ some pem)
              × (s.pem ≡ some pem)))
        ⊎ ((s.manage_cert ≡ false)
            × ((cert key : Text) × (o.read cfg.cert ≡ some cert)
                × (o.read cfg.key ≡ some key)
                × (s.pem ≡ some (cert, key))
                × (o.pairs cert key ≡ true)
                × (o.covers cert cfg.domain ≡ true))))

-- at an address, with a certificate of its own whose fingerprint is shown
abbrev pub AtAddressWithTls : Outside → Site → Type 0
AtAddressWithTls o s =
    (s.how ≡ at_ip_with_tls)
    × (s.mode ≡ ip_mode)
    × ((pem : Text × Text) × (fingerprint : Text) × (o.self_signed_for s.ip
          ≡ some (pem, fingerprint))
        × (s.pem ≡ some pem)
        × (s.fingerprint ≡ some fingerprint))

-- at an address without a certificate, because that was asked for
abbrev pub AtAddressPlain : InstallConfig → Input → Site → Type 0
AtAddressPlain cfg i s =
    (s.how ≡ at_ip_plain)
    × (s.mode ≡ ip_mode)
    × (s.pem ≡ none)
    × ((cfg.plain_http ≡ true) ⊎ ((cfg.self_signed ≡ false) × ((yes_or_no i).0 ≡ no)))

Answer-cases : (a : Answer) → (a ≡ yes) ⊎ (a ≡ no) ⊎ (a ≡ nothing_typed) ⊎ (a ≡ not_an_answer)
Answer-cases yes = inl refl
Answer-cases no = inr (inl refl)
Answer-cases nothing_typed = inr (inr (inl refl))
Answer-cases not_an_answer = inr (inr (inr refl))

LookUp-cases :
    (l : LookUp)
    → ((addrs : List Text) × (l ≡ resolves_to addrs)) ⊎ (l ≡ no_such_name) ⊎ (l ≡ look_up_failed)
LookUp-cases (resolves_to addrs) = inl (addrs, refl)
LookUp-cases no_such_name = inr (inl refl)
LookUp-cases look_up_failed = inr (inr refl)

must_confirm-yes : (i : Input) → (must_confirm i).0 ≡ true → (yes_or_no i).0 ≡ yes
unfolding must_confirm confirm_install
must_confirm-yes i h = elim (Answer-cases (yes_or_no i).0) [
  | inl agreed_to ↦ agreed_to
  | inr (inl declined) ↦ absurd (ground arith)
  | inr (inr (inl silent)) ↦ absurd (ground arith)
  | inr (inr (inr unclear)) ↦ absurd (ground arith)
]

check_domain_resolves-Resolves :
    (o : Outside) (domain : Text) (i : Input)
    → (check_domain_resolves o domain i).0 ≡ true
    → Resolves o domain i
unfolding check_domain_resolves
check_domain_resolves-Resolves o domain i h = elim (LookUp-cases (o.look_up domain)) [
  | inr (inl missing) ↦ absurd (ground arith)
  | inr (inr unanswered) ↦ inr (λ e. absurd (ground arith), must_confirm-yes i (ground arith))
  | inl (addrs, found) ↦ elim (Option-cases o.local) [
    | inl unread ↦ absurd (ground arith)
    | inr (mine, read) ↦ elim (Bool-cases (meets addrs mine)) [
      | inl common ↦ inl (addrs, mine, found, read, common)
      | inr apart ↦ inr (λ e. absurd (ground arith), must_confirm-yes i (ground arith))
    ]
  ]
]

once_resolved-some :
    (found : Option Site) (r : Bool × Input) (s : Site)
    → (once_resolved found r).0 ≡ some s
    → (r.0 ≡ true) × (found ≡ some s)
once_resolved-some found (true, i) s h = (refl, h)
once_resolved-some found (false, i) s h = absurd cc

managed_site-AtDomain :
    (o : Outside) (cfg : InstallConfig) (i : Input) (made : Option (Text × Text)) (s : Site)
    → cfg.cert ≡ []
    → cfg.key ≡ []
    → Resolves o cfg.domain i
    → o.self_signed_for_domain cfg.domain ≡ made
    → managed_site cfg.domain made ≡ some s
    → AtDomain o cfg i s
managed_site-AtDomain o cfg i none s no_cert no_key resolves from h = absurd cc
managed_site-AtDomain o cfg i (some pem) s no_cert no_key resolves from h =
    let same_one : domain_site cfg.domain pem true ≡ s = cc in
    subst (AtDomain o cfg i) same_one
      (refl, refl, refl, resolves, inl (refl, no_cert, no_key, (pem, from, refl)))

resolve_managed-AtDomain :
    (o : Outside) (cfg : InstallConfig) (i : Input) (s : Site)
    → cfg.cert ≡ []
    → cfg.key ≡ []
    → (resolve_managed o cfg i).0 ≡ some s
    → AtDomain o cfg i s
unfolding resolve_managed
resolve_managed-AtDomain o cfg i s no_cert no_key h =
    let made = managed_site cfg.domain (o.self_signed_for_domain cfg.domain) in
    let (checked, found) = once_resolved-some made (check_domain_resolves o cfg.domain i) s h in
    managed_site-AtDomain o cfg i (o.self_signed_for_domain cfg.domain) s no_cert no_key
      (check_domain_resolves-Resolves o cfg.domain i checked) refl found

given-AtDomain :
    (o : Outside) (cfg : InstallConfig) (i : Input) (cert key : Option Text) (s : Site)
    → o.read cfg.cert ≡ cert
    → o.read cfg.key ≡ key
    → (given o cfg i cert key).0 ≡ some s
    → AtDomain o cfg i s
given-AtDomain o cfg i none key s from_cert from_key h = absurd cc
given-AtDomain o cfg i (some cert) none s from_cert from_key h = absurd cc
given-AtDomain o cfg i (some cert) (some key) s from_cert from_key h =
    elim (Bool-cases (o.pairs cert key && o.covers cert cfg.domain)) [
      | inr unfit ↦ absurd (ground arith)
      | inl fit ↦
          let made = domain_site cfg.domain (cert, key) false in
          let (checked, found) =
            once_resolved-some (some made) (check_domain_resolves o cfg.domain i) s
              (ground arith) in
          let same_one : made ≡ s = cc in
          subst (AtDomain o cfg i) same_one (
            refl,
            refl,
            refl,
            check_domain_resolves-Resolves o cfg.domain i checked,
            inr (refl, (cert, key, from_cert, from_key, refl, ground arith, ground arith)),
          )
    ]

resolve_domain_site-AtDomain :
    (o : Outside) (cfg : InstallConfig) (i : Input) (s : Site)
    → (resolve_domain_site o cfg i).0 ≡ some s
    → AtDomain o cfg i s
unfolding resolve_domain_site
resolve_domain_site-AtDomain o cfg i s h = elim (Bool-cases (cfg.cert == [] && cfg.key == [])) [
  | inl neither ↦
      resolve_managed-AtDomain o cfg i s ((same_text_iff cfg.cert []).0 (ground arith))
        ((same_text_iff cfg.key []).0 (ground arith)) (ground arith)
  | inr some_one ↦ elim (Bool-cases (cfg.cert == [] || cfg.key == [])) [
    | inl one ↦ absurd (ground arith)
    | inr both ↦
        given-AtDomain o cfg i (o.read cfg.cert) (o.read cfg.key) s refl refl (ground arith)
  ]
]

plain-AtAddressPlain :
    (o : Outside) (cfg : InstallConfig) (i : Input) (addr : Text) (s : Site)
    → (cfg.plain_http ≡ true) ⊎ ((cfg.self_signed ≡ false) × ((yes_or_no i).0 ≡ no))
    → some (plain_site addr) ≡ some s
    → AtAddressPlain cfg i s
plain-AtAddressPlain o cfg i addr s why h =
    let same_one : plain_site addr ≡ s = cc in
    subst (AtAddressPlain cfg i) same_one (refl, refl, refl, why)

tls_site-AtAddressWithTls :
    (o : Outside) (addr : Text) (made : Option ((Text × Text) × Text)) (s : Site)
    → o.self_signed_for addr ≡ made
    → tls_site addr made ≡ some s
    → AtAddressWithTls o s
tls_site-AtAddressWithTls o addr none s from h = absurd cc
tls_site-AtAddressWithTls o addr (some (pem, fingerprint)) s from h =
    subst (λ r. elim r [ none ↦ Unit {0} | some t ↦ AtAddressWithTls o t ]) h
      (refl, refl, (pem, fingerprint, from, refl, refl))

at_address_lem :
    (o : Outside) (cfg : InstallConfig) (i : Input) (addr : Option Text) (s : Site)
    → (at_address o cfg i addr).0 ≡ some s
    → AtAddressWithTls o s ⊎ AtAddressPlain cfg i s
unfolding confirm_install
at_address_lem o cfg i none s h = absurd cc
at_address_lem o cfg i (some addr) s h = elim (Bool-cases cfg.plain_http) [
  | inl plain ↦ inr (plain-AtAddressPlain o cfg i addr s (inl plain) (ground arith))
  | inr not_plain ↦ elim (Bool-cases cfg.self_signed) [
    | inl signed ↦
        inl (tls_site-AtAddressWithTls o addr (o.self_signed_for addr) s refl (ground arith))
    | inr unsigned ↦ elim (Answer-cases (yes_or_no i).0) [
      | inl wanted ↦
          inl (tls_site-AtAddressWithTls o addr (o.self_signed_for addr) s refl (ground arith))
      | inr (inl declined) ↦
          inr (plain-AtAddressPlain o cfg i addr s (inr (unsigned, declined)) (ground arith))
      | inr (inr (inl silent)) ↦ absurd (ground arith)
      | inr (inr (inr unclear)) ↦ absurd (ground arith)
    ]
  ]
]

-- A site that is resolved from the flags and the answers is one of three. With a name: at that name,
-- which resolves to this host or which the operator went on with, with the certificate and the key that
-- are read at the paths given by the flags, belong together and cover the name, or else with one that the service is to replace. Without a
-- name: at an address with a certificate of its own, whose fingerprint is shown; or at an address over
-- plain HTTP, with no certificate, and only because a flag or an answer asked for that.
pub resolve_site_sound :
    (o : Outside) (cfg : InstallConfig) (i : Input) (s : Site)
    → (resolve_site o cfg i).0 ≡ some s
    → ((cfg.domain ≢ []) × AtDomain o cfg i s)
      ⊎ ((cfg.domain ≡ []) × (AtAddressWithTls o s ⊎ AtAddressPlain cfg i s))
unfolding resolve_site resolve_ip_site
resolve_site_sound o cfg i s h = elim (Bool-cases (cfg.domain == [])) [
  | inr named ↦ inl (
    λ e. absurd (ground (arith, (same_text_iff cfg.domain []).1 e)),
    resolve_domain_site-AtDomain o cfg i s (ground arith),
  )
  | inl unnamed ↦ inr (
    (same_text_iff cfg.domain []).0 unnamed,
    at_address_lem o cfg i (choose_ip o cfg) s (ground arith),
  )
]

-- The unit of a resolved site says --plain-http exactly where the site has no certificate, so that the
-- session cookie is Secure exactly where the origin is.
pub plain_http-unit_config :
    (o : Outside) (cfg : InstallConfig) (i : Input) (s : Site) (listen email directory : Text)
    → (resolve_site o cfg i).0 ≡ some s
    → ((unit_config listen email directory s).plain_http ≡ true) ↔ (s.pem ≡ none)
unfolding unit_config
plain_http-unit_config o cfg i s listen email directory h = elim (resolve_site_sound o cfg i s h) [
  | inl (_, (how, _, _, _, inl (_, _, _, (pem, _, has)))) ↦
      (λ e. absurd (ground arith), λ e. absurd (ground arith))
  | inl (_, (how, _, _, _, inr (_, (cert, key, _, _, has, _, _)))) ↦
      (λ e. absurd (ground arith), λ e. absurd (ground arith))
  | inr (_, inl (how, _, (pem, print, _, has, _))) ↦
      (λ e. absurd (ground arith), λ e. absurd (ground arith))
  | inr (_, inr (how, _, bare, _)) ↦ (λ e. bare, λ e. ground arith)
]
