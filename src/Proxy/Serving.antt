-- ===== src/Proxy/Serving.antt =====
-- What the servers of the file of internal/proxy/proxy.go do with a request.
use dokkup.Acme.{challenge_path}
use dokkup.Common.{
  ◌≡◌, false, List, [], ◌∷◌, ◌++◌, exists, contains, Text, number_key, text_key, not, ◌&&◌,
  if◌then◌else◌,
}
use dokkup.Common.Strings.{codes, has_prefix}
use dokkup.Installer.Site.{Reachability, at_domain, at_ip_with_tls, at_ip_plain}
use dokkup.Proxy.{VhostConfig, upstream_of, tls_port_of}
use dokkup.Proxy.Reading.{Handling, proxied, redirected, Reading}
use dokkup.Secret.{print_number}

-- no line has a newline in it
abbrev pub Quiet : List Text → Type 0
Quiet ls = exists (λ l. contains 10 l) ls ≡ false

abbrev port_80 : List Text
port_80 = codes "80 " ∷ codes "[::]:80 " ∷ []

-- where each form listens
abbrev pub addresses : Reachability → VhostConfig → List Text
addresses at_domain cfg =
    codes "80 " ∷ codes "[::]:80 " ∷ codes "443 ssl " ∷ codes "[::]:443 ssl " ∷ []
addresses at_ip_with_tls cfg =
    let printed : Text = print_number (tls_port_of cfg) in
    (codes "[::]:" ++ (printed ++ codes " ssl ")) ∷ (printed ++ codes " ssl ") ∷ []
addresses at_ip_plain cfg = port_80

-- what becomes of a path at an address
abbrev pub expected : Reachability → VhostConfig → Text → Text → Handling
expected at_domain cfg address path =
    if contains address port_80 && not (has_prefix path challenge_path)
    then redirected
    else proxied (upstream_of cfg)
expected at_ip_with_tls cfg address path = proxied (upstream_of cfg)
expected at_ip_plain cfg address path = proxied (upstream_of cfg)
