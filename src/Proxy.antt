-- ===== src/Proxy.antt =====
-- internal/proxy/proxy.go: the one file of nginx that publishes the program, as its lines.
pub mod Reading
pub mod Lines
pub mod Serving
use dokkup.Acme.{challenge_path}
use dokkup.Common.{ℕ, List, [], ◌∷◌, ◌++◌, if◌then◌else◌, ◌==◌, Text, number_key, text_key}
use dokkup.Common.Strings.{codes}
use dokkup.Installer.Site.{Reachability, at_domain, at_ip_with_tls, at_ip_plain}
use dokkup.Secret.{print_number}
use dokkup.Unit.{default_listen, or_default, unlines}

-- hostpaths.TLSCert and hostpaths.TLSKey
abbrev pub cert_path : Text
cert_path = codes "/var/lib/dokkup/tls/cert.pem"

abbrev pub key_path : Text
key_path = codes "/var/lib/dokkup/tls/key.pem"

abbrev pub default_tls_port : ℕ
default_tls_port = 8443

-- `how`, a Reachability; an IP address is its text
pub record VhostConfig : Type 0 where
  pub how : Reachability
  pub domain : Text
  pub ip_address : Text
  pub port : ℕ
  pub upstream : Text

-- vhostHeader
unfoldable pub vhost_header : List Text
vhost_header =
    codes "# /etc/nginx/conf.d/dokkup.conf -- written by dokkup."
    ∷ codes "#"
    ∷ codes "# Deleting this file and reloading nginx removes dokkup from the proxy entirely."
    ∷ codes "# dokkup writes nothing else anywhere under /etc/nginx."
    ∷ []
    ∷ codes "map $http_upgrade $dokkup_connection_upgrade {"
    ∷ codes "    default upgrade;"
    ∷ codes "    \"\"      close;"
    ∷ codes "}"
    ∷ []

-- domainServers: the redirect
unfoldable pub redirect_server : Text → Text → List Text
redirect_server domain listen =
    []
    ∷ codes "server {"
    ∷ codes "    listen      80;"
    ∷ codes "    listen      [::]:80;"
    ∷ (codes "    server_name " ++ (domain ++ codes ";"))
    ∷ []
    ∷ (codes "    location ^~ " ++ (challenge_path ++ codes " {"))
    ∷ (codes "        proxy_pass http://" ++ (listen ++ codes ";"))
    ∷ codes "        proxy_set_header Host $http_host;"
    ∷ codes "    }"
    ∷ []
    ∷ codes "    location / { return 301 https://$host$request_uri; }"
    ∷ codes "}"
    ∷ []

-- domainServers: the TLS server
unfoldable pub tls_server : Text → List Text
tls_server domain =
    []
    ∷ codes "server {"
    ∷ codes "    listen      443 ssl;"
    ∷ codes "    listen      [::]:443 ssl;"
    ∷ (codes "    server_name " ++ (domain ++ codes ";"))
    ∷ []
    ∷ (codes "    ssl_certificate     " ++ (cert_path ++ codes ";"))
    ∷ (codes "    ssl_certificate_key " ++ (key_path ++ codes ";"))
    ∷ codes "    ssl_protocols       TLSv1.2 TLSv1.3;"
    ∷ []
    ∷ []

-- ipTLSServer
unfoldable pub ip_tls_server : Text → List Text
ip_tls_server printed =
    []
    ∷ codes "server {"
    ∷ (codes "    listen      " ++ (printed ++ codes " ssl;"))
    ∷ (codes "    listen      [::]:" ++ (printed ++ codes " ssl;"))
    ∷ codes "    server_name _;"
    ∷ []
    ∷ (codes "    ssl_certificate     " ++ (cert_path ++ codes ";"))
    ∷ (codes "    ssl_certificate_key " ++ (key_path ++ codes ";"))
    ∷ codes "    ssl_protocols       TLSv1.2 TLSv1.3;"
    ∷ []
    ∷ []

-- ipPlainServer
unfoldable pub ip_plain_server : Text → List Text
ip_plain_server address =
    []
    ∷ codes "server {"
    ∷ codes "    listen      80;"
    ∷ codes "    listen      [::]:80;"
    ∷ (codes "    server_name " ++ (address ++ codes ";"))
    ∷ []
    ∷ []

-- proxyBody
unfoldable pub proxy_body : Text → List Text
proxy_body listen =
    codes "    client_max_body_size 10m;"
    ∷ []
    ∷ codes "    location / {"
    ∷ (codes "        proxy_pass http://" ++ (listen ++ codes ";"))
    ∷ []
    ∷ codes "        proxy_http_version 1.1;"
    ∷ codes "        proxy_set_header Host              $http_host;"
    ∷ codes "        proxy_set_header X-Real-IP         $remote_addr;"
    ∷ codes "        proxy_set_header X-Forwarded-For   $proxy_add_x_forwarded_for;"
    ∷ codes "        proxy_set_header X-Forwarded-Proto $scheme;"
    ∷ codes "        proxy_set_header X-Forwarded-Port  $server_port;"
    ∷ codes "        proxy_set_header Upgrade           $http_upgrade;"
    ∷ codes "        proxy_set_header Connection        $dokkup_connection_upgrade;"
    ∷ []
    ∷ codes "        proxy_buffering off;"
    ∷ codes "        proxy_read_timeout 3600s;"
    ∷ codes "        proxy_send_timeout 3600s;"
    ∷ codes "    }"
    ∷ codes "}"
    ∷ []

-- service.DefaultListen where there is no upstream
abbrev pub upstream_of : VhostConfig → Text
upstream_of cfg = or_default cfg.upstream default_listen

abbrev pub tls_port_of : VhostConfig → ℕ
tls_port_of cfg = if cfg.port == 0 then default_tls_port else cfg.port

unfoldable pub servers : Reachability → VhostConfig → List Text
servers at_domain cfg = redirect_server cfg.domain (upstream_of cfg) ++ tls_server cfg.domain
servers at_ip_with_tls cfg = ip_tls_server (print_number (tls_port_of cfg))
servers at_ip_plain cfg = ip_plain_server cfg.ip_address

-- VhostFile
unfoldable pub vhost_file : VhostConfig → Text
vhost_file cfg = unlines (vhost_header ++ (servers cfg.how cfg ++ proxy_body (upstream_of cfg)))
