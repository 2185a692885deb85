-- ===== src/Examples/Vhosts.antt =====
-- The file of nginx, at a domain.
use dokkup.Common.{[]}
use dokkup.Common.Strings.{codes}
use dokkup.Installer.Site.{at_domain}
use dokkup.Proxy.{VhostConfig}

abbrev vhost : VhostConfig
vhost = record {
  how = at_domain;
  domain = codes "a.example";
  ip_address = [];
  port = 0;
  upstream = [];
}
