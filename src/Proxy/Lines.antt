-- ===== src/Proxy/Lines.antt =====
-- Each form of the file of internal/proxy/proxy.go, read token by token.
use dokkup.Acme.{challenge_path}
use dokkup.Common.{
  sym, take, ℕ, zero, suc, ◌+◌, ◌/◌, ◌%◌, ◌≡◌, refl, Bool, true, false, List, [], ◌∷◌, ◌++◌, ap,
  ◌∙◌, arith, exists, ◌==◌, Text, number_key, text_key,
}
use dokkup.Common.Strings.{codes}
use dokkup.Installer.Site.{Reachability, at_domain, at_ip_with_tls, at_ip_plain}
use dokkup.Proxy.{
  VhostConfig, vhost_header, redirect_server, tls_server, ip_tls_server, ip_plain_server,
  proxy_body, upstream_of, tls_port_of, servers,
}
use dokkup.Proxy.Reading.{
  Token, word, take_byte, scan_line, ended_word, semicolon, is_special, Server, read_lines,
  at_start, Reading, read_tokens, IsWord, Written, proxied, redirected,
}
use dokkup.Secret.{digits, print_number}
use dokkup.Unit.{default_listen, or_default}

-- a byte that is not special is one of the word
plain_byte :
    (fresh : Bool) (c : ℕ) (anew : List Token) (w : Text) (ts : List Token)
    → is_special c ≡ false
    → take_byte fresh c anew (w, ts) ≡ (c ∷ w, ts)
plain_byte fresh c anew w ts h = ground arith

-- a word with no special byte in it, where one is under way
goes_on :
    (v rest : Text) (ts : List Token)
    → exists is_special v ≡ false
    → (scan_line rest).1 ≡ ([], ts)
    → (scan_line (v ++ rest)).1 ≡ (v, ts)
goes_on [] rest ts h k = k
goes_on (c ∷ v) rest ts h k =
    ap (take_byte false c (scan_line (v ++ rest)).0) (goes_on v rest ts (ground arith) k)
    ∙ plain_byte false c (scan_line (v ++ rest)).0 v ts (ground arith)

-- and where none is
begins :
    (v rest : Text) (ts : List Token)
    → IsWord v
    → (scan_line rest).1 ≡ ([], ts)
    → (scan_line (v ++ rest)).0 ≡ word v ∷ ts
begins [] rest ts (n, h) k = cc
begins (c ∷ v) rest ts (n, h) k =
    ap (λ r. ended_word (take_byte true c (scan_line (v ++ rest)).0 r))
      (goes_on v rest ts (ground arith) k)
    ∙ ap ended_word (plain_byte true c (scan_line (v ++ rest)).0 v ts (ground arith))

digit_plain : (m : ℕ) → is_special (b'0' + m % 10) ≡ false
digit_plain m = ground arith

digits-IsPlain :
    (fuel n : ℕ) (s : Text)
    → exists is_special s ≡ false
    → exists is_special (digits fuel n s) ≡ false
digits-IsPlain zero n s h = h
digits-IsPlain (suc fuel) n s h =
    ground (arith, digits-IsPlain fuel (n / 10) ((b'0' + n % 10) ∷ s), digit_plain n)

digits-some : (fuel n : ℕ) (s : Text) → (s == []) ≡ false → (digits fuel n s == []) ≡ false
digits-some zero n s h = h
digits-some (suc fuel) n s h = ground (arith, digits-some fuel (n / 10) ((b'0' + n % 10) ∷ s))

pub print_number-IsWord : (n : ℕ) → IsWord (print_number n)
print_number-IsWord n =
    (ground (arith, digits-some 19 (n / 10) ((b'0' + n % 10) ∷ [])), digits-IsPlain 20 n [] refl)

-- what the text says
abbrev pub tls_server_read : List Text → Text → Text → Server
tls_server_read listens name listen = record {
  listens = listens;
  names = name ∷ [];
  locations = record { prefix = codes "/"; handling = proxied listen } ∷ [];
}

abbrev pub redirect_server_read : Text → Text → Server
redirect_server_read name listen = record {
  listens = codes "[::]:80 " ∷ codes "80 " ∷ [];
  names = name ∷ [];
  locations =
      record { prefix = codes "/"; handling = redirected }
      ∷ record { prefix = challenge_path; handling = proxied listen }
      ∷ [];
}

abbrev pub plain_server_read : Text → Text → Server
plain_server_read name listen = record {
  listens = codes "[::]:80 " ∷ codes "80 " ∷ [];
  names = name ∷ [];
  locations = record { prefix = codes "/"; handling = proxied listen } ∷ [];
}

abbrev pub servers_read : Reachability → VhostConfig → List Server
servers_read at_domain cfg =
    tls_server_read (codes "[::]:443 ssl " ∷ codes "443 ssl " ∷ []) cfg.domain (upstream_of cfg)
    ∷ redirect_server_read cfg.domain (upstream_of cfg)
    ∷ []
servers_read at_ip_with_tls cfg =
    let printed : Text = print_number (tls_port_of cfg) in
    tls_server_read
      ((codes "[::]:" ++ (printed ++ codes " ssl ")) ∷ (printed ++ codes " ssl ") ∷ []) (codes "_")
      (upstream_of cfg)
    ∷ []
servers_read at_ip_plain cfg = plain_server_read cfg.ip_address (upstream_of cfg) ∷ []

abbrev pub IsPlain : Text → Type 0
IsPlain s = exists is_special s ≡ false

abbrev drop_lines : ℕ → List Text → List Text
drop_lines zero ls = ls
drop_lines (suc n) [] = []
drop_lines (suc n) (l ∷ ls) = drop_lines n ls

abbrev line_at : ℕ → List Text → Text
line_at n [] = []
line_at zero (l ∷ ls) = l
line_at (suc n) (l ∷ ls) = line_at n ls

-- the lines up to one, and that one by its tokens
through :
    (n : ℕ) (ls : List Text) (r : Reading) (ts : List Token)
    → (scan_line (line_at n ls)).0 ≡ ts
    → read_lines ls r
      ≡ read_lines (drop_lines (suc n) ls) (read_tokens ts (read_lines (take n ls) r))
unfolding read_lines
through zero [] r ts h = rw (sym h) refl
through zero (l ∷ ls) r ts h = rw h refl
through (suc n) [] r ts h = rw (sym h) refl
through (suc n) (l ∷ ls) r ts h = through n ls (read_tokens (scan_line l).0 r) ts h

named_line :
    (v : Text)
    → IsWord v
    → (scan_line (codes "    server_name " ++ (v ++ codes ";"))).0
      ≡ word (codes "server_name") ∷ word v ∷ semicolon ∷ []
named_line v h = rw (begins v (codes ";") (semicolon ∷ []) h refl) refl

proxy_pass_word :
    (s : Text)
    → (scan_line (codes "        proxy_pass " ++ s)).0 ≡ word (codes "proxy_pass") ∷ (scan_line s).0
proxy_pass_word s = refl

listen_word :
    (s : Text)
    → (scan_line (codes "    listen      " ++ s)).0 ≡ word (codes "listen") ∷ (scan_line s).0
listen_word s = refl

upstream_line :
    (v : Text)
    → IsPlain v
    → (scan_line (codes "        proxy_pass http://" ++ (v ++ codes ";"))).0
      ≡ word (codes "proxy_pass") ∷ word (codes "http://" ++ v) ∷ semicolon ∷ []
upstream_line v h =
    proxy_pass_word (codes "http://" ++ (v ++ codes ";"))
    ∙ ap (λ ts. word (codes "proxy_pass") ∷ ts)
        (begins (codes "http://" ++ v) (codes ";") (semicolon ∷ []) (refl, h) refl)

listen_line :
    (v : Text)
    → IsWord v
    → (scan_line (codes "    listen      " ++ (v ++ codes " ssl;"))).0
      ≡ word (codes "listen") ∷ word v ∷ word (codes "ssl") ∷ semicolon ∷ []
listen_line v h =
    listen_word (v ++ codes " ssl;")
    ∙ ap (λ ts. word (codes "listen") ∷ ts)
        (begins v (codes " ssl;") (word (codes "ssl") ∷ semicolon ∷ []) h refl)

listen_line_6 :
    (v : Text)
    → IsPlain v
    → (scan_line (codes "    listen      [::]:" ++ (v ++ codes " ssl;"))).0
      ≡ word (codes "listen") ∷ word (codes "[::]:" ++ v) ∷ word (codes "ssl") ∷ semicolon ∷ []
listen_line_6 v h =
    listen_word (codes "[::]:" ++ (v ++ codes " ssl;"))
    ∙ ap (λ ts. word (codes "listen") ∷ ts)
        (begins (codes "[::]:" ++ v) (codes " ssl;") (word (codes "ssl") ∷ semicolon ∷ []) (refl, h)
          refl)

or_default-IsPlain : (w d : Text) → IsPlain w → IsPlain d → IsPlain (or_default w d)
or_default-IsPlain [] d h k = k
or_default-IsPlain (c ∷ w) d h k = h

-- where a file has been read
abbrev pub done : List Server → Reading
done ss = record { words = []; blocks = []; servers = ss }

read_domain :
    (domain listen : Text)
    → IsWord domain
    → IsPlain listen
    → read_lines
        (vhost_header
          ++ ((redirect_server domain listen ++ tls_server domain) ++ proxy_body listen))
        at_start
      ≡ done (
          tls_server_read (codes "[::]:443 ssl " ∷ codes "443 ssl " ∷ []) domain listen
          ∷ redirect_server_read domain listen
          ∷ [])
unfolding vhost_header redirect_server tls_server proxy_body read_lines
read_domain domain listen h g =
    let ls : List Text =
      vhost_header ++ ((redirect_server domain listen ++ tls_server domain) ++ proxy_body listen) in
    let names = word (codes "server_name") ∷ word domain ∷ semicolon ∷ [] in
    let passes = word (codes "proxy_pass") ∷ word (codes "http://" ++ listen) ∷ semicolon ∷ [] in
    let ls1 : List Text = drop_lines 14 ls in
    let ls2 : List Text = drop_lines 17 ls in
    let ls3 : List Text = drop_lines 27 ls in
    let r1 : Reading = read_tokens names (read_lines (take 13 ls) at_start) in
    let r2 : Reading = read_tokens passes (read_lines (take 2 ls1) r1) in
    let r3 : Reading = read_tokens names (read_lines (take 9 ls2) r2) in
    through 13 ls at_start names (named_line domain h)
    ∙ (through 2 ls1 r1 passes (upstream_line listen g)
        ∙ (through 9 ls2 r2 names (named_line domain h)
            ∙ through 8 ls3 r3 passes (upstream_line listen g)))

read_ip_tls :
    (printed listen : Text)
    → IsWord printed
    → IsPlain listen
    → read_lines (vhost_header ++ (ip_tls_server printed ++ proxy_body listen)) at_start
      ≡ done (
          tls_server_read
            ((codes "[::]:" ++ (printed ++ codes " ssl ")) ∷ (printed ++ codes " ssl ") ∷ [])
            (codes "_")
            listen
          ∷ [])
unfolding vhost_header ip_tls_server proxy_body read_lines
read_ip_tls printed listen h g =
    let ls : List Text = vhost_header ++ (ip_tls_server printed ++ proxy_body listen) in
    let opens = word (codes "listen") ∷ word printed ∷ word (codes "ssl") ∷ semicolon ∷ [] in
    let opens_6 =
      word (codes "listen")
      ∷ word (codes "[::]:" ++ printed)
      ∷ word (codes "ssl")
      ∷ semicolon
      ∷ [] in
    let passes = word (codes "proxy_pass") ∷ word (codes "http://" ++ listen) ∷ semicolon ∷ [] in
    let ls1 : List Text = drop_lines 12 ls in
    let ls2 : List Text = drop_lines 13 ls in
    let r1 : Reading = read_tokens opens (read_lines (take 11 ls) at_start) in
    let r2 : Reading = read_tokens opens_6 (read_lines (take 0 ls1) r1) in
    through 11 ls at_start opens (listen_line printed h)
    ∙ (through 0 ls1 r1 opens_6 (listen_line_6 printed h.1)
        ∙ through 9 ls2 r2 passes (upstream_line listen g))

read_ip_plain :
    (address listen : Text)
    → IsWord address
    → IsPlain listen
    → read_lines (vhost_header ++ (ip_plain_server address ++ proxy_body listen)) at_start
      ≡ done (plain_server_read address listen ∷ [])
unfolding vhost_header ip_plain_server proxy_body read_lines
read_ip_plain address listen h g =
    let ls : List Text = vhost_header ++ (ip_plain_server address ++ proxy_body listen) in
    let names = word (codes "server_name") ∷ word address ∷ semicolon ∷ [] in
    let passes = word (codes "proxy_pass") ∷ word (codes "http://" ++ listen) ∷ semicolon ∷ [] in
    let ls1 : List Text = drop_lines 14 ls in
    let r1 : Reading = read_tokens names (read_lines (take 13 ls) at_start) in
    through 13 ls at_start names (named_line address h)
    ∙ through 4 ls1 r1 passes (upstream_line listen g)

pub upstream_of-IsPlain : (cfg : VhostConfig) → IsPlain cfg.upstream → IsPlain (upstream_of cfg)
upstream_of-IsPlain cfg h = or_default-IsPlain cfg.upstream default_listen h refl

pub servers-done :
    (how : Reachability) (cfg : VhostConfig)
    → Written how cfg
    → read_lines (vhost_header ++ (servers how cfg ++ proxy_body (upstream_of cfg))) at_start
      ≡ done (servers_read how cfg)
unfolding servers
servers-done at_domain cfg (d, u) =
    read_domain cfg.domain (upstream_of cfg) d (upstream_of-IsPlain cfg u)
servers-done at_ip_with_tls cfg (d, u) =
    read_ip_tls (print_number (tls_port_of cfg)) (upstream_of cfg)
      (print_number-IsWord (tls_port_of cfg)) (upstream_of-IsPlain cfg u)
servers-done at_ip_plain cfg (a, u) =
    read_ip_plain cfg.ip_address (upstream_of cfg) a (upstream_of-IsPlain cfg u)
