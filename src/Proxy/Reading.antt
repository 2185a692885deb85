-- ===== src/Proxy/Reading.antt =====
-- The file of internal/proxy/proxy.go by the syntax of nginx: words, semicolons and blocks, the comments
-- left out. A quotation mark, a backslash or a dollar is here a byte like any other, so that a value with
-- one in it is not a word. What is read is which servers the file has, and what they do with a path.
use dokkup.Common.{
  ℕ, ◌≡◌, Bool, true, false, ◌&&◌, ◌||◌, Option, none, some, List, [], ◌∷◌, ◌++◌, if◌then◌else◌,
  contains, exists, ◌==◌, Text, number_key, text_key, ltb, length,
}
use dokkup.Common.Strings.{codes, has_prefix, trim_prefix, is_space}
use dokkup.Installer.Site.{Reachability, at_domain, at_ip_with_tls, at_ip_plain}
use dokkup.Proxy.{VhostConfig}
use dokkup.Release.{split_on}

pub data Token : Type 0 where
  word : Text → Token
  semicolon opening closing : Token

-- the word that is under way, if there is one
abbrev pub ended_word : Text × List Token → List Token
ended_word ([], ts) = ts
ended_word (c ∷ w, ts) = word (c ∷ w) ∷ ts

-- one byte, before the tokens of the text after it, and the word with which that may begin; `fresh` says
-- that no word is under way, which is where # begins a comment and } closes a block
abbrev pub take_byte : (fresh : Bool) → ℕ → List Token → Text × List Token → Text × List Token
take_byte fresh c anew (w, ts) =
    if fresh && c == b'#'
    then ([], [])
    else if fresh && c == b'}'
    then ([], closing ∷ anew)
    else if is_space c
    then ([], anew)
    else if c == b';'
    then ([], semicolon ∷ anew)
    else if c == b'{'
    then ([], opening ∷ anew)
    else (c ∷ w, ts)

-- the tokens of a text, where no word is under way and where one is
abbrev pub scan_line : Text → List Token × (Text × List Token)
scan_line [] = ([], ([], []))
scan_line (c ∷ s) =
    let r = scan_line s in (ended_word (take_byte true c r.0 r.1), take_byte false c r.0 r.1)

-- a byte that may end a word, or that nginx gives a meaning in one
abbrev pub is_special : ℕ → Bool
is_special c = is_space c || contains c (codes ";{}#\"'\\$")

-- what a location does with a request
pub data Handling : Type 0 where
  proxied : Text → Handling
  redirected unset : Handling

pub record Location : Type 0 where
  pub prefix : Text
  pub handling : Handling

-- an address is the parameters of its `listen`, with a space after each
pub record Server : Type 0 where
  pub listens : List Text
  pub names : List Text
  pub locations : List Location

-- the words of the directive that is under way, those before each open block, innermost first, and the
-- servers so far, the last one first
pub record Reading : Type 0 where
  pub words : List Text
  pub blocks : List (List Text)
  pub servers : List Server

abbrev pub on_current : (Server → Server) → List Server → List Server
on_current f [] = []
on_current f (s ∷ ss) = f s ∷ ss

abbrev pub on_location : Handling → List Location → List Location
on_location h [] = []
on_location h (l ∷ ls) = record l { handling = h } ∷ ls

abbrev pub spaced : List Text → Text
spaced [] = []
spaced (w ∷ ws) = w ++ b' ' ∷ spaced ws

abbrev pub last_word : List Text → Text
last_word [] = []
last_word (w ∷ []) = w
last_word (w ∷ v ∷ ws) = last_word (v ∷ ws)

abbrev pub handled : Handling → Server → Server
handled h s = record s { locations = on_location h s.locations }

-- a directive in the block that is open
abbrev pub directive : List (List Text) → List Text → List Server → List Server
directive ((block ∷ _) ∷ _) (name ∷ values) ss =
    if block == codes "server" && name == codes "listen"
    then on_current (λ s. record s { listens = spaced values ∷ s.listens }) ss
    else if block == codes "server" && name == codes "server_name"
    then on_current (λ s. record s { names = values ++ s.names }) ss
    else if block == codes "location" && name == codes "proxy_pass"
    then on_current (handled (proxied (trim_prefix (last_word values) (codes "http://")))) ss
    else if block == codes "location" && name == codes "return"
    then on_current (handled redirected) ss
    else ss
directive _ _ ss = ss

-- the beginning of a block
abbrev pub begun : List Text → List Server → List Server
begun [] ss = ss
begun (name ∷ values) ss =
    if name == codes "server"
    then record { listens = []; names = []; locations = [] } ∷ ss
    else if name == codes "location"
    then on_current
        (λ s. record s {
          locations = record { prefix = last_word values; handling = unset } ∷ s.locations;
        })
        ss
    else ss

abbrev pub outer : List (List Text) → List (List Text)
outer [] = []
outer (b ∷ bs) = bs

abbrev pub read_token : Token → Reading → Reading
read_token (word w) r = record r { words = r.words ++ w ∷ [] }
read_token semicolon r = record {
  words = [];
  blocks = r.blocks;
  servers = directive r.blocks r.words r.servers;
}
read_token opening r = record {
  words = [];
  blocks = r.words ∷ r.blocks;
  servers = begun r.words r.servers;
}
read_token closing r = record { words = []; blocks = outer r.blocks; servers = r.servers }

abbrev pub read_tokens : List Token → Reading → Reading
read_tokens [] r = r
read_tokens (t ∷ ts) r = read_tokens ts (read_token t r)

-- no word goes on over the end of a line
unfoldable pub read_lines : List Text → Reading → Reading
read_lines [] r = r
read_lines (l ∷ ls) r = read_lines ls (read_tokens (scan_line l).0 r)

abbrev pub at_start : Reading
at_start = record { words = []; blocks = []; servers = [] }

unfoldable pub servers_of : Text → List Server
unfolding read_lines
servers_of text = (read_lines (split_on 10 text) at_start).servers

-- the location with the longest prefix
abbrev pub longer : Option Location → Location → Location
longer none l = l
longer (some k) l = if ltb (length l.prefix) (length k.prefix) then k else l

abbrev pub matching_location : Text → List Location → Option Location
matching_location path [] = none
matching_location path (l ∷ ls) =
    let rest = matching_location path ls in
    if has_prefix path l.prefix then some (longer rest l) else rest

abbrev pub handling_of : Option Location → Handling
handling_of none = unset
handling_of (some l) = l.handling

-- what the file's server that listens at an address and has the name does with a path
abbrev pub serves : List Server → Text → Text → Text → Handling
serves [] address name path = unset
serves (s ∷ ss) address name path =
    let rest = serves ss address name path in
    if contains address s.listens && contains name s.names
    then handling_of (matching_location path s.locations)
    else rest

-- a value that is one word
abbrev pub IsWord : Text → Type 0
IsWord s = ((s == []) ≡ false) × (exists is_special s ≡ false)

-- the name of the server: `_` at an address with a port of its own
abbrev pub name_of : Reachability → VhostConfig → Text
name_of at_domain cfg = cfg.domain
name_of at_ip_with_tls cfg = codes "_"
name_of at_ip_plain cfg = cfg.ip_address

-- The name is one word, and the upstream, where there is one, has no special byte.
abbrev pub Written : Reachability → VhostConfig → Type 0
Written how cfg = IsWord (name_of how cfg) × (exists is_special cfg.upstream ≡ false)

abbrev pub IsPublishable : VhostConfig → Type 0
IsPublishable cfg = Written cfg.how cfg
