-- ===== src/Lib.antt =====
-- dokkup administers a Dokku host from the browser. This library models the program's core: the
-- database of accounts and sessions (internal/store), the HTTP server in front of it
-- (internal/server), the update of the program by a released binary (internal/release and
-- internal/cli/update.go), and its installation on a host and removal from it (internal/cli/install.go
-- and uninstall.go, with internal/authn, internal/host and internal/hostpaths), and the
-- certificate that the running service obtains and renews (internal/acme).
--
-- The parts and how they meet. The server's handlers (sign-in, sign-out, setup, the health and session
-- reports) stand behind two guards, one for the CSRF header and one for the session, and call the
-- store. The store keeps four tables (operators, sessions, setup tokens, the audit trail) in SQLite.
-- A host has no owner until a setup token is redeemed; from then on operators sign in by password,
-- and a session is the hash of a random token that only the browser holds. An update is a command of
-- its own: it compares versions, fetches and verifies a binary, swaps it in, restarts the service, and
-- waits for the server's health report to name the new version, or else rolls back. An installation
-- makes an account, directories, a sudoers rule, a binary, a certificate, a virtual host and a unit, one
-- after the other, and records for each how to undo it; a removal takes the same things away, once the
-- operator has said what becomes of the data and has confirmed who they are. The service keeps its
-- certificate current in a loop: it looks at the disk, orders a certificate when the one there will not
-- do, answers the challenges of the authority from memory, and writes the key and the certificate.
--
-- Files:
--   Common and its children: tests, equality, lists, sorting and texts that the parts share. A Go
--     string is a list of bytes; strings.ToLower and strings.TrimSpace are modelled on ASCII text.
--   Store/Schema (Rows, Statements): internal/store/migrate.go, and the SQL statements of the package
--     as functions on a record of four lists of rows.
--   Store/Sql: statements, row counts, the clock and transactions, as actions that are given an
--     engine and a world and answer a result and a world.
--   Store/Operators, Store/Sessions, Store/SetupTokens, Store/Audit: internal/store/operator.go,
--     session.go, setuptoken.go and audit.go, one action per method (Operator is operator_by_id,
--     CreateOperator is create_invited, Session is session_by_hash, HasOwner is is_owned, Record is
--     record_entry, Owner is the_owner, Operators is all_operators).
--   Store/Sessions/Book: the sessions as a map from a token's hash to whose session it is and until
--     when; Store/Sessions/Refinement: the methods of session.go against that map.
--   Store/Migrations: migrate and apply of internal/store/migrate.go, over any list of migrations; a
--     schema is the sequence of the statements that made it.
--   Store/History: sequences of calls of the methods that write, each in any state.
--   Store/Preservation, Store/Respects, Store/Operations: rules for the invariants of the methods, from
--     those of the statements. Store/Valid: the invariant of the tables.
--   Server/RateLimit: internal/server/ratelimit.go.
--   Server/Http, Server/Handler: requests, answers and the state of internal/server/server.go, and
--     handlers as actions that may answer early.
--   Server/SignIn, Server/SignOut, Server/Setup: internal/server/session.go and setup.go.
--   Server/Guards, Server/Status, Server/Routes: internal/server/middleware.go and server.go.
--   Release, Release/Fetch: internal/release/release.go (parseVersion, compare), verify.go and fetch.go;
--     Release/Transfer: download of fetch.go, over what the Reads of a body meet.
--   Secret, Secret/Base64: internal/secret/secret.go (HashPassword, VerifyPassword, parsePHC).
--   Updater: internal/cli/update.go, the method update and what it calls, over the files in the
--     directory of the binary. A file is its content.
--   Places: internal/hostpaths/hostpaths.go. System: the disk, the account and the service of a host, and
--     the calls that change them (internal/host/tools.go, internal/service/systemctl.go and `os`).
--     System/Sudoers: WriteSudoers of internal/host/tools.go, call by call.
--   Terminal: yesOrNo and readLine of internal/cli/install.go, and internal/authn/authn.go.
--   Removal: internal/cli/uninstall.go. Its Steps, Laws, Outcomes, Again and Success are proofs.
--   Installer, Installer/Undoing: internal/cli/install.go from requireDokku to unwind; a closure that
--     undoes a step is a value of `Undo` with what it captured. Installer/Site: resolveSite of the same
--     file. The other children are proofs.
--   Dokku: internal/dokku/exec.go and the checks of names of dokku.go; the start of a process is the
--     answer of its model. Dokku/Stream: stream of exec.go, over the lines that the process writes. The
--     other children are proofs.
--   Acme/Disk, Acme/Attempt: the files of internal/acme/acme.go, writeFile, and how the methods meet
--     what is outside; Acme: the methods of Manager (Ensure is ensure, accountKey is own_key, write is
--     install_pair, Run is rounds, one call of Ensure after the other, and wait_after). The other
--     children are proofs.
--   Proxy: internal/proxy/proxy.go, the file of nginx as its lines; Proxy/Reading: such a file by the
--     words and blocks of nginx's syntax, which is no code of the program. The other children are proofs.
--   Unit: internal/service/unit.go. Command: setupTokenWrite of internal/cli/setuptoken.go.
--   Examples: a small host on which the conditional theorems are put to use.
--
-- Parameters. `Engine` stands for SQLite, its driver and the clock: which statements fail, whether a
-- row count can be read, what the clock says at each reading, and which key a new row gets. `IsEngine`
-- is what the program relies on: a new key is in no row and not 0, which is how a caller says that
-- nobody is signed in. `IsHealthy` is an engine on which no statement fails. `Secrets` stands for
-- internal/secret in the server; a draw is numbered by the moment at which it happens. `Derive` is
-- argon2.
-- `Origin` is the network, the digest and cosign; `Machine` the system calls, systemd and the health
-- endpoint, each numbered by how many have gone before. `Tools` says which calls of the host fail, and
-- `Invocation` holds the environment, the account database and what sudo answers. `Outside` is what
-- x509, DNS and the network say to an installation, and `Exterior` the certificate authority, the keys,
-- the clock and the disk of internal/acme; while a challenge is checked, the authority is given what the
-- program answers at each path.
--
-- Bounds. Times are nanoseconds since the epoch on the clock and milliseconds in the tables, as in the
-- code. The rate limiter's float64 tokens are scaled by the refill interval, so that they are whole
-- nanoseconds; float rounding is not modelled. The wait for a healthy service recurses on the number
-- of probes that its timeout leaves room for, and a number is printed by recursion on 20 digits, enough
-- for a number of 64 bits. A stream of log lines and a download recurse on fuel, and a theorem gives
-- the number of reads that is enough; no other definition runs on fuel.
--
-- Not modelled: opening the database file, the encoding of JSON and the limit on a body's size (a
-- handler is given the decoded body, or none), logging, what a command prints, the time that a password
-- check takes, the fixed security headers, the modes of files other than the sudoers rule, the wait of
-- `install` for a certificate and the token that it issues at its end, the other commands of
-- internal/cli, and the start of other programs. An account that another program makes between the
-- look-up and the useradd of EnsureUser is left out. In the model of an installation, writing the
-- sudoers rule is one step, though the real call may leave the file that it stages (System/Sudoers
-- says when), trying a virtual host leaves no file, though its wrapper may stay, making the parent of a
-- file changes nothing, and the service that is started writes nothing, though it migrates the database.
pub mod Common
pub mod Store
pub mod Server
pub mod Release
pub mod Updater
pub mod Secret
pub mod Places
pub mod System
pub mod Terminal
pub mod Removal
pub mod Installer
pub mod Unit
pub mod Dokku
pub mod Acme
pub mod Proxy
pub mod Command
mod Examples
