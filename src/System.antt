-- ===== src/System.antt =====
-- The host that install and uninstall change: what is on the disk, the service account and the service,
-- and the calls of internal/host/tools.go, internal/service/systemctl.go and the `os` package on them.
-- A call can fail; the parameter `Tools` says which do.
pub mod Files
pub mod Sudoers
use dokkup.Common.{
  ℕ, ◌+◌, Bool, true, false, not, ◌&&◌, Option, none, some, [], if◌then◌else◌, ◌==◌, Text,
  number_key, text_key,
}
use dokkup.Places.{Place, binary, within, place_key}

-- The content at each path, a directory being an empty text; whether the account and its group are
-- there and the account is a member of dokku's group; the service, and which binary its process runs.
pub record System : Type 0 where
  pub files : Place → Option Text
  pub user : Bool
  pub group : Bool
  pub member : Bool
  pub enabled : Bool
  pub running : Option Text
  pub tick : ℕ

-- `fails n` says whether the n-th call fails, and `fails_late n` whether it fails where it only adjusts
-- what an earlier one made: chmod, chown and the usermod after useradd. `spared n p` says whether an
-- os.RemoveAll that fails then left `p`, `torn n c` what an os.WriteFile that fails then makes of `c`;
-- `shared_group` whether the account's group has other members, with which userdel leaves it.
pub record Tools : Type 0 where
  pub fails : ℕ → Bool
  pub fails_late : ℕ → Bool
  pub spared : ℕ → Place → Bool
  pub torn : ℕ → Option Text → Option Text
  pub shared_group : Bool

abbrev pub ticked : System → System
ticked s = record s { tick = s.tick + 1 }

-- a call that changes nothing, or whose change is `change`
abbrev pub run_tool : Tools → (System → System) → System → Bool × System
run_tool f change s = if f.fails s.tick then (false, ticked s) else (true, change (ticked s))

-- a call that adjusts what is there
abbrev pub adjust : Tools → System → Bool × System
adjust f s = (not (f.fails_late s.tick), ticked s)

-- what is done next, unless there was an error
abbrev pub and_then {ℓ} : {A : Type ℓ} → (A → Bool × A) → Bool × A → Bool × A
and_then next (true, s) = next s
and_then next (false, s) = (false, s)

abbrev pub place : Place → Option Text → System → System
place p content s = record s { files = λ q. if p == q then content else s.files q }

abbrev pub stands : Place → System → Bool
stands p s = elim (s.files p) [ none ↦ false | some _ ↦ true ]

-- os.Remove, with whether there was something; none where it fails
abbrev pub remove : Tools → Place → System → Option Bool × System
remove f p s =
    if not (stands p s)
    then (some false, ticked s)
    else if f.fails s.tick
    then (none, ticked s)
    else (some true, place p none (ticked s))

abbrev clear : Place → (Place → Bool) → System → System
clear p spared s = record s {
  files = λ q. if within p q && not (spared q) then none else s.files q;
}

-- os.RemoveAll
abbrev pub remove_all : Tools → Place → System → Bool × System
remove_all f p s =
    if f.fails s.tick
    then (false, clear p (f.spared s.tick) (ticked s))
    else (true, clear p (λ q. false) (ticked s))

-- Tools.RemoveUser, with whether there was one; none where it fails, as it does while a process runs as
-- the account. userdel takes the group along where nobody else is in it.
abbrev pub remove_user : Tools → System → Option Bool × System
remove_user f s =
    if f.fails s.tick
    then (none, ticked s)
    else if not s.user
    then (some false, ticked s)
    else elim s.running [
      | some _ ↦ (none, ticked s)
      | none ↦ (
        some true,
        record (ticked s) { user = false; group = s.group && f.shared_group; member = false },
      )
    ]

-- Tools.RemoveGroup, with whether there was one; none where it fails, as it does for the group of an
-- account that is there
abbrev pub remove_group : Tools → System → Option Bool × System
remove_group f s =
    if f.fails s.tick
    then (none, ticked s)
    else if not s.group
    then (some false, ticked s)
    else if s.user
    then (none, ticked s)
    else (some true, record (ticked s) { group = false })

-- Systemctl.Disable
abbrev pub disable : Tools → System → Bool × System
disable f s = run_tool f (λ t. record t { enabled = false; running = none }) s

-- os.WriteFile
abbrev pub write_file : Tools → Place → Text → System → Bool × System
write_file f p content s =
    if f.fails s.tick
    then (false, place p (f.torn s.tick (s.files p)) (ticked s))
    else (true, place p (some content) (ticked s))

-- os.Rename, of a file that is there
abbrev pub rename_file : Tools → Place → Place → System → Bool × System
rename_file f p q s = run_tool f (λ t. place p none (place q (s.files p) t)) s

-- Tools.EnsureGroup
abbrev pub ensure_group : Tools → System → Bool × System
ensure_group f s = run_tool f (λ t. record t { group = true }) s

-- Tools.EnsureUser: whether it created the account, and whether it returned an error
abbrev pub ensure_user : Tools → System → Bool × (Bool × System)
ensure_user f s =
    if f.fails s.tick
    then (false, (false, ticked s))
    else if s.user
    then (false, adjust f (ticked s))
    else let (added, s') = run_tool f (λ t. record t { user = true }) (ticked s) in
      (added, and_then (adjust f) (added, s'))

-- Tools.JoinGroup
abbrev pub join_group : Tools → System → Bool × System
join_group f s = run_tool f (λ t. record t { member = true }) s

-- Tools.EnsureDir: MkdirAll, Chmod and Chown
abbrev pub ensure_dir : Tools → Place → System → Bool × System
ensure_dir f p s =
    and_then (adjust f)
      (and_then (adjust f) (run_tool f (λ t. if stands p s then t else place p (some []) t) s))

-- Tools.WriteSudoers, which renames a file that it wrote and checked beside the place
abbrev pub write_sudoers : Tools → Place → Text → System → Bool × System
write_sudoers f p rule s = run_tool f (place p (some rule)) s

-- Systemctl.Enable, which starts the service where it does not run
abbrev pub enable : Tools → System → Bool × System
enable f s =
    run_tool f
      (λ t. record t {
        enabled = true;
        running = elim t.running [ none ↦ t.files binary | some b ↦ some b ];
      })
      s

-- Systemctl.Restart
abbrev pub restart_unit : Tools → System → Bool × System
restart_unit f s = run_tool f (λ t. record t { running = t.files binary }) s
