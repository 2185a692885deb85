-- ===== src/Installer.antt =====
-- internal/cli/install.go: the steps that alter the host, what each records of how to undo it, and the
-- unwinding of a run that fails. What is printed and the modes of files are not modelled.
pub mod Undoing
pub mod Unwinding
pub mod Restoring
pub mod Steps
pub mod Staging
pub mod Leading
pub mod Program
pub mod Publishing
pub mod Returning
pub mod Outcomes
pub mod Site
use dokkup.Common.{ℕ, Bool, true, false, not, Option, none, some, List, ◌∷◌, if◌then◌else◌, Text}
use dokkup.Places.{
  Place, binary, previous_binary, staged_binary, unit, sudoers, vhost, vhost_staging,
  vhost_candidate, data_dir, tls_dir, tls_cert, tls_key,
}
use dokkup.System.{
  System, Tools, ticked, run_tool, adjust, and_then, place, stands, remove, write_file,
  ensure_group, ensure_user, join_group, ensure_dir, write_sudoers, enable, rename_file,
  restart_unit,
}

-- What a run installs: the executable, the sudoers rule, the virtual host, the unit and the certificate
-- with its key; whether the executable is the installed one already (sameFile); whether a health probe
-- and the look through the proxy succeed.
pub record Plan : Type 0 where
  pub self : Text
  pub self_is_installed : Bool
  pub rule : Text
  pub vhost_text : Text
  pub unit_text : Text
  pub pem : Option (Text × Text)
  pub healthy : ℕ → Bool
  pub reached : ℕ → Bool

-- undoStep: what its closure does, with what the closure captured
pub data Undo : Type 0 where
  undo_group undo_user undo_service undo_new_binary undo_binary : Undo
  undo_tree : Place → Undo
  undo_file : Place → Option Text → Undo
  undo_vhost undo_unit : Option Text → Undo

-- The host, and what the installer has to undo, newest first.
abbrev pub Installing : Type 0
Installing = System × List Undo

-- a call that has nothing to undo
abbrev pub lift : (System → Bool × System) → Installing → Bool × Installing
lift act (s, us) = let (ok, s') = act s in (ok, (s', us))

-- undoing, once a call has succeeded
abbrev pub undoing : Undo → List Undo → Bool × System → Bool × Installing
undoing u us (true, s) = (true, (s, u ∷ us))
undoing u us (false, s) = (false, (s, us))

abbrev pub undoing_if : Bool → Undo → List Undo → Bool × System → Bool × Installing
undoing_if true u us r = undoing u us r
undoing_if false u us (ok, s) = (ok, (s, us))

abbrev pub attempt : Tools → System → Bool × System
attempt f s = run_tool f (λ t. t) s

-- the first half of ensureAccount: the group
abbrev pub account_group : Tools → Installing → Bool × Installing
account_group f (s, us) =
    undoing_if (not s.group) undo_group us (and_then (ensure_group f) (attempt f s))

-- the second half: the user, where `created` says whether this run created it
abbrev pub account_user : Tools → Installing → Bool × Installing
account_user f (s, us) = let (created, r) = ensure_user f s in undoing_if created undo_user us r

-- ensureAccount
unfoldable pub ensure_account : Tools → Installing → Bool × Installing
ensure_account f x =
    and_then (lift (attempt f))
      (and_then (lift (join_group f)) (and_then (account_user f) (account_group f x)))

-- a round of the loop of ensureDataDir
abbrev pub data_dir_at : Tools → Place → Installing → Bool × Installing
data_dir_at f p (s, us) = undoing_if (not (stands p s)) (undo_tree p) us (ensure_dir f p s)

-- ensureDataDir
unfoldable pub ensure_data_dir : Tools → Installing → Bool × Installing
ensure_data_dir f x = and_then (data_dir_at f tls_dir) (data_dir_at f data_dir x)

-- ensureSudoers: MkdirAll, readIfExists, WriteSudoers and ProveSudo
unfoldable pub ensure_sudoers : Tools → Text → Installing → Bool × Installing
ensure_sudoers f rule (s, us) = and_then (lift (attempt f)) (
    undoing (undo_file sudoers (s.files sudoers)) us
      (and_then (write_sudoers f sudoers rule) (and_then (attempt f) (attempt f s))))

-- os.Remove, whose error is ignored
abbrev pub tidy : Tools → Place → Bool × System → Bool × System
tidy f p (ok, s) = (ok, (remove f p s).1)

abbrev pub or_tidy : Tools → Place → Bool × System → Bool × System
or_tidy f p (true, s) = (true, s)
or_tidy f p (false, s) = tidy f p (false, s)

abbrev pub removed_ok : Option Bool × System → Bool × System
removed_ok (none, s) = (false, s)
removed_ok (some _, s) = (true, s)

-- the copy that is kept of the binary that is replaced: Remove, and Link
abbrev pub keep_previous : Tools → System → Bool × System
keep_previous f s =
    and_then (λ t. run_tool f (place previous_binary (s.files binary)) t)
      (removed_ok (remove f previous_binary s))

abbrev pub keep_if : Bool → Tools → System → Bool × System
keep_if true f s = keep_previous f s
keep_if false f s = (true, s)

-- installBinary: MkdirAll, copyFile, Remove and Link, and Rename
unfoldable pub install_binary : Tools → Plan → Installing → Bool × Installing
install_binary f plan (s, us) =
    if plan.self_is_installed
    then (true, (s, us))
    else undoing (if stands binary s then undo_binary else undo_new_binary) us (
        and_then (λ t. or_tidy f staged_binary (rename_file f staged_binary binary t))
          (and_then (λ t. or_tidy f staged_binary (keep_if (stands binary s) f t))
            (and_then (λ t. or_tidy f staged_binary (write_file f staged_binary plan.self t))
              (attempt f s))))

-- writeOwnedFile: MkdirAll, readIfExists, WriteFile and Chmod
abbrev pub write_owned_file : Tools → Place → Text → System → Bool × System
write_owned_file f p content s =
    and_then (adjust f) (and_then (write_file f p content) (and_then (attempt f) (attempt f s)))

-- replaceFile
unfoldable pub replace_file : Tools → Place → Text → Installing → Bool × Installing
replace_file f p content (s, us) =
    undoing (undo_file p (s.files p)) us (write_owned_file f p content s)

-- installCertificate
unfoldable pub install_certificate : Tools → Option (Text × Text) → Installing → Bool × Installing
install_certificate f none x = (true, x)
install_certificate f (some (cert, key)) x =
    and_then (replace_file f tls_key key) (replace_file f tls_cert cert x)

-- the write under a name that nginx does not read, and the rename
abbrev pub stage_vhost : Tools → Text → System → Bool × System
stage_vhost f text s =
    and_then (λ t. or_tidy f vhost_staging (rename_file f vhost_staging vhost t))
      (write_file f vhost_staging text s)

-- the deferred removal of the candidate
abbrev pub drop_candidate : Tools → Bool × Installing → Bool × Installing
drop_candidate f (ok, (s, us)) = (ok, ((remove f vhost_candidate s).1, us))

-- installVhost once its candidate is written: CheckProxyFragment, readIfExists, MkdirAll, the staged
-- write and CheckProxy
abbrev pub checked_vhost : Tools → Text → Installing → Bool × Installing
checked_vhost f text (s, us) = and_then (lift (attempt f)) (
    undoing (undo_vhost (s.files vhost)) us
      (and_then (stage_vhost f text) (and_then (attempt f) (and_then (attempt f) (attempt f s)))))

abbrev pub after_candidate : Tools → Text → List Undo → Bool × System → Bool × Installing
after_candidate f text us (false, s) = (false, (s, us))
after_candidate f text us (true, s) = drop_candidate f (checked_vhost f text (s, us))

-- installVhost
unfoldable pub install_vhost : Tools → Text → Installing → Bool × Installing
install_vhost f text (s, us) = after_candidate f text us (write_file f vhost_candidate text s)

-- installUnit
unfoldable pub install_unit : Tools → Text → Installing → Bool × Installing
install_unit f text (s, us) =
    and_then (lift (attempt f))
      (undoing (undo_unit (s.files unit)) us (write_owned_file f unit text s))

abbrev pub restart_if : Bool → Tools → System → Bool × System
restart_if true f s = restart_unit f s
restart_if false f s = (true, s)

abbrev pub is_running : Option Text → Bool
is_running none = false
is_running (some _) = true

-- startService: IsActive, Enable, Restart where it was running, and the wait for its answer
unfoldable pub start_service : Tools → Plan → Installing → Bool × Installing
start_service f plan (s, us) = and_then (lift (λ t. (plan.healthy t.tick, ticked t))) (
    and_then (lift (restart_if (is_running s.running) f))
      (undoing undo_service us (and_then (enable f) (attempt f s))))

-- confirmSite
abbrev pub confirm_site : Plan → Installing → Bool × Installing
confirm_site plan x = lift (λ t. (plan.reached t.tick, ticked t)) x

-- change, up to the last step whose failure is one of the installation
unfoldable pub change : Tools → Plan → Installing → Bool × Installing
change f plan x =
    let account = and_then (ensure_data_dir f) (ensure_account f x) in
    let program =
      and_then (install_binary f plan) (and_then (ensure_sudoers f plan.rule) account) in
    let site = and_then (install_certificate f plan.pem) program in
    let units =
      and_then (install_unit f plan.unit_text) (and_then (install_vhost f plan.vhost_text) site) in
    and_then (confirm_site plan)
      (and_then (start_service f plan) (and_then (lift (attempt f)) units))
