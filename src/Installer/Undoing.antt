-- ===== src/Installer/Undoing.antt =====
-- internal/cli/install.go: the undo steps, the unwinding of a run that fails, and the whole of `install`.
use dokkup.Common.{Bool, true, false, Option, none, some, List, [], ◌∷◌, if◌then◌else◌, Text}
use dokkup.Installer.{
  Plan, Undo, undo_group, undo_user, undo_service, undo_new_binary, undo_binary, undo_tree,
  undo_file, undo_vhost, undo_unit, Installing, attempt, removed_ok, change,
}
use dokkup.Places.{Place, binary, previous_binary, unit, vhost}
use dokkup.System.{
  System, Tools, ticked, adjust, and_then, stands, remove, remove_all, remove_user, remove_group,
  disable, write_file, rename_file,
}

-- restorer: put a file back the way it was found
abbrev pub restore_file : Tools → Place → Option Text → System → Bool × System
restore_file f p none s = removed_ok (remove f p s)
restore_file f p (some content) s = and_then (adjust f) (write_file f p content s)

-- what an undo step does; its error is ignored
abbrev pub undo_one : Tools → Undo → System → System
undo_one f undo_group s = (remove_group f s).1
undo_one f undo_user s = (remove_user f s).1
undo_one f undo_service s = (disable f s).1
undo_one f undo_new_binary s = (remove f binary s).1
undo_one f undo_binary s =
    if stands previous_binary s then (rename_file f previous_binary binary s).1 else ticked s
undo_one f (undo_tree p) s = (remove_all f p s).1
undo_one f (undo_file p before_it) s = (restore_file f p before_it s).1
undo_one f (undo_vhost before_it) s = (and_then (attempt f) (restore_file f vhost before_it s)).1
undo_one f (undo_unit before_it) s = (and_then (attempt f) (restore_file f unit before_it s)).1

-- unwind, newest first
unfoldable pub unwind : Tools → List Undo → System → System
unwind f [] s = s
unwind f (u ∷ us) s = unwind f us (undo_one f u s)

-- What the host has of Dokku: its group, its account and its binary.
pub record Dokku : Type 0 where
  pub dokku_group : Bool
  pub dokku_user : Bool
  pub dokku_binary : Bool

-- a look-up whose answer is `there`
abbrev look_up : Tools → Bool → System → Bool × System
look_up f there s = and_then (λ t. (there, t)) (attempt f s)

-- requireDokku
unfoldable pub require_dokku : Tools → Dokku → System → Bool × System
require_dokku f d s =
    and_then (look_up f d.dokku_binary)
      (and_then (look_up f d.dokku_user) (look_up f d.dokku_group s))

-- What `install` returns: nil, an error before the first change, or one of the change, after unwinding.
pub data Installation : Type 0 where
  in_place not_begun unwound : Installation

abbrev pub conclude_change : Tools → Bool × Installing → Installation × System
conclude_change g (true, (s, us)) = (in_place, s)
conclude_change g (false, (s, us)) = (unwound, unwind g us s)

abbrev pub begin_change : Tools → Tools → Plan → Bool × System → Installation × System
begin_change f g plan (false, s) = (not_begun, s)
begin_change f g plan (true, s) = conclude_change g (change f plan (s, []))

abbrev pub on_site : Tools → Tools → Option Plan → Bool × System → Installation × System
on_site f g none (_, s) = (not_begun, s)
on_site f g (some plan) r = begin_change f g plan (and_then (attempt f) r)

-- install, where `site` is what resolveSite returns; `f` says what fails until the unwinding and `g` what
-- fails in it
unfoldable pub install : Tools → Tools → Dokku → Option Plan → System → Installation × System
install f g d site s = on_site f g site (require_dokku f d s)
