-- ===== src/Removal.antt =====
-- internal/cli/uninstall.go: what is decided and confirmed, and the removal after it. What is printed
-- is not modelled, but for the three lists of the report.
pub mod Laws
pub mod Outcomes
pub mod Success
pub mod Again
pub mod Steps
use dokkup.Common.{
  keep, Bool, true, false, not, Option, none, some, List, [], ◌∷◌, ◌++◌, if◌then◌else◌, ◌==◌,
  number_key, text_key,
}
use dokkup.Places.{
  Place, binary, previous_binary, unit, sudoers, vhost, data_dir, tls_dir, owned_places,
  conditional_places, place_key,
}
use dokkup.System.{
  System, and_then, stands, remove, remove_all, remove_user, remove_group, disable, Tools, run_tool,
}
use dokkup.Terminal.{
  Input, yes, no, nothing_typed, not_an_answer, yes_or_no, Invocation, confirm, Answer,
}

pub data Target : Type 0 where
  path_at : Place → Target
  the_service the_user the_group : Target

-- The lists that the uninstaller keeps.
pub record Report : Type 0 where
  pub removed : List Target
  pub kept : List Target
  pub failed : List Target

-- What uninstall returns: nil is `removed_all`, the others are its errors.
pub data Ending : Type 0 where
  removed_all incomplete undecided unconfirmed : Ending

abbrev pub Run : Type 0
Run = System × Report

abbrev pub note_removed : Target → Report → Report
note_removed t r = record r { removed = r.removed ++ t ∷ [] }

abbrev pub note_kept : Target → Report → Report
note_kept t r = record r { kept = r.kept ++ t ∷ [] }

abbrev pub failf : Target → Report → Report
failf t r = record r { failed = r.failed ++ t ∷ [] }

-- what a step adds to the report: whether there was something to remove, or none where that failed
abbrev pub noted : Target → Report → Option Bool × System → Run
noted t r (none, s) = (s, failf t r)
noted t r (some false, s) = (s, r)
noted t r (some true, s) = (s, note_removed t r)

-- removeFile
unfoldable pub remove_file : Tools → Place → Run → Run
remove_file f p (s, r) = noted (path_at p) r (remove f p s)

abbrev was_there : Bool × System → Option Bool × System
was_there (true, s) = (some true, s)
was_there (false, s) = (none, s)

-- removeTree
unfoldable pub remove_tree : Tools → Place → Run → Run
remove_tree f p (s, r) =
    if stands p s then noted (path_at p) r (was_there (remove_all f p s)) else (s, r)

-- CheckProxy, and the reload of nginx where it accepts the configuration; both only warn
abbrev reload_proxy : Tools → System → System
reload_proxy f s = (and_then (run_tool f (λ t. t)) (run_tool f (λ t. t) s)).1

abbrev warned : Tools → Option Bool × System → Option Bool × System
warned f (some true, s) = (some true, reload_proxy f s)
warned f (some false, s) = (some false, s)
warned f (none, s) = (none, s)

-- removeVhost
unfoldable pub remove_vhost : Tools → Run → Run
remove_vhost f (s, r) =
    if stands vhost s then noted (path_at vhost) r (warned f (remove f vhost s)) else (s, r)

-- manager.Disable, where there is a unit
unfoldable pub disable_service : Tools → Run → Run
disable_service f (s, r) =
    if stands unit s then noted the_service r (was_there (disable f s)) else (s, r)

abbrev told : Tools → Option Bool × System → Option Bool × System
told f (some true, s) = (some true, (run_tool f (λ t. t) s).1)
told f (some false, s) = (some false, s)
told f (none, s) = (none, s)

-- removeUnit: removeFile, and DaemonReload where there was a unit, which only warns
unfoldable pub remove_unit : Tools → Run → Run
remove_unit f (s, r) = noted (path_at unit) r (told f (remove f unit s))

abbrev then_group : Tools → Report → Option Bool × System → Run
then_group f r (none, s) = (s, failf the_user r)
then_group f r (some found, s) =
    noted the_group (if found then note_removed the_user r else r) (remove_group f s)

-- removeAccount
unfoldable pub remove_account : Tools → Run → Run
remove_account f (s, r) = then_group f r (remove_user f s)

-- removeDataDir
unfoldable pub remove_data_dir : Tools → Bool → Run → Run
remove_data_dir f remove_data (s, r) =
    if not (stands data_dir s)
    then (s, r)
    else if not remove_data
    then (s, note_kept (path_at data_dir) r)
    else noted (path_at data_dir) r (was_there (remove_all f data_dir s))

-- removalTargets
abbrev pub removal_targets : List Place
removal_targets = keep (λ p. not (p == data_dir)) owned_places ++ conditional_places

-- the steps of uninstall once it is confirmed
unfoldable pub removal : Tools → Bool → Run → Run
removal f remove_data x =
    let off = remove_unit f (disable_service f (remove_vhost f x)) in
    let gone = remove_file f previous_binary (remove_file f binary (remove_file f sudoers off)) in
    remove_data_dir f remove_data (remove_account f (remove_tree f tls_dir gone))

abbrev choice_of : Answer → Option Bool
choice_of yes = some true
choice_of no = some false
choice_of nothing_typed = none
choice_of not_an_answer = none

-- decideAboutData, with what is left of the input; none where it returns an error
unfoldable pub decide_about_data : Bool → System → Input → Option Bool × Input
decide_about_data purge s i =
    if purge
    then (some true, i)
    else if not (stands data_dir s)
    then (some false, i)
    else let (chosen, left) = yes_or_no i in (choice_of chosen, left)

abbrev pub nothing_yet : Report
nothing_yet = record { removed = []; kept = []; failed = [] }

abbrev pub ending_of : Run → Ending × Run
ending_of (s, r) = (elim r.failed [ [] ↦ removed_all | _ ∷ _ ↦ incomplete ], (s, r))

abbrev pub once_decided : Tools → Invocation → System → Option Bool × Input → Ending × Run
once_decided f e s (none, i) = (undecided, (s, nothing_yet))
once_decided f e s (some remove_data, i) =
    if confirm e i
    then ending_of (removal f remove_data (s, nothing_yet))
    else (unconfirmed, (s, nothing_yet))

-- uninstall
unfoldable pub uninstall : Tools → Invocation → Bool → Input → System → Ending × Run
uninstall f e purge i s = once_decided f e s (decide_about_data purge s i)
