-- ===== src/Removal/Success.antt =====
-- When an uninstall succeeds, and what a second one finds.
use dokkup.Common.{ℕ, ◌≡◌, ap, ◌∙◌, ◌⊎◌, inl, inr, Bool, true, false, none, some}
use dokkup.Places.{unit}
use dokkup.Removal.{removed_all, removal, decide_about_data, nothing_yet, uninstall}
use dokkup.Removal.Again.{removal-failed, removal-Bare}
use dokkup.Removal.Laws.{IsRooted}
use dokkup.Removal.Outcomes.{ending_of_lem, uninstall_lem, uninstall-Bare}
use dokkup.System.{System, Tools, stands}
use dokkup.Terminal.{Input, Invocation, confirm}

-- Where no call of the host fails, the service does not run without a unit, and the removal is decided
-- and confirmed, uninstall succeeds.
pub uninstall_succeeds :
    (f : Tools) (e : Invocation) (purge : Bool) (i : Input) (s : System) (b : Bool) (left : Input)
    → ((n : ℕ) → f.fails n ≡ false)
    → (s.running ≡ none) ⊎ (stands unit s ≡ true)
    → decide_about_data purge s i ≡ (some b, left)
    → confirm e left ≡ true
    → (uninstall f e purge i s).0 ≡ removed_all
unfolding uninstall
uninstall_succeeds f e purge i s b left sound idle chosen sure =
    rw (chosen, sure)
      ((ending_of_lem (removal f b (s, nothing_yet))).1
        (removal-failed f sound b (s, nothing_yet) idle))

-- After an uninstall that took the data too has succeeded, another one whose calls of the host do not
-- fail finds nothing: whatever is answered, it reports nothing removed, kept or failed.
pub uninstall_again :
    (f f' : Tools) (e e' : Invocation) (purge : Bool) (i i' : Input) (s : System)
    → IsRooted s
    → (uninstall f e true i s).0 ≡ removed_all
    → ((n : ℕ) → f'.fails n ≡ false)
    → (uninstall f' e' purge i' (uninstall f e true i s).1.0).1.1 ≡ nothing_yet
uninstall_again f f' e e' purge i i' s rooted done sound =
    let s' = (uninstall f e true i s).1.0 in
    elim (uninstall_lem f' e' purge i' s') [
      | inl (why, same_system, none_yet) ↦ none_yet
      | inr (c, left, asked, sure, what, full) ↦
          ap (λ x. x.1) what
          ∙ removal-Bare f' sound c (s', nothing_yet) (uninstall-Bare f e i s rooted done)
    ]
