-- ===== src/Removal/Outcomes.antt =====
-- What each ending of an uninstall says about the host.
use dokkup.Common.{
  ◌≡◌, refl, ◌↔◌, ◌⊎◌, inl, inr, Bool, true, Option, none, some, [], ◌∷◌, arith, Bool-cases, ap,
  ◌∙◌, false, sym,
}
use dokkup.Places.{Place, unit}
use dokkup.Removal.{
  Ending, removed_all, undecided, unconfirmed, Run, removal, decide_about_data, nothing_yet,
  ending_of, once_decided, uninstall,
}
use dokkup.Removal.Again.{Bare}
use dokkup.Removal.Laws.{taken, IsRooted, removal_account_gone, removal_gone}
use dokkup.System.{System, Tools, stands}
use dokkup.Terminal.{Input, Invocation, confirm, yes, yes_or_no}
use dokkup.Terminal.Answers.{NamedHost, GavePassword, NotAsked, confirm_sound}

-- what the whole of it was: it stopped before the first change, or the removal was decided and confirmed
abbrev pub Stopped : System → Ending × Run → Type 0
Stopped s (ending, (s', r)) =
    ((ending ≡ undecided) ⊎ (ending ≡ unconfirmed)) × (s' ≡ s) × (r ≡ nothing_yet)

abbrev pub Removed : Tools → Invocation → Bool → Input → System → Ending × Run → Type 0
Removed f e purge i s (ending, x) =
    (b : Bool) × (left : Input) × (decide_about_data purge s i ≡ (some b, left))
    × (confirm e left ≡ true)
    × (x ≡ removal f b (s, nothing_yet))
    × ((ending ≡ removed_all) ↔ (x.1.failed ≡ []))

pub ending_of_lem : (x : Run) → ((ending_of x).0 ≡ removed_all) ↔ (x.1.failed ≡ [])
ending_of_lem (s, r) =
    elim r.failed as (λ l. (ending_of (s, record r { failed = l })).0 ≡ removed_all ↔ (l ≡ [])) [
      | [] ↦ (λ h. refl, λ h. refl)
      | t ∷ ts ↦ (λ h. absurd cc, λ h. absurd cc)
    ]

once_decided_lem :
    (f : Tools) (e : Invocation) (purge : Bool) (i : Input) (s : System) (d : Option Bool × Input)
    → decide_about_data purge s i ≡ d
    → Stopped s (once_decided f e s d) ⊎ Removed f e purge i s (once_decided f e s d)
once_decided_lem f e purge i s (none, left) h = inl (inl refl, refl, refl)
once_decided_lem f e purge i s (some b, left) h = elim (Bool-cases (confirm e left)) [
  | inl sure ↦
      inr (b, left, h, sure, ground arith, rw sure (ending_of_lem (removal f b (s, nothing_yet))))
  | inr unsure ↦ inl (inr (ground arith), ground arith, ground arith)
]

pub uninstall_lem :
    (f : Tools) (e : Invocation) (purge : Bool) (i : Input) (s : System)
    → Stopped s (uninstall f e purge i s) ⊎ Removed f e purge i s (uninstall f e purge i s)
unfolding uninstall
uninstall_lem f e purge i s = once_decided_lem f e purge i s (decide_about_data purge s i) refl

-- the operator asked for the data to go
abbrev pub WantsDataGone : Bool → Input → Type 0
WantsDataGone purge i = (purge ≡ true) ⊎ ((yes_or_no i).0 ≡ yes)

-- Either uninstall changed nothing and removed nothing, for want of a decision about the data or of a
-- confirmation, or the operator confirmed it: by their own password, or, where there was nobody to ask
-- for one, by typing the host's name in what was left of the input after that decision.
pub uninstall_deliberate :
    (f : Tools) (e : Invocation) (purge : Bool) (i : Input) (s : System)
    → ((uninstall f e purge i s).1 ≡ (s, nothing_yet))
      ⊎ (GavePassword e ⊎ (NotAsked e × NamedHost e (decide_about_data purge s i).1))
uninstall_deliberate f e purge i s = elim (uninstall_lem f e purge i s) [
  | inl (why, same_system, none_yet) ↦ inl (ground (arith, same_system, none_yet))
  | inr (b, left, chosen, sure, what, full) ↦ inr (rw chosen (confirm_sound e left sure))
]

-- An uninstall that succeeds on a host with a unit has taken every target and all that was under one,
-- the data directory where that was decided, and the account with its group, and it has stopped the
-- service and no longer starts it at boot.
pub uninstall_complete :
    (f : Tools) (e : Invocation) (purge : Bool) (i : Input) (s : System) (b : Bool) (q : Place)
    → IsRooted s
    → stands unit s ≡ true
    → (uninstall f e purge i s).0 ≡ removed_all
    → (decide_about_data purge s i).0 ≡ some b
    → taken b q ≡ true
    → let (ending, (s', r)) = uninstall f e purge i s in
      (s'.files q ≡ none)
      × (s'.user ≡ false)
      × (s'.group ≡ false)
      × (s'.running ≡ none)
      × (s'.enabled ≡ false)
uninstall_complete f e purge i s b q rooted there h wanted hit =
    elim (uninstall_lem f e purge i s) [
      | inl (inl why, same_system, none_yet) ↦ absurd (ground (arith, why))
      | inl (inr why, same_system, none_yet) ↦ absurd (ground (arith, why))
      | inr (c, left, chosen, sure, what, full) ↦
          let x : Run = (s, nothing_yet) in
          let same_one : some b ≡ some c = sym wanted ∙ ap (λ d. d.0) chosen in
          let clean = sym (ap (λ y. y.1.failed) what) ∙ full.0 h in
          let (no_user, no_group, stopped) = removal_account_gone f c x clean in
          let (not_running, not_enabled) = stopped there in
          (
            ap (λ y. y.0.files q) what
                ∙ removal_gone f c q x rooted clean (ground (arith, hit, same_one)),
            ap (λ y. y.0.user) what ∙ no_user,
            ap (λ y. y.0.group) what ∙ no_group,
            ap (λ y. y.0.running) what ∙ not_running,
            ap (λ y. y.0.enabled) what ∙ not_enabled,
          )
    ]

purged : (s : System) (i : Input) (b : Bool) → (decide_about_data true s i).0 ≡ some b → b ≡ true
unfolding decide_about_data
purged s i b h = cc

-- An uninstall that succeeds where the data was to go leaves nothing.
pub uninstall-Bare :
    (f : Tools) (e : Invocation) (i : Input) (s : System)
    → IsRooted s
    → (uninstall f e true i s).0 ≡ removed_all
    → Bare (uninstall f e true i s).1.0
uninstall-Bare f e i s rooted h = elim (uninstall_lem f e true i s) [
  | inl (inl why, same_system, none_yet) ↦ absurd (ground (arith, why))
  | inl (inr why, same_system, none_yet) ↦ absurd (ground (arith, why))
  | inr (c, left, chosen, sure, what, full) ↦
      let x : Run = (s, nothing_yet) in
      let clean = sym (ap (λ y. y.1.failed) what) ∙ full.0 h in
      let (no_user, no_group, stopped) = removal_account_gone f c x clean in
      (
        λ q hit.
            ap (λ y. y.0.files q) what
            ∙ removal_gone f c q x rooted clean (rw (purged s i c (ap (λ d. d.0) chosen)) hit),
        ap (λ y. y.0.user) what ∙ no_user,
        ap (λ y. y.0.group) what ∙ no_group,
      )
]
