-- ===== src/Installer/Outcomes.antt =====
-- What each ending of an installation says about the host.
use mathlib.Core.Path.{subst}
use dokkup.Common.{
  List, ◌∷◌, contains, ℕ, ◌≡◌, refl, ◌⊎◌, inl, inr, Bool, true, false, Option, none, some, [],
  arith, sym, ap, ◌∙◌, ◌≢◌, Option-cases,
}
use dokkup.Installer.{
  Plan, Installing, attempt, start_service, change, undo_service, lift, undoing, ensure_account,
  ensure_data_dir, ensure_sudoers, install_binary, install_certificate, install_vhost, install_unit,
  restart_if, is_running, confirm_site,
}
use dokkup.Installer.Returning.{change_unwinds}
use dokkup.Installer.Staging.{and_then-files}
use dokkup.Installer.Steps.{IsWhole, IsSound}
use dokkup.Installer.Undoing.{
  unwind, Dokku, require_dokku, in_place, not_begun, unwound, conclude_change, begin_change,
  install, Installation,
}
use dokkup.Installer.Unwinding.{temporary}
use dokkup.Places.{
  Place, elsewhere, database, previous_binary, staged_binary, vhost_staging, vhost_candidate,
  binary, unit, sudoers, vhost, data_dir, tls_dir, tls_cert, tls_key, place_key,
}
use dokkup.Removal.Laws.{IsRooted}
use dokkup.Server.SignIn.{started}
use dokkup.System.{System, Tools, and_then, ticked, enable}

and_then-succeeds {ℓ} :
    {A : Type ℓ} (next : A → Bool × A) (r : Bool × A)
    → (and_then next r).0 ≡ true
    → (a : A) × (r ≡ (true, a)) × ((next a).0 ≡ true) × (and_then next r ≡ next a)
and_then-succeeds next (true, a) h = (a, refl, h, refl)
and_then-succeeds next (false, a) h = absurd cc

-- the service runs what is on the disk, and is started at boot
abbrev pub Serves : System → Type 0
Serves s = (s.running ≡ s.files binary) × (s.enabled ≡ true)

abbrev restarted : Tools → Installing → Bool × Installing
restarted f (s, us) =
    and_then (lift (restart_if (is_running s.running) f))
      (undoing undo_service us (and_then (enable f) (attempt f s)))

restarted-Serves :
    (f : Tools) (x : Installing) → (restarted f x).0 ≡ true → Serves (restarted f x).1.0
restarted-Serves f (s, us) h = elim (Option-cases s.running) [
  | inl idle ↦ (ground (arith, idle), ground (arith, idle))
  | inr (b, busy) ↦ (ground (arith, busy), ground (arith, busy))
]

start_service-Serves :
    (f : Tools) (plan : Plan) (x : Installing)
    → (start_service f plan x).0 ≡ true
    → Serves (start_service f plan x).1.0 × ((n : ℕ) × (plan.healthy n ≡ true))
unfolding start_service
start_service-Serves f plan x h =
    let answer = lift (λ t. (plan.healthy t.tick, ticked t)) in
    let (y, up, healthy, same_one) = and_then-succeeds answer (restarted f x) h in
    let served : Serves y.0 =
      subst (λ r. Serves r.1.0) up (restarted-Serves f x (ap (λ r. r.0) up)) in
    (subst (λ r. Serves r.1.0) (sym same_one) served, (y.0.tick, healthy))

change-Serves :
    (f : Tools) (plan : Plan) (x : Installing)
    → (change f plan x).0 ≡ true
    → Serves (change f plan x).1.0
      × ((n : ℕ) × (plan.healthy n ≡ true))
      × ((n : ℕ) × (plan.reached n ≡ true))
unfolding change
change-Serves f plan x h =
    let account = and_then (ensure_data_dir f) (ensure_account f x) in
    let program =
      and_then (install_binary f plan) (and_then (ensure_sudoers f plan.rule) account) in
    let site = and_then (install_certificate f plan.pem) program in
    let units =
      and_then (install_unit f plan.unit_text) (and_then (install_vhost f plan.vhost_text) site) in
    let reloaded = and_then (lift (attempt f)) units in
    let (y, up, reached, same_one) =
      and_then-succeeds (confirm_site plan) (and_then (start_service f plan) reloaded) h in
    let (z, _, started, same_start) =
      and_then-succeeds (start_service f plan) reloaded (ap (λ r. r.0) up) in
    let (served, healthy) = start_service-Serves f plan z started in
    let here : Serves y.0 = subst (λ r. Serves r.1.0) (sym same_start ∙ up) served in
    (subst (λ r. Serves r.1.0) (sym same_one) here, healthy, (y.0.tick, reached))

conclude_change_lem :
    (g : Tools) (r : Bool × Installing)
    → ((conclude_change g r ≡ (in_place, r.1.0)) × (r.0 ≡ true))
      ⊎ (conclude_change g r ≡ (unwound, unwind g r.1.1 r.1.0))
conclude_change_lem g (true, (s, us)) = inl (refl, refl)
conclude_change_lem g (false, (s, us)) = inr refl

-- asking changes nothing but the count of calls
require_dokku-files :
    (f : Tools) (d : Dokku) (s : System) (q : Place) → (require_dokku f d s).1.files q ≡ s.files q
unfolding require_dokku
require_dokku-files f d s q = ground arith

install_lem :
    (f g : Tools) (d : Dokku) (site : Option Plan) (s : System)
    → ((install f g d site s).0 ≡ not_begun
        × ((q : Place) → (install f g d site s).1.files q ≡ s.files q))
      ⊎ ((plan : Plan) × (t : System) × (install f g d site s
            ≡ conclude_change g (change f plan (t, [])))
          × ((q : Place) → t.files q ≡ s.files q))
unfolding install
install_lem f g d none s = inl (refl, require_dokku-files f d s)
install_lem f g d (some plan) s = begun (and_then (attempt f) (require_dokku f d s)) (λ q.
    and_then-files q (s.files q) (attempt f) (require_dokku f d s) (λ t. ground arith)
      (require_dokku-files f d s q))
  where
    begun :
        (r : Bool × System)
        → ((q : Place) → r.1.files q ≡ s.files q)
        → ((begin_change f g plan r).0 ≡ not_begun
            × ((q : Place) → (begin_change f g plan r).1.files q ≡ s.files q))
          ⊎ ((plan' : Plan) × (t : System) × (begin_change f g plan r
                ≡ conclude_change g (change f plan' (t, [])))
              × ((q : Place) → t.files q ≡ s.files q))
    begun (true, t) same_files = inr (plan, t, refl, same_files)
    begun (false, t) same_files = inl (refl, same_files)

-- what an installation is made of on the disk
abbrev pub installed_places : List Place
installed_places = binary ∷ unit ∷ sudoers ∷ vhost ∷ data_dir ∷ tls_dir ∷ tls_cert ∷ tls_key ∷ []

installed-temporary : (q : Place) → contains q installed_places ≡ true → temporary q ≡ false
installed-temporary binary own = refl
installed-temporary unit own = refl
installed-temporary sudoers own = refl
installed-temporary vhost own = refl
installed-temporary data_dir own = refl
installed-temporary tls_dir own = refl
installed-temporary tls_cert own = refl
installed-temporary tls_key own = refl
installed-temporary database own = refl
installed-temporary (elsewhere path) own = refl
installed-temporary previous_binary own = cc
installed-temporary staged_binary own = cc
installed-temporary vhost_staging own = cc
installed-temporary vhost_candidate own = cc

-- Whatever fails before the unwinding, an installation that does not succeed leaves the binary, the
-- unit, the sudoers rule, the virtual host, the certificate and its key as they were found, and the
-- directories of the data and of the certificate there or not there as they were found, where nothing
-- is found under a directory that is not there, the calls of the unwinding do not fail, a failing
-- write leaves its file as it was, and no chmod, chown or usermod after useradd fails. Of other files
-- it says nothing.
pub install_restores :
    (f g : Tools) (d : Dokku) (site : Option Plan) (s : System) (q : Place)
    → IsWhole f
    → IsSound g
    → IsRooted s
    → contains q installed_places ≡ true
    → (install f g d site s).0 ≢ in_place
    → (install f g d site s).1.files q ≡ s.files q
install_restores f g d site s q whole sound rooted own h = elim (install_lem f g d site s) [
  | inl (_, same_files) ↦ same_files q
  | inr (plan, t, same_one, same_files) ↦ elim (conclude_change_lem g (change f plan (t, []))) [
    | inl (done, _) ↦ absurd (h (ap (λ r. r.0) (same_one ∙ done)))
    | inr undone ↦
        ap (λ r. r.1.files q) (same_one ∙ undone)
        ∙ (change_unwinds f g plan t q whole sound
              (λ p k under absent. same_files k ∙ rooted p k under (sym (same_files p) ∙ absent))
              (installed-temporary q own)
            ∙ same_files q)
  ]
]

-- Whatever ran before, after an installation that succeeds the service runs the binary that is on the
-- disk and is started at boot, some probe of its health was answered as it should be, and dokkup was
-- reached through the proxy.
pub install_serves :
    (f g : Tools) (d : Dokku) (plan : Plan) (s : System)
    → let (ending, s') = install f g d (some plan) s in
      ending ≡ in_place
      → (s'.running ≡ s'.files binary)
        × (s'.enabled ≡ true)
        × ((n : ℕ) × (plan.healthy n ≡ true))
        × ((n : ℕ) × (plan.reached n ≡ true))
unfolding install
install_serves f g d plan s h = served (and_then (attempt f) (require_dokku f d s)) h
  where
    Served : Installation × System → Type 0
    Served (ending, s') =
        (s'.running ≡ s'.files binary)
        × (s'.enabled ≡ true)
        × ((n : ℕ) × (plan.healthy n ≡ true))
        × ((n : ℕ) × (plan.reached n ≡ true))

    served :
        (r : Bool × System)
        → (begin_change f g plan r).0 ≡ in_place
        → Served (begin_change f g plan r)
    served (false, t) h = absurd cc
    served (true, t) h = elim (conclude_change_lem g (change f plan (t, []))) [
      | inr undone ↦ absurd (ground (arith, undone))
      | inl (concluded, done) ↦
          let ((runs, on), healthy, reached) = change-Serves f plan (t, []) done in
          subst Served (sym concluded) (runs, on, healthy, reached)
    ]
