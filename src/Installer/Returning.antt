-- ===== src/Installer/Returning.antt =====
-- A whole installation leads back to the files that were found.
use dokkup.Common.{◌≡◌, refl, sym, ◌∙◌, Bool, true, false, none, [], arith}
use dokkup.Installer.{
  Plan, undo_service, Installing, lift, undoing, attempt, ensure_account, data_dir_at,
  ensure_data_dir, ensure_sudoers, install_binary, install_certificate, install_vhost, install_unit,
  restart_if, is_running, start_service, confirm_site, change,
}
use dokkup.Installer.Leading.{
  lift-LeadsBack, ensure_account-LeadsBack, data_dir_at-LeadsBack, ensure_sudoers-LeadsBack,
  install_certificate-LeadsBack, install_unit-LeadsBack,
}
use dokkup.Installer.Program.{install_binary-LeadsBack}
use dokkup.Installer.Publishing.{install_vhost-LeadsBack}
use dokkup.Installer.Restoring.{no_file-Undoes}
use dokkup.Installer.Steps.{IsWhole, IsSound, ensure_account-files, data_dir_at-bare}
use dokkup.Installer.Undoing.{unwind}
use dokkup.Installer.Unwinding.{
  temporary, LeadsBack, LeadsBack-weaken, LeadsBack-undoing, LeadsBack-and_then,
}
use dokkup.Places.{Place, data_dir, tls_dir, within}
use dokkup.Removal.Laws.{IsRooted}
use dokkup.System.{System, Tools, ticked, and_then, enable}

module _ (f g : Tools) (whole : IsWhole f) (sound : IsSound g) (origin : System) where
  lifted-LeadsBack :
      (act : System → Bool × System) (x : Installing)
      → ((s : System) (q : Place) → (act s).1.files q ≡ s.files q)
      → LeadsBack g true origin x
      → LeadsBack g true origin (lift act x).1
  lifted-LeadsBack act x same_files back =
      lift-LeadsBack f g whole sound origin true act x same_files back

  start_service-LeadsBack :
      (plan : Plan) (x : Installing)
      → LeadsBack g true origin x
      → LeadsBack g true origin (start_service f plan x).1
  unfolding start_service
  start_service-LeadsBack plan (s, us) back =
      let enabled_one = and_then (enable f) (attempt f s) in
      let started = undoing undo_service us enabled_one in
      LeadsBack-and_then g true origin (lift (λ t. (plan.healthy t.tick, ticked t)))
        (and_then (lift (restart_if (is_running s.running) f)) started)
        (λ y. lifted-LeadsBack (λ t. (plan.healthy t.tick, ticked t)) y (λ t q. refl))
        (LeadsBack-and_then g true origin (lift (restart_if (is_running s.running) f)) started
          (λ y. lifted-LeadsBack (restart_if (is_running s.running) f) y (λ t q. ground arith))
          (LeadsBack-undoing g true true origin s undo_service us enabled_one (λ w. w)
            (λ h. (λ q w. ground arith, λ w. ground arith))
            (λ h.
              no_file-Undoes g sound true undo_service s enabled_one.1
                (λ q w. ground arith, λ w. ground arith) (λ t q. ground arith))
            back))

  ensure_data_dir-LeadsBack :
      (x : Installing)
      → IsRooted x.0
      → LeadsBack g false origin x
      → LeadsBack g false origin (ensure_data_dir f x).1
  unfolding ensure_data_dir
  ensure_data_dir-LeadsBack x rooted back =
      and_then_tls (data_dir_at f data_dir x)
        (λ q under absent. data_dir_at-bare f q x under (λ h. rooted tls_dir q under h) absent)
        (data_dir_at-LeadsBack f g whole sound origin data_dir x refl
          (λ q under. rooted data_dir q under) back)
    where
      and_then_tls :
          (r : Bool × Installing)
          → ((q : Place)
              → within tls_dir q ≡ true
              → r.1.0.files tls_dir ≡ none
              → r.1.0.files q ≡ none)
          → LeadsBack g false origin r.1
          → LeadsBack g false origin (and_then (data_dir_at f tls_dir) r).1
      and_then_tls (true, y) rooted back =
          data_dir_at-LeadsBack f g whole sound origin tls_dir y refl rooted back
      and_then_tls (false, y) rooted back = back

  site_LeadsBack :
      (plan : Plan) (r : Bool × Installing)
      → LeadsBack g true origin r.1
      → LeadsBack g true origin
          (and_then (install_unit f plan.unit_text) (
            and_then
              (install_vhost f plan.vhost_text)
              (and_then (install_certificate f plan.pem) r))).1
  site_LeadsBack plan r back =
      let certified = and_then (install_certificate f plan.pem) r in
      LeadsBack-and_then g true origin (install_unit f plan.unit_text)
        (and_then (install_vhost f plan.vhost_text) certified)
        (install_unit-LeadsBack f g whole sound origin plan.unit_text)
        (LeadsBack-and_then g true origin (install_vhost f plan.vhost_text) certified
          (install_vhost-LeadsBack f g whole sound origin plan.vhost_text)
          (LeadsBack-and_then g true origin (install_certificate f plan.pem) r
            (install_certificate-LeadsBack f g whole sound origin plan.pem) back))

  program_LeadsBack :
      (plan : Plan) (r : Bool × Installing)
      → LeadsBack g false origin r.1
      → LeadsBack g true origin (and_then (install_binary f plan) r).1
  program_LeadsBack plan (true, x) back =
      install_binary-LeadsBack f g whole sound origin plan x back
  program_LeadsBack plan (false, x) back =
      LeadsBack-weaken g true false origin x (λ w. absurd cc) back

  change-LeadsBack :
      (plan : Plan) (x : Installing)
      → IsRooted x.0
      → LeadsBack g false origin x
      → LeadsBack g true origin (change f plan x).1
  unfolding change
  change-LeadsBack plan x rooted back =
      let account = and_then (ensure_data_dir f) (ensure_account f x) in
      let program =
        and_then (install_binary f plan) (and_then (ensure_sudoers f plan.rule) account) in
      let units = and_then (install_unit f plan.unit_text) (
        and_then (install_vhost f plan.vhost_text)
          (and_then (install_certificate f plan.pem) program)) in
      let reloaded = and_then (lift (attempt f)) units in
      LeadsBack-and_then g true origin (confirm_site plan)
        (and_then (start_service f plan) reloaded)
        (λ y. lifted-LeadsBack (λ t. (plan.reached t.tick, ticked t)) y (λ t q. refl))
        (LeadsBack-and_then g true origin (start_service f plan) reloaded
          (start_service-LeadsBack plan)
          (LeadsBack-and_then g true origin (lift (attempt f)) units
            (λ y. lifted-LeadsBack (attempt f) y (λ t q. ground arith))
            (site_LeadsBack plan program (
              program_LeadsBack plan (and_then (ensure_sudoers f plan.rule) account) (
                LeadsBack-and_then g false origin (ensure_sudoers f plan.rule) account
                  (ensure_sudoers-LeadsBack f g whole sound origin plan.rule)
                  (account_LeadsBack x rooted back))))))
    where
      after_account :
          (r : Bool × Installing)
          → IsRooted r.1.0
          → LeadsBack g false origin r.1
          → LeadsBack g false origin (and_then (ensure_data_dir f) r).1
      after_account (true, y) rooted back = ensure_data_dir-LeadsBack y rooted back
      after_account (false, y) rooted back = back

      account_LeadsBack :
          (x : Installing)
          → IsRooted x.0
          → LeadsBack g false origin x
          → LeadsBack g false origin (and_then (ensure_data_dir f) (ensure_account f x)).1
      account_LeadsBack x rooted back =
          after_account (ensure_account f x)
            (λ p q under h.
              ensure_account-files f x q ∙ rooted p q under (sym (ensure_account-files f x p) ∙ h))
            (ensure_account-LeadsBack f g whole sound origin x back)

-- Whatever fails while the host is altered, or where nothing does, the unwinding, whose own calls do not
-- fail, puts back the content of every file and directory as it was found, all that the run made being
-- gone. This holds where a failing write leaves its file as it was and no chmod, chown or usermod after
-- useradd fails; it leaves aside the copy that is kept of a replaced binary and the three files that are
-- only on their way to their places.
pub change_unwinds :
    (f g : Tools) (plan : Plan) (s : System) (q : Place)
    → IsWhole f
    → IsSound g
    → IsRooted s
    → temporary q ≡ false
    → let (done, (s', us)) = change f plan (s, []) in (unwind g us s').files q ≡ s.files q
unfolding unwind
change_unwinds f g plan s q whole sound rooted own =
    let (done, (s', us)) = change f plan (s, []) in
    (change-LeadsBack f g whole sound s plan (s, []) rooted (λ t h. h) s'
        (λ q w. refl, λ w. refl)).0
      q own
