-- ===== src/Installer/Program.antt =====
-- The installation of the binary leads back.
use dokkup.Common.{
  ◌≡◌, refl, ap, inl, inr, true, false, not, List, arith, if◌then◌else◌, Bool-cases, Text,
}
use dokkup.Installer.{Plan, Undo, undo_new_binary, undo_binary, Installing, undoing, install_binary}
use dokkup.Installer.Restoring.{undo_binary-Undoes, undo_new_binary-Undoes}
use dokkup.Installer.Staging.{
  binary_installed, binary_installed-other, binary_installed-failed, binary_installed-kept,
}
use dokkup.Installer.Steps.{IsWhole, IsSound}
use dokkup.Installer.Unwinding.{LeadsBack, LeadsBack-weaken, LeadsBack-undoing}
use dokkup.Places.{binary, previous_binary}
use dokkup.System.{System, Tools, stands}
use dokkup.System.Files.{not_standing}

module _ (f g : Tools) (whole : IsWhole f) (sound : IsSound g) (origin : System) where
  pub install_binary-LeadsBack :
      (plan : Plan) (x : Installing)
      → LeadsBack g false origin x
      → LeadsBack g true origin (install_binary f plan x).1
  unfolding install_binary
  install_binary-LeadsBack plan (s, us) back = elim (Bool-cases plan.self_is_installed) [
    | inl same_one ↦
        rw same_one (LeadsBack-weaken g true false origin (s, us) (λ w. absurd cc) back)
    | inr other ↦ rw other (replaced plan.self s us back)
  ]
    where
      had_none :
          (self : Text) (s : System) (us : List Undo)
          → stands binary s ≡ false
          → LeadsBack g false origin (s, us)
          → LeadsBack g true origin (undoing undo_new_binary us (binary_installed f self false s)).1
      had_none self s us absent back =
          LeadsBack-undoing g true false origin s undo_new_binary us
            (binary_installed f self false s) (λ w. absurd cc)
            (λ h. (
              λ q w. binary_installed-failed f self q (ground arith) false s (inl refl) h,
              λ w. absurd cc,
            ))
            (λ h t alike. (
              (undo_new_binary-Undoes g sound s (binary_installed f self false s).1
                  (not_standing binary s (ap not absent))
                  (
                    λ q other w.
                        binary_installed-other f self q (ground arith) false s other (inl refl),
                    λ w. binary_installed-other f self previous_binary refl false s refl (inl refl),
                  )
                  t alike).0,
              λ w. absurd cc,
            ))
            back

      had_one :
          (self : Text) (s : System) (us : List Undo)
          → stands binary s ≡ true
          → LeadsBack g false origin (s, us)
          → LeadsBack g true origin (undoing undo_binary us (binary_installed f self true s)).1
      had_one self s us there back =
          LeadsBack-undoing g true false origin s undo_binary us (binary_installed f self true s)
            (λ w. absurd cc)
            (λ h. (
              λ q w. binary_installed-failed f self q (ground arith) true s (inr (ground arith)) h,
              λ w. absurd cc,
            ))
            (λ h.
              undo_binary-Undoes g sound s (binary_installed f self true s).1 there
                (
                  λ q other w.
                      binary_installed-other f self q (ground arith) true s other
                        (inr (ground arith)),
                  λ w. absurd cc,
                )
                (binary_installed-kept f self s h))
            back

      replaced :
          (self : Text) (s : System) (us : List Undo)
          → LeadsBack g false origin (s, us)
          → LeadsBack g true origin
              (undoing
                (if stands binary s then undo_binary else undo_new_binary)
                us
                (binary_installed f self (stands binary s) s)).1
      replaced self s us back = elim (Bool-cases (stands binary s)) [
        | inl there ↦ rw there (had_one self s us there back)
        | inr absent ↦ rw absent (had_none self s us absent back)
      ]
