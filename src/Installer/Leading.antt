-- ===== src/Installer/Leading.antt =====
-- Each step of an installation leads back to the files that were found.
use dokkup.Common.{◌≡◌, refl, Bool, true, false, not, Option, none, some, List, arith, Text}
use dokkup.Installer.{
  Undo, undo_group, undo_user, undo_file, undo_unit, Installing, lift, undoing, undoing_if, attempt,
  account_group, account_user, ensure_account, data_dir_at, ensure_sudoers, write_owned_file,
  replace_file, install_certificate, install_unit, undo_tree,
}
use dokkup.Installer.Restoring.{
  undo_file-Undoes, undo_unit-Undoes, no_file-Undoes, undo_tree-Undoes,
}
use dokkup.Installer.Steps.{
  IsWhole, IsSound, sudoers_written, write_owned_file-SameBut, write_owned_file-SameFiles,
  write_sudoers-SameFiles, write_sudoers-SameBut, ensure_dir-same, ensure_dir-other,
}
use dokkup.Installer.Undoing.{undo_one}
use dokkup.Installer.Unwinding.{
  temporary, LeadsBack, LeadsBack-same, LeadsBack-undoing, LeadsBack-and_then, LeadsBack-undoing_if,
}
use dokkup.Places.{Place, previous_binary, unit, sudoers, tls_cert, tls_key, within}
use dokkup.System.{
  System, Tools, and_then, ensure_group, ensure_user, join_group, stands, ensure_dir,
}
use dokkup.System.Files.{not_standing}

module _ (f g : Tools) (whole : IsWhole f) (sound : IsSound g) (origin : System) where
  -- a call that changes no file
  pub lift-LeadsBack :
      (kept : Bool) (act : System → Bool × System) (x : Installing)
      → ((s : System) (q : Place) → (act s).1.files q ≡ s.files q)
      → LeadsBack g kept origin x
      → LeadsBack g kept origin (lift act x).1
  lift-LeadsBack kept act (s, us) same_files back =
      LeadsBack-same g kept origin s (act s).1 us
        (λ q w. same_files s q, λ w. same_files s previous_binary) back

  attempt-LeadsBack :
      (kept : Bool) (x : Installing)
      → LeadsBack g kept origin x
      → LeadsBack g kept origin (lift (attempt f) x).1
  attempt-LeadsBack kept x back = lift-LeadsBack kept (attempt f) x (λ s q. ground arith) back

  -- a step that records an undo of what changes no file
  account-LeadsBack :
      (created : Bool) (u : Undo) (s : System) (us : List Undo) (r : Bool × System)
      → ((q : Place) → r.1.files q ≡ s.files q)
      → ((t : System) (q : Place) → (undo_one g u t).files q ≡ t.files q)
      → LeadsBack g false origin (s, us)
      → LeadsBack g false origin (undoing_if created u us r).1
  account-LeadsBack created u s us r same_files undo back =
      LeadsBack-undoing_if g false false origin s created u us r (λ w. w)
        (λ h. (λ q w. same_files q, λ w. same_files previous_binary))
        (λ made h.
          no_file-Undoes g sound false u s r.1
            (λ q w. same_files q, λ w. same_files previous_binary) undo)
        back

  account_group-LeadsBack :
      (x : Installing) → LeadsBack g false origin x → LeadsBack g false origin (account_group f x).1
  account_group-LeadsBack (s, us) back =
      account-LeadsBack (not s.group) undo_group s us (and_then (ensure_group f) (attempt f s))
        (λ q. ground arith) (λ t q. ground arith) back

  account_user-LeadsBack :
      (x : Installing) → LeadsBack g false origin x → LeadsBack g false origin (account_user f x).1
  account_user-LeadsBack (s, us) back =
      account-LeadsBack (ensure_user f s).0 undo_user s us (ensure_user f s).1 (λ q. ground arith)
        (λ t q. ground arith) back

  pub ensure_account-LeadsBack :
      (x : Installing)
      → LeadsBack g false origin x
      → LeadsBack g false origin (ensure_account f x).1
  unfolding ensure_account
  ensure_account-LeadsBack x back =
      LeadsBack-and_then g false origin (lift (attempt f))
        (and_then (lift (join_group f)) (and_then (account_user f) (account_group f x)))
        (attempt-LeadsBack false)
        (LeadsBack-and_then g false origin (lift (join_group f))
          (and_then (account_user f) (account_group f x))
          (λ y. lift-LeadsBack false (join_group f) y (λ s q. ground arith))
          (LeadsBack-and_then g false origin (account_user f) (account_group f x)
            account_user-LeadsBack (account_group-LeadsBack x back)))

  pub data_dir_at-LeadsBack :
      (p : Place) (x : Installing)
      → within p previous_binary ≡ false
      → ((q : Place) → within p q ≡ true → x.0.files p ≡ none → x.0.files q ≡ none)
      → LeadsBack g false origin x
      → LeadsBack g false origin (data_dir_at f p x).1
  data_dir_at-LeadsBack p (s, us) apart_from rooted back =
      LeadsBack-undoing_if g false false origin s (not (stands p s)) (undo_tree p) us
        (ensure_dir f p s) (λ w. w) (λ h. (λ q w. ensure_dir-same f whole p q s h, λ w. absurd cc))
        (λ made h.
          undo_tree-Undoes g sound false p s (ensure_dir f p s).1
            (λ q under. rooted q under (not_standing p s made)) apart_from
            (λ q other w. ensure_dir-other f p q s other, λ w. absurd cc))
        back

  pub ensure_sudoers-LeadsBack :
      (rule : Text) (x : Installing)
      → LeadsBack g false origin x
      → LeadsBack g false origin (ensure_sudoers f rule x).1
  unfolding ensure_sudoers
  ensure_sudoers-LeadsBack rule (s, us) back =
      LeadsBack-and_then g false origin (lift (attempt f))
        (undoing (undo_file sudoers (s.files sudoers)) us (sudoers_written f rule s))
        (attempt-LeadsBack false)
        (LeadsBack-undoing g false false origin s (undo_file sudoers (s.files sudoers)) us
          (sudoers_written f rule s) (λ w. w) (write_sudoers-SameFiles f whole false rule s)
          (λ h.
            undo_file-Undoes g sound false sudoers s (sudoers_written f rule s).1 refl
              (write_sudoers-SameBut f whole false rule s))
          back)

  pub replace_file-LeadsBack :
      (p : Place) (c : Text) (x : Installing)
      → temporary p ≡ false
      → LeadsBack g true origin x
      → LeadsBack g true origin (replace_file f p c x).1
  unfolding replace_file
  replace_file-LeadsBack p c (s, us) own back =
      LeadsBack-undoing g true true origin s (undo_file p (s.files p)) us (write_owned_file f p c s)
        (λ w. w) (write_owned_file-SameFiles f whole true p c s)
        (λ h.
          undo_file-Undoes g sound true p s (write_owned_file f p c s).1 own
            (write_owned_file-SameBut f whole true p c s own))
        back

  pub install_certificate-LeadsBack :
      (pem : Option (Text × Text)) (x : Installing)
      → LeadsBack g true origin x
      → LeadsBack g true origin (install_certificate f pem x).1
  unfolding install_certificate
  install_certificate-LeadsBack none x back = back
  install_certificate-LeadsBack (some (cert, key)) x back =
      LeadsBack-and_then g true origin (replace_file f tls_key key) (replace_file f tls_cert cert x)
        (λ y. replace_file-LeadsBack tls_key key y refl)
        (replace_file-LeadsBack tls_cert cert x refl back)

  pub install_unit-LeadsBack :
      (text : Text) (x : Installing)
      → LeadsBack g true origin x
      → LeadsBack g true origin (install_unit f text x).1
  unfolding install_unit
  install_unit-LeadsBack text (s, us) back =
      LeadsBack-and_then g true origin (lift (attempt f))
        (undoing (undo_unit (s.files unit)) us (write_owned_file f unit text s))
        (attempt-LeadsBack true)
        (LeadsBack-undoing g true true origin s (undo_unit (s.files unit)) us
          (write_owned_file f unit text s) (λ w. w)
          (write_owned_file-SameFiles f whole true unit text s)
          (λ h.
            undo_unit-Undoes g sound true s (write_owned_file f unit text s).1
              (write_owned_file-SameBut f whole true unit text s refl))
          back)
