-- ===== src/Installer/Publishing.antt =====
-- The installation of the virtual host leads back.
use dokkup.Common.{◌≡◌, refl, Bool, true, false, List, arith, ◌==◌, Text, number_key, text_key}
use dokkup.Installer.{
  Undo, undo_vhost, Installing, lift, undoing, attempt, stage_vhost, drop_candidate, checked_vhost,
  after_candidate, install_vhost,
}
use dokkup.Installer.Leading.{lift-LeadsBack}
use dokkup.Installer.Restoring.{undo_vhost-Undoes}
use dokkup.Installer.Staging.{and_then-files, and_then-failed}
use dokkup.Installer.Steps.{IsWhole, IsSound, stage_vhost-other, stage_vhost-failed}
use dokkup.Installer.Unwinding.{
  SameFiles, LeadsBack, LeadsBack-same, LeadsBack-undoing, LeadsBack-and_then,
}
use dokkup.Places.{Place, previous_binary, vhost, vhost_staging, vhost_candidate, place_key}
use dokkup.System.{System, Tools, and_then, remove, write_file}

module _ (f g : Tools) (whole : IsWhole f) (sound : IsSound g) (origin : System) where
  abbrev vhost_staged : Text → System → Bool × System
  vhost_staged text s =
      and_then (stage_vhost f text) (and_then (attempt f) (and_then (attempt f) (attempt f s)))

  checked_vhost-LeadsBack :
      (text : Text) (x : Installing)
      → LeadsBack g true origin x
      → LeadsBack g true origin (checked_vhost f text x).1
  checked_vhost-LeadsBack text (s, us) back =
      LeadsBack-and_then g true origin (lift (attempt f))
        (undoing (undo_vhost (s.files vhost)) us (vhost_staged text s))
        (λ y. lift-LeadsBack f g whole sound origin true (attempt f) y (λ t q. ground arith))
        (LeadsBack-undoing g true true origin s (undo_vhost (s.files vhost)) us
          (vhost_staged text s) (λ w. w)
          (λ h. (
            λ q w. staged_failed q text s (ground arith) h,
            λ w. staged_failed previous_binary text s refl h,
          ))
          (λ h. undo_vhost-Undoes g sound true s (vhost_staged text s).1 (
            λ q other w. staged_other q text s other (ground arith),
            λ w. staged_other previous_binary text s refl refl,
          ))
          back)
    where
      staged_other :
          (q : Place) (text : Text) (s : System)
          → (vhost == q) ≡ false
          → (vhost_staging == q) ≡ false
          → (vhost_staged text s).1.files q ≡ s.files q
      staged_other q text s h k =
          and_then-files q (s.files q) (stage_vhost f text)
            (and_then (attempt f) (and_then (attempt f) (attempt f s)))
            (λ t. stage_vhost-other f whole q text t h k) (ground arith)

      staged_failed :
          (q : Place) (text : Text) (s : System)
          → (vhost_staging == q) ≡ false
          → (vhost_staged text s).0 ≡ false
          → (vhost_staged text s).1.files q ≡ s.files q
      staged_failed q text s k h =
          and_then-failed q (s.files q) (stage_vhost f text)
            (and_then (attempt f) (and_then (attempt f) (attempt f s)))
            (λ t failing. stage_vhost-failed f whole q text t k failing) (ground arith) h

  drop_candidate-LeadsBack :
      (r : Bool × Installing)
      → LeadsBack g true origin r.1
      → LeadsBack g true origin (drop_candidate f r).1
  drop_candidate-LeadsBack (done, (s, us)) back =
      LeadsBack-same g true origin s (remove f vhost_candidate s).1 us
        (λ q w. ground arith, λ w. ground arith) back

  after_candidate-LeadsBack :
      (text : Text) (s : System) (us : List Undo) (r : Bool × System)
      → SameFiles true r.1 s
      → LeadsBack g true origin (s, us)
      → LeadsBack g true origin (after_candidate f text us r).1
  after_candidate-LeadsBack text s us (false, s') alike back =
      LeadsBack-same g true origin s s' us alike back
  after_candidate-LeadsBack text s us (true, s') alike back =
      drop_candidate-LeadsBack (checked_vhost f text (s', us))
        (checked_vhost-LeadsBack text (s', us) (LeadsBack-same g true origin s s' us alike back))

  pub install_vhost-LeadsBack :
      (text : Text) (x : Installing)
      → LeadsBack g true origin x
      → LeadsBack g true origin (install_vhost f text x).1
  unfolding install_vhost
  install_vhost-LeadsBack text (s, us) back =
      after_candidate-LeadsBack text s us (write_file f vhost_candidate text s)
        (λ q w. ground arith, λ w. ground arith) back
