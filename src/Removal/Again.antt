-- ===== src/Removal/Again.antt =====
-- Each step of a removal where the calls of the host do not fail, and where nothing is left to remove.
use dokkup.Common.{ℕ, ◌+◌, ◌≡◌, Bool, false, none, arith, ◌∙◌, ◌⊎◌, inl, inr, true, refl}
use dokkup.Places.{Place, binary, previous_binary, unit, sudoers, tls_dir, vhost, data_dir}
use dokkup.Removal.{
  Run, remove_file, remove_tree, remove_vhost, disable_service, remove_unit, remove_account,
  remove_data_dir, removal,
}
use dokkup.Removal.Laws.{taken}
use dokkup.Removal.Steps.{
  remove_vhost-other, Shrinks, remove_file-Shrinks, remove_tree-Shrinks, remove_vhost-Shrinks,
  remove_unit-Shrinks, disable_service-Shrinks, remove_account-Shrinks,
}
use dokkup.System.{Tools, stands, System}
use dokkup.System.Files.{stands-files}

-- nothing of it is there
abbrev pub Bare : System → Type 0
Bare s =
    ((q : Place) → taken true q ≡ true → s.files q ≡ none) × (s.user ≡ false) × (s.group ≡ false)

module _ (f : Tools) (sound : (n : ℕ) → f.fails n ≡ false) where
  remove_file-failed : (p : Place) (x : Run) → (remove_file f p x).1.failed ≡ x.1.failed
  unfolding remove_file
  remove_file-failed p (s, r) = ground (arith, sound s.tick)

  remove_tree-failed : (p : Place) (x : Run) → (remove_tree f p x).1.failed ≡ x.1.failed
  unfolding remove_tree
  remove_tree-failed p (s, r) = ground (arith, sound s.tick)

  remove_vhost-failed : (x : Run) → (remove_vhost f x).1.failed ≡ x.1.failed
  unfolding remove_vhost
  remove_vhost-failed (s, r) = ground (arith, sound s.tick)

  remove_unit-failed : (x : Run) → (remove_unit f x).1.failed ≡ x.1.failed
  unfolding remove_unit
  remove_unit-failed (s, r) = ground (arith, sound s.tick)

  disable_service-failed : (x : Run) → (disable_service f x).1.failed ≡ x.1.failed
  unfolding disable_service
  disable_service-failed (s, r) = ground (arith, sound s.tick)

  remove_data_dir-failed : (b : Bool) (x : Run) → (remove_data_dir f b x).1.failed ≡ x.1.failed
  unfolding remove_data_dir
  remove_data_dir-failed b (s, r) = ground (arith, sound s.tick)

  remove_account-failed :
      (x : Run) → x.0.running ≡ none → (remove_account f x).1.failed ≡ x.1.failed
  unfolding remove_account
  remove_account-failed (s, r) h = ground (arith, sound s.tick, sound (s.tick + 1))

  -- from the stop of the service to the removal of the account
  abbrev after_stop : Run → Run
  after_stop x =
      let gone = remove_file f binary (remove_file f sudoers (remove_unit f x)) in
      remove_tree f tls_dir (remove_file f previous_binary gone)

  disable_service-stops :
      (x : Run)
      → (x.0.running ≡ none) ⊎ (stands unit x.0 ≡ true)
      → (disable_service f x).0.running ≡ none
  unfolding disable_service
  disable_service-stops (s, r) (inl h) = ground (arith, h)
  disable_service-stops (s, r) (inr h) = ground (arith, h, sound s.tick)

  still_idle : (x : Run) → x.0.running ≡ none → (after_stop x).0.running ≡ none
  still_idle x h =
      let x3 = remove_unit f x in
      let x4 = remove_file f sudoers x3 in
      let x5 = remove_file f binary x4 in
      let x6 = remove_file f previous_binary x5 in
      (remove_tree-Shrinks f tls_dir x6).3 (
        (remove_file-Shrinks f previous_binary x5).3 (
          (remove_file-Shrinks f binary x4).3
            ((remove_file-Shrinks f sudoers x3).3 ((remove_unit-Shrinks f x).3 h))))

  stoppable-remove_vhost :
      (x : Run)
      → (x.0.running ≡ none) ⊎ (stands unit x.0 ≡ true)
      → ((remove_vhost f x).0.running ≡ none) ⊎ (stands unit (remove_vhost f x).0 ≡ true)
  stoppable-remove_vhost x (inl h) = inl ((remove_vhost-Shrinks f x).3 h)
  stoppable-remove_vhost x (inr h) =
      inr (stands-files unit x.0 (remove_vhost f x).0 (remove_vhost-other f unit x refl) ∙ h)

  pub removal-failed :
      (b : Bool) (x : Run)
      → (x.0.running ≡ none) ⊎ (stands unit x.0 ≡ true)
      → (removal f b x).1.failed ≡ x.1.failed
  unfolding removal
  removal-failed b x h =
      let x1 = remove_vhost f x in
      let x2 = disable_service f x1 in
      let x3 = remove_unit f x2 in
      let x4 = remove_file f sudoers x3 in
      let x5 = remove_file f binary x4 in
      let x6 = remove_file f previous_binary x5 in
      let x7 = remove_tree f tls_dir x6 in
      let stopped = disable_service-stops x1 (stoppable-remove_vhost x h) in
      remove_data_dir-failed b (remove_account f x7)
      ∙ (remove_account-failed x7 (still_idle x2 stopped)
          ∙ (remove_tree-failed tls_dir x6
              ∙ (remove_file-failed previous_binary x5
                  ∙ (remove_file-failed binary x4
                      ∙ (remove_file-failed sudoers x3
                          ∙ (remove_unit-failed x2
                              ∙ (disable_service-failed x1 ∙ remove_vhost-failed x)))))))

  Bare-Shrinks : (x y : Run) → Shrinks x y → Bare x.0 → Bare y.0
  Bare-Shrinks x y (gone, user, group, _, _, _) (h, no_user, no_group) =
      (λ q hit. gone q (h q hit), user no_user, group no_group)

  remove_file-Bare :
      (p : Place) (x : Run) → taken true p ≡ true → Bare x.0 → (remove_file f p x).1 ≡ x.1
  unfolding remove_file
  remove_file-Bare p (s, r) hit (h, _, _) = ground (arith, h p hit)

  remove_account-Bare : (x : Run) → Bare x.0 → (remove_account f x).1 ≡ x.1
  unfolding remove_account
  remove_account-Bare (s, r) (_, no_user, no_group) =
      ground (arith, no_user, no_group, sound s.tick, sound (s.tick + 1))

  remove_vhost-Bare : (x : Run) → Bare x.0 → (remove_vhost f x).1 ≡ x.1
  unfolding remove_vhost
  remove_vhost-Bare (s, r) (h, _, _) = ground (arith, h vhost refl)

  disable_service-Bare : (x : Run) → Bare x.0 → (disable_service f x).1 ≡ x.1
  unfolding disable_service
  disable_service-Bare (s, r) (h, _, _) = ground (arith, h unit refl)

  remove_unit-Bare : (x : Run) → Bare x.0 → (remove_unit f x).1 ≡ x.1
  unfolding remove_unit
  remove_unit-Bare (s, r) (h, _, _) = ground (arith, h unit refl)

  remove_tree-Bare : (x : Run) → Bare x.0 → (remove_tree f tls_dir x).1 ≡ x.1
  unfolding remove_tree
  remove_tree-Bare (s, r) (h, _, _) = ground (arith, h tls_dir refl)

  remove_data_dir-Bare : (b : Bool) (x : Run) → Bare x.0 → (remove_data_dir f b x).1 ≡ x.1
  unfolding remove_data_dir
  remove_data_dir-Bare b (s, r) (h, _, _) = ground (arith, h data_dir refl)

  pub removal-Bare : (b : Bool) (x : Run) → Bare x.0 → (removal f b x).1 ≡ x.1
  unfolding removal
  removal-Bare b x h0 =
      let x1 = remove_vhost f x in
      let x2 = disable_service f x1 in
      let x3 = remove_unit f x2 in
      let x4 = remove_file f sudoers x3 in
      let x5 = remove_file f binary x4 in
      let x6 = remove_file f previous_binary x5 in
      let x7 = remove_tree f tls_dir x6 in
      let x8 = remove_account f x7 in
      let h1 = Bare-Shrinks x x1 (remove_vhost-Shrinks f x) h0 in
      let h2 = Bare-Shrinks x1 x2 (disable_service-Shrinks f x1) h1 in
      let h3 = Bare-Shrinks x2 x3 (remove_unit-Shrinks f x2) h2 in
      let h4 = Bare-Shrinks x3 x4 (remove_file-Shrinks f sudoers x3) h3 in
      let h5 = Bare-Shrinks x4 x5 (remove_file-Shrinks f binary x4) h4 in
      let h6 = Bare-Shrinks x5 x6 (remove_file-Shrinks f previous_binary x5) h5 in
      let h7 = Bare-Shrinks x6 x7 (remove_tree-Shrinks f tls_dir x6) h6 in
      remove_data_dir-Bare b x8 (Bare-Shrinks x7 x8 (remove_account-Shrinks f x7) h7)
      ∙ (remove_account-Bare x7 h7
          ∙ (remove_tree-Bare x6 h6
              ∙ (remove_file-Bare previous_binary x5 refl h5
                  ∙ (remove_file-Bare binary x4 refl h4
                      ∙ (remove_file-Bare sudoers x3 refl h3
                          ∙ (remove_unit-Bare x2 h2
                              ∙ (disable_service-Bare x1 h1 ∙ remove_vhost-Bare x h0)))))))
