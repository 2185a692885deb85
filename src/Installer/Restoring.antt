-- ===== src/Installer/Restoring.antt =====
-- What each kind of undo step puts back, where the unwinding does not fail.
use mathlib.Core.Path.{subst}
use dokkup.Common.{
  ℕ, ◌+◌, ◌≡◌, sym, ap, ◌∙◌, inl, inr, Bool, false, Option, none, some, arith, if◌then◌else◌,
  Bool-cases, Option-cases, ◌==◌, Text, number_key, text_key, refl, true,
}
use dokkup.Installer.{
  undo_file, Undo, undo_new_binary, undo_binary, undo_tree, undo_vhost, undo_unit, attempt,
}
use dokkup.Installer.Undoing.{restore_file, undo_one}
use dokkup.Installer.Unwinding.{temporary, Undoes, SameFiles}
use dokkup.Places.{
  Place, same_place_iff, binary, previous_binary, unit, vhost, within, staged_binary, sudoers,
  vhost_staging, vhost_candidate, data_dir, database, tls_dir, tls_cert, tls_key, elsewhere,
  place_key,
}
use dokkup.System.{System, Tools, remove, and_then, stands}

-- the same files but for one, and the temporary ones
abbrev pub SameBut : Bool → Place → System → System → Type 0
SameBut kept p s' s =
    ((q : Place) → (p == q) ≡ false → temporary q ≡ false → s'.files q ≡ s.files q)
    × (kept ≡ true → s'.files previous_binary ≡ s.files previous_binary)

within_refl : (p : Place) → within p p ≡ true
within_refl binary = refl
within_refl previous_binary = refl
within_refl staged_binary = refl
within_refl unit = refl
within_refl sudoers = refl
within_refl vhost = refl
within_refl vhost_staging = refl
within_refl vhost_candidate = refl
within_refl data_dir = refl
within_refl database = refl
within_refl tls_dir = refl
within_refl tls_cert = refl
within_refl tls_key = refl
within_refl (elsewhere path) = (same_place_iff (elsewhere path) (elsewhere path)).1 refl

apart : (p q : Place) → within p q ≡ false → (p == q) ≡ false
apart p q h = elim (Bool-cases (p == q)) [
  | inr other ↦ other
  | inl same_one ↦ absurd (
      ground
        (arith, subst (λ r. within p r ≡ true) ((same_place_iff p q).0 same_one) (within_refl p)))
]

module _ (g : Tools) (sound : (n : ℕ) → (g.fails n ≡ false) × (g.fails_late n ≡ false)) where
  remove-placed :
      (p q : Place) (t : System) → (remove g p t).1.files q ≡ (if p == q then none else t.files q)
  remove-placed p q t = elim (Bool-cases (p == q)) [
    | inr other ↦ ground (arith, sound t.tick)
    | inl same_one ↦ elim (Option-cases (t.files p)) [
      | inr (c, there) ↦ ground (arith, sound t.tick, there)
      | inl absent ↦
          let gone : t.files q ≡ none =
            ap t.files (sym ((same_place_iff p q).0 same_one)) ∙ absent in
          ground (arith, absent, gone)
    ]
  ]

  restore_file-placed :
      (p q : Place) (c : Option Text) (t : System)
      → (restore_file g p c t).1.files q ≡ (if p == q then c else t.files q)
  restore_file-placed p q none t = ground (arith, remove-placed p q t, sound t.tick)
  restore_file-placed p q (some c) t = ground (arith, sound t.tick, sound (t.tick + 1))

  attempt-files : (r : Bool × System) (q : Place) → (and_then (attempt g) r).1.files q ≡ r.1.files q
  attempt-files (true, t) q = ground (arith, sound t.tick)
  attempt-files (false, t) q = refl

  -- an undo step that puts back one file
  pub file-Undoes :
      (kept : Bool) (p : Place) (u : Undo) (s s' : System)
      → temporary p ≡ false
      → SameBut kept p s' s
      → ((t : System) (q : Place)
          → (undo_one g u t).files q ≡ (if p == q then s.files p else t.files q))
      → Undoes g kept kept u s' s
  file-Undoes kept p u s s' own (others, copy) undo = λ t (h, k). (
    λ q w. undo t q ∙ elim (Bool-cases (p == q)) [
      | inl same_one ↦ rw same_one (ap s.files ((same_place_iff p q).0 same_one))
      | inr other ↦ rw other (h q w ∙ others q other w)
    ],
    λ w. undo t previous_binary ∙ elim (Bool-cases (p == previous_binary)) [
      | inl same_one ↦ absurd (ground arith)
      | inr other ↦ rw other (k w ∙ copy w)
    ],
  )

  pub undo_file-Undoes :
      (kept : Bool) (p : Place) (s s' : System)
      → temporary p ≡ false
      → SameBut kept p s' s
      → Undoes g kept kept (undo_file p (s.files p)) s' s
  undo_file-Undoes kept p s s' own rest =
      file-Undoes kept p (undo_file p (s.files p)) s s' own rest
        (λ t q. restore_file-placed p q (s.files p) t)

  pub undo_vhost-Undoes :
      (kept : Bool) (s s' : System)
      → SameBut kept vhost s' s
      → Undoes g kept kept (undo_vhost (s.files vhost)) s' s
  undo_vhost-Undoes kept s s' rest =
      file-Undoes kept vhost (undo_vhost (s.files vhost)) s s' refl rest (λ t q.
        attempt-files (restore_file g vhost (s.files vhost) t) q
        ∙ restore_file-placed vhost q (s.files vhost) t)

  pub undo_unit-Undoes :
      (kept : Bool) (s s' : System)
      → SameBut kept unit s' s
      → Undoes g kept kept (undo_unit (s.files unit)) s' s
  undo_unit-Undoes kept s s' rest =
      file-Undoes kept unit (undo_unit (s.files unit)) s s' refl rest (λ t q.
        attempt-files (restore_file g unit (s.files unit) t) q
        ∙ restore_file-placed unit q (s.files unit) t)

  -- an undo step that changes no file
  pub no_file-Undoes :
      (kept : Bool) (u : Undo) (s s' : System)
      → SameFiles kept s' s
      → ((t : System) (q : Place) → (undo_one g u t).files q ≡ t.files q)
      → Undoes g kept kept u s' s
  no_file-Undoes kept u s s' (others, copy) undo = λ t (h, k).
      (λ q w. undo t q ∙ (h q w ∙ others q w), λ w. undo t previous_binary ∙ (k w ∙ copy w))

  -- a directory that was made
  pub undo_tree-Undoes :
      (kept : Bool) (p : Place) (s s' : System)
      → ((q : Place) → within p q ≡ true → s.files q ≡ none)
      → within p previous_binary ≡ false
      → SameBut kept p s' s
      → Undoes g kept kept (undo_tree p) s' s
  undo_tree-Undoes kept p s s' bare own (others, copy) = λ t (h, k). (
    λ q w. elim (Bool-cases (within p q)) [
      | inl under ↦ ground (arith, sound t.tick, bare q under)
      | inr outside ↦ ground (arith, sound t.tick, h q w, others q (apart p q outside) w)
    ],
    λ w. ground (arith, sound t.tick, k w, copy w),
  )

  -- the binary that was replaced, of which a copy was kept
  pub undo_binary-Undoes :
      (s s' : System)
      → stands binary s ≡ true
      → SameBut false binary s' s
      → s'.files previous_binary ≡ s.files binary
      → Undoes g true false undo_binary s' s
  undo_binary-Undoes s s' there (others, copy) copied = λ t (h, k).
      let back : t.files previous_binary ≡ s.files binary = k refl ∙ copied in
      let kept_one : stands previous_binary t ≡ true = rw (back, stands) there in
      (
        λ q w. elim (Bool-cases (binary == q)) [
          | inl same_one ↦
              let found : s.files binary ≡ s.files q =
                ap s.files ((same_place_iff binary q).0 same_one) in
              ground (arith, sound t.tick, kept_one, back, found)
          | inr other ↦ ground (arith, sound t.tick, kept_one, h q w, others q other w)
        ],
        λ w. absurd cc,
      )

  -- a binary where there was none
  pub undo_new_binary-Undoes :
      (s s' : System)
      → s.files binary ≡ none
      → SameBut true binary s' s
      → Undoes g true true undo_new_binary s' s
  undo_new_binary-Undoes s s' absent rest =
      file-Undoes true binary undo_new_binary s s' refl rest
        (λ t q. rw absent (remove-placed binary q t))
