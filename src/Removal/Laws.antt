-- ===== src/Removal/Laws.antt =====
-- What a removal leaves on the host.
use mathlib.Core.Path.{subst}
use dokkup.Common.{
  ◌≡◌, ◌∙◌, Bool, true, false, ◌&&◌, ◌||◌, none, [], arith, exists, refl, sym, List, ◌∷◌, ◌==◌,
  number_key, text_key, inl, inr, Bool-cases, All,
}
use dokkup.Places.{
  Place, binary, previous_binary, sudoers, data_dir, tls_dir, within, unit, vhost, same_place_iff,
  place_key,
}
use dokkup.Removal.{
  Run, remove_file, remove_tree, remove_vhost, disable_service, remove_unit, remove_account,
  remove_data_dir, removal_targets, removal,
}
use dokkup.Removal.Steps.{
  Shrinks, Shrinks-trans, remove_file-other, remove_tree-other, remove_vhost-other,
  remove_unit-other, disable_service-files, remove_account-files, remove_data_dir-other,
  remove_file-Shrinks, remove_tree-Shrinks, remove_unit-Shrinks, disable_service-Shrinks,
  remove_account-Shrinks, remove_data_dir-Shrinks, remove_vhost-Shrinks, remove_file-clears,
  remove_vhost-clears, remove_unit-clears, remove_tree-clears, remove_data_dir-clears,
  remove_account-clears, disable_service-clears,
}
use dokkup.System.{System, Tools, stands}
use dokkup.System.Files.{stands-files}

-- a path that a removal takes
abbrev pub taken : Bool → Place → Bool
taken remove_data q = exists (λ p. within p q) removal_targets || (remove_data && within data_dir q)

-- what is under a path that is not there is not there either
abbrev pub IsRooted : System → Type 0
IsRooted s = (p q : Place) → within p q ≡ true → s.files p ≡ none → s.files q ≡ none

-- what is left to do after each step
abbrev after_tree : Tools → Bool → Run → Run
after_tree f b x = remove_data_dir f b (remove_account f x)

abbrev after_previous : Tools → Bool → Run → Run
after_previous f b x = after_tree f b (remove_tree f tls_dir x)

abbrev after_binary : Tools → Bool → Run → Run
after_binary f b x = after_previous f b (remove_file f previous_binary x)

abbrev after_sudoers : Tools → Bool → Run → Run
after_sudoers f b x = after_binary f b (remove_file f binary x)

abbrev after_unit : Tools → Bool → Run → Run
after_unit f b x = after_sudoers f b (remove_file f sudoers x)

abbrev after_service : Tools → Bool → Run → Run
after_service f b x = after_unit f b (remove_unit f x)

abbrev after_vhost : Tools → Bool → Run → Run
after_vhost f b x = after_service f b (disable_service f x)

after_tree-Shrinks : (f : Tools) (b : Bool) (x : Run) → Shrinks x (after_tree f b x)
after_tree-Shrinks f b x =
    Shrinks-trans x (remove_account f x) (after_tree f b x) (remove_account-Shrinks f x)
      (remove_data_dir-Shrinks f b (remove_account f x))

after_previous-Shrinks : (f : Tools) (b : Bool) (x : Run) → Shrinks x (after_previous f b x)
after_previous-Shrinks f b x =
    let y = remove_tree f tls_dir x in
    Shrinks-trans x y (after_tree f b y) (remove_tree-Shrinks f tls_dir x)
      (after_tree-Shrinks f b y)

after_binary-Shrinks : (f : Tools) (b : Bool) (x : Run) → Shrinks x (after_binary f b x)
after_binary-Shrinks f b x =
    let y = remove_file f previous_binary x in
    Shrinks-trans x y (after_previous f b y) (remove_file-Shrinks f previous_binary x)
      (after_previous-Shrinks f b y)

after_sudoers-Shrinks : (f : Tools) (b : Bool) (x : Run) → Shrinks x (after_sudoers f b x)
after_sudoers-Shrinks f b x =
    let y = remove_file f binary x in
    Shrinks-trans x y (after_binary f b y) (remove_file-Shrinks f binary x)
      (after_binary-Shrinks f b y)

after_unit-Shrinks : (f : Tools) (b : Bool) (x : Run) → Shrinks x (after_unit f b x)
after_unit-Shrinks f b x =
    let y = remove_file f sudoers x in
    Shrinks-trans x y (after_sudoers f b y) (remove_file-Shrinks f sudoers x)
      (after_sudoers-Shrinks f b y)

after_service-Shrinks : (f : Tools) (b : Bool) (x : Run) → Shrinks x (after_service f b x)
after_service-Shrinks f b x =
    let y = remove_unit f x in
    Shrinks-trans x y (after_unit f b y) (remove_unit-Shrinks f x) (after_unit-Shrinks f b y)

after_vhost-Shrinks : (f : Tools) (b : Bool) (x : Run) → Shrinks x (after_vhost f b x)
after_vhost-Shrinks f b x =
    let y = disable_service f x in
    Shrinks-trans x y (after_service f b y) (disable_service-Shrinks f x)
      (after_service-Shrinks f b y)

-- a step that clears a path where it does not fail has cleared it in the end, where nothing failed
in_the_end :
    (q : Place) (x y : Run)
    → Shrinks x y
    → y.1.failed ≡ []
    → (x.1.failed ≡ [] → x.0.files q ≡ none)
    → y.0.files q ≡ none
in_the_end q x y (shrinks, _, _, _, _, clean) h cleared = shrinks q (cleared (clean h))

-- what is done before each of the two directories
abbrev before_tree : Tools → Run → Run
before_tree f x =
    let off = remove_unit f (disable_service f (remove_vhost f x)) in
    remove_file f previous_binary (remove_file f binary (remove_file f sudoers off))

abbrev before_data : Tools → Run → Run
before_data f x = remove_account f (remove_tree f tls_dir (before_tree f x))

before_tree-Shrinks : (f : Tools) (x : Run) → Shrinks x (before_tree f x)
before_tree-Shrinks f x =
    let x1 = remove_vhost f x in
    let x2 = disable_service f x1 in
    let x3 = remove_unit f x2 in
    let x4 = remove_file f sudoers x3 in
    let x5 = remove_file f binary x4 in
    Shrinks-trans x x1 (before_tree f x) (remove_vhost-Shrinks f x) (
      Shrinks-trans x1 x2 (before_tree f x) (disable_service-Shrinks f x1) (
        Shrinks-trans x2 x3 (before_tree f x) (remove_unit-Shrinks f x2) (
          Shrinks-trans x3 x4 (before_tree f x) (remove_file-Shrinks f sudoers x3) (
            Shrinks-trans x4 x5 (before_tree f x) (remove_file-Shrinks f binary x4)
              (remove_file-Shrinks f previous_binary x5)))))

before_data-Shrinks : (f : Tools) (x : Run) → Shrinks x (before_data f x)
before_data-Shrinks f x =
    let y = before_tree f x in
    let z = remove_tree f tls_dir y in
    Shrinks-trans x y (before_data f x) (before_tree-Shrinks f x) (
      Shrinks-trans y z (before_data f x) (remove_tree-Shrinks f tls_dir y)
        (remove_account-Shrinks f z))

before_tree-other :
    (f : Tools) (q : Place) (x : Run)
    → exists (λ p. p == q) (vhost ∷ unit ∷ sudoers ∷ binary ∷ previous_binary ∷ []) ≡ false
    → (before_tree f x).0.files q ≡ x.0.files q
before_tree-other f q x h =
    let x1 = remove_vhost f x in
    let x2 = disable_service f x1 in
    let x3 = remove_unit f x2 in
    let x4 = remove_file f sudoers x3 in
    let x5 = remove_file f binary x4 in
    remove_file-other f previous_binary q x5 (ground arith)
    ∙ (remove_file-other f binary q x4 (ground arith)
        ∙ (remove_file-other f sudoers q x3 (ground arith)
            ∙ (remove_unit-other f q x2 (ground arith)
                ∙ (disable_service-files f q x1 ∙ remove_vhost-other f q x (ground arith)))))

before_data-other :
    (f : Tools) (q : Place) (x : Run)
    → exists (λ p. within p q) removal_targets ≡ false
    → (before_data f x).0.files q ≡ x.0.files q
before_data-other f q x h =
    remove_account-files f q (remove_tree f tls_dir (before_tree f x))
    ∙ (remove_tree-other f tls_dir q (before_tree f x) (ground arith)
        ∙ before_tree-other f q x (ground arith))

-- Removal leaves every path alone that is not one of its targets, under one, or, where the data is to
-- go, in the data directory.
pub removal_spares :
    (f : Tools) (b : Bool) (q : Place) (x : Run)
    → taken b q ≡ false
    → (removal f b x).0.files q ≡ x.0.files q
unfolding removal
removal_spares f b q x h =
    remove_data_dir-other f b q (before_data f x) (ground arith)
    ∙ before_data-other f q x (ground arith)

-- the targets that are files, each gone where no failure is reported
abbrev file_targets : List Place
file_targets = vhost ∷ unit ∷ sudoers ∷ binary ∷ previous_binary ∷ []

abbrev Gone : Tools → Bool → Run → Place → Type 0
Gone f b x q = (removal f b x).0.files q ≡ none

-- A removal that reports no failure has removed the account and its group, and has stopped the service
-- where there was a unit.
pub removal_account_gone :
    (f : Tools) (b : Bool) (x : Run)
    → (removal f b x).1.failed ≡ []
    → ((removal f b x).0.user ≡ false)
      × ((removal f b x).0.group ≡ false)
      × (stands unit x.0 ≡ true
          → ((removal f b x).0.running ≡ none) × ((removal f b x).0.enabled ≡ false))
unfolding removal
removal_account_gone f b x h =
    let y = remove_tree f tls_dir (before_tree f x) in
    let ended = remove_data_dir-Shrinks f b (before_data f x) in
    let gone = remove_account-clears f y (ended.5 h) in
    let rest = after_vhost-Shrinks f b (remove_vhost f x) in
    let z = disable_service f (remove_vhost f x) in
    let stopped = after_service-Shrinks f b z in
    (
      ended.1 gone.0,
      ended.2 gone.1,
      λ there.
          let off =
            disable_service-clears f (remove_vhost f x)
              (stands-files unit x.0 (remove_vhost f x).0 (remove_vhost-other f unit x refl)
                ∙ there)
              (stopped.5 h) in
          (stopped.3 off.0, stopped.4 off.1),
    )

module _ (f : Tools) (b : Bool) (x : Run) (clean : (removal f b x).1.failed ≡ []) where
  off : Run
  off = remove_unit f (disable_service f (remove_vhost f x))

  vhost-Gone : Gone f b x vhost
  unfolding removal
  vhost-Gone =
      in_the_end vhost (remove_vhost f x) (removal f b x)
        (after_vhost-Shrinks f b (remove_vhost f x)) clean (remove_vhost-clears f x)

  unit-Gone : Gone f b x unit
  unfolding removal off
  unit-Gone =
      in_the_end unit off (removal f b x) (after_unit-Shrinks f b off) clean
        (remove_unit-clears f (disable_service f (remove_vhost f x)))

  sudoers-Gone : Gone f b x sudoers
  unfolding removal off
  sudoers-Gone =
      let y = remove_file f sudoers off in
      in_the_end sudoers y (removal f b x) (after_sudoers-Shrinks f b y) clean
        (remove_file-clears f sudoers off)

  binary-Gone : Gone f b x binary
  unfolding removal off
  binary-Gone =
      let y = remove_file f sudoers off in
      let z = remove_file f binary y in
      in_the_end binary z (removal f b x) (after_binary-Shrinks f b z) clean
        (remove_file-clears f binary y)

  previous_binary-Gone : Gone f b x previous_binary
  unfolding removal off
  previous_binary-Gone =
      let y = remove_file f binary (remove_file f sudoers off) in
      in_the_end previous_binary (before_tree f x) (removal f b x)
        (after_previous-Shrinks f b (before_tree f x)) clean
        (remove_file-clears f previous_binary y)

  tls_dir-Gone : (q : Place) → IsRooted x.0 → within tls_dir q ≡ true → Gone f b x q
  unfolding removal off
  tls_dir-Gone q rooted under =
      let y = before_tree f x in
      in_the_end q (remove_tree f tls_dir y) (removal f b x)
        (after_tree-Shrinks f b (remove_tree f tls_dir y)) clean
        (remove_tree-clears f tls_dir q y under (λ h.
          (before_tree-Shrinks f x).0 q
            (rooted tls_dir q under (sym (before_tree-other f tls_dir x refl) ∙ h))))

data_dir-Gone :
    (f : Tools) (q : Place) (x : Run)
    → (removal f true x).1.failed ≡ []
    → IsRooted x.0
    → within data_dir q ≡ true
    → Gone f true x q
unfolding removal
data_dir-Gone f q x clean rooted under =
    remove_data_dir-clears f q (before_data f x) under
      (λ h.
        (before_data-Shrinks f x).0 q
          (rooted data_dir q under (sym (before_data-other f data_dir x refl) ∙ h)))
      clean

all_at :
    (P : Place → Type 0) (q : Place) (ps : List Place)
    → All P ps
    → exists (λ p. p == q) ps ≡ true
    → P q
all_at P q [] all h = absurd cc
all_at P q (p ∷ ps) (first_one, others) h = elim (Bool-cases (p == q)) [
  | inl same_one ↦ subst P ((same_place_iff p q).0 same_one) first_one
  | inr other ↦ all_at P q ps others (ground arith)
]

removal_target-Gone :
    (f : Tools) (b : Bool) (q : Place) (x : Run)
    → IsRooted x.0
    → (removal f b x).1.failed ≡ []
    → exists (λ p. within p q) removal_targets ≡ true
    → Gone f b x q
removal_target-Gone f b q x rooted h g = elim (Bool-cases (within tls_dir q)) [
  | inl under ↦ tls_dir-Gone f b x h q rooted under
  | inr not_under ↦
      all_at (Gone f b x) q file_targets
        (
          vhost-Gone f b x h,
          (
            unit-Gone f b x h,
            (sudoers-Gone f b x h, (binary-Gone f b x h, (previous_binary-Gone f b x h, tt))),
          ),
        )
        (ground arith)
]

-- A removal that reports no failure has taken every one of its targets and all that was under one, the
-- data directory included where the data was to go.
pub removal_gone :
    (f : Tools) (b : Bool) (q : Place) (x : Run)
    → IsRooted x.0
    → (removal f b x).1.failed ≡ []
    → taken b q ≡ true
    → (removal f b x).0.files q ≡ none
removal_gone f true q x rooted h g = elim (Bool-cases (within data_dir q)) [
  | inl inside ↦ data_dir-Gone f q x h rooted inside
  | inr outside ↦ removal_target-Gone f true q x rooted h (ground arith)
]
removal_gone f false q x rooted h g = removal_target-Gone f false q x rooted h (ground arith)
