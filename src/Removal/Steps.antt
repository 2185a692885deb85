-- ===== src/Removal/Steps.antt =====
-- What each step of a removal does to the files, the account and the report.
use dokkup.Common.{
  ◌≡◌, Bool, true, false, arith, ◌==◌, number_key, text_key, ◌&&◌, none, List, [], ◌∷◌, ◌++◌, ◌≢◌,
  same_refl,
}
use dokkup.Places.{Place, unit, vhost, elsewhere, within, data_dir, place_key}
use dokkup.Removal.{
  Run, remove_file, remove_tree, remove_vhost, disable_service, remove_unit, remove_account,
  remove_data_dir, the_service, the_user, the_group, path_at,
}
use dokkup.System.{System, Tools, remove, remove_all, stands}

-- a path that removal has no business with
abbrev pub foreign : Place → Bool
foreign (elsewhere _) = true
foreign _ = false

remove-other :
    (f : Tools) (p q : Place) (s : System) → (p == q) ≡ false → (remove f p s).1.files q ≡ s.files q
remove-other f p q s h = ground arith

pub remove_all-other :
    (f : Tools) (p q : Place) (s : System)
    → within p q ≡ false
    → (remove_all f p s).1.files q ≡ s.files q
remove_all-other f p q s h = ground arith

pub remove_file-other :
    (f : Tools) (p q : Place) (x : Run)
    → (p == q) ≡ false
    → (remove_file f p x).0.files q ≡ x.0.files q
unfolding remove_file
remove_file-other f p q (s, r) h = ground arith

pub remove_tree-other :
    (f : Tools) (p q : Place) (x : Run)
    → within p q ≡ false
    → (remove_tree f p x).0.files q ≡ x.0.files q
unfolding remove_tree
remove_tree-other f p q (s, r) h = ground arith

pub remove_vhost-other :
    (f : Tools) (q : Place) (x : Run)
    → (vhost == q) ≡ false
    → (remove_vhost f x).0.files q ≡ x.0.files q
unfolding remove_vhost
remove_vhost-other f q (s, r) h = ground arith

pub remove_unit-other :
    (f : Tools) (q : Place) (x : Run)
    → (unit == q) ≡ false
    → (remove_unit f x).0.files q ≡ x.0.files q
unfolding remove_unit
remove_unit-other f q (s, r) h = ground arith

pub disable_service-files :
    (f : Tools) (q : Place) (x : Run) → (disable_service f x).0.files q ≡ x.0.files q
unfolding disable_service
disable_service-files f q (s, r) = ground arith

pub remove_account-files :
    (f : Tools) (q : Place) (x : Run) → (remove_account f x).0.files q ≡ x.0.files q
unfolding remove_account
remove_account-files f q (s, r) = ground arith

pub remove_data_dir-other :
    (f : Tools) (b : Bool) (q : Place) (x : Run)
    → (b && within data_dir q) ≡ false
    → (remove_data_dir f b x).0.files q ≡ x.0.files q
unfolding remove_data_dir
remove_data_dir-other f b q (s, r) h = ground arith

-- nothing comes back, and a failure stays in the report
abbrev pub Shrinks : Run → Run → Type 0
Shrinks (s, r) (s', r') =
    ((q : Place) → s.files q ≡ none → s'.files q ≡ none)
    × (s.user ≡ false → s'.user ≡ false)
    × (s.group ≡ false → s'.group ≡ false)
    × (s.running ≡ none → s'.running ≡ none)
    × (s.enabled ≡ false → s'.enabled ≡ false)
    × (r'.failed ≡ [] → r.failed ≡ [])

pub Shrinks-trans : (x y z : Run) → Shrinks x y → Shrinks y z → Shrinks x z
Shrinks-trans x y z (a, b, c, d, e, g) (a', b', c', d', e', g') =
    (λ q h. a' q (a q h), λ h. b' (b h), λ h. c' (c h), λ h. d' (d h), λ h. e' (e h), λ h. g (g' h))

pub snoc-nil {ℓ} : {A : Type ℓ} (xs : List A) (a : A) → xs ++ a ∷ [] ≢ []
snoc-nil [] a h = cc
snoc-nil (x ∷ xs) a h = cc

pub remove_file-Shrinks : (f : Tools) (p : Place) (x : Run) → Shrinks x (remove_file f p x)
unfolding remove_file
remove_file-Shrinks f p (s, r) = (
  λ q h. ground arith,
  ground arith,
  ground arith,
  ground arith,
  ground arith,
  ground (arith, snoc-nil r.failed (path_at p)),
)

pub remove_tree-Shrinks : (f : Tools) (p : Place) (x : Run) → Shrinks x (remove_tree f p x)
unfolding remove_tree
remove_tree-Shrinks f p (s, r) = (
  λ q h. ground arith,
  ground arith,
  ground arith,
  ground arith,
  ground arith,
  ground (arith, snoc-nil r.failed (path_at p)),
)

pub remove_vhost-Shrinks : (f : Tools) (x : Run) → Shrinks x (remove_vhost f x)
unfolding remove_vhost
remove_vhost-Shrinks f (s, r) = (
  λ q h. ground arith,
  ground arith,
  ground arith,
  ground arith,
  ground arith,
  ground (arith, snoc-nil r.failed (path_at vhost)),
)

pub remove_unit-Shrinks : (f : Tools) (x : Run) → Shrinks x (remove_unit f x)
unfolding remove_unit
remove_unit-Shrinks f (s, r) = (
  λ q h. ground arith,
  ground arith,
  ground arith,
  ground arith,
  ground arith,
  ground (arith, snoc-nil r.failed (path_at unit)),
)

pub disable_service-Shrinks : (f : Tools) (x : Run) → Shrinks x (disable_service f x)
unfolding disable_service
disable_service-Shrinks f (s, r) = (
  λ q h. ground arith,
  ground arith,
  ground arith,
  ground arith,
  ground arith,
  ground (arith, snoc-nil r.failed the_service),
)

pub remove_account-Shrinks : (f : Tools) (x : Run) → Shrinks x (remove_account f x)
unfolding remove_account
remove_account-Shrinks f (s, r) = (
  λ q h. ground arith,
  ground arith,
  ground arith,
  ground arith,
  ground arith,
  ground (arith, snoc-nil r.failed the_user, snoc-nil r.failed the_group),
)

pub remove_data_dir-Shrinks : (f : Tools) (b : Bool) (x : Run) → Shrinks x (remove_data_dir f b x)
unfolding remove_data_dir
remove_data_dir-Shrinks f b (s, r) = (
  λ q h. ground arith,
  ground arith,
  ground arith,
  ground arith,
  ground arith,
  ground (arith, snoc-nil r.failed (path_at data_dir)),
)

pub remove_file-clears :
    (f : Tools) (p : Place) (x : Run)
    → (remove_file f p x).1.failed ≡ []
    → (remove_file f p x).0.files p ≡ none
unfolding remove_file
remove_file-clears f p (s, r) h = ground (arith, snoc-nil r.failed (path_at p), same_refl p)

pub remove_vhost-clears :
    (f : Tools) (x : Run)
    → (remove_vhost f x).1.failed ≡ []
    → (remove_vhost f x).0.files vhost ≡ none
unfolding remove_vhost
remove_vhost-clears f (s, r) h = ground (arith, snoc-nil r.failed (path_at vhost))

pub remove_unit-clears :
    (f : Tools) (x : Run) → (remove_unit f x).1.failed ≡ [] → (remove_unit f x).0.files unit ≡ none
unfolding remove_unit
remove_unit-clears f (s, r) h = ground (arith, snoc-nil r.failed (path_at unit))

pub remove_tree-clears :
    (f : Tools) (p q : Place) (x : Run)
    → within p q ≡ true
    → (x.0.files p ≡ none → x.0.files q ≡ none)
    → (remove_tree f p x).1.failed ≡ []
    → (remove_tree f p x).0.files q ≡ none
unfolding remove_tree
remove_tree-clears f p q (s, r) under rooted h = ground (arith, snoc-nil r.failed (path_at p))

pub remove_data_dir-clears :
    (f : Tools) (q : Place) (x : Run)
    → within data_dir q ≡ true
    → (x.0.files data_dir ≡ none → x.0.files q ≡ none)
    → (remove_data_dir f true x).1.failed ≡ []
    → (remove_data_dir f true x).0.files q ≡ none
unfolding remove_data_dir
remove_data_dir-clears f q (s, r) under rooted h =
    ground (arith, snoc-nil r.failed (path_at data_dir))

pub remove_account-clears :
    (f : Tools) (x : Run)
    → (remove_account f x).1.failed ≡ []
    → ((remove_account f x).0.user ≡ false) × ((remove_account f x).0.group ≡ false)
unfolding remove_account
remove_account-clears f (s, r) h = (
  ground (arith, snoc-nil r.failed the_user),
  ground (
    arith,
    snoc-nil r.failed the_user,
    snoc-nil r.failed the_group,
    snoc-nil (r.removed) the_user,
  ),
)

pub disable_service-clears :
    (f : Tools) (x : Run)
    → stands unit x.0 ≡ true
    → (disable_service f x).1.failed ≡ []
    → ((disable_service f x).0.running ≡ none) × ((disable_service f x).0.enabled ≡ false)
unfolding disable_service
disable_service-clears f (s, r) there h =
    (ground (arith, snoc-nil r.failed the_service), ground (arith, snoc-nil r.failed the_service))
