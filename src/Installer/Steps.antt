-- ===== src/Installer/Steps.antt =====
-- Each step of an installation leads back, where no write is torn and no adjustment of what was just made
-- fails.
use mathlib.Core.Path.{subst}
use dokkup.Common.{
  ℕ, ◌≡◌, Bool, false, Option, Text, ◌+◌, ap, inl, inr, true, arith, Bool-cases, ◌==◌, number_key,
  text_key, ◌⊎◌, not, sym, none,
}
use dokkup.Installer.{
  write_owned_file, attempt, stage_vhost, Installing, ensure_account, data_dir_at,
}
use dokkup.Installer.Restoring.{SameBut}
use dokkup.Installer.Unwinding.{temporary, SameFiles}
use dokkup.Places.{
  Place, previous_binary, sudoers, vhost, vhost_staging, same_place_iff, data_dir, tls_dir, within,
  place_key,
}
use dokkup.System.{System, Tools, and_then, write_file, write_sudoers, stands, ensure_dir}

-- a write that fails leaves the file as it was, and chmod, chown and the usermod after useradd succeed
abbrev pub IsWhole : Tools → Type 0
IsWhole f = (n : ℕ) → (f.fails_late n ≡ false) × ((c : Option Text) → f.torn n c ≡ c)

abbrev pub IsSound : Tools → Type 0
IsSound g = (n : ℕ) → (g.fails n ≡ false) × (g.fails_late n ≡ false)

not_previous : (p : Place) → temporary p ≡ false → (p == previous_binary) ≡ false
not_previous p h = ground arith

-- what is renamed to the place of the sudoers rule
abbrev pub sudoers_written : Tools → Text → System → Bool × System
sudoers_written f rule s =
    and_then (write_sudoers f sudoers rule) (and_then (attempt f) (attempt f s))

module _ (f : Tools) (whole : IsWhole f) where
  pub same_content : (p q : Place) (s : System) → (p == q) ≡ true → s.files p ≡ s.files q
  same_content p q s same_one = ap s.files ((same_place_iff p q).0 same_one)

  pub write_file-other :
      (p q : Place) (c : Text) (s : System)
      → (p == q) ≡ false
      → (write_file f p c s).1.files q ≡ s.files q
  write_file-other p q c s other = ground arith

  pub write_file-failed :
      (p q : Place) (c : Text) (s : System)
      → (write_file f p c s).0 ≡ false
      → (write_file f p c s).1.files q ≡ s.files q
  write_file-failed p q c s h = elim (Bool-cases (p == q)) [
    | inl same_one ↦ ground (arith, (whole s.tick).1 (s.files p), same_content p q s same_one)
    | inr other ↦ write_file-other p q c s other
  ]

  write_owned_file-other :
      (p q : Place) (c : Text) (s : System)
      → (p == q) ≡ false
      → (write_owned_file f p c s).1.files q ≡ s.files q
  write_owned_file-other p q c s other = ground arith

  write_owned_file-failed :
      (p q : Place) (c : Text) (s : System)
      → (write_owned_file f p c s).0 ≡ false
      → (write_owned_file f p c s).1.files q ≡ s.files q
  write_owned_file-failed p q c s h = elim (Bool-cases (p == q)) [
    | inl same_one ↦ ground (
      arith,
      (whole (s.tick + 2)).1 (s.files p),
      (whole (s.tick + 3)).0,
      same_content p q s same_one,
    )
    | inr other ↦ write_owned_file-other p q c s other
  ]

  pub write_owned_file-SameBut :
      (kept : Bool) (p : Place) (c : Text) (s : System)
      → temporary p ≡ false
      → SameBut kept p (write_owned_file f p c s).1 s
  write_owned_file-SameBut kept p c s own = (
    λ q other w. write_owned_file-other p q c s other,
    λ w. write_owned_file-other p previous_binary c s (not_previous p own),
  )

  pub write_owned_file-SameFiles :
      (kept : Bool) (p : Place) (c : Text) (s : System)
      → (write_owned_file f p c s).0 ≡ false
      → SameFiles kept (write_owned_file f p c s).1 s
  write_owned_file-SameFiles kept p c s h = (
    λ q w. write_owned_file-failed p q c s h,
    λ w. write_owned_file-failed p previous_binary c s h,
  )

  pub write_sudoers-SameFiles :
      (kept : Bool) (rule : Text) (s : System)
      → (sudoers_written f rule s).0 ≡ false
      → SameFiles kept (sudoers_written f rule s).1 s
  write_sudoers-SameFiles kept rule s h = (λ q w. ground arith, λ w. ground arith)

  pub write_sudoers-SameBut :
      (kept : Bool) (rule : Text) (s : System) → SameBut kept sudoers (sudoers_written f rule s).1 s
  write_sudoers-SameBut kept rule s = (λ q other w. ground arith, λ w. ground arith)

  pub stage_vhost-other :
      (q : Place) (text : Text) (s : System)
      → (vhost == q) ≡ false
      → (vhost_staging == q) ≡ false
      → (stage_vhost f text s).1.files q ≡ s.files q
  stage_vhost-other q text s other not_staging = ground arith

  pub stage_vhost-failed :
      (q : Place) (text : Text) (s : System)
      → (vhost_staging == q) ≡ false
      → (stage_vhost f text s).0 ≡ false
      → (stage_vhost f text s).1.files q ≡ s.files q
  stage_vhost-failed q text s not_staging h = ground arith

  pub ensure_dir-same :
      (p q : Place) (s : System)
      → (not (stands p s) ≡ false) ⊎ ((ensure_dir f p s).0 ≡ false)
      → (ensure_dir f p s).1.files q ≡ s.files q
  ensure_dir-same p q s (inl h) = ground (arith, (whole (s.tick + 1)).0, (whole (s.tick + 2)).0)
  ensure_dir-same p q s (inr h) = ground (arith, (whole (s.tick + 1)).0, (whole (s.tick + 2)).0)

pub ensure_dir-other :
    (f : Tools) (p q : Place) (s : System)
    → (p == q) ≡ false
    → (ensure_dir f p s).1.files q ≡ s.files q
ensure_dir-other f p q s other = ground arith

pub ensure_account-files :
    (f : Tools) (x : Installing) (q : Place) → (ensure_account f x).1.0.files q ≡ x.0.files q
unfolding ensure_account
ensure_account-files f (s, us) q = ground arith

below_tls : (q : Place) → within tls_dir q ≡ true → (data_dir == q) ≡ false
below_tls q h = elim (Bool-cases (data_dir == q)) [
  | inr other ↦ other
  | inl same_one ↦ absurd (
      ground (
        arith,
        subst (λ r. within tls_dir r ≡ true) (sym ((same_place_iff data_dir q).0 same_one)) h,
      ))
]

pub data_dir_at-bare :
    (f : Tools) (q : Place) (x : Installing)
    → within tls_dir q ≡ true
    → (x.0.files tls_dir ≡ none → x.0.files q ≡ none)
    → (data_dir_at f data_dir x).1.0.files tls_dir ≡ none
    → (data_dir_at f data_dir x).1.0.files q ≡ none
data_dir_at-bare f q (s, us) under rooted h = ground (arith, below_tls q under)
