-- ===== src/System/Files.antt =====
-- What is at a path.
use dokkup.Common.{◌≡◌, refl, false, none, inl, inr, true, not, arith, Option-cases}
use dokkup.Places.{Place}
use dokkup.System.{System, stands}

pub stands-files : (p : Place) (s s' : System) → s'.files p ≡ s.files p → stands p s' ≡ stands p s
stands-files p s s' h = rw (h, stands) refl

pub stands-none : (p : Place) (s : System) → s.files p ≡ none → stands p s ≡ false
stands-none p s h = rw (h, stands) refl

pub not_standing : (p : Place) (s : System) → not (stands p s) ≡ true → s.files p ≡ none
not_standing p s h = elim (Option-cases (s.files p)) [
  | inl absent ↦ absent
  | inr (c, there) ↦ absurd (ground arith)
]
