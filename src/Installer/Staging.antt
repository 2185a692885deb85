-- ===== src/Installer/Staging.antt =====
-- What the steps of installBinary leave at each path, where they fail and where they do not.
use dokkup.Common.{
  ◌≡◌, refl, ◌∙◌, ◌⊎◌, inl, inr, Bool, true, false, Option, arith, ◌==◌, Text, number_key, text_key,
}
use dokkup.Installer.{attempt, or_tidy, keep_previous, keep_if}
use dokkup.Places.{Place, binary, previous_binary, staged_binary, place_key}
use dokkup.System.{System, Tools, and_then, write_file, rename_file}

-- the steps of installBinary, from where there was a binary or was none
abbrev pub binary_installed : Tools → Text → Bool → System → Bool × System
binary_installed f self had s =
    and_then (λ t. or_tidy f staged_binary (rename_file f staged_binary binary t))
      (and_then (λ t. or_tidy f staged_binary (keep_if had f t))
        (and_then (λ t. or_tidy f staged_binary (write_file f staged_binary self t)) (attempt f s)))

keep_previous-other :
    (f : Tools) (q : Place) (s : System)
    → (previous_binary == q) ≡ false
    → (keep_previous f s).1.files q ≡ s.files q
keep_previous-other f q s other = ground arith

or_tidy-other :
    (f : Tools) (p q : Place) (r : Bool × System)
    → (p == q) ≡ false
    → (or_tidy f p r).1.files q ≡ r.1.files q
or_tidy-other f p q (true, s) other = refl
or_tidy-other f p q (false, s) other = ground arith

or_tidy-0 : (f : Tools) (p : Place) (r : Bool × System) → (or_tidy f p r).0 ≡ r.0
or_tidy-0 f p (true, s) = refl
or_tidy-0 f p (false, s) = refl

-- a path that a step leaves alone, however the one before it ended
pub and_then-files :
    (q : Place) (v : Option Text) (next : System → Bool × System) (r : Bool × System)
    → ((t : System) → (next t).1.files q ≡ t.files q)
    → r.1.files q ≡ v
    → (and_then next r).1.files q ≡ v
and_then-files q v next (true, t) same_file h = same_file t ∙ h
and_then-files q v next (false, t) same_file h = h

-- a path that a step leaves alone where it fails
pub and_then-failed :
    (q : Place) (v : Option Text) (next : System → Bool × System) (r : Bool × System)
    → ((t : System) → (next t).0 ≡ false → (next t).1.files q ≡ t.files q)
    → r.1.files q ≡ v
    → (and_then next r).0 ≡ false
    → (and_then next r).1.files q ≡ v
and_then-failed q v next (true, t) same_file h g = same_file t g ∙ h
and_then-failed q v next (false, t) same_file h g = h

module _ (f : Tools) (self : Text) (q : Place) (not_staged : (staged_binary == q) ≡ false) where
  abbrev prepared : Bool → System → Bool × System
  prepared had s =
      and_then (λ t. or_tidy f staged_binary (keep_if had f t))
        (and_then (λ t. or_tidy f staged_binary (write_file f staged_binary self t)) (attempt f s))

  prepared-other :
      (had : Bool) (s : System)
      → (had ≡ false) ⊎ ((previous_binary == q) ≡ false)
      → (prepared had s).1.files q ≡ s.files q
  prepared-other had s h =
      and_then-files q (s.files q) (λ t. or_tidy f staged_binary (keep_if had f t))
        (and_then (λ t. or_tidy f staged_binary (write_file f staged_binary self t)) (attempt f s))
        (λ t. or_tidy-other f staged_binary q (keep_if had f t) not_staged ∙ keep_if-other had t h)
        (and_then-files q (s.files q)
          (λ t. or_tidy f staged_binary (write_file f staged_binary self t)) (attempt f s)
          (λ t.
            or_tidy-other f staged_binary q (write_file f staged_binary self t) not_staged
            ∙ ground arith)
          (ground arith))
    where
      keep_if-other :
          (had : Bool) (t : System)
          → (had ≡ false) ⊎ ((previous_binary == q) ≡ false)
          → (keep_if had f t).1.files q ≡ t.files q
      keep_if-other true t (inl h) = absurd cc
      keep_if-other true t (inr h) = keep_previous-other f q t h
      keep_if-other false t h = refl

  pub binary_installed-other :
      (had : Bool) (s : System)
      → (binary == q) ≡ false
      → (had ≡ false) ⊎ ((previous_binary == q) ≡ false)
      → (binary_installed f self had s).1.files q ≡ s.files q
  binary_installed-other had s other h =
      and_then-files q (s.files q)
        (λ t. or_tidy f staged_binary (rename_file f staged_binary binary t)) (prepared had s)
        (λ t.
          or_tidy-other f staged_binary q (rename_file f staged_binary binary t) not_staged
          ∙ ground arith)
        (prepared-other had s h)

  pub binary_installed-failed :
      (had : Bool) (s : System)
      → (had ≡ false) ⊎ ((previous_binary == q) ≡ false)
      → (binary_installed f self had s).0 ≡ false
      → (binary_installed f self had s).1.files q ≡ s.files q
  binary_installed-failed had s h =
      and_then-failed q (s.files q)
        (λ t. or_tidy f staged_binary (rename_file f staged_binary binary t)) (prepared had s)
        (λ t g.
          or_tidy-other f staged_binary q (rename_file f staged_binary binary t) not_staged
          ∙ ground (arith, or_tidy-0 f staged_binary (rename_file f staged_binary binary t)))
        (prepared-other had s h)

-- where all went well, the copy is of the binary that was there
pub binary_installed-kept :
    (f : Tools) (self : Text) (s : System)
    → (binary_installed f self true s).0 ≡ true
    → (binary_installed f self true s).1.files previous_binary ≡ s.files binary
binary_installed-kept f self s h = ground arith
