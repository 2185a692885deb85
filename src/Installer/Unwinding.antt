-- ===== src/Installer/Unwinding.antt =====
-- What the undo steps of a run lead back to, for any step.
use dokkup.Common.{
  ◌≡◌, refl, ◌∙◌, Bool, true, false, ◌||◌, List, ◌∷◌, ◌==◌, number_key, text_key, ◌⊎◌, inl, inr,
}
use dokkup.Installer.{Undo, Installing, undoing, undoing_if}
use dokkup.Installer.Undoing.{undo_one, unwind}
use dokkup.Places.{Place, previous_binary, staged_binary, vhost_staging, vhost_candidate, place_key}
use dokkup.System.{System, Tools, and_then}
use dokkup.Updater.{step}

-- files that a run may leave: the copy that is kept of a binary, and those that are only on their way
abbrev pub temporary : Place → Bool
temporary p =
    p == previous_binary || p == staged_binary || p == vhost_staging || p == vhost_candidate

-- the same files, the temporary ones aside, and, where it is `kept`, the same copy of the binary
abbrev pub SameFiles : Bool → System → System → Type 0
SameFiles kept s' s =
    ((q : Place) → temporary q ≡ false → s'.files q ≡ s.files q)
    × (kept ≡ true → s'.files previous_binary ≡ s.files previous_binary)

-- undoing `u` takes what is like `s'` to what is like `s`
abbrev pub Undoes : Tools → Bool → Bool → Undo → System → System → Type 0
Undoes g kept kept' u s' s = (t : System) → SameFiles kept t s' → SameFiles kept' (undo_one g u t) s

-- what the undo steps of a run put back: from anything like where it is, they lead to `origin`
abbrev pub LeadsBack : Tools → Bool → System → Installing → Type 0
LeadsBack g kept origin (s, us) =
    (t : System) → SameFiles kept t s → SameFiles false (unwind g us t) origin

LeadsBack-push :
    (g : Tools) (kept kept' : Bool) (origin s s' : System) (u : Undo) (us : List Undo)
    → Undoes g kept kept' u s' s
    → LeadsBack g kept' origin (s, us)
    → LeadsBack g kept origin (s', u ∷ us)
unfolding unwind
LeadsBack-push g kept kept' origin s s' u us undoes back =
    λ t alike. back (undo_one g u t) (undoes t alike)

SameFiles-trans :
    (kept : Bool) (a b c : System) → SameFiles kept a b → SameFiles kept b c → SameFiles kept a c
SameFiles-trans kept a b c (h, k) (h', k') = (λ q w. h q w ∙ h' q w, λ w. k w ∙ k' w)

pub LeadsBack-same :
    (g : Tools) (kept : Bool) (origin s s' : System) (us : List Undo)
    → SameFiles kept s' s
    → LeadsBack g kept origin (s, us)
    → LeadsBack g kept origin (s', us)
LeadsBack-same g kept origin s s' us alike back =
    λ t h. back t (SameFiles-trans kept t s' s h alike)

pub LeadsBack-weaken :
    (g : Tools) (kept kept' : Bool) (origin : System) (x : Installing)
    → (kept' ≡ true → kept ≡ true)
    → LeadsBack g kept' origin x
    → LeadsBack g kept origin x
LeadsBack-weaken g kept kept' origin (s, us) weaker back = λ t (h, k). back t (h, λ w. k (weaker w))

-- a step that changes nothing where it fails, and where it succeeds records how to undo it
pub LeadsBack-undoing :
    (g : Tools) (kept kept' : Bool) (origin s : System) (u : Undo) (us : List Undo)
    (r : Bool × System)
    → (kept' ≡ true → kept ≡ true)
    → (r.0 ≡ false → SameFiles kept' r.1 s)
    → (r.0 ≡ true → Undoes g kept kept' u r.1 s)
    → LeadsBack g kept' origin (s, us)
    → LeadsBack g kept origin (undoing u us r).1
LeadsBack-undoing g kept kept' origin s u us (true, s') weaker same_one undoes back =
    LeadsBack-push g kept kept' origin s s' u us (undoes refl) back
LeadsBack-undoing g kept kept' origin s u us (false, s') weaker same_one undoes back =
    LeadsBack-weaken g kept kept' origin (s', us) weaker
      (LeadsBack-same g kept' origin s s' us (same_one refl) back)

pub LeadsBack-undoing_if :
    (g : Tools) (kept kept' : Bool) (origin s : System) (made : Bool) (u : Undo) (us : List Undo)
    (r : Bool × System)
    → (kept' ≡ true → kept ≡ true)
    → ((made ≡ false) ⊎ (r.0 ≡ false) → SameFiles kept' r.1 s)
    → (made ≡ true → r.0 ≡ true → Undoes g kept kept' u r.1 s)
    → LeadsBack g kept' origin (s, us)
    → LeadsBack g kept origin (undoing_if made u us r).1
LeadsBack-undoing_if g kept kept' origin s true u us r weaker same_one undoes back =
    LeadsBack-undoing g kept kept' origin s u us r weaker (λ h. same_one (inr h)) (undoes refl) back
LeadsBack-undoing_if g kept kept' origin s false u us (done, s') weaker same_one undoes back =
    LeadsBack-weaken g kept kept' origin (s', us) weaker
      (LeadsBack-same g kept' origin s s' us (same_one (inl refl)) back)

pub LeadsBack-and_then :
    (g : Tools) (kept : Bool) (origin : System) (next : Installing → Bool × Installing)
    (r : Bool × Installing)
    → ((x : Installing) → LeadsBack g kept origin x → LeadsBack g kept origin (next x).1)
    → LeadsBack g kept origin r.1
    → LeadsBack g kept origin (and_then next r).1
LeadsBack-and_then g kept origin next (true, x) step back = step x back
LeadsBack-and_then g kept origin next (false, x) step back = back
