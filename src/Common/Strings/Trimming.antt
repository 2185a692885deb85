-- ===== src/Common/Strings/Trimming.antt =====
-- `strings.ToLower(strings.TrimSpace(s))` is a fixed point of itself.
use Prim.Native.Nat.{ℕ}
use mathlib.Core.Bool.{Bool, true, not}
use mathlib.Core.List.{[], ◌∷◌, ◌++◌, map, reverse, reverse-append, reverse-reverse}
use mathlib.Core.Path.{◌≡◌, refl, sym, ap, ◌∙◌}
use native.Mathlib.Omega.{arith}
use dokkup.Common.{Text, if◌then◌else◌}
use dokkup.Common.Strings.{is_space, lower_byte, trim_left, trim_space, to_lower}

-- no space at the front
abbrev pub no_lead : Text → Bool
no_lead [] = true
no_lead (c ∷ s) = not (is_space c)

no_lead-trim_left : (s : Text) → no_lead (trim_left s) ≡ true
no_lead-trim_left [] = refl
no_lead-trim_left (c ∷ s) = ground (arith, no_lead-trim_left s)

trim_left_id : (s : Text) → no_lead s ≡ true → trim_left s ≡ s
trim_left_id [] h = refl
trim_left_id (c ∷ s) h = ground arith

-- what is cut off at the front
lead : Text → Text
lead [] = []
lead (c ∷ s) = let rest = lead s in if is_space c then c ∷ rest else []

lead-append-trim_left : (s : Text) → lead s ++ trim_left s ≡ s
unfolding lead
lead-append-trim_left [] = refl
lead-append-trim_left (c ∷ s) = ground (arith, lead-append-trim_left s)

no_lead-append : (s t : Text) → no_lead (s ++ t) ≡ true → no_lead s ≡ true
no_lead-append [] t h = refl
no_lead-append (c ∷ s) t h = h

trim_space-append :
    (s : Text) → trim_space s ++ reverse (lead (reverse (trim_left s))) ≡ trim_left s
unfolding trim_space
trim_space-append s =
    sym (reverse-append (lead (reverse (trim_left s))) (trim_left (reverse (trim_left s))))
    ∙ (ap reverse (lead-append-trim_left (reverse (trim_left s))) ∙ reverse-reverse (trim_left s))

no_lead-trim_space : (s : Text) → no_lead (trim_space s) ≡ true
no_lead-trim_space s =
    no_lead-append (trim_space s) (reverse (lead (reverse (trim_left s))))
      (rw (trim_space-append s) (no_lead-trim_left s))

no_lead-reverse-trim_space : (s : Text) → no_lead (reverse (trim_space s)) ≡ true
unfolding trim_space
no_lead-reverse-trim_space s =
    rw (reverse-reverse (trim_left (reverse (trim_left s))))
      (no_lead-trim_left (reverse (trim_left s)))

pub trim_space_id : (s : Text) → no_lead s ≡ true → no_lead (reverse s) ≡ true → trim_space s ≡ s
unfolding trim_space
trim_space_id s h g = rw (trim_left_id s h, trim_left_id (reverse s) g) (reverse-reverse s)

no_lead-lower : (s : Text) → no_lead (map lower_byte s) ≡ no_lead s
no_lead-lower [] = refl
no_lead-lower (c ∷ s) = ground arith

lower_idem : (s : Text) → map lower_byte (map lower_byte s) ≡ map lower_byte s
lower_idem [] = refl
lower_idem (c ∷ s) = ground (arith, lower_idem s)

map-snoc : (s : Text) (c : ℕ) → map lower_byte (s ++ c ∷ []) ≡ map lower_byte s ++ lower_byte c ∷ []
map-snoc [] c = refl
map-snoc (d ∷ s) c = ap (λ t. lower_byte d ∷ t) (map-snoc s c)

reverse-lower : (s : Text) → reverse (map lower_byte s) ≡ map lower_byte (reverse s)
reverse-lower [] = refl
reverse-lower (c ∷ s) =
    reverse-append (lower_byte c ∷ []) (map lower_byte s)
    ∙ (ap (λ t. t ++ lower_byte c ∷ []) (reverse-lower s)
        ∙ (sym (map-snoc (reverse s) c) ∙ ap (map lower_byte) (sym (reverse-append (c ∷ []) s))))

-- The normal form of an address is its own normal form.
pub lower-trim_idem :
    (s : Text) → to_lower (trim_space (to_lower (trim_space s))) ≡ to_lower (trim_space s)
unfolding to_lower
lower-trim_idem s =
    ap (map lower_byte) (
      trim_space_id (map lower_byte (trim_space s))
        (no_lead-lower (trim_space s) ∙ no_lead-trim_space s)
        (ap no_lead (reverse-lower (trim_space s))
          ∙ (no_lead-lower (reverse (trim_space s)) ∙ no_lead-reverse-trim_space s)))
    ∙ lower_idem (trim_space s)
