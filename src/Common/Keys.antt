-- ===== src/Common/Keys.antt =====
-- Equality tests as an interface, with the instances for numbers and for texts.
use Prim.Native.Nat.{ℕ, compare, Ordering}
use mathlib.Core.Bool.{Bool, true, false, ◌&&◌}
use mathlib.Core.List.{List, [], ◌∷◌}
use mathlib.Core.Logic.{◌↔◌}
use mathlib.Core.Path.{◌≡◌, refl}
use native.Mathlib.Omega.{arith}

abbrev pub same_number : ℕ → ℕ → Bool
same_number a b = elim (compare a b) [ Ordering.eq ↦ true | _ ↦ false ]

pub same_number_iff : (a b : ℕ) → (same_number a b ≡ true) ↔ (a ≡ b)
same_number_iff a b = ground arith

-- A type whose values can be compared, as keys are.
pub record Keyed {κ} (K : Type κ) : Type κ where
  pub same : (key other : K) → Bool
  pub same_iff : (key other : K) → (same key other ≡ true) ↔ (key ≡ other)

instance abbrev pub number_key : Keyed ℕ
number_key = record { same = same_number; same_iff = same_number_iff }

infix 50 ◌==◌
abbrev pub ◌==◌ {κ} : {K : Type κ} ⦃keyed : Keyed K⦄ → (key other : K) → Bool
◌==◌ ⦃keyed⦄ key other = keyed.same key other

-- A Go string is a sequence of bytes.
abbrev pub Text : Type 0
Text = List ℕ

abbrev pub same_text : Text → Text → Bool
same_text [] [] = true
same_text (a ∷ s) (b ∷ t) = same_number a b && same_text s t
same_text _ _ = false

same_text→eq : (s t : Text) → same_text s t ≡ true → s ≡ t
same_text→eq [] [] h = refl
same_text→eq [] (b ∷ t) h = cc
same_text→eq (a ∷ s) [] h = cc
same_text→eq (a ∷ s) (b ∷ t) h = ground (arith, same_text→eq s t)

same_text_refl : (s : Text) → same_text s s ≡ true
same_text_refl [] = refl
same_text_refl (a ∷ s) = ground (arith, same_text_refl s)

pub same_text_iff : (s t : Text) → (same_text s t ≡ true) ↔ (s ≡ t)
same_text_iff s t = (same_text→eq s t, λ e. rw e (same_text_refl t))

instance abbrev pub text_key : Keyed Text
text_key = record { same = same_text; same_iff = same_text_iff }

pub same_refl {ℓ} : {A : Type ℓ} ⦃e : Keyed A⦄ (a : A) → (a == a) ≡ true
same_refl ⦃e⦄ a = (e.same_iff a a).1 refl
