-- ===== src/Common/Lists.antt =====
-- Lists measured by native numbers, and the operations of a table of rows.
use Prim.Native.Nat.{ℕ, zero, suc, ◌+◌, ◌≤◌}
use mathlib.Core.Path.{◌≡◌}
use mathlib.Core.Bool.{Bool, false, ◌||◌}
use mathlib.Core.Option.{Option, none, some}
use mathlib.Core.List.{List, [], ◌∷◌, ◌++◌}
use native.Mathlib.Omega.{arith}
use dokkup.Common.Tests.{if◌then◌else◌}
use dokkup.Common.Keys.{Keyed, ◌==◌}

abbrev pub All {ℓ κ} : {A : Type ℓ} → (A → Type κ) → List A → Type κ
All P [] = Unit
All P (x ∷ xs) = P x × All P xs

module _ {ℓ} {A : Type ℓ} where
  abbrev pub length : List A → ℕ
  length [] = 0
  length (_ ∷ xs) = suc (length xs)

  -- the library's `filter` takes decisions; these take tests
  abbrev pub keep : (A → Bool) → List A → List A
  keep p [] = []
  keep p (x ∷ xs) = let rest = keep p xs in if p x then x ∷ rest else rest

  abbrev pub drop_where : (A → Bool) → List A → List A
  drop_where p [] = []
  drop_where p (x ∷ xs) = let rest = drop_where p xs in if p x then rest else x ∷ rest

  abbrev pub count_where : (A → Bool) → List A → ℕ
  count_where p [] = 0
  count_where p (x ∷ xs) = let rest = count_where p xs in if p x then suc rest else rest

  abbrev pub find : (A → Bool) → List A → Option A
  find p [] = none
  find p (x ∷ xs) = if p x then some x else find p xs

  abbrev pub update_where : (A → Bool) → (A → A) → List A → List A
  update_where p f [] = []
  update_where p f (x ∷ xs) = (if p x then f x else x) ∷ update_where p f xs

  abbrev pub exists : (A → Bool) → List A → Bool
  exists p [] = false
  exists p (x ∷ xs) = p x || exists p xs

  abbrev pub take : ℕ → List A → List A
  take zero xs = []
  take (suc n) [] = []
  take (suc n) (x ∷ xs) = x ∷ take n xs

  pub length-append : (xs ys : List A) → length (xs ++ ys) ≡ length xs + length ys
  length-append [] ys = omega arith
  length-append (x ∷ xs) ys = omega (arith, length-append xs ys)

  pub All-drop_where {κ} :
      (P : A → Type κ) (p : A → Bool) (xs : List A) → All P xs → All P (drop_where p xs)
  All-drop_where P p [] h = tt
  All-drop_where P p (x ∷ xs) h = ground (arith, All-drop_where P p xs h.1)

  pub count_where-drop_where :
      (p q : A → Bool) (xs : List A) → count_where p (drop_where q xs) ≤ count_where p xs
  count_where-drop_where p q [] = omega arith
  count_where-drop_where p q (x ∷ xs) = ground (arith, count_where-drop_where p q xs)

-- A column of a table whose values are distinct is a UNIQUE column.
module _ {ℓ} {A : Type ℓ} ⦃e : Keyed A⦄ where
  abbrev pub contains : A → List A → Bool
  contains a [] = false
  contains a (x ∷ xs) = a == x || contains a xs

  abbrev pub Distinct : List A → Type 0
  Distinct [] = Unit
  Distinct (x ∷ xs) = (contains x xs ≡ false) × Distinct xs
