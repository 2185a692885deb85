-- ===== src/Common/Sorting.antt =====
-- `ORDER BY`: insertion sort by a Boolean order.
use Prim.Native.Nat.{ℕ, zero, suc, ◌≤◌}
use mathlib.Core.Path.{◌≡◌, refl}
use mathlib.Core.Bool.{Bool, true, false}
use mathlib.Core.List.{List, [], ◌∷◌}
use native.Mathlib.Omega.{arith}
use dokkup.Common.Tests.{if◌then◌else◌}
use dokkup.Common.Lists.{length, take, count_where}

module _ {ℓ} {A : Type ℓ} (before : A → A → Bool) where
  pub insert_by : A → List A → List A
  insert_by a [] = a ∷ []
  insert_by a (x ∷ xs) = let rest = insert_by a xs in if before a x then a ∷ x ∷ xs else x ∷ rest

  unfoldable pub sort_by : List A → List A
  unfolding insert_by
  sort_by [] = []
  sort_by (x ∷ xs) = insert_by x (sort_by xs)

  -- each element may stand before the next
  abbrev pub Ordered : List A → Type 0
  Ordered [] = Unit
  Ordered (x ∷ []) = Unit
  Ordered (x ∷ y ∷ xs) = (before x y ≡ true) × Ordered (y ∷ xs)

  module _ (total : (a b : A) → before a b ≡ false → before b a ≡ true) where
    insert_by-Ordered : (a : A) (xs : List A) → Ordered xs → Ordered (insert_by a xs)
    unfolding insert_by
    insert_by-Ordered a [] h = tt
    insert_by-Ordered a (x ∷ []) h = ground (arith, total a x)
    insert_by-Ordered a (x ∷ y ∷ xs) h = ground (arith, total a x, insert_by-Ordered a (y ∷ xs) h.1)

    pub sort_by-Ordered : (xs : List A) → Ordered (sort_by xs)
    unfolding sort_by
    sort_by-Ordered [] = tt
    sort_by-Ordered (x ∷ xs) = insert_by-Ordered x (sort_by xs) (sort_by-Ordered xs)

  count_where-insert_by :
      (p : A → Bool) (a : A) (xs : List A) → count_where p (insert_by a xs) ≡ count_where p (a ∷ xs)
  unfolding insert_by
  count_where-insert_by p a [] = refl
  count_where-insert_by p a (x ∷ xs) = ground (arith, count_where-insert_by p a xs)

  pub count_where-sort_by :
      (p : A → Bool) (xs : List A) → count_where p (sort_by xs) ≡ count_where p xs
  unfolding sort_by
  count_where-sort_by p [] = refl
  count_where-sort_by p (x ∷ xs) =
      ground (arith, count_where-insert_by p x (sort_by xs), count_where-sort_by p xs)

  pub take-Ordered : (n : ℕ) (xs : List A) → Ordered xs → Ordered (take n xs)
  take-Ordered zero xs h = tt
  take-Ordered (suc n) [] h = tt
  take-Ordered (suc zero) (x ∷ xs) h = tt
  take-Ordered (suc (suc n)) (x ∷ []) h = tt
  take-Ordered (suc (suc n)) (x ∷ y ∷ xs) h = (h.0, take-Ordered (suc n) (y ∷ xs) h.1)

pub length-take {ℓ} : {A : Type ℓ} (n : ℕ) (xs : List A) → length (take n xs) ≤ n
length-take zero xs = omega arith
length-take (suc n) [] = omega arith
length-take (suc n) (x ∷ xs) = omega (arith, length-take n xs)
