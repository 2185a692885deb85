-- ===== src/Common/Columns.antt =====
-- Columns of a table, `map f rows`, under deletion and update of rows.
use mathlib.Core.Path.{◌≡◌, refl}
use mathlib.Core.Bool.{Bool, true, false}
use mathlib.Core.Option.{some}
use mathlib.Core.List.{List, [], ◌∷◌, map}
use native.Mathlib.Omega.{arith}
use dokkup.Common.Tests.{if◌then◌else◌}
use dokkup.Common.Keys.{Keyed}
use dokkup.Common.Lists.{
  All, keep, drop_where, count_where, find, update_where, exists, contains, Distinct,
}

module _ {ℓ κ} {A : Type ℓ} {K : Type κ} ⦃e : Keyed K⦄ where
  pub contains-drop_where :
      (f : A → K) (p : A → Bool) (k : K) (xs : List A)
      → contains k (map f xs) ≡ false
      → contains k (map f (drop_where p xs)) ≡ false
  contains-drop_where f p k [] h = refl
  contains-drop_where f p k (x ∷ xs) h = ground (arith, contains-drop_where f p k xs)

  pub Distinct-drop_where :
      (f : A → K) (p : A → Bool) (xs : List A)
      → Distinct (map f xs)
      → Distinct (map f (drop_where p xs))
  Distinct-drop_where f p [] h = tt
  Distinct-drop_where f p (x ∷ xs) h =
      ground (arith, Distinct-drop_where f p xs h.1, contains-drop_where f p (f x) xs h.0)

  -- a key of a row that is not deleted is still there
  pub contains-kept :
      (f : A → K) (p : A → Bool) (k : K) (xs : List A)
      → contains k (map f xs) ≡ true
      → contains k (map f (keep p xs)) ≡ false
      → contains k (map f (drop_where p xs)) ≡ true
  contains-kept f p k [] h g = h
  contains-kept f p k (x ∷ xs) h g = ground (arith, contains-kept f p k xs)

module _ {ℓ κ} {A : Type ℓ} {K : Type κ} where
  pub map-update_where :
      (f : A → K) (p : A → Bool) (u : A → A)
      → ((a : A) → f (u a) ≡ f a)
      → (xs : List A) → map f (update_where p u xs) ≡ map f xs
  map-update_where f p u same [] = refl
  map-update_where f p u same (x ∷ xs) = ground (arith, same x, map-update_where f p u same xs)

module _ {ℓ} {A : Type ℓ} where
  pub count_where-update_where :
      (q p : A → Bool) (u : A → A)
      → ((a : A) → q (u a) ≡ q a)
      → (xs : List A) → count_where q (update_where p u xs) ≡ count_where q xs
  count_where-update_where q p u same [] = refl
  count_where-update_where q p u same (x ∷ xs) =
      ground (arith, same x, count_where-update_where q p u same xs)

  pub All-update_where {κ} :
      (P : A → Type κ) (p : A → Bool) (u : A → A)
      → ((a : A) → P a → P (u a))
      → (xs : List A) → All P xs
      → All P (update_where p u xs)
  All-update_where P p u k [] h = tt
  All-update_where P p u k (x ∷ xs) h = (go (p x), All-update_where P p u k xs h.1)
    where
      go : (b : Bool) → P (if b then u x else x)
      go true = k x h.0
      go false = h.0

  pub All-weaken {κ μ} :
      (P : A → Type κ) (Q : A → Type μ)
      → ((a : A) → P a → Q a)
      → (xs : List A) → All P xs
      → All Q xs
  All-weaken P Q k [] h = tt
  All-weaken P Q k (x ∷ xs) h = (k x h.0, All-weaken P Q k xs h.1)

  pub exists-count_where : (p : A → Bool) (xs : List A) → exists p xs ≡ false → count_where p xs ≡ 0
  exists-count_where p [] h = refl
  exists-count_where p (x ∷ xs) h = ground (arith, exists-count_where p xs)

  pub find_holds : (p : A → Bool) (xs : List A) (a : A) → find p xs ≡ some a → p a ≡ true
  find_holds p [] a h = cc
  find_holds p (x ∷ xs) a h = ground (arith, find_holds p xs a)
