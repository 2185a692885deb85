-- ===== src/Release/Order.antt =====
-- The order of versions.
use dokkup.Common.{ℕ, ◌≡◌, refl, Option, none, some, arith, ◌⊎◌, inl, inr, true, false, Text}
use dokkup.Release.{
  later, compare_parsed, parse_version, earlier, same, compare_versions, newer, same_version,
  is_release,
}

abbrev Above : Option (ℕ × ℕ × ℕ) → Option (ℕ × ℕ × ℕ) → Type 0
Above a b = compare_parsed a b ≡ later

later_trans : (a b c : Option (ℕ × ℕ × ℕ)) → Above a b → Above b c → Above a c
later_trans none none c h g = cc
later_trans none (some _) c h g = cc
later_trans (some _) none none h g = cc
later_trans (some _) none (some _) h g = cc
later_trans (some _) (some _) none h g = refl
later_trans (some (a0, a1, a2)) (some (b0, b1, b2)) (some (c0, c1, c2)) h g = ground arith

same_parsed : (a b : Option (ℕ × ℕ × ℕ)) → compare_parsed a b ≡ same → a ≡ b
same_parsed none none h = refl
same_parsed none (some _) h = cc
same_parsed (some _) none h = cc
same_parsed (some (a0, a1, a2)) (some (b0, b1, b2)) h = ground arith

-- Newer is transitive: no chain of updates, each to a newer version, leads back.
pub newer_trans : (a b c : Text) → newer a b ≡ true → newer b c ≡ true → newer a c ≡ true
unfolding newer compare_versions
newer_trans a b c h g =
    ground (arith, later_trans (parse_version a) (parse_version b) (parse_version c))

one_of_three :
    (a b : Option (ℕ × ℕ × ℕ))
    → ((compare_parsed a b ≡ later) × (compare_parsed b a ≡ earlier))
      ⊎ ((compare_parsed a b ≡ earlier) × (compare_parsed b a ≡ later))
      ⊎ ((compare_parsed a b ≡ same) × (compare_parsed b a ≡ same))
one_of_three none none = inr (inr (refl, refl))
one_of_three none (some _) = inr (inl (refl, refl))
one_of_three (some _) none = inl (refl, refl)
one_of_three (some (a0, a1, a2)) (some (b0, b1, b2)) = ground arith

-- Of two versions the first is newer, or the second is, or they are the same release: one of the three
-- and no two of them.
pub newer_or_same :
    (a b : Text)
    → ((newer a b ≡ true) × (newer b a ≡ false) × (same_version a b ≡ false))
      ⊎ ((newer a b ≡ false) × (newer b a ≡ true) × (same_version a b ≡ false))
      ⊎ ((newer a b ≡ false) × (newer b a ≡ false) × (same_version a b ≡ true))
unfolding newer same_version compare_versions
newer_or_same a b = elim (one_of_three (parse_version a) (parse_version b)) [
  | inl h ↦ inl (ground arith)
  | inr (inl h) ↦ inr (inl (ground arith))
  | inr (inr h) ↦ inr (inr (ground arith))
]

-- Two names of one release compare alike with every third version, and name a release both or neither.
pub same_version_alike :
    (a b c : Text)
    → same_version a b ≡ true
    → (newer a c ≡ newer b c)
      × (newer c a ≡ newer c b)
      × (same_version a c ≡ same_version b c)
      × (is_release a ≡ is_release b)
unfolding newer same_version compare_versions is_release
same_version_alike a b c h =
    let alike : parse_version a ≡ parse_version b =
      same_parsed (parse_version a) (parse_version b) (ground arith) in
    rw alike (refl, refl, refl, refl)
