-- ===== src/Release.antt =====
-- internal/release: what versions are called and how they compare, which file of a release is for
-- this machine, and which checksum vouches for it.
pub mod Order
pub mod Fetch
pub mod Transfer
use dokkup.Common.{
  ℕ, ◌+◌, ◌-◌, ◌*◌, ◌^◌, Bool, true, false, ◌&&◌, Option, none, some, List, [], ◌∷◌, ltb,
  if◌then◌else◌, same_number, Text, ◌||◌, ◌++◌, ◌==◌, number_key, text_key,
}
use dokkup.Common.Strings.{codes, is_digit, trim_space, trim_prefix}

-- strings.Cut, what is before the first `c`
abbrev pub before : ℕ → Text → Text
before c [] = []
before c (d ∷ s) = let rest = before c s in if same_number d c then [] else d ∷ rest

abbrev onto_first : ℕ → List Text → List Text
onto_first d [] = (d ∷ []) ∷ []
onto_first d (part ∷ parts) = (d ∷ part) ∷ parts

-- strings.Split, at one byte
abbrev pub split_on : ℕ → Text → List Text
split_on c [] = [] ∷ []
split_on c (d ∷ s) =
    let rest = split_on c s in if same_number d c then [] ∷ rest else onto_first d rest

-- strconv.Atoi on 64 bits: whether the number is below zero, and its magnitude
abbrev digits_from : ℕ → Text → Option ℕ
digits_from n [] = some n
digits_from n (c ∷ s) =
    let rest = digits_from (n * 10 + (c - b'0')) s in if is_digit c then rest else none

abbrev decimal : Text → Option ℕ
decimal [] = none
decimal (c ∷ s) = digits_from 0 (c ∷ s)

abbrev in_range : Bool → Option ℕ → Option (Bool × ℕ)
in_range negative none = none
in_range negative (some n) =
    if ltb n (if negative then 2 ^ 63 + 1 else 2 ^ 63) then some (negative, n) else none

abbrev pub atoi : Text → Option (Bool × ℕ)
atoi [] = none
atoi (c ∷ s) =
    if same_number c b'-'
    then in_range true (decimal s)
    else if same_number c b'+'
    then in_range false (decimal s)
    else in_range false (decimal (c ∷ s))

-- a number of a version is not below zero
abbrev component : Option (Bool × ℕ) → Option ℕ
component none = none
component (some (negative, n)) = if negative && ltb 0 n then none else some n

abbrev all_three : Option ℕ → Option ℕ → Option ℕ → Option (ℕ × ℕ × ℕ)
all_three (some a) (some b) (some c) = some (a, b, c)
all_three _ _ _ = none

abbrev pub triple : List Text → Option (ℕ × ℕ × ℕ)
triple (a ∷ b ∷ c ∷ []) = all_three (component (atoi a)) (component (atoi b)) (component (atoi c))
triple _ = none

-- parseVersion
unfoldable pub parse_version : Text → Option (ℕ × ℕ × ℕ)
parse_version version =
    let bare = trim_prefix (trim_space version) (codes "v") in
    triple (split_on b'.' (before b'+' (before b'-' bare)))

-- the sign of what `compare` returns
pub data Comparison : Type 0 where
  earlier same later : Comparison

abbrev pub compare_number : ℕ → ℕ → Comparison → Comparison
compare_number a b rest = if same_number a b then rest else if ltb a b then earlier else later

-- what parses as nothing is older than every release
abbrev pub compare_parsed : Option (ℕ × ℕ × ℕ) → Option (ℕ × ℕ × ℕ) → Comparison
compare_parsed none none = same
compare_parsed none (some _) = earlier
compare_parsed (some _) none = later
compare_parsed (some (a, b, c)) (some (a', b', c')) =
    compare_number a a' (compare_number b b' (compare_number c c' same))

-- compare
unfoldable pub compare_versions : Text → Text → Comparison
compare_versions a b = compare_parsed (parse_version a) (parse_version b)

abbrev is_later : Comparison → Bool
is_later later = true
is_later _ = false

abbrev is_same : Comparison → Bool
is_same same = true
is_same _ = false

-- Newer
unfoldable pub newer : Text → Text → Bool
unfolding compare_versions
newer want current = is_later (compare_versions want current)

-- SameVersion
unfoldable pub same_version : Text → Text → Bool
unfolding compare_versions
same_version a b = is_same (compare_versions a b)

abbrev has_parsed : Option (ℕ × ℕ × ℕ) → Bool
has_parsed none = false
has_parsed (some _) = true

-- IsRelease
unfoldable pub is_release : Text → Bool
is_release version = has_parsed (parse_version version)

-- AssetName, for GOARCH
abbrev pub asset_name : Text → Option Text
asset_name goarch =
    if goarch == codes "amd64" || goarch == codes "arm64"
    then some (codes "dokkup_linux_" ++ goarch)
    else none
