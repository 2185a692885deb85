-- ===== src/Common/Strings.antt =====
-- The functions of Go's `strings` package that the program calls, on ASCII text.
pub mod Trimming
use Prim.Native.Char.{code}
use Prim.Native.String.{String}
use Prim.Native.Nat.{ℕ, ◌+◌}
use mathlib.Core.Bool.{Bool, true, false, ◌&&◌, ◌||◌}
use mathlib.Core.List.{[], ◌∷◌, map, reverse}
use dokkup.Common.Tests.{leb, if◌then◌else◌}
use dokkup.Common.Keys.{Text, ◌==◌, same_number}

-- The bytes of a literal.
abbrev pub codes : String → Text
codes String.[] = []
codes (String.◌∷◌ c s) = code c ∷ codes s

-- asciiSpace: tab, newline, vertical tab, form feed, carriage return, space
abbrev pub is_space : ℕ → Bool
is_space c = (leb 9 c && leb c 13) || same_number c 32

abbrev pub is_digit : ℕ → Bool
is_digit c = leb b'0' c && leb c b'9'

abbrev pub lower_byte : ℕ → ℕ
lower_byte c = if leb b'A' c && leb c b'Z' then c + 32 else c

abbrev pub trim_left : Text → Text
trim_left [] = []
trim_left (c ∷ s) = let rest = trim_left s in if is_space c then rest else c ∷ s

-- strings.TrimSpace
unfoldable pub trim_space : Text → Text
trim_space s = reverse (trim_left (reverse (trim_left s)))

-- strings.ToLower
unfoldable pub to_lower : Text → Text
to_lower s = map lower_byte s

-- strings.HasPrefix
abbrev pub has_prefix : Text → Text → Bool
has_prefix s [] = true
has_prefix [] (_ ∷ _) = false
has_prefix (c ∷ s) (d ∷ p) = same_number c d && has_prefix s p

-- what follows a prefix that is there
abbrev drop_prefix : Text → Text → Text
drop_prefix s [] = s
drop_prefix [] (_ ∷ _) = []
drop_prefix (_ ∷ s) (_ ∷ p) = drop_prefix s p

-- strings.TrimPrefix
abbrev pub trim_prefix : Text → Text → Text
trim_prefix s p = if has_prefix s p then drop_prefix s p else s
