-- ===== src/Secret.antt =====
-- internal/secret/secret.go: passwords as PHC strings of argon2id. The key derivation of
-- golang.org/x/crypto/argon2 is the parameter `Derive`; an error is `none`.
pub mod Base64
pub mod RoundTrip
pub mod Bounds
use dokkup.Common.{
  ℕ, zero, suc, ◌+◌, ◌-◌, ◌*◌, ◌/◌, ◌%◌, ◌^◌, Bool, false, not, ◌&&◌, ◌||◌, Option, none, some,
  List, [], ◌∷◌, ◌++◌, ltb, if◌then◌else◌, length, ◌==◌, Text, number_key, text_key,
}
use dokkup.Common.Strings.{codes, is_digit, has_prefix, trim_prefix}
use dokkup.Release.{split_on}
use dokkup.Secret.Base64.{encode, decode}

pub record Cost : Type 0 where
  pub memory : ℕ
  pub time : ℕ
  pub threads : ℕ
  pub key_len : ℕ

-- argon2.IDKey: password, salt, cost
abbrev pub Derive : Type 0
Derive = Text → Text → Cost → Text

abbrev pub hash_cost : Cost
hash_cost = record { memory = 65536; time = 3; threads = 4; key_len = 32 }

abbrev pub max_key_len : ℕ
max_key_len = 64

abbrev pub max_memory : ℕ
max_memory = 4 * 65536

abbrev pub max_time : ℕ
max_time = 4 * 3

abbrev pub phc_algorithm : Text
phc_algorithm = codes "argon2id"

abbrev pub phc_version : ℕ
phc_version = 19

-- %d; a number of 64 bits has 20 digits at most
abbrev pub digits : ℕ → ℕ → Text → Text
digits zero n s = s
digits (suc fuel) n s =
    let rest = digits fuel (n / 10) ((b'0' + n % 10) ∷ s) in
    if ltb n 10 then (b'0' + n) ∷ s else rest

abbrev pub print_number : ℕ → Text
print_number n = digits 20 n []

-- the "m=%d,t=%d,p=%d" of both Sprintf calls
abbrev pub print_cost : Cost → Text
print_cost c =
    codes "m="
    ++ print_number c.memory
    ++ codes ",t="
    ++ print_number c.time
    ++ codes ",p="
    ++ print_number c.threads

abbrev pub print_version : ℕ → Text
print_version v = codes "v=" ++ print_number v

-- the string for a salt and a key
unfoldable pub print_phc : Cost → Text → Text → Text
print_phc c salt key =
    b'$' ∷ phc_algorithm
    ++ b'$' ∷ print_version phc_version
    ++ b'$' ∷ print_cost c
    ++ b'$' ∷ encode salt
    ++ b'$' ∷ encode key

-- HashPassword, with the salt that was drawn
unfoldable pub hash_password : Derive → Text → Text → Text
hash_password derive salt password = print_phc hash_cost salt (derive password salt hash_cost)

-- %d of Sscanf, below a limit. It would also take a sign, spaces and underscores; a field that has
-- them is refused either way, since it is not what the numbers print as.
abbrev pub scan_digits : ℕ → Text → ℕ × Text
scan_digits n [] = (n, [])
scan_digits n (c ∷ s) =
    let rest = scan_digits (n * 10 + (c - b'0')) s in if is_digit c then rest else (n, c ∷ s)

abbrev if_below : ℕ → ℕ × Text → Option (ℕ × Text)
if_below limit (n, s) = if ltb n limit then some (n, s) else none

abbrev pub scan_number : ℕ → Text → Option (ℕ × Text)
scan_number limit [] = none
scan_number limit (c ∷ s) = if is_digit c then if_below limit (scan_digits 0 (c ∷ s)) else none

abbrev pub scan_after : Text → ℕ → Text → Option (ℕ × Text)
scan_after literal limit s =
    if has_prefix s literal then scan_number limit (trim_prefix s literal) else none

abbrev and_then : {A B : Type 0} → Option A → (A → Option B) → Option B
and_then none f = none
and_then (some a) f = f a

abbrev pub version_matches : Text → Bool
version_matches field = elim (scan_after (codes "v=") (2 ^ 63) field) [
  | none ↦ false
  | some (v, _) ↦ print_version v == field && v == phc_version
]

abbrev pub affordable : Text → Cost → Option Cost
affordable field c =
    if not (print_cost c == field)
    then none
    else if c.memory == 0 || c.time == 0 || c.threads == 0
    then none
    else if ltb max_memory c.memory || ltb max_time c.time
    then none
    else some c

abbrev pub scan_cost : Text → Option Cost
scan_cost field = and_then (scan_after (codes "m=") (2 ^ 32) field) λ m.
    and_then (scan_after (codes ",t=") (2 ^ 32) m.1) λ t.
      and_then (scan_after (codes ",p=") (2 ^ 8) t.1)
        λ p. affordable field (record { memory = m.0; time = t.0; threads = p.0; key_len = 0 })

abbrev pub with_lengths : Cost → Text → Text → Option (Cost × Text × Text)
with_lengths c salt key =
    if salt == [] || key == []
    then none
    else if ltb max_key_len (length key)
    then none
    else some (record c { key_len = length key }, salt, key)

abbrev pub decoded_fields : Cost → Text → Text → Option (Cost × Text × Text)
decoded_fields c salt key =
    and_then (decode salt) λ s. and_then (decode key) λ k. with_lengths c s k

abbrev pub parse_fields : List Text → Option (Cost × Text × Text)
parse_fields (lead ∷ algorithm ∷ version ∷ cost ∷ salt ∷ key ∷ []) =
    if lead == [] && algorithm == phc_algorithm && version_matches version
    then and_then (scan_cost cost) (λ c. decoded_fields c salt key)
    else none
parse_fields _ = none

-- parsePHC
unfoldable pub parse_phc : Text → Option (Cost × Text × Text)
parse_phc encoded = parse_fields (split_on b'$' encoded)

-- VerifyPassword
unfoldable pub verify_password : Derive → Text → Text → Option Bool
verify_password derive encoded password =
    and_then (parse_phc encoded) λ p. some (derive password p.1 p.0 == p.2)
