-- ===== src/Examples/Passwords.antt =====
-- Passwords as PHC strings.
use dokkup.Common.{
  ℕ, zero, suc, ◌%◌, ◌≡◌, refl, ap, true, some, [], ◌∷◌, arith, length, ◌==◌, Text, number_key,
  text_key,
}
use dokkup.Common.Strings.{codes}
use dokkup.Secret.{Derive, hash_cost, print_phc, hash_password, parse_phc, verify_password}
use dokkup.Secret.Base64.{IsBytes}
use dokkup.Secret.Bounds.{IsBounded, parse_phc-IsBounded}
use dokkup.Secret.RoundTrip.{IsDerive, parse_phc-print_phc, verify_password-hash_password}

-- a key that is the password, cut or padded
abbrev padded : ℕ → Text → Text
padded zero s = []
padded (suc n) [] = 0 ∷ padded n []
padded (suc n) (c ∷ s) = (c % 256) ∷ padded n s

length-padded : (n : ℕ) (s : Text) → length (padded n s) ≡ n
length-padded zero s = refl
length-padded (suc n) [] = ap suc (length-padded n [])
length-padded (suc n) (c ∷ s) = ap suc (length-padded n s)

padded-IsBytes : (n : ℕ) (s : Text) → IsBytes (padded n s)
padded-IsBytes zero s = tt
padded-IsBytes (suc n) [] = (omega arith, padded-IsBytes n [])
padded-IsBytes (suc n) (c ∷ s) = (omega arith, padded-IsBytes n s)

abbrev padding : Derive
padding password salt c = padded c.key_len password

padding-IsDerive : IsDerive padding
padding-IsDerive = record {
  key_length = λ password salt c. length-padded c.key_len password;
  key_bytes = λ password salt c. padded-IsBytes c.key_len password;
}

abbrev salt : Text
salt = codes "0123456789abcdef"

salt-IsBytes : IsBytes salt
salt-IsBytes = ground arith

abbrev key : Text
key = padded 32 (codes "secret")

verify_password-hash_password_example :
    let hashed = hash_password padding salt (codes "secret") in
    (verify_password padding hashed (codes "guess")
      ≡ some (padding (codes "guess") salt hash_cost == padding (codes "secret") salt hash_cost))
    × (verify_password padding hashed (codes "secret") ≡ some true)
verify_password-hash_password_example =
    verify_password-hash_password padding salt (codes "secret") (codes "guess") padding-IsDerive
      salt-IsBytes refl

it_parses : parse_phc (print_phc hash_cost salt key) ≡ some (hash_cost, salt, key)
it_parses = parse_phc-print_phc salt key salt-IsBytes (padded-IsBytes 32 (codes "secret")) refl refl

parse_phc-IsBounded_example : IsBounded (hash_cost, salt, key)
parse_phc-IsBounded_example =
    parse_phc-IsBounded (print_phc hash_cost salt key) (hash_cost, salt, key) it_parses
