-- ===== src/Secret/RoundTrip.antt =====
-- A password that was hashed.
use dokkup.Common.{
  ℕ, ◌≡◌, refl, ap, ◌∙◌, false, some, List, [], ◌∷◌, ◌++◌, map, arith, length, same_number, ◌==◌,
  Text, number_key, text_key, ◌<◌, true, same_text_iff, zero, suc, ◌+◌, ◌*◌, ◌/◌, ◌%◌, inl, inr,
  ltb, Bool-cases,
}
use dokkup.Release.{split_on}
use dokkup.Secret.{
  Cost, Derive, hash_cost, print_phc, parse_phc, hash_password, decoded_fields, verify_password,
  digits, scan_digits,
}
use dokkup.Secret.Base64.{letter, sextets, encode, IsBytes, decode-encode}

-- what the program relies on: a key has the length that was asked for, and is made of bytes
pub record IsDerive (derive : Derive) : Type 0 where
  pub key_length : (password salt : Text) (c : Cost) → length (derive password salt c) ≡ c.key_len
  pub key_bytes : (password salt : Text) (c : Cost) → IsBytes (derive password salt c)

-- no part of what base64 prints ends a field
letter-dollar : (n : ℕ) → same_number (letter n) b'$' ≡ false
letter-dollar n = ground arith

split-letters :
    (xs : List ℕ) (s : Text)
    → split_on b'$' (map letter xs ++ b'$' ∷ s) ≡ map letter xs ∷ split_on b'$' s
split-letters [] s = refl
split-letters (x ∷ xs) s = rw (split-letters xs s, letter-dollar x) refl

split-last : (xs : List ℕ) → split_on b'$' (map letter xs) ≡ map letter xs ∷ []
split-last [] = refl
split-last (x ∷ xs) = rw (split-last xs, letter-dollar x) refl

split-encoded :
    (salt key : Text)
    → split_on b'$' (encode salt ++ b'$' ∷ encode key) ≡ encode salt ∷ encode key ∷ []
unfolding encode
split-encoded salt key =
    split-letters (sextets salt) (encode key)
    ∙ ap (λ t. map letter (sextets salt) ∷ t) (split-last (sextets key))

not_empty : (key : Text) → length key ≡ 32 → (key == []) ≡ false
not_empty [] h = absurd (omega (arith, h))
not_empty (c ∷ key) h = refl

with_decoded :
    (salt key : Text)
    → IsBytes salt
    → IsBytes key
    → (salt == []) ≡ false
    → length key ≡ 32
    → decoded_fields (record hash_cost { key_len = 0 }) (encode salt) (encode key)
      ≡ some (hash_cost, salt, key)
with_decoded salt key bs bk ns lk =
    rw (decode-encode salt bs, decode-encode key bk, ns, not_empty key lk, lk) refl

-- What HashPassword prints parses to the cost it was hashed at, its salt and its key.
pub parse_phc-print_phc :
    (salt key : Text)
    → IsBytes salt
    → IsBytes key
    → (salt == []) ≡ false
    → length key ≡ hash_cost.key_len
    → parse_phc (print_phc hash_cost salt key) ≡ some (hash_cost, salt, key)
unfolding parse_phc print_phc
parse_phc-print_phc salt key bs bk ns lk =
    rw (split-encoded salt key) (with_decoded salt key bs bk ns lk)

-- Against the string that a password was hashed to, a password verifies exactly when it derives the same
-- key, and so the password itself does.
pub verify_password-hash_password :
    (derive : Derive) (salt password other : Text)
    → IsDerive derive
    → IsBytes salt
    → (salt == []) ≡ false
    → let hashed = hash_password derive salt password in
      (verify_password derive hashed other
        ≡ some (derive other salt hash_cost == derive password salt hash_cost))
      × (verify_password derive hashed password ≡ some true)
unfolding verify_password hash_password
verify_password-hash_password derive salt password other d bs ns =
    let key = derive password salt hash_cost in
    let parsed =
      parse_phc-print_phc salt key bs (d.key_bytes password salt hash_cost) ns
        (d.key_length password salt hash_cost) in
    (rw parsed refl, rw (parsed, (same_text_iff key key).1 refl) refl)

abbrev ten_to : ℕ → ℕ
ten_to zero = 1
ten_to (suc k) = 10 * ten_to k

-- As many digits as a number is allowed are enough to print it: it is read back as itself.
scan_digits-digits :
    (fuel n : ℕ) (s : Text) → n < ten_to fuel → scan_digits 0 (digits fuel n s) ≡ scan_digits n s
scan_digits-digits zero n s h = ap (λ m. scan_digits m s) (omega (arith, h))
scan_digits-digits (suc fuel) n s h = elim (Bool-cases (ltb n 10)) [
  | inl small ↦ ground arith
  | inr big ↦
      ground (arith, scan_digits-digits fuel (n / 10) ((b'0' + n % 10) ∷ s) (omega (arith, h)))
]
