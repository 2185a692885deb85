-- ===== src/Secret/Base64.antt =====
-- base64.RawStdEncoding, as internal/secret uses it: six bits to a character, no padding.
use dokkup.Common.{
  ℕ, ◌+◌, ◌-◌, ◌*◌, ◌/◌, ◌%◌, ◌<◌, ◌≡◌, refl, Bool, false, ◌&&◌, ◌||◌, Option, none, some, List, [],
  ◌∷◌, map, arith, ltb, leb, if◌then◌else◌, All, same_number, Text, ap,
}

abbrev pub letter : ℕ → ℕ
letter n =
    if ltb n 26
    then n + b'A'
    else if ltb n 52
    then (n - 26) + b'a'
    else if ltb n 62
    then (n - 52) + b'0'
    else if same_number n 62
    then b'+'
    else b'/'

abbrev pub sextet : ℕ → Option ℕ
sextet c =
    if leb b'A' c && leb c b'Z'
    then some (c - b'A')
    else if leb b'a' c && leb c b'z'
    then some ((c - b'a') + 26)
    else if leb b'0' c && leb c b'9'
    then some ((c - b'0') + 52)
    else if same_number c b'+'
    then some 62
    else if same_number c b'/'
    then some 63
    else none

abbrev pub sextets : Text → List ℕ
sextets [] = []
sextets (a ∷ []) = (a / 4) ∷ ((a % 4) * 16) ∷ []
sextets (a ∷ b ∷ []) = (a / 4) ∷ ((a % 4) * 16 + b / 16) ∷ ((b % 16) * 4) ∷ []
sextets (a ∷ b ∷ c ∷ s) =
    (a / 4) ∷ ((a % 4) * 16 + b / 16) ∷ ((b % 16) * 4 + c / 64) ∷ (c % 64) ∷ sextets s

-- EncodeToString
unfoldable pub encode : Text → Text
encode s = map letter (sextets s)

abbrev onto : ℕ → Option Text → Option Text
onto c none = none
onto c (some s) = some (c ∷ s)

-- bits that are left over at the end are ignored
abbrev pub bytes : List ℕ → Option Text
bytes [] = some []
bytes (x ∷ []) = none
bytes (x ∷ y ∷ []) = some ((x * 4 + y / 16) ∷ [])
bytes (x ∷ y ∷ z ∷ []) = some ((x * 4 + y / 16) ∷ ((y % 16) * 16 + z / 4) ∷ [])
bytes (x ∷ y ∷ z ∷ w ∷ s) =
    onto (x * 4 + y / 16) (onto ((y % 16) * 16 + z / 4) (onto ((z % 4) * 64 + w) (bytes s)))

-- the decoder passes over line breaks
abbrev pub is_break : ℕ → Bool
is_break c = same_number c b'\n' || same_number c b'\r'

abbrev with_sextet : Option ℕ → Option (List ℕ) → Option (List ℕ)
with_sextet (some x) (some xs) = some (x ∷ xs)
with_sextet _ _ = none

abbrev pub values : Text → Option (List ℕ)
values [] = some []
values (c ∷ s) = let rest = values s in if is_break c then rest else with_sextet (sextet c) rest

abbrev of_values : Option (List ℕ) → Option Text
of_values none = none
of_values (some xs) = bytes xs

-- DecodeString
unfoldable pub decode : Text → Option Text
decode s = of_values (values s)

abbrev pub IsBytes : Text → Type 0
IsBytes = All (λ c. c < 256)

sextets_bound : (s : Text) → IsBytes s → All (λ x. x < 64) (sextets s)
sextets_bound [] h = tt
sextets_bound (a ∷ []) h = ground arith
sextets_bound (a ∷ b ∷ []) h = ground arith
sextets_bound (a ∷ b ∷ c ∷ s) (ha, (hb, (hc, h))) =
    let rest = sextets_bound s h in
    (omega (arith, ha), (omega (arith, hb), (omega (arith, hc), (omega arith, rest))))

sextet-letter : (n : ℕ) → n < 64 → (sextet (letter n) ≡ some n) × (is_break (letter n) ≡ false)
sextet-letter n h = ground arith

values-letters : (xs : List ℕ) → All (λ x. x < 64) xs → values (map letter xs) ≡ some xs
values-letters [] h = refl
values-letters (x ∷ xs) (hx, h) =
    rw (values-letters xs h, (sextet-letter x hx).0, (sextet-letter x hx).1) refl

-- a byte is put together again from the bits of two sextets
first_byte : (a rest : ℕ) → rest < 16 → (a / 4) * 4 + ((a % 4) * 16 + rest) / 16 ≡ a
first_byte a rest h = omega (arith, h)

second_byte :
    (high b rest : ℕ)
    → b < 256
    → rest < 4
    → ((high * 16 + b / 16) % 16) * 16 + ((b % 16) * 4 + rest) / 4 ≡ b
second_byte high b rest g h = omega (arith, g, h)

third_byte : (high c : ℕ) → c < 256 → ((high * 4 + c / 64) % 4) * 64 + c % 64 ≡ c
third_byte high c h = omega (arith, h)

last_first : (a : ℕ) → (a / 4) * 4 + ((a % 4) * 16) / 16 ≡ a
last_first a = omega arith

last_second : (high b : ℕ) → b < 256 → ((high * 16 + b / 16) % 16) * 16 + ((b % 16) * 4) / 4 ≡ b
last_second high b h = omega (arith, h)

bytes-sextets : (s : Text) → IsBytes s → bytes (sextets s) ≡ some s
bytes-sextets [] h = refl
bytes-sextets (a ∷ []) (ha, _) = ap (λ x. some (x ∷ [])) (last_first a)
bytes-sextets (a ∷ b ∷ []) (ha, (hb, _)) =
    rw (first_byte a (b / 16) (omega (arith, hb)), last_second (a % 4) b hb) refl
bytes-sextets (a ∷ b ∷ c ∷ s) (ha, (hb, (hc, h))) =
    rw
      (
        bytes-sextets s h,
        first_byte a (b / 16) (omega (arith, hb)),
        second_byte (a % 4) b (c / 64) hb (omega (arith, hc)),
        third_byte (b % 16) c hc,
      )
      refl

-- What has been encoded decodes to itself.
pub decode-encode : (s : Text) → IsBytes s → decode (encode s) ≡ some s
unfolding decode encode
decode-encode s h = rw (values-letters (sextets s) (sextets_bound s h)) (bytes-sextets s h)
