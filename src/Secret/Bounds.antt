-- ===== src/Secret/Bounds.antt =====
-- The work that a stored string can ask for.
use dokkup.Common.{
  ◌^◌, ◌≤◌, ◌<◌, ◌≡◌, ◌≢◌, inl, inr, ◌&&◌, some, List, [], ◌∷◌, arith, Bool-cases, Option-cases,
  length, ◌==◌, Text, number_key, text_key, ltb,
}
use dokkup.Common.Strings.{codes}
use dokkup.Release.{split_on}
use dokkup.Secret.{
  Cost, max_key_len, max_memory, max_time, phc_algorithm, scan_after, version_matches, affordable,
  scan_cost, with_lengths, decoded_fields, parse_fields, parse_phc,
}
use dokkup.Secret.Base64.{decode}

-- a cost that is not zero, nor past what this program is willing to pay
abbrev pub IsAffordable : Cost → Type 0
IsAffordable c =
    (0 < c.memory) × (c.memory ≤ max_memory) × (0 < c.time) × (c.time ≤ max_time) × (0 < c.threads)

affordable_lem : (field : Text) (c c' : Cost) → affordable field c ≡ some c' → IsAffordable c'
affordable_lem field c c' h = ground arith

scan_cost_lem : (field : Text) (c : Cost) → scan_cost field ≡ some c → IsAffordable c
scan_cost_lem field c h = elim (Option-cases (scan_after (codes "m=") (2 ^ 32) field)) [
  | inl g ↦ absurd (ground arith)
  | inr (m, g) ↦ elim (Option-cases (scan_after (codes ",t=") (2 ^ 32) m.1)) [
    | inl g' ↦ absurd (ground arith)
    | inr (t, g') ↦ elim (Option-cases (scan_after (codes ",p=") (2 ^ 8) t.1)) [
      | inl g'' ↦ absurd (ground arith)
      | inr (p, g'') ↦
          affordable_lem field (record { memory = m.0; time = t.0; threads = p.0; key_len = 0 }) c
            (ground arith)
    ]
  ]
]

abbrev pub IsBounded : Cost × Text × Text → Type 0
IsBounded (c, salt, key) =
    IsAffordable c
    × (salt ≢ [])
    × (key ≢ [])
    × (c.key_len ≡ length key)
    × (length key ≤ max_key_len)

with_lengths_lem :
    (c : Cost) (salt key : Text) (r : Cost × Text × Text)
    → IsAffordable c
    → with_lengths c salt key ≡ some r
    → IsBounded r
with_lengths_lem c [] key r a h = cc
with_lengths_lem c (x ∷ salt) [] r a h = cc
with_lengths_lem c (x ∷ salt) (y ∷ key) (c', salt', key') a h =
    ground (arith, Bool-cases (ltb max_key_len (length (y ∷ key))))

decoded_fields_lem :
    (c : Cost) (salt key : Text) (r : Cost × Text × Text)
    → IsAffordable c
    → decoded_fields c salt key ≡ some r
    → IsBounded r
decoded_fields_lem c salt key r a h = elim (Option-cases (decode salt)) [
  | inl g ↦ absurd (ground arith)
  | inr (s, g) ↦ elim (Option-cases (decode key)) [
    | inl g' ↦ absurd (ground arith)
    | inr (k, g') ↦ with_lengths_lem c s k r a (ground arith)
  ]
]

parse_fields_lem :
    (fields : List Text) (r : Cost × Text × Text) → parse_fields fields ≡ some r → IsBounded r
parse_fields_lem [] r h = cc
parse_fields_lem (_ ∷ []) r h = cc
parse_fields_lem (_ ∷ _ ∷ []) r h = cc
parse_fields_lem (_ ∷ _ ∷ _ ∷ []) r h = cc
parse_fields_lem (_ ∷ _ ∷ _ ∷ _ ∷ []) r h = cc
parse_fields_lem (_ ∷ _ ∷ _ ∷ _ ∷ _ ∷ []) r h = cc
parse_fields_lem (_ ∷ _ ∷ _ ∷ _ ∷ _ ∷ _ ∷ _ ∷ _) r h = cc
parse_fields_lem (lead ∷ algorithm ∷ version ∷ cost ∷ salt ∷ key ∷ []) r h =
    elim (Bool-cases (lead == [] && algorithm == phc_algorithm && version_matches version)) [
      | inr g ↦ absurd (ground arith)
      | inl g ↦ elim (Option-cases (scan_cost cost)) [
        | inl g' ↦ absurd (ground arith)
        | inr (c, g') ↦ decoded_fields_lem c salt key r (scan_cost_lem cost c g') (ground arith)
      ]
    ]

-- Whatever string is stored, a verification that goes ahead costs at most four times the memory and
-- four times the passes of a hash made today, and never nothing; it has a salt, and a key of 64 bytes
-- at most, as long as the cost says.
pub parse_phc-IsBounded :
    (encoded : Text) (r : Cost × Text × Text) → parse_phc encoded ≡ some r → IsBounded r
unfolding parse_phc
parse_phc-IsBounded encoded r h = parse_fields_lem (split_on b'$' encoded) r h
