-- ===== src/Release/Fetch.antt =====
-- internal/release/verify.go and fetch.go: a download is trusted for the checksum that the release
-- lists, and for a signature where cosign is there to check it. The network, the hash and cosign are
-- the parameter `Origin`.
use dokkup.Common.{
  ℕ, ◌≡◌, inl, inr, Bool, true, false, not, Option, none, some, List, [], ◌∷◌, arith, if◌then◌else◌,
  Option-cases, length, exists, ◌==◌, Text, same_text_iff, number_key, text_key,
}
use dokkup.Common.Strings.{codes, is_space, to_lower, trim_prefix}
use dokkup.Release.{split_on, asset_name}

abbrev starts_field : Text → Bool
starts_field [] = false
starts_field (c ∷ s) = not (is_space c)

abbrev begin_or_extend : Bool → ℕ → List Text → List Text
begin_or_extend true c (field ∷ fields) = (c ∷ field) ∷ fields
begin_or_extend _ c fields = (c ∷ []) ∷ fields

-- strings.Fields
abbrev pub fields : Text → List Text
fields [] = []
fields (c ∷ s) =
    let rest = fields s in if is_space c then rest else begin_or_extend (starts_field s) c rest

-- the checksum of a line that is about the file; sha256sum marks a binary file by "*"
abbrev pub listed : Text → List Text → Option Text
listed name (sum ∷ file ∷ []) =
    if trim_prefix file (codes "*") == name then some (to_lower sum) else none
listed name _ = none

abbrev sha256_only : Text → Option Text
sha256_only sum = if length sum == 64 then some sum else none

-- the first line about the file decides
abbrev pub first_listed : Text → List Text → Option Text
first_listed name [] = none
first_listed name (line ∷ lines) =
    let rest = first_listed name lines in
    elim (listed name (fields line)) [ none ↦ rest | some sum ↦ sha256_only sum ]

-- checksumFor
unfoldable pub checksum_for : Text → Text → Option Text
checksum_for sums name = first_listed name (split_on b'\n' sums)

-- `download` is what the release serves under a name, `sha256` the hexadecimal digest, `signature`
-- what cosign finds: no cosign, or whether the signature holds. `set_up` says whether a temporary file
-- can be made, written and made executable.
pub record Origin : Type 0 where
  pub download : Text → Option Text
  pub sha256 : Text → Text
  pub signature : Text → Option Bool
  pub set_up : Bool

abbrev verified : Option Bool → Option Bool
verified none = some false
verified (some true) = some true
verified (some false) = none

abbrev signed_artifact : Text → Option Bool → Option (Text × Bool)
signed_artifact content none = none
signed_artifact content (some signed) = some (content, signed)

abbrev checked_artifact : Origin → Text → Option Text → Option (Text × Bool)
checked_artifact o content none = none
checked_artifact o content (some want) =
    if o.sha256 content == want
    then signed_artifact content (verified (o.signature content))
    else none

abbrev summed_artifact : Origin → Text → Text → Option Text → Option (Text × Bool)
summed_artifact o name content none = none
summed_artifact o name content (some sums) = checked_artifact o content (checksum_for sums name)

abbrev downloaded_artifact : Origin → Text → Option Text → Option (Text × Bool)
downloaded_artifact o name none = none
downloaded_artifact o name (some content) =
    summed_artifact o name content (o.download (codes "SHA256SUMS"))

-- Fetch, of a tag that was checked when it was resolved: the content, and whether a signature was
-- checked. After an error there is no file, leaving aside a temporary one that cannot be removed.
unfoldable pub fetch : Origin → Text → Option (Text × Bool)
fetch o goarch = elim (asset_name goarch) [
  | none ↦ none
  | some name ↦ if o.set_up then downloaded_artifact o name (o.download name) else none
]

-- What was fetched is what the release serves for this machine, and its digest is the one that the
-- release's SHA256SUMS lists; cosign, where it is there, found the signature good.
pub fetch_verified :
    (o : Origin) (goarch content : Text) (signed : Bool)
    → fetch o goarch ≡ some (content, signed)
    → (name : Text) × (sums : Text) × (asset_name goarch ≡ some name)
      × (o.download name ≡ some content)
      × (o.download (codes "SHA256SUMS") ≡ some sums)
      × (checksum_for sums name ≡ some (o.sha256 content))
      × (o.signature content ≡ (if signed then some true else none))
unfolding fetch
fetch_verified o goarch content signed h = elim (Option-cases (asset_name goarch)) [
  | inl none_such ↦ absurd (ground arith)
  | inr (name, named) ↦ elim (Option-cases (o.download name)) [
    | inl missing ↦ absurd (ground arith)
    | inr (body, got) ↦ elim (Option-cases (o.download (codes "SHA256SUMS"))) [
      | inl missing ↦ absurd (ground arith)
      | inr (sums, listing) ↦ elim (Option-cases (checksum_for sums name)) [
        | inl missing ↦ absurd (ground arith)
        | inr (want, vouched) ↦ (
          name,
          sums,
          named,
          ground (arith),
          listing,
          ground (arith, same_text_iff (o.sha256 body) want),
          ground arith,
        )
      ]
    ]
  ]
]

first_listed-line :
    (name : Text) (lines : List Text) (sum : Text)
    → first_listed name lines ≡ some sum
    → (exists (λ line. elim (listed name (fields line)) [ none ↦ false | some s ↦ s == sum ]) lines
        ≡ true)
      × (length sum ≡ 64)
first_listed-line name [] sum h = cc
first_listed-line name (line ∷ lines) sum h = elim (Option-cases (listed name (fields line))) [
  | inl g ↦ ground (arith, first_listed-line name lines sum)
  | inr (s, g) ↦ ground (arith, same_text_iff s sum)
]

-- A checksum that is found has 64 digits and stands on a line of the file that is about the name; a
-- name that no line is about has none.
pub checksum_for-listed :
    (sums name sum : Text)
    → checksum_for sums name ≡ some sum
    → (exists
          (λ line. elim (listed name (fields line)) [ none ↦ false | some s ↦ s == sum ])
          (split_on b'\n' sums)
        ≡ true)
      × (length sum ≡ 64)
unfolding checksum_for
checksum_for-listed sums name sum h = first_listed-line name (split_on b'\n' sums) sum h
