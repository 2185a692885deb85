-- ===== src/Release/Transfer.antt =====
-- internal/release/fetch.go: `download`, which is bounded by what arrives and by silence.
pub mod Laws
use dokkup.Common.{
  ℕ, zero, suc, ◌+◌, ◌-◌, ◌<◌, Option, none, some, [], ◌∷◌, ◌++◌, if◌then◌else◌, Text, length, take,
  leb, ltb, same_number, ◌≡◌,
}
use dokkup.Server.Http.{reply}

-- what one Read of the body meets, and after how long without a byte: bytes, of which there is one at
-- least, the end, or an error, of the Read or of writing what it brought
pub data Arrival : Type 0 where
  more : (delay byte : ℕ) → Text → Arrival
  ended broken : (delay : ℕ) → Arrival

-- how io.Copy ends, where the watchdog cancels a Read that has had nothing for too long
pub data Copying : Type 0 where
  copied interrupted quiet : Copying

pub record Copied : Type 0 where
  pub content : Text
  pub took : ℕ
  pub copying : Copying

abbrev pub stopped : ℕ → Copying → Option Copied
stopped delay how = some (record { content = []; took = delay; copying = how })

-- a Read that ends the copy, or is given up on
abbrev pub last_read : (limit delay : ℕ) → Copying → Option Copied
last_read limit delay how = if leb limit delay then stopped limit quiet else stopped delay how

abbrev pub and_first : Text → ℕ → Option Copied → Option Copied
and_first chunk delay none = none
and_first chunk delay (some c) =
    some (record { content = chunk ++ c.content; took = delay + c.took; copying = c.copying })

-- one Read through io.LimitReader, which has room for `left` bytes, and what the later ones do
unfoldable pub read_once : (limit left : ℕ) → Arrival → (ℕ → Option Copied) → Option Copied
read_once limit left (ended delay) rest = last_read limit delay copied
read_once limit left (broken delay) rest = last_read limit delay interrupted
read_once limit left (more delay byte chunk) rest =
    if leb limit delay
    then stopped limit quiet
    else and_first (take left (byte ∷ chunk)) delay (rest (left - length (byte ∷ chunk)))

-- io.Copy from the n-th Read on, none where the fuel is used up
unfoldable pub copy : (fuel limit left n : ℕ) → (ℕ → Arrival) → Option Copied
copy zero limit left n body = none
copy (suc fuel) limit zero n body = stopped 0 copied
copy (suc fuel) limit (suc left) n body =
    read_once limit (suc left) (body n) (λ room. copy fuel limit room (n + 1) body)

-- the answer of a server to the request
pub record Reply : Type 0 where
  pub status : ℕ
  pub body : ℕ → Arrival

-- what `download` returns: nil with what it wrote, or one of its errors
pub data DownloadEnd : Type 0 where
  whole : Text → DownloadEnd
  unanswered bad_status silent cut_off too_large : DownloadEnd

pub record Transferred : Type 0 where
  pub outcome : DownloadEnd
  pub after : ℕ

abbrev pub outcome_of : ℕ → Copying → Text → DownloadEnd
outcome_of max quiet content = silent
outcome_of max interrupted content = cut_off
outcome_of max copied content = if ltb max (length content) then too_large else whole content

abbrev pub transferred : ℕ → Option Copied → Option Transferred
transferred max none = none
transferred max (some c) =
    some (record { outcome = outcome_of max c.copying c.content; after = c.took })

-- download, from the answer to the request, if there is one; `limit` is stall(), `max` maxAssetBytes
unfoldable pub transfer : (fuel limit max : ℕ) → Option Reply → Option Transferred
transfer fuel limit max none = some (record { outcome = unanswered; after = 0 })
transfer fuel limit max (some r) =
    if same_number r.status 200
    then transferred max (copy fuel limit (max + 1) 0 r.body)
    else some (record { outcome = bad_status; after = 0 })

-- A body that delivers a content from the n-th Read on: never silent for as long as the limit, it is
-- these bytes, and then it ends.
pub data Delivers (limit : ℕ) (body : ℕ → Arrival) : ℕ → Text → Type 0 where
  at_end : (n delay : ℕ) → body n ≡ ended delay → delay < limit → Delivers limit body n []
  and_more :
      (n delay byte : ℕ) (chunk content : Text)
      → body n ≡ more delay byte chunk
      → delay < limit
      → Delivers limit body (n + 1) content
      → Delivers limit body n ((byte ∷ chunk) ++ content)

-- The server answers 200 with a body that delivers the content.
abbrev pub Offers : ℕ → Option Reply → Text → Type 0
Offers limit reply content =
    (r : Reply) × (reply ≡ some r) × (r.status ≡ 200) × Delivers limit r.body 0 content
