-- ===== src/Server/RateLimit/Bounds.antt =====
-- internal/server/ratelimit.go: what the bucket lets through, and the wait that it names.
use dokkup.Common.{
  ℕ, ◌+◌, ◌*◌, ◌≤◌, ◌<◌, ◌≡◌, false, List, [], ◌∷◌, arith, leb, if◌then◌else◌, zero, suc, ◌/◌, ◌⊎◌,
  inl, inr, ltb, Bool-cases,
}
use dokkup.Server.RateLimit.{TokenBucket, take_token, retry_after_seconds}
use dokkup.Store.Sql.{now}

-- attempts one after another: how many were allowed, and the bucket that they leave
pub attempts : List ℕ → TokenBucket → ℕ × TokenBucket
attempts [] b = (0, b)
attempts (t ∷ ts) b =
    let (allowed, _, b') = take_token t b in
    let (n, b'') = attempts ts b' in (if allowed then n + 1 else n, b'')

pub record IsBucket (b : TokenBucket) : Type 0 where
  pub within : b.credit ≤ b.burst * b.refill
  pub refills : 0 < b.refill

pub take_token-IsBucket : (now : ℕ) (b : TokenBucket) → IsBucket b → IsBucket (take_token now b).2
unfolding take_token
take_token-IsBucket now b v = ground arith

one_fits : (burst refill : ℕ) → 0 < burst → refill ≤ burst * refill
one_fits zero refill h = absurd (omega arith)
one_fits (suc burst) refill h = omega arith

-- A refusal of a bucket that holds a token or more when full, with the clock not going back, names
-- the exact wait: with no attempt in between, the next one is refused at every moment before it has
-- passed and allowed at every moment from then on.
pub take_token_wait :
    (now later : ℕ) (b : TokenBucket)
    → IsBucket b
    → 0 < b.burst
    → b.last ≤ now
    → now ≤ later
    → (take_token now b).0 ≡ false
    → let (_, wait, b') = take_token now b in (take_token later b').0 ≡ leb (now + wait) later
unfolding take_token
take_token_wait now later b v u h g r = ground (arith, one_fits b.burst b.refill u)

-- The header's whole seconds are at least one and never fall short of the wait, nor exceed it by a
-- second or more unless it is that one.
pub retry_after_seconds_covers :
    (wait : ℕ)
    → let s = retry_after_seconds wait in
      (1 ≤ s) × (wait ≤ s * 1000000000) × ((s ≡ 1) ⊎ (s * 1000000000 < wait + 1000000000))
unfolding retry_after_seconds
retry_after_seconds_covers wait = (
  ground arith,
  ground arith,
  elim (Bool-cases (ltb ((wait + 999999999) / 1000000000) 1)) [
    | inl h ↦ inl (ground arith)
    | inr h ↦ inr (ground arith)
  ],
)
