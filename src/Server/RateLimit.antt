-- ===== src/Server/RateLimit.antt =====
-- internal/server/ratelimit.go. The bucket's `tokens` is a float64 that only ever holds multiples of
-- 1 / refill; here it is `credit`, the tokens times `refill`, in nanoseconds, so that a refill adds
-- the time that has passed and a token costs `refill`. Times are nanoseconds; float rounding is not
-- modelled.
pub mod Bounds
use dokkup.Common.{ℕ, ◌+◌, ◌-◌, ◌*◌, ◌/◌, min, Bool, true, false, ltb, leb, if◌then◌else◌}

pub record TokenBucket : Type 0 where
  pub credit : ℕ
  pub burst : ℕ
  pub refill : ℕ
  pub last : ℕ

abbrev pub new_token_bucket : ℕ → ℕ → ℕ → TokenBucket
new_token_bucket burst refill now = record {
  credit = burst * refill;
  burst = burst;
  refill = refill;
  last = now;
}

-- `elapsed > 0` is the same test as `last < now`
unfoldable pub refilled : ℕ → TokenBucket → TokenBucket
refilled now b =
    if ltb b.last now
    then record b { credit = min (b.burst * b.refill) (b.credit + (now - b.last)); last = now }
    else b

abbrev spend : TokenBucket → Bool × ℕ × TokenBucket
spend b =
    if leb b.refill b.credit
    then (true, 0, record b { credit = b.credit - b.refill })
    else (false, b.refill - b.credit, b)

-- whether there was a token, and if not how long until there is
unfoldable pub take_token : ℕ → TokenBucket → Bool × ℕ × TokenBucket
unfolding refilled
take_token now b = spend (refilled now b)

abbrev second : ℕ
second = 1000000000

-- math.Ceil of the seconds, and never below one
unfoldable pub retry_after_seconds : ℕ → ℕ
retry_after_seconds wait =
    let seconds = (wait + (second - 1)) / second in if ltb seconds 1 then 1 else seconds
