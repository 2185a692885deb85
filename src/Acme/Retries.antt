-- ===== src/Acme/Retries.antt =====
-- How often Run of internal/acme/acme.go asks the certificate authority.
use dokkup.Acme.{retry_interval, Ensured, kept, obtained, unreloaded, unobtained, wait_after}
use dokkup.Common.{
  ℕ, ◌+◌, ◌-◌, ◌*◌, ◌≤◌, Bool, true, false, ◌&&◌, List, [], ◌∷◌, arith, ltb, leb, count_where, inl,
  inr, Bool-cases,
}

-- when each round of the loop begins, from how long each takes and what it returns
abbrev pub starts : ℕ → List (ℕ × Ensured) → List (ℕ × Ensured)
starts t [] = []
starts t ((took, r) ∷ outcomes) = (t, r) ∷ starts (t + took + wait_after r) outcomes

abbrev pub is_failure : Ensured → Bool
is_failure kept = false
is_failure obtained = false
is_failure unreloaded = true
is_failure unobtained = true

abbrev pub hour : ℕ
hour = 3600 * 1000000000

-- the rounds that fail, of those that begin within an hour
abbrev pub failures_within : ℕ → List (ℕ × Ensured) → ℕ
failures_within from = count_where (λ x. is_failure x.1 && leb from x.0 && ltb x.0 (from + hour))

wait_after-least : (r : Ensured) → retry_interval ≤ wait_after r
wait_after-least kept = omega arith
wait_after-least obtained = omega arith
wait_after-least unreloaded = omega arith
wait_after-least unobtained = omega arith

-- a round that begins after k waits of the hour leaves room for four less k
failures-room :
    (from t : ℕ) (outcomes : List (ℕ × Ensured))
    → from ≤ t
    → failures_within from (starts t outcomes) * retry_interval
      ≤ (from + hour + (retry_interval - 1)) - t
failures-room from t [] h = omega arith
failures-room from t ((took, r) ∷ outcomes) h =
    let next : ℕ = t + took + wait_after r in
    let rest = failures-room from next outcomes (omega (arith, h)) in
    let w = wait_after-least r in ground (arith, rest, w)

-- Within any hour, at most four rounds of the loop begin that fail, whenever it was started, however
-- long each round takes and whatever the others return.
pub retries_bounded :
    (from t : ℕ) (outcomes : List (ℕ × Ensured)) → failures_within from (starts t outcomes) ≤ 4
retries_bounded from t [] = omega arith
retries_bounded from t ((took, r) ∷ outcomes) = elim (Bool-cases (leb from t)) [
  | inl h ↦
      let le : from ≤ t = ground arith in
      omega (arith, le, failures-room from t ((took, r) ∷ outcomes) le)
  | inr h ↦
      let rest = retries_bounded from (t + took + wait_after r) outcomes in ground (arith, rest)
]
