-- ===== src/Dokku/Tail.antt =====
-- What a cappedBuffer of internal/dokku/exec.go keeps.
use mathlib.Core.List.{append-nil, append_assoc}
use dokkup.Common.{
  ℕ, zero, suc, ◌+◌, ◌-◌, ◌≤◌, ◌≡◌, refl, List, [], ◌∷◌, ◌++◌, arith, leb, if◌then◌else◌, length,
  Text, ap, inl, inr, Bool-cases,
}
use dokkup.Dokku.{drop, write}

-- the last bytes of a text, as many as allowed
abbrev pub last_bytes : ℕ → Text → Text
last_bytes n [] = []
last_bytes n (c ∷ s) = let rest = last_bytes n s in if leb (length (c ∷ s)) n then c ∷ s else rest

-- one write after the other
abbrev pub writes : ℕ → Text → List Text → Text
writes limit buf [] = buf
writes limit buf (p ∷ ps) = writes limit (write limit buf p) ps

abbrev pub joined : List Text → Text
joined [] = []
joined (p ∷ ps) = p ++ joined ps

last_bytes-all : (n : ℕ) (s : Text) → length s ≤ n → last_bytes n s ≡ s
last_bytes-all n [] h = refl
last_bytes-all n (c ∷ s) h = ground arith

drop-last_bytes : (n k : ℕ) (s : Text) → length s ≡ k + n → drop k s ≡ last_bytes n s
drop-last_bytes n zero s h = rw (last_bytes-all n s (omega (arith, h))) refl
drop-last_bytes n (suc k) [] h = refl
drop-last_bytes n (suc k) (c ∷ s) h = ground (arith, drop-last_bytes n k s)

write-last_bytes : (n : ℕ) (buf p : Text) → write n buf p ≡ last_bytes n (buf ++ p)
unfolding write
write-last_bytes n buf p =
    ground
      (arith, drop-last_bytes n (length (buf ++ p) - n) (buf ++ p), last_bytes-all n (buf ++ p))

length-last_bytes :
    (n : ℕ) (s : Text) → length (last_bytes n s) ≡ (if leb (length s) n then length s else n)
length-last_bytes n [] = ground arith
length-last_bytes n (c ∷ s) = ground (arith, length-last_bytes n s)

last_bytes_ends : (n : ℕ) (s : Text) → (front : Text) × (s ≡ front ++ last_bytes n s)
last_bytes_ends n [] = ([], refl)
last_bytes_ends n (c ∷ s) = elim (Bool-cases (leb (length (c ∷ s)) n)) [
  | inl h ↦ ([], rw h refl)
  | inr h ↦ let (front, k) = last_bytes_ends n s in (c ∷ front, rw h (ap (λ r. c ∷ r) k))
]

length-++ : (s p : Text) → length (s ++ p) ≡ length s + length p
length-++ [] p = omega arith
length-++ (c ∷ s) p = omega (arith, length-++ s p)

last_bytes-++ : (n : ℕ) (s p : Text) → last_bytes n (last_bytes n s ++ p) ≡ last_bytes n (s ++ p)
last_bytes-++ n [] p = refl
last_bytes-++ n (c ∷ s) p = ground (arith, length-++ s p, last_bytes-++ n s p)

writes-joined :
    (limit : ℕ) (buf : Text) (ps : List Text)
    → writes limit (last_bytes limit buf) ps ≡ last_bytes limit (buf ++ joined ps)
writes-joined limit buf [] = rw (append-nil buf) refl
writes-joined limit buf (p ∷ ps) =
    rw
      (
        write-last_bytes limit (last_bytes limit buf) p,
        last_bytes-++ limit buf p,
        writes-joined limit (buf ++ p) ps,
        append_assoc buf p (joined ps),
      )
      refl

-- However the output of a process is cut into writes, the buffer holds the end of all of it: the whole
-- output where that fits its limit, and otherwise as many of its last bytes as the limit says.
pub writes_keep_end :
    (limit : ℕ) (ps : List Text)
    → ((front : Text) × (joined ps ≡ front ++ writes limit [] ps))
      × (length (writes limit [] ps)
          ≡ (if leb (length (joined ps)) limit then length (joined ps) else limit))
writes_keep_end limit ps =
    let kept : writes limit [] ps ≡ last_bytes limit (joined ps) = writes-joined limit [] ps in
    rw kept (last_bytes_ends limit (joined ps), length-last_bytes limit (joined ps))
