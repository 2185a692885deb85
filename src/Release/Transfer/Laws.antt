-- ===== src/Release/Transfer/Laws.antt =====
-- How a download ends, for any server.
use dokkup.Common.{
  true, same_number, ◌∙◌, same_number_iff, ℕ, zero, suc, ◌+◌, ◌*◌, ◌≤◌, ◌<◌, ◌≡◌, Option, some,
  length, arith, ◌-◌, refl, inl, inr, [], ◌∷◌, ◌++◌, leb, Bool-cases, take, length-append, Text, ap,
  false, none, ◌↔◌, ltb,
}
use dokkup.Release.Transfer.{
  and_more, Arrival, ended, more, broken, Copying, copied, interrupted, Copied, read_once, copy,
  quiet, stopped, last_read, and_first, Delivers, at_end, Reply, whole, Transferred, outcome_of,
  transfer, Offers, bad_status,
}

-- It comes to an end, with no more than it has room for, in no more time than the reads can take.
abbrev Ends : (fuel limit left : ℕ) → Option Copied → Type 0
Ends fuel limit left o =
    (c : Copied) × (o ≡ some c) × (length c.content ≤ left) × (c.took ≤ fuel * limit)

stopped-Ends :
    (fuel limit left delay : ℕ) (how : Copying)
    → delay ≤ limit
    → Ends (suc fuel) limit left (stopped delay how)
stopped-Ends fuel limit left delay how h = (_, refl, omega arith, omega arith)

last_read-Ends :
    (fuel limit left delay : ℕ) (how : Copying)
    → Ends (suc fuel) limit left (last_read limit delay how)
last_read-Ends fuel limit left delay how = elim (Bool-cases (leb limit delay)) [
  | inl e ↦ rw e (stopped-Ends fuel limit left limit quiet (omega arith))
  | inr e ↦ rw e (stopped-Ends fuel limit left delay how (ground arith))
]

length-take_room : (n : ℕ) (xs : Text) → length (take n xs) + (n - length xs) ≤ n
length-take_room zero xs = omega arith
length-take_room (suc n) [] = omega arith
length-take_room (suc n) (x ∷ xs) = omega (arith, length-take_room n xs)

and_first-Ends :
    (fuel limit room left delay : ℕ) (chunk : Text) (o : Option Copied)
    → Ends fuel limit room o
    → length chunk + room ≤ left
    → delay ≤ limit
    → Ends (suc fuel) limit left (and_first chunk delay o)
and_first-Ends fuel limit room left delay chunk o (c, e, g, t) h d = (
  record { content = chunk ++ c.content; took = delay + c.took; copying = c.copying },
  rw e refl,
  omega (arith, length-append chunk c.content),
  omega arith,
)

read_once-Ends :
    (fuel limit left : ℕ) (a : Arrival) (rest : ℕ → Option Copied)
    → ((room : ℕ) → room ≤ left → Ends fuel limit room (rest room))
    → Ends (suc fuel) limit (suc left) (read_once limit (suc left) a rest)
unfolding read_once
read_once-Ends fuel limit left (ended delay) rest h =
    last_read-Ends fuel limit (suc left) delay copied
read_once-Ends fuel limit left (broken delay) rest h =
    last_read-Ends fuel limit (suc left) delay interrupted
read_once-Ends fuel limit left (more delay byte chunk) rest h =
    elim (Bool-cases (leb limit delay)) [
      | inl e ↦ rw e (stopped-Ends fuel limit (suc left) limit quiet (omega arith))
      | inr e ↦
          let room : ℕ = suc left - length (byte ∷ chunk) in
          rw e (
            and_first-Ends fuel limit room (suc left) delay (byte ∷ take left chunk) (rest room)
              (h room (omega arith)) (omega (arith, length-take_room left chunk)) (ground arith))
    ]

copy-Ends :
    (fuel limit left n : ℕ) (body : ℕ → Arrival)
    → left < fuel
    → Ends fuel limit left (copy fuel limit left n body)
unfolding copy
copy-Ends zero limit left n body h = absurd (omega arith)
copy-Ends (suc fuel) limit zero n body h = stopped-Ends fuel limit 0 0 copied (omega arith)
copy-Ends (suc fuel) limit (suc left) n body h =
    read_once-Ends fuel limit left (body n) _
      (λ room g. copy-Ends fuel limit room (n + 1) body (omega arith))

last_read-copied :
    (limit delay : ℕ) (how : Copying) (c : Copied)
    → last_read limit delay how ≡ some c
    → c.copying ≡ copied
    → (delay < limit) × (how ≡ copied) × (c.content ≡ [])
last_read-copied limit delay how c e g = grind arith

take-room : (n : ℕ) (xs : Text) (k : ℕ) → length (take n xs) + k < n → take n xs ≡ xs
take-room zero xs k h = absurd (omega arith)
take-room (suc n) [] k h = refl
take-room (suc n) (x ∷ xs) k h = ap (λ ys. x ∷ ys) (take-room n xs k (omega arith))

and_first-some :
    (chunk : Text) (delay : ℕ) (o : Option Copied) (c : Copied)
    → and_first chunk delay o ≡ some c
    → (d : Copied) × (o ≡ some d) × (c.content ≡ chunk ++ d.content) × (c.copying ≡ d.copying)
and_first-some chunk delay none c e = absurd cc
and_first-some chunk delay (some d) c e = (d, refl, grind arith, grind arith)

read_once_sound :
    (limit left n : ℕ) (body : ℕ → Arrival) (a : Arrival) (rest : ℕ → Option Copied) (c : Copied)
    → body n ≡ a
    → ((room : ℕ) (d : Copied)
        → rest room ≡ some d
        → d.copying ≡ copied
        → length d.content < room
        → Delivers limit body (n + 1) d.content)
    → read_once limit left a rest ≡ some c
    → c.copying ≡ copied
    → length c.content < left
    → Delivers limit body n c.content
unfolding read_once
read_once_sound limit left n body (ended delay) rest c from others e g h =
    let (q, _, z) = last_read-copied limit delay copied c e g in rw z (at_end n delay from q)
read_once_sound limit left n body (broken delay) rest c from others e g h =
    let (_, q, _) = last_read-copied limit delay interrupted c e g in absurd cc
read_once_sound limit left n body (more delay byte chunk) rest c from others e g h =
    elim (Bool-cases (leb limit delay)) [
      | inl q ↦ grind arith
      | inr q ↦
          let room : ℕ = left - length (byte ∷ chunk) in
          let (d, o, z, y) =
            and_first-some (take left (byte ∷ chunk)) delay (rest room) c (rw q at e) in
          let fits : length (take left (byte ∷ chunk)) + length d.content < left =
            omega (arith, length-append (take left (byte ∷ chunk)) d.content, ap length z) in
          let all : take left (byte ∷ chunk) ≡ byte ∷ chunk =
            take-room left (byte ∷ chunk) (length d.content) fits in
          let y_c : d.copying ≡ copied = cc in
          let below : length d.content < room = omega (arith, ap length all, fits) in
          rw (z ∙ ap (λ l. l ++ d.content) all)
            (and_more n delay byte chunk d.content from (ground arith) (others room d o y_c below))
    ]

-- Where a copy is at its end with room to spare, it is all that the body delivers.
copy_sound :
    (fuel limit left n : ℕ) (body : ℕ → Arrival) (c : Copied)
    → copy fuel limit left n body ≡ some c
    → c.copying ≡ copied
    → length c.content < left
    → Delivers limit body n c.content
unfolding copy
copy_sound zero limit left n body c e g h = absurd cc
copy_sound (suc fuel) limit zero n body c e g h = absurd (omega arith)
copy_sound (suc fuel) limit (suc left) n body c e g h =
    read_once_sound limit (suc left) n body (body n) _ c refl
      (λ room d. copy_sound fuel limit room (n + 1) body d) e g h

below-leb : (a b : ℕ) → a < b → leb b a ≡ false
below-leb a b h = ground arith

take-all : (n : ℕ) (xs : Text) → length xs ≤ n → take n xs ≡ xs
take-all zero [] h = refl
take-all zero (x ∷ xs) h = absurd (omega arith)
take-all (suc n) [] h = refl
take-all (suc n) (x ∷ xs) h = ap (λ ys. x ∷ ys) (take-all n xs (omega arith))

-- What a body delivers is copied whole where there is room for it and one byte more.
copy_complete :
    (fuel limit left n : ℕ) (body : ℕ → Arrival) (s : Text)
    → Delivers limit body n s
    → left < fuel
    → length s < left
    → (c : Copied) × (copy fuel limit left n body ≡ some c) × (c.copying ≡ copied) × (c.content ≡ s)
unfolding copy read_once
copy_complete zero limit left n body s d g h = absurd (omega arith)
copy_complete (suc fuel) limit zero n body s d g h = absurd (omega arith)
copy_complete (suc fuel) limit (suc left) _ body _ (at_end n delay e q) g h = (
  record { content = []; took = delay; copying = copied },
  rw (e, below-leb delay limit q) refl,
  refl,
  refl,
)
copy_complete (suc fuel) limit (suc left) _ body _ (and_more n delay byte chunk rest e q d) g h =
    let room : ℕ = suc left - length (byte ∷ chunk) in
    let long : length (chunk ++ rest) ≡ length chunk + length rest = length-append chunk rest in
    let (c, o, y, z) =
      copy_complete fuel limit room (n + 1) body rest d (omega arith) (omega (arith, long, h)) in
    (
      record { content = (byte ∷ chunk) ++ c.content; took = delay + c.took; copying = c.copying },
      rw (e, below-leb delay limit q, take-all left chunk (omega (arith, long, h)), o) refl,
      y,
      ap (λ s. (byte ∷ chunk) ++ s) z,
    )

not_below : (a b : ℕ) → ltb a b ≡ false → b ≤ a
not_below a b h = ground arith

within_bound : (a b : ℕ) → b ≤ a → ltb a b ≡ false
within_bound a b h = ground arith

outcome_of-whole :
    (max : ℕ) (how : Copying) (content s : Text)
    → outcome_of max how content ≡ whole s
    → (how ≡ copied) × (content ≡ s) × (length s ≤ max)
outcome_of-whole max quiet content s h = absurd cc
outcome_of-whole max interrupted content s h = absurd cc
outcome_of-whole max copied content s h = elim (Bool-cases (ltb max (length content))) [
  | inl e ↦ grind arith
  | inr e ↦
      let z : content ≡ s = grind arith in
      (refl, z, omega (arith, ap length z, not_below max (length content) e))
]

whole-outcome_of :
    (max : ℕ) (how : Copying) (content s : Text)
    → how ≡ copied
    → content ≡ s
    → length s ≤ max
    → outcome_of max how content ≡ whole s
whole-outcome_of max how content s h z l = rw (h, z, within_bound max (length s) l) refl

copy-whole :
    (limit max : ℕ) (body : ℕ → Arrival) (s : Text)
    → (c : Copied) × (copy (max + 2) limit (max + 1) 0 body ≡ some c)
      × (c.took ≤ (max + 2) * limit)
      × ((outcome_of max c.copying c.content ≡ whole s)
          ↔ (Delivers limit body 0 s × (length s ≤ max)))
copy-whole limit max body s =
    let (c, e, _, t) = copy-Ends (max + 2) limit (max + 1) 0 body (omega arith) in
    (
      c,
      e,
      t,
      (
        λ h.
            let (y, z, l) = outcome_of-whole max c.copying c.content s h in
            let below : length c.content < max + 1 = omega (arith, l, ap length z) in
            (rw z at (copy_sound (max + 2) limit (max + 1) 0 body c e y below), l),
        λ (d, l).
            let (c', e', y, z) =
              copy_complete (max + 2) limit (max + 1) 0 body s d (omega arith) (omega (arith, l)) in
            whole-outcome_of max c.copying c.content s (cc) (cc) l,
      ),
    )

-- Whatever a server answers, a download comes to an end: within as many reads as it may have bytes,
-- and two more, and no later than as many times the silence that it allows. It succeeds, with a
-- content, exactly where the server answers 200 with a body that ends after just these bytes, is never
-- silent for as long as that, and is no longer than the bound.
pub transfer_ends :
    (limit max : ℕ) (reply : Option Reply) (s : Text)
    → (t : Transferred) × (transfer (max + 2) limit max reply ≡ some t)
      × (t.after ≤ (max + 2) * limit)
      × ((t.outcome ≡ whole s) ↔ (Offers limit reply s × (length s ≤ max)))
unfolding transfer
transfer_ends limit max none s = (_, refl, omega arith, (λ h. cc, λ ((r, e, _, _), _). cc))
transfer_ends limit max (some r) s = elim (Bool-cases (same_number r.status 200)) [
  | inl e ↦
      let (c, q, t, w) = copy-whole limit max r.body s in
      (
        record { outcome = outcome_of max c.copying c.content; after = c.took },
        rw (e, q) refl,
        t,
        (
          λ h. let (d, l) = w.0 h in ((r, refl, (same_number_iff r.status 200).0 e, d), l),
          λ ((r', f, _, d), l). let same : r ≡ r' = cc in w.1 (rw same d, l),
        ),
      )
  | inr e ↦ (
    record { outcome = bad_status; after = 0 },
    rw e refl,
    omega arith,
    (
      λ h. cc,
      λ ((r', f, g, d), l).
          let same : r ≡ r' = cc in
          let fine : r.status ≡ 200 = ap (λ o. o.status) same ∙ g in
          let yes : same_number r.status 200 ≡ true = (same_number_iff r.status 200).1 fine in
          absurd cc,
    ),
  )
]
