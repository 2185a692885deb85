-- ===== src/Updater/Laws.antt =====
-- What an update leaves behind.
use dokkup.Common.{
  ℕ, zero, suc, ◌+◌, ◌≡◌, refl, ◌⊎◌, inl, inr, true, false, none, some, ◌∷◌, arith, Bool-cases,
  Text, ◌∙◌, Bool,
}
use dokkup.Store.Sql.{now}
use dokkup.Updater.{
  Host, Machine, rolled_back, rollback_failed, step, swap, restart, names_version, poll,
  wait_healthy, then_healthy, rollback, Outcome, updated, not_swapped, settled, proved,
}

abbrev SameFiles : Host → Host → Type 0
SameFiles h h' = (h'.binary ≡ h.binary) × (h'.previous ≡ h.previous) × (h'.downloads ≡ h.downloads)

-- the endpoint named the version at some probe
abbrev pub Answered : Machine → Text → Type 0
Answered m version = (n : ℕ) × (names_version (m.probe n) version ≡ true)

poll-SameFiles : (m : Machine) (want : Text) (n : ℕ) (h : Host) → SameFiles h (poll m want n h).1
poll-SameFiles m want zero h = (refl, refl, refl)
poll-SameFiles m want (suc n) h = ground (arith, poll-SameFiles m want n (step h))

poll-Answered :
    (m : Machine) (want : Text) (n : ℕ) (h : Host) → (poll m want n h).0 ≡ true → Answered m want
poll-Answered m want zero h g = (h.tick, g)
poll-Answered m want (suc n) h g = elim (Bool-cases (names_version (m.probe h.tick) want)) [
  | inl now ↦ (h.tick, now)
  | inr not_yet ↦ poll-Answered m want n (step h) (ground arith)
]

-- a restart and the wait after it
tried_lem :
    (m : Machine) (want : Text) (h : Host)
    → let r = then_healthy m want (restart m h) in SameFiles h r.1 × (r.0 ≡ true → Answered m want)
unfolding restart wait_healthy
tried_lem m want h = elim (Bool-cases (m.restarts h.tick)) [
  | inl up ↦ (
    rw up (poll-SameFiles m want (m.polls (h.tick + 1)) (step h)),
    λ g. poll-Answered m want (m.polls (h.tick + 1)) (step h) (ground arith),
  )
  | inr down ↦ (ground arith, λ g. absurd (ground arith))
]

swap_lem :
    (m : Machine) (content b : Text) (h : Host)
    → h.binary ≡ some b
    → let r = swap m content (record h { downloads = content ∷ h.downloads }) in
      ((r.0 ≡ true)
        × (r.1.binary ≡ some content)
        × (r.1.previous ≡ some b)
        × (r.1.downloads ≡ h.downloads))
      ⊎ ((r.0 ≡ false) × (r.1.binary ≡ some b))
unfolding swap
swap_lem m content b h g = ground arith

abbrev restored : Text → Host → Host
restored b h = record (step h) { binary = some b; previous = none }

rollback_lem :
    (m : Machine) (b : Text) (h : Host)
    → h.previous ≡ some b
    → let r = rollback m h in
      ((r.0 ≡ rolled_back) × (r.1.binary ≡ some b) × (r.1.previous ≡ none) × Answered m m.current)
      ⊎ ((r.0 ≡ rollback_failed) × ((r.1.binary ≡ some b) ⊎ (r.1.binary ≡ h.binary)))
unfolding rollback
rollback_lem m b h g = elim (Bool-cases (m.fails h.tick)) [
  | inl stuck ↦ inr (ground arith, inr (ground arith))
  | inr moved ↦
      let (same_files, answered) = tried_lem m m.current (restored b h) in
      elim (Bool-cases (then_healthy m m.current (restart m (restored b h))).0) [
        | inl up ↦
            inl (
              ground arith,
              ground (arith, same_files.0),
              ground (arith, same_files.1),
              answered up,
            )
        | inr down ↦ inr (ground arith, inl (ground (arith, same_files.0)))
      ]
]

-- What an update does with the binary `b` once it has the content of the new one.
abbrev pub Went : Machine → Text → Text → Text → Outcome → Host → Type 0
Went m version content b updated h =
    (h.binary ≡ some content) × (h.previous ≡ some b) × Answered m version
Went m version content b not_swapped h = h.binary ≡ some b
Went m version content b rolled_back h =
    (h.binary ≡ some b) × (h.previous ≡ none) × Answered m m.current
Went m version content b rollback_failed h = (h.binary ≡ some b) ⊎ (h.binary ≡ some content)
Went m version content b _ h = ⊥

settled_lem :
    (m : Machine) (version content b : Text) (h : Host)
    → h.binary ≡ some content
    → h.previous ≡ some b
    → let r = settled m (then_healthy m version (restart m h)) in Went m version content b r.0 r.1
settled_lem m version content b h new old =
    let (same_files, answered) = tried_lem m version h in
    let tried : Bool × Host = then_healthy m version (restart m h) in
    go tried.0 tried.1 (same_files.0 ∙ new) (same_files.1 ∙ old) answered
  where
    back :
        (r : Outcome × Host) (g : Host)
        → g.binary ≡ some content
        → ((r.0 ≡ rolled_back)
            × (r.1.binary ≡ some b)
            × (r.1.previous ≡ none)
            × Answered m m.current)
          ⊎ ((r.0 ≡ rollback_failed) × ((r.1.binary ≡ some b) ⊎ (r.1.binary ≡ g.binary)))
        → Went m version content b r.0 r.1
    back (o, k) g new (inl (e, old, none_left, up)) = rw e (old, none_left, up)
    back (o, k) g new (inr (e, inl old)) = rw e (inl old)
    back (o, k) g new (inr (e, inr kept)) = rw e (inr (kept ∙ new))

    go :
        (up : Bool) (g : Host)
        → g.binary ≡ some content
        → g.previous ≡ some b
        → (up ≡ true → Answered m version)
        → Went m version content b (settled m (up, g)).0 (settled m (up, g)).1
    go true g new old answered = (new, old, answered refl)
    go false g new old answered = back (rollback m g) g new (rollback_lem m b g old)

pub proved_lem :
    (m : Machine) (version content b : Text) (h : Host)
    → h.binary ≡ some b
    → let r = proved m version (swap m content (record h { downloads = content ∷ h.downloads })) in
      Went m version content b r.0 r.1
proved_lem m version content b h g =
    let r : Bool × Host = swap m content (record h { downloads = content ∷ h.downloads }) in
    go r.0 r.1 (swap_lem m content b h g)
  where
    go :
        (done : Bool) (k : Host)
        → ((done ≡ true)
            × (k.binary ≡ some content)
            × (k.previous ≡ some b)
            × (k.downloads ≡ h.downloads))
          ⊎ ((done ≡ false) × (k.binary ≡ some b))
        → Went m version content b (proved m version (done, k)).0 (proved m version (done, k)).1
    go true k (inl (_, new, old, _)) = settled_lem m version content b k new old
    go true k (inr (e, _)) = absurd (ground arith)
    go false k (inl (e, _, _, _)) = absurd (ground arith)
    go false k (inr (_, old)) = ground arith
