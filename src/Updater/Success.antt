-- ===== src/Updater/Success.antt =====
-- internal/cli/update.go: an update that meets no obstacle.
use dokkup.Common.{
  ℕ, zero, suc, ◌+◌, ◌≤◌, ◌≡◌, inl, inr, Bool, true, false, Option, none, some, List, [], ◌∷◌,
  arith, Bool-cases, Text, ◌∙◌,
}
use dokkup.Release.Fetch.{fetch}
use dokkup.Store.Sql.{now}
use dokkup.Updater.{
  Host, Machine, updated, step, sweep_each, sweep_temp, swap, restart, names_version, poll,
  wait_healthy, then_healthy, settled, refusal_of, update, proved,
}
use dokkup.Updater.Outcomes.{swept-binary}

poll_up :
    (m : Machine) (want : Text) (s : ℕ)
    → ((n : ℕ) → s ≤ n → names_version (m.probe n) want ≡ true)
    → (n : ℕ) (h : Host) → s ≤ h.tick + n
    → (poll m want n h).0 ≡ true
poll_up m want s up zero h g = up h.tick (omega (arith, g))
poll_up m want s up (suc n) h g = elim (Bool-cases (names_version (m.probe h.tick) want)) [
  | inl now ↦ ground arith
  | inr not_yet ↦ ground (arith, poll_up m want s up n (step h) (omega (arith, g)))
]

sweep_each_tick : (m : Machine) (n : ℕ) (xs : List Text) → n ≤ (sweep_each m n xs).1
sweep_each_tick m n [] = omega arith
sweep_each_tick m n (x ∷ xs) = ground (arith, sweep_each_tick m (n + 1) xs)

sweep_temp_tick : (m : Machine) (h : Host) → h.tick ≤ (sweep_temp m h).tick
unfolding sweep_temp
sweep_temp_tick m h = ground (arith, sweep_each_tick m (h.tick + 1) h.downloads)

swap_succeeds :
    (m : Machine) (content b : Text) (h : Host)
    → ((n : ℕ) → m.fails n ≡ false)
    → h.binary ≡ some b
    → ((swap m content h).0 ≡ true) × (h.tick ≤ (swap m content h).1.tick)
unfolding swap
swap_succeeds m content b h calm g =
    ground (arith, calm h.tick, calm (h.tick + 1), calm (h.tick + 1 + 1))

comes_up :
    (m : Machine) (version : Text) (s d : ℕ) (k : Host)
    → ((n : ℕ) → m.restarts n ≡ true)
    → ((n : ℕ) → d ≤ m.polls n)
    → ((n : ℕ) → s + d ≤ n → names_version (m.probe n) version ≡ true)
    → s ≤ k.tick
    → (settled m (then_healthy m version (restart m k))).0 ≡ updated
unfolding restart wait_healthy
comes_up m version s d k restarts patient up late =
    let polled : (poll m version (m.polls (k.tick + 1)) (step k)).0 ≡ true =
      poll_up m version (s + d) up (m.polls (k.tick + 1)) (step k)
        (omega (arith, patient (k.tick + 1), late)) in
    ground (arith, restarts k.tick)

proved_up :
    (m : Machine) (version : Text) (r : Bool × Host)
    → r.0 ≡ true
    → (settled m (then_healthy m version (restart m r.1))).0 ≡ updated
    → (proved m version r).0 ≡ updated
proved_up m version (true, k) e h = h
proved_up m version (false, k) e h = absurd (ground arith)

-- An update succeeds when it is not refused, the download is trusted, no system call fails, systemd
-- restarts the service, and the new version answers after a while that the timeout leaves room for.
pub update_succeeds :
    (m : Machine) (want : Option Text) (allow : Bool) (h : Host) (b target content : Text)
    (signed : Bool) (d : ℕ)
    → h.binary ≡ some b
    → m.resolve want ≡ some target
    → refusal_of m.current target allow ≡ none
    → fetch (m.origin target) m.goarch ≡ some (content, signed)
    → ((n : ℕ) → m.fails n ≡ false)
    → ((n : ℕ) → m.restarts n ≡ true)
    → ((n : ℕ) → d ≤ m.polls n)
    → ((n : ℕ) → h.tick + d ≤ n → names_version (m.probe n) target ≡ true)
    → (update m want allow h).0 ≡ updated
unfolding update
update_succeeds m want allow h b target content signed d g r free f calm restarts patient up =
    let start : Host = record (sweep_temp m h) {
      downloads = content ∷ (sweep_temp m h).downloads;
    } in
    let (done, on) = swap_succeeds m content b start calm ((swept-binary m h).0 ∙ g) in
    rw (r, free, f)
      (proved_up m target (swap m content start) done (
        comes_up m target h.tick d (swap m content start).1 restarts patient up
          (omega (arith, on, sweep_temp_tick m h))))
