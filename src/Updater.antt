-- ===== src/Updater.antt =====
-- internal/cli/update.go: replacing the binary of a running host by a released one, proving that it
-- answers, and putting the old one back where it does not. The system calls, systemd and the health
-- endpoint are the parameter `Machine`.
pub mod Laws
pub mod Outcomes
pub mod Success
use dokkup.Common.{
  ℕ, zero, suc, ◌+◌, Bool, true, false, not, ◌&&◌, Option, none, some, List, [], ◌∷◌, if◌then◌else◌,
  Text,
}
use dokkup.Release.{newer, same_version, is_release}
use dokkup.Release.Fetch.{Origin, fetch}
use dokkup.Server.SignIn.Refusals.{outcome}

-- What is in the directory of the binary: the binary, the one that an update replaced, and downloads
-- that are not installed. A file is its content.
pub record Host : Type 0 where
  pub binary : Option Text
  pub previous : Option Text
  pub downloads : List Text
  -- how many system calls, restarts and probes there have been
  pub tick : ℕ

-- `fails n` says whether the n-th system call fails, `restarts n` whether systemd restarts the service
-- then, `probe n` which version the endpoint names then, if it answers as it should; `polls n` is how
-- many more probes the timeout leaves room for after a first one.
pub record Machine : Type 0 where
  pub fails : ℕ → Bool
  pub restarts : ℕ → Bool
  pub probe : ℕ → Option Text
  pub polls : ℕ → ℕ
  -- the version that a wanted one, or none, stands for
  pub resolve : Option Text → Option Text
  pub origin : Text → Origin
  pub goarch : Text
  pub current : Text

-- What `update` returns: the first two are its successes, the others its errors.
pub data Outcome : Type 0 where
  nothing_to_do updated : Outcome
  no_target older_refused not_fetched not_swapped rolled_back rollback_failed : Outcome

abbrev pub step : Host → Host
step h = record h { tick = h.tick + 1 }

-- os.Remove of each leftover, whose error is ignored
abbrev pub sweep_each : Machine → ℕ → List Text → List Text × ℕ
sweep_each m n [] = ([], n)
sweep_each m n (x ∷ xs) =
    let (left, last) = sweep_each m (n + 1) xs in (if m.fails n then x ∷ left else left, last)

abbrev swept : Host → List Text × ℕ → Host
swept h (left, n) = record h { downloads = left; tick = n }

-- release.SweepTemp
unfoldable pub sweep_temp : Machine → Host → Host
sweep_temp m h = if m.fails h.tick then step h else swept h (sweep_each m (h.tick + 1) h.downloads)

abbrev drop_first : List Text → List Text
drop_first [] = []
drop_first (_ ∷ xs) = xs

-- the deferred os.Remove of a download that was not installed
abbrev pub discard : Machine → Host → Host
discard m h =
    if m.fails h.tick then step h else record (step h) { downloads = drop_first h.downloads }

-- os.Remove(previous), for which a file that is not there is no error
abbrev clear_previous : Machine → Host → Bool × Host
clear_previous m h =
    if m.fails h.tick then (false, step h) else (true, record (step h) { previous = none })

-- os.Link(binary, previous)
abbrev link_previous : Machine → Bool × Host → Bool × Host
link_previous m (false, h) = (false, h)
link_previous m (true, h) = elim h.binary [
  | none ↦ (false, step h)
  | some b ↦
      if m.fails h.tick then (false, step h) else (true, record (step h) { previous = some b })
]

-- os.Rename(downloaded, binary); where it fails the backup is removed again
abbrev install_download : Machine → Text → Bool × Host → Bool × Host
install_download m content (false, h) = (false, h)
install_download m content (true, h) =
    if m.fails h.tick
    then (false, (clear_previous m (step h)).1)
    else (true, record (step h) { binary = some content; downloads = drop_first h.downloads })

-- swap
unfoldable pub swap : Machine → Text → Host → Bool × Host
swap m content h = install_download m content (link_previous m (clear_previous m h))

-- restart, after ResetFailed, whose error is ignored
unfoldable pub restart : Machine → Host → Bool × Host
restart m h = (m.restarts h.tick, step h)

abbrev pub names_version : Option Text → Text → Bool
names_version none want = false
names_version (some got) want = same_version got want

-- the loop of waitHealthy, with the number of ticks before the timeout
abbrev pub poll : Machine → Text → ℕ → Host → Bool × Host
poll m want zero h = (names_version (m.probe h.tick) want, step h)
poll m want (suc n) h =
    let rest = poll m want n (step h) in
    if names_version (m.probe h.tick) want then (true, step h) else rest

-- waitHealthy
unfoldable pub wait_healthy : Machine → Text → Host → Bool × Host
wait_healthy m want h = poll m want (m.polls h.tick) h

abbrev pub then_healthy : Machine → Text → Bool × Host → Bool × Host
then_healthy m want (false, h) = (false, h)
then_healthy m want (true, h) = wait_healthy m want h

abbrev pub back_again : Bool × Host → Outcome × Host
back_again (true, h) = (rolled_back, h)
back_again (false, h) = (rollback_failed, h)

-- os.Rename(previous, binary)
abbrev pub restore : Machine → Host → Bool × Host
restore m h = elim h.previous [
  | none ↦ (false, step h)
  | some b ↦
      if m.fails h.tick
      then (false, step h)
      else (true, record (step h) { binary = some b; previous = none })
]

abbrev pub then_restarted : Machine → Bool × Host → Bool × Host
then_restarted m (false, h) = (false, h)
then_restarted m (true, h) = restart m h

-- rollback
unfoldable pub rollback : Machine → Host → Outcome × Host
rollback m h = back_again (then_healthy m m.current (then_restarted m (restore m h)))

abbrev pub settled : Machine → Bool × Host → Outcome × Host
settled m (true, h) = (updated, h)
settled m (false, h) = rollback m h

abbrev pub proved : Machine → Text → Bool × Host → Outcome × Host
proved m version (false, h) = (not_swapped, discard m h)
proved m version (true, h) = settled m (then_healthy m version (restart m h))

abbrev pub installed : Machine → Text → Option (Text × Bool) → Host → Outcome × Host
installed m version none h = (not_fetched, h)
installed m version (some (content, signed)) h =
    proved m version (swap m content (record h { downloads = content ∷ h.downloads }))

-- what the two versions say before anything is touched
abbrev pub refusal_of : Text → Text → Bool → Option Outcome
refusal_of current target allow_downgrade =
    if same_version target current && is_release current
    then some nothing_to_do
    else if not (is_release current)
    then none
    else if not (newer target current) && not allow_downgrade
    then some older_refused
    else none

abbrev pub decided : Machine → Text → Option Outcome → Host → Outcome × Host
decided m target (some outcome) h = (outcome, h)
decided m target none h = installed m target (fetch (m.origin target) m.goarch) (sweep_temp m h)

abbrev pub targeted : Machine → Bool → Option Text → Host → Outcome × Host
targeted m allow_downgrade none h = (no_target, h)
targeted m allow_downgrade (some target) h =
    decided m target (refusal_of m.current target allow_downgrade) h

-- update
unfoldable pub update : Machine → Option Text → Bool → Host → Outcome × Host
update m want allow_downgrade h = targeted m allow_downgrade (m.resolve want) h
