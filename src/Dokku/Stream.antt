-- ===== src/Dokku/Stream.antt =====
-- internal/dokku/exec.go: how the client follows the output of a command line by line, and how it ends.
use dokkup.Common.{
  ℕ, zero, suc, ◌+◌, Bool, Option, none, some, List, [], ◌∷◌, if◌then◌else◌, Text, ◌≡◌, true, false,
  not, refl, ap, ◌∙◌, ◌↔◌, arith,
}

-- what the scanner meets: a line, one that is longer than it takes, or the end of the output
pub data Item : Type 0 where
  line : Text → Item
  too_long over : Item

-- The process of a command. `reads n` is what the n-th reading meets; an output need not end.
-- `gone` says whether the context of the caller is done, before the start and after the end, and
-- `exits_well` whether Wait returns no error, for a process that was cancelled or not.
pub record Child : Type 0 where
  pub starts_well : Bool
  pub reads : ℕ → Item
  pub exits_well : Bool → Bool
  pub gone_before : Bool
  pub gone_after : Bool

-- why reading stopped: the caller's function refused a line, the scanner gave up, or there is no more
pub data Stop : Type 0 where
  refused_line gave_up reached_end : Stop

-- fnErr, for the n-th line
abbrev pub Sink : Type 0
Sink = ℕ → Text → Bool

-- the lines that were handed on, and why there are no more
pub record Scanned : Type 0 where
  pub lines : List Text
  pub stop : Stop

abbrev pub and_before : Text → Option Scanned → Option Scanned
and_before l none = none
and_before l (some s) = some (record s { lines = l ∷ s.lines })

-- one round of the loop, from what the rounds after it do
abbrev pub scanned : Item → (Text → Bool) → Option Scanned → Option Scanned
scanned over accepts rest = some (record { lines = []; stop = reached_end })
scanned too_long accepts rest = some (record { lines = []; stop = gave_up })
scanned (line l) accepts rest =
    if accepts l then and_before l rest else some (record { lines = l ∷ []; stop = refused_line })

-- the loop over scanner.Scan; none where the fuel is used up
unfoldable pub scan : ℕ → ℕ → Child → Sink → Option Scanned
scan zero n c accepts = none
scan (suc fuel) n c accepts =
    let rest = scan fuel (n + 1) c accepts in scanned (c.reads n) (accepts n) rest

-- what `stream` returns: nil, the error of the caller's function, that of its context, or a
-- CommandError for the scanner, for Wait, or for a process that never ran
pub data Ending : Type 0 where
  no_error by_caller context_done unscanned unwaited never_ran : Ending

-- the process is cancelled once reading has stopped before the end of the output
abbrev pub cancelled : Stop → Bool
cancelled reached_end = false
cancelled gave_up = true
cancelled refused_line = true

-- the switch at the end, from whether the context is done and whether Wait returns no error
abbrev pub ending : Stop → (gone waited : Bool) → Ending
ending refused_line gone waited = by_caller
ending reached_end gone true = no_error
ending reached_end true false = context_done
ending reached_end false false = unwaited
ending gave_up true waited = context_done
ending gave_up false waited = unscanned

pub record Streamed : Type 0 where
  pub lines : List Text
  pub was_cancelled : Bool
  pub result : Ending

abbrev pub never : Bool → Ending
never gone = if gone then context_done else never_ran

abbrev pub streamed : Child → Option Scanned → Option Streamed
streamed c none = none
streamed c (some s) =
    let stopped = cancelled s.stop in
    some (record {
      lines = s.lines;
      was_cancelled = stopped;
      result = ending s.stop c.gone_after (c.exits_well stopped);
    })

unfoldable pub stream : ℕ → Child → Sink → Option Streamed
stream fuel c accepts =
    if c.starts_well
    then streamed c (scan fuel 0 c accepts)
    else some (record { lines = []; was_cancelled = false; result = never c.gone_before })

-- whether reading stops at an item
abbrev pub stops : Item → (Text → Bool) → Bool
stops over accepts = true
stops too_long accepts = true
stops (line l) accepts = not (accepts l)

-- The loop stops at the k-th reading from the n-th on, and at none before.
abbrev pub StopsAfter : ℕ → ℕ → Child → Sink → Type 0
StopsAfter zero n c accepts = stops (c.reads n) (accepts n) ≡ true
StopsAfter (suc k) n c accepts =
    (stops (c.reads n) (accepts n) ≡ false) × StopsAfter k (n + 1) c accepts

abbrev pub line_first : Item → List Text → List Text
line_first (line l) ls = l ∷ ls
line_first too_long ls = ls
line_first over ls = ls

-- the lines among the readings from the n-th to the k-th after it
abbrev pub lines_read : ℕ → ℕ → Child → List Text
lines_read zero n c = line_first (c.reads n) []
lines_read (suc k) n c = line_first (c.reads n) (lines_read k (n + 1) c)

abbrev pub stop_of : Item → Stop
stop_of over = reached_end
stop_of too_long = gave_up
stop_of (line l) = refused_line

abbrev pub stop_at : ℕ → ℕ → Child → Stop
stop_at zero n c = stop_of (c.reads n)
stop_at (suc k) n c = stop_at k (n + 1) c

scanned-stops :
    (i : Item) (accepts : Text → Bool) (rest : Option Scanned)
    → stops i accepts ≡ true
    → scanned i accepts rest ≡ some (record { lines = line_first i []; stop = stop_of i })
scanned-stops over accepts rest h = refl
scanned-stops too_long accepts rest h = refl
scanned-stops (line l) accepts rest h = ground arith

scanned-goes_on :
    (i : Item) (accepts : Text → Bool) (s : Scanned)
    → stops i accepts ≡ false
    → scanned i accepts (some s) ≡ some (record { lines = line_first i s.lines; stop = s.stop })
scanned-goes_on over accepts s h = absurd cc
scanned-goes_on too_long accepts s h = absurd cc
scanned-goes_on (line l) accepts s h = ground arith

scan-stops :
    (k n : ℕ) (c : Child) (accepts : Sink)
    → StopsAfter k n c accepts
    → scan (suc k) n c accepts ≡ some (record { lines = lines_read k n c; stop = stop_at k n c })
unfolding scan
scan-stops zero n c accepts h = scanned-stops (c.reads n) (accepts n) _ h
scan-stops (suc k) n c accepts h =
    ap (scanned (c.reads n) (accepts n)) (scan-stops k (n + 1) c accepts h.1)
    ∙ scanned-goes_on (c.reads n) (accepts n)
        (record { lines = lines_read k (n + 1) c; stop = stop_at k (n + 1) c }) h.0

ending-well : (gone b : Bool) → ending reached_end gone b ≡ no_error → b ≡ true
ending-well gone true h = refl
ending-well true false h = cc
ending-well false false h = cc

ending-no_error :
    (stop : Stop) (gone : Bool) (exits_well : Bool → Bool)
    → (ending stop gone (exits_well (cancelled stop)) ≡ no_error)
      ↔ ((stop ≡ reached_end) × (exits_well false ≡ true))
ending-no_error reached_end gone exits_well =
    (λ h. (refl, ending-well gone (exits_well false) h), λ h. rw h.1 refl)
ending-no_error refused_line gone exits_well = (λ h. cc, λ h. cc)
ending-no_error gave_up true exits_well = (λ h. cc, λ h. cc)
ending-no_error gave_up false exits_well = (λ h. cc, λ h. cc)

cancelled-reached_end : (stop : Stop) → (cancelled stop ≡ false) ↔ (stop ≡ reached_end)
cancelled-reached_end reached_end = (λ h. refl, λ h. refl)
cancelled-reached_end gave_up = (λ h. cc, λ h. cc)
cancelled-reached_end refused_line = (λ h. cc, λ h. cc)

-- Where the output ends, or has a line that the caller refuses or that is too long, the loop stops
-- there, after one round for each reading: the caller was given the lines up to there in order; the
-- process was cancelled unless its output had ended, so that waiting for it does not wait for a process
-- that writes on; and the answer is nil only if the whole output was read and the process ended well.
pub stream_returns :
    (k : ℕ) (c : Child) (accepts : Sink)
    → c.starts_well ≡ true
    → StopsAfter k 0 c accepts
    → (s : Streamed) × (stream (suc k) c accepts ≡ some s)
      × (s.lines ≡ lines_read k 0 c)
      × ((s.was_cancelled ≡ false) ↔ (stop_at k 0 c ≡ reached_end))
      × ((s.result ≡ no_error) ↔ ((stop_at k 0 c ≡ reached_end) × (c.exits_well false ≡ true)))
unfolding stream
stream_returns k c accepts g h =
    let stop : Stop = stop_at k 0 c in
    (
      record {
        lines = lines_read k 0 c;
        was_cancelled = cancelled stop;
        result = ending stop c.gone_after (c.exits_well (cancelled stop));
      },
      rw (scan-stops k 0 c accepts h, g) refl,
      refl,
      cancelled-reached_end stop,
      ending-no_error stop c.gone_after c.exits_well,
    )
