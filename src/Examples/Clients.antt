-- ===== src/Examples/Clients.antt =====
-- The Dokku client.
use dokkup.Common.{
  none, ◌≡◌, refl, true, some, List, [], ◌∷◌, ◌++◌, leb, if◌then◌else◌, length, Text, ℕ, zero, suc,
  ◌↔◌, false, not,
}
use dokkup.Common.Strings.{codes}
use dokkup.Dokku.{
  pos, LogOptions, ExecClient, command, validate_app_name, validate_process_type, log_args, logs,
}
use dokkup.Dokku.Arguments.{read_logs, asked, logs_read}
use dokkup.Dokku.Stream.{
  Item, line, too_long, Child, reached_end, no_error, Streamed, stream, lines_read, stop_at,
  stream_returns,
}
use dokkup.Dokku.Tail.{writes, joined, writes_keep_end}

abbrev client : ExecClient
client = record { binary = []; run_as = codes "dokku"; sudo = [] }

abbrev options : LogOptions
options = record { process_type = codes "web"; tail = pos 40; follow = true }

logs_started :
    logs client (codes "blog-2") options ≡ some (command client (log_args (codes "blog-2") options))
unfolding logs validate_app_name validate_process_type
logs_started = refl

flag_refused : logs client (codes "--force") options ≡ none
unfolding logs validate_app_name
flag_refused = refl

logs_read_example :
    (command client (log_args (codes "blog-2") options)
      ≡ command client (log_args (codes "blog-2") options))
    × (read_logs (log_args (codes "blog-2") options) ≡ some (asked (codes "blog-2") options))
logs_read_example =
    logs_read client (codes "blog-2") options (command client (log_args (codes "blog-2") options))
      logs_started

abbrev output : List Text
output = codes "line one" ∷ codes " and the reason" ∷ []

writes_keep_end_example :
    ((front : Text) × (joined output ≡ front ++ writes 6 [] output))
    × (length (writes 6 [] output)
        ≡ (if leb (length (joined output)) 6 then length (joined output) else 6))
writes_keep_end_example = writes_keep_end 6 output

-- an output that goes on after a line that is too long
abbrev child_item : ℕ → Item
child_item zero = line (codes "one")
child_item (suc zero) = too_long
child_item (suc (suc n)) = line (codes "and on")

abbrev child : Child
child = record {
  starts_well = true;
  reads = child_item;
  exits_well = not;
  gone_before = false;
  gone_after = false;
}

stream_returns_example :
    (s : Streamed) × (stream 2 child (λ n l. true) ≡ some s)
    × (s.lines ≡ lines_read 1 0 child)
    × ((s.was_cancelled ≡ false) ↔ (stop_at 1 0 child ≡ reached_end))
    × ((s.result ≡ no_error)
        ↔ ((stop_at 1 0 child ≡ reached_end) × (child.exits_well false ≡ true)))
stream_returns_example = stream_returns 1 child (λ n l. true) refl (refl, refl)
