-- ===== src/Tests/Pipeline.antt =====
-- The collector, the producer and the consumer on two entries, with a shutdown.
use shadow_twin.Prelude.{
  false, ◌+◌, ◌≤◌, ◌≡◌, refl, ◌⊎◌, Bytes, codes, true, none, some, All, arith, [], ◌∷◌, nat_eq,
  bytes_eq,
}
use shadow_twin.Prelude.Int.{pos}
use shadow_twin.Text.{
  trim_space, trim_left_space, trim_right_space, is_one_space, space_width, is_space, is_space2,
  is_space3,
}
use shadow_twin.Collectors.Event.{Event, new_event}
use shadow_twin.Auth.{name}
use shadow_twin.Auth.Entry.{
  parse_entry, parse_fields, string_field, parse_realtime, parse_int, unsigned, digits, unix_micro,
  build_payload, payload_of,
}
use shadow_twin.Buffer.Reading.{read_batch}
use shadow_twin.Agent.Pipeline.{
  Pipeline, started, entry_of, Moves, offering, storing, parses, sends, stores_cursor, stores_event,
  cancels, reads, Runs, move, turn, cursor_stored, event_stored,
}
use shadow_twin.Agent.Pipeline.Stream.{stream, journal_events, Runs-stream}
use shadow_twin.Agent.Pipeline.Trail.{Trails, taken, Runs-Trails}
use shadow_twin.Agent.Pipeline.Restart.{IsTrimmed, Resumes, Runs-Resumes}
use shadow_twin.Auth.Lifecycle.{Collector, idle, Exec, start}
use shadow_twin.Fs.{Disk}
use mathlib.Core.Path.{subst}
use shadow_twin.Agent.Pipeline.Rest.{AtRest, steps_left, Runs-rest}
use shadow_twin.Agent.Pipeline.Scanning.{Reaches, scan-Runs}
use shadow_twin.Auth.Scan.{scan}
use shadow_twin.Tests.{spool, codec}
use shadow_twin.Tests.Journal.{unmarshal, line, journal, cursor_file, a_trimmed}

abbrev disk : Disk
disk = record { files = []; faults = [] }

abbrev event : Bytes → Event
event id = new_event id (pos 1) (codes "h") name (pos 12000) []

entry_a : entry_of unmarshal (line (codes "a")) ≡ some (event (codes "a"), codes "a")
unfolding entry_of trim_space trim_left_space trim_right_space is_one_space space_width is_space
    is_space2 is_space3 nat_eq parse_entry parse_fields string_field parse_realtime parse_int
    unsigned digits unix_micro bytes_eq build_payload payload_of
entry_a = refl

abbrev first : Pipeline
first = started journal disk spool

abbrev offered : Pipeline
offered = record first {
  lines = line (codes " ") ∷ line (codes "b") ∷ [];
  stage = offering (event (codes "a")) (codes "a");
}

abbrev sent : Pipeline
sent = record offered {
  stage = storing (event (codes "a")) (codes "a");
  hand = some (event (codes "a"));
}

-- The cursor is ahead of Write when the consumer reads and the shutdown comes.
abbrev read : Pipeline
read = record (cursor_stored codec unmarshal cursor_file (codes "a") sent) {
  spool = (read_batch codec 2 0 spool).1;
}

abbrev last : Pipeline
last =
    event_stored codec unmarshal cursor_file (event (codes "a")) (record read { cancelled = true })

run : Runs codec unmarshal cursor_file first 4 last
unfolding started cursor_stored event_stored
run =
    move
      (turn
        (turn
          (move
            (move (move Runs.start (parses (line (codes "a")) _ _ _ refl refl entry_a))
              (sends (event (codes "a")) (codes "a") refl refl))
            (stores_cursor (event (codes "a")) (codes "a") refl))
          (reads 2 0))
        cancels)
      (stores_event (event (codes "a")) refl)

Runs-stream_example : stream unmarshal last ≡ journal_events unmarshal journal
Runs-stream_example = Runs-stream unmarshal codec cursor_file journal disk spool last run

Runs-Trails_example : Trails unmarshal journal cursor_file disk.files last.disk.files (taken last)
Runs-Trails_example = Runs-Trails codec unmarshal cursor_file journal disk spool last run

Runs-rest_example :
    (4 + steps_left last ≤ steps_left first)
    × (AtRest last ⊎ ((u : Pipeline) × Moves codec unmarshal cursor_file last u))
Runs-rest_example = Runs-rest codec unmarshal cursor_file first last run

line-IsTrimmed :
    (b : Bytes)
    → entry_of unmarshal (line b) ≡ some (event b, b)
    → trim_space b ≡ b
    → IsTrimmed unmarshal (line b)
line-IsTrimmed b e t ev cursor h = subst (λ c. trim_space c ≡ c) (ground (arith, e, h)) t

entry_b : entry_of unmarshal (line (codes "b")) ≡ some (event (codes "b"), codes "b")
unfolding entry_of trim_space trim_left_space trim_right_space is_one_space space_width is_space
    is_space2 is_space3 nat_eq parse_entry parse_fields string_field parse_realtime parse_int
    unsigned digits unix_micro bytes_eq build_payload payload_of
entry_b = refl

no_entry : entry_of unmarshal (line (codes " ")) ≡ none
unfolding entry_of trim_space trim_left_space trim_right_space is_one_space space_width is_space
    is_space2 is_space3 nat_eq
no_entry = refl

b_trimmed : trim_space (codes "b") ≡ codes "b"
unfolding trim_space trim_left_space trim_right_space is_one_space space_width is_space is_space2
    is_space3 nat_eq
b_trimmed = refl

journal-IsTrimmed : All (IsTrimmed unmarshal) journal
journal-IsTrimmed = (
  line-IsTrimmed (codes "a") entry_a a_trimmed,
  (
    λ ev cursor h. absurd (ground (arith, no_entry, h)),
    (line-IsTrimmed (codes "b") entry_b b_trimmed, tt),
  ),
)

abbrev exec : Exec
exec = record { look_path = λ b. some (codes "/j"); has_pipe = true; starts = true }

abbrev collector : Collector
collector = record { cursor_file = cursor_file; is_cancelled = false; phase = idle; error = none }

-- What a crash leaves of the run.
abbrev crashed : Disk
crashed = record { files = last.disk.files; faults = [] }

Runs-Resumes_example :
    Resumes unmarshal journal exec
      (codes "/j")
      (start exec collector disk).0.0
      (taken last)
      (start exec collector crashed).0.0
Runs-Resumes_example =
    Runs-Resumes unmarshal codec exec (codes "/j") collector journal disk disk crashed spool last
      journal-IsTrimmed refl refl refl refl run refl refl refl

scan-Runs_example :
    Reaches unmarshal cursor_file codec first
      (scan unmarshal cursor_file journal (record { emitted = []; disk = disk }))
scan-Runs_example = scan-Runs codec unmarshal cursor_file journal disk spool
