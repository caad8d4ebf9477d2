-- ===== src/Agent/Pipeline/Stream.antt =====
-- cmd/agent/main.go: the events on their way from the journal to the queue.
use shadow_twin.Prelude.{ℕ, ◌≡◌, refl, Bytes, Option, none, some, List, [], ◌∷◌, ◌++◌, ◌∙◌}
use mathlib.Core.List.{append_assoc}
use shadow_twin.Fs.{FilePath, Disk}
use shadow_twin.Collectors.Event.{Event}
use shadow_twin.Buffer.{Spool, Codec}
use shadow_twin.Auth.Entry.{Fields}
use shadow_twin.Auth.Scan.{Line}
use shadow_twin.Agent.Pipeline.{
  Stage, reading, offering, storing, stopped, Pipeline, started, entry_of, cursor_stored,
  event_stored, Moves, passes_over, parses, sends, gives_up, stores_cursor, ends, stores_event,
  Turns, reads, settles, cancels, Runs, start, move, turn,
}

abbrev pub in_hand : Option Event → List Event
in_hand none = []
in_hand (some ev) = ev ∷ []

-- What the collector has parsed and not sent.
abbrev pub unsent : Stage → List Event
unsent reading = []
unsent (offering ev cursor) = ev ∷ []
unsent (storing ev cursor) = []
unsent (stopped evs) = evs

module _ (unmarshal : Bytes → Option Fields) where
  abbrev pub cons_entry : Option (Event × Bytes) → List Event → List Event
  cons_entry none evs = evs
  cons_entry (some (ev, cursor)) evs = ev ∷ evs

  -- The specification: the events of the journal's lines, in their order.
  unfoldable pub journal_events : List Line → List Event
  journal_events [] = []
  journal_events (line ∷ lines) = cons_entry (entry_of unmarshal line) (journal_events lines)

  journal_events-cons :
      (line : Line) (lines ls : List Line)
      → ls ≡ line ∷ lines
      → journal_events ls ≡ cons_entry (entry_of unmarshal line) (journal_events lines)
  unfolding journal_events
  journal_events-cons line lines ls e = rw e refl

  -- The events on their way through the pipeline, the first one first.
  abbrev pub stream : Pipeline → List Event
  stream s = s.written ++ (in_hand s.hand ++ (unsent s.stage ++ journal_events s.lines))

  module _ (codec : Codec) (cursor_file : FilePath) where
    stream-Moves : {s t : Pipeline} → Moves codec unmarshal cursor_file s t → stream t ≡ stream s
    unfolding cursor_stored event_stored
    stream-Moves {s} (passes_over line lines e l n) =
        rw e (rw (journal_events-cons line lines s.lines l) (rw n refl))
    stream-Moves {s} (parses line lines ev cursor e l n) =
        rw e (rw (journal_events-cons line lines s.lines l) (rw n refl))
    stream-Moves {s} (sends ev cursor e h) = rw e (rw h refl)
    stream-Moves {s} (gives_up ev cursor e c) = rw e refl
    stream-Moves {s} (stores_cursor ev cursor e) = rw e refl
    stream-Moves {s} (ends e) = rw e refl
    stream-Moves {s} (stores_event ev h) = rw h (append_assoc s.written (ev ∷ []) _)

    stream-Turns : {s t : Pipeline} → Turns codec unmarshal cursor_file s t → stream t ≡ stream s
    stream-Turns (reads max_n max_bytes) = refl
    stream-Turns (settles outcome batch) = refl
    stream-Turns cancels = refl

    stream-Runs :
        {s : Pipeline} {n : ℕ} {t : Pipeline}
        → Runs codec unmarshal cursor_file s n t
        → stream t ≡ stream s
    stream-Runs start = refl
    stream-Runs (move r m) = stream-Moves m ∙ stream-Runs r
    stream-Runs (turn r m) = stream-Turns m ∙ stream-Runs r

    -- Let the collector and the producer start over any journal. Then in every reachable state,
    -- whatever the interleaving with the consumer and the shutdown is, the events that Write has
    -- returned from, then the one in the producer's hand, then the one that the collector has not
    -- sent, then those of the lines to come, are the events of the journal's lines in their order.
    pub Runs-stream :
        {n : ℕ} (lines : List Line) (d : Disk) (q : Spool) (t : Pipeline)
        → Runs codec unmarshal cursor_file (started lines d q) n t
        → stream t ≡ journal_events lines
    unfolding started
    Runs-stream lines d q t r = stream-Runs r
