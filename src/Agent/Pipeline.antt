-- ===== src/Agent/Pipeline.antt =====
-- cmd/agent/main.go and internal/collectors/auth/auth.go: the collector's goroutine, the producer's
-- and the consumer's beside each other. The channel between collector and producer has no buffer: a
-- send waits until the producer is back from Write. The cursor's file and the folder of the queue
-- are apart, so each has a disk value of its own; what can fail on either is arbitrary.
pub mod Stream
pub mod Trail
pub mod Rest
pub mod Restart
pub mod Scanning
use shadow_twin.Prelude.{
  ℕ, ◌+◌, ◌*◌, suc, ◌≡◌, ◌⊎◌, Bytes, Bool, true, false, Option, none, some, List, [], ◌∷◌, ◌++◌,
  length,
}
use shadow_twin.Text.{trim_space}
use shadow_twin.Fs.{FilePath, Disk}
use shadow_twin.Collectors.Event.{Event}
use shadow_twin.Buffer.{Spool, Batch, Codec, write}
use shadow_twin.Buffer.Reading.{read_batch}
use shadow_twin.Transport.{SendError}
use shadow_twin.Auth.{write_cursor}
use shadow_twin.Auth.Entry.{Fields, parse_entry}
use shadow_twin.Auth.Scan.{Line}
use shadow_twin.Agent.Sink.{settle}

-- Where scan stands: before a line, at the select with a parsed entry, after the send, or at its
-- end, with the entry that the shutdown kept it from sending.
pub data Stage : Type 0 where
  reading : Stage
  offering : Event → Bytes → Stage
  storing : Event → Bytes → Stage
  stopped : List Event → Stage

-- `hand` is the event that the producer has received and Write has not returned from; `written` are
-- those that Write has returned from, in their order.
pub record Pipeline : Type 0 where
  pub lines : List Line
  pub stage : Stage
  pub hand : Option Event
  pub written : List Event
  pub cancelled : Bool
  pub disk : Disk
  pub spool : Spool

-- The collector and the producer as they start.
unfoldable pub started : List Line → Disk → Spool → Pipeline
started lines disk spool = record {
  lines = lines;
  stage = reading;
  hand = none;
  written = [];
  cancelled = false;
  disk = disk;
  spool = spool;
}

-- The entry of a line: a blank line and a malformed entry have none.
unfoldable pub entry_of : (Bytes → Option Fields) → Line → Option (Event × Bytes)
entry_of unmarshal line = elim (trim_space line.content) [
  | [] ↦ none
  | _ ∷ _ ↦ parse_entry unmarshal line.host line.content
]

module _ (codec : Codec) (unmarshal : Bytes → Option Fields) (cursor_file : FilePath) where
  -- scan after the select has taken the send: the cursor is stored, whatever comes of it.
  unfoldable pub cursor_stored : Bytes → Pipeline → Pipeline
  cursor_stored cursor s = record s {
    stage = reading;
    disk = (write_cursor cursor_file cursor s.disk).1;
  }

  -- The body of the producer's loop.
  unfoldable pub event_stored : Event → Pipeline → Pipeline
  event_stored ev s = record s {
    hand = none;
    written = s.written ++ ev ∷ [];
    spool = (write codec ev s.spool).1;
  }

  -- A step of the collector or of the producer. The select takes the send or, once the context is
  -- cancelled, may give up; the lines may end at any time.
  pub data Moves (s : Pipeline) : Pipeline → Type 0 where
    passes_over :
        (line : Line) (lines : List Line)
        → s.stage ≡ reading
        → s.lines ≡ line ∷ lines
        → entry_of unmarshal line ≡ none
        → Moves s (record s { lines = lines })
    parses :
        (line : Line) (lines : List Line) (ev : Event) (cursor : Bytes)
        → s.stage ≡ reading
        → s.lines ≡ line ∷ lines
        → entry_of unmarshal line ≡ some (ev, cursor)
        → Moves s (record s { lines = lines; stage = offering ev cursor })
    sends :
        (ev : Event) (cursor : Bytes)
        → s.stage ≡ offering ev cursor
        → s.hand ≡ none
        → Moves s (record s { stage = storing ev cursor; hand = some ev })
    gives_up :
        (ev : Event) (cursor : Bytes)
        → s.stage ≡ offering ev cursor
        → s.cancelled ≡ true
        → Moves s (record s { stage = stopped (ev ∷ []) })
    stores_cursor :
        (ev : Event) (cursor : Bytes)
        → s.stage ≡ storing ev cursor
        → Moves s (cursor_stored cursor s)
    ends : s.stage ≡ reading → Moves s (record s { stage = stopped [] })
    stores_event : (ev : Event) → s.hand ≡ some ev → Moves s (event_stored ev s)

  -- A call of the consumer on the queue, and the shutdown signal.
  pub data Turns (s : Pipeline) : Pipeline → Type 0 where
    reads :
        (max_n max_bytes : ℕ)
        → Turns s (record s { spool = (read_batch codec max_n max_bytes s.spool).1 })
    settles :
        (outcome : Option SendError) (batch : Batch)
        → Turns s (record s { spool = settle outcome batch s.spool })
    cancels : Turns s (record s { cancelled = true })

  -- A run, with the number of its steps of the collector and the producer.
  pub data Runs (s : Pipeline) : ℕ → Pipeline → Type 0 where
    start : Runs s 0 s
    move : {n : ℕ} {t u : Pipeline} → Runs s n t → Moves t u → Runs s (suc n) u
    turn : {n : ℕ} {t u : Pipeline} → Runs s n t → Turns t u → Runs s n u
