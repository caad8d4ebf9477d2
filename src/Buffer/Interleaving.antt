-- ===== src/Buffer/Interleaving.antt =====
-- The calls of the producer and of the consumer on one queue, in any order: each holds the mutex, so
-- a run is a sequence of whole calls.
use shadow_twin.Prelude.{ℕ, ◌≡◌, none, List, All, sym}
use mathlib.Core.Path.{subst}
use shadow_twin.Fs.{FilePath, Result, lookup}
use shadow_twin.Collectors.Event.{Event}
use shadow_twin.Buffer.{Spool, Codec, QueueError, write}
use shadow_twin.Buffer.Reading.{ack, dead_letter, read_batch}
use shadow_twin.Buffer.Reading.Files.{IsEventPath}
use shadow_twin.Buffer.Reading.Settling.{ack-Tally, dead_letter-Tally}
use shadow_twin.Buffer.Reading.Fifo.Loop.{read_batch-Reads}
use shadow_twin.Buffer.Tally.{Tally}
use shadow_twin.Buffer.Tally.Writing.{final_of}
use shadow_twin.Buffer.Durability.{Wrote, refused_event, not_stored, stored, write-Wrote}

module _ (codec : Codec) where
  -- A call that returns. The paths of a batch are event paths of the folder, but its files may be
  -- gone by then.
  pub data Step (s : Spool) : Spool → Type 0 where
    writes : (ev : Event) → lookup (final_of s ev) s.disk.files ≡ none → Step s (write codec ev s).1
    reads : (max_n max_bytes : ℕ) → Step s (read_batch codec max_n max_bytes s).1
    acks : (ps : List FilePath) → All (IsEventPath s.queue.dir) ps → Step s (ack ps none s).1
    buries :
        (ps : List FilePath) → All (IsEventPath s.queue.dir) ps → Step s (dead_letter ps none s).1

  pub data Reach (s : Spool) : Spool → Type 0 where
    start : Reach s s
    then : {t u : Spool} → Reach s t → Step t u → Reach s u

  Tally-Wrote :
      {ev : Event} {s : Spool} {r : Result QueueError (Unit {0})} {s' : Spool}
      → Tally s
      → Wrote codec ev s r s'
      → Tally s'
  Tally-Wrote t (refused_event h e q) = subst Tally (sym q) t
  Tally-Wrote t (not_stored e h n f t') = t'
  Tally-Wrote t (stored c m h e l f t' w) = t'

  pub Step-Tally : {s u : Spool} → Tally s → Step s u → Tally u
  Step-Tally {s = s} t (writes ev fresh) = Tally-Wrote t (write-Wrote codec ev s t fresh)
  Step-Tally {s = s} t (reads max_n max_bytes) = (read_batch-Reads codec max_n max_bytes s t).tally
  Step-Tally {s = s} t (acks ps h) = ack-Tally ps none s h t
  Step-Tally {s = s} t (buries ps h) = dead_letter-Tally ps none s h t

  -- If the counters are true at first, they are true after every sequence of calls of Write,
  -- ReadBatch, Ack and DeadLetter in any order, whatever calls on the disk fail, where each written
  -- event has a new file name and each batch has event paths of the folder.
  Reach-Tally : {s u : Spool} → Tally s → Reach s u → Tally u
  Reach-Tally t start = t
  Reach-Tally t (then r x) = Step-Tally (Reach-Tally t r) x
