-- ===== src/Buffer/Reading.antt =====
-- internal/buffer/buffer.go: ReadBatch, Ack and DeadLetter.
pub mod Files
pub mod Easing
pub mod Settling
pub mod Fifo
pub mod Serving
pub mod Frame
pub mod Drain
use shadow_twin.Prelude.{
  ℕ, ◌+◌, Bytes, ◌&&◌, Option, none, some, List, [], ◌∷◌, ◌++◌, length, ltb, leb, if◌then◌else◌,
}
use shadow_twin.Fs.{FilePath, not_exist, io_failure, Result, ok, err, read_file, remove, rename}
use shadow_twin.Buffer.{
  Batch, Codec, QueueError, read_event, ack_event, dead_letter_event, Spool, at, sorted_pending,
  file_size, discharge,
}

-- deadLetterFileLocked
unfoldable pub dead_letter_file : FilePath → ℕ → Spool → Option QueueError × Spool
unfolding rename discharge
dead_letter_file p n s =
    let (r, d) = rename p (at s.queue.dead_dir p.name) s.disk in
    elim r [
      | err not_exist ↦ (none, record s { disk = d })
      | err io_failure ↦ (some (dead_letter_event io_failure), record s { disk = d })
      | ok _ ↦ (none, record { queue = discharge n s.queue; disk = d })
    ]

-- firstErr
abbrev pub first_of : Option QueueError → Option QueueError → Option QueueError
first_of none e = e
first_of (some e) _ = some e

-- DeadLetter
unfoldable pub dead_letter : List FilePath → Option QueueError → Spool → Option QueueError × Spool
dead_letter [] first s = (first, s)
dead_letter (p ∷ ps) first s =
    let (n, d) = file_size p s.disk in
    let (e, s1) = dead_letter_file p n (record s { disk = d }) in
    dead_letter ps (first_of first e) s1

-- One round of Ack.
unfoldable pub ack_file : FilePath → Spool → Option QueueError × Spool
ack_file p s =
    let (n, d1) = file_size p s.disk in
    let (r, d2) = remove p d1 in
    elim r [
      | err not_exist ↦ (none, record s { disk = d2 })
      | err io_failure ↦ (some (ack_event io_failure), record s { disk = d2 })
      | ok _ ↦ (none, record { queue = discharge n s.queue; disk = d2 })
    ]

-- Ack
unfoldable pub ack : List FilePath → Option QueueError → Spool → Option QueueError × Spool
ack [] first s = (first, s)
ack (p ∷ ps) first s = let (e, s1) = ack_file p s in ack ps (first_of first e) s1

-- How a round of ReadBatch ends: the loop goes on, or the method returns.
pub data Round : Type 0 where
  go_on : Batch → ℕ → Round
  return : Result QueueError Batch → Round

abbrev pub empty_batch : Batch
empty_batch = record { events = []; files = [] }

-- The end of a round: the method returns, or the loop goes on with the names that are left.
unfoldable pub after_round :
    Round → Spool → (Batch → ℕ → Result QueueError Batch × Spool) → Result QueueError Batch × Spool
after_round (return r) s more = (r, s)
after_round (go_on b total) s more = more b total

module _ (codec : Codec) where
  -- What ReadBatch does with the bytes of a file.
  unfoldable pub take_content : ℕ → FilePath → Bytes → Batch → ℕ → Spool → Round × Spool
  take_content max_bytes p content b total s =
      if ltb 0 max_bytes && (ltb 0 (length b.events) && ltb max_bytes (total + length content))
      then (return (ok b), s)
      else elim (codec.unmarshal content) [
        | none ↦ let (_, s1) = dead_letter_file p (length content) s in (go_on b total, s1)
        | some ev ↦ (
          go_on (record { events = b.events ++ ev ∷ []; files = b.files ++ p ∷ [] })
              (total + length content),
          s,
        )
      ]

  unfoldable pub read_round : ℕ → ℕ → Bytes → Batch → ℕ → Spool → Round × Spool
  read_round max_n max_bytes name b total s =
      if ltb 0 max_n && leb max_n (length b.events)
      then (return (ok b), s)
      else let p = at s.queue.dir name in
        let (r, d) = read_file p s.disk in
        elim r [
          | err not_exist ↦ (go_on b total, record s { disk = d })
          | err io_failure ↦ (return (err (read_event io_failure)), record s { disk = d })
          | ok content ↦ take_content max_bytes p content b total (record s { disk = d })
        ]

  unfoldable pub read_loop :
      ℕ → ℕ → List Bytes → Batch → ℕ → Spool → Result QueueError Batch × Spool
  read_loop max_n max_bytes [] b total s = (ok b, s)
  read_loop max_n max_bytes (name ∷ names) b total s =
      let (round, s1) = read_round max_n max_bytes name b total s in
      after_round round s1 (λ b' total'. read_loop max_n max_bytes names b' total' s1)

  -- ReadBatch; 0 means no limit.
  unfoldable pub read_batch : ℕ → ℕ → Spool → Result QueueError Batch × Spool
  read_batch max_n max_bytes s =
      let (r, s1) = sorted_pending s in
      elim r [ err e ↦ (err e, s1) | ok names ↦ read_loop max_n max_bytes names empty_batch 0 s1 ]
