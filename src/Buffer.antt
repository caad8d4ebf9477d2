-- ===== src/Buffer.antt =====
-- internal/buffer/buffer.go: the disk-backed queue, its limits and Write. A method is atomic, since
-- it holds the mutex, and takes and returns the queue and the disk.
pub mod Reading
pub mod Opening
pub mod Tally
pub mod Durability
pub mod Fifo
pub mod Interleaving
pub mod Bounds
use shadow_twin.Prelude.{
  ℕ, zero, suc, ◌+◌, ◌-◌, ◌/◌, ◌%◌, Bytes, codes, Bool, true, false, not, ◌&&◌, ◌||◌, Option, none,
  some, List, [], ◌∷◌, ◌++◌, length, ltb, leb, if◌then◌else◌, map,
}
use shadow_twin.Prelude.Int.{ℤ, pos, negsuc, ◌+ℤ◌, ◌-ℤ◌, ltb_ℤ}
use shadow_twin.Text.{has_suffix}
use shadow_twin.Text.Order.{sort_strings}
use shadow_twin.Fs.{
  FilePath, Node, is_dir, size, Disk, FsError, not_exist, io_failure, Result, ok, err, read_dir,
  stat, read_file, remove, rename, write_file, mkdir_all,
}
use shadow_twin.Collectors.Event.{Event, Time}

abbrev pub file_perm : ℕ
file_perm = 0o600

abbrev pub file_suffix : Bytes
file_suffix = codes ".json"

abbrev pub tmp_suffix : Bytes
tmp_suffix = codes ".tmp"

abbrev pub dead_dir_name : Bytes
dead_dir_name = codes "dead"

-- 0 means no limit.
pub record Limits : Type 0 where
  pub max_events : ℕ
  pub max_bytes : ℕ

pub record Queue : Type 0 where
  pub dir : Bytes
  pub dead_dir : Bytes
  pub limits : Limits
  pub count : ℤ
  pub bytes : ℤ
  pub dropped : ℕ

pub record Batch : Type 0 where
  pub events : List Event
  pub files : List FilePath

-- encoding/json on an Event: what the queue writes and reads back.
pub record Codec : Type 0 where
  pub marshal : Event → Option Bytes
  pub unmarshal : Bytes → Option Event

-- The errors, by the step that fails. `stuck` is that of a loop that has used up its fuel.
pub data QueueError : Type 0 where
  create_dir scan_queue stat_entry write_temp commit read_event ack_event dead_letter_event
        drop_event list_queue :
      FsError → QueueError
  marshal_event stuck : QueueError

-- A queue with the disk that it works on.
pub record Spool : Type 0 where
  pub queue : Queue
  pub disk : Disk

abbrev pub at : Bytes → Bytes → FilePath
at dir name = record { dir = dir; name = name }

-- The decimal digits of n in a field of the given width, with zeros in front.
unfoldable pub padded : ℕ → ℕ → Bytes
padded zero n = []
padded (suc w) n = padded w (n / 10) ++ (b'0' + n % 10) ∷ []

-- fmt's %020d of an int64, which has 19 digits at most.
unfoldable pub format_nanos : ℤ → Bytes
unfolding padded
format_nanos (pos n) = padded 20 n
format_nanos (negsuc n) = b'-' ∷ padded 19 (n + 1)

-- fileName
unfoldable pub file_name : Event → Bytes
unfolding format_nanos
file_name ev = format_nanos ev.collected_at ++ (b'-' ∷ (ev.id ++ file_suffix))

-- What the loops over a folder look for: an event file that is no folder.
unfoldable pub is_pending : Bytes → Node → Bool
is_pending name node = not (is_dir node) && has_suffix name file_suffix

-- The loop of sortedPendingLocked.
unfoldable pub pending_names : List (Bytes × Node) → List Bytes
unfolding is_pending
pending_names [] = []
pending_names ((name, node) ∷ es) =
    if is_pending name node then name ∷ pending_names es else pending_names es

-- sortedPendingLocked
unfoldable pub sorted_pending : Spool → Result QueueError (List Bytes) × Spool
unfolding pending_names read_dir
sorted_pending s =
    let (r, d) = read_dir s.queue.dir s.disk in
    elim r [
      | err e ↦ (err (list_queue e), record s { disk = d })
      | ok es ↦ (ok (sort_strings (pending_names es)), record s { disk = d })
    ]

abbrev size_or_zero : Result FsError Node → ℕ
size_or_zero (ok n) = size n
size_or_zero (err e) = 0

-- fileSize
unfoldable pub file_size : FilePath → Disk → ℕ × Disk
unfolding stat size
file_size p d = let (r, d') = stat p d in (size_or_zero r, d')

-- q.count--; q.bytes -= size
unfoldable pub discharge : ℕ → Queue → Queue
discharge n q = record q { count = q.count -ℤ pos 1; bytes = q.bytes -ℤ pos n }

abbrev counted_drop : Spool → ℕ → Result QueueError Bool × Spool
counted_drop s n =
    (ok true, record s { queue = record (discharge n s.queue) { dropped = s.queue.dropped + 1 } })

unfoldable pub drop_named : Bytes → Spool → Result QueueError Bool × Spool
drop_named name s =
    let p = at s.queue.dir name in
    let (n, d1) = file_size p s.disk in
    let (r, d2) = remove p d1 in
    elim r [
      | err io_failure ↦ (err (drop_event io_failure), record s { disk = d2 })
      | err not_exist ↦ counted_drop (record s { disk = d2 }) n
      | ok _ ↦ counted_drop (record s { disk = d2 }) n
    ]

-- dropOldestLocked
unfoldable pub drop_oldest : Spool → Result QueueError Bool × Spool
drop_oldest s =
    let (r, s1) = sorted_pending s in
    elim r [ err e ↦ (err e, s1) | ok [] ↦ (ok false, s1) | ok (name ∷ _) ↦ drop_named name s1 ]

-- overLimitLocked
unfoldable pub over_limit : ℕ → Queue → Bool
over_limit incoming q =
    if ltb 0 q.limits.max_events && ltb_ℤ (pos q.limits.max_events) (q.count +ℤ pos 1)
    then true
    else if ltb 0 q.limits.max_bytes && ltb_ℤ (pos q.limits.max_bytes) (q.bytes +ℤ pos incoming)
    then true
    else false

-- The rest of a round: an error ends the loop, and so does an empty folder.
unfoldable pub after_drop :
    Result QueueError Bool
    → Spool
    → Result QueueError (Unit {0}) × Spool
    → Result QueueError (Unit {0}) × Spool
after_drop (err e) s rest = (err e, s)
after_drop (ok false) s rest = (ok tt, s)
after_drop (ok true) s rest = rest

-- enforceLimitsLocked; a round drops a file, or is the last.
unfoldable pub enforce_limits : ℕ → ℕ → Spool → Result QueueError (Unit {0}) × Spool
enforce_limits zero incoming s = (err stuck, s)
enforce_limits (suc fuel) incoming s = elim (over_limit incoming s.queue) [
  | false ↦ (ok tt, s)
  | true ↦
      let (r, s1) = drop_oldest s in
      let rest = enforce_limits fuel incoming s1 in after_drop r s1 rest
]

-- Write, from the temporary file on.
unfoldable pub commit_event : Event → Bytes → Spool → Result QueueError (Unit {0}) × Spool
unfolding write_file rename remove file_name
commit_event ev content s =
    let final = at s.queue.dir (file_name ev) in
    let tmp = at s.queue.dir (file_name ev ++ tmp_suffix) in
    let (r1, d1) = write_file tmp content file_perm s.disk in
    elim r1 [
      | err e ↦ (err (write_temp e), record s { disk = d1 })
      | ok _ ↦
          let (r2, d2) = rename tmp final d1 in
          elim r2 [
            | err e ↦ let (_, d3) = remove tmp d2 in (err (commit e), record s { disk = d3 })
            | ok _ ↦ (
              ok tt,
              record {
                queue = record (s.queue) {
                  count = s.queue.count +ℤ pos 1;
                  bytes = s.queue.bytes +ℤ pos (length content);
                };
                disk = d2;
              },
            )
          ]
    ]

-- A round for every stored file, and one for the test that ends the loop.
abbrev pub rounds : Spool → ℕ
rounds s = suc (length s.disk.files)

module _ (codec : Codec) where
  -- Write
  unfoldable pub write : Event → Spool → Result QueueError (Unit {0}) × Spool
  write ev s = elim (codec.marshal ev) [
    | none ↦ (err marshal_event, s)
    | some content ↦
        let (r, s1) = enforce_limits (rounds s) (length content) s in
        elim r [ err e ↦ (err e, s1) | ok _ ↦ commit_event ev content s1 ]
  ]

-- Len and Dropped
pub len : Queue → ℤ
len q = q.count

pub dropped_total : Queue → ℕ
dropped_total q = q.dropped
