-- ===== src/Tests/Buffers.antt =====
-- The queue on its test data.
use shadow_twin.Prelude.{
  ◌≡◌, refl, ap, Bytes, codes, none, [], ◌∷◌, arith, nat_eq, bytes_eq, All, sym,
}
use shadow_twin.Prelude.Int.{pos_part}
use shadow_twin.Fs.{
  is_dir, path_eq, lookup, read_dir, entries, stat, remove, rename, erase, insert, ok, read_file,
}
use shadow_twin.Text.{has_suffix}
use shadow_twin.Text.Order.{sort_strings, insert_sorted, leb_bytes}
use shadow_twin.Buffer.{
  Batch, at, file_name, format_nanos, padded, is_pending, pending_names, sorted_pending, file_size,
  discharge, enforce_limits, write,
}
use shadow_twin.Buffer.Reading.{
  read_batch, read_loop, read_round, take_content, after_round, ack, ack_file, dead_letter_file,
}
use shadow_twin.Buffer.Reading.Files.{IsEventPath}
use shadow_twin.Buffer.Reading.Settling.{ack-gone}
use shadow_twin.Buffer.Reading.Fifo.{Serves, Reads}
use shadow_twin.Buffer.Reading.Fifo.Loop.{read_batch-Serves, read_batch-Reads, queued_names}
use shadow_twin.Buffer.Tally.{Tally, pending_count}
use shadow_twin.Buffer.Tally.Limits.{Ended, enforce_limits-Ended}
use shadow_twin.Buffer.Tally.Writing.{final_of}
use shadow_twin.Buffer.Durability.{Wrote, write-Wrote}
use shadow_twin.Prelude.Int.{pos, ◌+ℤ◌}
use shadow_twin.Prelude.{true, false, inr}
use shadow_twin.Fs.{Disk, mkdir_all, size, file}
use shadow_twin.Fs.Laws.{NodupKeys}
use shadow_twin.Buffer.{Queue, Limits, Spool}
use shadow_twin.Buffer.Opening.{open_queue, new_queue, init, scan_loop, scan_entry}
use shadow_twin.Buffer.Opening.Recovery.Counters.{Opened, open_queue-Opened}
use shadow_twin.Buffer.Fifo.{file_name-leb_bytes}
use shadow_twin.Buffer.Bounds.{IsBounded, Reach-IsBounded}
use shadow_twin.Buffer.Tally.{pending_count, count_weight}
use shadow_twin.Fs.Laws.{weigh}
use shadow_twin.Text.{has_suffix}
use shadow_twin.Buffer.Interleaving.{start, then, writes, acks}
use shadow_twin.Tests.{event, codec, dir, spool, spool-Tally}

abbrev new : Bytes
new = codes "c"

new-fresh : lookup (final_of spool (event new)) spool.disk.files ≡ none
unfolding lookup file_name format_nanos padded path_eq bytes_eq nat_eq
new-fresh = refl

-- A queue that is full makes room: the oldest event goes.
write-Wrote_example :
    Wrote codec
      (event new)
      spool
      (write codec (event new) spool).0
      (write codec (event new) spool).1
write-Wrote_example = write-Wrote codec (event new) spool spool-Tally new-fresh

three_pending : pending_count dir spool.disk.files ≡ 3
three_pending = ap pos_part (sym spool-Tally.counted)

enforce_limits-Ended_example :
    Tally (enforce_limits 4 1 spool).1
    × Ended 1 (enforce_limits 4 1 spool).1 (enforce_limits 4 1 spool).0
enforce_limits-Ended_example =
    enforce_limits-Ended 4 1 spool spool-Tally (omega (arith, three_pending))

abbrev two : Batch
two = record {
  events = event (codes "a") ∷ event (codes "b") ∷ [];
  files = at dir (codes "1.json") ∷ at dir (codes "3.json") ∷ [];
}

two_read : (read_batch codec 2 0 spool).0 ≡ ok two
unfolding read_batch read_loop read_round take_content after_round sorted_pending read_dir entries
    pending_names is_pending has_suffix sort_strings insert_sorted leb_bytes read_file
    dead_letter_file rename discharge lookup erase insert path_eq bytes_eq nat_eq is_dir
two_read = refl

read_batch-Serves_example :
    Serves codec 2 0 dir spool.disk.files (queued_names spool) 0 0 two.files two.events
read_batch-Serves_example = read_batch-Serves codec 2 0 spool spool-Tally two two_read

read_batch-Reads_example : Reads codec 2 0 dir spool.disk.files (read_batch codec 2 0 spool).1
read_batch-Reads_example = read_batch-Reads codec 2 0 spool spool-Tally

two_paths : All (IsEventPath dir) two.files
unfolding has_suffix bytes_eq nat_eq
two_paths = ((refl, refl), ((refl, refl), tt))

two_acked : (ack two.files none spool).0 ≡ none
unfolding ack ack_file file_size stat remove lookup erase path_eq bytes_eq nat_eq
two_acked = refl

ack-gone_example : All (λ p. lookup p (ack two.files none spool).1.disk.files ≡ none) two.files
ack-gone_example = ack-gone two.files spool two_paths spool-Tally two_acked

file_name-leb_bytes_example :
    (leb_bytes
        (file_name (event (codes "z")))
        (file_name (record (event (codes "a")) { collected_at = pos 10 }))
      ≡ true)
    × (leb_bytes
          (file_name (record (event (codes "a")) { collected_at = pos 10 }))
          (file_name (event (codes "z")))
        ≡ false)
file_name-leb_bytes_example =
    file_name-leb_bytes (event (codes "z")) (record (event (codes "a")) { collected_at = pos 10 }) 9
      10 refl refl (omega arith) (omega arith)

-- A write, and an Ack of a batch that was read before it.
abbrev written : Spool
written = (write codec (event new) spool).1

spool-IsBounded : IsBounded spool
unfolding pending_count weigh count_weight is_pending is_dir has_suffix nat_eq bytes_eq path_eq
    lookup
spool-IsBounded = inr (omega arith)

-- The queue has room for three events and holds them: the write drops the oldest one.
Reach-IsBounded_example : Tally (ack [] none written).1 × IsBounded (ack [] none written).1
Reach-IsBounded_example =
    Reach-IsBounded codec spool-Tally spool-IsBounded
      (then (then start (writes (event new) new-fresh)) (acks [] tt))

-- A queue that is opened over the files of an earlier run, a torn write among them.
abbrev left : Disk
left = record {
  files =
      (at dir (codes "4.json.tmp"), file 0o600 (codes "x"))
      ∷ (at dir (codes "1.json"), file 0o600 (codes "ab"))
      ∷ [];
  faults = [];
}

abbrev limits : Limits
limits = record { max_events = 3; max_bytes = 0 }

abbrev reopened : Queue
reopened = record (new_queue dir limits) { count = pos 1; bytes = pos 2 }

left_opened : (open_queue dir limits left).0 ≡ ok reopened
unfolding open_queue init scan_loop scan_entry mkdir_all read_dir entries stat remove is_dir size
    has_suffix lookup insert erase path_eq bytes_eq nat_eq ◌+ℤ◌
left_opened = refl

left-NodupKeys : NodupKeys left.files
unfolding lookup path_eq bytes_eq nat_eq
left-NodupKeys = (refl, (refl, tt))

open_queue-Opened_example :
    Opened dir left.files (record { queue = reopened; disk = (open_queue dir limits left).1 })
open_queue-Opened_example = open_queue-Opened dir limits left reopened left-NodupKeys left_opened
