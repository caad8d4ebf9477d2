-- ===== src/Buffer/Opening.antt =====
-- internal/buffer/buffer.go: Open and the scan for what an earlier run has left.
pub mod Recovery
use shadow_twin.Prelude.{Bytes, List, [], ◌∷◌, ◌++◌, if◌then◌else◌}
use shadow_twin.Prelude.Int.{ℤ, pos, ◌+ℤ◌}
use shadow_twin.Text.{has_suffix}
use shadow_twin.Fs.{
  Node, is_dir, size, Disk, not_exist, io_failure, Result, ok, err, read_dir, stat, remove,
  mkdir_all,
}
use shadow_twin.Buffer.{
  file_suffix, tmp_suffix, dead_dir_name, Limits, Queue, QueueError, create_dir, scan_queue,
  stat_entry, at,
}

-- One entry in the scan of initLocked, with the counters so far.
unfoldable pub scan_entry : Bytes → Bytes → Node → ℤ × ℤ → Disk → Result QueueError (ℤ × ℤ) × Disk
unfolding has_suffix remove stat is_dir size
scan_entry dir name node (count, bytes) d =
    if is_dir node
    then (ok (count, bytes), d)
    else if has_suffix name tmp_suffix
    then (let (_, d1) = remove (at dir name) d in (ok (count, bytes), d1))
    else if has_suffix name file_suffix
    then (let (r, d1) = stat (at dir name) d in
        elim r [
          | ok n ↦ (ok (count +ℤ pos 1, bytes +ℤ pos (size n)), d1)
          | err not_exist ↦ (ok (count, bytes), d1)
          | err io_failure ↦ (err (stat_entry io_failure), d1)
        ])
    else (ok (count, bytes), d)

unfoldable pub scan_loop :
    Bytes → List (Bytes × Node) → ℤ × ℤ → Disk → Result QueueError (ℤ × ℤ) × Disk
scan_loop dir [] c d = (ok c, d)
scan_loop dir ((name, node) ∷ es) c d =
    let (r, d1) = scan_entry dir name node c d in
    elim r [ err e ↦ (err e, d1) | ok c' ↦ scan_loop dir es c' d1 ]

-- initLocked
unfoldable pub init : Queue → Disk → Result QueueError Queue × Disk
init q d =
    let (r, d1) = read_dir q.dir d in
    elim r [
      | err e ↦ (err (scan_queue e), d1)
      | ok es ↦
          let (r2, d2) = scan_loop q.dir es (pos 0, pos 0) d1 in
          elim r2 [
            | err e ↦ (err e, d2)
            | ok (count, bytes) ↦ (ok (record q { count = count; bytes = bytes }), d2)
          ]
    ]

-- The dead-letter folder: filepath.Join(dir, "dead").
abbrev pub dead_dir_of : Bytes → Bytes
dead_dir_of dir = dir ++ (b'/' ∷ dead_dir_name)

abbrev pub new_queue : Bytes → Limits → Queue
new_queue dir lim = record {
  dir = dir;
  dead_dir = dead_dir_of dir;
  limits = lim;
  count = pos 0;
  bytes = pos 0;
  dropped = 0;
}

-- Open
unfoldable pub open_queue : Bytes → Limits → Disk → Result QueueError Queue × Disk
open_queue dir lim d =
    let (r, d1) = mkdir_all (at dir dead_dir_name) d in
    elim r [ err e ↦ (err (create_dir e), d1) | ok _ ↦ init (new_queue dir lim) d1 ]
