-- ===== src/Onboard/Depth.antt =====
-- cmd/agent/onboard.go: the number that `status` prints, against the queue's counter.
use shadow_twin.Prelude.{◌≡◌, refl, Bytes, List, [], ◌∷◌, arith, length, sym, ap, ◌∙◌}
use shadow_twin.Prelude.Int.{pos}
use shadow_twin.Fs.{Node, Disk, entries, read_dir}
use shadow_twin.Buffer.{Spool, pending_names, is_pending}
use shadow_twin.Buffer.Tally.{Tally, length-pending_names}
use shadow_twin.Onboard.{json_files, queue_depth}

json_files-length : (es : List (Bytes × Node)) → json_files es ≡ length (pending_names es)
unfolding json_files pending_names is_pending
json_files-length [] = refl
json_files-length ((name, node) ∷ es) = ground (arith, json_files-length es)

queue_depth-json_files :
    (dir : Bytes) (d : Disk)
    → d.faults ≡ []
    → (queue_depth dir d).0 ≡ json_files (entries dir d.files)
unfolding queue_depth read_dir
queue_depth-json_files dir d f = ground (arith, f)

-- If the counters of a queue are true and no call fails, the number that `status` counts in the
-- queue's folder is the counter that the running agent keeps.
pub queue_depth-count :
    (s : Spool)
    → Tally s
    → s.disk.faults ≡ []
    → pos (queue_depth s.queue.dir s.disk).0 ≡ s.queue.count
queue_depth-count s t f =
    ap pos (
      queue_depth-json_files s.queue.dir s.disk f
      ∙ (json_files-length (entries s.queue.dir s.disk.files)
          ∙ length-pending_names s.queue.dir s.disk.files))
    ∙ sym t.counted
