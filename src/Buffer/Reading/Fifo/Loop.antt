-- ===== src/Buffer/Reading/Fifo/Loop.antt =====
-- internal/buffer/buffer.go: ReadBatch against the relation on the sorted names.
use shadow_twin.Buffer.Reading.Fifo.Continuing.{read_loop-Continues, read_loop-Reads}
use shadow_twin.Prelude.{
  ℕ, ◌+◌, ◌≤◌, ◌<◌, ◌≡◌, refl, inl, Bytes, true, List, arith, All, ap, length, bytes_eq,
}
use shadow_twin.Fs.{FilePath, path_eq, Files, Result, ok, err, lookup}
use shadow_twin.Text.{has_suffix}
use shadow_twin.Collectors.Event.{Event}
use shadow_twin.Buffer.{Spool, Queue, Batch, Codec, QueueError, at, file_suffix, sorted_pending}
use shadow_twin.Buffer.Reading.{empty_batch, read_batch}
use shadow_twin.Buffer.Reading.Files.{IsEventPath}
use shadow_twin.Buffer.Tally.{Tally}
use shadow_twin.Buffer.Tally.Calls.{Tally-same}
use shadow_twin.Buffer.Tally.Dropping.{
  files-sorted_pending, queue-sorted_pending, sorted_pending-IsListed, sorted_pending-ok,
}
use shadow_twin.Buffer.Reading.Fifo.{
  Serves, done, full_stop, big_stop, serve, pass, Reads, IsQueued,
}
use shadow_twin.Fs.{entries}
use shadow_twin.Text.Order.{sort_strings}
use shadow_twin.Text.Order.Sorting.{All-sort_strings}
use shadow_twin.Buffer.{pending_names}
use shadow_twin.Buffer.Tally.{All-map, pending_names-IsListed}
use shadow_twin.Buffer.Tally.Losses.{pending_suffix}

abbrev pub queued_names : Spool → List Bytes
queued_names s = sort_strings (pending_names (entries s.queue.dir s.disk.files))

pub queued_names-suffix :
    (s : Spool) → Tally s → All (λ name. has_suffix name file_suffix ≡ true) (queued_names s)
queued_names-suffix s t = All-sort_strings _ _ (
    All-map (λ name h. pending_suffix name h.0 h.2) _
      (pending_names-IsListed s.queue.dir s.disk.files t.unique))

module _ (codec : Codec) (max_n max_bytes : ℕ) (s : Spool) (t : Tally s) where
  abbrev listed : Spool
  listed = (sorted_pending s).1

  Reads-listed : Reads codec max_n max_bytes s.queue.dir s.disk.files listed
  Reads-listed = record {
    tally =
        ground (arith, Tally-same s listed.disk t (files-sorted_pending s), queue-sorted_pending s);
    same_dir = ap (λ (k : Queue). k.dir) (queue-sorted_pending s);
    keeps = λ name. inl (ap (lookup (at s.queue.dir name)) (files-sorted_pending s));
  }

  IsQueued-listed :
      (names : List Bytes)
      → (sorted_pending s).0 ≡ ok names
      → All (IsQueued codec max_n max_bytes s.queue.dir s.disk.files) names
  IsQueued-listed names e =
      All-map (λ name h. (pending_suffix name h.0 h.2, h)) names
        (sorted_pending-IsListed s names t.unique e)

  read_batch-Serves_from :
      (r : Result QueueError (List Bytes)) (b : Batch)
      → (sorted_pending s).0 ≡ r
      → (read_batch codec max_n max_bytes s).0 ≡ ok b
      → Serves codec max_n max_bytes s.queue.dir s.disk.files (queued_names s) 0 0 b.files b.events
  unfolding read_batch
  read_batch-Serves_from (err x) b g e = cc (rw (g, read_batch) at e)
  read_batch-Serves_from (ok names) b g e =
      let (ps, evs, h, v) =
        read_loop-Continues codec max_n max_bytes s.queue.dir s.disk.files names empty_batch 0
          listed b (IsQueued-listed names g) Reads-listed (rw (g, read_batch) at e) in
      rw (← sorted_pending-ok s names g, h) v

  -- If the counters are true and ReadBatch returns a batch, the batch follows the sorted names of
  -- the event files that were stored when it began: each file that parses is served in its turn, a
  -- file that does not parse is passed over, and the batch ends only where the names end, where it
  -- has the most events that it may have, or where the next event would take it over the limit on
  -- bytes.
  pub read_batch-Serves :
      (b : Batch)
      → (read_batch codec max_n max_bytes s).0 ≡ ok b
      → Serves codec max_n max_bytes s.queue.dir s.disk.files (queued_names s) 0 0 b.files b.events
  read_batch-Serves b e = read_batch-Serves_from (sorted_pending s).0 b refl e

  read_batch-Reads_from :
      (r : Result QueueError (List Bytes))
      → (sorted_pending s).0 ≡ r
      → Reads codec max_n max_bytes s.queue.dir s.disk.files (read_batch codec max_n max_bytes s).1
  unfolding read_batch
  read_batch-Reads_from (err x) g = rw (g, read_batch) Reads-listed
  read_batch-Reads_from (ok names) g =
      rw (g, read_batch)
        (read_loop-Reads codec max_n max_bytes s.queue.dir s.disk.files names empty_batch 0 listed
          (IsQueued-listed names g) Reads-listed)

  -- If the counters are true, then whatever calls fail in ReadBatch, they are true of what it
  -- leaves, the folder is the same, and a path of the folder keeps its file, or is empty and had a
  -- file whose bytes do not parse.
  pub read_batch-Reads :
      Reads codec max_n max_bytes s.queue.dir s.disk.files (read_batch codec max_n max_bytes s).1
  read_batch-Reads = read_batch-Reads_from (sorted_pending s).0 refl

module _ (codec : Codec) (max_n max_bytes : ℕ) (dir : Bytes) (fs : Files) where
  -- The limits hold for every batch: the number of events, and the bytes but for a single event.
  pub Serves-length :
      {names : List Bytes} {n total : ℕ} {ps : List FilePath} {evs : List Event}
      → Serves codec max_n max_bytes dir fs names n total ps evs
      → 0 < max_n
      → n ≤ max_n
      → n + length evs ≤ max_n
  Serves-length done h k = omega arith
  Serves-length (full_stop f) h k = omega arith
  Serves-length (big_stop l o) h k = omega arith
  Serves-length (serve n l o e v) h k = ground (arith, Serves-length v h (ground arith))
  Serves-length (pass l e v) h k = Serves-length v h k

  -- The paths of a batch are event paths of the folder.
  pub Serves-IsEventPath :
      {names : List Bytes} {n total : ℕ} {ps : List FilePath} {evs : List Event}
      → Serves codec max_n max_bytes dir fs names n total ps evs
      → All (λ name. has_suffix name file_suffix ≡ true) names
      → All (IsEventPath dir) ps
  Serves-IsEventPath done h = tt
  Serves-IsEventPath (full_stop f) h = tt
  Serves-IsEventPath (big_stop l o) h = tt
  Serves-IsEventPath (serve n l o e v) (h, hs) = ((refl, h), Serves-IsEventPath v hs)
  Serves-IsEventPath (pass l e v) (h, hs) = Serves-IsEventPath v hs
