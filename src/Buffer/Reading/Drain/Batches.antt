-- ===== src/Buffer/Reading/Drain/Batches.antt =====
-- internal/buffer/buffer.go: what ReadBatch uses up.
use shadow_twin.Prelude.{
  ℕ, ◌≤◌, ◌<◌, ◌≡◌, refl, Bytes, Option, List, [], ◌∷◌, arith, ap, ◌∙◌, length,
}
use shadow_twin.Fs.{
  FilePath, Fault, FsError, Result, ok, err, later, read_file, read_dir, not_exist, io_failure,
}
use shadow_twin.Buffer.{Spool, Queue, Batch, Codec, QueueError, at, sorted_pending}
use shadow_twin.Buffer.Reading.{
  Round, go_on, return, after_round, take_content, read_round, read_loop, read_batch, empty_batch,
}
use shadow_twin.Buffer.Reading.Serving.{
  Rounds, full, absent, unread, overflowed, served, spoiled, read_round-Rounds,
}
use shadow_twin.Buffer.Tally.Dropping.{files-sorted_pending, queue-sorted_pending}
use shadow_twin.Buffer.Reading.Drain.{later-length, faults-read_file, faults-dead_letter_file}
use shadow_twin.Buffer.Reading.Easing.{Eases, Eases-refl, Eases-trans, Eases-Takes}

-- The same files and the same queue.
Eases-same :
    (s s' : Spool)
    → length s'.disk.faults ≤ length s.disk.faults
    → s'.disk.files ≡ s.disk.files
    → s'.queue ≡ s.queue
    → Eases s s'
Eases-same s s' n f q = record {
  count = rw q (omega arith);
  faults = n;
  dead_dir = ap (λ (k : Queue). k.dead_dir) q;
  limits = ap (λ (k : Queue). k.limits) q;
  folders = λ dir h. rw f h;
}

faults-sorted_pending : (s : Spool) → (sorted_pending s).1.disk.faults ≡ later s.disk.faults
unfolding sorted_pending read_dir
faults-sorted_pending s = ground arith

module _ (codec : Codec) (max_n max_bytes : ℕ) where
  faults-take_content :
      (p : FilePath) (content : Bytes) (b : Batch) (total : ℕ) (s : Spool)
      → length (take_content codec max_bytes p content b total s).1.disk.faults
        ≤ length s.disk.faults
  unfolding take_content
  faults-take_content p content b total s =
      ground (arith, faults-dead_letter_file p (length content) s, later-length s.disk.faults)

  faults-read_round_from :
      (name : Bytes) (b : Batch) (total : ℕ) (s : Spool) (r : Result FsError Bytes)
      → (read_file (at s.queue.dir name) s.disk).0 ≡ r
      → length (read_round codec max_n max_bytes name b total s).1.disk.faults
        ≤ length s.disk.faults
  unfolding read_round
  faults-read_round_from name b total s (err not_exist) e =
      ground (arith, e, faults-read_file (at s.queue.dir name) s.disk, later-length s.disk.faults)
  faults-read_round_from name b total s (err io_failure) e =
      ground (arith, e, faults-read_file (at s.queue.dir name) s.disk, later-length s.disk.faults)
  faults-read_round_from name b total s (ok content) e = ground (
    arith,
    e,
    faults-read_file (at s.queue.dir name) s.disk,
    later-length s.disk.faults,
    faults-take_content (at s.queue.dir name) content b total
        (record s { disk = (read_file (at s.queue.dir name) s.disk).1 }),
  )

  Eases-Rounds :
      (name : Bytes) (b : Batch) (total : ℕ) (s : Spool) {rd : Round} {s' : Spool}
      → length s'.disk.faults ≤ length s.disk.faults
      → Rounds codec max_n max_bytes name b total s rd s'
      → Eases s s'
  Eases-Rounds name b total s n (full f h q) =
      Eases-same s _ n (ap (λ (x : Spool). x.disk.files) q) (ap (λ (x : Spool). x.queue) q)
  Eases-Rounds name b total s n (absent l h f q) = Eases-same s _ n f q
  Eases-Rounds name b total s n (unread e h f q) = Eases-same s _ n f q
  Eases-Rounds name b total s n (overflowed m c l o h f q) = Eases-same s _ n f q
  Eases-Rounds name b total s n (served m c ev k l o e h f q) = Eases-same s _ n f q
  Eases-Rounds name b total s n (spoiled m c l e h k) = Eases-Takes _ s n k

  read_round-Eases :
      (name : Bytes) (b : Batch) (total : ℕ) (s : Spool)
      → Eases s (read_round codec max_n max_bytes name b total s).1
  read_round-Eases name b total s =
      Eases-Rounds name b total s (faults-read_round_from name b total s _ refl)
        (read_round-Rounds codec max_n max_bytes name b total s)

  after_round-Eases :
      (s : Spool) (rd : Round) (s1 : Spool) (more : Batch → ℕ → Result QueueError Batch × Spool)
      → Eases s s1
      → ((b : Batch) (total : ℕ) → Eases s (more b total).1)
      → Eases s (after_round rd s1 more).1
  unfolding after_round
  after_round-Eases s (return x) s1 more f h = f
  after_round-Eases s (go_on b total) s1 more f h = h b total

  read_loop-Eases :
      (names : List Bytes) (b : Batch) (total : ℕ) (s : Spool)
      → Eases s (read_loop codec max_n max_bytes names b total s).1
  unfolding read_loop
  read_loop-Eases [] b total s = Eases-refl s
  read_loop-Eases (name ∷ names) b total s =
      let f = read_round-Eases name b total s in
      after_round-Eases s _ _ _ f
        (λ b' total'. Eases-trans s _ _ f (read_loop-Eases names b' total' _))

  -- After the listing of the folder.
  read_batch-Eases_from :
      (s : Spool) (r : Result QueueError (List Bytes))
      → (sorted_pending s).0 ≡ r
      → Eases (sorted_pending s).1 (read_batch codec max_n max_bytes s).1
  unfolding read_batch
  read_batch-Eases_from s (err x) g = rw (g, read_batch) (Eases-refl (sorted_pending s).1)
  read_batch-Eases_from s (ok names) g =
      rw (g, read_batch) (read_loop-Eases names empty_batch 0 (sorted_pending s).1)

  listing-Eases : (s : Spool) → Eases s (sorted_pending s).1
  listing-Eases s =
      Eases-same s (sorted_pending s).1 (rw (faults-sorted_pending s) (later-length s.disk.faults))
        (files-sorted_pending s) (queue-sorted_pending s)

  pub read_batch-Eases : (s : Spool) → Eases s (read_batch codec max_n max_bytes s).1
  read_batch-Eases s =
      Eases-trans s (sorted_pending s).1 _ (listing-Eases s) (read_batch-Eases_from s _ refl)

  -- A fault that was to come is used up.
  pub read_batch-uses :
      (s : Spool) (f : Option Fault) (fs : List (Option Fault))
      → s.disk.faults ≡ f ∷ fs
      → length (read_batch codec max_n max_bytes s).1.disk.faults < length s.disk.faults
  read_batch-uses s f fs e =
      let n : length (sorted_pending s).1.disk.faults ≡ length fs =
        ap length (faults-sorted_pending s ∙ ap later e) in
      omega (arith, n, (read_batch-Eases_from s _ refl).faults, ap length e)
