-- ===== src/Buffer/Reading/Frame.antt =====
-- internal/buffer/buffer.go: what ReadBatch, Ack and DeadLetter do not touch.
use shadow_twin.Prelude.{ℕ, ◌≡◌, refl, ◌≢◌, Bytes, Option, List, [], ◌∷◌, arith, All, ap, ◌∙◌}
use shadow_twin.Fs.{FilePath, Files, FsError, Result, ok, err, lookup, rename}
use shadow_twin.Fs.Laws.{lookup-erase_ne, lookup-insert_ne}
use shadow_twin.Fs.Effects.{Renames, missing, moved, rename-Renames}
use shadow_twin.Buffer.{
  Spool, Queue, Batch, Codec, QueueError, at, file_size, discharge, sorted_pending,
}
use shadow_twin.Buffer.Reading.{
  ack_file, ack, dead_letter_file, dead_letter, Round, go_on, return, after_round, read_round,
  read_loop, read_batch, empty_batch,
}
use shadow_twin.Buffer.Reading.Files.{Takes, stays, goes, buried}
use shadow_twin.Buffer.Reading.Serving.{
  Rounds, full, absent, unread, overflowed, served, spoiled, read_round-Rounds,
}
use shadow_twin.Buffer.Tally.Calls.{files-file_size}
use shadow_twin.Buffer.Tally.Dropping.{queue-sorted_pending}

pub record Framed (s s' : Spool) : Type 0 where
  pub dir : s'.queue.dir ≡ s.queue.dir
  pub dead_dir : s'.queue.dead_dir ≡ s.queue.dead_dir
  pub dropped : s'.queue.dropped ≡ s.queue.dropped

pub Framed-refl : (s s' : Spool) → s'.queue ≡ s.queue → Framed s s'
Framed-refl s s' q = record {
  dir = ap (λ (k : Queue). k.dir) q;
  dead_dir = ap (λ (k : Queue). k.dead_dir) q;
  dropped = ap (λ (k : Queue). k.dropped) q;
}

pub Framed-trans : (s t u : Spool) → Framed s t → Framed t u → Framed s u
Framed-trans s t u a b = record {
  dir = b.dir ∙ a.dir;
  dead_dir = b.dead_dir ∙ a.dead_dir;
  dropped = b.dropped ∙ a.dropped;
}

dead_letter_file-Framed : (p : FilePath) (n : ℕ) (s : Spool) → Framed s (dead_letter_file p n s).1
unfolding dead_letter_file discharge
dead_letter_file-Framed p n s = record {
  dir = ground (arith);
  dead_dir = ground (arith);
  dropped = ground (arith);
}

ack_file-Framed : (p : FilePath) (s : Spool) → Framed s (ack_file p s).1
unfolding ack_file discharge
ack_file-Framed p s = record {
  dir = ground (arith);
  dead_dir = ground (arith);
  dropped = ground (arith);
}

pub ack-Framed :
    (ps : List FilePath) (first : Option QueueError) (s : Spool) → Framed s (ack ps first s).1
unfolding ack
ack-Framed [] first s = Framed-refl s s refl
ack-Framed (p ∷ ps) first s =
    Framed-trans s (ack_file p s).1 _ (ack_file-Framed p s) (ack-Framed ps _ (ack_file p s).1)

-- One round of DeadLetter.
abbrev bury : FilePath → Spool → Option QueueError × Spool
bury p s = dead_letter_file p (file_size p s.disk).0 (record s { disk = (file_size p s.disk).1 })

bury-Framed : (p : FilePath) (s : Spool) → Framed s (bury p s).1
bury-Framed p s =
    Framed-trans s (record s { disk = (file_size p s.disk).1 }) _
      (Framed-refl s (record s { disk = (file_size p s.disk).1 }) refl)
      (dead_letter_file-Framed p _ _)

pub dead_letter-Framed :
    (ps : List FilePath) (first : Option QueueError) (s : Spool)
    → Framed s (dead_letter ps first s).1
unfolding dead_letter
dead_letter-Framed [] first s = Framed-refl s s refl
dead_letter-Framed (p ∷ ps) first s =
    Framed-trans s (bury p s).1 _ (bury-Framed p s) (dead_letter-Framed ps _ (bury p s).1)

Framed-Takes : (p : FilePath) (s : Spool) {s' : Spool} → Takes p s s' → Framed s s'
unfolding discharge
Framed-Takes p s {s' = s'} (stays f q) = Framed-refl s s' q
Framed-Takes p s {s' = s'} (goes m c k l small f q) = record {
  dir = ap (λ (k : Queue). k.dir) q;
  dead_dir = ap (λ (k : Queue). k.dead_dir) q;
  dropped = ap (λ (k : Queue). k.dropped) q;
}
Framed-Takes p s {s' = s'} (buried m c k l small f q) = record {
  dir = ap (λ (k : Queue). k.dir) q;
  dead_dir = ap (λ (k : Queue). k.dead_dir) q;
  dropped = ap (λ (k : Queue). k.dropped) q;
}

module _ (codec : Codec) (max_n max_bytes : ℕ) where
  Framed-Rounds :
      (name : Bytes) (b : Batch) (total : ℕ) (s : Spool) {rd : Round} {s' : Spool}
      → Rounds codec max_n max_bytes name b total s rd s'
      → Framed s s'
  Framed-Rounds name b total s (full f h q) = Framed-refl s _ (ap (λ (x : Spool). x.queue) q)
  Framed-Rounds name b total s (absent l h f q) = Framed-refl s _ q
  Framed-Rounds name b total s (unread e h f q) = Framed-refl s _ q
  Framed-Rounds name b total s (overflowed m c l o h f q) = Framed-refl s _ q
  Framed-Rounds name b total s (served m c ev n l o e h f q) = Framed-refl s _ q
  Framed-Rounds name b total s (spoiled m c l e h k) = Framed-Takes _ s k

  read_round-Framed :
      (name : Bytes) (b : Batch) (total : ℕ) (s : Spool)
      → Framed s (read_round codec max_n max_bytes name b total s).1
  read_round-Framed name b total s =
      Framed-Rounds name b total s (read_round-Rounds codec max_n max_bytes name b total s)

  after_round-Framed :
      (s : Spool) (rd : Round) (s1 : Spool) (more : Batch → ℕ → Result QueueError Batch × Spool)
      → Framed s s1
      → ((b : Batch) (total : ℕ) → Framed s (more b total).1)
      → Framed s (after_round rd s1 more).1
  unfolding after_round
  after_round-Framed s (return x) s1 more f h = f
  after_round-Framed s (go_on b total) s1 more f h = h b total

  read_loop-Framed :
      (names : List Bytes) (b : Batch) (total : ℕ) (s : Spool)
      → Framed s (read_loop codec max_n max_bytes names b total s).1
  unfolding read_loop
  read_loop-Framed [] b total s = Framed-refl s s refl
  read_loop-Framed (name ∷ names) b total s =
      let f = read_round-Framed name b total s in
      after_round-Framed s _ _ _ f
        (λ b' total'. Framed-trans s _ _ f (read_loop-Framed names b' total' _))

  read_batch-Framed_from :
      (s : Spool) (r : Result QueueError (List Bytes))
      → (sorted_pending s).0 ≡ r
      → Framed s (read_batch codec max_n max_bytes s).1
  unfolding read_batch
  read_batch-Framed_from s (err x) g =
      rw (g, read_batch) (Framed-refl s (sorted_pending s).1 (queue-sorted_pending s))
  read_batch-Framed_from s (ok names) g =
      rw (g, read_batch)
        (Framed-trans s (sorted_pending s).1 _
          (Framed-refl s (sorted_pending s).1 (queue-sorted_pending s))
          (read_loop-Framed names empty_batch 0 (sorted_pending s).1))

  pub read_batch-Framed : (s : Spool) → Framed s (read_batch codec max_n max_bytes s).1
  read_batch-Framed s = read_batch-Framed_from s (sorted_pending s).0 refl

files-dead_letter_file :
    (p : FilePath) (n : ℕ) (s : Spool)
    → (dead_letter_file p n s).1.disk.files ≡ (rename p (at s.queue.dead_dir p.name) s.disk).1.files
unfolding dead_letter_file
files-dead_letter_file p n s = ground arith

Renames-other :
    (from to q : FilePath) (fs : Files) {r : Result FsError (Unit {0})} {fs' : Files}
    → q ≢ from
    → q ≢ to
    → Renames from to fs r fs'
    → lookup q fs' ≡ lookup q fs
Renames-other from to q fs m k (Renames.kept e h f) = ap (lookup q) f
Renames-other from to q fs m k (missing h l f) = ap (lookup q) f
Renames-other from to q fs m k (moved _ c l h f) =
    ap (lookup q) f ∙ (lookup-insert_ne q to _ _ k ∙ lookup-erase_ne q from fs m)

dead_letter_file-other :
    (p q : FilePath) (n : ℕ) (s : Spool)
    → q ≢ p
    → q ≢ at s.queue.dead_dir p.name
    → lookup q (dead_letter_file p n s).1.disk.files ≡ lookup q s.disk.files
dead_letter_file-other p q n s m k =
    ap (lookup q) (files-dead_letter_file p n s)
    ∙ Renames-other p (at s.queue.dead_dir p.name) q s.disk.files m k
        (rename-Renames p (at s.queue.dead_dir p.name) s.disk)

-- DeadLetter leaves the file of every path alone that is neither in the batch nor in the folder of
-- dead letters.
pub dead_letter-other :
    (ps : List FilePath) (first : Option QueueError) (s : Spool) (q : FilePath)
    → q.dir ≢ s.queue.dead_dir
    → All (λ p. q ≢ p) ps
    → lookup q (dead_letter ps first s).1.disk.files ≡ lookup q s.disk.files
unfolding dead_letter
dead_letter-other [] first s q n h = refl
dead_letter-other (p ∷ ps) first s q n (h, hs) =
    dead_letter-other ps _ (bury p s).1 q (rw (bury-Framed p s).dead_dir n) hs
    ∙ (dead_letter_file-other p q _ _ h (λ e. n (ap (λ (x : FilePath). x.dir) e))
        ∙ ap (lookup q) (files-file_size p s.disk))
