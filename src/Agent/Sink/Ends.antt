-- ===== src/Agent/Sink/Ends.antt =====
-- cmd/agent/main.go: how many rounds a pass of the consumer has.
pub mod Passes
use shadow_twin.Prelude.{
  ℕ, zero, suc, ◌+◌, ◌≤◌, ◌<◌, ◌≡◌, refl, ◌≢◌, ◌⊎◌, inl, inr, Bytes, Bool, true, false, Option,
  none, some, List, [], ◌∷◌, arith, All, ap, sym, ◌∙◌, length,
}
use mathlib.Core.Path.{subst}
use shadow_twin.Prelude.Int.{pos, pos_part, ◌-ℤ◌}
use shadow_twin.Fs.{FilePath, file, Files, Fault, Result, ok, err, lookup, is_dir}
use shadow_twin.Text.{has_suffix}
use shadow_twin.Collectors.Event.{Event}
use shadow_twin.Buffer.{Spool, Queue, Batch, Codec, QueueError, at, file_suffix, is_pending}
use shadow_twin.Buffer.Tally.{Tally, pending_count, pending_count-erase}
use shadow_twin.Buffer.Reading.{read_batch, ack, dead_letter}
use shadow_twin.Buffer.Reading.Files.{IsEventPath}
use shadow_twin.Buffer.Reading.Fifo.{Serves, done, full_stop, big_stop, serve, pass, Reads}
use shadow_twin.Buffer.Reading.Fifo.Loop.{
  read_batch-Serves, read_batch-Reads, Serves-IsEventPath, queued_names, queued_names-suffix,
}
use shadow_twin.Buffer.Reading.Drain.{ack-Eases, dead_letter-Eases, ack-takes, dead_letter-takes}
use shadow_twin.Buffer.Reading.Easing.{Eases, Eases-refl, Eases-trans, no_folders}
use shadow_twin.Buffer.Reading.Drain.Batches.{read_batch-Eases, read_batch-uses}
use shadow_twin.Transport.{SendError, retryable, permanent, unauthorized}
use shadow_twin.Agent.Sink.{
  World, Run, Pass, paused, halted, spent, persist, settle, after_shipment, ship, drain_batch,
  drain_pass,
}
use shadow_twin.Agent.Sink.Settles.{settle-Tally, settle-Framed}
use shadow_twin.Agent.Sink.Fates.{IsFinal}

-- The first file of a batch that is not empty.
record Heads (codec : Codec) (dir : Bytes) (fs : Files) (ps : List FilePath) : Type 0 where
  name : Bytes
  rest : List FilePath
  mode : ℕ
  content : Bytes
  event : Event
  first : ps ≡ at dir name ∷ rest
  found : lookup (at dir name) fs ≡ some (file mode content)
  parses : codec.unmarshal content ≡ some event
  suffix : has_suffix name file_suffix ≡ true

module _ (codec : Codec) (max_n max_bytes : ℕ) (dir : Bytes) (fs : Files) where
  Serves-Heads :
      {names : List Bytes} {n total : ℕ} {ps : List FilePath} {evs : List Event}
      → Serves codec max_n max_bytes dir fs names n total ps evs
      → All (λ name. has_suffix name file_suffix ≡ true) names
      → evs ≢ []
      → Heads codec dir fs ps
  Serves-Heads done h k = absurd (k refl)
  Serves-Heads (full_stop f) h k = absurd (k refl)
  Serves-Heads (big_stop l o) h k = absurd (k refl)
  Serves-Heads (serve {name = name} {m = m} {c = c} {ev = ev} {ps = ps} n l o e v) (h, hs) k =
      record {
        name = name;
        rest = ps;
        mode = m;
        content = c;
        event = ev;
        first = refl;
        found = l;
        parses = e;
        suffix = h;
      }
  Serves-Heads (pass l e v) (h, hs) k = Serves-Heads v hs k

settle-Eases : (o : Option SendError) (b : Batch) (s : Spool) → Eases s (settle o b s)
unfolding settle
settle-Eases none b s = ack-Eases b.files none s
settle-Eases (some permanent) b s = dead_letter-Eases b.files none s
settle-Eases (some retryable) b s = Eases-refl s
settle-Eases (some unauthorized) b s = Eases-refl s

settle-takes :
    (o : Option SendError) (b : Batch) (s : Spool) (p : FilePath) (ps : List FilePath) (m : ℕ)
    (c : Bytes)
    → IsFinal o
    → b.files ≡ p ∷ ps
    → s.disk.faults ≡ []
    → lookup p s.disk.files ≡ some (file m c)
    → no_folders s.queue.dead_dir s.disk.files ≡ true
    → pos_part (settle o b s).queue.count ≤ pos_part (s.queue.count -ℤ pos 1)
unfolding settle
settle-takes none b s p ps m c i e f l n = rw e (ack-takes p ps none s m c f l)
settle-takes (some permanent) b s p ps m c i e f l n =
    rw e (dead_letter-takes p ps none s m c f l n)
settle-takes (some retryable) b s p ps m c i e f l n = absurd i
settle-takes (some unauthorized) b s p ps m c i e f l n = absurd i

none_left : (fs : List (Option Fault)) → length fs ≡ 0 → fs ≡ []
none_left [] h = refl
none_left (f ∷ fs) h = absurd (omega (arith, h))

-- What is left to do.
unfoldable pub weight : Spool → ℕ
weight s = pos_part s.queue.count + length s.disk.faults

pub record Ready (s : Spool) : Type 0 where
  pub tally : Tally s
  pub free : no_folders s.queue.dead_dir s.disk.files ≡ true

Ready-Eases : (s s' : Spool) → Ready s → Eases s s' → Tally s' → Ready s'
Ready-Eases s s' r e t = record {
  tally = t;
  free = rw e.dead_dir (e.folders s.queue.dead_dir r.free);
}

-- A stored event counts.
one_less :
    (s : Spool) (name : Bytes) (m : ℕ) (c : Bytes)
    → Tally s
    → lookup (at s.queue.dir name) s.disk.files ≡ some (file m c)
    → has_suffix name file_suffix ≡ true
    → pos_part (s.queue.count -ℤ pos 1) < pos_part s.queue.count
unfolding is_pending is_dir ◌-ℤ◌
one_less s name m c t l h =
    let e = pending_count-erase s.queue.dir name (file m c) s.disk.files l (ground (arith, h)) in
    ground (arith, t.counted, e)

module _ (codec : Codec) (batch_size : ℕ) (s : Spool) (ready : Ready s) (b : Batch)
    (e : (read_batch codec batch_size 0 s).0 ≡ ok b) (some_event : b.events ≢ []) where
  abbrev after_read : Spool
  after_read = (read_batch codec batch_size 0 s).1

  reads : Reads codec batch_size 0 s.queue.dir s.disk.files after_read
  reads = read_batch-Reads codec batch_size 0 s ready.tally

  heads : Heads codec s.queue.dir s.disk.files b.files
  heads =
      Serves-Heads codec batch_size 0 s.queue.dir s.disk.files
        (read_batch-Serves codec batch_size 0 s ready.tally b e) (queued_names-suffix s ready.tally)
        some_event

  paths : All (IsEventPath after_read.queue.dir) b.files
  paths =
      subst (λ d. All (IsEventPath d) b.files) (sym reads.same_dir)
        (Serves-IsEventPath codec batch_size 0 s.queue.dir s.disk.files
          (read_batch-Serves codec batch_size 0 s ready.tally b e)
          (queued_names-suffix s ready.tally))

  Ready-read : Ready after_read
  Ready-read = Ready-Eases s after_read ready (read_batch-Eases codec batch_size 0 s) reads.tally

  pub Ready-settle : (o : Option SendError) → Ready (settle o b after_read)
  Ready-settle o =
      Ready-Eases after_read _ Ready-read (settle-Eases o b after_read)
        (settle-Tally o b after_read paths reads.tally)

  still_there :
      lookup (at s.queue.dir heads.name) after_read.disk.files
      ≡ some (file heads.mode heads.content)
  still_there = elim (reads.keeps heads.name) [
    | inl k ↦ k ∙ heads.found
    | inr (k, (m, c, l, x)) ↦ cc (heads.found, heads.parses)
  ]

  no_faults : s.disk.faults ≡ [] → after_read.disk.faults ≡ []
  no_faults h =
      none_left after_read.disk.faults
        (omega (arith, ap length h, (read_batch-Eases codec batch_size 0 s).faults))

  pub lighter :
      (o : Option SendError)
      → IsFinal o
      → (fs : List (Option Fault)) → s.disk.faults ≡ fs
      → weight (settle o b after_read) < weight s
  unfolding weight
  lighter o i (f ∷ fs) h = omega (
    arith,
    read_batch-uses codec batch_size 0 s f fs h,
    (read_batch-Eases codec batch_size 0 s).count,
    (settle-Eases o b after_read).count,
    (settle-Eases o b after_read).faults,
  )
  lighter o i [] h =
      let there =
        subst
          (λ d.
            lookup (at d heads.name) after_read.disk.files ≡ some (file heads.mode heads.content))
          (sym reads.same_dir) still_there in
      let here =
        subst
          (λ d.
            lookup (at d heads.name) after_read.disk.files ≡ some (file heads.mode heads.content))
          reads.same_dir there in
      omega (
        arith,
        ap length h,
        (read_batch-Eases codec batch_size 0 s).count,
        (read_batch-Eases codec batch_size 0 s).faults,
        (settle-Eases o b after_read).faults,
        settle-takes o b after_read (at s.queue.dir heads.name) heads.rest heads.mode heads.content
            i heads.first (no_faults h) here Ready-read.free,
        one_less after_read heads.name heads.mode heads.content reads.tally there heads.suffix,
      )
