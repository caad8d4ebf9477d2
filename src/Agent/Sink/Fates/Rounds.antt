-- ===== src/Agent/Sink/Fates/Rounds.antt =====
-- cmd/agent/main.go: the fates of events through one round that ships a batch.
use shadow_twin.Prelude.{
  ℕ, ◌≤◌, ◌≡◌, ◌≢◌, ◌⊎◌, inr, Bytes, Option, some, List, ◌∷◌, arith, All, sym, ◌∙◌, length,
}
use mathlib.Core.Path.{subst}
use shadow_twin.Fs.{file, Files, ok, lookup}
use shadow_twin.Collectors.Event.{Event}
use shadow_twin.Buffer.{Spool, Batch, Codec, at}
use shadow_twin.Buffer.Reading.{read_batch}
use shadow_twin.Buffer.Reading.Files.{IsEventPath}
use shadow_twin.Buffer.Reading.Frame.{read_batch-Framed}
use shadow_twin.Buffer.Reading.Fifo.Loop.{
  read_batch-Serves, Serves-IsEventPath, queued_names-suffix,
}
use shadow_twin.Transport.{SendError}
use shadow_twin.Agent.Sink.{World, Run, persist, settle, ship}
use shadow_twin.Agent.Sink.Producer.{Arrives, persist-Stores}
use shadow_twin.Agent.Sink.Settles.{settle-Framed, settle-Tally}
use shadow_twin.Agent.Sink.Fates.{
  Carries, IsStored, Fate, kept, settled, dropped, Safe, Safe-read, Safe-persist, Fate-shipped,
  Serves-Carries,
}

module _ (codec : Codec) (world : World) (batch_size : ℕ)
    (arrives : (n : ℕ) (s : Spool) → Arrives codec (world.arrivals n s) s) (dir : Bytes)
    (fs0 : Files) (dropped0 : ℕ) where
  abbrev pub IsSafe : Run → Type 0
  IsSafe r = Safe codec dir fs0 dropped0 r.spool r.sent

  -- A round that ships the batch it has read.
  module _ (r : Run) (safe : IsSafe r) (b : Batch)
      (e : (read_batch codec batch_size 0 r.spool).0 ≡ ok b) where
    abbrev after_read : Spool
    after_read = (read_batch codec batch_size 0 r.spool).1

    abbrev coming : List Event
    coming = world.arrivals r.moment after_read

    abbrev stored_more : Spool
    stored_more = persist codec coming after_read

    Safe-after_read : Safe codec dir fs0 dropped0 after_read r.sent
    Safe-after_read = Safe-read codec dir fs0 dropped0 r.spool r.sent safe batch_size

    Safe-stored : Safe codec dir fs0 dropped0 stored_more r.sent
    Safe-stored =
        Safe-persist codec dir fs0 dropped0 after_read r.sent Safe-after_read coming
          (arrives r.moment after_read)

    dropped_grows :
        (o : Option SendError) → r.spool.queue.dropped ≤ (settle o b stored_more).queue.dropped
    dropped_grows o =
        let w =
          persist-Stores codec coming after_read (arrives r.moment after_read)
            Safe-after_read.tally in
        omega (
          arith,
          (read_batch-Framed codec batch_size 0 r.spool).dropped,
          w.grows,
          (settle-Framed o b stored_more).dropped,
        )

    batch_paths : All (IsEventPath dir) b.files
    batch_paths =
        subst (λ d. All (IsEventPath d) b.files) safe.same_dir
          (Serves-IsEventPath codec batch_size 0 r.spool.queue.dir r.spool.disk.files
            (read_batch-Serves codec batch_size 0 r.spool safe.tally b e)
            (queued_names-suffix r.spool safe.tally))

    -- A readable event that is there when the batch is read is in the batch, or its file is not.
    carried :
        (name : Bytes) (ev : Event) (i : IsStored codec dir fs0 dropped0 name ev)
        → lookup (at dir name) r.spool.disk.files ≡ lookup (at dir name) fs0
        → Carries (at dir name) ev b.files b.events ⊎ All (λ p. at dir name ≢ p) b.files
    carried name ev i l =
        let k =
          subst (λ d. lookup (at d name) r.spool.disk.files ≡ some (file i.mode i.content))
            (sym safe.same_dir) (l ∙ i.found) in
        subst (λ d. Carries (at d name) ev b.files b.events ⊎ All (λ p. at d name ≢ p) b.files)
          safe.same_dir
          (Serves-Carries codec batch_size 0 r.spool.queue.dir r.spool.disk.files name i.content
            i.mode ev k i.parses (read_batch-Serves codec batch_size 0 r.spool safe.tally b e))

    Fate-ship :
        (o : Option SendError) (name : Bytes) (ev : Event)
        → IsStored codec dir fs0 dropped0 name ev
        → Fate codec dir fs0 dropped0 name ev
            (settle o b stored_more)
            (record { batch = b; outcome = o } ∷ r.sent)
    Fate-ship o name ev i = elim (safe.fates name ev i) [
      | settled h ↦ settled (inr h)
      | dropped h ↦ dropped (omega (arith, h, dropped_grows o))
      | kept l ↦
          Fate-shipped codec dir fs0 dropped0 b o stored_more r.sent Safe-stored name ev
            (carried name ev i l) (Safe-stored.fates name ev i)
    ]

    pub Safe-ship : IsSafe (ship codec world batch_size b after_read r).1
    unfolding ship
    Safe-ship =
        let o = world.deliver (length r.sent) b.events in
        let f = settle-Framed o b stored_more in
        record {
          tally =
              settle-Tally o b stored_more
                (subst (λ d. All (IsEventPath d) b.files) (sym Safe-stored.same_dir) batch_paths)
                Safe-stored.tally;
          same_dir = f.dir ∙ Safe-stored.same_dir;
          grown = omega (arith, f.dropped, Safe-stored.grown);
          fates = Fate-ship o;
        }
