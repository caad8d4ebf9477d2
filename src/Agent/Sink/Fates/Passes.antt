-- ===== src/Agent/Sink/Fates/Passes.antt =====
-- cmd/agent/main.go: the fates of events through the loops of the consumer.
use shadow_twin.Prelude.{
  ℕ, zero, suc, ◌≡◌, refl, ◌⊎◌, inl, inr, Bytes, Bool, true, false, Option, none, some, List, [],
  ◌∷◌, arith,
}
use shadow_twin.Fs.{Files, Result, ok, err}
use shadow_twin.Collectors.Event.{Event}
use shadow_twin.Buffer.{Spool, Batch, Codec}
use shadow_twin.Buffer.Tally.{Tally}
use shadow_twin.Buffer.Reading.{read_batch}
use shadow_twin.Transport.{SendError, retryable, permanent, unauthorized}
use shadow_twin.Agent.Sink.{
  World, Run, Pass, Signal, tick, cancelled, stop_drain, paused, halted, spent, after_shipment,
  after_flushed, let_in, drain_batch, drain_pass, flush_batch, final_flush, after_pass, run_sink,
}
use shadow_twin.Agent.Sink.Producer.{Arrives}
use shadow_twin.Agent.Sink.Fates.Rounds.{Safe-ship}
use shadow_twin.Agent.Sink.Fates.{IsStored, Fate, kept, Safe, Safe-read, Safe-persist}

pub Result-cases :
    {E A : Type 0} (r : Result E A) → ((x : E) × (r ≡ err x)) ⊎ ((a : A) × (r ≡ ok a))
Result-cases (err x) = inl (x, refl)
Result-cases (ok a) = inr (a, refl)

module _ (codec : Codec) (world : World) (batch_size : ℕ)
    (arrives : (n : ℕ) (s : Spool) → Arrives codec (world.arrivals n s) s) (dir : Bytes)
    (fs0 : Files) (dropped0 : ℕ) where
  abbrev IsSafe : Run → Type 0
  IsSafe r = Safe codec dir fs0 dropped0 r.spool r.sent

  -- What a loop does after a shipment keeps what the shipment and the rest of the loop keep.
  after_shipment-Safe :
      (o : Option SendError) (r : Run) (rest : Pass × Run)
      → IsSafe r
      → IsSafe rest.1
      → IsSafe (after_shipment o r rest).1
  unfolding after_shipment
  after_shipment-Safe none r rest a b = b
  after_shipment-Safe (some permanent) r rest a b = b
  after_shipment-Safe (some unauthorized) r rest a b = a
  after_shipment-Safe (some retryable) r rest a b = a

  after_flushed-Safe :
      (o : Option SendError) (timeout : Bool) (r : Run) (rest : Pass × Run)
      → IsSafe r
      → IsSafe rest.1
      → IsSafe (after_flushed o timeout r rest).1
  unfolding after_flushed
  after_flushed-Safe none true r rest a b = a
  after_flushed-Safe none false r rest a b = b
  after_flushed-Safe (some permanent) true r rest a b = a
  after_flushed-Safe (some permanent) false r rest a b = b
  after_flushed-Safe (some unauthorized) timeout r rest a b = a
  after_flushed-Safe (some retryable) timeout r rest a b = a

  -- The producer's turn decides no fate.
  pub let_in-Safe : (r : Run) → IsSafe r → IsSafe (let_in codec world r)
  unfolding let_in
  let_in-Safe r safe =
      Safe-persist codec dir fs0 dropped0 r.spool r.sent safe (world.arrivals r.moment r.spool)
        (arrives r.moment r.spool)

  module _ (r : Run) (safe : IsSafe r) (more : Run → Pass × Run)
      (ih : (r' : Run) → IsSafe r' → IsSafe (more r').1) where
    -- What was read, whether it is shipped or not.
    read_only :
        (attempt : ℕ)
        → IsSafe (record r { attempt = attempt; spool = (read_batch codec batch_size 0 r.spool).1 })
    read_only attempt = Safe-read codec dir fs0 dropped0 r.spool r.sent safe batch_size

    module _ (b : Batch) (e : (read_batch codec batch_size 0 r.spool).0 ≡ ok b) where
      drain_batch-Safe :
          (evs : List Event)
          → b.events ≡ evs
          → IsSafe
              (drain_batch codec world batch_size b
                (read_batch codec batch_size 0 r.spool).1
                r
                more).1
      unfolding drain_batch
      drain_batch-Safe [] h = rw (h, drain_batch) (read_only 0)
      drain_batch-Safe (ev ∷ evs) h =
          let a = Safe-ship codec world batch_size arrives dir fs0 dropped0 r safe b e in
          rw (h, drain_batch) (after_shipment-Safe _ _ _ a (ih _ a))

      flush_batch-Safe :
          (evs : List Event)
          → b.events ≡ evs
          → IsSafe
              (flush_batch codec world batch_size b
                (read_batch codec batch_size 0 r.spool).1
                r
                more).1
      unfolding flush_batch
      flush_batch-Safe [] h = rw (h, flush_batch) (read_only r.attempt)
      flush_batch-Safe (ev ∷ evs) h =
          let a = Safe-ship codec world batch_size arrives dir fs0 dropped0 r safe b e in
          rw (h, flush_batch) (after_flushed-Safe _ _ _ _ a (ih _ a))

  drain_pass-Safe :
      (fuel : ℕ) (r : Run) → IsSafe r → IsSafe (drain_pass codec world batch_size fuel r).1
  unfolding drain_pass
  drain_pass-Safe zero r safe = safe
  drain_pass-Safe (suc fuel) r safe =
      let r1 = let_in codec world r in
      let safe1 = let_in-Safe r safe in
      elim (Result-cases (read_batch codec batch_size 0 r1.spool).0) [
        | inl (x, e) ↦
            rw (e, drain_pass)
              (read_only r1 safe1 (drain_pass codec world batch_size fuel) (drain_pass-Safe fuel)
                r1.attempt)
        | inr (b, e) ↦
            rw (e, drain_pass)
              (drain_batch-Safe r1 safe1 (drain_pass codec world batch_size fuel)
                (drain_pass-Safe fuel) b e b.events refl)
      ]

  final_flush-Safe :
      (fuel : ℕ) (r : Run) → IsSafe r → IsSafe (final_flush codec world batch_size fuel r).1
  unfolding final_flush
  final_flush-Safe zero r safe = safe
  final_flush-Safe (suc fuel) r safe =
      let r1 = let_in codec world r in
      let safe1 = let_in-Safe r safe in
      elim (Result-cases (read_batch codec batch_size 0 r1.spool).0) [
        | inl (x, e) ↦
            rw (e, final_flush)
              (read_only r1 safe1 (final_flush codec world batch_size fuel) (final_flush-Safe fuel)
                r1.attempt)
        | inr (b, e) ↦
            rw (e, final_flush)
              (flush_batch-Safe r1 safe1 (final_flush codec world batch_size fuel)
                (final_flush-Safe fuel) b e b.events refl)
      ]

  after_pass-Safe :
      (x : Pass × Run) (more : Run → Pass × Run)
      → IsSafe x.1
      → ((r : Run) → IsSafe r → IsSafe (more r).1)
      → IsSafe (after_pass x more).1
  unfolding after_pass
  after_pass-Safe (paused, r) more a h = h r a
  after_pass-Safe (halted, r) more a h = a
  after_pass-Safe (spent, r) more a h = a

  run_sink-Safe :
      (fuel : ℕ) (signals : List Signal) (r : Run)
      → IsSafe r
      → IsSafe (run_sink codec world batch_size fuel signals r).1
  unfolding run_sink
  run_sink-Safe fuel [] r safe = safe
  run_sink-Safe fuel (stop_drain ∷ signals) r safe = final_flush-Safe fuel r safe
  run_sink-Safe fuel (cancelled ∷ signals) r safe = final_flush-Safe fuel r safe
  run_sink-Safe fuel (tick ∷ signals) r safe =
      after_pass-Safe _ _ (drain_pass-Safe fuel r safe) (run_sink-Safe fuel signals)

-- The consumer at its start.
abbrev pub started : Spool → Run
started s = record { moment = 0; attempt = 0; spool = s; sent = [] }

module _ (codec : Codec) (world : World) (batch_size : ℕ)
    (arrives : (n : ℕ) (s : Spool) → Arrives codec (world.arrivals n s) s) (fuel : ℕ)
    (signals : List Signal) (s : Spool) (t : Tally s) where
  abbrev ended : Run
  ended = let_in codec world (run_sink codec world batch_size fuel signals (started s)).1

  ended-Safe : Safe codec s.queue.dir s.disk.files s.queue.dropped ended.spool ended.sent
  ended-Safe =
      let_in-Safe codec world batch_size arrives s.queue.dir s.disk.files s.queue.dropped _ (
        run_sink-Safe codec world batch_size arrives s.queue.dir s.disk.files s.queue.dropped fuel
          signals (started s)
          (record {
            tally = t;
            same_dir = refl;
            grown = omega arith;
            fates = λ name ev i. kept refl;
          }))

  -- Let the counters of the queue be true when runSink starts, and let each event that comes in at
  -- any time between the consumer's calls on the queue, from the start to after its end, have a new
  -- file name. Then, for every fuel and list of ticks and shutdown signals, whatever calls on the
  -- disk fail and whatever the platform answers: every readable event that is stored at the start
  -- is in its file still, or was with its file in a batch that the platform acknowledged or refused
  -- for good, or the count of dropped events has grown.
  pub run_sink-Fate :
      (name : Bytes) (ev : Event)
      → IsStored codec s.queue.dir s.disk.files s.queue.dropped name ev
      → Fate codec s.queue.dir s.disk.files s.queue.dropped name ev ended.spool ended.sent
  run_sink-Fate = ended-Safe.fates

  -- Let the counters of the queue be true when runSink starts, and let each event that comes in
  -- between the consumer's calls on the queue have a new file name. Then the counters are true at
  -- its end, for every fuel and list of signals, whatever calls fail and whatever the platform answers.
  run_sink-Tally : Tally ended.spool
  run_sink-Tally = ended-Safe.tally
