-- ===== src/Agent/Sink.antt =====
-- cmd/agent/main.go: the producer and the consumer of the queue. Each method of the queue holds the
-- queue's mutex, so the two goroutines interleave at whole calls: the events that the producer
-- stores come in before each ReadBatch of the consumer, that is while it waits for a tick, for the
-- end of a backoff or for the end of the producer, and after each ReadBatch, that is while it ships
-- what it has read.
pub mod Producer
pub mod Settles
pub mod Fates
pub mod Ends
use shadow_twin.Prelude.{
  ℕ, zero, suc, ◌+◌, Bool, Option, none, some, List, [], ◌∷◌, length, if◌then◌else◌,
}
use shadow_twin.Collectors.Event.{Event}
use shadow_twin.Fs.{ok, err}
use shadow_twin.Buffer.{Spool, Batch, Codec, write}
use shadow_twin.Buffer.Reading.{ack, dead_letter, read_batch}
use shadow_twin.Transport.{SendError, retryable, permanent, unauthorized}

-- A call of deliver and its result.
pub record Shipment : Type 0 where
  pub batch : Batch
  pub outcome : Option SendError

-- What goes on outside the consumer: the result of each shipment by its number, the events that
-- the producer stores in each interval between the consumer's calls on the queue, by the number of
-- the interval, and, for the last flush, whether its deadline has passed after it.
pub record World : Type 0 where
  pub deliver : ℕ → List Event → Option SendError
  pub arrivals : ℕ → Spool → List Event
  pub timed_out : ℕ → Bool

-- The consumer's state, with the number of intervals in which the producer has had its turn, and
-- the shipments so far, the last first.
pub record Run : Type 0 where
  pub moment : ℕ
  pub attempt : ℕ
  pub spool : Spool
  pub sent : List Shipment

-- How a pass over the queue ends. `spent` is that of a pass that has used up its fuel.
pub data Pass : Type 0 where
  paused halted spent : Pass

-- What runs next: the ticks of the consumer's timer, and the shutdown.
pub data Signal : Type 0 where
  tick cancelled stop_drain : Signal

module _ (codec : Codec) where
  -- The producer: what Write cannot store is logged.
  unfoldable pub persist : List Event → Spool → Spool
  persist [] s = s
  persist (ev ∷ evs) s = persist evs (write codec ev s).1

  -- The producer's turn before a call of the consumer.
  unfoldable pub let_in : World → Run → Run
  let_in world r = record r {
    moment = r.moment + 1;
    spool = persist (world.arrivals r.moment r.spool) r.spool;
  }

-- The calls on the queue after a shipment.
unfoldable pub settle : Option SendError → Batch → Spool → Spool
settle none b s = (ack b.files none s).1
settle (some permanent) b s = (dead_letter b.files none s).1
settle (some retryable) b s = s
settle (some unauthorized) b s = s

abbrev pub next_attempt : Option SendError → ℕ → ℕ
next_attempt none n = 0
next_attempt (some permanent) n = 0
next_attempt (some unauthorized) n = n
next_attempt (some retryable) n = n + 1

-- Whether drainPass goes on to the next batch.
unfoldable pub after_shipment : Option SendError → Run → Pass × Run → Pass × Run
after_shipment none r rest = rest
after_shipment (some permanent) r rest = rest
after_shipment (some unauthorized) r rest = (halted, r)
after_shipment (some retryable) r rest = (paused, r)

-- The end of a round of finalFlush.
unfoldable pub after_flushed : Option SendError → Bool → Run → Pass × Run → Pass × Run
after_flushed none timeout r rest = if timeout then (paused, r) else rest
after_flushed (some permanent) timeout r rest = if timeout then (paused, r) else rest
after_flushed (some unauthorized) timeout r rest = (paused, r)
after_flushed (some retryable) timeout r rest = (paused, r)

-- Whether the loop of runSink goes on after a pass.
unfoldable pub after_pass : Pass × Run → (Run → Pass × Run) → Pass × Run
after_pass (paused, r) more = more r
after_pass (halted, r) more = (halted, r)
after_pass (spent, r) more = (spent, r)

module _ (codec : Codec) (world : World) (batch_size : ℕ) where
  -- A batch is shipped, the producer stores what came meanwhile, and the result is acted on.
  unfoldable pub ship : Batch → Spool → Run → Option SendError × Run
  ship b s r =
      let n = length r.sent in
      let outcome = world.deliver n b.events in
      let s1 = persist codec (world.arrivals r.moment s) s in
      (
        outcome,
        record {
          moment = r.moment + 1;
          attempt = next_attempt outcome r.attempt;
          spool = settle outcome b s1;
          sent = record { batch = b; outcome = outcome } ∷ r.sent;
        },
      )

  -- A batch without an event ends the pass.
  unfoldable pub drain_batch : Batch → Spool → Run → (Run → Pass × Run) → Pass × Run
  drain_batch b s r more = elim b.events [
    | [] ↦ (paused, record r { attempt = 0; spool = s })
    | _ ∷ _ ↦ let (outcome, r1) = ship b s r in after_shipment outcome r1 (more r1)
  ]

  -- The loop drainPass of runSink.
  unfoldable pub drain_pass : ℕ → Run → Pass × Run
  drain_pass zero r = (spent, r)
  drain_pass (suc fuel) r =
      let r1 = let_in codec world r in
      let (res, s) = read_batch codec batch_size 0 r1.spool in
      elim res [
        | err e ↦ (paused, record r1 { spool = s })
        | ok b ↦ drain_batch b s r1 (drain_pass fuel)
      ]

  unfoldable pub flush_batch : Batch → Spool → Run → (Run → Pass × Run) → Pass × Run
  flush_batch b s r more = elim b.events [
    | [] ↦ (paused, record r { spool = s })
    | _ ∷ _ ↦
        let (outcome, r1) = ship b s r in
        after_flushed outcome (world.timed_out (length r.sent)) (record r1 { attempt = r.attempt })
          (more (record r1 { attempt = r.attempt }))
  ]

  -- finalFlush
  unfoldable pub final_flush : ℕ → Run → Pass × Run
  final_flush zero r = (spent, r)
  final_flush (suc fuel) r =
      let r1 = let_in codec world r in
      let (res, s) = read_batch codec batch_size 0 r1.spool in
      elim res [
        | err e ↦ (paused, record r1 { spool = s })
        | ok b ↦ flush_batch b s r1 (final_flush fuel)
      ]

  -- runSink on a list of signals, each pass with the same fuel. After `cancelled` the consumer
  -- waits for the end of the producer, and the ticks are no longer read. What comes in after the last
  -- call is `let_in` at the end.
  unfoldable pub run_sink : ℕ → List Signal → Run → Pass × Run
  run_sink fuel [] r = (paused, r)
  run_sink fuel (stop_drain ∷ signals) r = final_flush fuel r
  run_sink fuel (cancelled ∷ signals) r = final_flush fuel r
  run_sink fuel (tick ∷ signals) r = after_pass (drain_pass fuel r) (run_sink fuel signals)
