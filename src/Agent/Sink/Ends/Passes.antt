-- ===== src/Agent/Sink/Ends/Passes.antt =====
-- cmd/agent/main.go: drain and finalFlush, and their ends.
use shadow_twin.Prelude.{
  ap, ℕ, zero, suc, ◌+◌, ◌<◌, ◌≡◌, refl, ◌≢◌, inl, inr, Bool, true, false, Option, none, some, List,
  [], ◌∷◌, arith, ap, length,
}
use shadow_twin.Prelude.Int.{pos_part}
use shadow_twin.Fs.{ok}
use shadow_twin.Collectors.Event.{Event}
use shadow_twin.Buffer.{Spool, Batch, Codec}
use shadow_twin.Buffer.Tally.{Tally, pending_count}
use shadow_twin.Buffer.Reading.{read_batch}
use shadow_twin.Buffer.Reading.Easing.{no_folders}
use shadow_twin.Transport.{SendError, retryable, permanent, unauthorized}
use shadow_twin.Agent.Sink.{
  World, Run, Pass, spent, persist, settle, after_shipment, ship, drain_batch, drain_pass,
  flush_batch, final_flush, after_flushed, let_in,
}
use shadow_twin.Agent.Sink.Fates.{IsFinal}
use shadow_twin.Agent.Sink.Fates.Passes.{Result-cases}
use shadow_twin.Agent.Sink.Ends.{Ready, weight, Ready-settle, lighter}

-- A shipment that does not end the pass goes on with the rest.
after_shipment-ends :
    (o : Option SendError) (r : Run) (rest : Pass × Run)
    → (IsFinal o → rest.0 ≢ spent)
    → (after_shipment o r rest).0 ≢ spent
unfolding after_shipment
after_shipment-ends none r rest h = h tt
after_shipment-ends (some permanent) r rest h = h tt
after_shipment-ends (some unauthorized) r rest h = λ e. cc
after_shipment-ends (some retryable) r rest h = λ e. cc

after_flushed-ends :
    (o : Option SendError) (timeout : Bool) (r : Run) (rest : Pass × Run)
    → (IsFinal o → rest.0 ≢ spent)
    → (after_flushed o timeout r rest).0 ≢ spent
unfolding after_flushed
after_flushed-ends none true r rest h = λ e. cc
after_flushed-ends none false r rest h = h tt
after_flushed-ends (some permanent) true r rest h = λ e. cc
after_flushed-ends (some permanent) false r rest h = h tt
after_flushed-ends (some unauthorized) timeout r rest h = λ e. cc
after_flushed-ends (some retryable) timeout r rest h = λ e. cc

module _ (codec : Codec) (world : World) (batch_size : ℕ)
    (quiet : (n : ℕ) (s : Spool) → world.arrivals n s ≡ []) where
  spool-ship :
      (b : Batch) (s : Spool) (r : Run)
      → (ship codec world batch_size b s r).1.spool
        ≡ settle (world.deliver (length r.sent) b.events) b s
  unfolding ship persist
  spool-ship b s r =
      ap (λ evs. settle (world.deliver (length r.sent) b.events) b (persist codec evs s))
        (quiet r.moment s)

  spool-let_in : (r : Run) → (let_in codec world r).spool ≡ r.spool
  unfolding let_in persist
  spool-let_in r = ap (λ evs. persist codec evs r.spool) (quiet r.moment r.spool)

  outcome-ship :
      (b : Batch) (s : Spool) (r : Run)
      → (ship codec world batch_size b s r).0 ≡ world.deliver (length r.sent) b.events
  unfolding ship
  outcome-ship b s r = refl

  module _ (r : Run) (ready : Ready r.spool) (more : Run → Pass × Run)
      (ih : (r' : Run) → Ready r'.spool → weight r'.spool < weight r.spool → (more r').0 ≢ spent)
      (b : Batch) (e : (read_batch codec batch_size 0 r.spool).0 ≡ ok b) where
    drain_batch-ends :
        (evs : List Event)
        → b.events ≡ evs
        → (drain_batch codec world batch_size b (read_batch codec batch_size 0 r.spool).1 r more).0
          ≢ spent
    unfolding drain_batch
    drain_batch-ends [] h = rw (h, drain_batch) (λ x. cc)
    drain_batch-ends (ev ∷ evs) h =
        let s1 = (read_batch codec batch_size 0 r.spool).1 in
        let o = world.deliver (length r.sent) b.events in
        let n : b.events ≢ [] = λ x. cc in
        rw (h, drain_batch)
          (after_shipment-ends (ship codec world batch_size b s1 r).0 _ _ (λ i.
            ih _ (rw (spool-ship b s1 r) (Ready-settle codec batch_size r.spool ready b e n o)) (
              rw (spool-ship b s1 r) (
                lighter codec batch_size r.spool ready b e n o (rw (outcome-ship b s1 r) at i) _
                  refl))))

    flush_batch-ends :
        (evs : List Event)
        → b.events ≡ evs
        → (flush_batch codec world batch_size b (read_batch codec batch_size 0 r.spool).1 r more).0
          ≢ spent
    unfolding flush_batch
    flush_batch-ends [] h = rw (h, flush_batch) (λ x. cc)
    flush_batch-ends (ev ∷ evs) h =
        let s1 = (read_batch codec batch_size 0 r.spool).1 in
        let o = world.deliver (length r.sent) b.events in
        let n : b.events ≢ [] = λ x. cc in
        rw (h, flush_batch)
          (after_flushed-ends (ship codec world batch_size b s1 r).0 _ _ _ (λ i.
            ih _ (rw (spool-ship b s1 r) (Ready-settle codec batch_size r.spool ready b e n o)) (
              rw (spool-ship b s1 r) (
                lighter codec batch_size r.spool ready b e n o (rw (outcome-ship b s1 r) at i) _
                  refl))))

  drain_pass-ends_from :
      (fuel : ℕ) (r : Run)
      → Ready r.spool
      → weight r.spool < fuel
      → (drain_pass codec world batch_size fuel r).0 ≢ spent
  unfolding drain_pass
  drain_pass-ends_from zero r ready h = absurd (omega (arith, h))
  drain_pass-ends_from (suc fuel) r ready h =
      let r1 = let_in codec world r in
      let same = spool-let_in r in
      let ready1 : Ready r1.spool = rw same ready in
      elim (Result-cases (read_batch codec batch_size 0 r1.spool).0) [
        | inl (x, e) ↦ rw (e, drain_pass) (λ y. cc)
        | inr (b, e) ↦
            rw (e, drain_pass)
              (drain_batch-ends r1 ready1 (drain_pass codec world batch_size fuel)
                (λ r' ready' l.
                  drain_pass-ends_from fuel r' ready' (omega (arith, h, l, ap weight same)))
                b e b.events refl)
      ]

  final_flush-ends_from :
      (fuel : ℕ) (r : Run)
      → Ready r.spool
      → weight r.spool < fuel
      → (final_flush codec world batch_size fuel r).0 ≢ spent
  unfolding final_flush
  final_flush-ends_from zero r ready h = absurd (omega (arith, h))
  final_flush-ends_from (suc fuel) r ready h =
      let r1 = let_in codec world r in
      let same = spool-let_in r in
      let ready1 : Ready r1.spool = rw same ready in
      elim (Result-cases (read_batch codec batch_size 0 r1.spool).0) [
        | inl (x, e) ↦ rw (e, final_flush) (λ y. cc)
        | inr (b, e) ↦
            rw (e, final_flush)
              (flush_batch-ends r1 ready1 (final_flush codec world batch_size fuel)
                (λ r' ready' l.
                  final_flush-ends_from fuel r' ready' (omega (arith, h, l, ap weight same)))
                b e b.events refl)
      ]

  -- If the counters are true, no event comes in meanwhile, no entry of the folder of dead letters
  -- is a folder, and the fuel is above the number of event files plus the number of entries in the
  -- list of faults, then a pass of the consumer and the final flush end by themselves: they do not
  -- run out of fuel, whatever the platform answers and whichever of these calls fail.
  pub drain_pass-ends :
      (fuel : ℕ) (r : Run)
      → Tally r.spool
      → no_folders r.spool.queue.dead_dir r.spool.disk.files ≡ true
      → pending_count r.spool.queue.dir r.spool.disk.files + length r.spool.disk.faults < fuel
      → ((drain_pass codec world batch_size fuel r).0 ≢ spent)
        × ((final_flush codec world batch_size fuel r).0 ≢ spent)
  unfolding weight
  drain_pass-ends fuel r t n h =
      let ready : Ready r.spool = record { tally = t; free = n } in
      let w : weight r.spool < fuel = omega (arith, h, ap pos_part t.counted) in
      (drain_pass-ends_from fuel r ready w, final_flush-ends_from fuel r ready w)
