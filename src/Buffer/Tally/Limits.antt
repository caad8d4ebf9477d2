-- ===== src/Buffer/Tally/Limits.antt =====
-- internal/buffer/buffer.go: the loop that makes room.
use shadow_twin.Prelude.{
  ℕ, zero, suc, ◌+◌, ◌<◌, ◌≡◌, refl, ◌≢◌, inl, inr, Bool, true, false, arith, Bool-cases,
}
use shadow_twin.Fs.{Result, ok, err}
use shadow_twin.Buffer.{
  Spool, QueueError, stuck, over_limit, discharge, after_drop, drop_oldest, enforce_limits,
}
use shadow_twin.Buffer.Tally.{Tally, pending_count, pending_count-erase}
use shadow_twin.Buffer.Tally.Dropping.{
  Drops, failed, nothing_left, gone, drop_oldest-Drops, Drops-Tally,
}

-- How the loop ends: with an error of a call, or with room, or with no event file left.
pub data Ended (incoming : ℕ) (s : Spool) (r : Result QueueError (Unit {0})) : Type 0 where
  call_failed : (e : QueueError) → r ≡ err e → e ≢ stuck → Ended incoming s r
  room : r ≡ ok tt → over_limit incoming s.queue ≡ false → Ended incoming s r
  emptied : r ≡ ok tt → pending_count s.queue.dir s.disk.files ≡ 0 → Ended incoming s r

-- A drop that succeeds leaves one event file less.
pub Drops-count :
    (s : Spool) {r : Result QueueError Bool} {s' : Spool}
    → Drops s r s'
    → r ≡ ok true
    → pending_count s'.queue.dir s'.disk.files + 1 ≡ pending_count s.queue.dir s.disk.files
unfolding discharge
Drops-count s (failed e h n f q) k = cc
Drops-count s (nothing_left h c f q) k = cc
Drops-count s (gone name n i found pending small h f q) k =
    ground (arith, pending_count-erase s.queue.dir name n s.disk.files found pending)

module _ (incoming : ℕ) (s s1 : Spool) (rest : Result QueueError (Unit {0}) × Spool) where
  after_drop-Ended :
      {r : Result QueueError Bool}
      → Tally s1
      → Drops s r s1
      → (r ≡ ok true → Tally rest.1 × Ended incoming rest.1 rest.0)
      → Tally (after_drop r s1 rest).1
        × Ended incoming (after_drop r s1 rest).1 (after_drop r s1 rest).0
  unfolding after_drop discharge
  after_drop-Ended t (failed e h n f q) ih = rw h (t, call_failed e refl n)
  after_drop-Ended t (nothing_left h c f q) ih = rw h (t, emptied refl (rw (q, f) c))
  after_drop-Ended t (gone name n i found pending small h f q) ih = rw h (ih h)

-- If the counters are true and the fuel is above the number of event files, the loop that makes
-- room ends by itself, whatever calls fail: with an error of a call, with room for the event, or
-- with no event file left; and the counters are true at its end.
pub enforce_limits-Ended :
    (fuel incoming : ℕ) (s : Spool)
    → Tally s
    → pending_count s.queue.dir s.disk.files < fuel
    → Tally (enforce_limits fuel incoming s).1
      × Ended incoming (enforce_limits fuel incoming s).1 (enforce_limits fuel incoming s).0
unfolding enforce_limits
enforce_limits-Ended zero incoming s t h = absurd (omega arith)
enforce_limits-Ended (suc fuel) incoming s t h =
    let d = drop_oldest-Drops s t.unique in
    let t1 = Drops-Tally s t d in
    elim (Bool-cases (over_limit incoming s.queue)) [
      | inr e ↦ rw (e, enforce_limits) (t, room refl e)
      | inl e ↦
          rw (e, enforce_limits)
            (after_drop-Ended incoming s (drop_oldest s).1 _ t1 d (λ more.
              enforce_limits-Ended fuel incoming (drop_oldest s).1 t1
                (omega (arith, Drops-count s d more))))
    ]
