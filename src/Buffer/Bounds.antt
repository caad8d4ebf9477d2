-- ===== src/Buffer/Bounds.antt =====
-- internal/buffer/buffer.go: the limit on events, over the calls of the queue's users.
use shadow_twin.Prelude.{
  ℕ, zero, suc, ◌≤◌, ◌≡◌, refl, Bytes, Bool, true, false, none, some, arith, ap, sym, ◌∙◌, inl, inr,
  Bool-cases, nat_eq, ◌⊎◌, Option-cases, length,
}
use mathlib.Core.Path.{subst}
use shadow_twin.Prelude.Int.{pos_part}
use shadow_twin.Fs.{Result, ok, err}
use shadow_twin.Collectors.Event.{Event}
use shadow_twin.Buffer.{
  Spool, Queue, Limits, Codec, QueueError, discharge, drop_oldest, after_drop, over_limit,
  enforce_limits, commit_event, write, rounds,
}
use shadow_twin.Buffer.Tally.{Tally, pending_count}
use shadow_twin.Buffer.Tally.Dropping.{
  Drops, failed, nothing_left, gone, drop_oldest-Drops, Drops-Tally,
}
use shadow_twin.Buffer.Reading.Easing.{Eases, discharge-count}
use shadow_twin.Buffer.Reading.Drain.{ack-Eases, dead_letter-Eases}
use shadow_twin.Buffer.Reading.Drain.Batches.{read_batch-Eases}
use shadow_twin.Buffer.Durability.{
  WithinLimits, Wrote, refused_event, not_stored, stored, write-Wrote,
}
use shadow_twin.Buffer.Interleaving.{
  Step, writes, reads, acks, buries, Reach, start, then, Step-Tally,
}

-- The counter has not grown, and the limits are the same.
record Shrinks (s s' : Spool) : Type 0 where
  count : pos_part s'.queue.count ≤ pos_part s.queue.count
  limits : s'.queue.limits ≡ s.queue.limits

Shrinks-same : (s s' : Spool) → s'.queue ≡ s.queue → Shrinks s s'
Shrinks-same s s' q = record { count = rw q (omega arith); limits = ap (λ (k : Queue). k.limits) q }

Shrinks-trans : (s t u : Spool) → Shrinks s t → Shrinks t u → Shrinks s u
Shrinks-trans s t u a b = record {
  count = omega (arith, a.count, b.count);
  limits = b.limits ∙ a.limits;
}

Shrinks-Drops : (s : Spool) {r : Result QueueError Bool} {s' : Spool} → Drops s r s' → Shrinks s s'
unfolding discharge
Shrinks-Drops s {s' = s'} (failed e h n f q) = Shrinks-same s s' q
Shrinks-Drops s {s' = s'} (nothing_left h c f q) = Shrinks-same s s' q
Shrinks-Drops s (gone name n k found pending small h f q) = record {
  count = rw q (discharge-count k s.queue);
  limits = ap (λ (k : Queue). k.limits) q;
}

after_drop-Shrinks :
    (s : Spool) (r : Result QueueError Bool) (s1 : Spool)
    (rest : Result QueueError (Unit {0}) × Spool)
    → Shrinks s s1
    → Shrinks s rest.1
    → Shrinks s (after_drop r s1 rest).1
unfolding after_drop
after_drop-Shrinks s (err e) s1 rest a b = a
after_drop-Shrinks s (ok false) s1 rest a b = a
after_drop-Shrinks s (ok true) s1 rest a b = b

enforce_limits-Shrinks :
    (fuel incoming : ℕ) (s : Spool) → Tally s → Shrinks s (enforce_limits fuel incoming s).1
unfolding enforce_limits
enforce_limits-Shrinks zero incoming s t = Shrinks-same s s refl
enforce_limits-Shrinks (suc fuel) incoming s t =
    let d = drop_oldest-Drops s t.unique in
    let a = Shrinks-Drops s d in
    elim (Bool-cases (over_limit incoming s.queue)) [
      | inr e ↦ rw (e, enforce_limits) (Shrinks-same s s refl)
      | inl e ↦
          rw (e, enforce_limits)
            (after_drop-Shrinks s (drop_oldest s).0 (drop_oldest s).1 _ a (
              Shrinks-trans s (drop_oldest s).1 _ a
                (enforce_limits-Shrinks fuel incoming (drop_oldest s).1 (Drops-Tally s t d))))
    ]

commit_event-refused :
    (ev : Event) (content : Bytes) (s : Spool) {e : QueueError}
    → (commit_event ev content s).0 ≡ err e
    → (commit_event ev content s).1.queue ≡ s.queue
unfolding commit_event
commit_event-refused ev content s h = ground (arith, h)

-- The folder has no more event files than the limit on events says, where there is one.
abbrev pub IsBounded : Spool → Type 0
IsBounded s =
    (s.queue.limits.max_events ≡ 0)
    ⊎ (pending_count s.queue.dir s.disk.files ≤ s.queue.limits.max_events)

IsBounded-Shrinks : (s s' : Spool) → Tally s → Tally s' → Shrinks s s' → IsBounded s → IsBounded s'
IsBounded-Shrinks s s' t t' k b =
    let l = ap (λ (l : Limits). l.max_events) k.limits in
    elim b [
      | inl unlimited ↦ inl (l ∙ unlimited)
      | inr le ↦ inr (omega (arith, ap pos_part t.counted, ap pos_part t'.counted, l, k.count, le))
    ]

IsBounded-WithinLimits : (s : Spool) → WithinLimits s → IsBounded s
IsBounded-WithinLimits s w = elim (nat_eq.dec s.queue.limits.max_events 0) [
  | yes e ↦ inl e
  | no n ↦ inr (w.events (omega (arith, n)))
]

IsBounded-Eases : (s s' : Spool) → Tally s → Tally s' → Eases s s' → IsBounded s → IsBounded s'
IsBounded-Eases s s' t t' k =
    IsBounded-Shrinks s s' t t' (record { count = k.count; limits = k.limits })

-- Write, behind the loop that makes room.
abbrev after_room :
    Event → Bytes → Result QueueError (Unit {0}) × Spool → Result QueueError (Unit {0}) × Spool
after_room ev content (err e, s1) = (err e, s1)
after_room ev content (ok _, s1) = commit_event ev content s1

after_room-refused :
    (ev : Event) (content : Bytes) (s : Spool) (y : Result QueueError (Unit {0}) × Spool)
    {e : QueueError}
    → Shrinks s y.1
    → (after_room ev content y).0 ≡ err e
    → Shrinks s (after_room ev content y).1
after_room-refused ev content s (err x, s1) a h = a
after_room-refused ev content s (ok _, s1) a h =
    Shrinks-trans s s1 _ a (Shrinks-same s1 _ (commit_event-refused ev content s1 h))

module _ (codec : Codec) where
  write-some :
      (ev : Event) (s : Spool) (content : Bytes)
      → codec.marshal ev ≡ some content
      → write codec ev s ≡ after_room ev content (enforce_limits (rounds s) (length content) s)
  unfolding write
  write-some ev s content m = ground (arith, m)

  write-refused :
      (ev : Event) (s : Spool) {e : QueueError}
      → Tally s
      → (write codec ev s).0 ≡ err e
      → Shrinks s (write codec ev s).1
  unfolding write
  write-refused ev s {e} t h = elim (Option-cases (codec.marshal ev)) [
    | inl n ↦ rw (n, write) (Shrinks-same s s refl)
    | inr (content, m) ↦
        let y = enforce_limits (rounds s) (length content) s in
        let h1 : (after_room ev content y).0 ≡ err e =
          ap (λ r. r.0) (sym (write-some ev s content m)) ∙ h in
        subst (λ (r : Result QueueError (Unit {0}) × Spool). Shrinks s r.1)
          (sym (write-some ev s content m))
          (after_room-refused ev content s y
            (enforce_limits-Shrinks (rounds s) (length content) s t) h1)
  ]

  IsBounded-Wrote :
      {ev : Event} {s : Spool}
      → Tally s
      → Tally (write codec ev s).1
      → IsBounded s
      → Wrote codec ev s (write codec ev s).0 (write codec ev s).1
      → IsBounded (write codec ev s).1
  IsBounded-Wrote t t' b (refused_event h e q) = subst IsBounded (sym q) b
  IsBounded-Wrote {ev} {s} t t' b (not_stored e h n f _) =
      IsBounded-Shrinks s (write codec ev s).1 t t' (write-refused ev s t h) b
  IsBounded-Wrote t t' b (stored c m h e l f _ w) = IsBounded-WithinLimits _ w

  Step-IsBounded : {s u : Spool} → Tally s → Tally u → IsBounded s → Step codec s u → IsBounded u
  Step-IsBounded {s = s} t t' b (writes ev fresh) =
      IsBounded-Wrote t t' b (write-Wrote codec ev s t fresh)
  Step-IsBounded {s = s} t t' b (reads max_n max_bytes) =
      IsBounded-Eases s _ t t' (read_batch-Eases codec max_n max_bytes s) b
  Step-IsBounded {s = s} t t' b (acks ps h) = IsBounded-Eases s _ t t' (ack-Eases ps none s) b
  Step-IsBounded {s = s} t t' b (buries ps h) =
      IsBounded-Eases s _ t t' (dead_letter-Eases ps none s) b

  -- If the counters are true at first and the folder has no more event files than the limit on
  -- events says, where there is one, both hold after every sequence of calls of Write, ReadBatch,
  -- Ack and DeadLetter in any order, whatever calls on the disk fail, where each written event has
  -- a new file name and each batch has event paths of the folder.
  pub Reach-IsBounded :
      {s u : Spool} → Tally s → IsBounded s → Reach codec s u → Tally u × IsBounded u
  Reach-IsBounded t b start = (t, b)
  Reach-IsBounded t b (then r x) =
      let (t1, b1) = Reach-IsBounded t b r in
      let t2 = Step-Tally codec t1 x in (t2, Step-IsBounded t1 t2 b1 x)
