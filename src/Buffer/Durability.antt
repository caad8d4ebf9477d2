-- ===== src/Buffer/Durability.antt =====
-- internal/buffer/buffer.go: Write, with every way in which it can end.
use shadow_twin.Prelude.{
  ℕ, ◌+◌, ◌≤◌, ◌<◌, ◌≡◌, refl, ◌≢◌, ◌⊎◌, inl, inr, Bytes, false, none, some, arith, ap, sym, ◌∙◌,
  Option-cases, length,
}
use shadow_twin.Prelude.Int.{pos, pos_part, ◌+ℤ◌, pos-add}
use shadow_twin.Fs.{FilePath, file, Result, ok, err, lookup}
use shadow_twin.Collectors.Event.{Event}
use shadow_twin.Buffer.{
  Spool, Queue, Codec, QueueError, marshal_event, stuck, over_limit, enforce_limits, commit_event,
  write, rounds,
}
use shadow_twin.Buffer.Tally.{Tally, pending_count, pending_bytes, pending_count-le}
use shadow_twin.Buffer.Tally.Limits.{Ended, call_failed, room, emptied, enforce_limits-Ended}
use shadow_twin.Buffer.Tally.Losses.{Kept, KeptOrLost, KeptOrLost-then, enforce_limits-Kept}
use shadow_twin.Buffer.Tally.Writing.{
  Commits, abandoned, committed, commit_event-Commits, final_of, tmp_of, charged,
}

-- The counts that the limits bound.
pub record WithinLimits (s : Spool) : Type 0 where
  pub events :
      0 < s.queue.limits.max_events
      → pending_count s.queue.dir s.disk.files ≤ s.queue.limits.max_events
  pub bytes :
      0 < s.queue.limits.max_bytes
      → (pending_bytes s.queue.dir s.disk.files ≤ s.queue.limits.max_bytes)
        ⊎ (pending_count s.queue.dir s.disk.files ≡ 1)

-- How Write can end. On success the event file is whole and the queue is within its limits; on
-- failure there is no new event file. Either way another event file is as it was or was dropped to
-- make room, and the counters are true.
pub data Wrote (codec : Codec) (ev : Event) (s : Spool) (r : Result QueueError (Unit {0}))
    (s' : Spool) : Type 0 where
  refused_event : r ≡ err marshal_event → codec.marshal ev ≡ none → s' ≡ s → Wrote codec ev s r s'
  not_stored :
      (e : QueueError)
      → r ≡ err e
      → e ≢ stuck
      → ((q : FilePath) → q ≢ tmp_of s ev → KeptOrLost s.queue.dir s.disk.files s'.disk.files q)
      → Tally s'
      → Wrote codec ev s r s'
  stored :
      (content : Bytes) (m : ℕ)
      → r ≡ ok tt
      → codec.marshal ev ≡ some content
      → lookup (final_of s ev) s'.disk.files ≡ some (file m content)
      → ((q : FilePath)
          → q ≢ tmp_of s ev
          → q ≢ final_of s ev
          → KeptOrLost s.queue.dir s.disk.files s'.disk.files q)
      → Tally s'
      → WithinLimits s'
      → Wrote codec ev s r s'

-- The counters after an event more, where there was room for it or no event at all.
module _ (content : Bytes) (s1 s' : Spool) (q : s'.queue ≡ charged content s1.queue) (t1 : Tally s1)
    (t' : Tally s') where
  one_more : pending_count s'.queue.dir s'.disk.files ≡ pending_count s1.queue.dir s1.disk.files + 1
  one_more = ap pos_part (
      sym t'.counted
      ∙ (ap (λ (k : Queue). k.count) q ∙ (ap (λ c. c +ℤ pos 1) t1.counted ∙ pos-add _ 1)))

  within_room : over_limit (length content) s1.queue ≡ false → WithinLimits s'
  unfolding over_limit
  within_room h =
      let c = sym (ap (λ (k : Queue). k.count) q) ∙ t'.counted in
      let b = ap (λ (k : Queue). k.bytes) q in
      let l = ap (λ (k : Queue). k.limits) q in
      record {
        events = λ p. ground (arith, h, c, l);
        bytes = λ p. inl (ground (arith, h, b, l, t'.sized));
      }

  within_emptied : pending_count s1.queue.dir s1.disk.files ≡ 0 → WithinLimits s'
  within_emptied h = record {
    events = λ p. omega (arith, one_more);
    bytes = λ p. inr (omega (arith, one_more));
  }

module _ (codec : Codec) (ev : Event) (s : Spool) (t : Tally s)
    (fresh : lookup (final_of s ev) s.disk.files ≡ none) where
  -- The commit on the spool in which room was made.
  module _ (content : Bytes) (s1 : Spool) (t1 : Tally s1) (k : Kept s s1)
      (e : codec.marshal ev ≡ some content)
      (within : (s' : Spool)
        → s'.queue ≡ charged content s1.queue
        → Tally s'
        → WithinLimits s') where
    still_fresh : lookup (final_of s1 ev) s1.disk.files ≡ none
    still_fresh =
        rw k.dir (elim (k.loses (final_of s ev)) [ inl h ↦ h ∙ fresh | inr (h, _, _) ↦ h ])

    Wrote-Commits :
        {r : Result QueueError (Unit {0})} {s' : Spool}
        → Commits s1 ev content r s'
        → Wrote codec ev s r s'
    Wrote-Commits (abandoned x h n q f t') =
        not_stored x h n (λ p d. KeptOrLost-then _ _ _ _ p (k.loses p) (f p (rw k.dir d))) t'
    Wrote-Commits (committed m h q l f t') =
        stored content m h e (rw k.dir at l)
          (λ p d g. KeptOrLost-then _ _ _ _ p (k.loses p) (f p (rw k.dir d) (rw k.dir g))) t'
          (within _ q t')

  module _ (content : Bytes) (e : codec.marshal ev ≡ some content) where
    abbrev enforced : Spool
    enforced = (enforce_limits (rounds s) (length content) s).1

    Wrote-room :
        Tally enforced
        → ((s' : Spool) → s'.queue ≡ charged content enforced.queue → Tally s' → WithinLimits s')
        → Wrote codec ev s (commit_event ev content enforced).0 (commit_event ev content enforced).1
    Wrote-room t1 within =
        let k = enforce_limits-Kept (rounds s) (length content) s t in
        Wrote-Commits content enforced t1 k e within
          (commit_event-Commits enforced ev content t1 (still_fresh content enforced t1 k e within))

  Wrote-enforced :
      (content : Bytes)
      → codec.marshal ev ≡ some content
      → Tally (enforce_limits (rounds s) (length content) s).1
        × Ended
            (length content)
            (enforce_limits (rounds s) (length content) s).1
            (enforce_limits (rounds s) (length content) s).0
      → Wrote codec ev s (write codec ev s).0 (write codec ev s).1
  unfolding write
  Wrote-enforced content e (t1, call_failed x h n) =
      rw (e, write)
        (rw (h, write) (not_stored x refl n (λ p d. (enforce_limits-Kept _ _ s t).loses p) t1))
  Wrote-enforced content e (t1, room h o) =
      rw (e, write)
        (rw (h, write) (Wrote-room content e t1 (λ s' q t'. within_room content _ s' q t1 t' o)))
  Wrote-enforced content e (t1, emptied h c) =
      rw (e, write)
        (rw (h, write) (Wrote-room content e t1 (λ s' q t'. within_emptied content _ s' q t1 t' c)))

  -- Let the counters of the queue be true, and let no file have the name that Write gives the
  -- event. Then, whatever calls on the disk fail, Write refuses an event that does not marshal and
  -- changes nothing, or reports an error without the loop of the limits being stuck, or has stored
  -- the whole event and the queue is within its limits, which a single event may exceed in bytes.
  -- In each case another path but the temporary one keeps its file or loses an event file of the
  -- folder, and the counters are true.
  pub write-Wrote : Wrote codec ev s (write codec ev s).0 (write codec ev s).1
  unfolding write
  write-Wrote = elim (Option-cases (codec.marshal ev)) [
    | inl e ↦ rw (e, write) (refused_event refl e refl)
    | inr (content, e) ↦ Wrote-enforced content e (
        enforce_limits-Ended (rounds s) (length content) s t
          (omega (arith, pending_count-le s.queue.dir s.disk.files)))
  ]
