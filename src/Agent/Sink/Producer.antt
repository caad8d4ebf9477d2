-- ===== src/Agent/Sink/Producer.antt =====
-- cmd/agent/main.go: what the producer does to the queue in a turn.
use shadow_twin.Prelude.{
  ℕ, zero, suc, ◌+◌, ◌≤◌, ◌<◌, ◌≡◌, refl, ◌≢◌, ◌⊎◌, inl, inr, Bytes, Bool, true, false, none, some,
  List, [], ◌∷◌, ◌++◌, arith, ap, ◌∙◌, Bool-cases, Option-cases, length,
}
use shadow_twin.Fs.{FilePath, Node, Result, ok, err, lookup}
use shadow_twin.Collectors.Event.{Event}
use shadow_twin.Buffer.{
  Spool, Queue, QueueError, Codec, at, file_name, tmp_suffix, is_pending, drop_oldest,
  enforce_limits, after_drop, over_limit, commit_event, write, rounds,
}
use shadow_twin.Buffer.Tally.{Tally, pending_count-le}
use shadow_twin.Buffer.Tally.Calls.{tmp_name-is_pending}
use shadow_twin.Buffer.Tally.Dropping.{
  Drops, failed, nothing_left, gone, drop_oldest-Drops, Drops-Tally,
}
use shadow_twin.Buffer.Tally.Losses.{Kept, enforce_limits-Kept}
use shadow_twin.Buffer.Tally.Limits.{enforce_limits-Ended}
use shadow_twin.Buffer.Tally.Writing.{
  Commits, abandoned, committed, commit_event-Commits, final_of, tmp_of,
}
use shadow_twin.Agent.Sink.{persist}

-- Nothing is lost, or the number of dropped events has grown.
data Counted (s s' : Spool) : Type 0 where
  unharmed : s'.disk.files ≡ s.disk.files → s'.queue.dropped ≡ s.queue.dropped → Counted s s'
  counted : s.queue.dropped < s'.queue.dropped → Counted s s'

Counted-Drops : (s : Spool) {r : Result QueueError Bool} {s' : Spool} → Drops s r s' → Counted s s'
Counted-Drops s (failed e h n f q) = unharmed f (ap (λ (k : Queue). k.dropped) q)
Counted-Drops s (nothing_left h c f q) = unharmed f (ap (λ (k : Queue). k.dropped) q)
Counted-Drops s {s' = s'} (gone name n k found pending small h f q) =
    let e : s'.queue.dropped ≡ s.queue.dropped + 1 = ap (λ (k : Queue). k.dropped) q in
    counted (omega (arith, e))

Counted-trans : (s t u : Spool) → Counted s t → Counted t u → Counted s u
Counted-trans s t u (unharmed f d) (unharmed g e) = unharmed (g ∙ f) (e ∙ d)
Counted-trans s t u (unharmed f d) (counted e) = counted (omega (arith, d, e))
Counted-trans s t u (counted d) (unharmed g e) = counted (omega (arith, d, e))
Counted-trans s t u (counted d) (counted e) = counted (omega (arith, d, e))

after_drop-Counted :
    (s s1 : Spool) (r : Result QueueError Bool) (rest : Result QueueError (Unit {0}) × Spool)
    → Counted s s1
    → Counted s rest.1
    → Counted s (after_drop r s1 rest).1
unfolding after_drop
after_drop-Counted s s1 (err e) rest a b = a
after_drop-Counted s s1 (ok false) rest a b = a
after_drop-Counted s s1 (ok true) rest a b = b

enforce_limits-Counted :
    (fuel incoming : ℕ) (s : Spool) → Tally s → Counted s (enforce_limits fuel incoming s).1
unfolding enforce_limits
enforce_limits-Counted zero incoming s t = unharmed refl refl
enforce_limits-Counted (suc fuel) incoming s t =
    let d = drop_oldest-Drops s t.unique in
    let a = Counted-Drops s d in
    elim (Bool-cases (over_limit incoming s.queue)) [
      | inr e ↦ rw (e, enforce_limits) (unharmed refl refl)
      | inl e ↦
          rw (e, enforce_limits)
            (after_drop-Counted s _ _ _ a (
              Counted-trans s _ _ a
                (enforce_limits-Counted fuel incoming (drop_oldest s).1 (Drops-Tally s t d))))
    ]

-- What stored events do to a queue.
pub record Stores (s s' : Spool) : Type 0 where
  pub tally : Tally s'
  pub dir : s'.queue.dir ≡ s.queue.dir
  pub grows : s.queue.dropped ≤ s'.queue.dropped
  pub keeps :
      (name : Bytes) (n : Node)
      → is_pending name n ≡ true
      → lookup (at s.queue.dir name) s.disk.files ≡ some n
      → (lookup (at s.queue.dir name) s'.disk.files ≡ some n) ⊎ (s.queue.dropped < s'.queue.dropped)

Stores-refl : (s : Spool) → Tally s → Stores s s
Stores-refl s t = record { tally = t; dir = refl; grows = omega arith; keeps = λ name n p l. inl l }

Stores-trans : (s t u : Spool) → Stores s t → Stores t u → Stores s u
Stores-trans s t u a b = record {
  tally = b.tally;
  dir = b.dir ∙ a.dir;
  grows = omega (arith, a.grows, b.grows);
  keeps = λ name n p l. elim (a.keeps name n p l) [
    | inr d ↦ inr (omega (arith, d, b.grows))
    | inl k ↦ elim (b.keeps name n p (rw a.dir k)) [
      | inr d ↦ inr (omega (arith, d, a.grows))
      | inl m ↦ inl (rw (← a.dir) m)
    ]
  ];
}

-- The temporary name of an event is no event file's.
ne-tmp_of :
    (s : Spool) (ev : Event) (name : Bytes) (n : Node)
    → is_pending name n ≡ true
    → at s.queue.dir name ≢ tmp_of s ev
ne-tmp_of s ev name n p e =
    let e' : name ≡ file_name ev ++ tmp_suffix = ap (λ (q : FilePath). q.name) e in
    cc (tmp_name-is_pending (file_name ev) n, e')

module _ (s : Spool) (ev : Event) (content : Bytes) (t : Tally s)
    (fresh : lookup (final_of s ev) s.disk.files ≡ none) where
  ne-final_of :
      (name : Bytes) (n : Node)
      → lookup (at s.queue.dir name) s.disk.files ≡ some n
      → at s.queue.dir name ≢ final_of s ev
  ne-final_of name n l e = cc

  commit_event-Stores_from :
      {r : Result QueueError (Unit {0})} {s' : Spool} → Commits s ev content r s' → Stores s s'
  commit_event-Stores_from {s' = s'} (abandoned x h n q f t') =
      let d : s'.queue.dropped ≡ s.queue.dropped = ap (λ (k : Queue). k.dropped) q in
      record {
        tally = t';
        dir = ap (λ (k : Queue). k.dir) q;
        grows = omega (arith, d);
        keeps = λ name n p l. inl (f (at s.queue.dir name) (ne-tmp_of s ev name n p) ∙ l);
      }
  commit_event-Stores_from {s' = s'} (committed m h q l f t') =
      let d : s'.queue.dropped ≡ s.queue.dropped = ap (λ (k : Queue). k.dropped) q in
      record {
        tally = t';
        dir = ap (λ (k : Queue). k.dir) q;
        grows = omega (arith, d);
        keeps = λ name n p l.
            inl (f (at s.queue.dir name) (ne-tmp_of s ev name n p) (ne-final_of name n l) ∙ l);
      }

  commit_event-Stores : Stores s (commit_event ev content s).1
  commit_event-Stores = commit_event-Stores_from (commit_event-Commits s ev content t fresh)

module _ (s s1 : Spool) (t : Tally s) (k : Kept s s1) (c : Counted s s1) (t1 : Tally s1) where
  -- Room that is made is a loss only if it is counted.
  Stores-room : Stores s s1
  Stores-room = elim c [
    | unharmed f d ↦ record {
      tally = t1;
      dir = k.dir;
      grows = omega (arith, d);
      keeps = λ name n p l. inl (ap (lookup (at s.queue.dir name)) f ∙ l);
    }
    | counted d ↦ record {
      tally = t1;
      dir = k.dir;
      grows = omega (arith, d);
      keeps = λ name n p l. inr d;
    }
  ]

  still_fresh :
      (ev : Event)
      → lookup (final_of s ev) s.disk.files ≡ none
      → lookup (final_of s1 ev) s1.disk.files ≡ none
  still_fresh ev fresh =
      rw k.dir (elim (k.loses (final_of s ev)) [ inl h ↦ h ∙ fresh | inr (h, _, _) ↦ h ])

module _ (codec : Codec) (ev : Event) (s : Spool) (t : Tally s)
    (fresh : lookup (final_of s ev) s.disk.files ≡ none) where
  module _ (content : Bytes) (e : codec.marshal ev ≡ some content) where
    abbrev enforced : Spool
    enforced = (enforce_limits (rounds s) (length content) s).1

    room_made : Tally enforced → Stores s enforced
    room_made t1 =
        Stores-room s enforced t (enforce_limits-Kept (rounds s) (length content) s t)
          (enforce_limits-Counted (rounds s) (length content) s t) t1

    Stores-enforced :
        (r : Result QueueError (Unit {0}))
        → (enforce_limits (rounds s) (length content) s).0 ≡ r
        → Tally enforced
        → Stores s (write codec ev s).1
    unfolding write
    Stores-enforced (err x) g t1 = rw (e, write) (rw (g, write) (room_made t1))
    Stores-enforced (ok x) g t1 =
        rw (e, write)
          (rw (g, write)
            (Stores-trans s enforced _ (room_made t1) (
              commit_event-Stores enforced ev content t1 (
                still_fresh s enforced t (enforce_limits-Kept (rounds s) (length content) s t)
                  (enforce_limits-Counted (rounds s) (length content) s t) t1 ev fresh))))

  write-Stores : Stores s (write codec ev s).1
  unfolding write
  write-Stores = elim (Option-cases (codec.marshal ev)) [
    | inl e ↦ rw (e, write) (Stores-refl s t)
    | inr (content, e) ↦
        Stores-enforced content e _ refl
          (enforce_limits-Ended (rounds s) (length content) s t
            (omega (arith, pending_count-le s.queue.dir s.disk.files))).0
  ]

module _ (codec : Codec) where
  -- Each event has a new name when it is stored.
  unfoldable pub Arrives : List Event → Spool → Type 0
  Arrives [] s = Unit
  Arrives (ev ∷ evs) s =
      (lookup (final_of s ev) s.disk.files ≡ none) × Arrives evs (write codec ev s).1

  -- If the counters are true and each event has a new file name when it is stored, the producer
  -- keeps them true, whatever calls fail; the folder is the same, the count of dropped events does
  -- not fall, and an event file that was there is unchanged, or that count has grown.
  pub persist-Stores :
      (evs : List Event) (s : Spool) → Arrives evs s → Tally s → Stores s (persist codec evs s)
  unfolding persist Arrives
  persist-Stores [] s a t = Stores-refl s t
  persist-Stores (ev ∷ evs) s (fresh, a) t =
      let w = write-Stores codec ev s t fresh in
      Stores-trans s (write codec ev s).1 _ w (persist-Stores evs (write codec ev s).1 a w.tally)
