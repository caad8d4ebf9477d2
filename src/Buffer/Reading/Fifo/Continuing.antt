-- ===== src/Buffer/Reading/Fifo/Continuing.antt =====
-- internal/buffer/buffer.go: what the loop of ReadBatch serves, from any of its rounds on.
use shadow_twin.Prelude.{
  ℕ, ◌+◌, ◌≡◌, ◌≢◌, inl, inr, Bytes, none, some, List, [], ◌∷◌, ◌++◌, All, sym, ◌∙◌, length,
  length-append, bytes_eq,
}
use mathlib.Core.Path.{subst}
use mathlib.Core.List.{append-nil, append_assoc}
use shadow_twin.Fs.{FilePath, path_eq, file, Files, Result, ok, lookup}
use shadow_twin.Collectors.Event.{Event}
use shadow_twin.Buffer.{Spool, Batch, Codec, QueueError, at}
use shadow_twin.Buffer.Reading.{Round, go_on, return, after_round, read_round, read_loop}
use shadow_twin.Buffer.Reading.Serving.{
  Rounds, full, absent, unread, overflowed, served, spoiled, read_round-Rounds, IsFull, Overflows,
  extended,
}
use shadow_twin.Buffer.Reading.Fifo.{
  Serves, done, full_stop, big_stop, serve, pass, Reads, Reads-Rounds, was_there, at_dir, IsQueued,
}

module _ (codec : Codec) (max_n max_bytes : ℕ) (dir : Bytes) (fs : Files) where
  after_round-Reads :
      (rd : Round) (s1 : Spool) (more : Batch → ℕ → Result QueueError Batch × Spool)
      → ((b : Batch) (total : ℕ) → Reads codec max_n max_bytes dir fs (more b total).1)
      → Reads codec max_n max_bytes dir fs s1
      → Reads codec max_n max_bytes dir fs (after_round rd s1 more).1
  unfolding after_round
  after_round-Reads (return x) s1 more ih r = r
  after_round-Reads (go_on b total) s1 more ih r = ih b total

  -- Whatever the loop meets, only a corrupt event leaves its path, and the tally stays true.
  pub read_loop-Reads :
      (names : List Bytes) (b : Batch) (total : ℕ) (s : Spool)
      → All (IsQueued codec max_n max_bytes dir fs) names
      → Reads codec max_n max_bytes dir fs s
      → Reads codec max_n max_bytes dir fs (read_loop codec max_n max_bytes names b total s).1
  unfolding read_loop
  read_loop-Reads [] b total s h r = r
  read_loop-Reads (name ∷ names) b total s (h, hs) r =
      let r1 =
        Reads-Rounds codec max_n max_bytes dir fs name b total s r h.0
          (read_round-Rounds codec max_n max_bytes name b total s) in
      after_round-Reads _ _ _
        (λ b' total'.
          read_loop-Reads names b' total' (read_round codec max_n max_bytes name b total s).1 hs r1)
        r1

  -- A batch that goes on from b.
  abbrev Continues : List Bytes → Batch → ℕ → Batch → Type 0
  Continues names b total b' =
      (ps : List FilePath) × (evs : List Event) × (b'
        ≡ record { events = b.events ++ evs; files = b.files ++ ps })
      × Serves codec max_n max_bytes dir fs names (length b.events) total ps evs

  stopped :
      (names : List Bytes) (b : Batch) (total : ℕ) (b' : Batch)
      → Serves codec max_n max_bytes dir fs names (length b.events) total [] []
      → b ≡ b'
      → Continues names b total b'
  stopped names b total b' v e = ([], [], cc (append-nil b.events, append-nil b.files), v)

  more_served :
      (name : Bytes) (names : List Bytes) (b : Batch) (total m : ℕ) (c : Bytes) (ev : Event)
      (b' : Batch)
      → ¬ IsFull codec max_n max_bytes (length b.events)
      → lookup (at dir name) fs ≡ some (file m c)
      → ¬ Overflows codec max_n max_bytes (length b.events) total (length c)
      → codec.unmarshal c ≡ some ev
      → Continues names (extended b ev (at dir name)) (total + length c) b'
      → Continues (name ∷ names) b total b'
  more_served name names b total m c ev b' n l o e (ps, evs, h, v) = (
    at dir name ∷ ps,
    ev ∷ evs,
    cc (append_assoc b.events (ev ∷ []) evs, append_assoc b.files (at dir name ∷ []) ps),
    serve n l o e (
        subst (λ k. Serves codec max_n max_bytes dir fs names k (total + length c) ps evs)
          (length-append b.events (ev ∷ [])) v),
  )

  more_passed :
      (name : Bytes) (names : List Bytes) (b : Batch) (total m : ℕ) (c : Bytes) (b' : Batch)
      → lookup (at dir name) fs ≡ some (file m c)
      → codec.unmarshal c ≡ none
      → Continues names b total b'
      → Continues (name ∷ names) b total b'
  more_passed name names b total m c b' l x (ps, evs, h, v) = (ps, evs, h, pass l x v)

  -- One round and what follows it, when the loop ends with a batch.
  module _ (name : Bytes) (names : List Bytes) (b : Batch) (total : ℕ) (s : Spool)
      (more : Batch → ℕ → Result QueueError Batch × Spool) (b' : Batch)
      (r : Reads codec max_n max_bytes dir fs s) (queued : lookup (at dir name) fs ≢ none)
      (ih : (b1 : Batch) (total1 : ℕ)
        → (more b1 total1).0 ≡ ok b'
        → Continues names b1 total1 b') where
    after_round-Continues :
        {rd : Round} {s1 : Spool}
        → Rounds codec max_n max_bytes name b total s rd s1
        → (after_round rd s1 more).0 ≡ ok b'
        → Continues (name ∷ names) b total b'
    unfolding after_round
    after_round-Continues (full f h q) e = stopped (name ∷ names) b total b' (full_stop f) (cc)
    after_round-Continues (absent l h f q) e = elim (r.keeps name) [
      | inl k ↦
          absurd (queued (sym k ∙ subst (λ d. lookup (at d name) s.disk.files ≡ none) r.same_dir l))
      | inr (_, (m, c, l0, x)) ↦ more_passed name names b total m c b' l0 x (ih b total (cc))
    ]
    after_round-Continues (unread x h f q) e = cc
    after_round-Continues (overflowed m c l o h f q) e =
        stopped (name ∷ names) b total b'
          (big_stop
            (was_there codec max_n max_bytes dir fs s name m c r
              (at_dir codec max_n max_bytes dir fs s name r.same_dir l))
            o)
          (cc)
    after_round-Continues (served m c ev n l o x h f q) e =
        more_served name names b total m c ev b' n
          (was_there codec max_n max_bytes dir fs s name m c r
            (at_dir codec max_n max_bytes dir fs s name r.same_dir l))
          o x
          (subst (λ d. Continues names (extended b ev (at d name)) (total + length c) b') r.same_dir
            (ih (extended b ev (at s.queue.dir name)) (total + length c) (cc)))
    after_round-Continues (spoiled m c l x h k) e =
        more_passed name names b total m c b'
          (was_there codec max_n max_bytes dir fs s name m c r
            (at_dir codec max_n max_bytes dir fs s name r.same_dir l))
          x (ih b total (cc))

  pub read_loop-Continues :
      (names : List Bytes) (b : Batch) (total : ℕ) (s : Spool) (b' : Batch)
      → All (IsQueued codec max_n max_bytes dir fs) names
      → Reads codec max_n max_bytes dir fs s
      → (read_loop codec max_n max_bytes names b total s).0 ≡ ok b'
      → Continues names b total b'
  unfolding read_loop
  read_loop-Continues [] b total s b' h r e = stopped [] b total b' done (cc)
  read_loop-Continues (name ∷ names) b total s b' ((suffix, (n, l, x)), hs) r e =
      let d = read_round-Rounds codec max_n max_bytes name b total s in
      let r1 = Reads-Rounds codec max_n max_bytes dir fs name b total s r suffix d in
      after_round-Continues name names b total s
        (λ b1 total1.
          read_loop codec max_n max_bytes names b1 total1
            (read_round codec max_n max_bytes name b total s).1)
        b' r (λ z. cc) (λ b1 total1 e1. read_loop-Continues names b1 total1 _ b' hs r1 e1) d e

-- The event files of the queue, oldest first.
