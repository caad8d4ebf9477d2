-- ===== src/Buffer/Reading/Serving.antt =====
-- internal/buffer/buffer.go: what ReadBatch returns and what it does to the disk, as relations.
use shadow_twin.Prelude.{
  ℕ, ◌+◌, ◌≤◌, ◌<◌, ◌≡◌, refl, inl, inr, Bytes, Bool, false, ◌&&◌, none, some, [], ◌∷◌, ◌++◌, arith,
  ap, sym, ◌∙◌, Option-cases, Bool-cases, length, ltb, leb,
}
use shadow_twin.Fs.{
  FilePath, file, Disk, FsError, not_exist, io_failure, Result, ok, err, lookup, read_file,
}
use shadow_twin.Fs.Effects.{files-read_file, read_file-found, read_file-missing}
use shadow_twin.Collectors.Event.{Event}
use shadow_twin.Buffer.{Spool, Batch, Codec, QueueError, read_event, at}
use shadow_twin.Buffer.Reading.{Round, go_on, return, dead_letter_file, take_content, read_round}
use shadow_twin.Buffer.Reading.Files.{Takes, dead_letter_file-Takes, Takes-same}

abbrev pub extended : Batch → Event → FilePath → Batch
extended b ev p = record { events = b.events ++ ev ∷ []; files = b.files ++ p ∷ [] }

module _ (codec : Codec) (max_n max_bytes : ℕ) where
  -- The batch has as many events as it may have.
  abbrev pub IsFull : ℕ → Type 0
  IsFull n = (0 < max_n) × (max_n ≤ n)

  -- Another event of that many bytes does not fit.
  abbrev pub Overflows : ℕ → ℕ → ℕ → Type 0
  Overflows n total k = (0 < max_bytes) × (0 < n) × (max_bytes < total + k)

  -- The ways in which a round on a name ends, with the file that it finds.
  pub data Rounds (name : Bytes) (b : Batch) (total : ℕ) (s : Spool) (r : Round) (s' : Spool)
      : Type 0 where
    full : IsFull (length b.events) → r ≡ return (ok b) → s' ≡ s → Rounds name b total s r s'
    absent :
        lookup (at s.queue.dir name) s.disk.files ≡ none
        → r ≡ go_on b total
        → s'.disk.files ≡ s.disk.files
        → s'.queue ≡ s.queue
        → Rounds name b total s r s'
    unread :
        (e : QueueError)
        → r ≡ return (err e)
        → s'.disk.files ≡ s.disk.files
        → s'.queue ≡ s.queue
        → Rounds name b total s r s'
    overflowed :
        (m : ℕ) (c : Bytes)
        → lookup (at s.queue.dir name) s.disk.files ≡ some (file m c)
        → Overflows (length b.events) total (length c)
        → r ≡ return (ok b)
        → s'.disk.files ≡ s.disk.files
        → s'.queue ≡ s.queue
        → Rounds name b total s r s'
    served :
        (m : ℕ) (c : Bytes) (ev : Event)
        → ¬ IsFull (length b.events)
        → lookup (at s.queue.dir name) s.disk.files ≡ some (file m c)
        → ¬ Overflows (length b.events) total (length c)
        → codec.unmarshal c ≡ some ev
        → r ≡ go_on (extended b ev (at s.queue.dir name)) (total + length c)
        → s'.disk.files ≡ s.disk.files
        → s'.queue ≡ s.queue
        → Rounds name b total s r s'
    spoiled :
        (m : ℕ) (c : Bytes)
        → lookup (at s.queue.dir name) s.disk.files ≡ some (file m c)
        → codec.unmarshal c ≡ none
        → r ≡ go_on b total
        → Takes (at s.queue.dir name) s s'
        → Rounds name b total s r s'

  abbrev is_full : Batch → Bool
  is_full b = ltb 0 max_n && leb max_n (length b.events)

  abbrev overflows : Batch → ℕ → Bytes → Bool
  overflows b total c =
      ltb 0 max_bytes && (ltb 0 (length b.events) && ltb max_bytes (total + length c))

  module _ (name : Bytes) (b : Batch) (total : ℕ) (s : Spool) where
    buried_content :
        (m : ℕ) (c : Bytes) (d : Disk)
        → d.files ≡ s.disk.files
        → lookup (at s.queue.dir name) s.disk.files ≡ some (file m c)
        → Takes
            (at s.queue.dir name)
            s
            (dead_letter_file (at s.queue.dir name) (length c) (record s { disk = d })).1
    buried_content m c d f l =
        let p = at s.queue.dir name in
        let t : Spool = record s { disk = d } in
        Takes-same p s t f refl (
          dead_letter_file-Takes p (length c) t
            (λ m' c' l'. ground (arith, sym l ∙ (sym (ap (lookup p) f) ∙ l'))))

    take_content-Rounds :
        (m : ℕ) (c : Bytes) (d : Disk)
        → d.files ≡ s.disk.files
        → lookup (at s.queue.dir name) s.disk.files ≡ some (file m c)
        → ¬ IsFull (length b.events)
        → let out =
            take_content codec max_bytes (at s.queue.dir name) c b total (record s { disk = d }) in
          Rounds name b total s out.0 out.1
    unfolding take_content
    take_content-Rounds m c d f l n = elim (Bool-cases (overflows b total c)) [
      | inl o ↦ rw o (overflowed m c l (ground arith) refl f refl)
      | inr o ↦ rw o (elim (Option-cases (codec.unmarshal c)) [
        | inr (ev, e) ↦ rw e (served m c ev n l (λ v. ground arith) e refl f refl)
        | inl e ↦ rw e (spoiled m c l e refl (buried_content m c d f l))
      ])
    ]

    read_round-Rounds_from :
        (r : Result FsError Bytes)
        → ¬ IsFull (length b.events)
        → is_full b ≡ false
        → (read_file (at s.queue.dir name) s.disk).0 ≡ r
        → Rounds name b total s
            (read_round codec max_n max_bytes name b total s).0
            (read_round codec max_n max_bytes name b total s).1
    unfolding read_round
    read_round-Rounds_from (err not_exist) n g e =
        rw (g, read_round)
          (rw (e, read_round)
            (absent (read_file-missing _ s.disk e) refl (files-read_file _ s.disk) refl))
    read_round-Rounds_from (err io_failure) n g e =
        rw (g, read_round)
          (rw (e, read_round) (unread (read_event io_failure) refl (files-read_file _ s.disk) refl))
    read_round-Rounds_from (ok c) n g e =
        let (m, l) = read_file-found (at s.queue.dir name) s.disk c e in
        rw (g, read_round)
          (rw (e, read_round)
            (take_content-Rounds m c (read_file (at s.queue.dir name) s.disk).1
              (files-read_file _ s.disk) l n))

    pub read_round-Rounds :
        Rounds name b total s
          (read_round codec max_n max_bytes name b total s).0
          (read_round codec max_n max_bytes name b total s).1
    unfolding read_round
    read_round-Rounds = elim (Bool-cases (is_full b)) [
      | inl g ↦ rw (g, read_round) (full (ground arith) refl refl)
      | inr g ↦
          read_round-Rounds_from (read_file (at s.queue.dir name) s.disk).0 (λ v. ground arith) g
            refl
    ]
