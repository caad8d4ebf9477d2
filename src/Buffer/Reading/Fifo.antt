-- ===== src/Buffer/Reading/Fifo.antt =====
-- internal/buffer/buffer.go: ReadBatch as a relation on the sorted names.
pub mod Loop
pub mod Continuing
use shadow_twin.Prelude.{
  ℕ, zero, suc, ◌+◌, ◌≤◌, ◌<◌, ◌≡◌, refl, ◌≢◌, ◌⊎◌, inl, inr, Bytes, Bool, true, false, Option,
  none, some, List, [], ◌∷◌, ◌++◌, arith, All, ap, sym, ◌∙◌, length, length-append, bytes_eq,
}
use mathlib.Core.Path.{subst}
use mathlib.Core.List.{append-nil, append_assoc}
use shadow_twin.Fs.{FilePath, path_eq, Node, file, Files, Disk, Result, ok, err, lookup}
use shadow_twin.Fs.Laws.{NodupKeys}
use shadow_twin.Text.{has_suffix}
use shadow_twin.Collectors.Event.{Event}
use shadow_twin.Buffer.{
  Spool, Queue, Batch, Codec, QueueError, at, file_suffix, is_pending, sorted_pending,
}
use shadow_twin.Buffer.Reading.{
  Round, go_on, return, empty_batch, after_round, read_round, read_loop, read_batch,
}
use shadow_twin.Buffer.Reading.Files.{
  IsEventPath, Takes, Takes-Tally, Takes-other, Takes-self, Takes-frame,
}
use shadow_twin.Buffer.Reading.Serving.{
  Rounds, full, absent, unread, overflowed, served, spoiled, read_round-Rounds, IsFull, Overflows,
  extended,
}
use shadow_twin.Buffer.Tally.{Tally, IsListed}
use shadow_twin.Buffer.Tally.Calls.{Tally-same}
use shadow_twin.Buffer.Tally.Dropping.{
  files-sorted_pending, queue-sorted_pending, sorted_pending-IsListed, sorted_pending-ok,
}

module _ (codec : Codec) (max_n max_bytes : ℕ) (dir : Bytes) (fs : Files) where
  -- From names, and the number and bytes of the events taken so far, to the files and events that
  -- are taken next.
  pub data Serves : List Bytes → ℕ → ℕ → List FilePath → List Event → Type 0 where
    done : {n total : ℕ} → Serves [] n total [] []
    full_stop :
        {names : List Bytes} {n total : ℕ}
        → IsFull codec max_n max_bytes n
        → Serves names n total [] []
    big_stop :
        {name : Bytes} {names : List Bytes} {n total m : ℕ} {c : Bytes}
        → lookup (at dir name) fs ≡ some (file m c)
        → Overflows codec max_n max_bytes n total (length c)
        → Serves (name ∷ names) n total [] []
    serve :
        {name : Bytes} {names : List Bytes} {n total m : ℕ} {c : Bytes} {ev : Event}
        {ps : List FilePath} {evs : List Event}
        → ¬ IsFull codec max_n max_bytes n
        → lookup (at dir name) fs ≡ some (file m c)
        → ¬ Overflows codec max_n max_bytes n total (length c)
        → codec.unmarshal c ≡ some ev
        → Serves names (n + 1) (total + length c) ps evs
        → Serves (name ∷ names) n total (at dir name ∷ ps) (ev ∷ evs)
    pass :
        {name : Bytes} {names : List Bytes} {n total m : ℕ} {c : Bytes} {ps : List FilePath}
        {evs : List Event}
        → lookup (at dir name) fs ≡ some (file m c)
        → codec.unmarshal c ≡ none
        → Serves names n total ps evs
        → Serves (name ∷ names) n total ps evs

  -- A path of the queue has its file still, or had a corrupt event that is gone.
  abbrev pub KeptOrCorrupt : Files → Bytes → Type 0
  KeptOrCorrupt gs name =
      (lookup (at dir name) gs ≡ lookup (at dir name) fs)
      ⊎ ((lookup (at dir name) gs ≡ none)
          × ((m : ℕ) × (c : Bytes) × (lookup (at dir name) fs ≡ some (file m c))
              × (codec.unmarshal c ≡ none)))

  pub record Reads (s : Spool) : Type 0 where
    pub tally : Tally s
    pub same_dir : s.queue.dir ≡ dir
    pub keeps : (name : Bytes) → KeptOrCorrupt s.disk.files name

  Reads-same :
      (s s' : Spool) → Reads s → s'.disk.files ≡ s.disk.files → s'.queue ≡ s.queue → Reads s'
  Reads-same s s' r f q = record {
    tally = ground (arith, Tally-same s s'.disk r.tally f);
    same_dir = ap (λ (k : Queue). k.dir) q ∙ r.same_dir;
    keeps = λ name. rw f (r.keeps name);
  }

  -- A file that is there now was there at the start.
  pub was_there :
      (s : Spool) (name : Bytes) (m : ℕ) (c : Bytes)
      → Reads s
      → lookup (at dir name) s.disk.files ≡ some (file m c)
      → lookup (at dir name) fs ≡ some (file m c)
  was_there s name m c r l = elim (r.keeps name) [ inl e ↦ sym e ∙ l | inr (e, _) ↦ cc ]

  -- A path that did not change, or whose file is gone, after a corrupt file was taken.
  KeptOrCorrupt-then :
      (s : Spool) (gs : Files) (name : Bytes)
      → Reads s
      → lookup (at dir name) gs ≡ lookup (at dir name) s.disk.files
      → KeptOrCorrupt gs name
  KeptOrCorrupt-then s gs name r h = elim (r.keeps name) [
    | inl e ↦ inl (h ∙ e)
    | inr (e, why) ↦ inr (h ∙ e, why)
  ]

  module _ (s s' : Spool) (name : Bytes) (m : ℕ) (c : Bytes) (r : Reads s)
      (l : lookup (at dir name) s.disk.files ≡ some (file m c)) (corrupt : codec.unmarshal c ≡ none)
      (k : Takes (at dir name) s s') where
    not_buried : (other : Bytes) → at dir other ≢ at s.queue.dead_dir name
    not_buried other e = r.tally.apart (sym (r.same_dir ∙ ap (λ (p : FilePath). p.dir) e))

    keeps_spoiled : (other : Bytes) → KeptOrCorrupt s'.disk.files other
    keeps_spoiled other = elim (bytes_eq.dec other name) [
      | yes e ↦ rw e (elim (Takes-self (at dir name) s m c r.tally.unique (not_buried name) l k) [
        | inl h ↦ KeptOrCorrupt-then s s'.disk.files name r h
        | inr h ↦ inr (h, (m, c, was_there s name m c r l, corrupt))
      ])
      | no n ↦ KeptOrCorrupt-then s s'.disk.files other r (
          Takes-other (at dir name) (at dir other) s (λ e. n (ap (λ (p : FilePath). p.name) e))
            (not_buried other) k)
    ]

    Reads-spoiled : has_suffix name file_suffix ≡ true → Reads s'
    Reads-spoiled suffix = record {
      tally = Takes-Tally (at dir name) s (sym r.same_dir, suffix) r.tally k;
      same_dir = (Takes-frame (at dir name) s k).0 ∙ r.same_dir;
      keeps = keeps_spoiled;
    }

  pub at_dir :
      (s : Spool) (name : Bytes) {n : Node}
      → s.queue.dir ≡ dir
      → lookup (at s.queue.dir name) s.disk.files ≡ some n
      → lookup (at dir name) s.disk.files ≡ some n
  at_dir s name {n} e l = subst (λ d. lookup (at d name) s.disk.files ≡ some n) e l

  -- The names that the loop walks: event files of the start.
  abbrev pub IsQueued : Bytes → Type 0
  IsQueued name =
      (has_suffix name file_suffix ≡ true)
      × ((n : Node) × (lookup (at dir name) fs ≡ some n) × (is_pending name n ≡ true))

  pub Reads-Rounds :
      (name : Bytes) (b : Batch) (total : ℕ) (s : Spool) {rd : Round} {s' : Spool}
      → Reads s
      → has_suffix name file_suffix ≡ true
      → Rounds codec max_n max_bytes name b total s rd s'
      → Reads s'
  Reads-Rounds name b total s r x (full f h q) = rw q r
  Reads-Rounds name b total s r x (absent l h f q) = Reads-same s _ r f q
  Reads-Rounds name b total s r x (unread e h f q) = Reads-same s _ r f q
  Reads-Rounds name b total s r x (overflowed m c l o h f q) = Reads-same s _ r f q
  Reads-Rounds name b total s r x (served m c ev n l o e h f q) = Reads-same s _ r f q
  Reads-Rounds name b total s {s' = s'} r x (spoiled m c l e h k) =
      Reads-spoiled s s' name m c r (at_dir s name r.same_dir l) e
        (subst (λ d. Takes (at d name) s s') r.same_dir k) x
