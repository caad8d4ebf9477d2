-- ===== src/Buffer/Tally/Dropping.antt =====
-- internal/buffer/buffer.go: what dropping the oldest event does to the folder and to the tally.
use shadow_twin.Prelude.{
  ℕ, ◌+◌, ◌≤◌, Bytes, ◌≡◌, refl, ◌≢◌, ◌⊎◌, inl, inr, Bool, true, false, some, List, [], ◌∷◌, arith,
  All, length, ap, sym, ◌∙◌,
}
use shadow_twin.Fs.{Node, size, lookup, erase, entries, Result, ok, err, remove, io_failure}
use shadow_twin.Fs.Laws.{NodupKeys}
use shadow_twin.Text.Order.{sort_strings}
use shadow_twin.Text.Order.Sorting.{All-sort_strings, length-sort_strings}
use shadow_twin.Buffer.{
  Spool, QueueError, at, is_pending, pending_names, sorted_pending, file_size, discharge,
  drop_named, drop_oldest, drop_event, stuck,
}
use shadow_twin.Buffer.Tally.{
  Tally, pending_count, IsListed, pending_names-IsListed, length-pending_names,
}
use shadow_twin.Buffer.Tally.Calls.{Tally-same, Tally-discharge, files-file_size, file_size-le}

pub files-sorted_pending : (s : Spool) → (sorted_pending s).1.disk.files ≡ s.disk.files
unfolding sorted_pending
files-sorted_pending s = ground arith

pub queue-sorted_pending : (s : Spool) → (sorted_pending s).1.queue ≡ s.queue
unfolding sorted_pending
queue-sorted_pending s = ground arith

pub sorted_pending-ok :
    (s : Spool) (names : List Bytes)
    → (sorted_pending s).0 ≡ ok names
    → names ≡ sort_strings (pending_names (entries s.queue.dir s.disk.files))
unfolding sorted_pending
sorted_pending-ok s names h = ground arith

-- The listing names event files only, and all of them.
pub sorted_pending-IsListed :
    (s : Spool) (names : List Bytes)
    → NodupKeys s.disk.files
    → (sorted_pending s).0 ≡ ok names
    → All (IsListed s.queue.dir s.disk.files) names
sorted_pending-IsListed s names u h =
    rw (sorted_pending-ok s names h) (All-sort_strings _ _ (pending_names-IsListed _ _ u))

pub sorted_pending-length :
    (s : Spool) (names : List Bytes)
    → (sorted_pending s).0 ≡ ok names
    → length names ≡ pending_count s.queue.dir s.disk.files
sorted_pending-length s names h =
    ap length (sorted_pending-ok s names h)
    ∙ (length-sort_strings _ ∙ length-pending_names s.queue.dir s.disk.files)

-- The call fails and changes nothing, or the named file is gone and off the counters.
abbrev pub Dropped : Bytes → Spool → Result QueueError Bool × Spool → Type 0
Dropped name s (r, s') =
    ((r ≡ err (drop_event io_failure)) × (s'.disk.files ≡ s.disk.files) × (s'.queue ≡ s.queue))
    ⊎ ((r ≡ ok true)
        × (s'.disk.files ≡ erase (at s.queue.dir name) s.disk.files)
        × (s'.queue ≡ record (discharge (file_size (at s.queue.dir name) s.disk).0 s.queue) {
          dropped = s.queue.dropped + 1;
        }))

pub drop_named-Dropped :
    (name : Bytes) (s : Spool)
    → IsListed s.queue.dir s.disk.files name
    → Dropped name s (drop_named name s)
unfolding drop_named is_pending remove
drop_named-Dropped name s (n, found, pending) =
    ground (arith, files-file_size (at s.queue.dir name) s.disk)

-- The three ways in which dropping the oldest event ends.
pub data Drops (s : Spool) (r : Result QueueError Bool) (s' : Spool) : Type 0 where
  failed :
      (e : QueueError)
      → r ≡ err e
      → e ≢ stuck
      → s'.disk.files ≡ s.disk.files
      → s'.queue ≡ s.queue
      → Drops s r s'
  nothing_left :
      r ≡ ok false
      → pending_count s.queue.dir s.disk.files ≡ 0
      → s'.disk.files ≡ s.disk.files
      → s'.queue ≡ s.queue
      → Drops s r s'
  gone :
      (name : Bytes) (n : Node) (k : ℕ)
      → lookup (at s.queue.dir name) s.disk.files ≡ some n
      → is_pending name n ≡ true
      → k ≤ size n
      → r ≡ ok true
      → s'.disk.files ≡ erase (at s.queue.dir name) s.disk.files
      → s'.queue ≡ record (discharge k s.queue) { dropped = s.queue.dropped + 1 }
      → Drops s r s'

Drops-drop_named :
    (name : Bytes) (s : Spool)
    → IsListed s.queue.dir s.disk.files name
    → Drops s (drop_named name s).0 (drop_named name s).1
Drops-drop_named name s (n, found, pending) = elim (drop_named-Dropped name s (n, found, pending)) [
  | inl (e, same, q) ↦ failed (drop_event io_failure) e (λ p. cc) same q
  | inr (e, same, q) ↦
      gone name n (file_size (at s.queue.dir name) s.disk).0 found pending
        (file_size-le (at s.queue.dir name) s.disk n found) e same q
]

-- What is said of a spool with the same files and the same queue holds of the first.
Drops-same :
    (s t : Spool) {r : Result QueueError Bool} {u : Spool}
    → t.disk.files ≡ s.disk.files
    → t.queue ≡ s.queue
    → Drops t r u
    → Drops s r u
Drops-same s t f q (failed e h n g k) = failed e h n (g ∙ f) (k ∙ q)
Drops-same s t f q (nothing_left h c g k) = nothing_left h (rw (← q, ← f) c) (g ∙ f) (k ∙ q)
Drops-same s t f q (gone name n k found pending small h g e) =
    gone name n k (rw (← q, ← f) found) pending small h (rw (← q, ← f) g) (rw (← q) e)

sorted_pending-ne-stuck : (s : Spool) (x : QueueError) → (sorted_pending s).0 ≡ err x → x ≢ stuck
unfolding sorted_pending
sorted_pending-ne-stuck s x h k = ground arith

empty_listing :
    (s : Spool) → (sorted_pending s).0 ≡ ok [] → pending_count s.queue.dir s.disk.files ≡ 0
empty_listing s e = sym (sorted_pending-length s [] e)

Drops-listing :
    (s : Spool) (r : Result QueueError (List Bytes))
    → (sorted_pending s).0 ≡ r
    → NodupKeys s.disk.files
    → Drops s (drop_oldest s).0 (drop_oldest s).1
unfolding drop_oldest
Drops-listing s (err x) e u =
    rw (e, drop_oldest)
      (failed x refl (sorted_pending-ne-stuck s x e) (files-sorted_pending s)
        (queue-sorted_pending s))
Drops-listing s (ok []) e u =
    rw (e, drop_oldest)
      (nothing_left refl (empty_listing s e) (files-sorted_pending s) (queue-sorted_pending s))
Drops-listing s (ok (name ∷ names)) e u =
    let f = files-sorted_pending s in
    let q = queue-sorted_pending s in
    let listed = sorted_pending-IsListed s (name ∷ names) u e in
    rw (e, drop_oldest)
      (Drops-same s (sorted_pending s).1 f q
        (Drops-drop_named name (sorted_pending s).1 (rw (q, f) listed.0)))

pub drop_oldest-Drops :
    (s : Spool) → NodupKeys s.disk.files → Drops s (drop_oldest s).0 (drop_oldest s).1
drop_oldest-Drops s u = Drops-listing s (sorted_pending s).0 refl u

pub Drops-Tally :
    (s : Spool) {r : Result QueueError Bool} {s' : Spool} → Tally s → Drops s r s' → Tally s'
Drops-Tally s {s' = s'} t (failed e h n f q) = ground (arith, Tally-same s s'.disk t f)
Drops-Tally s {s' = s'} t (nothing_left h c f q) = ground (arith, Tally-same s s'.disk t f)
Drops-Tally s {s' = s'} t (gone name n k found pending small h f q) =
    ground (arith, Tally-discharge s name n k s'.disk t found pending small f)
