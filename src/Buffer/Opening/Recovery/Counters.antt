-- ===== src/Buffer/Opening/Recovery/Counters.antt =====
-- internal/buffer/buffer.go: the counters that Open sets.
use shadow_twin.Buffer.Opening.Recovery.Listing.{
  IsListing-IsPresent, entries-IsListing, files-read_dir, read_dir-entries,
}
use shadow_twin.Prelude.{
  ℕ, ◌+◌, ◌≡◌, refl, ◌≢◌, ◌⊎◌, inl, inr, Bytes, false, none, List, ◌∷◌, arith, All, ap, sym, ◌∙◌,
  length, length-append, bytes_eq,
}
use mathlib.Core.Path.{subst}
use shadow_twin.Prelude.Int.{ℤ, pos}
use shadow_twin.Text.{has_suffix}
use shadow_twin.Fs.{
  FilePath, path_eq, Node, folder, is_dir, Files, Disk, FsError, Result, ok, err, entries, lookup,
  insert, read_dir, mkdir_all,
}
use shadow_twin.Fs.Laws.{NodupKeys, weigh-insert, lookup-insert_ne, insert-NodupKeys}
use shadow_twin.Buffer.{
  Spool, Queue, Limits, QueueError, at, tmp_suffix, is_pending, pending_names, dead_dir_name,
}
use shadow_twin.Buffer.Opening.{scan_loop, init, dead_dir_of, new_queue, open_queue}
use shadow_twin.Buffer.Tally.{
  Tally, pending_count, pending_bytes, count_weight, length-pending_names,
}
use shadow_twin.Buffer.Opening.Recovery.{Swept, listed_bytes, listed_bytes-pending_bytes}
use shadow_twin.Buffer.Opening.Recovery.Loop.{IsPresent, Loops, finished, gave_up, scan_loop-Loops}

-- What Open promises.
pub record Opened (dir : Bytes) (fs : Files) (s : Spool) : Type 0 where
  pub tally : Tally s
  pub same_dir : s.queue.dir ≡ dir
  pub sized : s.queue.bytes ≡ pos (pending_bytes dir s.disk.files)
  pub count : pending_count dir s.disk.files ≡ pending_count dir fs
  pub keeps :
      (q : FilePath)
      → q ≢ at dir dead_dir_name
      → (q.dir ≢ dir) ⊎ (has_suffix q.name tmp_suffix ≡ false)
      → lookup q s.disk.files ≡ lookup q fs

module _ (dir : Bytes) (lim : Limits) where
  -- The queue that init gives for these counters.
  abbrev counting : ℕ → ℕ → Queue
  counting c b = record (new_queue dir lim) { count = pos c; bytes = pos b }

  module _ (d : Disk) (q : Queue) (u : NodupKeys d.files)
      (h : (init (new_queue dir lim) d).0 ≡ ok q) where
    abbrev listed : Disk
    listed = (read_dir dir d).1

    present :
        (es : List (Bytes × Node))
        → (read_dir dir d).0 ≡ ok es
        → All (IsPresent dir listed.files) es
    present es g = rw (files-read_dir dir d) (
        rw (read_dir-entries dir d es g)
          (IsListing-IsPresent dir d.files (entries dir d.files) (entries-IsListing dir d.files u)))

    module _ (es : List (Bytes × Node)) (g : (read_dir dir d).0 ≡ ok es) where
      abbrev looped : Result QueueError (ℤ × ℤ) × Disk
      looped = scan_loop dir es (pos 0, pos 0) listed

      disk-init : (init (new_queue dir lim) d).1 ≡ looped.1
      unfolding init
      disk-init = ground (arith, g)

      queue-init : (c b : ℕ) → looped.0 ≡ ok (pos c, pos b) → q ≡ counting c b
      unfolding init
      queue-init c b e = ground (arith, g, e, h)

      no_failure : (x : QueueError) → looped.0 ≢ err x
      unfolding init
      no_failure x e = ground (arith, g, e, h)

      count-listed : length (pending_names es) ≡ pending_count dir d.files
      count-listed =
          ap (λ l. length (pending_names l)) (read_dir-entries dir d es g)
          ∙ length-pending_names dir d.files

      bytes-listed : listed_bytes es ≡ pending_bytes dir d.files
      bytes-listed =
          ap listed_bytes (read_dir-entries dir d es g) ∙ listed_bytes-pending_bytes dir d.files

      Swept-loop :
          Loops dir es 0 0 listed looped.0 looped.1
          → Swept dir d.files (init (new_queue dir lim) d).1.files
            × (q ≡ counting (pending_count dir d.files) (pending_bytes dir d.files))
      Swept-loop (gave_up x e w) = absurd (no_failure x e)
      Swept-loop (finished e w) =
          let c : 0 + length (pending_names es) ≡ pending_count dir d.files =
            omega (arith, count-listed) in
          let b : 0 + listed_bytes es ≡ pending_bytes dir d.files = omega (arith, bytes-listed) in
          (
            rw disk-init (rw (files-read_dir dir d) at w),
            queue-init _ _ e ∙ (ap (λ n. counting n (0 + listed_bytes es)) c ∙ ap (counting _) b),
          )

    no_listing : (x : FsError) → (read_dir dir d).0 ≢ err x
    unfolding init
    no_listing x g = ground (arith, g, h)

    init-Swept_from :
        (r : Result FsError (List (Bytes × Node)))
        → (read_dir dir d).0 ≡ r
        → Swept dir d.files (init (new_queue dir lim) d).1.files
          × (q ≡ counting (pending_count dir d.files) (pending_bytes dir d.files))
    init-Swept_from (err x) g = absurd (no_listing x g)
    init-Swept_from (ok es) g = Swept-loop es g (scan_loop-Loops dir es 0 0 listed (present es g))

  -- The folder of dead letters, which may be new.
  abbrev made : Disk → Disk
  made d = (mkdir_all (at dir dead_dir_name) d).1

  files-made :
      (d : Disk)
      → ((made d).files ≡ d.files)
        ⊎ (((made d).files ≡ insert (at dir dead_dir_name) folder d.files)
            × (lookup (at dir dead_dir_name) d.files ≡ none))
  unfolding mkdir_all
  files-made d = ground arith

  light_folder :
      (fs : Files)
      → lookup (at dir dead_dir_name) fs ≡ none
      → pending_count dir (insert (at dir dead_dir_name) folder fs) ≡ pending_count dir fs
  unfolding pending_count count_weight is_pending is_dir
  light_folder fs l =
      ground (arith, l, weigh-insert (count_weight dir) (at dir dead_dir_name) folder fs)

  record Made (fs gs : Files) : Type 0 where
    unique : NodupKeys fs → NodupKeys gs
    count : pending_count dir gs ≡ pending_count dir fs
    keeps : (q : FilePath) → q ≢ at dir dead_dir_name → lookup q gs ≡ lookup q fs

  made-Made : (d : Disk) → Made d.files (made d).files
  made-Made d = elim (files-made d) [
    | inl f ↦ record {
      unique = λ u. rw f u;
      count = ap (pending_count dir) f;
      keeps = λ q n. ap (lookup q) f;
    }
    | inr (f, l) ↦ record {
      unique = λ u. rw f (insert-NodupKeys _ folder d.files u);
      count = ap (pending_count dir) f ∙ light_folder d.files l;
      keeps = λ q n. ap (lookup q) f ∙ lookup-insert_ne q _ folder d.files n;
    }
  ]

  dead-apart : dead_dir_of dir ≢ dir
  dead-apart e = omega (arith, ap length e, length-append dir (b'/' ∷ dead_dir_name))

  -- The queue after the folder was made.
  module _ (d : Disk) (q : Queue) (u : NodupKeys d.files) where
    init-Opened :
        (init (new_queue dir lim) (made d)).0 ≡ ok q
        → Opened dir d.files (record { queue = q; disk = (init (new_queue dir lim) (made d)).1 })
    init-Opened h =
        let m = made-Made d in
        let (w, e) = init-Swept_from (made d) q (m.unique u) h _ refl in
        subst
          (λ (k : Queue).
            Opened dir d.files (record { queue = k; disk = (init (new_queue dir lim) (made d)).1 }))
          (sym e)
          (record {
            tally = record {
              unique = w.unique (m.unique u);
              counted = ap pos (sym w.count);
              sized = omega (arith, w.bytes);
              apart = dead-apart;
            };
            same_dir = refl;
            sized = ap pos (sym w.bytes);
            count = w.count ∙ m.count;
            keeps = λ p n k. w.keeps p k ∙ m.keeps p n;
          })

    opened :
        (o : Result FsError (Unit {0}))
        → (mkdir_all (at dir dead_dir_name) d).0 ≡ o
        → (open_queue dir lim d).0 ≡ ok q
        → Opened dir d.files (record { queue = q; disk = (open_queue dir lim d).1 })
    unfolding open_queue
    opened (err x) g h = absurd (cc (rw (g, open_queue) at h))
    opened (ok x) g h = rw (g, open_queue) (init-Opened (rw (g, open_queue) at h))

    -- If no path of the disk is stored twice and Open returns a queue, its counter is the number of
    -- the event files in its folder, which is as before, its byte counter is the sum of their
    -- sizes, and every path keeps its file, but for temporary files of the folder and the folder of
    -- dead letters, which may be made.
    pub open_queue-Opened :
        (open_queue dir lim d).0 ≡ ok q
        → Opened dir d.files (record { queue = q; disk = (open_queue dir lim d).1 })
    open_queue-Opened h = opened _ refl h
