-- ===== src/Buffer/Tally/Writing.antt =====
-- internal/buffer/buffer.go: Write and the tally.
use shadow_twin.Prelude.{
  ℕ, Bytes, ◌≡◌, refl, ◌≢◌, none, some, [], ◌++◌, arith, length, length-append, ap, ◌∙◌, bytes_eq,
}
use shadow_twin.Fs.{
  FilePath, path_eq, Node, file, Disk, FsError, not_exist, Result, ok, err, lookup, insert, erase,
  write_file, rename, remove,
}
use shadow_twin.Fs.Laws.{
  lookup-insert_self, lookup-insert_ne, lookup-erase_ne, insert-NodupKeys, erase-NodupKeys,
  weigh-insert_light, weigh-erase_light,
}
use shadow_twin.Fs.Effects.{
  Writes, untouched, partly, whole, write_file-Writes, Renames, missing, moved, rename-Renames,
  Removes, removed, remove-Removes,
}
use shadow_twin.Prelude.Int.{pos, ◌+ℤ◌}
use shadow_twin.Collectors.Event.{Event}
use shadow_twin.Buffer.{
  Spool, Queue, QueueError, stuck, write_temp, commit, at, file_name, tmp_suffix, file_perm,
  commit_event,
}
use shadow_twin.Buffer.Tally.{Tally, pending_count, pending_bytes, count_weight, byte_weight}
use shadow_twin.Buffer.Tally.Calls.{Tally-same, Tally-charge, tmp_name-is_pending}

abbrev pub tmp_of : Spool → Event → FilePath
tmp_of s ev = at s.queue.dir (file_name ev ++ tmp_suffix)

-- A temporary file weighs nothing, so it can come and go.
module _ (s : Spool) (ev : Event) where
  light_count : (n : Node) → count_weight s.queue.dir (tmp_of s ev) n ≡ 0
  unfolding count_weight
  light_count n = ground (arith, tmp_name-is_pending (file_name ev) n)

  light_bytes : (n : Node) → byte_weight s.queue.dir (tmp_of s ev) n ≡ 0
  unfolding byte_weight
  light_bytes n = ground (arith, tmp_name-is_pending (file_name ev) n)

  module _ (d : Disk) (t : Tally s) where
    Tally-tmp_comes :
        (n : Node) → d.files ≡ insert (tmp_of s ev) n s.disk.files → Tally (record s { disk = d })
    unfolding pending_count pending_bytes
    Tally-tmp_comes n e = record {
      unique = rw e (insert-NodupKeys _ n _ t.unique);
      counted = rw e (rw (weigh-insert_light _ _ light_count n s.disk.files) t.counted);
      sized = rw e (rw (weigh-insert_light _ _ light_bytes n s.disk.files) t.sized);
      apart = t.apart;
    }

    Tally-tmp_goes : d.files ≡ erase (tmp_of s ev) s.disk.files → Tally (record s { disk = d })
    unfolding pending_count pending_bytes
    Tally-tmp_goes e = record {
      unique = rw e (erase-NodupKeys _ _ t.unique);
      counted = rw e (rw (weigh-erase_light _ _ light_count s.disk.files) t.counted);
      sized = rw e (rw (weigh-erase_light _ _ light_bytes s.disk.files) t.sized);
      apart = t.apart;
    }

abbrev pub final_of : Spool → Event → FilePath
final_of s ev = at s.queue.dir (file_name ev)

tmp-ne-final : (s : Spool) (ev : Event) → final_of s ev ≢ tmp_of s ev
tmp-ne-final s ev e =
    omega (arith, ap (λ (p : FilePath). length p.name) e, length-append (file_name ev) tmp_suffix)

-- q.count++; q.bytes += int64(len(data))
abbrev pub charged : Bytes → Queue → Queue
charged content q = record q { count = q.count +ℤ pos 1; bytes = q.bytes +ℤ pos (length content) }

-- What a commit leaves: no other file has changed. On success the event file is whole; on failure
-- there is no event file that was not there.
pub data Commits (s : Spool) (ev : Event) (content : Bytes) (r : Result QueueError (Unit {0}))
    (s' : Spool) : Type 0 where
  abandoned :
      (e : QueueError)
      → r ≡ err e
      → e ≢ stuck
      → s'.queue ≡ s.queue
      → ((q : FilePath) → q ≢ tmp_of s ev → lookup q s'.disk.files ≡ lookup q s.disk.files)
      → Tally s'
      → Commits s ev content r s'
  committed :
      (m : ℕ)
      → r ≡ ok tt
      → s'.queue ≡ charged content s.queue
      → lookup (final_of s ev) s'.disk.files ≡ some (file m content)
      → ((q : FilePath)
          → q ≢ tmp_of s ev
          → q ≢ final_of s ev
          → lookup q s'.disk.files ≡ lookup q s.disk.files)
      → Tally s'
      → Commits s ev content r s'

module _ (s : Spool) (ev : Event) (content : Bytes) (t : Tally s)
    (fresh : lookup (final_of s ev) s.disk.files ≡ none) where
  abbrev first_write : Result FsError (Unit {0}) × Disk
  first_write = write_file (tmp_of s ev) content file_perm s.disk

  abbrev second_rename : Result FsError (Unit {0}) × Disk
  second_rename = rename (tmp_of s ev) (final_of s ev) first_write.1

  abbrev clean_up : Result FsError (Unit {0}) × Disk
  clean_up = remove (tmp_of s ev) second_rename.1

  -- The disk after the temporary file is whole, and the spool on it.
  module _ (m : ℕ)
      (f : first_write.1.files ≡ insert (tmp_of s ev) (file m content) s.disk.files) where
    Tally-written : Tally (record s { disk = first_write.1 })
    Tally-written = Tally-tmp_comes s ev first_write.1 t _ f

    others_written :
        (q : FilePath) → q ≢ tmp_of s ev → lookup q first_write.1.files ≡ lookup q s.disk.files
    others_written q n = ap (lookup q) f ∙ lookup-insert_ne q (tmp_of s ev) _ s.disk.files n

    abandon_commit :
        (e : FsError)
        → second_rename.1.files ≡ first_write.1.files
        → Removes (tmp_of s ev) second_rename.1.files clean_up.0 clean_up.1.files
        → Commits s ev content (err (commit e)) (record s { disk = clean_up.1 })
    abandon_commit e g (Removes.kept e' h k) =
        abandoned (commit e) refl (λ p. cc) refl (λ q n. ap (lookup q) (k ∙ g) ∙ others_written q n)
          (Tally-same (record s { disk = first_write.1 }) clean_up.1 Tally-written (k ∙ g))
    abandon_commit e g (removed m' c' l h k) =
        abandoned (commit e) refl (λ p. cc) refl
          (λ q n.
            ap (lookup q) k
            ∙ (lookup-erase_ne q (tmp_of s ev) _ n ∙ (ap (lookup q) g ∙ others_written q n)))
          (Tally-tmp_goes (record s { disk = first_write.1 }) ev clean_up.1 Tally-written
            (k ∙ ap (erase (tmp_of s ev)) g))

    after_rename : Result FsError (Unit {0}) → Result QueueError (Unit {0}) × Spool
    after_rename (err e) = (err (commit e), record s { disk = clean_up.1 })
    after_rename (ok _) = (
      ok tt,
      record {
        queue = record (s.queue) {
          count = s.queue.count +ℤ pos 1;
          bytes = s.queue.bytes +ℤ pos (length content);
        };
        disk = second_rename.1;
      },
    )

    land :
        (m' : ℕ)
        → second_rename.1.files
          ≡ insert (final_of s ev) (file m' content) (erase (tmp_of s ev) first_write.1.files)
        → Commits s ev content (ok tt) (after_rename (ok tt)).1
    unfolding after_rename
    land m' g =
        let erased : Disk = record {
          files = erase (tmp_of s ev) first_write.1.files;
          faults = [];
        } in
        committed m' refl refl
          (ap (lookup (final_of s ev)) g ∙ lookup-insert_self (final_of s ev) _ _)
          (λ q n k.
            ap (lookup q) g
            ∙ (lookup-insert_ne q (final_of s ev) _ _ k
                ∙ (lookup-erase_ne q (tmp_of s ev) first_write.1.files n ∙ others_written q n)))
          (Tally-charge (record s { disk = erased }) ev content m' second_rename.1
            (Tally-tmp_goes (record s { disk = first_write.1 }) ev erased Tally-written refl)
            (lookup-erase_ne (final_of s ev) (tmp_of s ev) first_write.1.files (tmp-ne-final s ev)
              ∙ (others_written (final_of s ev) (tmp-ne-final s ev) ∙ fresh))
            g)

    commit_event-Commits_rename :
        Renames
          (tmp_of s ev)
          (final_of s ev)
          first_write.1.files
          second_rename.0
          second_rename.1.files
        → Commits s ev content (after_rename second_rename.0).0 (after_rename second_rename.0).1
    unfolding after_rename
    commit_event-Commits_rename (Renames.kept e h g) =
        rw h (abandon_commit e g (remove-Removes (tmp_of s ev) second_rename.1))
    commit_event-Commits_rename (missing h l g) =
        rw h (abandon_commit not_exist g (remove-Removes (tmp_of s ev) second_rename.1))
    commit_event-Commits_rename (moved m' c' l h g) =
        let same : c' ≡ content = cc (
          ap (lookup (tmp_of s ev)) f,
          l,
          lookup-insert_self (tmp_of s ev) (file m content) s.disk.files,
        ) in
        rw h (
          land m' (
            g
            ∙ ap (λ c. insert (final_of s ev) (file m' c) (erase (tmp_of s ev) first_write.1.files))
                same))

  commit_event-Commits_from :
      Writes (tmp_of s ev) content s.disk.files first_write.0 first_write.1.files
      → Commits s ev content (commit_event ev content s).0 (commit_event ev content s).1
  unfolding commit_event after_rename
  commit_event-Commits_from (untouched e h f) =
      rw (h, commit_event)
        (abandoned (write_temp e) refl (λ p. cc) refl (λ q n. ap (lookup q) f)
          (Tally-same s first_write.1 t f))
  commit_event-Commits_from (partly e m k h f) =
      rw (h, commit_event)
        (abandoned (write_temp e) refl (λ p. cc) refl
          (λ q n. ap (lookup q) f ∙ lookup-insert_ne q (tmp_of s ev) _ s.disk.files n)
          (Tally-tmp_comes s ev first_write.1 t _ f))
  commit_event-Commits_from (whole m h f) =
      rw (h, commit_event)
        (commit_event-Commits_rename m f
          (rename-Renames (tmp_of s ev) (final_of s ev) first_write.1))

  pub commit_event-Commits :
      Commits s ev content (commit_event ev content s).0 (commit_event ev content s).1
  commit_event-Commits =
      commit_event-Commits_from (write_file-Writes (tmp_of s ev) content file_perm s.disk)
