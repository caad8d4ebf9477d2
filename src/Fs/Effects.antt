-- ===== src/Fs/Effects.antt =====
-- How each call on the disk can end, and what files it leaves.
use shadow_twin.Prelude.{ℕ, ◌≡◌, refl, Bytes, Option, none, some, take, arith}
use shadow_twin.Fs.{
  FilePath, path_eq, Node, folder, file, Files, lookup, insert, erase, Fault, refused, torn,
  next_fault, Disk, FsError, not_exist, io_failure, Result, ok, err, write_file, rename, remove,
  read_file,
}

pub data Writes (p : FilePath) (c : Bytes) (fs : Files) (r : Result FsError (Unit {0}))
    (fs' : Files) : Type 0 where
  untouched : (e : FsError) → r ≡ err e → fs' ≡ fs → Writes p c fs r fs'
  partly :
      (e : FsError) (m k : ℕ)
      → r ≡ err e
      → fs' ≡ insert p (file m (take k c)) fs
      → Writes p c fs r fs'
  whole : (m : ℕ) → r ≡ ok tt → fs' ≡ insert p (file m c) fs → Writes p c fs r fs'

module _ (p : FilePath) (c : Bytes) (mode : ℕ) (d : Disk) where
  write_file-cases :
      (f : Option Fault) (l : Option Node)
      → next_fault d.faults ≡ f
      → lookup p d.files ≡ l
      → Writes p c d.files (write_file p c mode d).0 (write_file p c mode d).1.files
  unfolding write_file
  write_file-cases none none e g = rw (e, write_file) (rw (g, write_file) (whole mode refl refl))
  write_file-cases none (some folder) e g =
      rw (e, write_file) (rw (g, write_file) (untouched io_failure refl refl))
  write_file-cases none (some (file m b)) e g =
      rw (e, write_file) (rw (g, write_file) (whole m refl refl))
  write_file-cases (some refused) l e g = rw (e, write_file) (untouched io_failure refl refl)
  write_file-cases (some (torn k)) none e g =
      rw (e, write_file) (rw (g, write_file) (partly io_failure mode k refl refl))
  write_file-cases (some (torn k)) (some folder) e g =
      rw (e, write_file) (rw (g, write_file) (untouched io_failure refl refl))
  write_file-cases (some (torn k)) (some (file m b)) e g =
      rw (e, write_file) (rw (g, write_file) (partly io_failure m k refl refl))

  pub write_file-Writes :
      Writes p c d.files (write_file p c mode d).0 (write_file p c mode d).1.files
  write_file-Writes = write_file-cases (next_fault d.faults) (lookup p d.files) refl refl

-- Where no fault strikes, a missing file comes with the mode that was asked for.
pub data Renames (from to : FilePath) (fs : Files) (r : Result FsError (Unit {0})) (fs' : Files)
    : Type 0 where
  kept : (e : FsError) → r ≡ err e → fs' ≡ fs → Renames from to fs r fs'
  missing : r ≡ err not_exist → lookup from fs ≡ none → fs' ≡ fs → Renames from to fs r fs'
  moved :
      (m : ℕ) (c : Bytes)
      → lookup from fs ≡ some (file m c)
      → r ≡ ok tt
      → fs' ≡ insert to (file m c) (erase from fs)
      → Renames from to fs r fs'

module _ (from to : FilePath) (d : Disk) where
  rename-cases :
      (f : Option Fault) (l k : Option Node)
      → next_fault d.faults ≡ f
      → lookup from d.files ≡ l
      → lookup to d.files ≡ k
      → Renames from to d.files (rename from to d).0 (rename from to d).1.files
  unfolding rename
  rename-cases (some f) l k e g h = rw (e, rename) (kept io_failure refl refl)
  rename-cases none none k e g h = rw (e, rename) (rw (g, rename) (missing refl g refl))
  rename-cases none (some folder) k e g h =
      rw (e, rename) (rw (g, rename) (kept io_failure refl refl))
  rename-cases none (some (file m c)) none e g h =
      rw (e, rename) (rw (g, rename) (rw (h, rename) (moved m c g refl refl)))
  rename-cases none (some (file m c)) (some folder) e g h =
      rw (e, rename) (rw (g, rename) (rw (h, rename) (kept io_failure refl refl)))
  rename-cases none (some (file m c)) (some (file m' c')) e g h =
      rw (e, rename) (rw (g, rename) (rw (h, rename) (moved m c g refl refl)))

  pub rename-Renames : Renames from to d.files (rename from to d).0 (rename from to d).1.files
  rename-Renames =
      rename-cases (next_fault d.faults) (lookup from d.files) (lookup to d.files) refl refl refl

pub data Removes (p : FilePath) (fs : Files) (r : Result FsError (Unit {0})) (fs' : Files)
    : Type 0 where
  kept : (e : FsError) → r ≡ err e → fs' ≡ fs → Removes p fs r fs'
  removed :
      (m : ℕ) (c : Bytes)
      → lookup p fs ≡ some (file m c)
      → r ≡ ok tt
      → fs' ≡ erase p fs
      → Removes p fs r fs'

module _ (p : FilePath) (d : Disk) where
  remove-cases :
      (f : Option Fault) (l : Option Node)
      → next_fault d.faults ≡ f
      → lookup p d.files ≡ l
      → Removes p d.files (remove p d).0 (remove p d).1.files
  unfolding remove
  remove-cases (some f) l e g = rw (e, remove) (kept io_failure refl refl)
  remove-cases none none e g = rw (e, remove) (rw (g, remove) (kept not_exist refl refl))
  remove-cases none (some folder) e g = rw (e, remove) (rw (g, remove) (kept io_failure refl refl))
  remove-cases none (some (file m c)) e g =
      rw (e, remove) (rw (g, remove) (removed m c g refl refl))

  pub remove-Removes : Removes p d.files (remove p d).0 (remove p d).1.files
  remove-Removes = remove-cases (next_fault d.faults) (lookup p d.files) refl refl

pub files-read_file : (p : FilePath) (d : Disk) → (read_file p d).1.files ≡ d.files
unfolding read_file
files-read_file p d = ground arith

pub read_file-found :
    (p : FilePath) (d : Disk) (c : Bytes)
    → (read_file p d).0 ≡ ok c
    → (m : ℕ) × (lookup p d.files ≡ some (file m c))
unfolding read_file
read_file-found p d c h = ground arith

pub read_file-missing :
    (p : FilePath) (d : Disk) → (read_file p d).0 ≡ err not_exist → lookup p d.files ≡ none
unfolding read_file
read_file-missing p d h = ground arith
