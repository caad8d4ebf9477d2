-- ===== src/Buffer/Reading/Drain.antt =====
-- internal/buffer/buffer.go: what Ack and DeadLetter use up: event files and entries of the list of
-- faults.
pub mod Batches
use shadow_twin.Buffer.Reading.Easing.{
  Eases, Eases-Takes, Eases-refl, Eases-trans, no_folders, no_folders-lookup,
}
use shadow_twin.Prelude.{
  ℕ, zero, suc, ◌+◌, ◌≤◌, ◌<◌, ◌≡◌, refl, ◌≢◌, ◌⊎◌, inl, inr, Bytes, Bool, true, false, not, ◌&&◌,
  Option, none, some, List, [], ◌∷◌, arith, All, ap, sym, ◌∙◌, length, Option-cases, Bool-cases,
  ◌==◌, bytes_eq, if◌then◌else◌,
}
use shadow_twin.Prelude.Int.{ℤ, pos, pos_part, neg_part, ◌-ℤ◌, -ℤ_parts}
use shadow_twin.Fs.{
  FilePath, path_eq, Node, file, folder, is_dir, Files, Disk, Fault, FsError, Result, ok, err,
  lookup, insert, erase, later, stat, read_file, read_dir, remove, rename, not_exist, io_failure,
  size,
}
use shadow_twin.Buffer.Reading.Files.{Takes, stays, goes, buried, Takes-same, ack_file-Takes}
use shadow_twin.Buffer.Reading.Settling.{bury-Takes}
use shadow_twin.Buffer.Tally.Calls.{files-file_size}
use shadow_twin.Buffer.{
  Spool, Queue, Batch, Codec, QueueError, at, file_size, discharge, sorted_pending,
}
use shadow_twin.Buffer.Reading.{
  ack_file, ack, dead_letter_file, dead_letter, first_of, Round, go_on, return, after_round,
  take_content, read_round, read_loop, read_batch, empty_batch,
}

pub later-length : (fs : List (Option Fault)) → length (later fs) ≤ length fs
later-length [] = omega arith
later-length (f ∷ fs) = omega arith

faults-file_size : (p : FilePath) (d : Disk) → (file_size p d).1.faults ≡ later d.faults
unfolding file_size stat
faults-file_size p d = ground arith

faults-remove : (p : FilePath) (d : Disk) → (remove p d).1.faults ≡ later d.faults
unfolding remove
faults-remove p d = ground arith

faults-rename : (p q : FilePath) (d : Disk) → (rename p q d).1.faults ≡ later d.faults
unfolding rename
faults-rename p q d = ground arith

pub faults-read_file : (p : FilePath) (d : Disk) → (read_file p d).1.faults ≡ later d.faults
unfolding read_file
faults-read_file p d = ground arith

faults-ack_file :
    (p : FilePath) (s : Spool) → (ack_file p s).1.disk.faults ≡ later (later s.disk.faults)
unfolding ack_file
faults-ack_file p s =
    ground (arith, faults-file_size p s.disk, faults-remove p (file_size p s.disk).1)

pub faults-dead_letter_file :
    (p : FilePath) (n : ℕ) (s : Spool)
    → (dead_letter_file p n s).1.disk.faults ≡ later s.disk.faults
unfolding dead_letter_file
faults-dead_letter_file p n s = ground (arith, faults-rename p (at s.queue.dead_dir p.name) s.disk)

ack_file-Eases : (p : FilePath) (s : Spool) → Eases s (ack_file p s).1
ack_file-Eases p s =
    Eases-Takes p s
      (rw (faults-ack_file p s)
        (omega (arith, later-length s.disk.faults, later-length (later s.disk.faults))))
      (ack_file-Takes p s)

pub ack-Eases :
    (ps : List FilePath) (first : Option QueueError) (s : Spool) → Eases s (ack ps first s).1
unfolding ack
ack-Eases [] first s = Eases-refl s
ack-Eases (p ∷ ps) first s =
    Eases-trans s (ack_file p s).1 _ (ack_file-Eases p s) (ack-Eases ps _ (ack_file p s).1)

-- One round of DeadLetter.
abbrev pub bury : FilePath → Spool → Option QueueError × Spool
bury p s = dead_letter_file p (file_size p s.disk).0 (record s { disk = (file_size p s.disk).1 })

bury-Eases : (p : FilePath) (s : Spool) → Eases s (bury p s).1
bury-Eases p s =
    Eases-Takes p s
      (rw
        (faults-dead_letter_file p (file_size p s.disk).0
          (record s { disk = (file_size p s.disk).1 }))
        (rw (faults-file_size p s.disk)
          (omega (arith, later-length s.disk.faults, later-length (later s.disk.faults)))))
      (Takes-same p s (record s { disk = (file_size p s.disk).1 }) (files-file_size p s.disk) refl
        (bury-Takes p s))

pub dead_letter-Eases :
    (ps : List FilePath) (first : Option QueueError) (s : Spool)
    → Eases s (dead_letter ps first s).1
unfolding dead_letter
dead_letter-Eases [] first s = Eases-refl s
dead_letter-Eases (p ∷ ps) first s =
    Eases-trans s (bury p s).1 _ (bury-Eases p s) (dead_letter-Eases ps _ (bury p s).1)

ack_file-count :
    (p : FilePath) (s : Spool) (m : ℕ) (c : Bytes)
    → s.disk.faults ≡ []
    → lookup p s.disk.files ≡ some (file m c)
    → (ack_file p s).1.queue.count ≡ s.queue.count -ℤ pos 1
unfolding ack_file file_size stat remove discharge
ack_file-count p s m c f l = ground (arith, f, l)

bury-count :
    (p : FilePath) (s : Spool) (m : ℕ) (c : Bytes)
    → s.disk.faults ≡ []
    → lookup p s.disk.files ≡ some (file m c)
    → no_folders s.queue.dead_dir s.disk.files ≡ true
    → (bury p s).1.queue.count ≡ s.queue.count -ℤ pos 1
unfolding dead_letter_file file_size stat rename discharge
bury-count p s m c f l n = ground (
  arith,
  f,
  l,
  no_folders-lookup s.queue.dead_dir (at s.queue.dead_dir p.name) s.disk.files n refl,
)

-- With no fault to come, a file that is there is taken out.
pub ack-takes :
    (p : FilePath) (ps : List FilePath) (first : Option QueueError) (s : Spool) (m : ℕ) (c : Bytes)
    → s.disk.faults ≡ []
    → lookup p s.disk.files ≡ some (file m c)
    → pos_part (ack (p ∷ ps) first s).1.queue.count ≤ pos_part (s.queue.count -ℤ pos 1)
unfolding ack
ack-takes p ps first s m c f l =
    let e = ack_file-count p s m c f l in
    omega (
      arith,
      (ack-Eases ps (first_of first (ack_file p s).0) (ack_file p s).1).count,
      ap pos_part e,
    )

pub dead_letter-takes :
    (p : FilePath) (ps : List FilePath) (first : Option QueueError) (s : Spool) (m : ℕ) (c : Bytes)
    → s.disk.faults ≡ []
    → lookup p s.disk.files ≡ some (file m c)
    → no_folders s.queue.dead_dir s.disk.files ≡ true
    → pos_part (dead_letter (p ∷ ps) first s).1.queue.count ≤ pos_part (s.queue.count -ℤ pos 1)
unfolding dead_letter
dead_letter-takes p ps first s m c f l n =
    let e = bury-count p s m c f l n in
    omega (
      arith,
      (dead_letter-Eases ps (first_of first (bury p s).0) (bury p s).1).count,
      ap pos_part e,
    )
