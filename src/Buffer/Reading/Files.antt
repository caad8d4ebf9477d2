-- ===== src/Buffer/Reading/Files.antt =====
-- internal/buffer/buffer.go: one file that Ack removes or DeadLetter moves, and the tally.
use shadow_twin.Prelude.{
  ℕ, ◌≤◌, ◌≡◌, refl, ◌≢◌, ◌⊎◌, inl, inr, Bytes, true, none, some, arith, ap, ◌∙◌, length,
}
use shadow_twin.Fs.{
  FilePath, file, not_exist, io_failure, lookup, insert, erase, is_dir, size, remove, rename,
}
use shadow_twin.Fs.Laws.{NodupKeys, lookup-erase_ne, lookup-erase_self, lookup-insert_ne}
use shadow_twin.Fs.Effects.{
  Removes, removed, remove-Removes, Renames, missing, moved, rename-Renames,
}
use shadow_twin.Text.{has_suffix}
use shadow_twin.Buffer.{Spool, Queue, at, is_pending, file_suffix, file_size, discharge}
use shadow_twin.Buffer.Reading.{ack_file, dead_letter_file}
use shadow_twin.Buffer.Tally.{Tally}
use shadow_twin.Buffer.Tally.Calls.{
  Tally-same, Tally-discharge, Tally-discharge_moved, files-file_size, file_size-le,
}

-- The path is that of an event file of the folder, whether it is there or not.
abbrev pub IsEventPath : Bytes → FilePath → Type 0
IsEventPath dir p = (p.dir ≡ dir) × (has_suffix p.name file_suffix ≡ true)

-- How a file can be taken out: it stays, or it goes from its path, perhaps to the dead letters.
pub data Takes (p : FilePath) (s s' : Spool) : Type 0 where
  stays : s'.disk.files ≡ s.disk.files → s'.queue ≡ s.queue → Takes p s s'
  goes :
      (m : ℕ) (c : Bytes) (k : ℕ)
      → lookup p s.disk.files ≡ some (file m c)
      → k ≤ length c
      → s'.disk.files ≡ erase p s.disk.files
      → s'.queue ≡ discharge k s.queue
      → Takes p s s'
  buried :
      (m : ℕ) (c : Bytes) (k : ℕ)
      → lookup p s.disk.files ≡ some (file m c)
      → k ≤ length c
      → s'.disk.files ≡ insert (at s.queue.dead_dir p.name) (file m c) (erase p s.disk.files)
      → s'.queue ≡ discharge k s.queue
      → Takes p s s'

Takes-Tally-at :
    (dir : Bytes) (p : FilePath) (s : Spool) {s' : Spool}
    → dir ≡ s.queue.dir
    → p ≡ at dir p.name
    → has_suffix p.name file_suffix ≡ true
    → Tally s
    → Takes p s s'
    → Tally s'
unfolding is_pending is_dir size
Takes-Tally-at dir p s {s' = s'} d e n t (stays f q) = ground (arith, Tally-same s s'.disk t f)
Takes-Tally-at dir p s {s' = s'} d e n t (goes m c k l small f q) = ground (
  arith,
  Tally-discharge s p.name (file m c) k s'.disk t (rw (← d, ← e) l) n small (rw (← d, ← e) f),
)
Takes-Tally-at dir p s {s' = s'} d e n t (buried m c k l small f q) = ground (
  arith,
  Tally-discharge_moved s p.name (file m c) k s'.disk t (rw (← d, ← e) l) n small (rw (← d, ← e) f),
)

at-name : (dir : Bytes) (p : FilePath) → p.dir ≡ dir → p ≡ at dir p.name
at-name dir p e = ground (arith, e)

pub Takes-Tally :
    (p : FilePath) (s : Spool) {s' : Spool}
    → IsEventPath s.queue.dir p
    → Tally s
    → Takes p s s'
    → Tally s'
Takes-Tally p s (d, n) = Takes-Tally-at s.queue.dir p s refl (at-name s.queue.dir p d) n

-- Only the path itself and the dead letters can change.
pub Takes-other :
    (p q : FilePath) (s : Spool) {s' : Spool}
    → q ≢ p
    → q ≢ at s.queue.dead_dir p.name
    → Takes p s s'
    → lookup q s'.disk.files ≡ lookup q s.disk.files
Takes-other p q s n m (stays f k) = ap (lookup q) f
Takes-other p q s n m (goes _ c k l small f e) = ap (lookup q) f ∙ lookup-erase_ne q p _ n
Takes-other p q s n m (buried _ c k l small f e) =
    ap (lookup q) f ∙ (lookup-insert_ne q _ _ _ m ∙ lookup-erase_ne q p _ n)

pub Takes-frame :
    (p : FilePath) (s : Spool) {s' : Spool}
    → Takes p s s'
    → (s'.queue.dir ≡ s.queue.dir) × (s'.queue.dead_dir ≡ s.queue.dead_dir)
unfolding discharge
Takes-frame p s (stays f q) = (ap (λ (k : Queue). k.dir) q, ap (λ (k : Queue). k.dead_dir) q)
Takes-frame p s (goes m c k l small f q) =
    (ap (λ (k : Queue). k.dir) q, ap (λ (k : Queue). k.dead_dir) q)
Takes-frame p s (buried m c k l small f q) =
    (ap (λ (k : Queue). k.dir) q, ap (λ (k : Queue). k.dead_dir) q)

ack_file-Takes_from :
    (p : FilePath) (s : Spool)
    → Removes p
        (file_size p s.disk).1.files
        (remove p (file_size p s.disk).1).0
        (remove p (file_size p s.disk).1).1.files
    → Takes p s (ack_file p s).1
unfolding ack_file
ack_file-Takes_from p s (Removes.kept not_exist h f) =
    rw (h, ack_file) (stays (f ∙ files-file_size p s.disk) refl)
ack_file-Takes_from p s (Removes.kept io_failure h f) =
    rw (h, ack_file) (stays (f ∙ files-file_size p s.disk) refl)
ack_file-Takes_from p s (removed m c l h f) =
    let l' : lookup p s.disk.files ≡ some (file m c) = rw (files-file_size p s.disk) at l in
    rw (h, ack_file)
      (goes m c (file_size p s.disk).0 l' (unfold size in file_size-le p s.disk (file m c) l')
        (f ∙ ap (erase p) (files-file_size p s.disk)) refl)

pub ack_file-Takes : (p : FilePath) (s : Spool) → Takes p s (ack_file p s).1
ack_file-Takes p s = ack_file-Takes_from p s (remove-Removes p (file_size p s.disk).1)

module _ (p : FilePath) (k : ℕ) (s : Spool)
    (small : (m : ℕ) (c : Bytes) → lookup p s.disk.files ≡ some (file m c) → k ≤ length c) where
  dead_letter_file-Takes_from :
      Renames p
        (at s.queue.dead_dir p.name)
        s.disk.files
        (rename p (at s.queue.dead_dir p.name) s.disk).0
        (rename p (at s.queue.dead_dir p.name) s.disk).1.files
      → Takes p s (dead_letter_file p k s).1
  unfolding dead_letter_file
  dead_letter_file-Takes_from (Renames.kept not_exist h f) = rw (h, dead_letter_file) (stays f refl)
  dead_letter_file-Takes_from (Renames.kept io_failure h f) =
      rw (h, dead_letter_file) (stays f refl)
  dead_letter_file-Takes_from (missing h l f) = rw (h, dead_letter_file) (stays f refl)
  dead_letter_file-Takes_from (moved m c l h f) =
      rw (h, dead_letter_file) (buried m c k l (small m c l) f refl)

  pub dead_letter_file-Takes : Takes p s (dead_letter_file p k s).1
  dead_letter_file-Takes =
      dead_letter_file-Takes_from (rename-Renames p (at s.queue.dead_dir p.name) s.disk)

pub Takes-same :
    (p : FilePath) (s t : Spool) {u : Spool}
    → t.disk.files ≡ s.disk.files
    → t.queue ≡ s.queue
    → Takes p t u
    → Takes p s u
Takes-same p s t f q (stays g e) = stays (g ∙ f) (e ∙ q)
Takes-same p s t f q (goes m c k l small g e) =
    goes m c k (rw (← f) l) small (rw (← f) g) (rw (← q) e)
Takes-same p s t f q (buried m c k l small g e) =
    buried m c k (rw (← f) l) small (rw (← f, ← q) g) (rw (← q) e)

-- A file that is taken is gone from its path; one that is buried lies among the dead letters.
pub Takes-self :
    (p : FilePath) (s : Spool) {s' : Spool} (m : ℕ) (c : Bytes)
    → NodupKeys s.disk.files
    → p ≢ at s.queue.dead_dir p.name
    → lookup p s.disk.files ≡ some (file m c)
    → Takes p s s'
    → (lookup p s'.disk.files ≡ lookup p s.disk.files) ⊎ (lookup p s'.disk.files ≡ none)
Takes-self p s m c u n l (stays f q) = inl (ap (lookup p) f)
Takes-self p s m c u n l (goes m' c' k l' small f q) =
    inr (ap (lookup p) f ∙ lookup-erase_self p _ u)
Takes-self p s m c u n l (buried m' c' k l' small f q) =
    inr (ap (lookup p) f ∙ (lookup-insert_ne p _ _ _ n ∙ lookup-erase_self p _ u))
