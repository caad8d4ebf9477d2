-- ===== src/Fs/Successes.antt =====
-- What a call on the disk leaves when it reports no error.
use shadow_twin.Prelude.{ℕ, ◌≡◌, ◌≢◌, Bytes, some, arith, ap}
use shadow_twin.Fs.{
  FilePath, path_eq, folder, file, Files, lookup, insert, erase, Disk, ok, write_file, rename,
  mkdir_all,
}
use shadow_twin.Fs.Laws.{lookup-insert, lookup-insert_self, lookup-insert_ne}
use shadow_twin.Fs.Effects.{
  write_file-Writes, rename-Renames, untouched, partly, whole, Renames, missing, moved,
}
use shadow_twin.Fs.Trees.{chmod}

-- A path has a file, with its permission bits and its bytes.
abbrev pub Holds : FilePath → ℕ → Bytes → Files → Type 0
Holds p m c fs = lookup p fs ≡ some (file m c)

module _ (p : FilePath) (c : Bytes) (mode : ℕ) (d d' : Disk) where
  pub write_file-ok :
      write_file p c mode d ≡ (ok tt, d') → (k : ℕ) × (d'.files ≡ insert p (file k c) d.files)
  write_file-ok h = elim (write_file-Writes p c mode d) [
    | untouched e r f ↦ absurd (cc (ap (λ x. x.0) h))
    | partly e m k r f ↦ absurd (cc (ap (λ x. x.0) h))
    | whole m r f ↦ (m, cc)
  ]

  pub chmod-ok :
      (k : ℕ) → chmod p mode d ≡ (ok tt, d') → Holds p k c d.files → Holds p mode c d'.files
  unfolding chmod
  chmod-ok k h l = ground (arith, h, l, lookup-insert_self p (file mode c) d.files)

  pub chmod-other :
      (q : FilePath) (k : ℕ) (b : Bytes)
      → q ≢ p
      → chmod p mode d ≡ (ok tt, d')
      → Holds q k b d.files
      → Holds q k b d'.files
  unfolding chmod
  chmod-other q k b n h l = grind (arith, lookup-insert_ne)

pub mkdir_all-other :
    (p : FilePath) (d d' : Disk) (q : FilePath) (k : ℕ) (b : Bytes)
    → mkdir_all p d ≡ (ok tt, d')
    → Holds q k b d.files
    → Holds q k b d'.files
unfolding mkdir_all
mkdir_all-other p d d' q k b h l = ground (arith, h, l, lookup-insert q p folder d.files)

pub rename-ok :
    (from to : FilePath) (m : ℕ) (c : Bytes) (d d' : Disk)
    → rename from to d ≡ (ok tt, d')
    → Holds from m c d.files
    → Holds to m c d'.files
rename-ok from to m c d d' h l = elim (rename-Renames from to d) [
  | Renames.kept e r f ↦ absurd (cc (ap (λ x. x.0) h))
  | missing r n f ↦ absurd (cc (ap (λ x. x.0) h))
  | moved m' c' l' r f ↦ cc (f, h, l, l', lookup-insert_self to (file m' c') (erase from d.files))
]
