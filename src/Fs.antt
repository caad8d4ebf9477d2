-- ===== src/Fs.antt =====
-- The part of the file system that the agent's packages use: files by directory and name, and the
-- calls of package os on them. A call takes the next entry of `faults`: a call that is refused
-- changes nothing, and a torn write leaves the first bytes. A process that dies in the middle of
-- an operation leaves the files of a run whose every later call is refused, so what is shown for
-- all lists of faults also holds at a crash.
pub mod Laws
pub mod Effects
pub mod Replacing
pub mod Trees
pub mod Successes
pub mod Actions
use shadow_twin.Prelude.{
  ℕ, Bytes, ◌≡◌, refl, ap, Bool, true, false, Option, none, some, List, [], ◌∷◌, Eq, ◌==◌, bytes_eq,
  length, take, arith, if◌then◌else◌,
}
use mathlib.Core.Logic.{dite}

pub record FilePath : Type 0 where
  pub dir : Bytes
  pub name : Bytes

path_dec : Discrete FilePath
path_dec a b =
    dite (bytes_eq.dec a.dir b.dir)
      (λ p.
        dite (bytes_eq.dec a.name b.name) (λ q. yes (ground arith))
          (λ n. no (λ r. n (ap (λ (f : FilePath). f.name) r))))
      (λ n. no (λ r. n (ap (λ (f : FilePath). f.dir) r)))

instance unfoldable pub path_eq : Eq FilePath
unfolding path_dec bytes_eq
path_eq = record { dec = path_dec }

-- A file with its permission bits and its bytes.
pub data Node : Type 0 where
  folder : Node
  file : ℕ → Bytes → Node

unfoldable pub is_dir : Node → Bool
is_dir folder = true
is_dir (file _ _) = false

-- FileInfo.Size; a folder's is not used.
unfoldable pub size : Node → ℕ
size folder = 0
size (file _ content) = length content

abbrev pub Files : Type 0
Files = List (FilePath × Node)

unfoldable pub lookup : FilePath → Files → Option Node
lookup p [] = none
lookup p ((j, n) ∷ fs) = if p == j then some n else lookup p fs

unfoldable pub insert : FilePath → Node → Files → Files
insert p n [] = (p, n) ∷ []
insert p n ((j, m) ∷ fs) = if p == j then (p, n) ∷ fs else (j, m) ∷ insert p n fs

unfoldable pub erase : FilePath → Files → Files
erase p [] = []
erase p ((j, m) ∷ fs) = if p == j then fs else (j, m) ∷ erase p fs

pub data Fault : Type 0 where
  refused : Fault
  torn : ℕ → Fault

pub record Disk : Type 0 where
  pub files : Files
  pub faults : List (Option Fault)

pub data FsError : Type 0 where
  not_exist io_failure : FsError

pub data Result {ℓ} (E : Type 0) (A : Type ℓ) : Type ℓ where
  ok : A → Result E A
  err : E → Result E A

abbrev pub next_fault : List (Option Fault) → Option Fault
next_fault [] = none
next_fault (f ∷ _) = f

abbrev pub later : List (Option Fault) → List (Option Fault)
later [] = []
later (_ ∷ fs) = fs

-- os.ReadDir: the entries of a folder, in the order in which they are stored.
unfoldable pub entries : Bytes → Files → List (Bytes × Node)
entries dir [] = []
entries dir ((p, n) ∷ fs) = if p.dir == dir then (p.name, n) ∷ entries dir fs else entries dir fs

unfoldable pub read_dir : Bytes → Disk → Result FsError (List (Bytes × Node)) × Disk
unfolding entries
read_dir dir d =
    let d' = record d { faults = later d.faults } in
    elim (next_fault d.faults) [
      | none ↦ (ok (entries dir d.files), d')
      | some _ ↦ (err io_failure, d')
    ]

-- os.Stat
unfoldable pub stat : FilePath → Disk → Result FsError Node × Disk
stat p d =
    let d' = record d { faults = later d.faults } in
    elim (next_fault d.faults) [
      | some _ ↦ (err io_failure, d')
      | none ↦ elim (lookup p d.files) [ none ↦ (err not_exist, d') | some n ↦ (ok n, d') ]
    ]

-- os.ReadFile
unfoldable pub read_file : FilePath → Disk → Result FsError Bytes × Disk
read_file p d =
    let d' = record d { faults = later d.faults } in
    elim (next_fault d.faults) [
      | some _ ↦ (err io_failure, d')
      | none ↦ elim (lookup p d.files) [
        | none ↦ (err not_exist, d')
        | some folder ↦ (err io_failure, d')
        | some (file _ content) ↦ (ok content, d')
      ]
    ]

-- os.Remove, of a file
unfoldable pub remove : FilePath → Disk → Result FsError (Unit {0}) × Disk
remove p d =
    let d' = record d { faults = later d.faults } in
    elim (next_fault d.faults) [
      | some _ ↦ (err io_failure, d')
      | none ↦ elim (lookup p d.files) [
        | none ↦ (err not_exist, d')
        | some folder ↦ (err io_failure, d')
        | some (file _ _) ↦ (ok tt, record d' { files = erase p d.files })
      ]
    ]

-- os.Rename, of a file; what stood at the new path is replaced.
abbrev moved : FilePath → FilePath → Option Node → Option Node → Files → Result FsError Files
moved from to none _ fs = err not_exist
moved from to (some folder) _ fs = err io_failure
moved from to (some (file m c)) (some folder) fs = err io_failure
moved from to (some (file m c)) _ fs = ok (insert to (file m c) (erase from fs))

unfoldable pub rename : FilePath → FilePath → Disk → Result FsError (Unit {0}) × Disk
rename from to d =
    let d' = record d { faults = later d.faults } in
    elim (next_fault d.faults) [
      | some _ ↦ (err io_failure, d')
      | none ↦ elim (moved from to (lookup from d.files) (lookup to d.files) d.files) [
        | err e ↦ (err e, d')
        | ok fs ↦ (ok tt, record d' { files = fs })
      ]
    ]

-- What os.WriteFile leaves: a file that is there keeps its permission bits.
abbrev written : ℕ → Bytes → Option Node → Result FsError Node
written mode content none = ok (file mode content)
written mode content (some folder) = err io_failure
written mode content (some (file m _)) = ok (file m content)

unfoldable pub write_file : FilePath → Bytes → ℕ → Disk → Result FsError (Unit {0}) × Disk
write_file p content mode d =
    let d' = record d { faults = later d.faults } in
    elim (next_fault d.faults) [
      | some refused ↦ (err io_failure, d')
      | some (torn k) ↦ elim (written mode (take k content) (lookup p d.files)) [
        | err e ↦ (err e, d')
        | ok n ↦ (err io_failure, record d' { files = insert p n d.files })
      ]
      | none ↦ elim (written mode content (lookup p d.files)) [
        | err e ↦ (err e, d')
        | ok n ↦ (ok tt, record d' { files = insert p n d.files })
      ]
    ]

-- os.MkdirAll; the folders above are there or come with it.
unfoldable pub mkdir_all : FilePath → Disk → Result FsError (Unit {0}) × Disk
mkdir_all p d =
    let d' = record d { faults = later d.faults } in
    elim (next_fault d.faults) [
      | some _ ↦ (err io_failure, d')
      | none ↦ elim (lookup p d.files) [
        | none ↦ (ok tt, record d' { files = insert p folder d.files })
        | some folder ↦ (ok tt, d')
        | some (file _ _) ↦ (err io_failure, d')
      ]
    ]
