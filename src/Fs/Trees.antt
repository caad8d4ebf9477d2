-- ===== src/Fs/Trees.antt =====
-- os.Chmod, and the calls that walk a folder: os.RemoveAll and filepath.WalkDir.
use shadow_twin.Prelude.{
  ℕ, zero, suc, Bytes, codes, Bool, ◌||◌, ◌&&◌, not, none, some, List, [], ◌∷◌, ◌==◌, bytes_eq,
  if◌then◌else◌,
}
use shadow_twin.Text.{has_suffix}
use shadow_twin.Fs.{
  FilePath, path_eq, folder, file, Files, lookup, insert, refused, torn, next_fault, later, Disk,
  FsError, not_exist, io_failure, Result, ok, err,
}

-- os.Chmod; the permission bits of a folder are not kept.
unfoldable pub chmod : FilePath → ℕ → Disk → Result FsError (Unit {0}) × Disk
chmod p mode d =
    let d' = record d { faults = later d.faults } in
    elim (next_fault d.faults) [
      | some _ ↦ (err io_failure, d')
      | none ↦ elim (lookup p d.files) [
        | none ↦ (err not_exist, d')
        | some folder ↦ (ok tt, d')
        | some (file _ content) ↦
            (ok tt, record d' { files = insert p (file mode content) d.files })
      ]
    ]

-- What os.RemoveAll refuses: a path whose last element is ".".
unfoldable pub ends_with_dot : Bytes → Bool
ends_with_dot root = root == codes "." || has_suffix root (codes "/.")

-- Whether os.RemoveAll walks the path: it does nothing with an empty one.
unfoldable pub is_removable : Bytes → Bool
is_removable root = not (root == []) && not (ends_with_dot root)

-- The first `n` paths that lie inside go.
unfoldable pub erase_some : ℕ → (FilePath → Bool) → Files → Files
erase_some n inside [] = []
erase_some zero inside (e ∷ fs) = e ∷ fs
erase_some (suc n) inside ((p, node) ∷ fs) =
    let gone = erase_some n inside fs in
    let kept = (p, node) ∷ erase_some (suc n) inside fs in if inside p then gone else kept

unfoldable pub erase_under : (FilePath → Bool) → Files → Files
erase_under inside [] = []
erase_under inside ((p, node) ∷ fs) =
    let rest = erase_under inside fs in if inside p then rest else (p, node) ∷ rest

-- os.RemoveAll of the path `root`, where `inside` says which files are it or lie in it: a call that
-- fails may have removed a part.
unfoldable pub remove_all : (FilePath → Bool) → Bytes → Disk → Result FsError (Unit {0}) × Disk
remove_all inside root d =
    let d' = record d { faults = later d.faults } in
    let walked : Result FsError (Unit {0}) × Disk = elim (next_fault d.faults) [
      | none ↦ (ok tt, record d' { files = erase_under inside d.files })
      | some refused ↦ (err io_failure, d')
      | some (torn n) ↦ (err io_failure, record d' { files = erase_some n inside d.files })
    ] in
    if is_removable root then walked else if root == [] then (ok tt, d) else (err io_failure, d)

-- The paths that filepath.WalkDir visits.
unfoldable pub walk : (FilePath → Bool) → Files → List FilePath
walk inside [] = []
walk inside ((p, _) ∷ fs) = let rest = walk inside fs in if inside p then p ∷ rest else rest
