-- ===== src/Auth.antt =====
-- internal/collectors/auth: the collector that follows the journal, its entries and its cursor.
pub mod Entry
pub mod Scan
pub mod Lifecycle
use shadow_twin.Prelude.{
  ℕ, Bytes, codes, Option, none, some, List, [], ◌∷◌, ◌++◌, map, ◌==◌, bytes_eq, if◌then◌else◌,
}
use shadow_twin.Text.{trim_space}
use shadow_twin.Fs.{
  FilePath, not_exist, io_failure, FsError, Result, ok, err, Disk, read_file, write_file, rename,
}

abbrev pub name : Bytes
name = codes "auth.journald"

abbrev pub auth_facilities : List Bytes
auth_facilities = codes "4" ∷ codes "10" ∷ []

-- New
abbrev pub cursor_path : Bytes → FilePath
cursor_path state_dir = record { dir = state_dir; name = codes "auth.journald.cursor" }

abbrev pub tmp_path : FilePath → FilePath
tmp_path p = record { dir = p.dir; name = p.name ++ codes ".tmp" }

-- journalctlArgs
unfoldable pub journalctl_args : Bytes → List Bytes
journalctl_args cursor =
    codes "--output=json"
    ∷ codes "--follow"
    ∷ (if cursor == [] then codes "--lines=0" else codes "--after-cursor=" ++ cursor)
    ∷ map (λ f. codes "SYSLOG_FACILITY=" ++ f) auth_facilities

-- readCursor
unfoldable pub read_cursor : FilePath → Disk → Result FsError Bytes × Disk
read_cursor p d =
    let (r, d1) = read_file p d in
    elim r [
      | err not_exist ↦ (ok [], d1)
      | err io_failure ↦ (err io_failure, d1)
      | ok b ↦ (ok (trim_space b), d1)
    ]

-- writeCursor
unfoldable pub write_cursor : FilePath → Bytes → Disk → Result FsError (Unit {0}) × Disk
write_cursor p cursor d =
    let (r, d1) = write_file (tmp_path p) (cursor ++ codes "\n") 0o600 d in
    elim r [ err e ↦ (err e, d1) | ok _ ↦ rename (tmp_path p) p d1 ]
