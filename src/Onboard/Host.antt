-- ===== src/Onboard/Host.antt =====
-- cmd/agent/onboard.go: the host that the commands act on, and the helpers that run its tools.
use shadow_twin.Prelude.{
  ℕ, Bytes, codes, Bool, false, Option, none, some, List, [], ◌∷◌, ◌++◌, ◌==◌, ◌||◌, nat_eq,
  bytes_eq, if◌then◌else◌,
}
use shadow_twin.Text.{trim_space}
use shadow_twin.Fs.{
  FilePath, Disk, FsError, Result, ok, err, read_file, next_fault, later, write_file, rename,
  mkdir_all,
}
use shadow_twin.Fs.Trees.{chmod, walk}
use shadow_twin.Fs.Actions.{Action, ◌>>=◌, ◌>>◌, pure, fail}
use shadow_twin.Onboard.{Fetcher}
use shadow_twin.Onboard.Accounts.{Users, Setup, nothing_to_do, missing_tool, missing_group, command}

-- A command with its arguments.
abbrev pub Command : Type 0
Command = List Bytes

-- What the commands change: the disk, the tools that they have run, the last first, and the owners
-- that they have given to paths.
pub record Host : Type 0 where
  pub disk : Disk
  pub commands : List Command
  pub owners : List (FilePath × Bytes × Bytes)

-- What packages os, os/exec, os/user, net/http, crypto and path/filepath answer. The tools and the
-- accounts may change with the commands that have been run. `inside` is the resolution of paths:
-- whether a file is the one that a string names, or lies in the folder that it names, however the
-- string is written; as os.RemoveAll and filepath.WalkDir do, it does not follow a link at the end. `runs` is whether a command exits with
-- 0, `output` what it prints, `ids` the user's and the group's number, `dial` a TLS handshake with
-- a host, under a name, that trusts a CA or anything, and `cert_expiry` the end of the life of a
-- certificate.
pub record World : Type 0 where
  pub executable : Option Bytes
  pub eval_symlinks : Bytes → Option Bytes
  pub euid : ℕ
  pub join : Bytes → Bytes → Bytes
  pub dir_of : Bytes → Bytes
  pub locate : Bytes → FilePath
  pub inside : Bytes → FilePath → Bool
  pub users : List Command → Users
  pub ids : List Command → Bytes → Option (Bytes × Bytes)
  pub runs : List Command → Command → Bool
  pub output : List Command → Command → Bytes
  pub fetcher : Fetcher
  pub parse_url : Bytes → Option (Bytes × Bytes)
  pub ca_pool : Bytes → Bool
  pub dial : Bytes → Bytes → Option Bytes → Bool
  pub pem_block : Bytes → Option Bytes
  pub cert_expiry : Bytes → Option ℕ
  pub now : ℕ

-- The ways in which a command ends with an error.
pub data Failure : Type 0 where
  missing_flags no_executable not_root : Failure
  no_user no_ids no_ca unreachable not_healthy out_of_fuel : Failure
  on_disk : FsError → Failure
  tool_failed : Command → Failure
  checks_failed : ℕ → Failure

-- A call on the disk as a step of a command.
unfoldable pub disk_call : {A : Type 0} → (Disk → Result FsError A × Disk) → Action Host Failure A
disk_call call h =
    let (r, d) = call h.disk in
    elim r [
      | err e ↦ (err (on_disk e), record h { disk = d })
      | ok a ↦ (ok a, record h { disk = d })
    ]

-- chownTree on the paths that WalkDir visits; the first call that fails ends it.
unfoldable pub chown_all : Bytes → Bytes → List FilePath → Action Host FsError (Unit {0})
chown_all uid gid [] h = (ok tt, h)
chown_all uid gid (p ∷ ps) h =
    let d = record (h.disk) { faults = later h.disk.faults } in
    let rest = chown_all uid gid ps (record h { disk = d; owners = (p, uid, gid) ∷ h.owners }) in
    elim (next_fault h.disk.faults) [
      | some _ ↦ (err FsError.io_failure, record h { disk = d })
      | none ↦ rest
    ]

abbrev has_colon : Bytes → Bool
has_colon [] = false
has_colon (c ∷ s) = c == b':' || has_colon s

module _ (w : World) where
  -- requireRoot
  unfoldable pub require_root : Action Host Failure (Unit {0})
  unfolding nat_eq
  require_root h = if w.euid == 0 then (ok tt, h) else (err not_root, h)

  -- run
  unfoldable pub run : Command → Action Host Failure (Unit {0})
  run c h =
      let h1 = record h { commands = c ∷ h.commands } in
      if w.runs h.commands c then (ok tt, h1) else (err (tool_failed c), h1)

  -- cmdOut
  unfoldable pub cmd_out : List Command → Command → Bytes
  cmd_out history c =
      let s = trim_space (w.output history c) in if s == [] then codes "unknown" else s

  -- isActive
  unfoldable pub is_active : List Command → Bytes → Bool
  unfolding bytes_eq
  is_active history svc =
      trim_space (w.output history (codes "systemctl" ∷ codes "is-active" ∷ svc ∷ []))
      == codes "active"

  -- What ensureUser and ensureUserInGroup do after their tests.
  unfoldable pub perform : Setup → Action Host Failure (Unit {0})
  unfolding run
  perform nothing_to_do = pure tt
  perform (missing_tool tool) = fail no_user
  perform (missing_group group) = fail no_user
  perform (command c) = run c

  -- copyExecutable
  unfoldable pub copy_executable : Bytes → Bytes → Action Disk FsError (Unit {0})
  copy_executable src dst = do
    content ← read_file (w.locate src)
    write_file (w.locate (dst ++ codes ".tmp")) content 0o755
    chmod (w.locate (dst ++ codes ".tmp")) 0o755
    rename (w.locate (dst ++ codes ".tmp")) (w.locate dst)

  -- writeRootFile
  unfoldable pub write_root_file : Bytes → Bytes → ℕ → Action Disk FsError (Unit {0})
  write_root_file path content mode = do
    mkdir_all (w.locate (w.dir_of path))
    write_file (w.locate path) content mode
    chmod (w.locate path) mode

  unfoldable pub chown_tree : Bytes → Bytes → Bytes → Action Host Failure (Unit {0})
  chown_tree root uid gid h =
      let (r, h1) = chown_all uid gid (walk (w.inside root) h.disk.files) h in
      elim r [ err e ↦ (err (on_disk e), h1) | ok _ ↦ (ok tt, h1) ]

  -- probeTLS
  unfoldable pub probe_tls : Bytes → Bytes → Bool
  unfolding nat_eq bytes_eq
  probe_tls endpoint ca_pem = elim (w.parse_url endpoint) [
    | none ↦ false
    | some (host, hostname) ↦
        let address = if has_colon host then host else host ++ codes ":443" in
        if ca_pem == []
        then w.dial address hostname none
        else if w.ca_pool ca_pem
        then w.dial address hostname (some ca_pem)
        else false
  ]

  -- certNotAfter
  unfoldable pub cert_not_after : Bytes → Disk → Option ℕ × Disk
  cert_not_after path d =
      let (r, d1) = read_file (w.locate path) d in
      elim r [
        | err _ ↦ (none, d1)
        | ok b ↦ elim (w.pem_block b) [ none ↦ (none, d1) | some der ↦ (w.cert_expiry der, d1) ]
      ]
