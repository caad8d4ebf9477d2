-- ===== src/Auth/Lifecycle/Resuming.antt =====
-- internal/collectors/auth/auth.go: Start on a stored cursor.
use shadow_twin.Prelude.{
  ℕ, ◌≡◌, ◌≢◌, Bytes, codes, true, some, List, [], ◌∷◌, ◌++◌, arith, ap, ◌∙◌, bytes_eq,
}
use shadow_twin.Text.{trim_space}
use shadow_twin.Fs.{FilePath, Disk, ok, lookup, read_file, write_file}
use shadow_twin.Fs.Effects.{write_file-Writes, untouched, partly, whole}
use shadow_twin.Fs.Successes.{Holds, rename-ok}
use shadow_twin.Fs.Laws.{lookup-insert_self}
use shadow_twin.Auth.{read_cursor, write_cursor, journalctl_args, tmp_path}
use shadow_twin.Auth.Scan.Cursor.{stored, write_cursor-read_cursor}
use shadow_twin.Auth.Lifecycle.{Collector, Exec, start}

-- What journalctl is asked for after an entry.
abbrev pub resume_args : Bytes → List Bytes
resume_args cursor =
    codes "--output=json"
    ∷ codes "--follow"
    ∷ (codes "--after-cursor=" ++ cursor)
    ∷ codes "SYSLOG_FACILITY=4"
    ∷ codes "SYSLOG_FACILITY=10"
    ∷ []

journalctl_args-resume :
    (cursor : Bytes) → cursor ≢ [] → journalctl_args cursor ≡ resume_args cursor
unfolding journalctl_args
journalctl_args-resume cursor n = ground (arith, n)

write_cursor-Holds :
    (p : FilePath) (cursor : Bytes) (d d' : Disk)
    → write_cursor p cursor d ≡ (ok tt, d')
    → (m : ℕ) × Holds p m (stored cursor) d'.files
unfolding write_cursor
write_cursor-Holds p cursor d d' h = elim (write_file-Writes (tmp_path p) (stored cursor) 0o600 d) [
  | untouched e r f ↦ absurd (ground (arith, r, h))
  | partly e m k r f ↦ absurd (ground (arith, r, h))
  | whole m r f ↦ (
    m,
    rename-ok (tmp_path p) p m (stored cursor) (write_file (tmp_path p) (stored cursor) 0o600 d).1
        d' (ground (arith, r, h))
        (ap (lookup (tmp_path p)) f ∙ lookup-insert_self (tmp_path p) _ d.files),
  )
]

pub start-stored :
    (x : Exec) (path : Bytes) (c : Collector) (cursor : Bytes) (m : ℕ) (d : Disk)
    → trim_space cursor ≡ cursor
    → cursor ≢ []
    → Holds c.cursor_file m (stored cursor) d.files
    → d.faults ≡ []
    → x.look_path (codes "journalctl") ≡ some path
    → x.has_pipe ≡ true
    → x.starts ≡ true
    → (start x c d).0.0 ≡ ok (record { path = path; args = resume_args cursor })
unfolding start
start-stored x path c cursor m d t n l calm found pipe comes =
    let read = write_cursor-read_cursor c.cursor_file cursor m d t l calm in
    ground (arith, found, pipe, comes, read, journalctl_args-resume cursor n)

pub start-same :
    (x : Exec) (c : Collector) (d e : Disk)
    → lookup c.cursor_file e.files ≡ lookup c.cursor_file d.files
    → d.faults ≡ []
    → e.faults ≡ []
    → (start x c e).0.0 ≡ (start x c d).0.0
unfolding start read_cursor read_file
start-same x c d e l calm calm' = ground (arith, l, calm, calm')

-- If writeCursor has stored a cursor that is not empty and has no white space around it, a later
-- Start on the same files starts journalctl with the arguments that resume after this cursor, when
-- no call fails and journalctl can be found and started.
pub write_cursor-start :
    (x : Exec) (path : Bytes) (c : Collector) (cursor : Bytes) (d d' d'' : Disk)
    → trim_space cursor ≡ cursor
    → cursor ≢ []
    → write_cursor c.cursor_file cursor d ≡ (ok tt, d')
    → d''.files ≡ d'.files
    → d''.faults ≡ []
    → x.look_path (codes "journalctl") ≡ some path
    → x.has_pipe ≡ true
    → x.starts ≡ true
    → (start x c d'').0.0 ≡ ok (record { path = path; args = resume_args cursor })
write_cursor-start x path c cursor d d' d'' t n wrote same calm found pipe comes =
    let (m, l) = write_cursor-Holds c.cursor_file cursor d d' wrote in
    start-stored x path c cursor m d'' t n (ap (lookup c.cursor_file) same ∙ l) calm found pipe
      comes
