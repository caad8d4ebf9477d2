-- ===== src/Onboard/Install/Paths.antt =====
-- cmd/agent/onboard.go: what the installer's calls on the disk leave when they succeed.
use shadow_twin.Prelude.{ℕ, ◌≡◌, ◌≢◌, Bytes, codes, ◌++◌, ap, ◌∙◌}
use shadow_twin.Fs.{FilePath, path_eq, file, lookup, Disk, ok, read_file, write_file, mkdir_all}
use shadow_twin.Fs.Laws.{lookup-insert_self, lookup-insert_ne}
use shadow_twin.Fs.Effects.{read_file-found}
use shadow_twin.Fs.Trees.{chmod}
use shadow_twin.Fs.Actions.{>>=-eq-ok, >>-eq-ok}
use shadow_twin.Onboard.Host.{World, copy_executable, write_root_file}
use shadow_twin.Fs.Successes.{
  Holds, write_file-ok, chmod-ok, chmod-other, mkdir_all-other, rename-ok,
}

module _ (w : World) (d d' : Disk) where
  -- copyExecutable: the whole file is there, and can be run.
  pub copy_executable-ok :
      (src dst : Bytes)
      → copy_executable w src dst d ≡ (ok tt, d')
      → (exe : Bytes) × ((m : ℕ) × Holds (w.locate src) m exe d.files)
        × Holds (w.locate dst) 0o755 exe d'.files
  unfolding copy_executable
  copy_executable-ok src dst h =
      let tmp = w.locate (dst ++ codes ".tmp") in
      let (exe, d1, read, h1) = >>=-eq-ok (read_file (w.locate src)) _ d d' h in
      let (_, d2, wrote, h2) = >>-eq-ok (write_file tmp exe 0o755) _ d1 d' h1 in
      let (_, d3, changed, renamed) = >>-eq-ok (chmod tmp 0o755) _ d2 d' h2 in
      let found = read_file-found (w.locate src) d exe (ap (λ x. x.0) read) in
      let (k, e2) = write_file-ok tmp exe 0o755 d1 d2 wrote in
      let l2 : Holds tmp k exe d2.files =
        ap (lookup tmp) e2 ∙ lookup-insert_self tmp (file k exe) d1.files in
      let l3 = chmod-ok tmp exe 0o755 d2 d3 k changed l2 in
      (exe, found, rename-ok tmp (w.locate dst) 0o755 exe d3 d' renamed l3)

  -- writeRootFile: the file has the content and the mode, whatever mode it had before.
  pub write_root_file-ok :
      (path content : Bytes) (mode : ℕ)
      → write_root_file w path content mode d ≡ (ok tt, d')
      → Holds (w.locate path) mode content d'.files
        × ((q : FilePath) (k : ℕ) (b : Bytes)
            → q ≢ w.locate path
            → Holds q k b d.files
            → Holds q k b d'.files)
  unfolding write_root_file
  write_root_file-ok path content mode h =
      let p = w.locate path in
      let (_, d1, made, h1) = >>-eq-ok (mkdir_all (w.locate (w.dir_of path))) _ d d' h in
      let (_, d2, wrote, changed) = >>-eq-ok (write_file p content mode) _ d1 d' h1 in
      let (k, e2) = write_file-ok p content mode d1 d2 wrote in
      let l2 : Holds p k content d2.files =
        ap (lookup p) e2 ∙ lookup-insert_self p (file k content) d1.files in
      (
        chmod-ok p content mode d2 d' k changed l2,
        λ q j b n l. chmod-other p content mode d2 d' q j b n changed (
            ap (lookup q) e2
            ∙ (lookup-insert_ne q p (file k content) d1.files n
                ∙ mkdir_all-other (w.locate (w.dir_of path)) d d1 q j b made l)),
      )
