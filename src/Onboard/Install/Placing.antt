-- ===== src/Onboard/Install/Placing.antt =====
-- cmd/agent/onboard.go: the files that install places.
use shadow_twin.Prelude.{
  inl, inr, ℕ, ◌≡◌, refl, ◌≢◌, Bytes, codes, some, List, [], ◌∷◌, arith, ap, sym, ◌∙◌, bytes_eq,
}
use mathlib.Core.Path.{subst}
use shadow_twin.Fs.{
  FilePath, Files, lookup, Disk, FsError, Result, ok, later, mkdir_all, write_file,
}
use shadow_twin.Fs.Laws.{lookup-insert_self, lookup-insert_ne}
use shadow_twin.Fs.Effects.{files-read_file}
use shadow_twin.Fs.Actions.{Action, ◌>>=◌, ◌>>◌, >>=-eq-ok, >>-eq-ok, >>=-split}
use shadow_twin.Fs.Trees.{walk}
use shadow_twin.Onboard.{InstallOpts, endpoints_from_server, render_unit, obtain_ca}
use shadow_twin.Onboard.Host.{
  World, Host, copy_executable, write_root_file, Failure, disk_call, chown_all, chown_tree,
}
use shadow_twin.Onboard.Install.{cert_dir_of, env_content, fetch_ca, place_files}
use shadow_twin.Onboard.Install.Paths.{copy_executable-ok, write_root_file-ok}
use shadow_twin.Fs.Successes.{Holds, write_file-ok, mkdir_all-other}

disk_call-ok :
    {A : Type 0} (call : Disk → Result FsError A × Disk) (h h' : Host) {a : A}
    → disk_call call h ≡ (ok a, h')
    → call h.disk ≡ (ok a, h'.disk)
unfolding disk_call
disk_call-ok call h h' e = ground (arith, e)

-- A step that runs no tool, however it ends.
abbrev IsQuiet : {A : Type 0} → Action Host Failure A → Type 0
IsQuiet m = (h : Host) → (m h).1.commands ≡ h.commands

>>=-IsQuiet :
    {A B : Type 0} (m : Action Host Failure A) (f : A → Action Host Failure B)
    → IsQuiet m
    → ((a : A) → IsQuiet (f a))
    → IsQuiet (m >>= f)
>>=-IsQuiet m f q k h = elim (>>=-split m f h) [
  | inl (e, g, r, t) ↦ ap (λ x. x.1.commands) t ∙ (sym (ap (λ x. x.1.commands) r) ∙ q h)
  | inr (a, g, r, t) ↦ ap (λ x. x.1.commands) t ∙ (k a g ∙ (sym (ap (λ x. x.1.commands) r) ∙ q h))
]

>>-IsQuiet :
    {A B : Type 0} (m : Action Host Failure A) (n : Action Host Failure B)
    → IsQuiet m
    → IsQuiet n
    → IsQuiet (m >> n)
unfolding ◌>>◌
>>-IsQuiet m n q k = >>=-IsQuiet m (λ _. n) q (λ _. k)

-- The end of the chain.
same_end :
    (h h' : Host) {a b : Bytes}
    → ◌≡◌ {A = Result Failure Bytes × Host} (ok a, h) (ok b, h')
    → ◌≡◌ {A = Bytes × Files} (a, h.disk.files) (b, h'.disk.files)
same_end h h' e = cc

disk_call-IsQuiet : {A : Type 0} (call : Disk → Result FsError A × Disk) → IsQuiet (disk_call call)
unfolding disk_call
disk_call-IsQuiet call h = ground arith

chown_all-files :
    (uid gid : Bytes) (ps : List FilePath) (h : Host)
    → ((chown_all uid gid ps h).1.disk.files ≡ h.disk.files)
      × ((chown_all uid gid ps h).1.commands ≡ h.commands)
unfolding chown_all
chown_all-files uid gid [] h = (refl, refl)
chown_all-files uid gid (p ∷ ps) h = ground (
  arith,
  chown_all-files uid gid ps (record h {
    disk = record (h.disk) { faults = later h.disk.faults };
    owners = (p, uid, gid) ∷ h.owners;
  }),
)

module _ (w : World) where
  chown_tree-files :
      (root uid gid : Bytes) (h : Host)
      → ((chown_tree w root uid gid h).1.disk.files ≡ h.disk.files)
        × ((chown_tree w root uid gid h).1.commands ≡ h.commands)
  unfolding chown_tree
  chown_tree-files root uid gid h =
      let k = chown_all-files uid gid (walk (w.inside root) h.disk.files) h in
      (ground (arith, k), ground (arith, k))

  obtain_ca-files :
      (ca_src ca_url : Bytes) (d : Disk)
      → (obtain_ca w.fetcher w.locate ca_src ca_url d).1.files ≡ d.files
  unfolding obtain_ca
  obtain_ca-files ca_src ca_url d = ground (arith, files-read_file (w.locate ca_src) d)

  fetch_ca-IsQuiet : (ca_src ca_url : Bytes) → IsQuiet (fetch_ca w ca_src ca_url)
  unfolding fetch_ca
  fetch_ca-IsQuiet ca_src ca_url h = ground arith

  fetch_ca-ok :
      (ca_src ca_url ca_pem : Bytes) (h h' : Host)
      → fetch_ca w ca_src ca_url h ≡ (ok ca_pem, h')
      → ((obtain_ca w.fetcher w.locate ca_src ca_url h.disk).0.0 ≡ some ca_pem)
        × (h'.disk.files ≡ h.disk.files)
  unfolding fetch_ca
  fetch_ca-ok ca_src ca_url ca_pem h h' e =
      let k = obtain_ca-files ca_src ca_url h.disk in (ground (arith, e, k), ground (arith, e, k))

  module _ (self : Bytes) (o : InstallOpts) (ca_src : Bytes) where
    abbrev pub ca_file : FilePath
    ca_file = w.locate (w.join (cert_dir_of w o) (codes "ca.crt"))

    -- The four files of the installer stand at paths of their own.
    pub record IsApart : Type 0 where
      pub bin_ca : w.locate o.bin_path ≢ ca_file
      pub bin_env : w.locate o.bin_path ≢ w.locate o.env_file
      pub bin_unit : w.locate o.bin_path ≢ w.locate o.unit_path
      pub ca_env : ca_file ≢ w.locate o.env_file
      pub ca_unit : ca_file ≢ w.locate o.unit_path
      pub env_unit : w.locate o.env_file ≢ w.locate o.unit_path

    -- The binary is a whole copy and can be run, the CA is one that obtainCA has given, the
    -- environment file is what install renders and only its owner can read it, and the unit is what
    -- install renders.
    pub record Placed (before : Files) (ca_pem : Bytes) (after : Files) : Type 0 where
      pub exe : Bytes
      pub copied : (m : ℕ) × Holds (w.locate self) m exe before
      pub binary : Holds (w.locate o.bin_path) 0o755 exe after
      pub obtained :
          (d : Disk) × ((obtain_ca w.fetcher w.locate ca_src
              (endpoints_from_server o.server).ca
              d).0.0
            ≡ some ca_pem)
      pub ca : (m : ℕ) × Holds ca_file m ca_pem after
      pub env : Holds (w.locate o.env_file) 0o600 (env_content w o) after
      pub unit : Holds (w.locate o.unit_path) 0o644 (render_unit o) after

    pub place_files-IsQuiet : (ids : Bytes × Bytes) → IsQuiet (place_files w self o ca_src ids)
    unfolding place_files
    place_files-IsQuiet (uid, gid) = >>-IsQuiet _ _ (disk_call-IsQuiet _) (
        >>-IsQuiet _ _ (disk_call-IsQuiet _) (
          >>=-IsQuiet _ _ (fetch_ca-IsQuiet ca_src _) (λ ca_pem.
            >>-IsQuiet _ _ (disk_call-IsQuiet _) (
              >>-IsQuiet _ _ (λ h. (chown_tree-files o.state_dir uid gid h).1)
                (>>-IsQuiet _ _ (disk_call-IsQuiet _)
                  (>>-IsQuiet _ _ (disk_call-IsQuiet _) (λ h. refl)))))))

    module _ (h h1 h2 h3 h4 h5 h6 h7 : Host) (ca_pem : Bytes) (uid gid : Bytes) where
      -- The steps of the chain, one after the other.
      Placed-steps :
          IsApart
          → disk_call (copy_executable w self o.bin_path) h ≡ (ok tt, h1)
          → disk_call (mkdir_all (w.locate (cert_dir_of w o))) h1 ≡ (ok tt, h2)
          → fetch_ca w ca_src (endpoints_from_server o.server).ca h2 ≡ (ok ca_pem, h3)
          → disk_call (write_file ca_file ca_pem 0o644) h3 ≡ (ok tt, h4)
          → chown_tree w o.state_dir uid gid h4 ≡ (ok tt, h5)
          → disk_call (write_root_file w o.env_file (env_content w o) 0o600) h5 ≡ (ok tt, h6)
          → disk_call (write_root_file w o.unit_path (render_unit o) 0o644) h6 ≡ (ok tt, h7)
          → Placed h.disk.files ca_pem h7.disk.files
      Placed-steps apart copied made fetched wrote chowned env_wrote unit_wrote =
          let bin = w.locate o.bin_path in
          let (exe, found, bin1) =
            copy_executable-ok w h.disk h1.disk self o.bin_path (disk_call-ok _ h h1 copied) in
          let bin2 =
            mkdir_all-other (w.locate (cert_dir_of w o)) h1.disk h2.disk bin 0o755 exe
              (disk_call-ok _ h1 h2 made) bin1 in
          let (got, same3) = fetch_ca-ok ca_src _ ca_pem h2 h3 fetched in
          let (k, put) =
            write_file-ok ca_file ca_pem 0o644 h3.disk h4.disk (disk_call-ok _ h3 h4 wrote) in
          let same5 : h5.disk.files ≡ h4.disk.files =
            ap (λ x. x.1.disk.files) (sym chowned) ∙ (chown_tree-files o.state_dir uid gid h4).0 in
          let bin5 : Holds bin 0o755 exe h5.disk.files =
            ap (lookup bin) (same5 ∙ put)
            ∙ (lookup-insert_ne bin ca_file _ h3.disk.files apart.bin_ca
                ∙ (ap (lookup bin) same3 ∙ bin2)) in
          let ca5 : Holds ca_file k ca_pem h5.disk.files =
            ap (lookup ca_file) (same5 ∙ put) ∙ lookup-insert_self ca_file _ h3.disk.files in
          let (env6, keep6) =
            write_root_file-ok w h5.disk h6.disk o.env_file (env_content w o) 0o600
              (disk_call-ok _ h5 h6 env_wrote) in
          let (unit7, keep7) =
            write_root_file-ok w h6.disk h7.disk o.unit_path (render_unit o) 0o644
              (disk_call-ok _ h6 h7 unit_wrote) in
          record {
            exe = exe;
            copied = found;
            binary = keep7 bin 0o755 exe apart.bin_unit (keep6 bin 0o755 exe apart.bin_env bin5);
            obtained = (h2.disk, got);
            ca =
                (k, keep7 ca_file k ca_pem apart.ca_unit (keep6 ca_file k ca_pem apart.ca_env ca5));
            env = keep7 (w.locate o.env_file) 0o600 _ apart.env_unit env6;
            unit = unit7;
          }

    pub place_files-Placed :
        (ids : Bytes × Bytes) (h h' : Host) {ca_pem : Bytes}
        → IsApart
        → place_files w self o ca_src ids h ≡ (ok ca_pem, h')
        → Placed h.disk.files ca_pem h'.disk.files
    unfolding place_files
    place_files-Placed (uid, gid) h h' apart e =
        let (_, h1, copied, e1) = >>-eq-ok _ _ h h' e in
        let (_, h2, made, e2) = >>-eq-ok _ _ h1 h' e1 in
        let (ca_pem, h3, fetched, e3) = >>=-eq-ok _ _ h2 h' e2 in
        let (_, h4, wrote, e4) = >>-eq-ok _ _ h3 h' e3 in
        let (_, h5, chowned, e5) = >>-eq-ok _ _ h4 h' e4 in
        let (_, h6, env_wrote, e6) = >>-eq-ok _ _ h5 h' e5 in
        let (_, h7, unit_wrote, e7) = >>-eq-ok _ _ h6 h' e6 in
        subst (λ x. Placed h.disk.files x.0 x.1) (same_end h7 h' e7)
          (Placed-steps h h1 h2 h3 h4 h5 h6 h7 ca_pem uid gid apart copied made fetched wrote
            chowned env_wrote unit_wrote)
