-- ===== src/Onboard/Install.antt =====
-- cmd/agent/onboard.go: install. The lines that it prints as it goes on are not modelled, and of a
-- dry run the two files that it shows.
pub mod Paths
pub mod Placing
pub mod Service
pub mod Polling
pub mod Driver
use shadow_twin.Prelude.{
  ℕ, zero, suc, ◌+◌, Bytes, codes, Bool, true, false, not, ◌&&◌, ◌||◌, Option, none, some, List, [],
  ◌∷◌, ◌++◌, ◌==◌, bytes_eq, ltb, if◌then◌else◌,
}
use shadow_twin.Text.{trim_slashes}
use shadow_twin.Fs.{FilePath, Disk, FsError, io_failure, Result, ok, err, write_file, mkdir_all}
use shadow_twin.Fs.Actions.{Action, ◌>>=◌, ◌>>◌, pure, fail, require, or_fail}
use shadow_twin.Onboard.{
  InstallOpts, Endpoints, endpoints_from_server, render_unit, env_file_content, obtain_ca,
  file_exists,
}
use shadow_twin.Onboard.Accounts.{nologin_shell, ensure_user, ensure_user_in_group}
use shadow_twin.Onboard.Host.{
  Host, World, Command, Failure, missing_flags, no_executable, no_ids, no_ca, unreachable,
  not_healthy, out_of_fuel, disk_call, require_root, run, is_active, perform, copy_executable,
  write_root_file, chown_tree, probe_tls,
}

abbrev pub bin_name : Bytes
bin_name = codes "shadowtwin-agent"

abbrev pub journal_group : Bytes
journal_group = codes "systemd-journal"

-- The flags of install.
pub record InstallArgs : Type 0 where
  pub server : Bytes
  pub token : Bytes
  pub ca_src : Bytes
  pub user_name : Bytes
  pub state_dir : Bytes
  pub dry_run : Bool

-- What install has done: shown the unit and the environment file, or installed the agent.
pub data Done : Type 0 where
  planned : Bytes → Bytes → Done
  installed : Done

-- What a round of the installer's waiting meets: how many seconds have gone by, besides the sleep,
-- since the round before (or since the deadline was set), the commands that have been run by then,
-- the agent's own and those of others, and the disk, which the agent changes.
pub record Health : Type 0 where
  pub took : ℕ
  pub history : List Command
  pub disk : Disk

module _ (w : World) where
  unfoldable pub opts_of : InstallArgs → InstallOpts
  opts_of a = record {
    server = trim_slashes a.server;
    token = a.token;
    user = a.user_name;
    bin_path = w.join (codes "/usr/local/bin") bin_name;
    state_dir = a.state_dir;
    env_file = w.join (codes "/etc/shadowtwin-agent") (codes "agent.env");
    unit_path = w.join (codes "/etc/systemd/system") (bin_name ++ codes ".service");
    svc_name = bin_name;
  }

  abbrev pub cert_dir_of : InstallOpts → Bytes
  cert_dir_of o = w.join o.state_dir (codes "certs")

  -- The environment file that install writes or shows.
  abbrev pub env_content : InstallOpts → Bytes
  env_content o =
      let e = endpoints_from_server o.server in env_file_content o e.enroll e.ingest e.renew

  -- The shell of a new account, and the account.
  unfoldable pub create_user : InstallOpts → Action Host Failure (Unit {0})
  create_user o h =
      let (shell, d) = nologin_shell w.locate h.disk in
      perform w (ensure_user (w.users h.commands) shell o.user) (record h { disk = d })

  -- A user that cannot be added to the journal's group is warned about only.
  unfoldable pub join_group : InstallOpts → Action Host Failure (Unit {0})
  join_group o h =
      let (_, h1) = perform w (ensure_user_in_group (w.users h.commands) o.user journal_group) h in
      (ok tt, h1)

  -- lookupIDs, where the numbers stay texts.
  unfoldable pub look_up_ids : InstallOpts → Action Host Failure (Bytes × Bytes)
  look_up_ids o h = or_fail (w.ids h.commands o.user) no_ids h

  -- The account and its numbers.
  unfoldable pub set_up_account : InstallOpts → Action Host Failure (Bytes × Bytes)
  set_up_account o = do create_user o; join_group o; look_up_ids o

  -- obtainCA as a step of install.
  unfoldable pub fetch_ca : Bytes → Bytes → Action Host Failure Bytes
  fetch_ca ca_src ca_url h =
      let ((ca, insecure), d) = obtain_ca w.fetcher w.locate ca_src ca_url h.disk in
      or_fail ca no_ca (record h { disk = d })

  -- The files that install places, from the binary to the unit.
  unfoldable pub place_files :
      Bytes → InstallOpts → Bytes → Bytes × Bytes → Action Host Failure Bytes
  place_files self o ca_src (uid, gid) = do
    disk_call (copy_executable w self o.bin_path)
    disk_call (mkdir_all (w.locate (cert_dir_of o)))
    ca_pem ← fetch_ca ca_src (endpoints_from_server o.server).ca
    disk_call (write_file (w.locate (w.join (cert_dir_of o) (codes "ca.crt"))) ca_pem 0o644)
    chown_tree w o.state_dir uid gid
    disk_call (write_root_file w o.env_file (env_content o) 0o600)
    disk_call (write_root_file w o.unit_path (render_unit o) 0o644)
    pure ca_pem

  unfoldable pub start_service : InstallOpts → Action Host Failure (Unit {0})
  start_service o = do
    run w (codes "systemctl" ∷ codes "daemon-reload" ∷ [])
    run w (codes "systemctl" ∷ codes "enable" ∷ codes "--now" ∷ o.svc_name ∷ [])

  -- install up to the start of the service.
  unfoldable pub set_up : Bytes → InstallOpts → Bytes → Action Host Failure Bytes
  set_up self o ca_src = do
    ids ← set_up_account o
    ca_pem ← place_files self o ca_src ids
    start_service o
    pure ca_pem

  -- verifyInstall: 25 seconds and 26 rounds.
  -- What the loop of verifyInstall asks.
  unfoldable pub is_up : InstallOpts → Health → Bool
  is_up o now =
      is_active w now.history o.svc_name
      && (file_exists (w.locate (w.join (cert_dir_of o) (codes "client.crt"))) now.disk).0

  -- The loop of verifyInstall, from a round on. A round that does not end it sleeps for a second.
  unfoldable pub wait_healthy :
      InstallOpts → (ℕ → Health) → ℕ → ℕ → ℕ → ℕ → Result Failure (Unit {0})
  wait_healthy o health zero round clock deadline = err out_of_fuel
  wait_healthy o health (suc fuel) round clock deadline =
      let now = clock + (health round).took in
      let rest = wait_healthy o health fuel (suc round) (now + 1) deadline in
      if ltb now deadline then (if is_up o (health round) then ok tt else rest) else err not_healthy

  unfoldable pub verify_install : (ℕ → Health) → InstallOpts → Bytes → Result Failure (Unit {0})
  verify_install health o ca_pem =
      if probe_tls w (endpoints_from_server o.server).ingest ca_pem
      then wait_healthy o health 26 0 w.now (w.now + 25)
      else err unreachable

  abbrev pub resolved : Bytes → Bytes
  resolved self = elim (w.eval_symlinks self) [ none ↦ self | some target ↦ target ]

  unfoldable pub carry_out : (ℕ → Health) → Bytes → InstallOpts → Bytes → Action Host Failure Done
  carry_out health self o ca_src = do
    require_root w
    ca_pem ← set_up self o ca_src
    λ h. (verify_install health o ca_pem, h)
    pure installed

  -- runInstall
  unfoldable pub run_install : (ℕ → Health) → InstallArgs → Action Host Failure Done
  run_install health a = do
    require (not (a.server == [] || a.token == [])) missing_flags
    self ← or_fail w.executable no_executable
    if a.dry_run
        then pure (planned (render_unit (opts_of a)) (env_content (opts_of a)))
        else carry_out health (resolved self) (opts_of a) a.ca_src
