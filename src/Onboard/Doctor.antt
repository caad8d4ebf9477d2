-- ===== src/Onboard/Doctor.antt =====
-- cmd/agent/onboard.go: status and doctor. The wording of their lines is not modelled.
pub mod Verdict
pub mod Lines
use shadow_twin.Prelude.{
  ℕ, zero, suc, ◌+◌, ◌*◌, Bytes, codes, Bool, true, false, not, Option, none, some, List, [], ◌∷◌,
  ◌++◌, ◌==◌, bytes_eq, ltb, leb, if◌then◌else◌,
}
use shadow_twin.Fs.{Disk, FsError, Result, ok, err, read_file}
use shadow_twin.Onboard.{Env, EnvError, parse_env_file, env_value, env_or, queue_depth, file_exists}
use shadow_twin.Onboard.Accounts.{Users, user_in_group}
use shadow_twin.Onboard.Host.{Host, World, Command, cmd_out, is_active, probe_tls, cert_not_after}
use shadow_twin.Onboard.Install.{bin_name, journal_group}

abbrev pub default_user : Bytes
default_user = codes "shadowtwin"

abbrev pub default_state_dir : Bytes
default_state_dir = codes "/var/lib/shadowtwin-agent"

-- What a line of doctor is about.
pub data Item : Type 0 where
  binary_installed user_exists in_group config_present : Item
  cert_not_expired cert_near_expiry cert_valid cert_present : Item
  platform_reachable endpoint_unknown service_active systemctl_missing : Item

pub data Mark : Type 0 where
  pass failed warned : Mark

abbrev pub Line : Type 0
Line = Item × Mark

-- check and warn
abbrev pub check : Item → Bool → Line
check item b = (item, (if b then pass else failed))

abbrev pub warn : Item → Line
warn item = (item, warned)

-- The counter fails.
unfoldable pub count_failed : List Line → ℕ
count_failed [] = 0
count_failed ((item, pass) ∷ ls) = count_failed ls
count_failed ((item, failed) ∷ ls) = suc (count_failed ls)
count_failed ((item, warned) ∷ ls) = count_failed ls

-- Seven days in seconds.
abbrev week : ℕ
week = 7 * 24 * 60 * 60

-- What status prints.
pub record Status : Type 0 where
  pub binary : Bool
  pub active : Bytes
  pub enabled : Bytes
  pub cert : Option ℕ
  pub endpoint : Bytes
  pub queue : ℕ

-- The lines on the account.
unfoldable pub user_lines : Users → List Line
user_lines u =
    if u.user_exists default_user
    then check user_exists true ∷ check in_group (user_in_group u default_user journal_group) ∷ []
    else check user_exists false ∷ []

abbrev pub ca_bytes : Result FsError Bytes → Bytes
ca_bytes (ok b) = b
ca_bytes (err e) = []

abbrev pub is_nil : Option EnvError → Bool
is_nil none = true
is_nil (some e) = false

-- The lines of doctor, the number that it prints after them, and the lines that failed: it exits
-- with 1 where there are some.
pub record Report : Type 0 where
  pub lines : List Line
  pub buffered : ℕ
  pub fails : ℕ

module _ (w : World) where
  abbrev pub installed_bin : Bytes
  installed_bin = w.join (codes "/usr/local/bin") bin_name

  abbrev pub env_path : Bytes
  env_path = w.join (codes "/etc/shadowtwin-agent") (codes "agent.env")

  abbrev pub cert_path : Bytes → Bytes
  cert_path state_dir = w.join (w.join state_dir (codes "certs")) (codes "client.crt")

  abbrev pub ca_path : Bytes → Bytes
  ca_path state_dir = w.join (w.join state_dir (codes "certs")) (codes "ca.crt")

  -- runStatus
  unfoldable pub run_status : List Command → Disk → Status × Disk
  run_status history d =
      let (there, d1) = file_exists (w.locate installed_bin) d in
      let ((env, _), d2) = parse_env_file (w.locate env_path) d1 in
      let state_dir = env_or env (codes "HOST_AGENT_STATE_DIR") default_state_dir in
      let (cert, d3) = cert_not_after w (cert_path state_dir) d2 in
      let (depth, d4) = queue_depth (w.join state_dir (codes "queue")) d3 in
      (
        record {
          binary = there;
          active = cmd_out w history (codes "systemctl" ∷ codes "is-active" ∷ bin_name ∷ []);
          enabled = cmd_out w history (codes "systemctl" ∷ codes "is-enabled" ∷ bin_name ∷ []);
          cert = cert;
          endpoint = env_or env (codes "INGEST_ENDPOINT") (codes "(unset)");
          queue = depth;
        },
        d4,
      )

  -- The line on the client certificate.
  unfoldable pub cert_line : Option ℕ → Line
  cert_line none = check cert_present false
  cert_line (some not_after) =
      if leb not_after w.now
      then check cert_not_expired false
      else if ltb not_after (w.now + week)
      then warn cert_near_expiry
      else check cert_valid true

  -- The line on the platform: its CA is read only where the endpoint is known.
  unfoldable pub platform_line : Bytes → Bytes → Disk → Line × Disk
  platform_line ingest state_dir d =
      if ingest == []
      then (warn endpoint_unknown, d)
      else let (r, d1) = read_file (w.locate (ca_path state_dir)) d in
        (check platform_reachable (probe_tls w ingest (ca_bytes r)), d1)

  unfoldable pub service_line : Users → List Command → Line
  service_line u history =
      if u.command_exists (codes "systemctl")
      then check service_active (is_active w history bin_name)
      else warn systemctl_missing

  -- runDoctor
  unfoldable pub run_doctor : List Command → Disk → Report × Disk
  run_doctor history d =
      let (there, d1) = file_exists (w.locate installed_bin) d in
      let ((env, env_err), d2) = parse_env_file (w.locate env_path) d1 in
      let state_dir = env_or env (codes "HOST_AGENT_STATE_DIR") default_state_dir in
      let (cert, d3) = cert_not_after w (cert_path state_dir) d2 in
      let (platform, d4) = platform_line (env_value env (codes "INGEST_ENDPOINT")) state_dir d3 in
      let (depth, d5) = queue_depth (w.join state_dir (codes "queue")) d4 in
      let lines =
        check binary_installed there
        ∷ (user_lines (w.users history)
            ++ (check config_present (is_nil env_err)
                ∷ cert_line cert
                ∷ platform
                ∷ service_line (w.users history) history
                ∷ [])) in
      (record { lines = lines; buffered = depth; fails = count_failed lines }, d5)
