-- ===== src/Onboard/Uninstall.antt =====
-- cmd/agent/onboard.go: uninstall. What it prints is not modelled.
pub mod Removal
use shadow_twin.Prelude.{Bytes, codes, Bool, true, false, ◌&&◌, List, [], ◌∷◌, ◌++◌, if◌then◌else◌}
use shadow_twin.Fs.{Result, ok, err, remove}
use shadow_twin.Fs.Trees.{remove_all}
use shadow_twin.Fs.Actions.{Action, ◌>>◌, pure}
use shadow_twin.Onboard.Accounts.{Users}
use shadow_twin.Onboard.Host.{Host, World, Failure, disk_call, require_root, run}
use shadow_twin.Onboard.Install.{bin_name}

abbrev pub env_dir : Bytes
env_dir = codes "/etc/shadowtwin-agent"

-- A step whose error nobody looks at.
unfoldable pub ignoring : {A : Type 0} → Action Host Failure A → Action Host Failure (Unit {0})
ignoring m h = (ok tt, (m h).1)

module _ (w : World) where
  abbrev pub unit_path : Bytes
  unit_path = w.join (codes "/etc/systemd/system") (bin_name ++ codes ".service")

  abbrev pub bin_path : Bytes
  bin_path = w.join (codes "/usr/local/bin") bin_name

  -- The account goes where it and userdel are there.
  unfoldable pub remove_user : Bytes → Action Host Failure (Unit {0})
  unfolding ignoring
  remove_user user_name h =
      let users = w.users h.commands in
      if users.user_exists user_name && users.command_exists (codes "userdel")
      then ignoring (run w (codes "userdel" ∷ user_name ∷ [])) h
      else (ok tt, h)

  -- The part under --purge.
  unfoldable pub purge_all : Bytes → Bytes → Action Host Failure (Unit {0})
  purge_all user_name state_dir =
      ignoring (disk_call (remove_all (w.inside state_dir) state_dir))
      >> (ignoring (disk_call (remove_all (w.inside env_dir) env_dir)) >> remove_user user_name)

  -- The service, its unit and the binary.
  unfoldable pub remove_service : Action Host Failure (Unit {0})
  remove_service =
      ignoring (run w (codes "systemctl" ∷ codes "disable" ∷ codes "--now" ∷ bin_name ∷ []))
      >> (ignoring (disk_call (remove (w.locate unit_path)))
          >> (ignoring (run w (codes "systemctl" ∷ codes "daemon-reload" ∷ []))
              >> ignoring (disk_call (remove (w.locate bin_path)))))

  -- runUninstall
  unfoldable pub run_uninstall : Bool → Bytes → Bytes → Action Host Failure (Unit {0})
  run_uninstall purge user_name state_dir =
      require_root w
      >> (remove_service >> (if purge then purge_all user_name state_dir else pure tt))
