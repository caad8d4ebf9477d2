-- ===== src/Tests/Installer.antt =====
-- The onboarding commands on a concrete host.
use shadow_twin.Prelude.{
  ℕ, ◌≡◌, refl, ◌↔◌, ◌==◌, ◌||◌, inl, ap, codes, true, none, some, [], ◌∷◌, ◌++◌, arith, nat_eq,
  bytes_eq, length, ltb, if◌then◌else◌,
}
use shadow_twin.Text.{has_prefix, has_suffix}
use shadow_twin.Fs.{FilePath, path_eq, file, lookup}
use shadow_twin.Fs.Trees.{is_removable, ends_with_dot}
use shadow_twin.Onboard.{InstallOpts}
use shadow_twin.Onboard.Host.{World, Host}
use shadow_twin.Onboard.Install.{Health, set_up, verify_install}
use shadow_twin.Onboard.Install.Placing.{IsApart}
use shadow_twin.Onboard.Install.Service.{SetUp, set_up-SetUp}
use shadow_twin.Onboard.Install.Polling.{Verified, verify_install-Verified}
use shadow_twin.Onboard.Doctor.{run_doctor}
use shadow_twin.Onboard.Doctor.Verdict.{IsHealthy, run_doctor-IsHealthy}
use shadow_twin.Onboard.Uninstall.{run_uninstall}
use shadow_twin.Onboard.Uninstall.Removal.{run_uninstall-purges}

abbrev pub world : World
world = record {
  executable = some (codes "/x");
  eval_symlinks = λ p. none;
  euid = 0;
  join = λ a b. a ++ (b'/' ∷ b);
  dir_of = λ p. codes "/d";
  locate = λ p. record { dir = codes "/"; name = p };
  inside = λ root p. p.dir == root || has_prefix p.dir (root ++ codes "/");
  users = λ h. record {
    user_exists = λ u. true;
    group_ids = λ u. some (codes "7" ∷ []);
    group_id = λ g. some (codes "7");
    command_exists = λ c. true;
  };
  ids = λ h u. some (codes "1", codes "2");
  runs = λ h c. true;
  output = λ h c. codes "active\n";
  fetcher = record { get = λ u. some (200, codes "PEM"); is_pem = λ b. true };
  parse_url = λ u. some (codes "p", codes "p");
  ca_pool = λ b. true;
  dial = λ a n r. true;
  pem_block = λ b. some b;
  cert_expiry = λ d. some 900;
  now = 100;
}

abbrev opts : InstallOpts
opts = record {
  server = codes "https://p";
  token = codes "t";
  user = codes "u";
  bin_path = codes "/b";
  state_dir = codes "/s";
  env_file = codes "/env";
  unit_path = codes "/units";
  svc_name = codes "n";
}

abbrev pub host : Host
host = record {
  disk = record { files = (world.locate (codes "/x"), file 0o755 (codes "EXE")) ∷ []; faults = [] };
  commands = [];
  owners = [];
}

opts-IsApart : IsApart world (codes "/x") opts []
opts-IsApart = record {
  bin_ca = λ e. omega (arith, ap (λ (p : FilePath). length p.name) e);
  bin_env = λ e. omega (arith, ap (λ (p : FilePath). length p.name) e);
  bin_unit = λ e. omega (arith, ap (λ (p : FilePath). length p.name) e);
  ca_env = λ e. omega (arith, ap (λ (p : FilePath). length p.name) e);
  ca_unit = λ e. omega (arith, ap (λ (p : FilePath). length p.name) e);
  env_unit = λ e. omega (arith, ap (λ (p : FilePath). length p.name) e);
}

set_up-SetUp_example :
    SetUp world
      (codes "/x")
      opts
      []
      host
      (set_up world (codes "/x") opts [] host).0
      (set_up world (codes "/x") opts [] host).1
set_up-SetUp_example = set_up-SetUp world (codes "/x") opts [] host opts-IsApart tt

-- The agent is enrolled in the fourth round.
abbrev pub health : ℕ → Health
health k = record {
  took = 1;
  history = [];
  disk =
      if ltb 2 k
      then record {
        files = (world.locate (codes "/s/certs/client.crt"), file 0o644 (codes "x")) ∷ [];
        faults = [];
      }
      else record { files = []; faults = [] };
}

verify_install-Verified_example :
    Verified world opts health (codes "PEM") (verify_install world health opts (codes "PEM"))
verify_install-Verified_example = verify_install-Verified world opts health (codes "PEM")

run_doctor-IsHealthy_example :
    ((run_doctor world [] host.disk).0.fails ≡ 0) ↔ IsHealthy world [] host.disk.files
run_doctor-IsHealthy_example = run_doctor-IsHealthy world [] host.disk refl

abbrev home : FilePath
home = record { dir = codes "/home"; name = codes "f" }

abbrev client_key : FilePath
client_key = record { dir = codes "/s/certs"; name = codes "client.key" }

client_key_inside :
    (is_removable (codes "/s") ≡ true) × (world.inside (codes "/s") client_key ≡ true)
unfolding is_removable ends_with_dot bytes_eq nat_eq has_prefix has_suffix
client_key_inside = (refl, refl)

abbrev enrolled : Host
enrolled = record host {
  disk = record { files = (client_key, file 0o600 (codes "k")) ∷ []; faults = [] };
}

run_uninstall-purges_example :
    lookup client_key (run_uninstall world true (codes "u") (codes "/s") enrolled).1.disk.files
    ≡ none
run_uninstall-purges_example =
    run_uninstall-purges world refl (codes "u") (codes "/s") enrolled client_key refl
      (inl client_key_inside)
