-- ===== src/Tests/Installing.antt =====
-- A whole run of install on a concrete host.
use shadow_twin.Prelude.{◌≡◌, refl, ap, codes, false, [], length, arith, nat_eq, bytes_eq}
use shadow_twin.Text.{
  trim_slashes, has_prefix, trim_space, trim_left_space, trim_right_space, is_one_space,
  space_width, is_space, is_space2, is_space3,
}
use shadow_twin.Fs.{
  FilePath, ok, path_eq, lookup, insert, erase, stat, read_file, write_file, rename, mkdir_all,
}
use shadow_twin.Fs.Trees.{chmod, walk}
use shadow_twin.Fs.Actions.{◌>>=◌, ◌>>◌}
use shadow_twin.Onboard.{endpoints_from_server, obtain_ca, fetch_ca_insecure, file_exists}
use shadow_twin.Onboard.Accounts.{first_there, nologin_shell, ensure_user, ensure_user_in_group}
use shadow_twin.Onboard.Host.{
  Host, run, is_active, require_root, perform, disk_call, copy_executable, write_root_file,
  chown_all, chown_tree, probe_tls,
}
use shadow_twin.Onboard.Install.{
  InstallArgs, installed, is_up, wait_healthy, opts_of, create_user, join_group, look_up_ids,
  set_up_account, fetch_ca, place_files, start_service, set_up, verify_install, carry_out,
  run_install,
}
use shadow_twin.Onboard.Install.Placing.{IsApart}
use shadow_twin.Onboard.Install.Driver.{Ends, run_install-Ends}
use shadow_twin.Tests.Installer.{world, host, health}

abbrev args : InstallArgs
args = record {
  server = codes "https://p/";
  token = codes "t";
  ca_src = [];
  user_name = codes "u";
  state_dir = codes "/s";
  dry_run = false;
}

abbrev after : Host
after = (run_install world health args host).1

ends_well : run_install world health args host ≡ (ok installed, after)
unfolding run_install carry_out set_up set_up_account create_user join_group look_up_ids place_files
    fetch_ca start_service require_root run perform disk_call copy_executable write_root_file
    chown_tree chown_all opts_of verify_install wait_healthy is_up is_active trim_space
    trim_left_space trim_right_space is_one_space space_width is_space is_space2 is_space3 probe_tls
    nologin_shell first_there ensure_user ensure_user_in_group obtain_ca read_file write_file
    mkdir_all chmod rename lookup insert erase path_eq bytes_eq nat_eq trim_slashes
    endpoints_from_server file_exists stat walk has_prefix ◌>>=◌ ◌>>◌ fetch_ca_insecure
ends_well = refl

args-IsApart : IsApart world (codes "/x") (opts_of world args) []
unfolding opts_of
args-IsApart = record {
  bin_ca = λ e. omega (arith, ap (λ (p : FilePath). length p.name) e);
  bin_env = λ e. ground (arith, ap (λ (p : FilePath). p.name) e);
  bin_unit = λ e. omega (arith, ap (λ (p : FilePath). length p.name) e);
  ca_env = λ e. omega (arith, ap (λ (p : FilePath). length p.name) e);
  ca_unit = λ e. omega (arith, ap (λ (p : FilePath). length p.name) e);
  env_unit = λ e. omega (arith, ap (λ (p : FilePath). length p.name) e);
}

run_install-Ends_example : Ends world health args (codes "/x") host installed after
run_install-Ends_example =
    run_install-Ends world health args (codes "/x") host after installed refl args-IsApart tt
      ends_well
