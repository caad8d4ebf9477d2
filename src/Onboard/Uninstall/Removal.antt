-- ===== src/Onboard/Uninstall/Removal.antt =====
-- cmd/agent/onboard.go: what uninstall takes away, and what it leaves.
use shadow_twin.Prelude.{
  ◌≡◌, refl, ◌⊎◌, inl, inr, Bytes, codes, Bool, true, none, List, [], ◌∷◌, arith, ap, ◌∙◌, nat_eq,
  bytes_eq,
}
use shadow_twin.Text.{has_suffix}
use shadow_twin.Fs.{FilePath, path_eq, Files, lookup, Disk, FsError, Result, ok, remove}
use shadow_twin.Fs.Trees.{is_removable, ends_with_dot, erase_under, remove_all}
use shadow_twin.Fs.Actions.{◌>>◌, ◌>>=◌}
use shadow_twin.Onboard.Host.{Host, World, disk_call, require_root, run}
use shadow_twin.Onboard.Uninstall.{
  ignoring, env_dir, unit_path, bin_path, remove_user, purge_all, remove_service, run_uninstall,
}

module _ (inside : FilePath → Bool) (q : FilePath) where
  erase_under-gone : (fs : Files) → inside q ≡ true → lookup q (erase_under inside fs) ≡ none
  unfolding lookup erase_under
  erase_under-gone [] h = refl
  erase_under-gone ((p, node) ∷ fs) h = ground (arith, h, erase_under-gone fs h)

  erase_under-none : (fs : Files) → lookup q fs ≡ none → lookup q (erase_under inside fs) ≡ none
  unfolding lookup erase_under
  erase_under-none [] h = refl
  erase_under-none ((p, node) ∷ fs) h = ground (arith, h, erase_under-none fs)

remove_all-calm :
    (inside : FilePath → Bool) (root : Bytes) (d : Disk)
    → is_removable root ≡ true
    → d.faults ≡ []
    → ((remove_all inside root d).1.files ≡ erase_under inside d.files)
      × ((remove_all inside root d).1.faults ≡ [])
unfolding remove_all
remove_all-calm inside root d removable h =
    (ground (arith, removable, h), ground (arith, removable, h))

-- A disk without faults is left without faults, whatever the path is.
remove_all-quiet :
    (inside : FilePath → Bool) (root : Bytes) (d : Disk)
    → d.faults ≡ []
    → (remove_all inside root d).1.faults ≡ []
unfolding remove_all
remove_all-quiet inside root d h = ground (arith, h)

env_dir-is_removable : is_removable env_dir ≡ true
unfolding is_removable ends_with_dot bytes_eq nat_eq has_suffix
env_dir-is_removable = refl

remove-calm : (p : FilePath) (d : Disk) → d.faults ≡ [] → (remove p d).1.faults ≡ []
unfolding remove
remove-calm p d h = ground (arith, h)

files-disk_call :
    {A : Type 0} (call : Disk → Result FsError A × Disk) (h : Host)
    → (disk_call call h).1.disk ≡ (call h.disk).1
unfolding disk_call
files-disk_call call h = ground arith

module _ (w : World) where
  disk-run : (c : List Bytes) (h : Host) → (run w c h).1.disk ≡ h.disk
  unfolding run
  disk-run c h = ground arith

  disk-remove_user : (user_name : Bytes) (h : Host) → (remove_user w user_name h).1.disk ≡ h.disk
  unfolding remove_user ignoring
  disk-remove_user user_name h = ground (arith, disk-run (codes "userdel" ∷ user_name ∷ []) h)

  abbrev unit_file : FilePath
  unit_file = w.locate (unit_path w)

  abbrev bin_file : FilePath
  bin_file = w.locate (bin_path w)

  -- The disk after the first part, which is the same for every use of the flags.
  disk-remove_service :
      (h : Host) → (remove_service w h).1.disk ≡ (remove bin_file (remove unit_file h.disk).1).1
  unfolding remove_service ignoring ◌>>◌ ◌>>=◌ run disk_call
  disk-remove_service h = ground arith

  remove_service-ok : (h : Host) → (remove_service w h).0 ≡ ok tt
  unfolding remove_service ignoring ◌>>◌ ◌>>=◌
  remove_service-ok h = refl

  disk-purge_all :
      (user_name state_dir : Bytes) (h : Host)
      → (purge_all w user_name state_dir h).1.disk
        ≡ (remove_all
            (w.inside env_dir)
            env_dir
            (remove_all (w.inside state_dir) state_dir h.disk).1).1
  unfolding purge_all ◌>>◌ ◌>>=◌ ignoring
  disk-purge_all user_name state_dir h =
      disk-remove_user user_name _
      ∙ (files-disk_call (remove_all (w.inside env_dir) env_dir) _
          ∙ ap (λ d. (remove_all (w.inside env_dir) env_dir d).1)
              (files-disk_call (remove_all (w.inside state_dir) state_dir) h))

  -- The two removals that every use of uninstall makes, and the two of --purge.
  abbrev without_service : Disk → Disk
  without_service d = (remove bin_file (remove unit_file d).1).1

  abbrev purged : Bytes → Disk → Disk
  purged state_dir d =
      (remove_all (w.inside env_dir) env_dir (remove_all (w.inside state_dir) state_dir d).1).1

  purged-env :
      (d : Disk) (q : FilePath)
      → d.faults ≡ []
      → w.inside env_dir q ≡ true
      → lookup q (remove_all (w.inside env_dir) env_dir d).1.files ≡ none
  purged-env d q calm e =
      let (f, _) = remove_all-calm (w.inside env_dir) env_dir d env_dir-is_removable calm in
      ap (lookup q) f ∙ erase_under-gone (w.inside env_dir) q d.files e

  module _ (root : w.euid ≡ 0) (user_name state_dir : Bytes) (h : Host) where
    purged_disk :
        (run_uninstall w true user_name state_dir h).1.disk
        ≡ purged state_dir (without_service h.disk)
    unfolding run_uninstall ◌>>◌ ◌>>=◌ require_root
    purged_disk = ground (
      arith,
      root,
      remove_service-ok h,
      disk-purge_all user_name state_dir (remove_service w h).1,
      disk-remove_service h,
    )

    -- When root runs uninstall with --purge and no call on the disk fails, no file is left in the
    -- folder of the environment file, whatever the system commands answer, nor in what the flag
    -- --state-dir names, where this is not empty and its last element is not a dot.
    pub run_uninstall-purges :
        (q : FilePath)
        → h.disk.faults ≡ []
        → ((is_removable state_dir ≡ true) × (w.inside state_dir q ≡ true))
          ⊎ (w.inside env_dir q ≡ true)
        → lookup q (run_uninstall w true user_name state_dir h).1.disk.files ≡ none
    run_uninstall-purges q calm out =
        let d1 = without_service h.disk in
        let calm1 = remove-calm bin_file _ (remove-calm unit_file h.disk calm) in
        ap (λ d. lookup q d.files) purged_disk ∙ elim out [
          | inr e ↦
              purged-env (remove_all (w.inside state_dir) state_dir d1).1 q
                (remove_all-quiet (w.inside state_dir) state_dir d1 calm1) e
          | inl (r, s) ↦
              let (f1, calm2) = remove_all-calm (w.inside state_dir) state_dir d1 r calm1 in
              let (f2, _) =
                remove_all-calm (w.inside env_dir) env_dir _ env_dir-is_removable calm2 in
              ap (lookup q) f2
              ∙ erase_under-none (w.inside env_dir) q _
                  (ap (lookup q) f1 ∙ erase_under-gone (w.inside state_dir) q _ s)
        ]
