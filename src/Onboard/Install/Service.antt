-- ===== src/Onboard/Install/Service.antt =====
-- cmd/agent/onboard.go: when install enables the service.
use shadow_twin.Prelude.{
  ◌≡◌, refl, ◌≢◌, inl, inr, Bytes, codes, List, [], ◌∷◌, arith, ap, sym, ◌∙◌, All,
}
use mathlib.Core.Path.{subst}
use shadow_twin.Fs.{FilePath, Disk, Result, ok, err, stat}
use shadow_twin.Fs.Actions.{Action, ◌>>=◌, ◌>>◌, pure, >>=-split, >>-split, >>-pure-state}
use shadow_twin.Onboard.{InstallOpts, file_exists}
use shadow_twin.Onboard.Accounts.{
  first_there, nologin_shell, ensure_user, ensure_user_in_group, Users,
}
use shadow_twin.Onboard.Host.{World, Host, Command, Failure, run, perform}
use shadow_twin.Onboard.Install.{
  journal_group, create_user, join_group, look_up_ids, set_up_account, place_files, start_service,
  set_up,
}
use shadow_twin.Onboard.Install.Placing.{IsApart, Placed, place_files-IsQuiet, place_files-Placed}

abbrev pub enabling : InstallOpts → Command
enabling o = codes "systemctl" ∷ codes "enable" ∷ codes "--now" ∷ o.svc_name ∷ []

-- No tool that has been run has enabled the service.
abbrev pub IsNotEnabled : InstallOpts → List Command → Type 0
IsNotEnabled o cs = All (λ c. c ≢ enabling o) cs

files-first_there :
    (locate : Bytes → FilePath) (ps : List Bytes) (d : Disk)
    → (first_there locate ps d).1.files ≡ d.files
unfolding first_there file_exists stat
files-first_there locate [] d = refl
files-first_there locate (p ∷ ps) d =
    ground (arith, files-first_there locate ps (file_exists (locate p) d).1)

module _ (w : World) (o : InstallOpts) where
  -- A step of the account's set-up: the files stay, and the service is not enabled by it.
  abbrev IsHarmlessFrom : Host → Host → Type 0
  IsHarmlessFrom h g =
      (g.disk.files ≡ h.disk.files) × (IsNotEnabled o h.commands → IsNotEnabled o g.commands)

  abbrev IsHarmless : {A : Type 0} → Action Host Failure A → Type 0
  IsHarmless m = (h : Host) → IsHarmlessFrom h (m h).1

  perform_useradd :
      (u : Users) (shell : Bytes) → IsHarmless (perform w (ensure_user u shell o.user))
  unfolding perform run ensure_user
  perform_useradd u shell h = (ground arith, λ n. ground (arith, n))

  perform_usermod :
      (u : Users) → IsHarmless (perform w (ensure_user_in_group u o.user journal_group))
  unfolding perform run ensure_user_in_group
  perform_usermod u h = (ground arith, λ n. ground (arith, n))

  create_user-IsHarmless : IsHarmless (create_user w o)
  unfolding create_user nologin_shell
  create_user-IsHarmless h =
      let (shell, d) = nologin_shell w.locate h.disk in
      let (f, n) = perform_useradd (w.users h.commands) shell (record h { disk = d }) in
      (f ∙ files-first_there w.locate _ h.disk, n)

  join_group-IsHarmless : IsHarmless (join_group w o)
  unfolding join_group
  join_group-IsHarmless h = perform_usermod (w.users h.commands) h

  look_up_ids-IsHarmless : IsHarmless (look_up_ids w o)
  unfolding look_up_ids
  look_up_ids-IsHarmless h = (ground arith, λ n. ground (arith, n))

  >>-IsHarmless :
      {A B : Type 0} (m : Action Host Failure A) (k : Action Host Failure B)
      → IsHarmless m
      → IsHarmless k
      → IsHarmless (m >> k)
  >>-IsHarmless m k q r h = elim (>>-split m k h) [
    | inl (e, g, a, t) ↦ subst (IsHarmlessFrom h) (ap (λ x. x.1) a ∙ sym (ap (λ x. x.1) t)) (q h)
    | inr (x, g, a, t) ↦
        let (f, n) = subst (IsHarmlessFrom h) (ap (λ x. x.1) a) (q h) in
        subst (IsHarmlessFrom h) (sym (ap (λ x. x.1) t)) ((r g).0 ∙ f, λ y. (r g).1 (n y))
  ]

  set_up_account-IsHarmless : IsHarmless (set_up_account w o)
  unfolding set_up_account
  set_up_account-IsHarmless =
      >>-IsHarmless _ _ create_user-IsHarmless
        (>>-IsHarmless _ _ join_group-IsHarmless look_up_ids-IsHarmless)

  -- systemctl: the files stay, and an error before the second command leaves it out.
  start_service-files : (h : Host) → (start_service w o h).1.disk.files ≡ h.disk.files
  unfolding start_service run ◌>>◌ ◌>>=◌
  start_service-files h = ground arith

module _ (w : World) (self : Bytes) (o : InstallOpts) (ca_src : Bytes) where
  -- How the set-up can end: the service has not been enabled, or the installation is whole.
  pub data SetUp (before : Host) (r : Result Failure Bytes) (after : Host) : Type 0 where
    not_enabled : (e : Failure) → r ≡ err e → IsNotEnabled o after.commands → SetUp before r after
    whole :
        (ca_pem : Bytes)
        → Placed w self o ca_src before.disk.files ca_pem after.disk.files
        → SetUp before r after

  module _ (h : Host) (apart : IsApart w self o ca_src) (n : IsNotEnabled o h.commands) where
    abbrev Ends : Result Failure Bytes × Host → Type 0
    Ends x = SetUp h x.0 x.1

    account :
        (h1 : Host) (r : Result Failure (Bytes × Bytes))
        → set_up_account w o h ≡ (r, h1)
        → IsHarmlessFrom w o h h1
    account h1 r a =
        subst (IsHarmlessFrom w o h) (ap (λ x. x.1) a) (set_up_account-IsHarmless w o h)

    started :
        (h1 h2 : Host) (ids : Bytes × Bytes) (ca_pem : Bytes)
        → h1.disk.files ≡ h.disk.files
        → place_files w self o ca_src ids h1 ≡ (ok ca_pem, h2)
        → Ends ((start_service w o >> pure ca_pem) h2)
    started h1 h2 ids ca_pem f p =
        let placed = place_files-Placed w self o ca_src ids h1 h2 apart p in
        let same =
          ap (λ (x : Host). x.disk.files) (>>-pure-state (start_service w o) ca_pem h2)
          ∙ start_service-files w o h2 in
        whole ca_pem (
          subst
            (λ x.
              Placed w self o ca_src x ca_pem ((start_service w o >> pure ca_pem) h2).1.disk.files)
            f (subst (λ x. Placed w self o ca_src h1.disk.files ca_pem x) (sym same) placed))

    placed :
        (h1 : Host) (ids : Bytes × Bytes)
        → h1.disk.files ≡ h.disk.files
        → IsNotEnabled o h1.commands
        → Ends ((place_files w self o ca_src ids >>= λ ca_pem. start_service w o >> pure ca_pem) h1)
    placed h1 ids f m =
        elim (>>=-split (place_files w self o ca_src ids)
          (λ ca_pem. start_service w o >> pure ca_pem) h1) [
            | inl (e, h2, a, t) ↦ subst Ends (sym t) (
                not_enabled e refl (
                  subst (IsNotEnabled o)
                    (sym (place_files-IsQuiet w self o ca_src ids h1) ∙ ap (λ x. x.1.commands) a)
                    m))
            | inr (ca_pem, h2, a, t) ↦ subst Ends (sym t) (started h1 h2 ids ca_pem f a)
          ]

    -- Let the binary, the CA file, the environment file and the unit have four different paths, and
    -- let no command that has been run before enable the service. Then, whatever calls on the disk
    -- and whatever system commands fail, install ends in one of two ways: it reports an error and
    -- no command has enabled the service, or these hold: the binary is a whole copy of the running
    -- program and can be executed, the CA file holds a CA that obtainCA gives for some state of the
    -- disk, the environment file is the rendered one and only its owner can read it, and the unit
    -- is the rendered one.
    pub set_up-SetUp : SetUp h (set_up w self o ca_src h).0 (set_up w self o ca_src h).1
    unfolding set_up
    set_up-SetUp =
        elim (>>=-split (set_up_account w o)
          (λ ids. place_files w self o ca_src ids >>= λ ca_pem. start_service w o >> pure ca_pem)
          h) [
            | inl (e, h1, a, t) ↦
                subst Ends (sym t) (not_enabled e refl ((account h1 (err e) a).1 n))
            | inr (ids, h1, a, t) ↦
                subst Ends (sym t)
                  (placed h1 ids (account h1 (ok ids) a).0 ((account h1 (ok ids) a).1 n))
          ]
