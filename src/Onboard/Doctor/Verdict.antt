-- ===== src/Onboard/Doctor/Verdict.antt =====
-- cmd/agent/onboard.go: the verdict of doctor, against the state of the host.
use shadow_twin.Onboard.Doctor.Lines.{
  user_lines-none, cert_line-none, check-none, guarded-none, is_empty-true, service_line-none,
}
use shadow_twin.Prelude.{
  ℕ, ◌<◌, ◌≡◌, refl, ◌⊎◌, ◌↔◌, inl, inr, Bytes, codes, Bool, true, false, Option, none, some, List,
  [], ◌∷◌, ◌++◌, arith, ap, sym, ◌∙◌, ◌==◌, bytes_eq, if◌then◌else◌, ◌>>=◌, All, length, ltb,
  Bool-cases,
}
use mathlib.Core.Path.{subst}
use shadow_twin.Fs.{FilePath, Node, folder, file, Files, lookup, Disk, read_file, stat}
use shadow_twin.Onboard.{
  Env, set_lines, scan_lines, fitting, scan_error, line_limit, parse_env_file, env_value, env_or,
  file_exists,
}
use shadow_twin.Onboard.Accounts.{user_in_group}
use shadow_twin.Onboard.Host.{World, Command, is_active, probe_tls, cert_not_after}
use shadow_twin.Onboard.Install.{bin_name, journal_group}
use shadow_twin.Onboard.Doctor.{
  default_user, default_state_dir, binary_installed, config_present, endpoint_unknown,
  platform_reachable, Line, check, warn, count_failed, installed_bin, env_path, cert_path, ca_path,
  user_lines, cert_line, platform_line, service_line, is_nil, run_doctor,
}

-- What a disk without faults holds.
pub content_at : FilePath → Files → Option Bytes
content_at p fs = elim (lookup p fs) [ none ↦ none | some folder ↦ none | some (file m c) ↦ some c ]

-- The settings of a file: those of the lines before one that does not fit the scanner's buffer.
pub settings_in : Option Bytes → Env
settings_in none = []
settings_in (some c) = set_lines (fitting (scan_lines c)) []

-- Whether there is a content, and each of its lines fits.
pub all_fit : Option Bytes → Bool
all_fit none = false
all_fit (some c) = is_nil (scan_error (scan_lines c))

scan_error-none :
    (ls : List Bytes) → (is_nil (scan_error ls) ≡ true) ↔ All (λ l. length l < line_limit) ls
unfolding scan_error
scan_error-none [] = (λ h. tt, λ h. refl)
scan_error-none (l ∷ ls) =
    let (to, from) = scan_error-none ls in
    elim (Bool-cases (ltb (length l) line_limit)) [
      | inl e ↦
          (λ h. (ground (arith, e), to (ground (arith, e, h))), λ h. ground (arith, e, from h.1))
      | inr e ↦ (λ h. absurd (ground (arith, e, h)), λ h. absurd (ground (arith, e, h.0)))
    ]

-- A file that is there, with lines that all fit.
abbrev pub IsReadable : Option Bytes → Type 0
IsReadable o = (c : Bytes) × (o ≡ some c) × All (λ l. length l < line_limit) (scan_lines c)

all_fit-IsReadable : (o : Option Bytes) → (all_fit o ≡ true) ↔ IsReadable o
unfolding all_fit
all_fit-IsReadable none = (λ h. absurd (cc), λ (c, e, a). absurd (cc))
all_fit-IsReadable (some c) =
    let (to, from) = scan_error-none (scan_lines c) in
    (
      λ h. (c, refl, to h),
      λ (c', e, a).
          from (subst (λ x. All (λ l. length l < line_limit) (scan_lines x)) (ground (arith, e)) a),
    )

abbrev is_some : {A : Type 0} → Option A → Bool
is_some none = false
is_some (some a) = true

is_some-true : {A : Type 0} (o : Option A) → is_some o ≡ true → (a : A) × (o ≡ some a)
is_some-true none h = absurd (cc)
is_some-true (some a) h = (a, refl)

abbrev or_empty : {A : Type 0} → Option (List A) → List A
or_empty none = []
or_empty (some l) = l

module _ (w : World) where
  -- The end of the life of the certificate in a file.
  pub cert_at : Bytes → Files → Option ℕ
  cert_at path fs = do b ← content_at (w.locate path) fs; der ← w.pem_block b; w.cert_expiry der

  -- The settings that doctor goes by.
  pub settings : Files → Env
  settings fs = settings_in (content_at (w.locate (env_path w)) fs)

  pub state_dir_at : Files → Bytes
  state_dir_at fs = env_or (settings fs) (codes "HOST_AGENT_STATE_DIR") default_state_dir

  pub endpoint_at : Files → Bytes
  endpoint_at fs = env_value (settings fs) (codes "INGEST_ENDPOINT")

  -- A host with nothing to complain of: the binary, the account in the journal's group, the
  -- settings, a certificate that has not expired, a platform that answers where its endpoint is
  -- known, and an active service where there is systemctl.
  pub record IsHealthy (history : List Command) (fs : Files) : Type 0 where
    pub binary : (n : Node) × (lookup (w.locate (installed_bin w)) fs ≡ some n)
    pub user : (w.users history).user_exists default_user ≡ true
    pub member : user_in_group (w.users history) default_user journal_group ≡ true
    pub config : IsReadable (content_at (w.locate (env_path w)) fs)
    pub alive : (end : ℕ) × (cert_at (cert_path w (state_dir_at fs)) fs ≡ some end) × (w.now < end)
    pub platform :
        (endpoint_at fs ≡ [])
        ⊎ (probe_tls w
              (endpoint_at fs)
              (or_empty (content_at (w.locate (ca_path w (state_dir_at fs))) fs))
            ≡ true)
    pub service :
        ((w.users history).command_exists (codes "systemctl") ≡ false)
        ⊎ (is_active w history bin_name ≡ true)

  -- The lines of doctor, from the files.
  abbrev lines_at : List Command → Files → List Line
  lines_at history fs =
      check binary_installed (is_some (lookup (w.locate (installed_bin w)) fs))
      ∷ (user_lines (w.users history)
          ++ (check config_present (all_fit (content_at (w.locate (env_path w)) fs))
              ∷ cert_line w (cert_at (cert_path w (state_dir_at fs)) fs)
              ∷ (if endpoint_at fs == []
                  then warn endpoint_unknown
                  else check platform_reachable (
                      probe_tls w (endpoint_at fs)
                        (or_empty (content_at (w.locate (ca_path w (state_dir_at fs))) fs))))
              ∷ service_line w (w.users history) history
              ∷ []))

module _ (d : Disk) (calm : d.faults ≡ []) where
  file_exists-calm : (p : FilePath) → file_exists p d ≡ (is_some (lookup p d.files), d)
  unfolding file_exists stat
  file_exists-calm p = ground (arith, calm)

  parse_env_file-calm :
      (p : FilePath)
      → (settings_in (content_at p d.files) ≡ (parse_env_file p d).0.0)
        × (all_fit (content_at p d.files) ≡ is_nil (parse_env_file p d).0.1)
        × ((parse_env_file p d).1 ≡ d)
  unfolding parse_env_file read_file settings_in all_fit content_at
  parse_env_file-calm p = (ground (arith, calm), ground (arith, calm), ground (arith, calm))

  module _ (w : World) where
    cert_not_after-calm : (path : Bytes) → cert_not_after w path d ≡ (cert_at w path d.files, d)
    unfolding cert_not_after read_file cert_at content_at
    cert_not_after-calm path = ground (arith, calm)

    platform_line-calm :
        (ingest state_dir : Bytes)
        → (platform_line w ingest state_dir d).0 ≡ (
            if ingest == []
            then warn endpoint_unknown
            else check platform_reachable (
                probe_tls w ingest
                  (or_empty (content_at (w.locate (ca_path w state_dir)) d.files))))
    unfolding platform_line read_file content_at
    platform_line-calm ingest state_dir = ground (arith, calm)

    fails-lines_at :
        (history : List Command)
        → (run_doctor w history d).0.fails ≡ count_failed (lines_at w history d.files)
    unfolding run_doctor settings state_dir_at endpoint_at
    fails-lines_at history = rw (file_exists-calm (w.locate (installed_bin w))) (
        let (env, fits, same) = parse_env_file-calm (w.locate (env_path w)) in
        rw (env, fits, same)
          (rw (cert_not_after-calm (cert_path w _)) (rw (platform_line-calm _ _) refl)))

module _ (w : World) (history : List Command) (fs : Files) where
  lines_at-IsHealthy : count_failed (lines_at w history fs) ≡ 0 → IsHealthy w history fs
  lines_at-IsHealthy h =
      let (there, h1) = (check-none binary_installed _ _).0 h in
      let (user, member, h2) = (user_lines-none (w.users history) _).0 h1 in
      let (config, h3) = (check-none config_present _ _).0 h2 in
      let (alive, h4) = (cert_line-none w _ _).0 h3 in
      let (platform, h5) = (guarded-none platform_reachable endpoint_unknown _ _ _).0 h4 in
      record {
        binary = is_some-true _ there;
        user = user;
        member = member;
        config = (all_fit-IsReadable _).0 config;
        alive = alive;
        platform = elim platform [ inl e ↦ inl ((is_empty-true _).0 e) | inr r ↦ inr r ];
        service = (service_line-none w (w.users history) history).0 h5;
      }

  IsHealthy-lines_at : IsHealthy w history fs → count_failed (lines_at w history fs) ≡ 0
  IsHealthy-lines_at h =
      let h5 = (service_line-none w (w.users history) history).1 h.service in
      let platform : ((endpoint_at w fs == []) ≡ true) ⊎ _ = elim h.platform [
        | inl e ↦ inl ((is_empty-true _).1 e)
        | inr r ↦ inr r
      ] in
      let h4 = (guarded-none platform_reachable endpoint_unknown _ _ _).1 (platform, h5) in
      let h3 = (cert_line-none w _ _).1 (h.alive, h4) in
      let h2 = (check-none config_present _ _).1 ((all_fit-IsReadable _).1 h.config, h3) in
      let h1 = (user_lines-none (w.users history) _).1 (h.user, h.member, h2) in
      (check-none binary_installed _ _).1 (ap is_some h.binary.1, h1)

-- If no call on the disk fails, doctor counts no failure exactly when the host is in order: the
-- binary is there, the account exists and is in the journal's group, the environment file can be
-- read and each of its lines fits the buffer of the scanner, the certificate in the state folder
-- that it names has not expired, the platform answers where an endpoint is set, and the service is
-- active where there is systemctl.
pub run_doctor-IsHealthy :
    (w : World) (history : List Command) (d : Disk)
    → d.faults ≡ []
    → ((run_doctor w history d).0.fails ≡ 0) ↔ IsHealthy w history d.files
run_doctor-IsHealthy w history d calm = (
  λ h. lines_at-IsHealthy w history d.files (sym (fails-lines_at d calm w history) ∙ h),
  λ h. fails-lines_at d calm w history ∙ IsHealthy-lines_at w history d.files h,
)
