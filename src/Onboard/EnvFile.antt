-- ===== src/Onboard/EnvFile.antt =====
-- cmd/agent/onboard.go: the environment file as install writes it and as parseEnvFile reads it.
use shadow_twin.Prelude.{
  ℕ, ◌≡◌, refl, ◌≢◌, Bytes, codes, Bool, true, false, not, ◌&&◌, some, [], ◌∷◌, ◌++◌, ◌==◌, nat_eq,
  bytes_eq, arith, ap, sym, ◌∙◌, ltb, ◌<◌, ◌≤◌, length, length-append, List, Option, none,
}
use mathlib.Core.List.{append_assoc}
use shadow_twin.Text.{
  trim_space, trim_right_space, trim_left_space, is_one_space, space_width, is_space, is_space2,
  is_space3, has_prefix, cut,
}
use shadow_twin.Fs.{FilePath, file, Disk, lookup, read_file}
use shadow_twin.Onboard.{
  InstallOpts, line, env_file_content, scan_lines, Env, set_line, set_lines, parse_env_file,
  fitting, scan_error, line_limit, EnvError,
}

unfoldable pub every : (ℕ → Bool) → Bytes → Bool
every f [] = true
every f (c ∷ s) = f c && every f s

-- A byte of a value, which is an ASCII character other than white space, and a byte of a key.
unfoldable pub solid : ℕ → Bool
solid c = not (is_space c) && ltb c 128

unfoldable pub key_byte : ℕ → Bool
key_byte c = solid c && not (c == b'=')

solid-space2 : (a b : ℕ) → solid a ≡ true → is_space2 a b ≡ false
unfolding solid is_space2 nat_eq
solid-space2 a b h = ground (arith, h)

solid-space3 : (a b c : ℕ) → solid a ≡ true → is_space3 a b c ≡ false
unfolding solid is_space3 nat_eq
solid-space3 a b c h = ground (arith, h)

solid-space_width : (c : ℕ) (s : Bytes) → solid c ≡ true → space_width (c ∷ s) ≡ 0
unfolding space_width solid
solid-space_width c [] h = ground (arith, h)
solid-space_width c (d ∷ []) h = ground (arith, h, solid-space2 c d h)
solid-space_width c (d ∷ e ∷ s) h = ground (arith, h, solid-space2 c d h, solid-space3 c d e h)

solid-one_space : (c : ℕ) (s : Bytes) → solid c ≡ true → is_one_space (c ∷ s) ≡ false
unfolding is_one_space solid
solid-one_space c [] h = ground (arith, h)
solid-one_space c (d ∷ []) h = solid-space2 c d h
solid-one_space c (d ∷ e ∷ []) h = solid-space3 c d e h
solid-one_space c (d ∷ e ∷ g ∷ s) h = refl

trim_right-solid : (s : Bytes) → every solid s ≡ true → trim_right_space s ≡ s
unfolding trim_right_space every
trim_right-solid [] h = refl
trim_right-solid (c ∷ s) h =
    ground
      (arith, h, trim_right-solid s (ground (arith, h)), solid-one_space c s (ground (arith, h)))

trim_left-solid : (s : Bytes) → every solid s ≡ true → trim_left_space 0 s ≡ s
unfolding trim_left_space every
trim_left-solid [] h = refl
trim_left-solid (c ∷ s) h = ground (arith, h, solid-space_width c s (ground (arith, h)))

trim_space-solid : (s : Bytes) → every solid s ≡ true → trim_space s ≡ s
unfolding trim_space
trim_space-solid s h = ap (trim_left_space 0) (trim_right-solid s h) ∙ trim_left-solid s h

solid-setting :
    (key value : Bytes)
    → every key_byte key ≡ true
    → every solid value ≡ true
    → every solid (key ++ (b'=' ∷ value)) ≡ true
unfolding every key_byte solid is_space nat_eq
solid-setting [] value k v = ground (arith, v)
solid-setting (c ∷ key) value k v = ground (arith, k, solid-setting key value (ground (arith, k)) v)

cut-setting :
    (key value : Bytes)
    → every key_byte key ≡ true
    → cut b'=' (key ++ (b'=' ∷ value)) ≡ some (key, value)
unfolding cut every key_byte
cut-setting [] value k = ground arith
cut-setting (c ∷ key) value k = ground (arith, k, cut-setting key value (ground (arith, k)))

every-append :
    (f : ℕ → Bool) (s t : Bytes) → every f s ≡ true → every f t ≡ true → every f (s ++ t) ≡ true
unfolding every
every-append f [] t h k = k
every-append f (c ∷ s) t h k = ground (arith, h, every-append f s t (ground (arith, h)) k)

-- A byte that does not end the line.
unfoldable inline : ℕ → Bool
inline c = not (c == 10)

solid-inline : (s : Bytes) → every solid s ≡ true → every inline s ≡ true
unfolding every solid inline is_space nat_eq
solid-inline [] h = refl
solid-inline (c ∷ s) h = ground (arith, h, solid-inline s (ground (arith, h)))

scan_lines-line :
    (s rest : Bytes) → every inline s ≡ true → scan_lines (s ++ (10 ∷ rest)) ≡ s ∷ scan_lines rest
unfolding scan_lines every inline nat_eq
scan_lines-line [] rest h = refl
scan_lines-line (c ∷ s) rest h = ground (arith, h, scan_lines-line s rest (ground (arith, h)))

key-solid : (s : Bytes) → every key_byte s ≡ true → every solid s ≡ true
unfolding every key_byte
key-solid [] h = refl
key-solid (c ∷ s) h = ground (arith, h, key-solid s (ground (arith, h)))

no_comment : (c : ℕ) (s : Bytes) → c ≢ b'#' → has_prefix (c ∷ s) (codes "#") ≡ false
unfolding has_prefix nat_eq
no_comment c s n = ground (arith, n)

-- A setting that is read back, where the key does not begin as a comment does.
set_line-setting :
    (c : ℕ) (cs value : Bytes) (m : Env)
    → c ≢ b'#'
    → every key_byte (c ∷ cs) ≡ true
    → every solid value ≡ true
    → set_line ((c ∷ cs) ++ (b'=' ∷ value)) m ≡ (c ∷ cs, value) ∷ m
unfolding set_line
set_line-setting c cs value m n k v = ground (
  arith,
  trim_space-solid (c ∷ (cs ++ (b'=' ∷ value))) (solid-setting (c ∷ cs) value k v),
  no_comment c (cs ++ (b'=' ∷ value)) n,
  cut-setting (c ∷ cs) value k,
  trim_space-solid (c ∷ cs) (key-solid (c ∷ cs) k),
  trim_space-solid value v,
)

-- What parseEnvFile makes of a content, after the settings m.
abbrev parsed : Bytes → Env → Env × Option EnvError
parsed content m = (set_lines (fitting (scan_lines content)) m, scan_error (scan_lines content))

short_line :
    (l : Bytes) (ls : List Bytes)
    → length l < line_limit
    → (fitting (l ∷ ls) ≡ l ∷ fitting ls) × (scan_error (l ∷ ls) ≡ scan_error ls)
unfolding fitting scan_error
short_line l ls h = (ground (arith, h), ground (arith, h))

parsed-line :
    (l rest : Bytes) (m : Env)
    → every inline l ≡ true
    → length l < line_limit
    → parsed (l ++ (10 ∷ rest)) m ≡ parsed rest (set_line l m)
unfolding set_lines
parsed-line l rest m i h =
    let (fits, calm) = short_line l (scan_lines rest) h in
    ap (λ ls. (set_lines (fitting ls) m, scan_error ls)) (scan_lines-line l rest i)
    ∙ rw (fits, calm) refl

-- A value that parseEnvFile gives back.
pub record IsPlain (value : Bytes) : Type 0 where
  pub chars : every solid value ≡ true
  pub short : length value ≤ 65500

-- A setting in front of the rest of the file.
parsed-setting :
    (c : ℕ) (cs value rest : Bytes) (m : Env)
    → c ≢ b'#'
    → every key_byte (c ∷ cs) ≡ true
    → length cs ≤ 30
    → IsPlain value
    → parsed (line (c ∷ cs) value rest) m ≡ parsed rest ((c ∷ cs, value) ∷ m)
parsed-setting c cs value rest m n k l v =
    ap (λ s. parsed s m) (sym (append_assoc (c ∷ cs) (b'=' ∷ value) (10 ∷ rest)))
    ∙ (parsed-line ((c ∷ cs) ++ (b'=' ∷ value)) rest m
          (solid-inline _ (solid-setting (c ∷ cs) value k v.chars))
          (omega (arith, l, v.short, length-append cs (b'=' ∷ value)))
        ∙ ap (parsed rest) (set_line-setting c cs value m n k v.chars))

abbrev comment : Bytes
comment =
    codes "# Managed by 'shadowtwin-agent install'. Contains the enrollment token; keep mode 0600."

set_line-comment : (m : Env) → set_line comment m ≡ m
unfolding set_line trim_space trim_left_space trim_right_space is_one_space space_width is_space
    is_space2 is_space3 has_prefix nat_eq bytes_eq
set_line-comment m = refl

parsed-comment : (rest : Bytes) (m : Env) → parsed (comment ++ (10 ∷ rest)) m ≡ parsed rest m
unfolding every inline nat_eq
parsed-comment rest m =
    parsed-line comment rest m refl (omega arith) ∙ ap (parsed rest) (set_line-comment m)

parsed-end : {m : Env} → parsed [] m ≡ (m, none)
unfolding set_lines scan_lines fitting scan_error
parsed-end = refl

module _ (o : InstallOpts) (enroll_url ingest_url renew_url : Bytes) (d : IsPlain o.state_dir)
    (t : IsPlain o.token) (e : IsPlain enroll_url) (i : IsPlain ingest_url)
    (r : IsPlain renew_url) where
  -- The settings, the last first.
  abbrev settings : Env
  settings =
      (codes "AGENT_ENROLL_TOKEN", o.token)
      ∷ (codes "AGENT_RENEW_ENDPOINT", renew_url)
      ∷ (codes "AGENT_ENROLL_ENDPOINT", enroll_url)
      ∷ (codes "INGEST_ENDPOINT", ingest_url)
      ∷ (codes "HOST_AGENT_STATE_DIR", o.state_dir)
      ∷ []

  parsed-env_file_content :
      parsed (env_file_content o enroll_url ingest_url renew_url) [] ≡ (settings, none)
  unfolding env_file_content every key_byte solid is_space nat_eq
  parsed-env_file_content =
      parsed-comment _ []
      ∙ (parsed-setting _ _ o.state_dir _ _ (λ x. omega (arith, x)) refl (omega arith) d
          ∙ (parsed-setting _ _ ingest_url _ _ (λ x. omega (arith, x)) refl (omega arith) i
              ∙ (parsed-setting _ _ enroll_url _ _ (λ x. omega (arith, x)) refl (omega arith) e
                  ∙ (parsed-setting _ _ renew_url _ _ (λ x. omega (arith, x)) refl (omega arith) r
                      ∙ (parsed-setting _ _ o.token [] _ (λ x. omega (arith, x)) refl (omega arith)
                            t
                          ∙ parsed-end)))))

  -- If the state folder, the token and the three endpoints are each ASCII text without white space,
  -- of at most 65,500 bytes, and the file at the path has the content that the installer renders
  -- for them, then parseEnvFile gives exactly these five settings and no error, when no call fails.
  pub parse_env_file-env_file_content :
      (p : FilePath) (disk : Disk) (m : ℕ)
      → lookup p disk.files ≡ some (file m (env_file_content o enroll_url ingest_url renew_url))
      → disk.faults ≡ []
      → (parse_env_file p disk).0 ≡ (settings, none)
  unfolding parse_env_file read_file
  parse_env_file-env_file_content p disk m l f = ground (arith, l, f, parsed-env_file_content)
