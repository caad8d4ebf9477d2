-- ===== src/Onboard.antt =====
-- cmd/agent/onboard.go: what the installer renders, and the helpers of its commands.
pub mod EnvFile
pub mod Depth
pub mod Accounts
pub mod Host
pub mod Install
pub mod Uninstall
pub mod Doctor
use shadow_twin.Prelude.{
  ℕ, zero, suc, ◌+◌, Bytes, codes, Bool, true, false, not, ◌&&◌, ◌||◌, Option, none, some, List, [],
  ◌∷◌, ◌++◌, ◌==◌, ltb, length, take, nat_eq, bytes_eq, if◌then◌else◌,
}
use shadow_twin.Text.{has_prefix, has_suffix, trim_space, trim_slashes, cut}
use shadow_twin.Fs.{
  FilePath, Node, is_dir, Disk, FsError, io_failure, Result, ok, err, read_dir, stat, read_file,
  write_file, mkdir_all,
}

-- installOpts
pub record InstallOpts : Type 0 where
  pub server : Bytes
  pub token : Bytes
  pub user : Bytes
  pub bin_path : Bytes
  pub state_dir : Bytes
  pub env_file : Bytes
  pub unit_path : Bytes
  pub svc_name : Bytes

pub record Endpoints : Type 0 where
  pub enroll : Bytes
  pub ingest : Bytes
  pub renew : Bytes
  pub ca : Bytes

-- endpointsFromServer
unfoldable pub endpoints_from_server : Bytes → Endpoints
endpoints_from_server base =
    let b = trim_slashes base in
    record {
      enroll = b ++ codes "/enroll";
      ingest = b ++ codes "/ingest";
      renew = b ++ codes "/renew";
      ca = b ++ codes "/ca";
    }

-- The part of the unit that no option changes.
abbrev hardening : Bytes
hardening =
    codes "\n"
    ++ (codes "Restart=on-failure\n"
        ++ (codes "RestartSec=5\n"
            ++ (codes "\n"
                ++ (codes "# Hardening: the agent only reads the journal and dials out over TLS.\n"
                    ++ (codes "NoNewPrivileges=true\n"
                        ++ (codes "ProtectSystem=strict\n"
                            ++ (codes "ProtectHome=true\n"
                                ++ (codes "PrivateTmp=true\n"
                                    ++ (codes "PrivateDevices=true\n"
                                        ++ (codes "ProtectKernelTunables=true\n"
                                            ++ (codes "ProtectKernelModules=true\n"
                                                ++ (codes "ProtectControlGroups=true\n"
                                                    ++ (codes "ProtectClock=true\n"
                                                        ++ (codes
                                                            "RestrictAddressFamilies=AF_INET AF_INET6 AF_UNIX\n"
                                                            ++ (codes "RestrictNamespaces=true\n"
                                                            ++ (codes "RestrictRealtime=true\n"
                                                            ++ (codes "LockPersonality=true\n"
                                                            ++ (codes
                                                            "MemoryDenyWriteExecute=true\n"
                                                            ++ (codes "RestrictSUIDSGID=true\n"
                                                            ++ (codes
                                                            "SystemCallArchitectures=native\n"
                                                            ++ (codes "CapabilityBoundingSet=\n"
                                                            ++ (codes "AmbientCapabilities=\n"
                                                            ++ (codes
                                                            "ReadWritePaths=")))))))))))))))))))))))

abbrev unit_head : Bytes
unit_head =
    codes "[Unit]\n"
    ++ (codes "Description=ShadowTwin host agent\n"
        ++ (codes "Documentation=https://github.com/Aakhri-Pastaa/ShadowTwin\n"
            ++ (codes "After=network-online.target\n"
                ++ (codes "Wants=network-online.target\n"
                    ++ (codes "\n"
                        ++ (codes "[Service]\n" ++ (codes "Type=simple\n" ++ (codes "User="))))))))

-- renderUnit
unfoldable pub render_unit : InstallOpts → Bytes
render_unit o =
    unit_head
    ++ (o.user
        ++ (codes "\n"
            ++ (codes "Group="
                ++ (o.user
                    ++ (codes "\n"
                        ++ (codes "EnvironmentFile="
                            ++ (o.env_file
                                ++ (codes "\n"
                                    ++ (codes "ExecStart="
                                        ++ (o.bin_path
                                            ++ (hardening
                                                ++ (o.state_dir
                                                    ++ (codes "\n"
                                                        ++ (codes "\n"
                                                            ++ (codes "[Install]\n"
                                                            ++ (codes
                                                            "WantedBy=multi-user.target\n"))))))))))))))))

abbrev pub line : Bytes → Bytes → Bytes → Bytes
line key value rest = key ++ (b'=' ∷ (value ++ (10 ∷ rest)))

-- envFileContent
unfoldable pub env_file_content : InstallOpts → Bytes → Bytes → Bytes → Bytes
env_file_content o enroll_url ingest_url renew_url =
    codes
      "# Managed by 'shadowtwin-agent install'. Contains the enrollment token; keep mode 0600.\n"
    ++ line (codes "HOST_AGENT_STATE_DIR") o.state_dir (
        line (codes "INGEST_ENDPOINT") ingest_url (
          line (codes "AGENT_ENROLL_ENDPOINT") enroll_url (
            line (codes "AGENT_RENEW_ENDPOINT") renew_url
              (line (codes "AGENT_ENROLL_TOKEN") o.token []))))

-- bufio.Scanner's lines: without the newline, and with no line after the last one.
abbrev grown : ℕ → List Bytes → List Bytes
grown c [] = (c ∷ []) ∷ []
grown c (l ∷ ls) = (c ∷ l) ∷ ls

unfoldable pub scan_lines : Bytes → List Bytes
unfolding nat_eq
scan_lines [] = []
scan_lines (c ∷ s) = let rest = scan_lines s in if c == 10 then [] ∷ rest else grown c rest

-- The map of parseEnvFile, the last setting of a key first.
abbrev pub Env : Type 0
Env = List (Bytes × Bytes)

-- One line of the loop.
unfoldable pub set_line : Bytes → Env → Env
set_line l m =
    let t = trim_space l in
    if t == [] || has_prefix t (codes "#")
    then m
    else elim (cut b'=' t) [ none ↦ m | some (k, v) ↦ (trim_space k, trim_space v) ∷ m ]

unfoldable pub set_lines : List Bytes → Env → Env
set_lines [] m = m
set_lines (l ∷ ls) m = set_lines ls (set_line l m)

-- bufio.Scanner's buffer, bufio.MaxScanTokenSize: a line that fills it ends the scan with an error.
abbrev pub line_limit : ℕ
line_limit = 65536

-- The lines that Scan gives before it stops.
unfoldable pub fitting : List Bytes → List Bytes
fitting [] = []
fitting (l ∷ ls) = let rest = fitting ls in if ltb (length l) line_limit then l ∷ rest else []

pub data EnvError : Type 0 where
  unreadable : FsError → EnvError
  line_too_long : EnvError

-- sc.Err()
unfoldable pub scan_error : List Bytes → Option EnvError
scan_error [] = none
scan_error (l ∷ ls) =
    let rest = scan_error ls in if ltb (length l) line_limit then rest else some line_too_long

-- parseEnvFile: the settings before a line that is too long come with the error.
unfoldable pub parse_env_file : FilePath → Disk → (Env × Option EnvError) × Disk
parse_env_file p d =
    let (r, d1) = read_file p d in
    elim r [
      | err e ↦ (([], some (unreadable e)), d1)
      | ok content ↦
          let lines = scan_lines content in ((set_lines (fitting lines) [], scan_error lines), d1)
    ]

-- m[key], which is empty for a key that is not there.
unfoldable pub env_value : Env → Bytes → Bytes
env_value [] key = []
env_value ((k, v) ∷ m) key = if key == k then v else env_value m key

-- envOr
unfoldable pub env_or : Env → Bytes → Bytes → Bytes
env_or m key def = if env_value m key == [] then def else env_value m key

-- The loop of queueDepth.
unfoldable pub json_files : List (Bytes × Node) → ℕ
json_files [] = 0
json_files ((name, node) ∷ es) =
    let n = json_files es in
    if not (is_dir node) && has_suffix name (codes ".json") then suc n else n

-- queueDepth, of the folder <state>/queue
unfoldable pub queue_depth : Bytes → Disk → ℕ × Disk
queue_depth queue_dir d =
    let (r, d1) = read_dir queue_dir d in elim r [ err _ ↦ (0, d1) | ok es ↦ (json_files es, d1) ]

-- fileExists
unfoldable pub file_exists : FilePath → Disk → Bool × Disk
file_exists p d = let (r, d1) = stat p d in elim r [ ok _ ↦ (true, d1) | err _ ↦ (false, d1) ]

-- presence, of the path p that is printed as `shown`
unfoldable pub presence : Bytes → FilePath → Disk → Bytes × Disk
presence shown p d =
    let (there, d1) = file_exists p d in
    ((if there then shown ++ codes " (present)" else shown ++ codes " (missing)"), d1)

-- What obtainCA asks of net/http and encoding/pem.
pub record Fetcher : Type 0 where
  pub get : Bytes → Option (ℕ × Bytes)
  pub is_pem : Bytes → Bool

-- What fetchCAInsecure reads of an answer at most, in bytes.
abbrev pub ca_limit : ℕ
ca_limit = 1048576

-- fetchCAInsecure
unfoldable pub fetch_ca_insecure : Fetcher → Bytes → Option Bytes
fetch_ca_insecure f url = elim (f.get url) [
  | none ↦ none
  | some (status, body) ↦
      let read = take ca_limit body in if status == 200 && f.is_pem read then some read else none
]

-- obtainCA: the CA, and whether it came over a connection that nothing vouches for. `locate` finds
-- the file that a path names.
unfoldable pub obtain_ca :
    Fetcher → (Bytes → FilePath) → Bytes → Bytes → Disk → (Option Bytes × Bool) × Disk
obtain_ca f locate ca_src ca_url d =
    if ca_src == []
    then ((fetch_ca_insecure f ca_url, true), d)
    else if has_prefix ca_src (codes "http://") || has_prefix ca_src (codes "https://")
    then ((fetch_ca_insecure f ca_src, true), d)
    else let (r, d1) = read_file (locate ca_src) d in
      elim r [ err _ ↦ ((none, false), d1) | ok b ↦ ((some b, false), d1) ]
