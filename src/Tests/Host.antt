-- ===== src/Tests/Host.antt =====
-- The host's side on concrete data: the stored identity, the installer's
-- files and the configuration.
use shadow_twin.Prelude.{
  ℕ, ◌≡◌, refl, Bytes, codes, true, Option, none, some, [], ◌∷◌, ◌++◌, arith, nat_eq, bytes_eq, ◌<◌,
}
use shadow_twin.Prelude.Int.{pos}
use shadow_twin.Text.{is_space}
use shadow_twin.Fs.{FilePath, path_eq, file, Disk, refused, lookup, err}
use shadow_twin.Collectors.Uuid.{Random16, new_uuid}
use shadow_twin.Collectors.Uuid.Shape.{IsFilled, Fits, uuid4_template, new_uuid-Fits}
use shadow_twin.Transport.Backoff.{second}
use shadow_twin.Prelude.{◌*◌}
use shadow_twin.Config.{Os, load, load-dirs}
use shadow_twin.Enroll.{
  Crypto, Certs, Identity, bad_key_pair, key_path, cert_path, ca_path, write_file_atomic,
  ensure_identity,
}
use shadow_twin.Enroll.Storage.{Atomic, write_file_atomic-Atomic, ensure_identity-mismatch}
use shadow_twin.Onboard.{InstallOpts, env_file_content, parse_env_file, queue_depth}
use shadow_twin.Onboard.EnvFile.{every, solid, IsPlain, parse_env_file-env_file_content}
use shadow_twin.Onboard.Depth.{queue_depth-count}
use shadow_twin.Tests.{spool, spool-Tally, dir}

-- The first call is refused.
abbrev disk : Disk
disk = record { files = []; faults = some refused ∷ [] }

abbrev pub os : Os
os = record { getenv = λ k. codes "v"; user_home_dir = none; join = λ a b. a ++ (b'/' ∷ b) }

load-dirs_example :
    ((load os).queue_dir ≡ os.join (load os).state_dir (codes "queue"))
    × ((load os).cert_dir ≡ os.join (load os).state_dir (codes "certs"))
    × (0 < (load os).max_queue_events)
    × (0 < (load os).max_queue_bytes)
    × (0 < (load os).batch_size)
    × ((load os).backoff_base ≡ second)
    × ((load os).backoff_cap ≡ 60 * second)
load-dirs_example = load-dirs os

-- A certificate belongs to a key of the same bytes.
abbrev pub pair : Bytes → Bytes → Option ℕ
pair (c ∷ _) (k ∷ _) = some 100
pair _ _ = none

abbrev pub crypto : Crypto
crypto = record {
  key_pair = pair;
  parse_key = λ k. some k;
  ca_pool = λ c. true;
  generate_key = some (codes "k");
  marshal_key = λ k. some k;
  marshal_csr = λ k i. some k;
  marshal_request = λ c i. some c;
  post = λ e t b. some (200, b);
  cert_of = λ b. some b;
}

abbrev pub certs : Certs
certs = record { dir = codes "c"; folder = record { dir = codes "s"; name = codes "c" } }

-- The stored certificate is empty, so it is not the key's.
abbrev stored : Disk
stored = record {
  files =
      (key_path certs, file 0o600 (codes "k"))
      ∷ (cert_path certs, file 0o644 [])
      ∷ (ca_path certs, file 0o644 (codes "CA"))
      ∷ [];
  faults = [];
}

cert_there : lookup (cert_path certs) stored.files ≡ some (file 0o644 [])
unfolding lookup path_eq bytes_eq nat_eq
cert_there = refl

key_there : lookup (key_path certs) stored.files ≡ some (file 0o600 (codes "k"))
unfolding lookup path_eq bytes_eq nat_eq
key_there = refl

ca_there : lookup (ca_path certs) stored.files ≡ some (file 0o644 (codes "CA"))
unfolding lookup path_eq bytes_eq nat_eq
ca_there = refl

ensure_identity-mismatch_example :
    ensure_identity crypto 50 (load os) certs none stored ≡ (err bad_key_pair, stored)
ensure_identity-mismatch_example =
    ensure_identity-mismatch crypto certs [] (codes "k") (codes "CA") 0o644 0o600 0o644 stored refl
      cert_there key_there ca_there 50 (load os) none refl

write_file_atomic-Atomic_example :
    Atomic
      (key_path certs)
      (codes "n")
      0o600
      disk
      (write_file_atomic (key_path certs) (codes "n") 0o600 disk).0
      (write_file_atomic (key_path certs) (codes "n") 0o600 disk).1.files
write_file_atomic-Atomic_example = write_file_atomic-Atomic (key_path certs) (codes "n") 0o600 disk

abbrev pub identity : Identity
identity = record {
  key = codes "k";
  key_pem = codes "k";
  cert_pem = codes "x";
  not_after = 100;
  ca_pem = codes "CA";
  cert_file = cert_path certs;
}

abbrev opts : InstallOpts
opts = record {
  server = codes "https://p";
  token = codes "t";
  user = codes "u";
  bin_path = codes "/b";
  state_dir = codes "/s";
  env_file = codes "/e";
  unit_path = codes "/f";
  svc_name = codes "n";
}

abbrev env_path : FilePath
env_path = record { dir = codes "/etc"; name = codes "e" }

abbrev installed : Disk
installed = record {
  files = (env_path, file 0o600 (env_file_content opts (codes "E") (codes "I") (codes "R"))) ∷ [];
  faults = [];
}

env_there :
    lookup env_path installed.files
    ≡ some (file 0o600 (env_file_content opts (codes "E") (codes "I") (codes "R")))
unfolding lookup path_eq bytes_eq nat_eq
env_there = refl

values-IsPlain :
    IsPlain opts.state_dir
    × IsPlain opts.token
    × IsPlain (codes "E")
    × IsPlain (codes "I")
    × IsPlain (codes "R")
unfolding every solid is_space nat_eq
values-IsPlain = (
  record { chars = refl; short = omega arith },
  record { chars = refl; short = omega arith },
  record { chars = refl; short = omega arith },
  record { chars = refl; short = omega arith },
  record { chars = refl; short = omega arith },
)

parse_env_file-env_file_content_example : (parse_env_file env_path installed).0 ≡ (
  (codes "AGENT_ENROLL_TOKEN", codes "t")
      ∷ (codes "AGENT_RENEW_ENDPOINT", codes "R")
      ∷ (codes "AGENT_ENROLL_ENDPOINT", codes "E")
      ∷ (codes "INGEST_ENDPOINT", codes "I")
      ∷ (codes "HOST_AGENT_STATE_DIR", codes "/s")
      ∷ [],
  none,
)
parse_env_file-env_file_content_example =
    parse_env_file-env_file_content opts (codes "E") (codes "I") (codes "R") values-IsPlain.0
      values-IsPlain.1 values-IsPlain.2 values-IsPlain.3 values-IsPlain.4 env_path installed 0o600
      env_there refl

queue_depth-count_example : pos (queue_depth dir spool.disk).0 ≡ spool.queue.count
queue_depth-count_example = queue_depth-count spool spool-Tally refl

-- Two draws that differ in the bits that the version takes.
abbrev draw : ℕ → Random16
draw n = record {
  b0 = 1;
  b1 = 2;
  b2 = 3;
  b3 = 4;
  b4 = 5;
  b5 = 6;
  b6 = n;
  b7 = 8;
  b8 = 9;
  b9 = 10;
  b10 = 11;
  b11 = 12;
  b12 = 13;
  b13 = 14;
  b14 = 15;
  b15 = 16;
}

draw-IsFilled : (n : ℕ) → n < 256 → IsFilled (draw n)
draw-IsFilled n h = record {
  head4 = (omega arith, (omega arith, (omega arith, (omega arith, tt))));
  pair4 = (omega arith, (omega arith, tt));
  pair6 = (h, (omega arith, tt));
  pair8 = (omega arith, (omega arith, tt));
  node =
      (omega arith, (omega arith, (omega arith, (omega arith, (omega arith, (omega arith, tt))))));
}

new_uuid-Fits_example : Fits uuid4_template (new_uuid (draw 7))
new_uuid-Fits_example = new_uuid-Fits (draw 7) (draw-IsFilled 7 (omega arith))
