-- ===== src/Config.antt =====
-- internal/config/config.go
use shadow_twin.Prelude.{
  ℕ, ◌*◌, ◌<◌, Bytes, codes, ◌≡◌, Option, none, some, [], ◌==◌, bytes_eq, if◌then◌else◌, arith,
}
use shadow_twin.Transport.Backoff.{second}

-- Durations are nanoseconds.
pub record Config : Type 0 where
  pub state_dir : Bytes
  pub queue_dir : Bytes
  pub max_queue_events : ℕ
  pub max_queue_bytes : ℕ
  pub batch_size : ℕ
  pub flush_interval : ℕ
  pub ingest_endpoint : Bytes
  pub enroll_endpoint : Bytes
  pub enroll_token : Bytes
  pub cert_dir : Bytes
  pub backoff_base : ℕ
  pub backoff_cap : ℕ
  pub renew_endpoint : Bytes
  pub renew_before : ℕ
  pub renew_check_interval : ℕ

-- os.Getenv, where a variable that is not set is the empty text, os.UserHomeDir and filepath.Join.
pub record Os : Type 0 where
  pub getenv : Bytes → Bytes
  pub user_home_dir : Option Bytes
  pub join : Bytes → Bytes → Bytes

module _ (os : Os) where
  -- defaultStateDir
  unfoldable pub default_state_dir : Bytes
  default_state_dir = elim os.user_home_dir [
    | none ↦ codes ".host-agent"
    | some home ↦ if home == [] then codes ".host-agent" else os.join home (codes ".host-agent")
  ]

  abbrev hour : ℕ
  hour = 60 * 60 * second

  -- Default
  unfoldable pub default : Config
  default = record {
    state_dir = default_state_dir;
    queue_dir = os.join default_state_dir (codes "queue");
    max_queue_events = 100000;
    max_queue_bytes = 256 * 1048576;
    batch_size = 256;
    flush_interval = second;
    ingest_endpoint = codes "https://localhost:8443/ingest";
    enroll_endpoint = codes "https://localhost:8443/enroll";
    enroll_token = [];
    cert_dir = os.join default_state_dir (codes "certs");
    backoff_base = second;
    backoff_cap = 60 * second;
    renew_endpoint = codes "https://localhost:8443/renew";
    renew_before = 30 * 24 * hour;
    renew_check_interval = 6 * hour;
  }

  unfoldable pub with_state_dir : Config → Config
  with_state_dir c =
      let v = os.getenv (codes "HOST_AGENT_STATE_DIR") in
      if v == [] then c else record c {
        state_dir = v;
        queue_dir = os.join v (codes "queue");
        cert_dir = os.join v (codes "certs");
      }

  -- The value of a variable, or what stands already.
  unfoldable pub override : Bytes → Bytes → Bytes
  override name v = if os.getenv name == [] then v else os.getenv name

  -- Load
  unfoldable pub load : Config
  load =
      let c = with_state_dir default in
      record c {
        ingest_endpoint = override (codes "INGEST_ENDPOINT") c.ingest_endpoint;
        enroll_endpoint = override (codes "AGENT_ENROLL_ENDPOINT") c.enroll_endpoint;
        enroll_token = override (codes "AGENT_ENROLL_TOKEN") c.enroll_token;
        renew_endpoint = override (codes "AGENT_RENEW_ENDPOINT") c.renew_endpoint;
      }

  -- Whatever the environment is, the folders of the queue and of the certificates that Load chooses
  -- lie in the state folder that it chooses, the limits on events and bytes and the size of a batch
  -- are above 0, and the retries have the base of one second and the cap of one minute.
  pub load-dirs :
      (load.queue_dir ≡ os.join load.state_dir (codes "queue"))
      × (load.cert_dir ≡ os.join load.state_dir (codes "certs"))
      × (0 < load.max_queue_events)
      × (0 < load.max_queue_bytes)
      × (0 < load.batch_size)
      × (load.backoff_base ≡ second)
      × (load.backoff_cap ≡ 60 * second)
  unfolding load with_state_dir default
  load-dirs = (
    ground arith,
    ground arith,
    ground arith,
    ground arith,
    ground arith,
    ground arith,
    ground arith,
  )
