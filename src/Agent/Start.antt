-- ===== src/Agent/Start.antt =====
-- cmd/agent/main.go: the choice of the command, the start of the agent, and the renewal loop.
pub mod Keeping
use shadow_twin.Prelude.{
  ℕ, ◌/◌, Bytes, codes, Bool, true, false, not, ◌||◌, Option, none, some, List, [], ◌∷◌, ◌==◌,
  bytes_eq, if◌then◌else◌,
}
use shadow_twin.Text.{has_prefix}
use shadow_twin.Fs.{FilePath, Disk, FsError, Result, ok, err, mkdir_all}
use shadow_twin.Fs.Actions.{Action, ◌>>=◌, ◌>>◌, pure}
use shadow_twin.Config.{Config, Os, load}
use shadow_twin.Collectors.Event.{Event}
use shadow_twin.Buffer.{Queue, Limits, QueueError}
use shadow_twin.Buffer.Opening.{open_queue}
use shadow_twin.Transport.{SendError, retryable, Shipper, new_shipper}
use shadow_twin.Transport.Backoff.{second}
use shadow_twin.Enroll.{Crypto, Certs, Identity, EnrollError, needs_renewal, ensure_identity, renew}

-- The command that main runs, with its arguments.
pub data Chosen : Type 0 where
  run install uninstall status doctor : List Bytes → Chosen
  unknown : Bytes → Chosen

abbrev by_name : Bytes → List Bytes → Chosen
by_name cmd args =
    if cmd == [] || cmd == codes "run"
    then run args
    else if cmd == codes "install"
    then install args
    else if cmd == codes "uninstall"
    then uninstall args
    else if cmd == codes "status"
    then status args
    else if cmd == codes "doctor"
    then doctor args
    else unknown cmd

-- main
unfoldable pub choose : List Bytes → Chosen
choose [] = by_name [] []
choose (a ∷ args) = if has_prefix a (codes "-") then by_name [] (a ∷ args) else by_name a args

-- Where the consumer delivers: the standard output, or the platform under the agent's identity.
pub data Sink : Type 0 where
  stdout : Sink
  platform : Shipper → Identity → Sink

-- The delivery of a dry run: the first event that does not encode ends it.
unfoldable pub deliver_stdout : (Event → Bool) → List Event → Option SendError
deliver_stdout encode [] = none
deliver_stdout encode (ev ∷ evs) = elim (encode ev) [
  | false ↦ some retryable
  | true ↦ deliver_stdout encode evs
]

-- What ends the start: log.Fatalf.
pub data StartError : Type 0 where
  no_state_dir : FsError → StartError
  no_buffer : QueueError → StartError
  no_sink : EnrollError → StartError

-- A call on the disk whose error ends the start.
unfoldable pub or_fatal :
    {E A : Type 0} → (E → StartError) → (Disk → Result E A × Disk) → Action Disk StartError A
or_fatal fatal call d =
    let (r, d1) = call d in elim r [ err e ↦ (err (fatal e), d1) | ok a ↦ (ok a, d1) ]

-- The host: its clock in seconds, its name, and the folders that the paths of the configuration
-- name.
pub record Machine : Type 0 where
  pub now : ℕ
  pub hostname : Option Bytes
  pub state_folder : FilePath
  pub certs : Certs

abbrev pub host_name : Option Bytes → Bytes
host_name none = []
host_name (some h) = h

-- EnsureStateDir
unfoldable pub ensure_state_dir : Machine → Disk → Result FsError (Unit {0}) × Disk
ensure_state_dir m d = mkdir_all m.state_folder d

-- What runAgent goes on with.
pub record Ready : Type 0 where
  pub config : Config
  pub queue : Queue
  pub sink : Sink

abbrev pub limits_of : Config → Limits
limits_of cfg = record { max_events = cfg.max_queue_events; max_bytes = cfg.max_queue_bytes }

-- A check of the renewal loop: its time in seconds, and what the platform answers to it.
pub record Check : Type 0 where
  pub at : ℕ
  pub post : Bytes → Option Bytes → Bytes → Option (ℕ × Bytes)

module _ (x : Crypto) (m : Machine) where
  -- buildSink
  unfoldable pub build_sink : Bool → Config → Action Disk StartError Sink
  build_sink true cfg = pure stdout
  build_sink false cfg = do
    i ← or_fatal no_sink (ensure_identity x m.now cfg m.certs m.hostname)
    pure (platform (new_shipper cfg.ingest_endpoint (host_name m.hostname)) i)

  -- runAgent, up to the start of the collector.
  unfoldable pub start_agent : Os → Bool → Action Disk StartError Ready
  start_agent os dry_run = do
    or_fatal no_state_dir (ensure_state_dir m)
    q ← or_fatal no_buffer (open_queue (load os).queue_dir (limits_of (load os)))
    sink ← build_sink dry_run (load os)
    pure (record { config = load os; queue = q; sink = sink })

  unfoldable pub renewal_check : Config → Check → Identity × Disk → Identity × Disk
  renewal_check cfg t (i, d) =
      if needs_renewal t.at (cfg.renew_before / second) i
      then (renew (record x { post = t.post }) cfg m.hostname i d).1
      else (i, d)

  -- renewalLoop, on its checks up to the shutdown: one at once, and one for each tick.
  unfoldable pub renewal_loop : Config → List Check → Identity × Disk → Identity × Disk
  renewal_loop cfg [] s = s
  renewal_loop cfg (t ∷ ts) s = renewal_loop cfg ts (renewal_check cfg t s)
