-- ===== src/Tests/Agents.antt =====
-- The start of the agent, its collector's and the platform's, on concrete hosts.
use shadow_twin.Prelude.{
  ◌≡◌, refl, codes, true, false, none, some, List, [], ◌∷◌, ◌⊎◌, arith, nat_eq, bytes_eq, ap,
  length, ◌==◌, if◌then◌else◌,
}
use shadow_twin.Fs.{
  path_eq, file, Disk, ok, stat, lookup, read_file, write_file, rename, insert, erase, mkdir_all,
  read_dir, entries,
}
use shadow_twin.Config.{load, with_state_dir}
use shadow_twin.Enroll.{
  key_path, cert_path, ca_path, ensure_identity, use_stored, all_there, exists, read_pems,
  new_identity,
}
use shadow_twin.Enroll.Issuing.{Ensured}
use shadow_twin.Enroll.Ensuring.{IsCurrent, ensure_identity-Ensured}
use shadow_twin.Agent.Start.{
  Machine, Ready, start_agent, build_sink, or_fatal, ensure_state_dir, limits_of, platform,
}
use shadow_twin.Agent.Start.Keeping.{Ships, start_agent-Ships}
use shadow_twin.Auth.{write_cursor}
use shadow_twin.Auth.Lifecycle.{
  Exec, Collector, start, idle, working, cancels, checks, closes, Action, conclude, closed, Runs,
  still, step, cancelling, checking, ending, stop_result,
}
use shadow_twin.Auth.Lifecycle.Resuming.{resume_args, write_cursor-start}
use shadow_twin.Auth.Lifecycle.Stopping.{HasStep, verdict, stop_result-verdict}
use shadow_twin.Fs.Actions.{◌>>=◌, ◌>>◌}
use shadow_twin.Buffer.Opening.{new_queue, open_queue, init, scan_loop, scan_entry}
use shadow_twin.Transport.{new_shipper}
use shadow_twin.Pki.{Ca}
use shadow_twin.Pki.Keys.{
  KeyTools, ecdsa, issue_server_cert, generate_key, marshal_key_pem, ca_pool, server_template,
}
use shadow_twin.Platform.Startup.{server_hosts, set_up_tls}
use shadow_twin.Platform.Startup.Names.{IsServed, set_up_tls-IsServed}
use shadow_twin.Tests.Host.{crypto, certs, os, identity}
use shadow_twin.Tests.Journal.{a_trimmed}

abbrev disk : Disk
disk = record {
  files =
      (key_path certs, file 0o600 (codes "k"))
      ∷ (cert_path certs, file 0o644 (codes "x"))
      ∷ (ca_path certs, file 0o644 (codes "CA"))
      ∷ [];
  faults = [];
}

ensured : ensure_identity crypto 50 (load os) certs none disk ≡ (ok identity, disk)
unfolding ensure_identity use_stored all_there exists read_pems new_identity path_eq bytes_eq nat_eq
    stat lookup read_file
ensured = refl

ensure_identity-Ensured_example :
    Ensured crypto certs identity disk.files
    × IsCurrent crypto certs 50 (load os) none identity disk
ensure_identity-Ensured_example =
    ensure_identity-Ensured crypto certs 50 (load os) none identity disk disk ensured

abbrev machine : Machine
machine = record {
  now = 50;
  hostname = none;
  state_folder = record { dir = codes "/"; name = codes "v" };
  certs = certs;
}

abbrev ready : Ready
ready = record {
  config = load os;
  queue = new_queue (load os).queue_dir (limits_of (load os));
  sink = platform (new_shipper (load os).ingest_endpoint []) identity;
}

started :
    start_agent crypto machine os false disk
    ≡ (ok ready, (start_agent crypto machine os false disk).1)
unfolding start_agent build_sink or_fatal ensure_state_dir mkdir_all open_queue init scan_loop
    read_dir entries ensure_identity use_stored all_there exists read_pems new_identity path_eq
    bytes_eq nat_eq stat lookup read_file insert ◌>>=◌ ◌>>◌ new_shipper load with_state_dir
    scan_entry
started = refl

start_agent-Ships_example :
    Ships crypto machine (load os) ready.sink (start_agent crypto machine os false disk).1
start_agent-Ships_example =
    start_agent-Ships crypto machine os disk (start_agent crypto machine os false disk).1 ready
      started

abbrev exec : Exec
exec = record { look_path = λ c. some (codes "/bin/j"); has_pipe = true; starts = true }

abbrev collector : Collector
collector = record {
  cursor_file = record { dir = codes "s"; name = codes "c" };
  is_cancelled = false;
  phase = idle;
  error = none;
}

abbrev blank : Disk
blank = record { files = []; faults = [] }

abbrev with_cursor : Disk
with_cursor = (write_cursor collector.cursor_file (codes "a") blank).1

cursor_written : write_cursor collector.cursor_file (codes "a") blank ≡ (ok tt, with_cursor)
unfolding write_cursor write_file rename insert erase lookup path_eq bytes_eq nat_eq
cursor_written = refl

no_faults : with_cursor.faults ≡ []
unfolding write_cursor write_file rename insert erase lookup path_eq bytes_eq nat_eq
no_faults = refl

write_cursor-start_example :
    (start exec collector with_cursor).0.0
    ≡ ok (record { path = codes "/bin/j"; args = resume_args (codes "a") })
write_cursor-start_example =
    write_cursor-start exec (codes "/bin/j") collector (codes "a") blank with_cursor with_cursor
      a_trimmed (λ e. omega (arith, ap length e)) cursor_written refl no_faults refl refl refl

abbrev running : Collector
running = record collector { phase = working }

-- Stop cancels while the scan is ending; both the scan and the process fail of it.
abbrev stopping : List Action
stopping = cancels ∷ checks true true ∷ closes ∷ []

abbrev gone : Collector
gone = record (conclude true true (record running { is_cancelled = true })) { phase = closed }

stopped : Runs running stopping gone
unfolding conclude
stopped = step cancelling (step (checking true true refl) (step (ending refl) still))

stop_result-verdict_example :
    (stop_result gone ≡ some (verdict stopping)) ⊎ ((stop_result gone ≡ none) × HasStep gone)
stop_result-verdict_example = stop_result-verdict stopping running gone stopped refl refl refl

abbrev tools : KeyTools
tools = record {
  generate = some (codes "k");
  marshal_pkcs8 = λ k. some k;
  parse_pkcs8 = λ d. some (ecdsa d);
  create_request = λ n k. some n;
  encode = λ t b. b;
  decode = λ p. some p;
  public_key = λ k. k;
  random_serial = some 5;
  create = λ t i n c p k. some t.subject;
  self_sign = λ t p k. some t.subject;
  parse_cert = λ d. some d;
  key_pair = λ c k. some c;
  append_certs = λ c. some c;
  parse_ip = λ h. if h == codes "127.0.0.1" then some h else none;
  add_years = λ n t. t;
}

abbrev ca : Ca
ca = record { cert = codes "C"; key = codes "K"; cert_pem = codes "P" }

tls_set_up : set_up_tls tools ca (codes "p, q,") 1000 ≡ some (codes "localhost", codes "P")
unfolding set_up_tls issue_server_cert server_hosts generate_key marshal_key_pem ca_pool
    server_template
tls_set_up = refl

set_up_tls-IsServed_example : IsServed tools ca (codes "p, q,") 1000 (codes "localhost")
set_up_tls-IsServed_example =
    set_up_tls-IsServed tools ca (codes "p, q,") 1000 (codes "localhost") (codes "P") tls_set_up
