-- ===== src/Platform/Startup.antt =====
-- cmd/mock-platform/main.go: main, up to the listener.
pub mod Names
use shadow_twin.Prelude.{
  ℕ, ◌*◌, ◌>>=◌, Bytes, codes, Option, none, some, List, [], ◌∷◌, ◌++◌, ◌==◌, bytes_eq,
  if◌then◌else◌,
}
use shadow_twin.Text.{trim_space, split_on}
use shadow_twin.Fs.{FilePath, Disk, FsError, Result, ok, err, write_file}
use shadow_twin.Pki.{Ca}
use shadow_twin.Pki.Keys.{KeyTools, new_ca, issue_server_cert, ca_pool}
use shadow_twin.Platform.{Server}

-- The flags.
pub record Flags : Type 0 where
  pub token : Bytes
  pub ca_out : FilePath
  pub host : Bytes

-- The hosts of the flag -host: the parts that are not blank.
unfoldable pub extra_hosts : List Bytes → List Bytes
extra_hosts [] = []
extra_hosts (h ∷ hosts) =
    let rest = extra_hosts hosts in if trim_space h == [] then rest else trim_space h ∷ rest

unfoldable pub server_hosts : Bytes → List Bytes
server_hosts host = codes "localhost" ∷ codes "127.0.0.1" ∷ extra_hosts (split_on b',' host)

-- What ListenAndServeTLS starts from.
pub record Listener : Type 0 where
  pub server : Server
  pub server_cert : Bytes
  pub client_cas : Bytes

abbrev day : ℕ
day = 24 * 60 * 60

module _ (k : KeyTools) where
  -- The certificate of the server and the pool of the clients' authority.
  unfoldable pub set_up_tls : Ca → Bytes → ℕ → Option (Bytes × Bytes)
  set_up_tls ca host now = do
    issued ← issue_server_cert k ca (server_hosts host) now day
    server_cert ← k.key_pair issued.0 issued.1
    client_cas ← ca_pool k ca.cert_pem
    some (server_cert, client_cas)

  -- main; `none` is log.Fatalf.
  unfoldable pub start_up : Flags → ℕ → Disk → Option Listener × Disk
  start_up flags now d = elim (new_ca k (codes "ShadowTwin Mock Platform CA") now) [
    | none ↦ (none, d)
    | some ca ↦
        let (r, d1) = write_file flags.ca_out ca.cert_pem 0o644 d in
        elim r [
          | err e ↦ (none, d1)
          | ok _ ↦ elim (set_up_tls ca flags.host now) [
            | none ↦ (none, d1)
            | some (server_cert, client_cas) ↦ (
              some (record {
                server = record { ca = ca; token = flags.token; revoked = [] };
                server_cert = server_cert;
                client_cas = client_cas;
              }),
              d1,
            )
          ]
        ]
  ]
