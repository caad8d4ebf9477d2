-- ===== src/Enroll.antt =====
-- internal/enroll/enroll.go: the agent's identity, on the disk and in memory.
pub mod Storage
pub mod Issuing
pub mod Ensuring
use shadow_twin.Prelude.{
  take, ℕ, ◌+◌, ◌≤◌, ◌>>=◌, Bytes, codes, Bool, true, false, not, ◌&&◌, Option, none, some, [], ◌∷◌,
  ◌++◌, ◌==◌, nat_eq, bytes_eq, ltb, leb, if◌then◌else◌,
}
use shadow_twin.Fs.{
  FilePath, Disk, FsError, Result, ok, err, stat, read_file, write_file, rename, remove, mkdir_all,
}
use shadow_twin.Config.{Config}

-- What the package asks of crypto, encoding and net/http. `key_pair` is tls.X509KeyPair with
-- x509.ParseCertificate, which gives the certificate's expiry in seconds; `post` gives the status
-- and the body of an answer, to an endpoint, with a token, of a request.
pub record Crypto : Type 0 where
  pub key_pair : Bytes → Bytes → Option ℕ
  pub parse_key : Bytes → Option Bytes
  pub ca_pool : Bytes → Bool
  pub generate_key : Option Bytes
  pub marshal_key : Bytes → Option Bytes
  pub marshal_csr : Bytes → Bytes → Option Bytes
  pub marshal_request : Bytes → Bytes → Option Bytes
  pub post : Bytes → Option Bytes → Bytes → Option (ℕ × Bytes)
  pub cert_of : Bytes → Option Bytes

-- The paths of the three files.
pub record Certs : Type 0 where
  pub dir : Bytes
  pub folder : FilePath

abbrev pub key_path : Certs → FilePath
key_path c = record { dir = c.dir; name = codes "client.key" }

abbrev pub cert_path : Certs → FilePath
cert_path c = record { dir = c.dir; name = codes "client.crt" }

abbrev pub ca_path : Certs → FilePath
ca_path c = record { dir = c.dir; name = codes "ca.crt" }

-- Identity
pub record Identity : Type 0 where
  pub key : Bytes
  pub key_pem : Bytes
  pub cert_pem : Bytes
  pub not_after : ℕ
  pub ca_pem : Bytes
  pub cert_file : FilePath

pub data EnrollError : Type 0 where
  io : FsError → EnrollError
  bad_key_pair bad_ca expired no_token crypto post_failed : EnrollError

-- agentID; os.Hostname fails with `none`.
unfoldable pub agent_id : Option Bytes → Bytes
agent_id none = codes "unknown-host"
agent_id (some h) = if h == [] then codes "unknown-host" else h

-- NeedsRenewal, where the rest of the life and the window are seconds.
unfoldable pub needs_renewal : ℕ → ℕ → Identity → Bool
needs_renewal now before i = leb i.not_after (now + before)

abbrev pub tmp_of : FilePath → FilePath
tmp_of p = record { dir = p.dir; name = p.name ++ codes ".tmp" }

-- writeFileAtomic
unfoldable pub write_file_atomic : FilePath → Bytes → ℕ → Disk → Result FsError (Unit {0}) × Disk
write_file_atomic p content perm d =
    let (r, d1) = write_file (tmp_of p) content perm d in
    elim r [
      | err e ↦ (err e, d1)
      | ok _ ↦
          let (r2, d2) = rename (tmp_of p) p d1 in
          elim r2 [ err e ↦ let (_, d3) = remove (tmp_of p) d2 in (err e, d3) | ok _ ↦ (ok tt, d2) ]
    ]

-- fileExists
unfoldable pub exists : FilePath → Disk → Bool × Disk
exists p d = let (r, d1) = stat p d in elim r [ ok _ ↦ (true, d1) | err _ ↦ (false, d1) ]

-- The test on the three files, which stops at the first that is missing.
unfoldable pub all_there : Certs → Disk → Bool × Disk
all_there c d =
    let (k, d1) = exists (key_path c) d in
    elim k [
      | false ↦ (false, d1)
      | true ↦
          let (x, d2) = exists (cert_path c) d1 in
          elim x [ false ↦ (false, d2) | true ↦ exists (ca_path c) d2 ]
    ]

-- readPEMs: the certificate, the key and the CA.
unfoldable pub read_pems : Certs → Disk → Result FsError (Bytes × Bytes × Bytes) × Disk
read_pems c d =
    let (r1, d1) = read_file (cert_path c) d in
    elim r1 [
      | err e ↦ (err e, d1)
      | ok cert ↦
          let (r2, d2) = read_file (key_path c) d1 in
          elim r2 [
            | err e ↦ (err e, d2)
            | ok key ↦
                let (r3, d3) = read_file (ca_path c) d2 in
                elim r3 [ err e ↦ (err e, d3) | ok ca ↦ (ok (cert, key, ca), d3) ]
          ]
    ]

-- What postCSR reads of an answer at most, in bytes.
abbrev pub answer_limit : ℕ
answer_limit = 1048576

module _ (x : Crypto) where
  -- newIdentity
  unfoldable pub new_identity : Bytes → Bytes → Bytes → FilePath → Result EnrollError Identity
  new_identity cert_pem key_pem ca_pem cert_file = elim (x.key_pair cert_pem key_pem) [
    | none ↦ err bad_key_pair
    | some not_after ↦ elim (x.parse_key key_pem) [
      | none ↦ err crypto
      | some key ↦
          if x.ca_pool ca_pem
          then ok (record {
            key = key;
            key_pem = key_pem;
            cert_pem = cert_pem;
            not_after = not_after;
            ca_pem = ca_pem;
            cert_file = cert_file;
          })
          else err bad_ca
    ]
  ]

  -- The header Authorization of postCSR.
  abbrev authorization : Bytes → Option Bytes
  authorization token = if token == [] then none else some (codes "Bearer " ++ token)

  abbrev issued_cert : Option (ℕ × Bytes) → Option Bytes
  issued_cert none = none
  issued_cert (some (status, body)) =
      if status == 200 then x.cert_of (take answer_limit body) else none

  -- postCSR; an answer without a certificate is an error.
  unfoldable pub post_csr : Bytes → Bytes → Bytes → Bytes → Option Bytes
  post_csr endpoint token csr_pem id = do
    body ← x.marshal_request csr_pem id
    cert ← issued_cert (x.post endpoint (authorization token) body)
    if cert == [] then none else some cert

  -- The key and the request of an enrolment, and the certificate that the platform gives for them.
  unfoldable pub request_identity :
      Config → Option Bytes → Bytes → Result EnrollError (Bytes × Bytes)
  request_identity cfg hostname ca_pem = elim (x.generate_key) [
    | none ↦ err crypto
    | some key ↦ elim (x.marshal_key key) [
      | none ↦ err crypto
      | some key_pem ↦ elim (x.marshal_csr key (agent_id hostname)) [
        | none ↦ err crypto
        | some csr_pem ↦
            if not (x.ca_pool ca_pem)
            then err bad_ca
            else elim (post_csr cfg.enroll_endpoint cfg.enroll_token csr_pem (agent_id hostname)) [
              | none ↦ err post_failed
              | some cert_pem ↦ ok (cert_pem, key_pem)
            ]
      ]
    ]
  ]

  -- The private key is stored before the certificate.
  unfoldable pub store_identity :
      Certs → Bytes → Bytes → Bytes → Disk → Result EnrollError Identity × Disk
  store_identity c cert_pem key_pem ca_pem d =
      let (r1, d1) = write_file_atomic (key_path c) key_pem 0o600 d in
      elim r1 [
        | err e ↦ (err (io e), d1)
        | ok _ ↦
            let (r2, d2) = write_file_atomic (cert_path c) cert_pem 0o644 d1 in
            elim r2 [
              | err e ↦ (err (io e), d2)
              | ok _ ↦ (new_identity cert_pem key_pem ca_pem (cert_path c), d2)
            ]
      ]

  -- EnsureIdentity, from the reading of the platform's CA on.
  unfoldable pub enroll : Config → Certs → Option Bytes → Disk → Result EnrollError Identity × Disk
  enroll cfg c hostname d =
      let (r, d1) = read_file (ca_path c) d in
      elim r [
        | err e ↦ (err (io e), d1)
        | ok ca_pem ↦
            if cfg.enroll_token == []
            then (err no_token, d1)
            else let (r2, d2) = mkdir_all c.folder d1 in
              elim r2 [
                | err e ↦ (err (io e), d2)
                | ok _ ↦ elim (request_identity cfg hostname ca_pem) [
                  | err e ↦ (err e, d2)
                  | ok (cert_pem, key_pem) ↦ store_identity c cert_pem key_pem ca_pem d2
                ]
              ]
      ]

  -- What EnsureIdentity does with a stored identity: it is used, or has expired.
  unfoldable pub use_stored :
      ℕ
      → Config
      → Certs
      → Option Bytes
      → Result EnrollError Identity
      → Disk
      → Result EnrollError Identity × Disk
  use_stored now cfg c hostname (err e) d = (err e, d)
  use_stored now cfg c hostname (ok i) d =
      if ltb now i.not_after
      then (ok i, d)
      else if cfg.enroll_token == []
      then (err expired, d)
      else enroll cfg c hostname d

  -- EnsureIdentity, at the time `now`
  unfoldable pub ensure_identity :
      ℕ → Config → Certs → Option Bytes → Disk → Result EnrollError Identity × Disk
  ensure_identity now cfg c hostname d =
      let (there, d1) = all_there c d in
      elim there [
        | false ↦ enroll cfg c hostname d1
        | true ↦
            let (r, d2) = read_pems c d1 in
            elim r [
              | err e ↦ (err (io e), d2)
              | ok (cert, key, ca) ↦
                  use_stored now cfg c hostname (new_identity cert key ca (cert_path c)) d2
            ]
      ]

  -- Renew: the identity in memory is swapped first, and the file is written then.
  unfoldable pub renew :
      Config → Option Bytes → Identity → Disk → Option EnrollError × (Identity × Disk)
  renew cfg hostname i d = elim (x.marshal_csr i.key (agent_id hostname)) [
    | none ↦ (some crypto, (i, d))
    | some csr_pem ↦ elim (post_csr cfg.renew_endpoint [] csr_pem (agent_id hostname)) [
      | none ↦ (some post_failed, (i, d))
      | some cert_pem ↦ elim (x.key_pair cert_pem i.key_pem) [
        | none ↦ (some bad_key_pair, (i, d))
        | some not_after ↦
            let (r, d1) = write_file_atomic i.cert_file cert_pem 0o644 d in
            let i1 = record i { cert_pem = cert_pem; not_after = not_after } in
            elim r [ err e ↦ (some (io e), (i1, d1)) | ok _ ↦ (none, (i1, d1)) ]
      ]
    ]
  ]
