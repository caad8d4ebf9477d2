-- ===== src/Pki/Keys.antt =====
-- internal/pki/pki.go: the agent's keys and requests, the TLS configuration, and the certificates
-- that the authority issues for itself and for servers.
use shadow_twin.Prelude.{ℕ, ◌>>=◌, ◌+◌, ◌-◌, Bytes, codes, Option, none, some, List, [], ◌∷◌, ◌++◌}
use shadow_twin.Pki.{Ca, Template, server_auth, authority}

-- A private key that PKCS#8 can hold.
pub data PrivateKey : Type 0 where
  ecdsa : Bytes → PrivateKey
  other_kind : Bytes → PrivateKey

-- crypto/ecdsa, crypto/x509, crypto/tls, encoding/pem and net. `encode` is pem.EncodeToMemory for a
-- type and its bytes, `decode` the bytes of the first block of pem.Decode, `self_sign` and `create`
-- are x509.CreateCertificate, of a template on itself, and of one with the addresses and the names
-- of a server, with the issuer's certificate, the public key and the issuer's key; `add_years` is
-- time.AddDate.
pub record KeyTools : Type 0 where
  pub generate : Option Bytes
  pub marshal_pkcs8 : Bytes → Option Bytes
  pub parse_pkcs8 : Bytes → Option PrivateKey
  pub create_request : Bytes → Bytes → Option Bytes
  pub encode : Bytes → Bytes → Bytes
  pub decode : Bytes → Option Bytes
  pub public_key : Bytes → Bytes
  pub random_serial : Option ℕ
  pub create : Template → List Bytes → List Bytes → Bytes → Bytes → Bytes → Option Bytes
  pub self_sign : Template → Bytes → Bytes → Option Bytes
  pub parse_cert : Bytes → Option Bytes
  pub key_pair : Bytes → Bytes → Option Bytes
  pub append_certs : Bytes → Option Bytes
  pub parse_ip : Bytes → Option Bytes
  pub add_years : ℕ → ℕ → ℕ

-- tls.Config: the certificate that is shown, the roots that are trusted, and the least version.
pub record TlsConfig : Type 0 where
  pub certificate : Bytes
  pub root_cas : Bytes
  pub min_version : ℕ

-- tls.VersionTLS13
abbrev pub tls13 : ℕ
tls13 = 0x0304

module _ (k : KeyTools) where
  -- GenerateKey
  unfoldable pub generate_key : Option Bytes
  generate_key = k.generate

  -- MarshalKeyPEM
  unfoldable pub marshal_key_pem : Bytes → Option Bytes
  marshal_key_pem key = do der ← k.marshal_pkcs8 key; some (k.encode (codes "PRIVATE KEY") der)

  abbrev as_ecdsa : PrivateKey → Option Bytes
  as_ecdsa (ecdsa key) = some key
  as_ecdsa (other_kind key) = none

  -- ParseKeyPEM
  unfoldable pub parse_key_pem : Bytes → Option Bytes
  parse_key_pem p = do der ← k.decode p; key ← k.parse_pkcs8 der; as_ecdsa key

  -- MarshalCSRPEM
  unfoldable pub marshal_csr_pem : Bytes → Bytes → Option Bytes
  marshal_csr_pem key common_name = do
    der ← k.create_request common_name key
    some (k.encode (codes "CERTIFICATE REQUEST") der)

  -- CAPool
  unfoldable pub ca_pool : Bytes → Option Bytes
  ca_pool ca_pem = k.append_certs ca_pem

  -- ClientConfig
  unfoldable pub client_config : Bytes → Bytes → Bytes → Option TlsConfig
  client_config cert_pem key_pem ca_pem = do
    cert ← k.key_pair cert_pem key_pem
    pool ← ca_pool ca_pem
    some (record { certificate = cert; root_cas = pool; min_version = tls13 })

  unfoldable pub ca_template : ℕ → Bytes → ℕ → Template
  ca_template serial common_name now = record {
    serial = serial;
    subject = common_name;
    not_before = now - 60;
    not_after = k.add_years 10 now;
    usage = authority;
  }

  -- NewCA, at the time `now`
  unfoldable pub new_ca : Bytes → ℕ → Option Ca
  new_ca common_name now = do
    key ← generate_key
    serial ← k.random_serial
    der ← k.self_sign (ca_template serial common_name now) (k.public_key key) key
    cert ← k.parse_cert der
    some (record { cert = cert; key = key; cert_pem = k.encode (codes "CERTIFICATE") der })

  -- The loop over the hosts: the addresses and the names, each in the order of the hosts.
  unfoldable pub sort_hosts : List Bytes → List Bytes → List Bytes → List Bytes × List Bytes
  sort_hosts [] ips names = (ips, names)
  sort_hosts (h ∷ hosts) ips names = elim (k.parse_ip h) [
    | some ip ↦ sort_hosts hosts (ips ++ ip ∷ []) names
    | none ↦ sort_hosts hosts ips (names ++ h ∷ [])
  ]

  unfoldable pub server_template : ℕ → Bytes → ℕ → ℕ → Template
  server_template serial common_name now ttl = record {
    serial = serial;
    subject = common_name;
    not_before = now - 60;
    not_after = now + ttl;
    usage = server_auth;
  }

  -- IssueServerCert: the certificate and its key.
  unfoldable pub issue_server_cert : Ca → List Bytes → ℕ → ℕ → Option (Bytes × Bytes)
  issue_server_cert ca [] now ttl = none
  issue_server_cert ca (h ∷ hosts) now ttl = do
    key ← generate_key
    serial ← k.random_serial
    let names = sort_hosts (h ∷ hosts) [] []
    der ←
        k.create (server_template serial h now ttl) names.0 names.1 ca.cert (k.public_key key)
          ca.key
    key_pem ← marshal_key_pem key
    some (k.encode (codes "CERTIFICATE") der, key_pem)
