-- ===== src/Pki.antt =====
-- internal/pki/pki.go: how the platform's certificate authority signs a request.
pub mod Keys
use shadow_twin.Prelude.{ℕ, ◌>>=◌, ◌+◌, ◌-◌, ◌*◌, Bytes, Option, none, some, Bool, if◌then◌else◌}

-- The rights of a certificate.
pub data Usage : Type 0 where
  client_auth server_auth authority : Usage

pub record Template : Type 0 where
  pub serial : ℕ
  pub subject : Bytes
  pub not_before : ℕ
  pub not_after : ℕ
  pub usage : Usage

-- A parsed certificate request: its subject and its public key.
pub record Csr : Type 0 where
  pub subject : Bytes
  pub public_key : Bytes

pub record Ca : Type 0 where
  pub cert : Bytes
  pub key : Bytes
  pub cert_pem : Bytes

-- crypto/x509, encoding/pem and crypto/rand. `create` takes the template, the issuer's certificate,
-- the subject's public key and the issuer's key.
pub record X509 : Type 0 where
  pub pem_block : Bytes → Option Bytes
  pub parse_request : Bytes → Option Csr
  pub check_signature : Bytes → Bool
  pub random_serial : Option ℕ
  pub create : Template → Bytes → Bytes → Bytes → Option Bytes
  pub encode_cert : Bytes → Bytes

-- Times are seconds.
abbrev minute : ℕ
minute = 60

abbrev pub cert_ttl : ℕ
cert_ttl = 90 * 24 * 60 * 60

unfoldable pub client_template : ℕ → Csr → ℕ → ℕ → Template
client_template serial csr now ttl = record {
  serial = serial;
  subject = csr.subject;
  not_before = now - minute;
  not_after = now + ttl;
  usage = client_auth;
}

module _ (x : X509) where
  -- SignCSR, from the parsed request on.
  unfoldable pub sign_parsed : Ca → Csr → ℕ → ℕ → Option Bytes
  sign_parsed ca csr now ttl = do
    serial ← x.random_serial
    der ← x.create (client_template serial csr now ttl) ca.cert csr.public_key ca.key
    some (x.encode_cert der)

  -- SignCSR
  unfoldable pub sign_csr : Ca → Bytes → ℕ → ℕ → Option Bytes
  sign_csr ca csr_pem now ttl = do
    der ← x.pem_block csr_pem
    csr ← x.parse_request der
    if x.check_signature der then sign_parsed ca csr now ttl else none
