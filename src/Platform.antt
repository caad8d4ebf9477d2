-- ===== src/Platform.antt =====
-- cmd/mock-platform/main.go: the handlers of the development platform on its state. A handler takes
-- the request and gives the state and the answer.
pub mod Revocation
pub mod Client
pub mod Enrolling
pub mod Startup
use shadow_twin.Prelude.{
  take, ℕ, Bytes, codes, Bool, true, false, not, ◌||◌, Option, none, some, List, [], ◌∷◌, ◌++◌,
  ◌==◌, nat_eq, bytes_eq, if◌then◌else◌,
}
use shadow_twin.Pki.{Ca, X509, sign_csr, cert_ttl}

-- The parts of *http.Request that the handlers read. `peers` has the common names of the verified
-- client certificates, or `none` without TLS.
pub record Request : Type 0 where
  pub method : Bytes
  pub authorization : Bytes
  pub content_encoding : Bytes
  pub peers : Option (List Bytes)
  pub body : Bytes

pub data Body : Type 0 where
  empty : Body
  message : Bytes → Body
  pem : Bytes → Body
  issued : Bytes → Bytes → Body

pub record Response : Type 0 where
  pub status : ℕ
  pub body : Body

pub record CsrBody : Type 0 where
  pub csr_pem : Bytes
  pub agent_id : Bytes

-- encoding/json and compress/gzip on the bodies of requests, and crypto/x509.
pub record Web : Type 0 where
  pub decode_csr : Bytes → Option CsrBody
  pub decode_envelope : Bytes → Bool
  pub decode_agent_id : Bytes → Option Bytes
  pub gunzip : Bytes → Option Bytes
  pub x509 : X509

-- server; the map `revoked` holds the keys that are set to true.
pub record Server : Type 0 where
  pub ca : Ca
  pub token : Bytes
  pub revoked : List Bytes

abbrev http_error : Bytes → ℕ → Response
http_error text status = record { status = status; body = message text }

-- isRevoked
unfoldable pub is_revoked : Bytes → List Bytes → Bool
is_revoked cn [] = false
is_revoked cn (r ∷ rs) = cn == r || is_revoked cn rs

-- clientCN
abbrev pub client_cn : Request → Option Bytes
client_cn r = elim r.peers [ none ↦ none | some [] ↦ none | some (cn ∷ _) ↦ some cn ]

abbrev pub bearer : Server → Bytes
bearer s = codes "Bearer " ++ s.token

-- handleCA
unfoldable pub handle_ca : Server → Request → Server × Response
handle_ca s r = (s, record { status = 200; body = pem s.ca.cert_pem })

-- The routes of the mux; another path is not found.
pub data Route : Type 0 where
  ca enroll renew ingest revoke unknown : Route

-- What decodeCSR and handleRevoke read of a body at most, in bytes.
abbrev pub csr_limit : ℕ
csr_limit = 1048576

abbrev pub revoke_limit : ℕ
revoke_limit = 65536

module _ (web : Web) (now : ℕ) where
  -- decodeCSR
  unfoldable pub decode_csr_body : Request → Option CsrBody
  decode_csr_body r = elim (web.decode_csr (take csr_limit r.body)) [
    | none ↦ none
    | some req ↦ if req.csr_pem == [] then none else some req
  ]

  -- issue
  unfoldable pub issue : Server → Bytes → Response
  issue s csr_pem = elim (sign_csr web.x509 s.ca csr_pem now cert_ttl) [
    | none ↦ http_error (codes "sign failed: ") 400
    | some cert_pem ↦ record { status = 200; body = issued cert_pem s.ca.cert_pem }
  ]

  -- The end of handleEnroll and of handleRenew.
  unfoldable pub issue_body : Server → Request → Response
  issue_body s r = elim (decode_csr_body r) [
    | none ↦ http_error (codes "bad request") 400
    | some req ↦ issue s req.csr_pem
  ]

  -- handleEnroll
  unfoldable pub handle_enroll : Server → Request → Server × Response
  handle_enroll s r =
      if not (r.method == codes "POST")
      then (s, http_error (codes "POST only") 405)
      else if not (r.authorization == bearer s)
      then (s, http_error (codes "invalid enroll token") 401)
      else (s, issue_body s r)

  -- The guards of handleRenew and handleIngest, on the certificate.
  unfoldable pub with_agent : Server → Request → Response → Response
  with_agent s r answer =
      if not (r.method == codes "POST")
      then http_error (codes "POST only") 405
      else elim (client_cn r) [
        | none ↦ http_error (codes "client certificate required") 401
        | some cn ↦
            if is_revoked cn s.revoked then http_error (codes "agent revoked") 403 else answer
      ]

  -- handleRenew
  unfoldable pub handle_renew : Server → Request → Server × Response
  handle_renew s r = (s, with_agent s r (issue_body s r))

  -- What handleIngest does with the body of an agent that it lets in.
  unfoldable pub accept : Request → Response
  accept r =
      let decoded = if r.content_encoding == codes "gzip" then web.gunzip r.body else some r.body in
      elim decoded [
        | none ↦ http_error (codes "bad gzip") 400
        | some content ↦
            if web.decode_envelope content
            then record { status = 202; body = empty }
            else http_error (codes "bad body") 400
      ]

  -- handleIngest
  unfoldable pub handle_ingest : Server → Request → Server × Response
  handle_ingest s r = (s, with_agent s r (accept r))

  -- handleRevoke
  unfoldable pub handle_revoke : Server → Request → Server × Response
  handle_revoke s r =
      if not (r.method == codes "POST")
      then (s, http_error (codes "POST only") 405)
      else if not (r.authorization == bearer s)
      then (s, http_error (codes "invalid admin token") 401)
      else elim (web.decode_agent_id (take revoke_limit r.body)) [
        | none ↦ (s, http_error (codes "bad request (need agent_id)") 400)
        | some id ↦
            if id == []
            then (s, http_error (codes "bad request (need agent_id)") 400)
            else (record s { revoked = id ∷ s.revoked }, record { status = 204; body = empty })
      ]

  unfoldable pub serve : Route → Server → Request → Server × Response
  serve ca s r = handle_ca s r
  serve enroll s r = handle_enroll s r
  serve renew s r = handle_renew s r
  serve ingest s r = handle_ingest s r
  serve revoke s r = handle_revoke s r
  serve unknown s r = (s, http_error (codes "404 page not found") 404)

  -- The requests in the order in which the platform takes them.
  unfoldable pub serve_all : List (Route × Request) → Server → Server
  serve_all [] s = s
  serve_all ((route, r) ∷ rs) s = serve_all rs (serve route s r).0
