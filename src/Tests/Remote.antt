-- ===== src/Tests/Remote.antt =====
-- The exchange with the platform on concrete requests.
use shadow_twin.Prelude.{
  ℕ, ◌≡◌, refl, ◌⊎◌, Bytes, codes, true, Option, none, some, List, [], ◌∷◌, arith, nat_eq, bytes_eq,
  ◌≤◌, ◌*◌, ◌^◌,
}
use shadow_twin.Prelude.Int.{pos}
use shadow_twin.Transport.{Shipper, Wire, unauthorized, classify, send}
use shadow_twin.Transport.Answers.{Sent, send-Sent}
use shadow_twin.Transport.Backoff.{backoff, backoff-le, ceiling, lesser, second, ceiling-deployed}
use shadow_twin.Pki.{sign_csr, sign_parsed, client_template}
use shadow_twin.Platform.{
  Web, Server, Route, Response, CsrBody, serve, serve_all, ingest, renew, revoke, enroll, issued,
  is_revoked, client_cn, bearer, handle_enroll, issue_body, issue, decode_csr_body,
}
use shadow_twin.Platform as Platform
use shadow_twin.Platform.Revocation.{
  IsAdmin, Changes, serve-Changes, revoke-unauthorized, serve-issued, IsAgent,
}
use shadow_twin.Tests.{event}

-- A wire on which the platform answers with a fixed status.
abbrev wire : ℕ → Wire
wire status = record {
  marshal = λ e. some (codes "{}");
  compress = λ b. none;
  valid_url = λ u. true;
  post = λ r. some status;
}

abbrev shipper : Shipper
shipper = record { endpoint = codes "https://p/ingest"; agent_id = codes "h"; gzip = true }

send-Sent_example :
    Sent shipper
      (wire 403)
      (pos 5)
      (event (codes "a") ∷ [])
      (send shipper (wire 403) (pos 5) (event (codes "a") ∷ []))
send-Sent_example = send-Sent shipper (wire 403) (pos 5) (event (codes "a")) []

backoff-le_example : backoff 77 3 second (60 * second) ≤ 60 * second
backoff-le_example = backoff-le 77 3 second (60 * second)

ceiling-deployed_example : ceiling 71 second (60 * second) ≡ lesser (second * 2 ^ 70) (60 * second)
ceiling-deployed_example = ceiling-deployed 70

-- A request for a certificate is the name that it asks for.
abbrev web : Web
web = record {
  decode_csr = λ b. some (record { csr_pem = b; agent_id = b });
  decode_envelope = λ b. true;
  decode_agent_id = λ b. some b;
  gunzip = λ b. some b;
  x509 = record {
    pem_block = λ b. some b;
    parse_request = λ b. some (record { subject = b; public_key = [] });
    check_signature = λ b. true;
    random_serial = some 9;
    create = λ t c k s. some t.subject;
    encode_cert = λ b. b;
  };
}

abbrev server : Server
server = record {
  ca = record { cert = []; key = []; cert_pem = codes "CA" };
  token = codes "t";
  revoked = [];
}

abbrev post : Bytes → Option (List Bytes) → Bytes → Platform.Request
post authorization peers body = record {
  method = codes "POST";
  authorization = authorization;
  content_encoding = [];
  peers = peers;
  body = body;
}

abbrev admin : Platform.Request
admin = post (codes "Bearer t") none (codes "h")

abbrev agent : Bytes → Platform.Request
agent cn = post [] (some (cn ∷ [])) (codes "h")

serve-Changes_example : Changes server admin revoke (serve web 0 revoke server admin).0
serve-Changes_example = serve-Changes web 0 revoke server admin

revoke-unauthorized_example :
    (classify
        (serve web 0 ingest
          (serve_all web 0 ((renew, agent (codes "g")) ∷ []) (serve web 0 revoke server admin).0)
          (agent (codes "h"))).1.status
      ≡ some unauthorized)
    × ((serve web 0 renew
          (serve_all web 0 ((renew, agent (codes "g")) ∷ []) (serve web 0 revoke server admin).0)
          (agent (codes "h"))).1.status
        ≡ 403)
revoke-unauthorized_example =
    revoke-unauthorized web 0 server admin (codes "h") refl (λ e. ground (arith, e)) refl refl
      ((renew, agent (codes "g")) ∷ []) (agent (codes "h")) refl refl

enrolled : (serve web 0 enroll server admin).1.body ≡ issued (codes "h") (codes "CA")
unfolding serve handle_enroll issue_body issue decode_csr_body bytes_eq nat_eq sign_csr sign_parsed
    client_template
enrolled = refl

serve-issued_example :
    (admin.method ≡ codes "POST") × (IsAdmin server admin ⊎ IsAgent web 0 server admin)
serve-issued_example = serve-issued web 0 enroll server admin (codes "h") (codes "CA") enrolled
