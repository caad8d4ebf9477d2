-- ===== src/Tests/Exchange.antt =====
-- The agent and the platform on one exchange each.
use shadow_twin.Prelude.{
  ◌≡◌, refl, Bytes, codes, true, false, Option, none, some, [], ◌∷◌, arith, nat_eq, bytes_eq, ◌==◌,
  ap, length, if◌then◌else◌,
}
use mathlib.Core.Path.{subst}
use shadow_twin.Prelude.Int.{pos}
use shadow_twin.Transport.{Shipper, Wire, unauthorized, send}
use shadow_twin.Enroll.{Crypto, post_csr}
use shadow_twin.Pki.{sign_csr, sign_parsed, client_template, cert_ttl}
use shadow_twin.Platform.{
  Web, Server, Body, empty, message, pem, issued, is_revoked, handle_ingest, handle_enroll,
}
use shadow_twin.Platform.Client
use shadow_twin.Platform.Client.{arrived, send-handle_ingest}
use shadow_twin.Platform.Enrolling
use shadow_twin.Platform.Enrolling.{asked, post_csr-sign_csr}
use shadow_twin.Tests.{event}

-- A zipped text begins with a 0, and a certificate with a 45.
abbrev tail : Bytes → Option Bytes
tail [] = none
tail (c ∷ b) = some b

abbrev web : Web
web = record {
  decode_csr = λ b. some (record { csr_pem = b; agent_id = codes "h" });
  decode_envelope = λ b. true;
  decode_agent_id = λ b. some b;
  gunzip = tail;
  x509 = record {
    pem_block = λ b. some b;
    parse_request = λ b. some (record { subject = b; public_key = [] });
    check_signature = λ b. true;
    random_serial = some 9;
    create = λ t c k s. some t.subject;
    encode_cert = λ b. 45 ∷ b;
  };
}

abbrev server : Server
server = record {
  ca = record { cert = []; key = []; cert_pem = codes "CA" };
  token = codes "t";
  revoked = codes "g" ∷ [];
}

abbrev wire : Wire
wire = record {
  marshal = λ e. some (codes "{}");
  compress = λ b. some (0 ∷ b);
  valid_url = λ u. true;
  post = λ r. some (handle_ingest web 5 server (arrived (codes "h") r)).1.status;
}

unzipped : (body zipped : Bytes) → wire.compress body ≡ some zipped → tail zipped ≡ some body
unzipped body zipped h =
    let same : 0 ∷ body ≡ zipped = ground (arith, h) in subst (λ z. tail z ≡ some body) same refl

wire-IsLinked : Client.IsLinked wire web 5 server (codes "h")
wire-IsLinked = record { answers = λ r. refl; unzips = unzipped; decodes = λ e body h. refl }

abbrev shipper : Shipper
shipper = record { endpoint = codes "https://p/ingest"; agent_id = codes "h"; gzip = true }

send-handle_ingest_example :
    send shipper wire (pos 5) (event (codes "a") ∷ [])
    ≡ (if is_revoked (codes "h") server.revoked then some unauthorized else none)
send-handle_ingest_example =
    send-handle_ingest wire web 5 server (codes "h") shipper (pos 5) (event (codes "a")) []
      (codes "{}") wire-IsLinked refl refl

abbrev encode : Body → Bytes
encode empty = []
encode (message text) = text
encode (pem b) = b
encode (issued cert ca) = cert

-- Only the agent h asks.
abbrev crypto : Crypto
crypto = record {
  key_pair = λ c k. some 100;
  parse_key = λ k. some k;
  ca_pool = λ c. true;
  generate_key = some (codes "k");
  marshal_key = λ k. some k;
  marshal_csr = λ k i. some k;
  marshal_request = λ c i. if i == codes "h" then some c else none;
  post = λ e t b. some (
    (handle_enroll web 5 server (asked t b)).1.status,
    encode (handle_enroll web 5 server (asked t b)).1.body,
  );
  cert_of = λ b. some b;
}

encoded : (der : Bytes) → (web.x509.encode_cert der == []) ≡ false
unfolding bytes_eq
encoded der = refl

asked_by_h : crypto.marshal_request (codes "k") (codes "h") ≡ some (codes "k")
unfolding bytes_eq nat_eq
asked_by_h = refl

-- What the platform signs for h begins with a 45.
signed_for_h :
    (cert_pem : Bytes)
    → sign_csr web.x509 server.ca (codes "k") 5 cert_ttl ≡ some cert_pem
    → cert_pem ≡ codes "-k"
unfolding sign_csr sign_parsed client_template
signed_for_h cert_pem h = ground (arith, h)

crypto-IsLinked :
    Enrolling.IsLinked crypto web 5 server
      (codes "https://p/enroll")
      (codes "t")
      (codes "k")
      (codes "h")
      (codes "k")
crypto-IsLinked = record {
  encode = encode;
  marshals = asked_by_h;
  answers = refl;
  fits = omega arith;
  decodes = refl;
  reads = λ c h. (omega (arith, ap length (signed_for_h c h)), refl);
  encodes = encoded;
}

post_csr-sign_csr_example :
    post_csr crypto (codes "https://p/enroll") (codes "t") (codes "k") (codes "h") ≡ (
      if codes "t" == server.token
      then sign_csr web.x509 server.ca (codes "k") 5 cert_ttl
      else none)
post_csr-sign_csr_example =
    post_csr-sign_csr crypto web 5 server (codes "https://p/enroll") (codes "t") (codes "k")
      (codes "h") (codes "k") crypto-IsLinked (λ e. ground (arith, e)) (λ e. ground (arith, e))
