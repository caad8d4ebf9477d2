-- ===== src/Platform/Enrolling.antt =====
-- internal/enroll/enroll.go against cmd/mock-platform/main.go and internal/pki/pki.go: what an agent
-- gets when it asks the platform for a certificate.
use shadow_twin.Prelude.{
  take, ℕ, ◌≡◌, refl, ◌≢◌, Bytes, codes, false, Option, none, some, [], ◌++◌, inl, inr, arith, ap,
  sym, ◌∙◌, bytes_eq, nat_eq, ◌==◌, if◌then◌else◌, Option-cases, Bool-cases, zero, suc, ◌≤◌, ◌∷◌,
  length,
}
use mathlib.Core.Path.{subst}
use shadow_twin.Enroll.{Crypto, post_csr, answer_limit}
use shadow_twin.Pki.{X509, Ca, sign_csr, sign_parsed, client_template, cert_ttl}
use shadow_twin.Platform.{
  Request, Response, Body, issued, Web, Server, bearer, handle_enroll, issue_body, issue,
  decode_csr_body, csr_limit,
}

-- A request of postCSR, as the handler finds it.
abbrev pub asked : Option Bytes → Bytes → Request
asked authorization body = record {
  method = codes "POST";
  authorization = elim authorization [ none ↦ [] | some h ↦ h ];
  content_encoding = [];
  peers = some [];
  body = body;
}

-- The header of postCSR.
abbrev pub sent : Bytes → Option Bytes
sent token = if token == [] then none else some (codes "Bearer " ++ token)

pub take-whole : (n : ℕ) (b : Bytes) → length b ≤ n → take n b ≡ b
take-whole zero [] h = refl
take-whole zero (c ∷ b) h = absurd (omega (arith, h))
take-whole (suc n) [] h = refl
take-whole (suc n) (c ∷ b) h = ap (λ r. c ∷ r) (take-whole n b (omega (arith, h)))

-- One exchange, of the request `csr_pem` under a token: net/http brings it to the handler and the
-- answer back, JSON on the one side undoes that on the other, neither body is longer than what is
-- read of it, and the PEM encoding of a certificate is not empty.
pub record IsLinked (x : Crypto) (web : Web) (now : ℕ) (s : Server)
    (endpoint token csr_pem id body : Bytes) : Type 0 where
  pub encode : Body → Bytes
  pub marshals : x.marshal_request csr_pem id ≡ some body
  pub answers :
      x.post endpoint (sent token) body
      ≡ some (
        (handle_enroll web now s (asked (sent token) body)).1.status,
        encode (handle_enroll web now s (asked (sent token) body)).1.body,
      )
  pub fits : length body ≤ csr_limit
  pub decodes : web.decode_csr body ≡ some (record { csr_pem = csr_pem; agent_id = id })
  pub reads :
      (cert_pem : Bytes)
      → sign_csr web.x509 s.ca csr_pem now cert_ttl ≡ some cert_pem
      → (length (encode (issued cert_pem s.ca.cert_pem)) ≤ answer_limit)
        × (x.cert_of (encode (issued cert_pem s.ca.cert_pem)) ≡ some cert_pem)
  pub encodes : (der : Bytes) → (web.x509.encode_cert der == []) ≡ false

module _ (x : X509) where
  sign_csr-encoded :
      (ca : Ca) (csr_pem : Bytes) (now ttl : ℕ) (cert_pem : Bytes)
      → sign_csr x ca csr_pem now ttl ≡ some cert_pem
      → (der : Bytes) × (cert_pem ≡ x.encode_cert der)
  unfolding sign_csr sign_parsed
  sign_csr-encoded ca csr_pem now ttl cert_pem h = elim (Option-cases (x.pem_block csr_pem)) [
    | inl a ↦ absurd (ground (arith, h, a))
    | inr (block, a) ↦ elim (Option-cases (x.parse_request block)) [
      | inl b ↦ absurd (ground (arith, h, a, b))
      | inr (csr, b) ↦ elim (Bool-cases (x.check_signature block)) [
        | inr c ↦ absurd (ground (arith, h, a, b, c))
        | inl c ↦ elim (Option-cases x.random_serial) [
          | inl r ↦ absurd (ground (arith, h, a, b, c, r))
          | inr (serial, r) ↦
              elim (Option-cases
                (x.create (client_template serial csr now ttl) ca.cert csr.public_key ca.key)) [
                  | inl e ↦ absurd (ground (arith, h, a, b, c, r, e))
                  | inr (der, e) ↦ (der, ground (arith, h, a, b, c, r, e))
                ]
        ]
      ]
    ]
  ]

module _ (web : Web) (now : ℕ) (s : Server) where
  handle_enroll-denied :
      (q : Request)
      → q.method ≡ codes "POST"
      → q.authorization ≢ bearer s
      → (handle_enroll web now s q).1.status ≡ 401
  unfolding handle_enroll
  handle_enroll-denied q p n = ground (arith, p, n)

  handle_enroll-granted :
      (q : Request) (csr_pem id : Bytes)
      → q.method ≡ codes "POST"
      → q.authorization ≡ bearer s
      → csr_pem ≢ []
      → length q.body ≤ csr_limit
      → web.decode_csr q.body ≡ some (record { csr_pem = csr_pem; agent_id = id })
      → (handle_enroll web now s q).1 ≡ issue web now s csr_pem
  unfolding handle_enroll issue_body decode_csr_body
  handle_enroll-granted q csr_pem id p t n l c =
      let whole = take-whole csr_limit q.body l in
      ground (arith, p, t, n, ap web.decode_csr whole ∙ c)

  issue-none :
      (csr_pem : Bytes)
      → sign_csr web.x509 s.ca csr_pem now cert_ttl ≡ none
      → (issue web now s csr_pem).status ≡ 400
  unfolding issue
  issue-none csr_pem h = ground (arith, h)

  issue-some :
      (csr_pem cert_pem : Bytes)
      → sign_csr web.x509 s.ca csr_pem now cert_ttl ≡ some cert_pem
      → issue web now s csr_pem ≡ record { status = 200; body = issued cert_pem s.ca.cert_pem }
  unfolding issue
  issue-some csr_pem cert_pem h = ground (arith, h)

  header-other :
      (token body : Bytes) → token ≢ s.token → (asked (sent token) body).authorization ≢ bearer s
  header-other token body n = ground (arith, n)

  header-same :
      (token body : Bytes)
      → token ≡ s.token
      → s.token ≢ []
      → (asked (sent token) body).authorization ≡ bearer s
  header-same token body y n = ground (arith, y, n)

module _ (x : Crypto) (endpoint token csr_pem id body : Bytes) where
  post_csr-refused :
      (status : ℕ) (b : Bytes)
      → x.marshal_request csr_pem id ≡ some body
      → x.post endpoint (sent token) body ≡ some (status, b)
      → status ≢ 200
      → post_csr x endpoint token csr_pem id ≡ none
  unfolding post_csr
  post_csr-refused status b m p n = ground (arith, m, p, n)

  post_csr-answered :
      (b cert_pem : Bytes)
      → x.marshal_request csr_pem id ≡ some body
      → x.post endpoint (sent token) body ≡ some (200, b)
      → length b ≤ answer_limit
      → x.cert_of b ≡ some cert_pem
      → (cert_pem == []) ≡ false
      → post_csr x endpoint token csr_pem id ≡ some cert_pem
  unfolding post_csr
  post_csr-answered b cert_pem m p l c n =
      ground (arith, m, p, ap x.cert_of (take-whole answer_limit b l) ∙ c, n)

module _ (x : Crypto) (web : Web) (now : ℕ) (s : Server) (endpoint : Bytes)
    (token csr_pem id body : Bytes)
    (link : IsLinked x web now s endpoint token csr_pem id body) where
  post_csr-issue :
      (handle_enroll web now s (asked (sent token) body)).1 ≡ issue web now s csr_pem
      → post_csr x endpoint token csr_pem id ≡ sign_csr web.x509 s.ca csr_pem now cert_ttl
  post_csr-issue granted = elim (Option-cases (sign_csr web.x509 s.ca csr_pem now cert_ttl)) [
    | inl h ↦
        post_csr-refused x endpoint token csr_pem id body _ _ link.marshals link.answers
          (omega (arith, ap (λ (r : Response). r.status) granted, issue-none web now s csr_pem h))
        ∙ sym h
    | inr (cert_pem, h) ↦
        let shown = granted ∙ issue-some web now s csr_pem cert_pem h in
        let (der, e) = sign_csr-encoded web.x509 s.ca csr_pem now cert_ttl cert_pem h in
        let (fits, read) = link.reads cert_pem h in
        post_csr-answered x endpoint token csr_pem id body _ cert_pem link.marshals
          (link.answers ∙ ap (λ (r : Response). some (r.status, link.encode r.body)) shown) fits
          read (subst (λ (c : Bytes). (c == []) ≡ false) (sym e) (link.encodes der))
        ∙ sym h
  ]

  -- In one exchange, let net/http bring the request of postCSR to handleEnroll and its answer back,
  -- let JSON undo itself on the other side for the two bodies, let neither be longer than the
  -- mebibyte that is read of it, and let no encoded certificate be empty. Then, for a certificate
  -- request that is not empty and a platform that has a token, postCSR gives exactly what SignCSR
  -- makes of the certificate request where it sends the platform's token, its failures included,
  -- and an error where it sends another token or none.
  pub post_csr-sign_csr :
      csr_pem ≢ []
      → s.token ≢ []
      → post_csr x endpoint token csr_pem id
        ≡ (if token == s.token then sign_csr web.x509 s.ca csr_pem now cert_ttl else none)
  post_csr-sign_csr n t =
      let q = asked (sent token) body in
      elim (bytes_eq.dec token s.token) [
        | no other ↦
            let denied =
              handle_enroll-denied web now s q refl (header-other web now s token body other) in
            post_csr-refused x endpoint token csr_pem id body _ _ link.marshals link.answers
              (omega (arith, denied))
            ∙ sym (ground (arith, other))
        | yes same ↦
            post_csr-issue (
              handle_enroll-granted web now s q csr_pem id refl
                (header-same web now s token body same t) n link.fits link.decodes)
            ∙ sym (ground (arith, same))
      ]
