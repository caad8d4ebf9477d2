-- ===== src/Platform/Startup/Names.antt =====
-- cmd/mock-platform/main.go and internal/pki/pki.go: the names of the platform's server
-- certificate.
use shadow_twin.Prelude.{
  ℕ, ◌*◌, ◌≡◌, refl, ◌⊎◌, inl, inr, Bytes, codes, none, some, List, [], ◌∷◌, ◌++◌, arith, sym, All,
  Option-cases, bytes_eq,
}
use mathlib.Core.Path.{subst}
use shadow_twin.Pki.{Ca}
use shadow_twin.Pki.Keys.{
  KeyTools, sort_hosts, issue_server_cert, server_template, generate_key, marshal_key_pem,
}
use shadow_twin.Platform.Startup.{server_hosts, set_up_tls}

abbrev IsIn : Bytes → List Bytes → Type 0
IsIn b [] = ⊥
IsIn b (x ∷ xs) = (b ≡ x) ⊎ IsIn b xs

IsIn-append : (b : Bytes) (xs ys : List Bytes) → IsIn b xs → IsIn b (xs ++ ys)
IsIn-append b [] ys h = absurd h
IsIn-append b (x ∷ xs) ys (inl h) = inl h
IsIn-append b (x ∷ xs) ys (inr h) = inr (IsIn-append b xs ys h)

IsIn-last : (b : Bytes) (xs : List Bytes) → IsIn b (xs ++ b ∷ [])
IsIn-last b [] = inl refl
IsIn-last b (x ∷ xs) = inr (IsIn-last b xs)

module _ (k : KeyTools) where
  -- A host is among the addresses where it is one, and else among the names.
  abbrev IsNamed : List Bytes → List Bytes → Bytes → Type 0
  IsNamed ips names h =
      ((k.parse_ip h ≡ none) × IsIn h names)
      ⊎ ((ip : Bytes) × (k.parse_ip h ≡ some ip) × IsIn ip ips)

  sort_hosts-grows :
      (hosts ips names : List Bytes)
      → ((b : Bytes) → IsIn b ips → IsIn b (sort_hosts k hosts ips names).0)
        × ((b : Bytes) → IsIn b names → IsIn b (sort_hosts k hosts ips names).1)
  unfolding sort_hosts
  sort_hosts-grows [] ips names = (λ b h. h, λ b h. h)
  sort_hosts-grows (h ∷ hosts) ips names = elim (Option-cases (k.parse_ip h)) [
    | inl e ↦
        rw (e, sort_hosts)
          (let (f, g) = sort_hosts-grows hosts ips (names ++ h ∷ []) in
            (f, λ b i. g b (IsIn-append b names _ i)))
    | inr (ip, e) ↦
        rw (e, sort_hosts)
          (let (f, g) = sort_hosts-grows hosts (ips ++ ip ∷ []) names in
            (λ b i. f b (IsIn-append b ips _ i), g))
  ]

  sort_hosts-name :
      (h : Bytes) (hosts ips names : List Bytes)
      → k.parse_ip h ≡ none
      → sort_hosts k (h ∷ hosts) ips names ≡ sort_hosts k hosts ips (names ++ h ∷ [])
  unfolding sort_hosts
  sort_hosts-name h hosts ips names e = rw (e, sort_hosts) refl

  sort_hosts-address :
      (h ip : Bytes) (hosts ips names : List Bytes)
      → k.parse_ip h ≡ some ip
      → sort_hosts k (h ∷ hosts) ips names ≡ sort_hosts k hosts (ips ++ ip ∷ []) names
  unfolding sort_hosts
  sort_hosts-address h ip hosts ips names e = rw (e, sort_hosts) refl

  sort_hosts-IsNamed :
      (hosts ips names : List Bytes)
      → All (IsNamed (sort_hosts k hosts ips names).0 (sort_hosts k hosts ips names).1) hosts
  sort_hosts-IsNamed [] ips names = tt
  sort_hosts-IsNamed (h ∷ hosts) ips names = elim (Option-cases (k.parse_ip h)) [
    | inl e ↦
        let later = names ++ h ∷ [] in
        subst (λ x. All (IsNamed x.0 x.1) (h ∷ hosts)) (sym (sort_hosts-name h hosts ips names e))
          (
            inl (e, (sort_hosts-grows hosts ips later).1 h (IsIn-last h names)),
            sort_hosts-IsNamed hosts ips later,
          )
    | inr (ip, e) ↦
        let later = ips ++ ip ∷ [] in
        subst (λ x. All (IsNamed x.0 x.1) (h ∷ hosts))
          (sym (sort_hosts-address h ip hosts ips names e))
          (
            inr (ip, e, (sort_hosts-grows hosts later names).0 ip (IsIn-last ip ips)),
            sort_hosts-IsNamed hosts later names,
          )
  ]

  -- The server's certificate was created, for a server and a day, by the authority's key, for all
  -- the hosts, each among the addresses or the names.
  pub record IsServed (ca : Ca) (host : Bytes) (now : ℕ) (server_cert : Bytes) : Type 0 where
    pub key : Bytes
    pub serial : ℕ
    pub ips : List Bytes
    pub names : List Bytes
    pub der : Bytes
    pub created :
        k.create
          (server_template k serial (codes "localhost") now (24 * 60 * 60))
          ips
          names
          ca.cert
          (k.public_key key)
          ca.key
        ≡ some der
    pub named : All (IsNamed ips names) (server_hosts host)
    pub paired :
        (key_pem : Bytes) × (marshal_key_pem k key ≡ some key_pem)
        × (k.key_pair (k.encode (codes "CERTIFICATE") der) key_pem ≡ some server_cert)

  issue_server_cert-created :
      (ca : Ca) (h : Bytes) (hosts : List Bytes) (now ttl : ℕ) (cert key_pem : Bytes)
      → issue_server_cert k ca (h ∷ hosts) now ttl ≡ some (cert, key_pem)
      → (key : Bytes) × (serial : ℕ) × (der : Bytes) × (k.create
            (server_template k serial h now ttl)
            (sort_hosts k (h ∷ hosts) [] []).0
            (sort_hosts k (h ∷ hosts) [] []).1
            ca.cert
            (k.public_key key)
            ca.key
          ≡ some der)
        × (marshal_key_pem k key ≡ some key_pem)
        × (cert ≡ k.encode (codes "CERTIFICATE") der)
  unfolding issue_server_cert
  issue_server_cert-created ca h hosts now ttl cert key_pem e =
      elim (Option-cases (generate_key k)) [
        | inl a ↦ absurd (ground (arith, e, a))
        | inr (key, a) ↦ elim (Option-cases k.random_serial) [
          | inl b ↦ absurd (ground (arith, e, a, b))
          | inr (serial, b) ↦
              let names = sort_hosts k (h ∷ hosts) [] [] in
              elim (Option-cases (
                k.create (server_template k serial h now ttl) names.0 names.1 ca.cert
                  (k.public_key key) ca.key)) [
                    | inl c ↦ absurd (ground (arith, e, a, b, c))
                    | inr (der, c) ↦ (
                      key,
                      serial,
                      der,
                      c,
                      ground (arith, e, a, b, c),
                      ground (arith, e, a, b, c),
                    )
                  ]
        ]
      ]

  -- If the platform's TLS set-up succeeds, its server certificate is signed by the authority for
  -- localhost, for 24 hours and over the public key of a key that belongs to it, and every name of
  -- the list (the fixed ones, the host and the extra ones) is among its IP addresses where it
  -- parses as one, and else among its DNS names.
  pub set_up_tls-IsServed :
      (ca : Ca) (host : Bytes) (now : ℕ) (server_cert client_cas : Bytes)
      → set_up_tls k ca host now ≡ some (server_cert, client_cas)
      → IsServed ca host now server_cert
  unfolding set_up_tls server_hosts
  set_up_tls-IsServed ca host now server_cert client_cas e =
      elim (Option-cases (issue_server_cert k ca (server_hosts host) now (24 * 60 * 60))) [
        | inl a ↦ absurd (ground (arith, e, a))
        | inr ((cert, key_pem), a) ↦
            let (key, serial, der, made, marshalled, same) =
              issue_server_cert-created ca (codes "localhost") (codes "127.0.0.1" ∷ _) now
                (24 * 60 * 60) cert key_pem a in
            record {
              key = key;
              serial = serial;
              ips = _;
              names = _;
              der = der;
              created = made;
              named = sort_hosts-IsNamed (server_hosts host) [] [];
              paired = (key_pem, marshalled, ground (arith, e, a, same));
            }
      ]
