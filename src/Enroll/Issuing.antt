-- ===== src/Enroll/Issuing.antt =====
-- internal/enroll/enroll.go: the identity that an enrolment gives, against the disk.
use shadow_twin.Prelude.{
  ℕ, ◌≡◌, refl, ◌≢◌, Bytes, true, false, Option, some, [], ◌∷◌, arith, ap, sym, ◌∙◌, bytes_eq, ◌==◌,
  Bool-cases, inl, inr,
}
use mathlib.Core.Path.{subst}
use shadow_twin.Fs.{FilePath, file, Files, lookup, Disk, Result, ok, err, read_file, mkdir_all}
use shadow_twin.Fs.Actions.{Result-pair}
use shadow_twin.Fs.Effects.{files-read_file, read_file-found}
use shadow_twin.Fs.Successes.{Holds, mkdir_all-other}
use shadow_twin.Config.{Config}
use shadow_twin.Enroll.{
  Crypto, Certs, Identity, EnrollError, tmp_of, key_path, cert_path, ca_path, write_file_atomic,
  new_identity, store_identity, request_identity, enroll,
}
use shadow_twin.Enroll.Storage.{failed, done, write_file_atomic-Atomic, IsPaired}

write_file_atomic-ok :
    (p : FilePath) (content : Bytes) (perm : ℕ) (d d' : Disk)
    → write_file_atomic p content perm d ≡ (ok tt, d')
    → ((m : ℕ) × Holds p m content d'.files)
      × ((q : FilePath) → q ≢ tmp_of p → q ≢ p → lookup q d'.files ≡ lookup q d.files)
write_file_atomic-ok p content perm d d' h = elim (write_file_atomic-Atomic p content perm d) [
  | failed e r f ↦ absurd (cc (ap (λ x. x.0) h))
  | done m r l f ↦
      let same = ap (λ x. x.1.files) h in
      ((m, ap (lookup p) (sym same) ∙ l), λ q n k. ap (lookup q) (sym same) ∙ f q n k)
]

abbrev last_byte : Bytes → ℕ
last_byte [] = 0
last_byte (c ∷ []) = c
last_byte (c ∷ d ∷ s) = last_byte (d ∷ s)

module _ (x : Crypto) (c : Certs) where
  -- The certificate belongs to the key, the CA is one, and the three files hold what is in memory.
  pub record Ensured (i : Identity) (fs : Files) : Type 0 where
    pub paired : IsPaired x i
    pub trusted : x.ca_pool i.ca_pem ≡ true
    pub key : (m : ℕ) × Holds (key_path c) m i.key_pem fs
    pub cert : (m : ℕ) × Holds (cert_path c) m i.cert_pem fs
    pub ca : (m : ℕ) × Holds (ca_path c) m i.ca_pem fs

  new_identity-fields :
      (cert key ca : Bytes) (f : FilePath) (i : Identity)
      → new_identity x cert key ca f ≡ ok i
      → IsPaired x i
        × (x.ca_pool i.ca_pem ≡ true)
        × (i.key_pem ≡ key)
        × (i.cert_pem ≡ cert)
        × (i.ca_pem ≡ ca)
  unfolding new_identity
  new_identity-fields cert key ca f i e = (
    ground (arith, e),
    ground (arith, e),
    ground (arith, e),
    ground (arith, e),
    ground (arith, e),
  )

  pub Ensured-from :
      (cert key ca : Bytes) (m1 m2 m3 : ℕ) (f : FilePath) (i : Identity) (fs : Files)
      → new_identity x cert key ca f ≡ ok i
      → Holds (key_path c) m1 key fs
      → Holds (cert_path c) m2 cert fs
      → Holds (ca_path c) m3 ca fs
      → Ensured i fs
  Ensured-from cert key ca m1 m2 m3 f i fs e k t a =
      let (paired, trusted, e1, e2, e3) = new_identity-fields cert key ca f i e in
      record {
        paired = paired;
        trusted = trusted;
        key = (m1, k ∙ ap (λ b. some (file m1 b)) (sym e1));
        cert = (m2, t ∙ ap (λ b. some (file m2 b)) (sym e2));
        ca = (m3, a ∙ ap (λ b. some (file m3 b)) (sym e3));
      }

  -- The three files and the temporary ones have names of their own.
  key_cert_tmp : key_path c ≢ tmp_of (cert_path c)
  key_cert_tmp e = cc (ap (λ (p : FilePath). p.name) e)

  key_cert : key_path c ≢ cert_path c
  key_cert e = omega (arith, ap (λ (p : FilePath). last_byte p.name) e)

  ca_cert_tmp : ca_path c ≢ tmp_of (cert_path c)
  ca_cert_tmp e = cc (ap (λ (p : FilePath). p.name) e)

  ca_cert : ca_path c ≢ cert_path c
  ca_cert e = cc (ap (λ (p : FilePath). p.name) e)

  ca_key_tmp : ca_path c ≢ tmp_of (key_path c)
  ca_key_tmp e = cc (ap (λ (p : FilePath). p.name) e)

  ca_key : ca_path c ≢ key_path c
  ca_key e = cc (ap (λ (p : FilePath). p.name) e)

  store_identity-Ensured :
      (cert key ca : Bytes) (m : ℕ) (i : Identity) (d d' : Disk)
      → Holds (ca_path c) m ca d.files
      → store_identity x c cert key ca d ≡ (ok i, d')
      → Ensured i d'.files
  unfolding store_identity
  store_identity-Ensured cert key ca m i d d' a h =
      elim (Result-pair (write_file_atomic (key_path c) key 0o600 d)) [
        | inl (e, d1, r) ↦ absurd (ground (arith, r, h))
        | inr (_, d1, r) ↦ elim (Result-pair (write_file_atomic (cert_path c) cert 0o644 d1)) [
          | inl (e, d2, s) ↦ absurd (ground (arith, r, s, h))
          | inr (_, d2, s) ↦
              let ((m1, k1), f1) = write_file_atomic-ok (key_path c) key 0o600 d d1 r in
              let ((m2, t2), f2) = write_file_atomic-ok (cert_path c) cert 0o644 d1 d2 s in
              let made : new_identity x cert key ca (cert_path c) ≡ ok i =
                ground (arith, r, s, h) in
              let end : d2 ≡ d' = ground (arith, r, s, h) in
              subst (λ y. Ensured i y.files) end
                (Ensured-from cert key ca m1 m2 m (cert_path c) i d2.files made
                  (f2 (key_path c) key_cert_tmp key_cert ∙ k1) t2
                  (f2 (ca_path c) ca_cert_tmp ca_cert ∙ (f1 (ca_path c) ca_key_tmp ca_key ∙ a)))
        ]
      ]

  requested :
      (cfg : Config) (hostname : Option Bytes) (i : Identity) (d d1 d2 d' : Disk) (ca_pem : Bytes)
      (m : ℕ)
      → read_file (ca_path c) d ≡ (ok ca_pem, d1)
      → (cfg.enroll_token == []) ≡ false
      → mkdir_all c.folder d1 ≡ (ok tt, d2)
      → Holds (ca_path c) m ca_pem d2.files
      → enroll x cfg c hostname d ≡ (ok i, d')
      → Ensured i d'.files
  unfolding enroll
  requested cfg hostname i d d1 d2 d' ca_pem m r t s a h =
      split (request_identity x cfg hostname ca_pem) refl
    where
      split :
          (q : Result EnrollError (Bytes × Bytes))
          → request_identity x cfg hostname ca_pem ≡ q
          → Ensured i d'.files
      split (err e) q = absurd (ground (arith, r, t, s, q, h))
      split (ok (cert_pem, key_pem)) q =
          store_identity-Ensured cert_pem key_pem ca_pem m i d2 d' a (ground (arith, r, t, s, q, h))

  pub enroll-Ensured :
      (cfg : Config) (hostname : Option Bytes) (i : Identity) (d d' : Disk)
      → enroll x cfg c hostname d ≡ (ok i, d')
      → Ensured i d'.files
  unfolding enroll
  enroll-Ensured cfg hostname i d d' h = elim (Result-pair (read_file (ca_path c) d)) [
    | inl (e, d1, r) ↦ absurd (ground (arith, r, h))
    | inr (ca_pem, d1, r) ↦ elim (Bool-cases (cfg.enroll_token == [])) [
      | inl t ↦ absurd (ground (arith, r, t, h))
      | inr t ↦ elim (Result-pair (mkdir_all c.folder d1)) [
        | inl (e, d2, s) ↦ absurd (ground (arith, r, t, s, h))
        | inr (_, d2, s) ↦
            let (m, a) = read_file-found (ca_path c) d ca_pem (ap (λ y. y.0) r) in
            let a1 : Holds (ca_path c) m ca_pem d1.files =
              ap (λ y. lookup (ca_path c) y.1.files) (sym r)
              ∙ (ap (lookup (ca_path c)) (files-read_file (ca_path c) d) ∙ a) in
            let a2 = mkdir_all-other c.folder d1 d2 (ca_path c) m ca_pem s a1 in
            requested cfg hostname i d d1 d2 d' ca_pem m r t s a2 h
      ]
    ]
  ]
