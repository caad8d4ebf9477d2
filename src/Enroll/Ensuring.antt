-- ===== src/Enroll/Ensuring.antt =====
-- internal/enroll/enroll.go: the identity that EnsureIdentity hands out, against the disk.
use shadow_twin.Prelude.{
  ℕ, ◌≡◌, refl, Bytes, Bool, true, false, Option, [], arith, ap, sym, ◌∙◌, bytes_eq, ◌==◌, ltb,
  Bool-cases, ◌<◌, ◌⊎◌, inl, inr, ltb→lt,
}
use mathlib.Core.Path.{subst}
use shadow_twin.Fs.{FilePath, lookup, Disk, FsError, Result, ok, err, read_file}
use shadow_twin.Fs.Actions.{Result-pair}
use shadow_twin.Fs.Effects.{files-read_file, read_file-found}
use shadow_twin.Fs.Successes.{Holds}
use shadow_twin.Config.{Config}
use shadow_twin.Enroll.{
  Crypto, Certs, Identity, EnrollError, key_path, cert_path, ca_path, all_there, read_pems,
  new_identity, enroll, use_stored, ensure_identity,
}
use shadow_twin.Enroll.Issuing.{Ensured, Ensured-from, enroll-Ensured}

read_file-kept :
    (p : FilePath) (d d' : Disk) (b : Bytes)
    → read_file p d ≡ (ok b, d')
    → ((m : ℕ) × Holds p m b d.files) × (d'.files ≡ d.files)
read_file-kept p d d' b h =
    (read_file-found p d b (ap (λ y. y.0) h), ap (λ y. y.1.files) (sym h) ∙ files-read_file p d)

module _ (x : Crypto) (c : Certs) where
  abbrev Found : Bytes × Bytes × Bytes → Disk → Type 0
  Found (cert, key, ca) d =
      ((m : ℕ) × Holds (cert_path c) m cert d.files)
      × ((m : ℕ) × Holds (key_path c) m key d.files)
      × ((m : ℕ) × Holds (ca_path c) m ca d.files)

  use_stored-err :
      (now : ℕ) (cfg : Config) (hostname : Option Bytes) (e : EnrollError) (i : Identity)
      (d d' : Disk)
      → use_stored x now cfg c hostname (err e) d ≡ (ok i, d')
      → ⊥
  unfolding use_stored
  use_stored-err now cfg hostname e i d d' h = ground (arith, h)

  use_stored-ok :
      (now : ℕ) (cfg : Config) (hostname : Option Bytes) (j i : Identity) (d d' : Disk)
      → use_stored x now cfg c hostname (ok j) d ≡ (ok i, d')
      → ((now < j.not_after) × (j ≡ i) × (d ≡ d')) ⊎ (enroll x cfg c hostname d ≡ (ok i, d'))
  unfolding use_stored
  use_stored-ok now cfg hostname j i d d' h = elim (Bool-cases (ltb now j.not_after)) [
    | inl l ↦ inl (ltb→lt _ _ l, ground (arith, h, l), ground (arith, h, l))
    | inr l ↦ elim (Bool-cases (cfg.enroll_token == [])) [
      | inl t ↦ absurd (ground (arith, h, l, t))
      | inr t ↦ inr (ground (arith, h, l, t))
    ]
  ]

  read_pems-Found :
      (cert key ca : Bytes) (d d' : Disk)
      → read_pems c d ≡ (ok (cert, key, ca), d')
      → Found (cert, key, ca) d'
  unfolding read_pems
  read_pems-Found cert key ca d d' h = elim (Result-pair (read_file (cert_path c) d)) [
    | inl (e, d1, r) ↦ absurd (ground (arith, r, h))
    | inr (cert', d1, r) ↦ elim (Result-pair (read_file (key_path c) d1)) [
      | inl (e, d2, s) ↦ absurd (ground (arith, r, s, h))
      | inr (key', d2, s) ↦ elim (Result-pair (read_file (ca_path c) d2)) [
        | inl (e, d3, t) ↦ absurd (ground (arith, r, s, t, h))
        | inr (ca', d3, t) ↦
            let ((m1, l1), f1) = read_file-kept (cert_path c) d d1 cert' r in
            let ((m2, l2), f2) = read_file-kept (key_path c) d1 d2 key' s in
            let ((m3, l3), f3) = read_file-kept (ca_path c) d2 d3 ca' t in
            let same : ◌≡◌ {A = (Bytes × Bytes × Bytes) × Disk} ((cert', key', ca'), d3)
                ((cert, key, ca), d') =
              ground (arith, r, s, t, h) in
            subst (λ y. Found y.0 y.1) same
              (
                (m1, ap (lookup (cert_path c)) (f3 ∙ (f2 ∙ f1)) ∙ l1),
                (m2, ap (lookup (key_path c)) (f3 ∙ f2) ∙ l2),
                (m3, ap (lookup (ca_path c)) f3 ∙ l3),
              )
      ]
    ]
  ]

  -- Whether the identity is a stored one that has not expired, or was just enrolled.
  abbrev pub IsCurrent : ℕ → Config → Option Bytes → Identity → Disk → Type 0
  IsCurrent now cfg hostname i d' =
      (now < i.not_after) ⊎ ((d : Disk) × (enroll x cfg c hostname d ≡ (ok i, d')))

  use_stored-Ensured :
      (now : ℕ) (cfg : Config) (hostname : Option Bytes) (cert key ca : Bytes) (i : Identity)
      (d d' : Disk)
      → Found (cert, key, ca) d
      → use_stored x now cfg c hostname (new_identity x cert key ca (cert_path c)) d ≡ (ok i, d')
      → Ensured x c i d'.files × IsCurrent now cfg hostname i d'
  use_stored-Ensured now cfg hostname cert key ca i d d' ((m1, t), (m2, k), (m3, a)) h =
      split (new_identity x cert key ca (cert_path c)) refl h
    where
      split :
          (q : Result EnrollError Identity)
          → new_identity x cert key ca (cert_path c) ≡ q
          → use_stored x now cfg c hostname q d ≡ (ok i, d')
          → Ensured x c i d'.files × IsCurrent now cfg hostname i d'
      split (err e) q g = absurd (use_stored-err now cfg hostname e i d d' g)
      split (ok j) q g = elim (use_stored-ok now cfg hostname j i d d' g) [
        | inr again ↦ (enroll-Ensured x c cfg hostname i d d' again, inr (d, again))
        | inl (l, same, still) ↦ (
          subst (λ (y : Disk). Ensured x c i y.files) still
              (subst (λ (y : Identity). Ensured x c y d.files) same
                (Ensured-from x c cert key ca m2 m1 m3 (cert_path c) j d.files q k t a)),
          inl (subst (λ (y : Identity). now < y.not_after) same l),
        )
      ]

  -- If EnsureIdentity returns an identity, then, whatever calls failed on the way: its certificate
  -- belongs to its key and has the recorded expiry, its CA is accepted, the three files of the disk
  -- hold exactly the key, the certificate and the CA of the identity, and it has not expired or has
  -- just been enrolled.
  pub ensure_identity-Ensured :
      (now : ℕ) (cfg : Config) (hostname : Option Bytes) (i : Identity) (d d' : Disk)
      → ensure_identity x now cfg c hostname d ≡ (ok i, d')
      → Ensured x c i d'.files × IsCurrent now cfg hostname i d'
  unfolding ensure_identity
  ensure_identity-Ensured now cfg hostname i d d' h = split (all_there c d) refl
    where
      split_read :
          (d1 d2 : Disk) (q : Result FsError (Bytes × Bytes × Bytes))
          → all_there c d ≡ (true, d1)
          → read_pems c d1 ≡ (q, d2)
          → Ensured x c i d'.files × IsCurrent now cfg hostname i d'
      split_read d1 d2 (err e) a r = absurd (ground (arith, a, r, h))
      split_read d1 d2 (ok (cert, key, ca)) a r =
          use_stored-Ensured now cfg hostname cert key ca i d2 d'
            (read_pems-Found cert key ca d1 d2 r) (ground (arith, a, r, h))

      split :
          (y : Bool × Disk)
          → all_there c d ≡ y
          → Ensured x c i d'.files × IsCurrent now cfg hostname i d'
      split (false, d1) a =
          let again : enroll x cfg c hostname d1 ≡ (ok i, d') = ground (arith, a, h) in
          (enroll-Ensured x c cfg hostname i d1 d' again, inr (d1, again))
      split (true, d1) a = split_read d1 (read_pems c d1).1 (read_pems c d1).0 a refl
