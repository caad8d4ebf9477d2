-- ===== src/Enroll/Storage.antt =====
-- internal/enroll/enroll.go: writeFileAtomic, a stored pair that does not match, and Renew.
use shadow_twin.Prelude.{
  ℕ, ◌≡◌, refl, ◌≢◌, ◌+◌, Bytes, codes, true, Option, none, some, [], arith, ap, ◌∙◌, length,
  length-append, bytes_eq,
}
use shadow_twin.Fs.{
  FilePath, file, Files, Disk, FsError, not_exist, Result, ok, err, lookup, insert, write_file,
  rename, remove, stat, read_file,
}
use shadow_twin.Fs.Laws.{lookup-erase_ne, lookup-insert_self, lookup-insert_ne}
use shadow_twin.Fs.Effects.{
  write_file-Writes, rename-Renames, remove-Removes, Writes, Renames, untouched, partly, whole,
  missing, moved,
}
use shadow_twin.Fs.Replacing.{
  Removes-other, Replaces, as_before, replaced, Replaces-Writes, Replaces-Renames,
}
use shadow_twin.Config.{Config}
use shadow_twin.Enroll.{
  Crypto, Certs, Identity, bad_key_pair, tmp_of, key_path, cert_path, ca_path, write_file_atomic,
  exists, all_there, read_pems, new_identity, ensure_identity, use_stored, renew,
}

-- A temporary file that goes changes nothing else.
Replaces-tmp_gone :
    (tmp p : FilePath) (c : Bytes) (fs gs hs : Files)
    → p ≢ tmp
    → ((q : FilePath) → q ≢ tmp → lookup q hs ≡ lookup q gs)
    → Replaces tmp p c fs gs
    → Replaces tmp p c fs hs
Replaces-tmp_gone tmp p c fs gs hs n k (as_before f) = as_before (λ q m. k q m ∙ f q m)
Replaces-tmp_gone tmp p c fs gs hs n k (replaced m l f) =
    replaced m (k p n ∙ l) (λ q a b. k q a ∙ f q a b)

ne_tmp_of : (p : FilePath) → p ≢ tmp_of p
ne_tmp_of p e =
    let n : length p.name ≡ length p.name + 4 =
      ap (λ (q : FilePath). length q.name) e ∙ length-append p.name (codes ".tmp") in
    omega (arith, n)

module _ (p : FilePath) (content : Bytes) (perm : ℕ) (d : Disk) where
  abbrev tmp_written : Result FsError (Unit {0}) × Disk
  tmp_written = write_file (tmp_of p) content perm d

  abbrev renamed : Result FsError (Unit {0}) × Disk
  renamed = rename (tmp_of p) p tmp_written.1

  -- The end of writeFileAtomic: the path is untouched or has the new content, and without an error
  -- it has the new content.
  pub data Atomic (r : Result FsError (Unit {0})) (fs : Files) : Type 0 where
    failed : (e : FsError) → r ≡ err e → Replaces (tmp_of p) p content d.files fs → Atomic r fs
    done :
        (m : ℕ)
        → r ≡ ok tt
        → lookup p fs ≡ some (file m content)
        → ((q : FilePath) → q ≢ tmp_of p → q ≢ p → lookup q fs ≡ lookup q d.files)
        → Atomic r fs

  without_tmp :
      (m : ℕ)
      → tmp_written.1.files ≡ insert (tmp_of p) (file m content) d.files
      → Renames (tmp_of p) p tmp_written.1.files renamed.0 renamed.1.files
      → Replaces (tmp_of p) p content d.files (remove (tmp_of p) renamed.1).1.files
  without_tmp m f r =
      Replaces-tmp_gone (tmp_of p) p content d.files renamed.1.files _ (ne_tmp_of p)
        (λ q n. Removes-other (tmp_of p) q _ n (remove-Removes (tmp_of p) renamed.1))
        (Replaces-Renames (tmp_of p) p content d.files tmp_written.1.files m f r)

  Atomic-renamed :
      (m : ℕ)
      → tmp_written.0 ≡ ok tt
      → tmp_written.1.files ≡ insert (tmp_of p) (file m content) d.files
      → Renames (tmp_of p) p tmp_written.1.files renamed.0 renamed.1.files
      → Atomic (write_file_atomic p content perm d).0 (write_file_atomic p content perm d).1.files
  unfolding write_file_atomic
  Atomic-renamed m h f (Renames.kept e g k) =
      rw (h, write_file_atomic)
        (rw (g, write_file_atomic) (failed e refl (without_tmp m f (Renames.kept e g k))))
  Atomic-renamed m h f (missing g l k) =
      rw (h, write_file_atomic)
        (rw (g, write_file_atomic) (failed not_exist refl (without_tmp m f (missing g l k))))
  Atomic-renamed m h f (moved m' c' l g k) =
      let e : c' ≡ content =
        cc (lookup-insert_self (tmp_of p) (file m content) d.files, ap (lookup (tmp_of p)) f) in
      rw (h, write_file_atomic)
        (rw (g, write_file_atomic)
          (done m' refl
            (ap (lookup p) k ∙ (lookup-insert_self p _ _ ∙ ap (λ x. some (file m' x)) e))
            (λ q n a.
              ap (lookup q) k
              ∙ (lookup-insert_ne q p _ _ a
                  ∙ (lookup-erase_ne q (tmp_of p) _ n
                      ∙ (ap (lookup q) f ∙ lookup-insert_ne q (tmp_of p) _ d.files n))))))

  Atomic-Writes :
      Writes (tmp_of p) content d.files tmp_written.0 tmp_written.1.files
      → Atomic (write_file_atomic p content perm d).0 (write_file_atomic p content perm d).1.files
  unfolding write_file_atomic
  Atomic-Writes (untouched x h f) =
      rw (h, write_file_atomic)
        (failed x refl (Replaces-Writes (tmp_of p) p content d.files (untouched x h f)))
  Atomic-Writes (partly x m k h f) =
      rw (h, write_file_atomic)
        (failed x refl (Replaces-Writes (tmp_of p) p content d.files (partly x m k h f)))
  Atomic-Writes (whole m h f) = Atomic-renamed m h f (rename-Renames (tmp_of p) p tmp_written.1)

  -- Whatever calls fail, writeFileAtomic leaves every path but the temporary one as it was, except
  -- that the file of its own path may have the whole new content; when it reports no error, it has.
  pub write_file_atomic-Atomic :
      Atomic (write_file_atomic p content perm d).0 (write_file_atomic p content perm d).1.files
  write_file_atomic-Atomic = Atomic-Writes (write_file-Writes (tmp_of p) content perm d)

-- The certificate in memory belongs to the key, and its expiry is the one that is compared.
abbrev pub IsPaired : Crypto → Identity → Type 0
IsPaired x i = x.key_pair i.cert_pem i.key_pem ≡ some i.not_after

module _ (x : Crypto) where
  new_identity-IsPaired :
      (cert_pem key_pem ca_pem : Bytes) (cert_file : FilePath) (i : Identity)
      → new_identity x cert_pem key_pem ca_pem cert_file ≡ ok i
      → IsPaired x i
  unfolding new_identity
  new_identity-IsPaired cert_pem key_pem ca_pem cert_file i e = ground (arith, e)

  -- If the certificate in memory belongs to the key and has the recorded expiry, the same holds
  -- after Renew, however it ends, and the private key and the pinned CA are unchanged.
  pub renew-IsPaired :
      (cfg : Config) (hostname : Option Bytes) (i : Identity) (d : Disk)
      → IsPaired x i
      → IsPaired x (renew x cfg hostname i d).1.0
        × ((renew x cfg hostname i d).1.0.key_pem ≡ i.key_pem)
        × ((renew x cfg hostname i d).1.0.ca_pem ≡ i.ca_pem)
  unfolding renew
  renew-IsPaired cfg hostname i d h = (ground (arith, h), ground (arith, h), ground (arith, h))

  module _ (c : Certs) (cert key ca : Bytes) (m1 m2 m3 : ℕ) (d : Disk) (calm : d.faults ≡ [])
      (has_cert : lookup (cert_path c) d.files ≡ some (file m1 cert))
      (has_key : lookup (key_path c) d.files ≡ some (file m2 key))
      (has_ca : lookup (ca_path c) d.files ≡ some (file m3 ca)) where
    all_there-true : (all_there c d ≡ (true, d))
    unfolding all_there exists stat
    all_there-true = ground (arith, calm, has_cert, has_key, has_ca)

    read_pems-ok : read_pems c d ≡ (ok (cert, key, ca), d)
    unfolding read_pems read_file
    read_pems-ok = ground (arith, calm, has_cert, has_key, has_ca)

    -- When the three files of the identity are stored, no call fails, and the certificate does not
    -- belong to the key, EnsureIdentity reports the bad pair and changes nothing on the disk,
    -- whatever the token, the time and the rest of the configuration are.
    pub ensure_identity-mismatch :
        (now : ℕ) (cfg : Config) (hostname : Option Bytes)
        → x.key_pair cert key ≡ none
        → ensure_identity x now cfg c hostname d ≡ (err bad_key_pair, d)
    unfolding ensure_identity use_stored new_identity
    ensure_identity-mismatch now cfg hostname h = ground (arith, all_there-true, read_pems-ok, h)
