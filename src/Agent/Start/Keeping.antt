-- ===== src/Agent/Start/Keeping.antt =====
-- cmd/agent/main.go: the identity under which the agent ships, at its start and through the
-- renewals.
use shadow_twin.Prelude.{◌/◌, ◌≡◌, refl, false, List, [], ◌∷◌, arith, ◌∙◌, inl, inr, Bool-cases}
use mathlib.Core.Path.{subst}
use shadow_twin.Fs.{Disk, Result, ok}
use shadow_twin.Fs.Actions.{>>=-eq-ok, >>-eq-ok}
use shadow_twin.Config.{Config, Os, load}
use shadow_twin.Transport.{new_shipper}
use shadow_twin.Transport.Backoff.{second}
use shadow_twin.Enroll.{Crypto, Identity, needs_renewal}
use shadow_twin.Enroll.Storage.{IsPaired, renew-IsPaired}
use shadow_twin.Enroll.Issuing.{Ensured}
use shadow_twin.Enroll.Ensuring.{ensure_identity-Ensured}
use shadow_twin.Agent.Start.{
  Sink, platform, StartError, or_fatal, Machine, host_name, Ready, build_sink, start_agent, Check,
  renewal_check, renewal_loop,
}

or_fatal-ok :
    {E A : Type 0} (fatal : E → StartError) (call : Disk → Result E A × Disk) (d d' : Disk) {a : A}
    → or_fatal fatal call d ≡ (ok a, d')
    → call d ≡ (ok a, d')
unfolding or_fatal
or_fatal-ok fatal call d d' h = ground (arith, h)

module _ (x : Crypto) (m : Machine) where
  -- The identity is paired, with the same key and the same pinned CA.
  pub record Keeps (i j : Identity) : Type 0 where
    pub paired : IsPaired x j
    pub key : j.key_pem ≡ i.key_pem
    pub ca : j.ca_pem ≡ i.ca_pem

  renewal_check-Keeps :
      (cfg : Config) (t : Check) (i : Identity) (d : Disk)
      → IsPaired x i
      → Keeps i (renewal_check x m cfg t (i, d)).0
  unfolding renewal_check
  renewal_check-Keeps cfg t i d h =
      let (p, k, c) = renew-IsPaired (record x { post = t.post }) cfg m.hostname i d h in
      elim (Bool-cases (needs_renewal t.at (cfg.renew_before / second) i)) [
        | inl y ↦ rw y (record { paired = p; key = k; ca = c })
        | inr n ↦ rw n (record { paired = h; key = refl; ca = refl })
      ]

  renewal_loop-Keeps :
      (cfg : Config) (ts : List Check) (i : Identity) (d : Disk)
      → IsPaired x i
      → Keeps i (renewal_loop x m cfg ts (i, d)).0
  unfolding renewal_loop
  renewal_loop-Keeps cfg [] i d h = record { paired = h; key = refl; ca = refl }
  renewal_loop-Keeps cfg (t ∷ ts) i d h =
      let k = renewal_check-Keeps cfg t i d h in
      let (j, d1) = renewal_check x m cfg t (i, d) in
      let k' = renewal_loop-Keeps cfg ts j d1 k.paired in
      record { paired = k'.paired; key = k'.key ∙ k.key; ca = k'.ca ∙ k.ca }

  -- The agent ships to the configured endpoint under an identity that is on the disk too, and that
  -- every sequence of renewals keeps in order.
  pub record Ships (cfg : Config) (sink : Sink) (d : Disk) : Type 0 where
    pub identity : Identity
    pub shipping : sink ≡ platform (new_shipper cfg.ingest_endpoint (host_name m.hostname)) identity
    pub ensured : Ensured x m.certs identity d.files
    pub kept : (ts : List Check) → Keeps identity (renewal_loop x m cfg ts (identity, d)).0

  same_sink :
      {s t : Sink} (d d' : Disk)
      → ◌≡◌ {A = Result StartError Sink × Disk} (ok s, d) (ok t, d')
      → ◌≡◌ {A = Sink × Disk} (s, d) (t, d')
  same_sink d d' h = cc

  same_ready :
      {s r : Ready} (d d' : Disk)
      → ◌≡◌ {A = Result StartError Ready × Disk} (ok s, d) (ok r, d')
      → ◌≡◌ {A = Sink × Disk} (s.sink, d) (r.sink, d')
  same_ready d d' h = ground (arith, h)

  build_sink-Ships :
      (cfg : Config) (sink : Sink) (d d' : Disk)
      → build_sink x m false cfg d ≡ (ok sink, d')
      → Ships cfg sink d'
  unfolding build_sink
  build_sink-Ships cfg sink d d' h =
      let (i, d1, got, h1) = >>=-eq-ok _ _ d d' h in
      let e =
        (ensure_identity-Ensured x m.certs m.now cfg m.hostname i d d1
          (or_fatal-ok _ _ d d1 got)).0 in
      subst (λ (y : Sink × Disk). Ships cfg y.0 y.1) (same_sink d1 d' h1)
        (record {
          identity = i;
          shipping = refl;
          ensured = e;
          kept = λ ts. renewal_loop-Keeps cfg ts i d1 e.paired;
        })

  -- If the agent starts without --dry-run, its consumer delivers to the configured endpoint under
  -- an identity whose certificate belongs to its key and whose files are on the disk as in memory.
  -- And after every sequence of the renewal loop's checks, whatever the platform answers and
  -- whichever calls fail, the certificate in memory belongs to the same key, and the pinned CA is
  -- the same.
  pub start_agent-Ships :
      (os : Os) (d d' : Disk) (r : Ready)
      → start_agent x m os false d ≡ (ok r, d')
      → Ships (load os) r.sink d'
  unfolding start_agent
  start_agent-Ships os d d' r h =
      let (_, d1, made, h1) = >>-eq-ok _ _ d d' h in
      let (q, d2, opened, h2) = >>=-eq-ok _ _ d1 d' h1 in
      let (sink, d3, built, h3) = >>=-eq-ok _ _ d2 d' h2 in
      subst (λ (y : Sink × Disk). Ships (load os) y.0 y.1) (same_ready d3 d' h3)
        (build_sink-Ships (load os) sink d2 d3 built)
