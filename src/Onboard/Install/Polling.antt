-- ===== src/Onboard/Install/Polling.antt =====
-- cmd/agent/onboard.go: the installer's waiting for the service.
use shadow_twin.Prelude.{
  ℕ, zero, suc, ◌+◌, ◌≤◌, ◌<◌, ◌≡◌, refl, inl, inr, Bytes, Bool, true, false, arith, Bool-cases,
  ltb, ltb→lt, sym, nat_eq,
}
use mathlib.Core.Path.{subst}
use native.Mathlib.Decide.{dec_lt}
use native.Mathlib.Nat.{le_trans}
use shadow_twin.Fs.{Result, ok, err}
use shadow_twin.Onboard.{InstallOpts, endpoints_from_server}
use shadow_twin.Onboard.Host.{World, Failure, unreachable, not_healthy, probe_tls}
use shadow_twin.Onboard.Install.{Health, is_up, wait_healthy, verify_install}

below_zero : (j : ℕ) → j ≤ 0 → j ≡ 0
below_zero j h = omega (arith, h)

module _ (w : World) (o : InstallOpts) (health : ℕ → Health) where
  abbrev pub is_healthy : ℕ → Bool
  is_healthy k = is_up w o (health k)

  -- The time at which a round begins, and the time at which it looks at the clock. A round that
  -- goes on sleeps for a second.
  abbrev pub begun_at : ℕ → ℕ
  begun_at zero = w.now
  begun_at (suc k) = begun_at k + (health k).took + 1

  abbrev pub clock_at : ℕ → ℕ
  clock_at k = begun_at k + (health k).took

  paced : (k : ℕ) → clock_at k + 1 ≤ clock_at (suc k)
  paced k = omega arith

  -- The answer of the waiting: a healthy round before the deadline, or none.
  pub data Waited (deadline : ℕ) (r : Result Failure (Unit {0})) : Type 0 where
    healthy : (k : ℕ) → r ≡ ok tt → clock_at k < deadline → is_healthy k ≡ true → Waited deadline r
    timed_out :
        r ≡ err not_healthy
        → ((k : ℕ) → clock_at k < deadline → is_healthy k ≡ false)
        → Waited deadline r

  module _ (deadline : ℕ) where
    clock_mono : (k j : ℕ) → j ≤ k → clock_at j ≤ clock_at k
    clock_mono zero j h = subst (λ i. clock_at i ≤ clock_at 0) (sym (below_zero j h)) (omega arith)
    clock_mono (suc k) j h = elim (nat_eq.dec j (suc k)) [
      | yes e ↦ subst (λ i. clock_at i ≤ clock_at (suc k)) (sym e) (omega arith)
      | no n ↦ le_trans (clock_mono k j (omega (arith, h, n))) (omega (arith, paced k))
    ]

    -- Past the deadline, every round that stood before it has been seen.
    seen : (round : ℕ) → deadline ≤ clock_at round → (k : ℕ) → clock_at k < deadline → k < round
    seen round late k early = elim (dec_lt k round) [
      | yes h ↦ h
      | no h ↦ absurd (omega (arith, clock_mono k round (omega (arith, h))))
    ]

    sick_still :
        (round : ℕ)
        → is_healthy round ≡ false
        → ((k : ℕ) → k < round → is_healthy k ≡ false)
        → (k : ℕ) → k < suc round
        → is_healthy k ≡ false
    sick_still round now before k h = elim (nat_eq.dec k round) [
      | yes e ↦ subst (λ i. is_healthy i ≡ false) (sym e) now
      | no n ↦ before k (omega (arith, h, n))
    ]

    wait_healthy-Waited :
        (fuel round : ℕ)
        → 0 < fuel
        → deadline < begun_at round + fuel
        → ((k : ℕ) → k < round → is_healthy k ≡ false)
        → Waited deadline (wait_healthy w o health fuel round (begun_at round) deadline)
    unfolding wait_healthy
    wait_healthy-Waited zero round p f sick = absurd (omega arith)
    wait_healthy-Waited (suc fuel) round p f sick =
        elim (Bool-cases (ltb (clock_at round) deadline)) [
          | inr late ↦
              rw late
                (timed_out refl (λ k early. sick k (seen round (ground (arith, late)) k early)))
          | inl early ↦ elim (Bool-cases (is_healthy round)) [
            | inl well ↦ rw early (rw well (healthy round refl (ltb→lt _ _ early) well))
            | inr ill ↦ rw early (
                rw ill (
                  wait_healthy-Waited fuel (suc round) (omega (arith, ltb→lt _ _ early))
                    (omega (arith, f)) (sick_still round ill sick)))
          ]
        ]

  -- How verifyInstall can end.
  pub data Verified (ca_pem : Bytes) (r : Result Failure (Unit {0})) : Type 0 where
    no_contact :
        probe_tls w (endpoints_from_server o.server).ingest ca_pem ≡ false
        → r ≡ err unreachable
        → Verified ca_pem r
    waited :
        probe_tls w (endpoints_from_server o.server).ingest ca_pem ≡ true
        → Waited (w.now + 25) r
        → Verified ca_pem r

  -- However long the rounds take, and whatever the commands and the disk show in each,
  -- verifyInstall does not run out of its 26 rounds: it reports that the platform cannot be reached
  -- where the TLS probe fails; else it succeeds, and in some round before the deadline the service
  -- was active and its certificate there, or it reports that the service is not healthy, and in no
  -- round before the deadline was it so.
  pub verify_install-Verified :
      (ca_pem : Bytes) → Verified ca_pem (verify_install w health o ca_pem)
  unfolding verify_install
  verify_install-Verified ca_pem =
      elim (Bool-cases (probe_tls w (endpoints_from_server o.server).ingest ca_pem)) [
        | inr n ↦ rw n (no_contact n refl)
        | inl y ↦ rw y (
            waited y (
              wait_healthy-Waited (w.now + 25) 26 0 (omega arith) (omega arith)
                (λ k h. absurd (omega (arith, h)))))
      ]
