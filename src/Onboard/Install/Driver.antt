-- ===== src/Onboard/Install/Driver.antt =====
-- cmd/agent/onboard.go: install as a whole.
use shadow_twin.Prelude.{
  ℕ, zero, suc, ◌+◌, ◌<◌, ◌≡◌, refl, inl, inr, Bytes, Bool, true, false, Option, none, some, arith,
  ap, sym, ◌∙◌, ltb, ltb→lt, Bool-cases, nat_eq, if◌then◌else◌,
}
use mathlib.Core.Path.{subst}
use shadow_twin.Fs.{Result, ok}
use shadow_twin.Fs.Actions.{pure, require, or_fail, >>=-eq-ok, >>-eq-ok}
use shadow_twin.Onboard.{InstallOpts, render_unit}
use shadow_twin.Onboard.Host.{Host, World, Failure, require_root, missing_flags, no_executable}
use shadow_twin.Onboard.Install.{
  InstallArgs, Done, planned, installed, Health, wait_healthy, verify_install, opts_of, env_content,
  set_up, resolved, carry_out, run_install,
}
use shadow_twin.Onboard.Install.Polling.{is_healthy, begun_at, clock_at}
use shadow_twin.Onboard.Install.Placing.{IsApart, Placed}
use shadow_twin.Onboard.Install.Service.{IsNotEnabled, set_up-SetUp, not_enabled, whole}

module _ (w : World) (o : InstallOpts) (health : ℕ → Health) where
  wait_healthy-ok :
      (fuel round deadline : ℕ)
      → wait_healthy w o health fuel round (begun_at w o health round) deadline ≡ ok tt
      → (k : ℕ) × (clock_at w o health k < deadline) × (is_healthy w o health k ≡ true)
  unfolding wait_healthy
  wait_healthy-ok zero round deadline h = absurd (ground (arith, h))
  wait_healthy-ok (suc fuel) round deadline h =
      elim (Bool-cases (ltb (clock_at w o health round) deadline)) [
        | inr late ↦ absurd (ground (arith, h, late))
        | inl early ↦ elim (Bool-cases (is_healthy w o health round)) [
          | inl well ↦ (round, ltb→lt _ _ early, well)
          | inr sick ↦ wait_healthy-ok fuel (suc round) deadline (ground (arith, h, early, sick))
        ]
      ]

  verify_install-ok :
      (ca_pem : Bytes)
      → verify_install w health o ca_pem ≡ ok tt
      → (k : ℕ) × (clock_at w o health k < w.now + 25) × (is_healthy w o health k ≡ true)
  unfolding verify_install
  verify_install-ok ca_pem h = wait_healthy-ok 26 0 (w.now + 25) (ground (arith, h))

require-ok :
    (b : Bool) (x : Failure) (h h1 : Host) {u : Unit {0}} → require b x h ≡ (ok u, h1) → h1 ≡ h
require-ok true x h h1 e = ap (λ y. y.1) (sym e)
require-ok false x h h1 e = absurd (ground (arith, e))

or_fail-ok :
    {A : Type 0} (o : Option A) (x : Failure) (h h1 : Host) {s t : A}
    → o ≡ some s
    → or_fail o x h ≡ (ok t, h1)
    → ◌≡◌ {A = A × Host} (t, h1) (s, h)
or_fail-ok none x h h1 g e = absurd (cc)
or_fail-ok (some y) x h h1 g e = cc

module _ (w : World) (health : ℕ → Health) (a : InstallArgs) (self : Bytes) where
  -- The ends of an install without an error: the files that it would write are shown and nothing
  -- has changed, or root has installed the agent whole and it was healthy within 25 seconds.
  pub data Ends (before : Host) : Done → Host → Type 0 where
    shown :
        a.dry_run ≡ true
        → Ends before (planned (render_unit (opts_of w a)) (env_content w (opts_of w a))) before
    in_place :
        (ca_pem : Bytes) (k : ℕ) (after : Host)
        → w.euid ≡ 0
        → Placed w
            (resolved w self)
            (opts_of w a)
            a.ca_src
            before.disk.files
            ca_pem
            after.disk.files
        → clock_at w (opts_of w a) health k < w.now + 25
        → is_healthy w (opts_of w a) health k ≡ true
        → Ends before installed after

  -- The host before, and the state and the result of a last step.
  same_end :
      {x y : Done} {g h : Host}
      → ◌≡◌ {A = Result Failure Done × Host} (ok x, g) (ok y, h)
      → ◌≡◌ {A = Done × Host} (x, g) (y, h)
  same_end e = cc

  require_root-ok :
      (h h1 : Host) {u : Unit {0}} → require_root w h ≡ (ok u, h1) → (w.euid ≡ 0) × (h1 ≡ h)
  unfolding require_root nat_eq
  require_root-ok h h1 e = (ground (arith, e), ground (arith, e))

  set_up-ok :
      (h h2 : Host) (ca_pem : Bytes)
      → IsApart w (resolved w self) (opts_of w a) a.ca_src
      → IsNotEnabled (opts_of w a) h.commands
      → set_up w (resolved w self) (opts_of w a) a.ca_src h ≡ (ok ca_pem, h2)
      → (ca : Bytes) × Placed w
          (resolved w self)
          (opts_of w a)
          a.ca_src
          h.disk.files
          ca
          h2.disk.files
  set_up-ok h h2 ca_pem apart n e =
      elim (set_up-SetUp w (resolved w self) (opts_of w a) a.ca_src h apart n) [
        | not_enabled x r _ ↦ absurd (cc (sym (ap (λ y. y.0) e) ∙ r))
        | whole ca p ↦ (
          ca,
          subst
              (λ (y : Host).
                Placed w (resolved w self) (opts_of w a) a.ca_src h.disk.files ca y.disk.files)
              (ap (λ y. y.1) e) p,
        )
      ]

  carry_out-Ends :
      (h h' : Host) (done : Done)
      → IsApart w (resolved w self) (opts_of w a) a.ca_src
      → IsNotEnabled (opts_of w a) h.commands
      → carry_out w health (resolved w self) (opts_of w a) a.ca_src h ≡ (ok done, h')
      → Ends h done h'
  unfolding carry_out
  carry_out-Ends h h' done apart n e =
      let (_, h1, rooted, e1) = >>-eq-ok _ _ h h' e in
      let (root, still) = require_root-ok h h1 rooted in
      let (ca_pem, h2, made, e2) = >>=-eq-ok _ _ h1 h' e1 in
      let (_, h3, seen, e3) = >>-eq-ok _ _ h2 h' e2 in
      let (ca, p) =
        set_up-ok h h2 ca_pem apart n
          (ap (λ g. set_up w (resolved w self) (opts_of w a) a.ca_src g) (sym still) ∙ made) in
      let (k, early, well) = verify_install-ok w (opts_of w a) health ca_pem (ap (λ y. y.0) seen) in
      subst (λ (y : Done × Host). Ends h y.0 y.1) (same_end e3)
        (in_place ca k h3 root
          (subst
            (λ (y : Host).
              Placed w (resolved w self) (opts_of w a) a.ca_src h.disk.files ca y.disk.files)
            (ap (λ y. y.1) seen) p)
          early well)

  run_install-Ends_from :
      (h h' : Host) (done : Done)
      → IsApart w (resolved w self) (opts_of w a) a.ca_src
      → IsNotEnabled (opts_of w a) h.commands
      → (b : Bool) → a.dry_run ≡ b
      → (if b
            then pure (planned (render_unit (opts_of w a)) (env_content w (opts_of w a)))
            else carry_out w health (resolved w self) (opts_of w a) a.ca_src)
          h
        ≡ (ok done, h')
      → Ends h done h'
  run_install-Ends_from h h' done apart n true b e =
      subst (λ (y : Done × Host). Ends h y.0 y.1) (same_end e) (shown b)
  run_install-Ends_from h h' done apart n false b e = carry_out-Ends h h' done apart n e

  -- Let the four files that install places have different paths, and let no command that has been
  -- run before enable the service. If install ends without an error, then under --dry-run it shows
  -- the rendered unit and the rendered environment file and the host is unchanged, and otherwise:
  -- it ran as root, the binary, the CA, the environment file and the unit are in place, whole, with
  -- what it renders and with their modes, and in some round before the deadline of 25 seconds the
  -- service was active and its certificate there.
  pub run_install-Ends :
      (h h' : Host) (done : Done)
      → w.executable ≡ some self
      → IsApart w (resolved w self) (opts_of w a) a.ca_src
      → IsNotEnabled (opts_of w a) h.commands
      → run_install w health a h ≡ (ok done, h')
      → Ends h done h'
  unfolding run_install
  run_install-Ends h h' done exe apart n e =
      let (_, h1, given, e1) = >>-eq-ok _ _ h h' e in
      let (found, h2, got, e2) = >>=-eq-ok _ _ h1 h' e1 in
      let same = or_fail-ok w.executable no_executable h1 h2 exe got in
      run_install-Ends_from h h' done apart n a.dry_run refl (
        subst
          (λ (y : Bytes × Host).
            (if a.dry_run
                then pure (planned (render_unit (opts_of w a)) (env_content w (opts_of w a)))
                else carry_out w health (resolved w y.0) (opts_of w a) a.ca_src)
              y.1
            ≡ (ok done, h'))
          (same ∙ ap (λ (g : Host). (self, g)) (require-ok _ missing_flags h h1 given)) e2)
