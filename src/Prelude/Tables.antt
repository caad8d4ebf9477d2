-- ===== src/Prelude/Tables.antt =====
-- A Boolean test of the numbers below a bound, by evaluation.
use Prim.Native.Nat.{ℕ, zero, suc, ◌<◌}
use mathlib.Core.Path.{◌≡◌}
use mathlib.Core.Bool.{Bool, true, ◌&&◌}
use native.Mathlib.Omega.{arith}
use shadow_twin.Prelude.Equality.{nat_eq}

module _ (test : ℕ → Bool) where
  unfoldable pub passes : ℕ → Bool
  passes zero = true
  passes (suc bound) = passes bound && test bound

  pub passes-at : (bound k : ℕ) → passes bound ≡ true → k < bound → test k ≡ true
  unfolding passes
  passes-at zero k e h = absurd (omega (arith, h))
  passes-at (suc bound) k e h = elim (nat_eq.dec k bound) [
    | yes same ↦ ground (arith, e, same)
    | no other ↦ passes-at bound k (ground (arith, e)) (omega (arith, h, other))
  ]
