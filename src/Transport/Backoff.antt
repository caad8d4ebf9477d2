-- ===== src/Transport/Backoff.antt =====
-- internal/transport/transport.go: Backoff, in int64 arithmetic.
use shadow_twin.Prelude.{
  passes, passes-at, ℕ, zero, suc, ◌+◌, ◌-◌, ◌*◌, ◌%◌, ◌^◌, ◌≤◌, ◌<◌, ◌≡◌, refl, ◌∙◌, ap, Bool,
  true, ◌||◌, ◌==◌, nat_eq, leb, ltb, arith, if◌then◌else◌,
}
use native.Mathlib.Nat.{two-pow-succ}

-- base << k on an int64, as the 64 bits of the result.
unfoldable pub shl64 : ℕ → ℕ → ℕ
shl64 base k = (base * 2 ^ k) % 2 ^ 64

-- d <= 0 in two's complement
unfoldable pub not_positive : ℕ → Bool
not_positive d = d == 0 || leb (2 ^ 63) d

-- The delay before the jitter. Durations are nanoseconds, and attempt is 1 for the first retry; a
-- smaller one counts as 1.
unfoldable pub ceiling : ℕ → ℕ → ℕ → ℕ
unfolding shl64 not_positive
ceiling attempt base max =
    let d = shl64 base (attempt - 1) in if not_positive d || ltb max d then max else d

-- rand.Int63n(d + 1) draws the remainder of a random number.
unfoldable pub backoff : ℕ → ℕ → ℕ → ℕ → ℕ
backoff draw attempt base max = draw % (ceiling attempt base max + 1)

-- The delay is never above the cap, for every random number, attempt, base and cap, whatever the
-- shift overflows to.
pub backoff-le : (draw attempt base max : ℕ) → backoff draw attempt base max ≤ max
unfolding backoff ceiling
backoff-le draw attempt base max = ground arith

abbrev pub second : ℕ
second = 1000000000

unfoldable pub lesser : ℕ → ℕ → ℕ
lesser a b = if ltb b a then b else a

-- Where the base, doubled k times, is above 0 and below the sign bit, the delay before the jitter
-- of attempt k + 1 is the smaller of it and the cap.
ceiling-lesser :
    (k base max : ℕ)
    → base * 2 ^ k < 2 ^ 63
    → 0 < base * 2 ^ k
    → ceiling (suc k) base max ≡ lesser (base * 2 ^ k) max
unfolding ceiling shl64 not_positive lesser
ceiling-lesser k base max h q = ground arith

pow_step : (j : ℕ) → 2 ^ (64 + suc j) ≡ 2 ^ (64 + j) + 2 ^ (64 + j)
pow_step j =
    let e : 64 + suc j ≡ suc (64 + j) = omega arith in ap (λ i. 2 ^ i) e ∙ two-pow-succ (64 + j)

-- From the 64th shift on no bit is left.
shifted_out : (j : ℕ) → (2 ^ (64 + j) % 2 ^ 64 ≡ 0) × (64 ≤ 2 ^ (64 + j))
shifted_out zero = (refl, omega arith)
shifted_out (suc j) =
    let (a, b) = shifted_out j in (omega (arith, a, pow_step j), omega (arith, b, pow_step j))

agrees : ℕ → Bool
unfolding ceiling shl64 not_positive lesser nat_eq
agrees k = ceiling (suc k) second (60 * second) == lesser (second * 2 ^ k) (60 * second)

agrees_table : passes agrees 64 ≡ true
unfolding passes agrees
agrees_table = refl

ceiling-deployed_from :
    (k j : ℕ)
    → k ≡ 64 + j
    → ceiling (suc k) second (60 * second) ≡ lesser (second * 2 ^ k) (60 * second)
unfolding ceiling shl64 not_positive lesser
ceiling-deployed_from k j e = let (a, b) = shifted_out j in ground (arith, ap (λ i. 2 ^ i) e, a, b)

-- With the base of one second and the cap of one minute, the delay before the jitter is, for every
-- attempt, the smaller of the cap and of a second that is doubled once for each attempt after the
-- first; the shifts that overflow an int64 or lose every bit give the cap too.
pub ceiling-deployed :
    (k : ℕ) → ceiling (suc k) second (60 * second) ≡ lesser (second * 2 ^ k) (60 * second)
unfolding agrees
ceiling-deployed k = elim (nat_eq.dec (64 - k) 0) [
  | yes p ↦ ceiling-deployed_from k (k - 64) (omega (arith, p))
  | no p ↦ ground (arith, passes-at agrees 64 k agrees_table (omega (arith, p)))
]
