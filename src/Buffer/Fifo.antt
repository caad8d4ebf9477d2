-- ===== src/Buffer/Fifo.antt =====
-- internal/buffer/buffer.go: the names of event files and the order of the events.
use shadow_twin.Prelude.{
  ℕ, zero, suc, ◌+◌, ◌/◌, ◌%◌, ◌^◌, ◌<◌, ◌≡◌, Bytes, Bool, true, false, [], ◌∷◌, ◌++◌, ◌==◌, nat_eq,
  arith, ltb, if◌then◌else◌,
}
use native.Mathlib.Nat.{pow-suc}
use shadow_twin.Prelude.Int.{pos}
use shadow_twin.Text.Order.{leb_bytes}
use shadow_twin.Collectors.Event.{Event}
use shadow_twin.Buffer.{padded, format_nanos, file_name}

-- Two texts differ first at a place where the byte of the left one is smaller.
before : Bytes → Bytes → Bool
before [] ys = false
before (x ∷ xs) [] = false
before (x ∷ xs) (y ∷ ys) = if x == y then before xs ys else ltb x y

before-leb_bytes :
    (xs ys s t : Bytes)
    → before xs ys ≡ true
    → (leb_bytes (xs ++ s) (ys ++ t) ≡ true) × (leb_bytes (ys ++ t) (xs ++ s) ≡ false)
unfolding before leb_bytes
before-leb_bytes [] ys s t h = absurd (ground (arith, h))
before-leb_bytes (x ∷ xs) [] s t h = absurd (ground (arith, h))
before-leb_bytes (x ∷ xs) (y ∷ ys) s t h =
    (ground (arith, h, before-leb_bytes xs ys s t), ground (arith, h, before-leb_bytes xs ys s t))

before-append : (xs ys s t : Bytes) → before xs ys ≡ true → before (xs ++ s) (ys ++ t) ≡ true
unfolding before
before-append [] ys s t h = absurd (ground (arith, h))
before-append (x ∷ xs) [] s t h = absurd (ground (arith, h))
before-append (x ∷ xs) (y ∷ ys) s t h = ground (arith, h, before-append xs ys s t)

before-last : (xs : Bytes) (d e : ℕ) → d < e → before (xs ++ d ∷ []) (xs ++ e ∷ []) ≡ true
unfolding before
before-last [] d e h = ground (arith, h)
before-last (x ∷ xs) d e h = ground (arith, before-last xs d e h)

before-padded : (w a b : ℕ) → a < b → b < 10 ^ w → before (padded w a) (padded w b) ≡ true
unfolding padded
before-padded zero a b h k = absurd (omega (arith, h, k))
before-padded (suc w) a b h k = elim (nat_eq.dec (a / 10) (b / 10)) [
  | yes e ↦
      rw e (before-last (padded w (b / 10)) (b'0' + a % 10) (b'0' + b % 10) (omega (arith, h, e)))
  | no n ↦
      before-append (padded w (a / 10)) (padded w (b / 10)) _ _
        (before-padded w (a / 10) (b / 10) (omega (arith, h, n)) (omega (arith, k, pow-suc 10 w)))
]

module _ (early late : Event) (a b : ℕ) (e : early.collected_at ≡ pos a)
    (f : late.collected_at ≡ pos b) (h : a < b) (k : b < 2 ^ 63) where
  times : before (format_nanos early.collected_at) (format_nanos late.collected_at) ≡ true
  unfolding format_nanos
  times = rw (e, f) (before-padded 20 a b h (omega (arith, k)))

  -- If one event was collected before another, both from 1970 on and at times that an int64 holds
  -- in nanoseconds, then the name of its file comes first in the byte order by which the queue
  -- sorts, whatever the identifiers are.
  pub file_name-leb_bytes :
      (leb_bytes (file_name early) (file_name late) ≡ true)
      × (leb_bytes (file_name late) (file_name early) ≡ false)
  unfolding file_name
  file_name-leb_bytes =
      before-leb_bytes (format_nanos early.collected_at) (format_nanos late.collected_at) _ _ times
