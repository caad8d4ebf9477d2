-- ===== src/Prelude/Equality.antt =====
-- Go's `==` on numbers, byte strings and structs of them, as one operator.
use Prim.Native.Nat.{ℕ}
use Prim.Native.Char.{code}
use Prim.Native.String.{String}
use mathlib.Core.Path.{refl}
use mathlib.Core.Logic.{ite, dite}
use mathlib.Core.Bool.{Bool, true, false}
use mathlib.Core.List.{List, [], ◌∷◌}
use native.Mathlib.Omega.{arith}
use native.Mathlib.Decide.{ℕ_discrete}

-- A Go string or []byte.
abbrev pub Bytes : Type 0
Bytes = List ℕ

-- The bytes of an ASCII text.
abbrev pub codes : String → Bytes
codes String.[] = []
codes (String.◌∷◌ c s) = code c ∷ codes s

pub record Eq {ℓ} (A : Type ℓ) : Type ℓ where
  pub dec : Discrete A

infix 50 ◌==◌
abbrev pub ◌==◌ {ℓ} : {A : Type ℓ} ⦃e : Eq A⦄ → A → A → Bool
◌==◌ ⦃e⦄ a b = ite (e.dec a b) true false

instance unfoldable pub nat_eq : Eq ℕ
unfolding ℕ_discrete
nat_eq = record { dec = ℕ_discrete }

bytes_dec : Discrete Bytes
bytes_dec [] [] = yes refl
bytes_dec [] (y ∷ ys) = no (λ p. ground arith)
bytes_dec (x ∷ xs) [] = no (λ p. ground arith)
bytes_dec (x ∷ xs) (y ∷ ys) =
    let rest = bytes_dec xs ys in
    dite (ℕ_discrete x y)
      (λ p. dite rest (λ q. yes (ground arith)) (λ n. no (λ r. n (ground arith))))
      (λ n. no (λ r. n (ground arith)))

instance unfoldable pub bytes_eq : Eq Bytes
unfolding bytes_dec ℕ_discrete
bytes_eq = record { dec = bytes_dec }
