-- ===== src/Text/Order.antt =====
-- Go's `<` on strings, and sort.Strings.
pub mod Sorting
use Prim.Native.Nat.{compare, Ordering}
use shadow_twin.Prelude.{
  ℕ, Bytes, ◌≡◌, refl, Bool, true, false, List, [], ◌∷◌, arith, if◌then◌else◌,
}

-- a <= b, byte by byte
unfoldable pub leb_bytes : Bytes → Bytes → Bool
leb_bytes [] b = true
leb_bytes (x ∷ a) [] = false
leb_bytes (x ∷ a) (y ∷ b) = elim (compare x y) [
  | Ordering.lt ↦ true
  | Ordering.eq ↦ leb_bytes a b
  | Ordering.gt ↦ false
]

unfoldable pub insert_sorted : Bytes → List Bytes → List Bytes
insert_sorted s [] = s ∷ []
insert_sorted s (t ∷ ts) = if leb_bytes s t then s ∷ t ∷ ts else t ∷ insert_sorted s ts

-- sort.Strings
unfoldable pub sort_strings : List Bytes → List Bytes
unfolding insert_sorted leb_bytes
sort_strings [] = []
sort_strings (s ∷ ss) = insert_sorted s (sort_strings ss)
