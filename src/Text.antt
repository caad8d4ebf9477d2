-- ===== src/Text.antt =====
-- The functions of Go's package strings that the agent calls, on bytes.
pub mod Suffix
pub mod Order
use shadow_twin.Prelude.{
  ℕ, zero, suc, Bytes, Bool, true, false, ◌||◌, ◌&&◌, leb, Option, none, some, List, [], ◌∷◌, ◌++◌,
  ◌==◌, nat_eq, bytes_eq, if◌then◌else◌,
}

-- strings.HasPrefix
unfoldable pub has_prefix : Bytes → Bytes → Bool
unfolding nat_eq
has_prefix s [] = true
has_prefix [] (p ∷ ps) = false
has_prefix (c ∷ s) (p ∷ ps) = if c == p then has_prefix s ps else false

-- strings.HasSuffix
unfoldable pub has_suffix : Bytes → Bytes → Bool
unfolding bytes_eq
has_suffix [] suffix = [] == suffix
has_suffix (c ∷ s) suffix = (c ∷ s) == suffix || has_suffix s suffix

-- The ASCII characters that unicode.IsSpace accepts: tab to carriage return, and the space.
unfoldable pub is_space : ℕ → Bool
unfolding nat_eq
is_space c = c == 9 || c == 10 || c == 11 || c == 12 || c == 13 || c == 32

-- The two-byte and three-byte characters in UTF-8 that unicode.IsSpace accepts: U+0085 and U+00A0;
-- U+1680, U+2000 to U+200A, U+2028, U+2029, U+202F, U+205F and U+3000.
unfoldable pub is_space2 : ℕ → ℕ → Bool
unfolding nat_eq
is_space2 a b = a == 0xC2 && (b == 0x85 || b == 0xA0)

unfoldable pub is_space3 : ℕ → ℕ → ℕ → Bool
unfolding nat_eq
is_space3 a b c =
    (a == 0xE1 && (b == 0x9A && c == 0x80))
    || (a == 0xE2
        && (b == 0x80 && ((leb 0x80 c && leb c 0x8A) || c == 0xA8 || c == 0xA9 || c == 0xAF)))
    || (a == 0xE2 && (b == 0x81 && c == 0x9F))
    || (a == 0xE3 && (b == 0x80 && c == 0x80))

-- The bytes of the space that a text begins with, and 0 where it begins with another character.
unfoldable pub space_width : Bytes → ℕ
space_width [] = 0
space_width (a ∷ []) = if is_space a then 1 else 0
space_width (a ∷ b ∷ []) = if is_space a then 1 else if is_space2 a b then 2 else 0
space_width (a ∷ b ∷ c ∷ s) =
    if is_space a then 1 else if is_space2 a b then 2 else if is_space3 a b c then 3 else 0

-- The text without the spaces in front, after `n` bytes of the one that has begun.
unfoldable pub trim_left_space : ℕ → Bytes → Bytes
trim_left_space n [] = []
trim_left_space (suc n) (c ∷ s) = trim_left_space n s
trim_left_space zero (c ∷ s) = elim (space_width (c ∷ s)) [
  | zero ↦ c ∷ s
  | suc n ↦ trim_left_space n s
]

-- One space and nothing else.
unfoldable pub is_one_space : Bytes → Bool
is_one_space [] = false
is_one_space (a ∷ []) = is_space a
is_one_space (a ∷ b ∷ []) = is_space2 a b
is_one_space (a ∷ b ∷ c ∷ []) = is_space3 a b c
is_one_space (a ∷ b ∷ c ∷ d ∷ s) = false

-- The text without the spaces at its end.
unfoldable pub trim_right_space : Bytes → Bytes
trim_right_space [] = []
trim_right_space (c ∷ s) = let r = trim_right_space s in if is_one_space (c ∷ r) then [] else c ∷ r

-- A byte goes when it and all that follow it are in the cutset.
unfoldable pub cons_trimmed : (ℕ → Bool) → ℕ → Bytes → Bytes
cons_trimmed f c [] = if f c then [] else c ∷ []
cons_trimmed f c (x ∷ xs) = c ∷ x ∷ xs

unfoldable pub trim_right : (ℕ → Bool) → Bytes → Bytes
unfolding cons_trimmed
trim_right f [] = []
trim_right f (c ∷ s) = cons_trimmed f c (trim_right f s)

-- strings.TrimSpace and bytes.TrimSpace
unfoldable pub trim_space : Bytes → Bytes
trim_space s = trim_left_space 0 (trim_right_space s)

-- strings.TrimRight with the cutset "/"
unfoldable pub trim_slashes : Bytes → Bytes
unfolding nat_eq trim_right
trim_slashes = trim_right (λ c. c == b'/')

abbrev cons_cut : ℕ → Option (Bytes × Bytes) → Option (Bytes × Bytes)
cons_cut c none = none
cons_cut c (some (before, after)) = some (c ∷ before, after)

-- strings.Cut at a one-byte separator
unfoldable pub cut : ℕ → Bytes → Option (Bytes × Bytes)
unfolding nat_eq
cut sep [] = none
cut sep (c ∷ s) = let rest = cons_cut c (cut sep s) in if c == sep then some ([], s) else rest

abbrev cons_part : ℕ → List Bytes → List Bytes
cons_part c [] = (c ∷ []) ∷ []
cons_part c (part ∷ parts) = (c ∷ part) ∷ parts

-- strings.Split at a one-byte separator
unfoldable pub split_on : ℕ → Bytes → List Bytes
unfolding nat_eq
split_on sep [] = [] ∷ []
split_on sep (c ∷ s) = let rest = split_on sep s in if c == sep then [] ∷ rest else cons_part c rest
