-- ===== src/Text/Suffix.antt =====
-- What a suffix says of a text: the end is the suffix, and its last byte is the text's.
use shadow_twin.Prelude.{
  ℕ, Bytes, ◌≡◌, refl, ap, ◌∙◌, true, false, ◌≢◌, [], ◌∷◌, ◌++◌, arith, bytes_eq, sym, inl, inr,
  Bool-cases,
}
use shadow_twin.Text.{has_suffix}

pub has_suffix-append : (s suffix : Bytes) → has_suffix (s ++ suffix) suffix ≡ true
unfolding has_suffix
has_suffix-append [] [] = refl
has_suffix-append [] (c ∷ s) = ground arith
has_suffix-append (c ∷ s) suffix = ground (arith, has_suffix-append s suffix)

pub has_suffix-split :
    (s suffix : Bytes) → has_suffix s suffix ≡ true → (front : Bytes) × (s ≡ front ++ suffix)
unfolding has_suffix
has_suffix-split [] suffix h = ([], ground arith)
has_suffix-split (c ∷ s) suffix h = elim (bytes_eq.dec (c ∷ s) suffix) [
  | yes e ↦ ([], e)
  | no n ↦ let (front, e) = has_suffix-split s suffix (ground arith) in (c ∷ front, ap (◌∷◌ c) e)
]

unfoldable pub last_or : ℕ → Bytes → ℕ
last_or d [] = d
last_or d (c ∷ s) = last_or c s

last_or-append : (d e c : ℕ) (s t : Bytes) → last_or d (s ++ c ∷ t) ≡ last_or e (c ∷ t)
unfolding last_or
last_or-append d e c [] t = refl
last_or-append d e c (x ∷ s) t = last_or-append x e c s t

-- A text that ends in one suffix does not end in another with a different last byte.
pub has_suffix-other :
    (s : Bytes) (a b : ℕ) (p q : Bytes)
    → last_or 0 (a ∷ p) ≢ last_or 0 (b ∷ q)
    → has_suffix (s ++ a ∷ p) (b ∷ q) ≡ false
has_suffix-other s a b p q h = elim (Bool-cases (has_suffix (s ++ a ∷ p) (b ∷ q))) [
  | inl e ↦
      let (front, e') = has_suffix-split _ _ e in
      absurd (h (sym (last_or-append 0 0 a s p) ∙ ap (last_or 0) e' ∙ last_or-append 0 0 b front q))
  | inr e ↦ e
]
