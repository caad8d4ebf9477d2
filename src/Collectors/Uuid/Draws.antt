-- ===== src/Collectors/Uuid/Draws.antt =====
-- internal/collectors/uuid.go: what an identifier tells of the random bytes that it is made of.
use Prim.Native.Nat.{bit_and, bit_or}
use shadow_twin.Prelude.{
  passes, passes-at, ℕ, ◌<◌, ◌/◌, ◌%◌, Bytes, ◌≡◌, refl, Bool, true, ◌&&◌, [], ◌∷◌, nat_eq, length,
  All, arith, ap, ◌++◌, sym, ◌∙◌, ltb, ltb→lt, ◌-◌, if◌then◌else◌,
}
use shadow_twin.Collectors.Uuid.{Random16, hex_digit, hex_encode, set_version, format, new_uuid}
use shadow_twin.Collectors.Uuid.Shape.{IsByte, IsFilled, and_parts}

-- The digits of a byte determine it.
hex_value : ℕ → ℕ
hex_value c = if ltb c 58 then c - 48 else c - 87

hex_value-hex_digit : (n : ℕ) → n < 16 → hex_value (hex_digit n) ≡ n
unfolding hex_value hex_digit
hex_value-hex_digit n h = ground arith

hex_digit-injective : (m n : ℕ) → m < 16 → n < 16 → hex_digit m ≡ hex_digit n → m ≡ n
hex_digit-injective m n h k e =
    sym (hex_value-hex_digit m h) ∙ (ap hex_value e ∙ hex_value-hex_digit n k)

byte-hex_digits :
    (a b : ℕ)
    → IsByte a
    → IsByte b
    → hex_digit (a / 16) ≡ hex_digit (b / 16)
    → hex_digit (a % 16) ≡ hex_digit (b % 16)
    → a ≡ b
byte-hex_digits a b h k p q = omega (
  arith,
  hex_digit-injective (a / 16) (b / 16) (omega arith) (omega arith) p,
  hex_digit-injective (a % 16) (b % 16) (omega arith) (omega arith) q,
)

hex_encode-injective :
    (xs ys : Bytes) (s t : Bytes)
    → length xs ≡ length ys
    → All IsByte xs
    → All IsByte ys
    → hex_encode xs ++ s ≡ hex_encode ys ++ t
    → (xs ≡ ys) × (s ≡ t)
unfolding hex_encode
hex_encode-injective [] [] s t n h k e = (refl, e)
hex_encode-injective [] (y ∷ ys) s t n h k e = absurd (omega arith)
hex_encode-injective (x ∷ xs) [] s t n h k e = absurd (omega arith)
hex_encode-injective (x ∷ xs) (y ∷ ys) s t n (h, hs) (k, ks) e =
    let (p, q) = hex_encode-injective xs ys s t (omega arith) hs ks (cc) in
    (cc (byte-hex_digits x y h k (cc) (cc), p), q)

masks_bounded : ℕ → Bool
masks_bounded b = ltb (bit_or (bit_and b 0x0f) 0x40) 256 && ltb (bit_or (bit_and b 0x3f) 0x80) 256

masks_bounded_table : passes masks_bounded 256 ≡ true
unfolding passes masks_bounded
masks_bounded_table = refl

masks_bounded_lem :
    (b : ℕ)
    → IsByte b
    → IsByte (bit_or (bit_and b 0x0f) 0x40) × IsByte (bit_or (bit_and b 0x3f) 0x80)
unfolding masks_bounded
masks_bounded_lem b h =
    let (p, q) = and_parts _ _ (passes-at masks_bounded 256 b masks_bounded_table h) in
    (ltb→lt _ _ p, ltb→lt _ _ q)

set_version-IsFilled : (r : Random16) → IsFilled r → IsFilled (set_version r)
unfolding set_version
set_version-IsFilled r h = record {
  head4 = h.head4;
  pair4 = h.pair4;
  pair6 = ((masks_bounded_lem r.b6 h.pair6.0).0, h.pair6.1);
  pair8 = ((masks_bounded_lem r.b8 h.pair8.0).1, h.pair8.1);
  node = h.node;
}

abbrev rest_of : Bytes → Bytes
rest_of [] = []
rest_of (c ∷ s) = s

format-injective : (r s : Random16) → IsFilled r → IsFilled s → format r ≡ format s → r ≡ s
unfolding format
format-injective r s h k e =
    let (p0, e0) =
      hex_encode-injective (r.b0 ∷ r.b1 ∷ r.b2 ∷ r.b3 ∷ []) (s.b0 ∷ s.b1 ∷ s.b2 ∷ s.b3 ∷ []) _ _
        refl h.head4 k.head4 e in
    let (p1, e1) =
      hex_encode-injective (r.b4 ∷ r.b5 ∷ []) (s.b4 ∷ s.b5 ∷ []) _ _ refl h.pair4 k.pair4
        (ap rest_of e0) in
    let (p2, e2) =
      hex_encode-injective (r.b6 ∷ r.b7 ∷ []) (s.b6 ∷ s.b7 ∷ []) _ _ refl h.pair6 k.pair6
        (ap rest_of e1) in
    let (p3, e3) =
      hex_encode-injective (r.b8 ∷ r.b9 ∷ []) (s.b8 ∷ s.b9 ∷ []) _ _ refl h.pair8 k.pair8
        (ap rest_of e2) in
    let (p4, _) =
      hex_encode-injective (r.b10 ∷ r.b11 ∷ r.b12 ∷ r.b13 ∷ r.b14 ∷ r.b15 ∷ [])
        (s.b10 ∷ s.b11 ∷ s.b12 ∷ s.b13 ∷ s.b14 ∷ s.b15 ∷ []) _ _ refl h.node k.node
        (ap rest_of e3) in
    ground (arith, p0, p1, p2, p3, p4)

-- Two draws of 16 random bytes that give the same identifier agree once the bits of the version and
-- of the variant are set.
new_uuid-injective :
    (r s : Random16)
    → IsFilled r
    → IsFilled s
    → new_uuid r ≡ new_uuid s
    → set_version r ≡ set_version s
unfolding new_uuid
new_uuid-injective r s h k e =
    format-injective (set_version r) (set_version s) (set_version-IsFilled r h)
      (set_version-IsFilled s k) e
