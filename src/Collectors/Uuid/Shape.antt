-- ===== src/Collectors/Uuid/Shape.antt =====
-- internal/collectors/uuid.go: the form of the identifiers, against RFC 4122.
use Prim.Native.Nat.{bit_and, bit_or}
use shadow_twin.Prelude.{
  passes, passes-at, ℕ, ◌<◌, ◌/◌, ◌%◌, Bytes, ◌≡◌, refl, Bool, true, false, ◌&&◌, ◌||◌, [], ◌∷◌,
  ◌==◌, nat_eq, All, leb, ◌++◌, codes, if◌then◌else◌,
}
use shadow_twin.Collectors.Uuid.{Random16, hex_digit, hex_encode, format, new_uuid}

-- a digit or a letter from a to f
abbrev pub is_hex : ℕ → Bool
is_hex c = (leb b'0' c && leb c b'9') || (leb b'a' c && leb c b'f')

-- 8, 9, a or b: the variant digit
abbrev pub is_variant : ℕ → Bool
is_variant c = c == b'8' || c == b'9' || c == b'a' || c == b'b'

-- In a template x stands for a hex digit, v for a variant digit, and all else for itself.
abbrev pub fits_char : ℕ → ℕ → Bool
fits_char p c = if p == b'x' then is_hex c else if p == b'v' then is_variant c else c == p

pub data Fits : Bytes → Bytes → Type 0 where
  end : Fits [] []
  next : {p c : ℕ} {ps cs : Bytes} → fits_char p c ≡ true → Fits ps cs → Fits (p ∷ ps) (c ∷ cs)

abbrev pub IsByte : ℕ → Type 0
IsByte b = b < 256

pub record IsFilled (r : Random16) : Type 0 where
  pub head4 : All IsByte (r.b0 ∷ r.b1 ∷ r.b2 ∷ r.b3 ∷ [])
  pub pair4 : All IsByte (r.b4 ∷ r.b5 ∷ [])
  pub pair6 : All IsByte (r.b6 ∷ r.b7 ∷ [])
  pub pair8 : All IsByte (r.b8 ∷ r.b9 ∷ [])
  pub node : All IsByte (r.b10 ∷ r.b11 ∷ r.b12 ∷ r.b13 ∷ r.b14 ∷ r.b15 ∷ [])

abbrev is_hex_pair : ℕ → Bool
is_hex_pair b = is_hex (hex_digit (b / 16)) && is_hex (hex_digit (b % 16))

-- The high digits of the two bytes that carry the version and the variant.
abbrev masks_fit : ℕ → Bool
masks_fit b =
    (hex_digit (bit_or (bit_and b 0x0f) 0x40 / 16) == b'4')
    && (is_hex (hex_digit (bit_or (bit_and b 0x0f) 0x40 % 16))
        && (is_variant (hex_digit (bit_or (bit_and b 0x3f) 0x80 / 16))
            && is_hex (hex_digit (bit_or (bit_and b 0x3f) 0x80 % 16))))

hex_table : passes is_hex_pair 256 ≡ true
unfolding passes hex_digit nat_eq
hex_table = refl

masks_table : passes masks_fit 256 ≡ true
unfolding passes hex_digit nat_eq
masks_table = refl

hex_pair_fits : (b : ℕ) → IsByte b → is_hex_pair b ≡ true
hex_pair_fits b h = passes-at is_hex_pair 256 b hex_table h

masked_fits : (b : ℕ) → IsByte b → masks_fit b ≡ true
masked_fits b h = passes-at masks_fit 256 b masks_table h

pub and_parts : (a b : Bool) → (a && b) ≡ true → (a ≡ true) × (b ≡ true)
and_parts true true h = (refl, refl)
and_parts true false h = cc
and_parts false b h = cc

abbrev hex_template : Bytes → Bytes
hex_template [] = []
hex_template (b ∷ bs) = b'x' ∷ b'x' ∷ hex_template bs

hex_encode-Fits : (bs : Bytes) → All IsByte bs → Fits (hex_template bs) (hex_encode bs)
unfolding hex_encode nat_eq
hex_encode-Fits [] h = end
hex_encode-Fits (b ∷ bs) (h, hs) =
    let (p, q) = and_parts _ _ (hex_pair_fits b h) in next p (next q (hex_encode-Fits bs hs))

Fits-append : {p s q t : Bytes} → Fits p s → Fits q t → Fits (p ++ q) (s ++ t)
Fits-append end k = k
Fits-append (next h hs) k = next h (Fits-append hs k)

version_Fits :
    (b c : ℕ)
    → IsByte b
    → IsByte c
    → Fits (codes "4xxx") (hex_encode (bit_or (bit_and b 0x0f) 0x40 ∷ c ∷ []))
unfolding hex_encode nat_eq
version_Fits b c h k =
    let (p, q) = and_parts _ _ (masked_fits b h) in
    let (q1, _) = and_parts _ _ q in next p (next q1 (hex_encode-Fits (c ∷ []) (k, tt)))

variant_Fits :
    (b c : ℕ)
    → IsByte b
    → IsByte c
    → Fits (codes "vxxx") (hex_encode (bit_or (bit_and b 0x3f) 0x80 ∷ c ∷ []))
unfolding hex_encode nat_eq
variant_Fits b c h k =
    let (_, q) = and_parts _ _ (masked_fits b h) in
    let (_, q2) = and_parts _ _ q in
    let (q3, q4) = and_parts _ _ q2 in next q3 (next q4 (hex_encode-Fits (c ∷ []) (k, tt)))

dash-Fits : {p s : Bytes} → Fits p s → Fits (b'-' ∷ p) (b'-' ∷ s)
unfolding nat_eq
dash-Fits h = next refl h

abbrev pub uuid4_template : Bytes
uuid4_template = codes "xxxxxxxx-xxxx-4xxx-vxxx-xxxxxxxxxxxx"

-- If the random bytes are bytes, the identifier has the canonical 8-4-4-4-12 form of a version 4
-- UUID: hex digits in lower case, dashes at their places, the version digit 4, and a variant digit
-- 8, 9, a or b.
pub new_uuid-Fits : (r : Random16) → IsFilled r → Fits uuid4_template (new_uuid r)
unfolding new_uuid format hex_encode nat_eq
new_uuid-Fits r h = Fits-append (hex_encode-Fits (r.b0 ∷ r.b1 ∷ r.b2 ∷ r.b3 ∷ []) h.head4) (
    dash-Fits (
      Fits-append (hex_encode-Fits (r.b4 ∷ r.b5 ∷ []) h.pair4) (
        dash-Fits (
          Fits-append (version_Fits r.b6 r.b7 h.pair6.0 h.pair6.1.0) (
            dash-Fits (
              Fits-append (variant_Fits r.b8 r.b9 h.pair8.0 h.pair8.1.0) (
                dash-Fits (
                  hex_encode-Fits (r.b10 ∷ r.b11 ∷ r.b12 ∷ r.b13 ∷ r.b14 ∷ r.b15 ∷ [])
                    h.node))))))))
