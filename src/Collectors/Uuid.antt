-- ===== src/Collectors/Uuid.antt =====
-- internal/collectors/uuid.go
pub mod Shape
pub mod Draws
use Prim.Native.Nat.{bit_and, bit_or}
use shadow_twin.Prelude.{ℕ, ◌+◌, ◌-◌, ◌/◌, ◌%◌, Bytes, List, [], ◌∷◌, ◌++◌, ltb, if◌then◌else◌}

-- A digit of hex.Encode
unfoldable pub hex_digit : ℕ → ℕ
hex_digit n = if ltb n 10 then b'0' + n else b'a' + (n - 10)

-- hex.Encode
unfoldable pub hex_encode : Bytes → Bytes
unfolding hex_digit
hex_encode [] = []
hex_encode (b ∷ bs) = hex_digit (b / 16) ∷ hex_digit (b % 16) ∷ hex_encode bs

-- The array [16]byte that rand.Read fills.
pub record Random16 : Type 0 where
  pub b0 : ℕ
  pub b1 : ℕ
  pub b2 : ℕ
  pub b3 : ℕ
  pub b4 : ℕ
  pub b5 : ℕ
  pub b6 : ℕ
  pub b7 : ℕ
  pub b8 : ℕ
  pub b9 : ℕ
  pub b10 : ℕ
  pub b11 : ℕ
  pub b12 : ℕ
  pub b13 : ℕ
  pub b14 : ℕ
  pub b15 : ℕ

unfoldable pub set_version : Random16 → Random16
set_version r = record r {
  b6 = bit_or (bit_and r.b6 0x0f) 0x40;
  b8 = bit_or (bit_and r.b8 0x3f) 0x80;
}

abbrev pub dash : Bytes
dash = b'-' ∷ []

unfoldable pub format : Random16 → Bytes
unfolding hex_encode
format r =
    hex_encode (r.b0 ∷ r.b1 ∷ r.b2 ∷ r.b3 ∷ [])
    ++ (dash
        ++ (hex_encode (r.b4 ∷ r.b5 ∷ [])
            ++ (dash
                ++ (hex_encode (r.b6 ∷ r.b7 ∷ [])
                    ++ (dash
                        ++ (hex_encode (r.b8 ∷ r.b9 ∷ [])
                            ++ (dash
                                ++ hex_encode
                                    (r.b10 ∷ r.b11 ∷ r.b12 ∷ r.b13 ∷ r.b14 ∷ r.b15 ∷ []))))))))

-- The bytes are those that crypto/rand gives; its failure ends the process.
unfoldable pub new_uuid : Random16 → Bytes
unfolding set_version format
new_uuid r = format (set_version r)
