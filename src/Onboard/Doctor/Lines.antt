-- ===== src/Onboard/Doctor/Lines.antt =====
-- cmd/agent/onboard.go: the single lines of doctor and the count of failures.
use shadow_twin.Prelude.{
  ℕ, ◌<◌, ◌≡◌, refl, ◌⊎◌, ◌↔◌, inl, inr, Bytes, codes, Bool, true, false, Option, none, some, List,
  [], ◌∷◌, ◌++◌, arith, ◌==◌, bytes_eq, if◌then◌else◌,
}
use shadow_twin.Onboard.Accounts.{Users, user_in_group}
use shadow_twin.Onboard.Host.{World, Command, is_active}
use shadow_twin.Onboard.Install.{bin_name, journal_group}
use shadow_twin.Onboard.Doctor.{
  default_user, Item, Line, check, warn, count_failed, user_lines, cert_line, service_line,
}

-- A report without a failed line, line by line, in both directions.
pub check-none :
    (item : Item) (b : Bool) (ls : List Line)
    → (count_failed (check item b ∷ ls) ≡ 0) ↔ ((b ≡ true) × (count_failed ls ≡ 0))
unfolding count_failed
check-none item true ls = (λ h. (refl, h), λ h. h.1)
check-none item false ls = (λ h. absurd (omega (arith, h)), λ h. cc)

pub user_lines-none :
    (u : Users) (ls : List Line)
    → (count_failed (user_lines u ++ ls) ≡ 0) ↔ (
        (u.user_exists default_user ≡ true)
        × (user_in_group u default_user journal_group ≡ true)
        × (count_failed ls ≡ 0))
unfolding count_failed user_lines
user_lines-none u ls =
    (λ h. (ground (arith, h), ground (arith, h), ground (arith, h)), λ h. ground (arith, h))

pub cert_line-none :
    (w : World) (c : Option ℕ) (ls : List Line)
    → (count_failed (cert_line w c ∷ ls) ≡ 0)
      ↔ (((end : ℕ) × (c ≡ some end) × (w.now < end)) × (count_failed ls ≡ 0))
unfolding count_failed cert_line
cert_line-none w none ls = (λ h. absurd (omega (arith, h)), λ ((end, e, l), h). absurd (cc))
cert_line-none w (some end) ls = (
  λ h. ((end, refl, ground (arith, h)), ground (arith, h)),
  λ ((end', e, l), h). ground (arith, e, l, h),
)

pub guarded-none :
    (item : Item) (skip : Item) (known b : Bool) (ls : List Line)
    → (count_failed ((if known then warn skip else check item b) ∷ ls) ≡ 0)
      ↔ (((known ≡ true) ⊎ (b ≡ true)) × (count_failed ls ≡ 0))
unfolding count_failed
guarded-none item skip true b ls = (λ h. (inl refl, h), λ h. h.1)
guarded-none item skip false true ls = (λ h. (inr refl, h), λ h. h.1)
guarded-none item skip false false ls =
    (λ h. absurd (omega (arith, h)), λ (p, h). ground (arith, p))

pub service_line-none :
    (w : World) (u : Users) (history : List Command)
    → (count_failed (service_line w u history ∷ []) ≡ 0)
      ↔ ((u.command_exists (codes "systemctl") ≡ false) ⊎ (is_active w history bin_name ≡ true))
unfolding count_failed service_line
service_line-none w u history = (λ h. ground (arith, h), λ h. ground (arith, h))

pub is_empty-true : (b : Bytes) → ((b == []) ≡ true) ↔ (b ≡ [])
is_empty-true b = (λ h. ground (arith, h), λ h. ground (arith, h))
