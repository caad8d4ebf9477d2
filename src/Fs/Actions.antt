-- ===== src/Fs/Actions.antt =====
-- Calls in a chain, on a state that stays as it was left when one of them fails.
use shadow_twin.Prelude.{
  ◌⊎◌, inl, inr, Bool, true, false, Option, none, some, ◌≡◌, refl, sym, ap, ◌∙◌,
}
use shadow_twin.Fs.{Result, ok, err}

abbrev pub Action : Type 0 → Type 0 → Type 0 → Type 0
Action S E A = S → Result E A × S

module _ {S E : Type 0} where
  abbrev rest_of : {A B : Type 0} → (A → Action S E B) → Result E A × S → Result E B × S
  rest_of f (ok a, s) = f a s
  rest_of f (err e, s) = (err e, s)

  infixl 5 ◌>>=◌ ◌>>◌
  unfoldable pub ◌>>=◌ : {A B : Type 0} → Action S E A → (A → Action S E B) → Action S E B
  ◌>>=◌ m f s = rest_of f (m s)

  unfoldable pub ◌>>◌ : {A B : Type 0} → Action S E A → Action S E B → Action S E B
  unfolding ◌>>=◌
  m >> k = m >>= λ _. k

  abbrev pub pure : {A : Type 0} → A → Action S E A
  pure a s = (ok a, s)

  abbrev pub fail : {A : Type 0} → E → Action S E A
  fail e s = (err e, s)

  abbrev pub require : Bool → E → Action S E (Unit {0})
  require true e = pure tt
  require false e = fail e

  abbrev pub or_fail : {A : Type 0} → Option A → E → Action S E A
  or_fail (some a) e = pure a
  or_fail none e = fail e

  pub Result-pair :
      {A : Type 0} (x : Result E A × S)
      → ((e : E) × (u : S) × (x ≡ (err e, u))) ⊎ ((a : A) × (u : S) × (x ≡ (ok a, u)))
  Result-pair (err e, u) = inl (e, u, refl)
  Result-pair (ok a, u) = inr (a, u, refl)

  -- A chain that succeeds has run its first part to the end.
  pub >>=-eq-ok :
      {A B : Type 0} (m : Action S E A) (f : A → Action S E B) (s t : S) {b : B}
      → (m >>= f) s ≡ (ok b, t)
      → (a : A) × (u : S) × (m s ≡ (ok a, u)) × (f a u ≡ (ok b, t))
  unfolding ◌>>=◌
  >>=-eq-ok m f s t h = elim (Result-pair (m s)) [
    | inl (e, u, q) ↦ absurd (cc (sym (ap (rest_of f) q) ∙ h))
    | inr (a, u, q) ↦ (a, u, q, sym (ap (rest_of f) q) ∙ h)
  ]

  pub >>-eq-ok :
      {A B : Type 0} (m : Action S E A) (k : Action S E B) (s t : S) {b : B}
      → (m >> k) s ≡ (ok b, t)
      → (a : A) × (u : S) × (m s ≡ (ok a, u)) × (k u ≡ (ok b, t))
  unfolding ◌>>◌
  >>-eq-ok m k s t h = >>=-eq-ok m (λ _. k) s t h

  -- Where a chain ends: at its first part, or at the end of its second.
  pub >>=-split :
      {A B : Type 0} (m : Action S E A) (f : A → Action S E B) (s : S)
      → ((e : E) × (u : S) × (m s ≡ (err e, u)) × ((m >>= f) s ≡ (err e, u)))
        ⊎ ((a : A) × (u : S) × (m s ≡ (ok a, u)) × ((m >>= f) s ≡ f a u))
  unfolding ◌>>=◌
  >>=-split m f s = elim (Result-pair (m s)) [
    | inl (e, u, h) ↦ inl (e, u, h, ap (rest_of f) h)
    | inr (a, u, h) ↦ inr (a, u, h, ap (rest_of f) h)
  ]

  pub >>-split :
      {A B : Type 0} (m : Action S E A) (k : Action S E B) (s : S)
      → ((e : E) × (u : S) × (m s ≡ (err e, u)) × ((m >> k) s ≡ (err e, u)))
        ⊎ ((a : A) × (u : S) × (m s ≡ (ok a, u)) × ((m >> k) s ≡ k u))
  unfolding ◌>>◌
  >>-split m k s = >>=-split m (λ _. k) s

  pub >>-pure-state :
      {A B : Type 0} (m : Action S E A) (b : B) (s : S) → ((m >> pure b) s).1 ≡ (m s).1
  >>-pure-state m b s = elim (>>-split m (pure b) s) [
    | inl (e, u, a, t) ↦ ap (λ x. x.1) t ∙ sym (ap (λ x. x.1) a)
    | inr (x, u, a, t) ↦ ap (λ x. x.1) t ∙ sym (ap (λ x. x.1) a)
  ]
