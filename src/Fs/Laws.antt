-- ===== src/Fs/Laws.antt =====
-- Files as a finite map, and sums over the files of a folder.
use shadow_twin.Prelude.{
  ℕ, ◌+◌, ◌≡◌, ◌≢◌, refl, Option, none, some, [], ◌∷◌, ◌==◌, arith, if◌then◌else◌,
}
use shadow_twin.Fs.{FilePath, path_eq, Node, Files, lookup, insert, erase}

-- No path is stored twice.
abbrev pub NodupKeys : Files → Type 0
NodupKeys [] = Unit
NodupKeys ((p, _) ∷ fs) = (lookup p fs ≡ none) × NodupKeys fs

pub lookup-insert :
    (j p : FilePath) (n : Node) (fs : Files)
    → lookup j (insert p n fs) ≡ (if j == p then some n else lookup j fs)
unfolding lookup insert
lookup-insert j p n [] = refl
lookup-insert j p n ((i, m) ∷ fs) = ground (arith, lookup-insert j p n fs)

pub lookup-erase :
    (j p : FilePath) (fs : Files)
    → NodupKeys fs
    → lookup j (erase p fs) ≡ (if j == p then none else lookup j fs)
unfolding lookup erase
lookup-erase j p [] u = ground arith
lookup-erase j p ((i, m) ∷ fs) (fresh, u) = ground (arith, lookup-erase j p fs u)

pub insert-NodupKeys :
    (p : FilePath) (n : Node) (fs : Files) → NodupKeys fs → NodupKeys (insert p n fs)
unfolding insert lookup
insert-NodupKeys p n [] u = (refl, tt)
insert-NodupKeys p n ((i, m) ∷ fs) (fresh, u) =
    ground (arith, insert-NodupKeys p n fs u, lookup-insert i p n fs)

pub erase-NodupKeys : (p : FilePath) (fs : Files) → NodupKeys fs → NodupKeys (erase p fs)
unfolding erase
erase-NodupKeys p [] u = tt
erase-NodupKeys p ((i, m) ∷ fs) (fresh, u) =
    ground (arith, erase-NodupKeys p fs u, lookup-erase i p fs u)

pub lookup-insert_self : (p : FilePath) (n : Node) (fs : Files) → lookup p (insert p n fs) ≡ some n
lookup-insert_self p n fs = ground (arith, lookup-insert p p n fs)

pub lookup-insert_ne :
    (q p : FilePath) (n : Node) (fs : Files) → q ≢ p → lookup q (insert p n fs) ≡ lookup q fs
lookup-insert_ne q p n fs h = ground (arith, lookup-insert q p n fs)

pub lookup-erase_ne : (q p : FilePath) (fs : Files) → q ≢ p → lookup q (erase p fs) ≡ lookup q fs
unfolding lookup erase
lookup-erase_ne q p [] h = refl
lookup-erase_ne q p ((i, m) ∷ fs) h = ground (arith, lookup-erase_ne q p fs h)

pub lookup-erase_self : (p : FilePath) (fs : Files) → NodupKeys fs → lookup p (erase p fs) ≡ none
lookup-erase_self p fs u = ground (arith, lookup-erase p p fs u)

pub lookup-erase-none :
    (p q : FilePath) (fs : Files) → lookup q fs ≡ none → lookup q (erase p fs) ≡ none
unfolding lookup erase
lookup-erase-none p q [] l = refl
lookup-erase-none p q ((i, m) ∷ fs) l = ground (arith, lookup-erase-none p q fs)

-- The sum of a weight over all files.
module _ (w : FilePath → Node → ℕ) where
  unfoldable pub weigh : Files → ℕ
  weigh [] = 0
  weigh ((p, n) ∷ fs) = w p n + weigh fs

  abbrev pub weight_at : FilePath → Option Node → ℕ
  weight_at p none = 0
  weight_at p (some n) = w p n

  pub weigh-insert :
      (p : FilePath) (n : Node) (fs : Files)
      → weigh (insert p n fs) + weight_at p (lookup p fs) ≡ weigh fs + w p n
  unfolding weigh insert lookup
  weigh-insert p n [] = omega arith
  weigh-insert p n ((i, m) ∷ fs) = ground (arith, weigh-insert p n fs)

  pub weigh-erase :
      (p : FilePath) (fs : Files) → weigh (erase p fs) + weight_at p (lookup p fs) ≡ weigh fs
  unfolding weigh erase lookup
  weigh-erase p [] = omega arith
  weigh-erase p ((i, m) ∷ fs) = ground (arith, weigh-erase p fs)

  -- A path that weighs nothing can come and go.
  module _ (p : FilePath) (light : (n : Node) → w p n ≡ 0) where
    weight_at-zero : (o : Option Node) → weight_at p o ≡ 0
    weight_at-zero none = refl
    weight_at-zero (some n) = light n

    pub weigh-insert_light : (n : Node) (fs : Files) → weigh (insert p n fs) ≡ weigh fs
    weigh-insert_light n fs =
        omega (arith, weigh-insert p n fs, light n, weight_at-zero (lookup p fs))

    pub weigh-erase_light : (fs : Files) → weigh (erase p fs) ≡ weigh fs
    weigh-erase_light fs = omega (arith, weigh-erase p fs, weight_at-zero (lookup p fs))
