-- ===== src/Fs/Replacing.antt =====
-- A file that is replaced through a temporary one.
use shadow_twin.Prelude.{ℕ, ◌≡◌, ◌≢◌, Bytes, some, ap, ◌∙◌}
use shadow_twin.Fs.{FilePath, file, Files, FsError, Result, lookup, insert}
use shadow_twin.Fs.Laws.{lookup-insert_self, lookup-insert_ne, lookup-erase_ne}
use shadow_twin.Fs.Effects.{
  Writes, untouched, partly, whole, Renames, missing, moved, Removes, removed,
}

-- From the files before to the files after: the path is untouched, or holds the new content.
pub data Replaces (tmp p : FilePath) (c : Bytes) (fs fs' : Files) : Type 0 where
  as_before : ((q : FilePath) → q ≢ tmp → lookup q fs' ≡ lookup q fs) → Replaces tmp p c fs fs'
  replaced :
      (m : ℕ)
      → lookup p fs' ≡ some (file m c)
      → ((q : FilePath) → q ≢ tmp → q ≢ p → lookup q fs' ≡ lookup q fs)
      → Replaces tmp p c fs fs'

module _ (tmp p : FilePath) (c : Bytes) (fs : Files) where
  pub Replaces-Writes :
      {r : Result FsError (Unit {0})} {fs' : Files}
      → Writes tmp c fs r fs'
      → Replaces tmp p c fs fs'
  Replaces-Writes (untouched e h f) = as_before (λ q n. ap (lookup q) f)
  Replaces-Writes (partly e m k h f) =
      as_before (λ q n. ap (lookup q) f ∙ lookup-insert_ne q tmp _ fs n)
  Replaces-Writes (whole m h f) = as_before (λ q n. ap (lookup q) f ∙ lookup-insert_ne q tmp _ fs n)

  -- After the temporary file is whole.
  pub Replaces-Renames :
      (gs : Files) (m : ℕ)
      → gs ≡ insert tmp (file m c) fs
      → {r : Result FsError (Unit {0})} {fs' : Files} → Renames tmp p gs r fs'
      → Replaces tmp p c fs fs'
  Replaces-Renames gs m g (Renames.kept e h f) =
      as_before (λ q n. ap (lookup q) f ∙ (ap (lookup q) g ∙ lookup-insert_ne q tmp _ fs n))
  Replaces-Renames gs m g (missing h l f) =
      as_before (λ q n. ap (lookup q) f ∙ (ap (lookup q) g ∙ lookup-insert_ne q tmp _ fs n))
  Replaces-Renames gs m g (moved m' c' l h f) =
      let e : c' ≡ c = cc (lookup-insert_self tmp (file m c) fs, ap (lookup tmp) g) in
      replaced m' (ap (lookup p) f ∙ (lookup-insert_self p _ _ ∙ ap (λ x. some (file m' x)) e))
        (λ q n k.
          ap (lookup q) f
          ∙ (lookup-insert_ne q p _ _ k
              ∙ (lookup-erase_ne q tmp gs n ∙ (ap (lookup q) g ∙ lookup-insert_ne q tmp _ fs n))))

-- A file that is removed takes no other with it.
pub Removes-other :
    (tmp q : FilePath) (fs : Files) {r : Result FsError (Unit {0})} {fs' : Files}
    → q ≢ tmp
    → Removes tmp fs r fs'
    → lookup q fs' ≡ lookup q fs
Removes-other tmp q fs n (Removes.kept e h f) = ap (lookup q) f
Removes-other tmp q fs n (removed m c l h f) = ap (lookup q) f ∙ lookup-erase_ne q tmp fs n
