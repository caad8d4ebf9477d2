-- ===== src/Buffer/Opening/Recovery/Listing.antt =====
-- internal/buffer/buffer.go: the listing of the queue's folder that Open scans.
use shadow_twin.Prelude.{◌≡◌, Bytes, none, some, List, [], ◌∷◌, arith, All, bytes_eq}
use mathlib.Core.Logic.{if_pos, if_neg}
use shadow_twin.Fs.{FilePath, path_eq, Node, Files, Disk, ok, entries, lookup, read_dir}
use shadow_twin.Fs.Laws.{NodupKeys}
use shadow_twin.Buffer.{at}
use shadow_twin.Buffer.Opening.Recovery.Loop.{IsPresent}

-- A listing tells the truth.
module _ (dir : Bytes) where
  abbrev IsListing : Files → Bytes × Node → Type 0
  IsListing fs (name, node) = lookup (at dir name) fs ≡ some node

  IsListing-cons :
      (p : FilePath) (n : Node) (fs : Files)
      → lookup p fs ≡ none
      → (es : List (Bytes × Node)) → All (IsListing fs) es
      → All (IsListing ((p, n) ∷ fs)) es
  unfolding lookup
  IsListing-cons p n fs fresh [] h = tt
  IsListing-cons p n fs fresh ((name, node) ∷ es) (h, hs) =
      (ground (arith, fresh, h), IsListing-cons p n fs fresh es hs)

  IsListing-here :
      (p : FilePath) (n : Node) (fs : Files) → p.dir ≡ dir → IsListing ((p, n) ∷ fs) (p.name, n)
  unfolding lookup
  IsListing-here p n fs e = ground (arith, e)

  pub entries-IsListing : (fs : Files) → NodupKeys fs → All (IsListing fs) (entries dir fs)
  unfolding entries
  entries-IsListing [] u = tt
  entries-IsListing ((p, n) ∷ fs) (fresh, u) =
      let rest = IsListing-cons p n fs fresh (entries dir fs) (entries-IsListing fs u) in
      elim (bytes_eq.dec p.dir dir) [
        | no d ↦ rw (if_neg _ d) rest
        | yes d ↦ rw (if_pos _ d) (IsListing-here p n fs d, rest)
      ]

  pub IsListing-IsPresent :
      (fs : Files) (es : List (Bytes × Node)) → All (IsListing fs) es → All (IsPresent dir fs) es
  IsListing-IsPresent fs [] h = tt
  IsListing-IsPresent fs ((name, node) ∷ es) (h, hs) = (λ p. h, IsListing-IsPresent fs es hs)

pub read_dir-entries :
    (dir : Bytes) (d : Disk) (es : List (Bytes × Node))
    → (read_dir dir d).0 ≡ ok es
    → es ≡ entries dir d.files
unfolding read_dir
read_dir-entries dir d es h = ground (arith, h)

pub files-read_dir : (dir : Bytes) (d : Disk) → (read_dir dir d).1.files ≡ d.files
unfolding read_dir
files-read_dir dir d = ground arith
