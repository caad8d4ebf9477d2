-- ===== src/Buffer/Tally.antt =====
-- What the counters of a queue say of its folder: as many events as there are event files, and at
-- least as many bytes. (A size that os.Stat does not give is taken for 0, so the byte counter can
-- be too high, never too low.)
pub mod Calls
pub mod Limits
pub mod Losses
pub mod Writing
pub mod Dropping
use shadow_twin.Prelude.{
  ℕ, ◌+◌, ◌≤◌, Bytes, ◌≡◌, refl, ◌≢◌, Bool, true, false, ◌&&◌, Option, none, some, List, [], ◌∷◌,
  ◌==◌, bytes_eq, arith, All, length, if◌then◌else◌, Bool-cases, inl, inr,
}
use mathlib.Core.Logic.{if_pos, if_neg}
use shadow_twin.Prelude.Int.{ℤ, pos, ◌≤ℤ◌, ◌-ℤ◌, ◌+ℤ◌, pos_part, neg_part}
use shadow_twin.Fs.{FilePath, path_eq, Node, Files, size, lookup, insert, erase, entries}
use shadow_twin.Fs.Laws.{NodupKeys, weigh, weight_at, weigh-insert, weigh-erase}
use shadow_twin.Buffer.{Spool, at, is_pending, pending_names}

-- 1 for an event file of the folder
unfoldable pub count_weight : Bytes → FilePath → Node → ℕ
count_weight dir p n = if p.dir == dir && is_pending p.name n then 1 else 0

-- the size of an event file of the folder
unfoldable pub byte_weight : Bytes → FilePath → Node → ℕ
byte_weight dir p n = if p.dir == dir && is_pending p.name n then size n else 0

unfoldable pub pending_count : Bytes → Files → ℕ
pending_count dir = weigh (count_weight dir)

unfoldable pub pending_bytes : Bytes → Files → ℕ
pending_bytes dir = weigh (byte_weight dir)

pub record Tally (s : Spool) : Type 0 where
  pub unique : NodupKeys s.disk.files
  pub counted : s.queue.count ≡ pos (pending_count s.queue.dir s.disk.files)
  pub sized : pos (pending_bytes s.queue.dir s.disk.files) ≤ℤ s.queue.bytes
  pub apart : s.queue.dead_dir ≢ s.queue.dir

pub length-pending_names :
    (dir : Bytes) (fs : Files) → length (pending_names (entries dir fs)) ≡ pending_count dir fs
unfolding pending_names entries pending_count weigh count_weight
length-pending_names dir [] = refl
length-pending_names dir ((p, n) ∷ fs) = ground (arith, length-pending_names dir fs)

-- The name is that of an event file in the folder.
abbrev pub IsListed : Bytes → Files → Bytes → Type 0
IsListed dir fs name = (n : Node) × (lookup (at dir name) fs ≡ some n) × (is_pending name n ≡ true)

IsListed-cons :
    (dir : Bytes) (p : FilePath) (n : Node) (fs : Files) (name : Bytes)
    → lookup p fs ≡ none
    → IsListed dir fs name
    → IsListed dir ((p, n) ∷ fs) name
unfolding lookup
IsListed-cons dir p n fs name fresh (m, found, pending) = (m, ground arith, pending)

module _ {P Q : Bytes → Type 0} (f : (b : Bytes) → P b → Q b) where
  pub All-map : (bs : List Bytes) → All P bs → All Q bs
  All-map [] h = tt
  All-map (b ∷ bs) (h, hs) = (f b h, All-map bs hs)

IsListed-here :
    (dir : Bytes) (p : FilePath) (n : Node) (fs : Files)
    → p.dir ≡ dir
    → is_pending p.name n ≡ true
    → IsListed dir ((p, n) ∷ fs) p.name
unfolding lookup
IsListed-here dir p n fs e pending = (n, ground arith, pending)

pub pending_names-IsListed :
    (dir : Bytes) (fs : Files)
    → NodupKeys fs
    → All (IsListed dir fs) (pending_names (entries dir fs))
unfolding pending_names entries
pending_names-IsListed dir [] u = tt
pending_names-IsListed dir ((p, n) ∷ fs) (fresh, u) =
    let rest : All (IsListed dir ((p, n) ∷ fs)) (pending_names (entries dir fs)) =
      All-map (λ b. IsListed-cons dir p n fs b fresh) _ (pending_names-IsListed dir fs u) in
    elim (bytes_eq.dec p.dir dir) [
      | no d ↦ rw (if_neg _ d) rest
      | yes d ↦ rw (if_pos _ d) (elim (Bool-cases (is_pending p.name n)) [
        | inl e ↦ rw e (IsListed-here dir p n fs d e, rest)
        | inr e ↦ rw e rest
      ])
    ]

-- An event file that goes takes 1 from the count and its size from the bytes.
pub pending_count-erase :
    (dir name : Bytes) (n : Node) (fs : Files)
    → lookup (at dir name) fs ≡ some n
    → is_pending name n ≡ true
    → pending_count dir (erase (at dir name) fs) + 1 ≡ pending_count dir fs
unfolding pending_count count_weight
pending_count-erase dir name n fs found pending =
    ground (arith, weigh-erase (count_weight dir) (at dir name) fs)

pub pending_bytes-erase :
    (dir name : Bytes) (n : Node) (fs : Files)
    → lookup (at dir name) fs ≡ some n
    → is_pending name n ≡ true
    → pending_bytes dir (erase (at dir name) fs) + size n ≡ pending_bytes dir fs
unfolding pending_bytes byte_weight
pending_bytes-erase dir name n fs found pending =
    ground (arith, weigh-erase (byte_weight dir) (at dir name) fs)

-- There are no more event files than files.
pub pending_count-le : (dir : Bytes) (fs : Files) → pending_count dir fs ≤ length fs
unfolding pending_count weigh count_weight
pending_count-le dir [] = omega arith
pending_count-le dir ((p, n) ∷ fs) = ground (arith, pending_count-le dir fs)
