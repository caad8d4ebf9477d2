-- ===== src/Buffer/Opening/Recovery.antt =====
-- internal/buffer/buffer.go: what one entry of the folder does to the scan of Open.
pub mod Loop
pub mod Listing
pub mod Counters
use shadow_twin.Prelude.{
  ℕ, zero, suc, ◌+◌, ◌≤◌, ◌≡◌, refl, ◌≢◌, ◌⊎◌, inl, inr, Bytes, codes, Bool, true, false, not, ◌&&◌,
  Option, none, some, List, [], ◌∷◌, ◌++◌, arith, All, ap, sym, ◌∙◌, length, length-append,
  Bool-cases, ◌==◌, bytes_eq, if◌then◌else◌,
}
use mathlib.Core.Logic.{if_pos, if_neg}
use shadow_twin.Prelude.Int.{ℤ, pos, ◌+ℤ◌, ◌≤ℤ◌, pos-add}
use shadow_twin.Text.{has_suffix}
use shadow_twin.Text.Suffix.{has_suffix-split, has_suffix-other, last_or}
use shadow_twin.Fs.{
  FilePath, path_eq, Node, folder, file, is_dir, size, Files, Disk, Result, ok, err, entries,
  lookup, insert, erase, stat, remove, read_dir, mkdir_all, not_exist, io_failure,
}
use shadow_twin.Fs.Laws.{
  NodupKeys, weigh, weight_at, weigh-erase, weigh-insert, lookup-erase_ne, lookup-insert_ne,
  erase-NodupKeys, insert-NodupKeys,
}
use shadow_twin.Fs.Effects.{Removes, removed, remove-Removes}
use shadow_twin.Buffer.{
  Spool, Queue, Limits, QueueError, stat_entry, at, file_suffix, tmp_suffix, is_pending,
  pending_names, dead_dir_name,
}
use shadow_twin.Buffer.Opening.{scan_entry, scan_loop, init, dead_dir_of, new_queue, open_queue}
use shadow_twin.Buffer.Tally.{
  Tally, pending_count, pending_bytes, count_weight, byte_weight, length-pending_names,
}
use shadow_twin.Buffer.Tally.Calls.{tmp_name-is_pending}

-- A temporary file is no event file.
tmp-is_pending :
    (name : Bytes) (n : Node) → has_suffix name tmp_suffix ≡ true → is_pending name n ≡ false
tmp-is_pending name n h =
    let (front, e) = has_suffix-split name tmp_suffix h in
    ap (λ s. is_pending s n) e ∙ tmp_name-is_pending front n

pub not_tmp :
    (name : Bytes) (n : Node) → is_pending name n ≡ true → has_suffix name tmp_suffix ≡ false
not_tmp name n p = elim (Bool-cases (has_suffix name tmp_suffix)) [
  | inr t ↦ t
  | inl t ↦ cc (tmp-is_pending name n t)
]

-- The sizes of the event files in a listing.
pub listed_bytes : List (Bytes × Node) → ℕ
listed_bytes [] = 0
listed_bytes ((name, n) ∷ es) =
    if is_pending name n then size n + listed_bytes es else listed_bytes es

pub listed_bytes-pending_bytes :
    (dir : Bytes) (fs : Files) → listed_bytes (entries dir fs) ≡ pending_bytes dir fs
unfolding listed_bytes entries pending_bytes weigh byte_weight
listed_bytes-pending_bytes dir [] = refl
listed_bytes-pending_bytes dir ((p, n) ∷ fs) = ground (arith, listed_bytes-pending_bytes dir fs)

module _ (dir : Bytes) where
  -- Only temporary files of the folder go.
  pub record Swept (fs gs : Files) : Type 0 where
    pub count : pending_count dir gs ≡ pending_count dir fs
    pub bytes : pending_bytes dir gs ≡ pending_bytes dir fs
    pub unique : NodupKeys fs → NodupKeys gs
    pub keeps :
        (q : FilePath)
        → (q.dir ≢ dir) ⊎ (has_suffix q.name tmp_suffix ≡ false)
        → lookup q gs ≡ lookup q fs

  pub Swept-refl : (fs gs : Files) → gs ≡ fs → Swept fs gs
  Swept-refl fs gs e = record {
    count = ap (pending_count dir) e;
    bytes = ap (pending_bytes dir) e;
    unique = λ u. rw e u;
    keeps = λ q h. ap (lookup q) e;
  }

  pub Swept-trans : (fs gs hs : Files) → Swept fs gs → Swept gs hs → Swept fs hs
  Swept-trans fs gs hs a b = record {
    count = b.count ∙ a.count;
    bytes = b.bytes ∙ a.bytes;
    unique = λ u. b.unique (a.unique u);
    keeps = λ q h. b.keeps q h ∙ a.keeps q h;
  }

  light_count :
      (name : Bytes) (o : Option Node)
      → has_suffix name tmp_suffix ≡ true
      → weight_at (count_weight dir) (at dir name) o ≡ 0
  unfolding count_weight
  light_count name none h = refl
  light_count name (some n) h = ground (arith, tmp-is_pending name n h)

  light_bytes :
      (name : Bytes) (o : Option Node)
      → has_suffix name tmp_suffix ≡ true
      → weight_at (byte_weight dir) (at dir name) o ≡ 0
  unfolding byte_weight
  light_bytes name none h = refl
  light_bytes name (some n) h = ground (arith, tmp-is_pending name n h)

  Swept-erase :
      (name : Bytes) (fs : Files)
      → has_suffix name tmp_suffix ≡ true
      → Swept fs (erase (at dir name) fs)
  unfolding pending_count pending_bytes
  Swept-erase name fs h = record {
    count = omega (
      arith,
      weigh-erase (count_weight dir) (at dir name) fs,
      light_count name (lookup (at dir name) fs) h,
    );
    bytes = omega (
      arith,
      weigh-erase (byte_weight dir) (at dir name) fs,
      light_bytes name (lookup (at dir name) fs) h,
    );
    unique = λ u. erase-NodupKeys (at dir name) fs u;
    keeps = λ q k. lookup-erase_ne q (at dir name) fs (λ e. elim k [
      | inl n ↦ n (ap (λ (p : FilePath). p.dir) e)
      | inr n ↦ cc (ap (λ (p : FilePath). p.name) e)
    ]);
  }

  Swept-Removes :
      (name : Bytes) (fs : Files)
      → has_suffix name tmp_suffix ≡ true
      → {r : Result _ (Unit {0})} {gs : Files} → Removes (at dir name) fs r gs
      → Swept fs gs
  Swept-Removes name fs h (Removes.kept e g f) = Swept-refl fs _ f
  Swept-Removes name fs h (removed m c l g f) = rw f (Swept-erase name fs h)

  -- An entry of the scan, with the counters as natural numbers.
  pub data Scans (name : Bytes) (node : Node) (c b : ℕ) (d : Disk) (r : Result QueueError (ℤ × ℤ))
      (d' : Disk) : Type 0 where
    skipped :
        is_pending name node ≡ false
        → r ≡ ok (pos c, pos b)
        → Swept d.files d'.files
        → Scans name node c b d r d'
    counted :
        is_pending name node ≡ true
        → r ≡ ok (pos (c + 1), pos (b + size node))
        → d'.files ≡ d.files
        → Scans name node c b d r d'
    failed : (e : QueueError) → r ≡ err e → Swept d.files d'.files → Scans name node c b d r d'

  module _ (name : Bytes) (node : Node) (c b : ℕ) (d : Disk) where
    abbrev pub scanned : Result QueueError (ℤ × ℤ) × Disk
    scanned = scan_entry dir name node (pos c, pos b) d

    scan_folder : is_dir node ≡ true → scanned ≡ (ok (pos c, pos b), d)
    unfolding scan_entry
    scan_folder h = ground (arith, h)

    scan_tmp :
        is_dir node ≡ false
        → has_suffix name tmp_suffix ≡ true
        → scanned ≡ (ok (pos c, pos b), (remove (at dir name) d).1)
    unfolding scan_entry
    scan_tmp h t = ground (arith, h, t)

    scan_other :
        is_dir node ≡ false
        → has_suffix name tmp_suffix ≡ false
        → has_suffix name file_suffix ≡ false
        → scanned ≡ (ok (pos c, pos b), d)
    unfolding scan_entry
    scan_other h t s = ground (arith, h, t, s)

    scan_event :
        is_dir node ≡ false
        → has_suffix name tmp_suffix ≡ false
        → has_suffix name file_suffix ≡ true
        → lookup (at dir name) d.files ≡ some node
        → (scanned.1.files ≡ d.files)
          × ((scanned.0 ≡ ok (pos c +ℤ pos 1, pos b +ℤ pos (size node)))
              ⊎ (scanned.0 ≡ err (stat_entry io_failure)))
    unfolding scan_entry stat
    scan_event h t s l = (ground (arith, h, t, s, l), ground (arith, h, t, s, l))

    pending_parts :
        (is_dir node ≡ false) → (has_suffix name file_suffix ≡ true) → is_pending name node ≡ true
    unfolding is_pending
    pending_parts h s = ground (arith, h, s)

    not_pending :
        (is_dir node ≡ true) ⊎ (has_suffix name file_suffix ≡ false) → is_pending name node ≡ false
    unfolding is_pending
    not_pending h = ground (arith, h)

    Scans-event :
        is_pending name node ≡ true
        → (scanned.1.files ≡ d.files)
        → (scanned.0 ≡ ok (pos c +ℤ pos 1, pos b +ℤ pos (size node)))
          ⊎ (scanned.0 ≡ err (stat_entry io_failure))
        → Scans name node c b d scanned.0 scanned.1
    Scans-event p f (inl e) =
        counted p
          (e
            ∙ ap (λ x. ok (x, pos b +ℤ pos (size node))) (pos-add c 1)
            ∙ ap (λ x. ok (pos (c + 1), x)) (pos-add b (size node)))
          f
    Scans-event p f (inr e) = failed (stat_entry io_failure) e (Swept-refl d.files _ f)

    pub scan_entry-Scans :
        (is_pending name node ≡ true → lookup (at dir name) d.files ≡ some node)
        → Scans name node c b d scanned.0 scanned.1
    scan_entry-Scans present = elim (Bool-cases (is_dir node)) [
      | inl h ↦
          rw (scan_folder h) (skipped (not_pending (inl h)) refl (Swept-refl d.files d.files refl))
      | inr h ↦ elim (Bool-cases (has_suffix name tmp_suffix)) [
        | inl t ↦ rw (scan_tmp h t) (
            skipped (tmp-is_pending name node t) refl
              (Swept-Removes name d.files t (remove-Removes (at dir name) d)))
        | inr t ↦ elim (Bool-cases (has_suffix name file_suffix)) [
          | inr s ↦
              rw (scan_other h t s)
                (skipped (not_pending (inr s)) refl (Swept-refl d.files d.files refl))
          | inl s ↦
              let p = pending_parts h s in
              let (f, e) = scan_event h t s (present p) in Scans-event p f e
        ]
      ]
    ]
