-- ===== src/Buffer/Tally/Calls.antt =====
-- How the calls on the disk and the two steps on the counters act on the tally.
use shadow_twin.Prelude.{
  ℕ, ◌+◌, ◌≤◌, Bytes, ◌≡◌, refl, ◌≢◌, true, false, none, some, [], ◌∷◌, bytes_eq, arith, length,
  codes, ap, ◌++◌, sym, ◌∙◌,
}
use shadow_twin.Prelude.Int.{pos, ◌+ℤ◌, pos-sub, pos-add, -ℤ_parts, +ℤ_parts}
use shadow_twin.Fs.{FilePath, path_eq, Node, file, Files, size, lookup, insert, erase, Disk, is_dir}
use shadow_twin.Fs.Laws.{weigh-insert, erase-NodupKeys, insert-NodupKeys}
use mathlib.Core.List.{append_assoc}
use shadow_twin.Text.Suffix.{last_or, has_suffix-append, has_suffix-other}
use shadow_twin.Buffer.{
  Spool, at, is_pending, file_size, discharge, file_name, format_nanos, tmp_suffix, file_suffix,
}
use shadow_twin.Buffer.Tally.{
  Tally, count_weight, byte_weight, pending_count, pending_bytes, pending_count-erase,
  pending_bytes-erase,
}
use shadow_twin.Collectors.Event.{Event}

pub files-file_size : (p : FilePath) (d : Disk) → (file_size p d).1.files ≡ d.files
unfolding file_size
files-file_size p d = ground arith

pub file_size-le :
    (p : FilePath) (d : Disk) (n : Node) → lookup p d.files ≡ some n → (file_size p d).0 ≤ size n
unfolding file_size
file_size-le p d n found = ground arith

-- A call that leaves the files alone leaves the tally alone.
pub Tally-same :
    (s : Spool) (d : Disk) → Tally s → d.files ≡ s.disk.files → Tally (record s { disk = d })
Tally-same s d t same = record {
  unique = rw same t.unique;
  counted = rw same t.counted;
  sized = rw same t.sized;
  apart = t.apart;
}

-- An event file that is gone is taken off the counters.
module _ (s : Spool) (name : Bytes) (n : Node) (k : ℕ) (d : Disk) where
  pub Tally-discharge :
      Tally s
      → lookup (at s.queue.dir name) s.disk.files ≡ some n
      → is_pending name n ≡ true
      → k ≤ size n
      → d.files ≡ erase (at s.queue.dir name) s.disk.files
      → Tally (record { queue = discharge k s.queue; disk = d })
  unfolding discharge
  Tally-discharge t found pending small gone = record {
    unique = rw gone (erase-NodupKeys _ _ t.unique);
    counted =
        let e = pending_count-erase s.queue.dir name n s.disk.files found pending in
        rw gone (rw t.counted (rw (← e) (pos-sub _ 1)));
    sized = rw gone (
        omega (
          arith,
          t.sized,
          -ℤ_parts s.queue.bytes (pos k),
          pending_bytes-erase s.queue.dir name n s.disk.files found pending,
        ));
    apart = t.apart;
  }

-- Files of other folders, and temporary files, weigh nothing.
module _ (dir : Bytes) (p : FilePath) (n : Node) (fs : Files) where
  pub pending_count-insert_other :
      p.dir ≢ dir → pending_count dir (insert p n fs) ≡ pending_count dir fs
  unfolding pending_count count_weight
  pending_count-insert_other h = ground (arith, weigh-insert (count_weight dir) p n fs)

  pub pending_bytes-insert_other :
      p.dir ≢ dir → pending_bytes dir (insert p n fs) ≡ pending_bytes dir fs
  unfolding pending_bytes byte_weight
  pending_bytes-insert_other h = ground (arith, weigh-insert (byte_weight dir) p n fs)

-- An event file that moves to the dead-letter folder is taken off the counters.
module _ (s : Spool) (name : Bytes) (n : Node) (k : ℕ) (d : Disk) where
  pub Tally-discharge_moved :
      Tally s
      → lookup (at s.queue.dir name) s.disk.files ≡ some n
      → is_pending name n ≡ true
      → k ≤ size n
      → d.files ≡ insert (at s.queue.dead_dir name) n (erase (at s.queue.dir name) s.disk.files)
      → Tally (record { queue = discharge k s.queue; disk = d })
  unfolding discharge
  Tally-discharge_moved t found pending small gone =
      let u =
        Tally-discharge s name n k
          (record { files = erase (at s.queue.dir name) s.disk.files; faults = [] }) t found pending
          small refl in
      let counts =
        pending_count-insert_other s.queue.dir (at s.queue.dead_dir name) n
          (erase (at s.queue.dir name) s.disk.files) t.apart in
      let bytes =
        pending_bytes-insert_other s.queue.dir (at s.queue.dead_dir name) n
          (erase (at s.queue.dir name) s.disk.files) t.apart in
      record {
        unique = rw gone (insert-NodupKeys _ _ _ u.unique);
        counted = u.counted ∙ ap pos (sym (ap (pending_count s.queue.dir) gone ∙ counts));
        sized = omega (arith, u.sized, ap (pending_bytes s.queue.dir) gone, bytes);
        apart = t.apart;
      }

pub tmp_name-is_pending : (name : Bytes) (n : Node) → is_pending (name ++ tmp_suffix) n ≡ false
unfolding is_pending last_or
tmp_name-is_pending name n =
    ground (arith, has_suffix-other name b'.' b'.' (codes "tmp") (codes "json") (omega arith))

pub file_name-is_pending :
    (ev : Event) (m : ℕ) (c : Bytes) → is_pending (file_name ev) (file m c) ≡ true
unfolding is_pending file_name is_dir
file_name-is_pending ev m c =
    rw (sym (append_assoc (format_nanos ev.collected_at) (b'-' ∷ ev.id) file_suffix))
      (has_suffix-append _ file_suffix)

byte_grows :
    (dir : Bytes) (p : FilePath) (m : ℕ) (c : Bytes) (fs : Files)
    → lookup p fs ≡ none
    → pending_bytes dir (insert p (file m c) fs) ≤ pending_bytes dir fs + length c
unfolding pending_bytes byte_weight size
byte_grows dir p m c fs fresh = ground (arith, weigh-insert (byte_weight dir) p (file m c) fs)

count_grows :
    (dir name : Bytes) (m : ℕ) (c : Bytes) (fs : Files)
    → is_pending name (file m c) ≡ true
    → lookup (at dir name) fs ≡ none
    → pending_count dir (insert (at dir name) (file m c) fs) ≡ pending_count dir fs + 1
unfolding pending_count count_weight
count_grows dir name m c fs pending fresh =
    ground (arith, weigh-insert (count_weight dir) (at dir name) (file m c) fs)

-- An event file that is written under a new name is put on the counters.
module _ (s : Spool) (ev : Event) (content : Bytes) (m : ℕ) (d : Disk) where
  pub Tally-charge :
      Tally s
      → lookup (at s.queue.dir (file_name ev)) s.disk.files ≡ none
      → d.files ≡ insert (at s.queue.dir (file_name ev)) (file m content) s.disk.files
      → Tally (record {
        queue = record (s.queue) {
          count = s.queue.count +ℤ pos 1;
          bytes = s.queue.bytes +ℤ pos (length content);
        };
        disk = d;
      })
  Tally-charge t fresh added =
      let p = at s.queue.dir (file_name ev) in
      let pending = file_name-is_pending ev m content in
      let counts = count_grows s.queue.dir (file_name ev) m content s.disk.files pending fresh in
      let bytes = byte_grows s.queue.dir p m content s.disk.files fresh in
      record {
        unique = rw added (insert-NodupKeys p _ _ t.unique);
        counted = rw added (rw t.counted (pos-add _ 1 ∙ ap pos (sym counts)));
        sized =
            rw added (omega (arith, t.sized, +ℤ_parts s.queue.bytes (pos (length content)), bytes));
        apart = t.apart;
      }
