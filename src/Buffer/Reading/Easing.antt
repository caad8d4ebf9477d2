-- ===== src/Buffer/Reading/Easing.antt =====
-- internal/buffer/buffer.go: how much the calls that take events away leave.
use shadow_twin.Prelude.{
  ℕ, ◌≤◌, ◌≡◌, refl, ◌≢◌, Bytes, Bool, true, not, ◌&&◌, some, [], ◌∷◌, arith, ap, ◌∙◌, length, ◌==◌,
  bytes_eq,
}
use shadow_twin.Prelude.Int.{pos_part, ◌-ℤ◌}
use shadow_twin.Fs.{FilePath, path_eq, file, folder, is_dir, Files, lookup, insert, erase}
use shadow_twin.Buffer.Reading.Files.{Takes, stays, goes, buried}
use shadow_twin.Buffer.{Spool, Queue, discharge}

-- No entry of the folder of dead letters is a folder, so that a file can be moved there.
unfoldable pub no_folders : Bytes → Files → Bool
no_folders dir [] = true
no_folders dir ((p, n) ∷ fs) = not (p.dir == dir && is_dir n) && no_folders dir fs

no_folders-erase :
    (dir : Bytes) (p : FilePath) (fs : Files)
    → no_folders dir fs ≡ true
    → no_folders dir (erase p fs) ≡ true
unfolding no_folders erase
no_folders-erase dir p [] h = refl
no_folders-erase dir p ((j, m) ∷ fs) h = ground (arith, h, no_folders-erase dir p fs)

no_folders-insert :
    (dir : Bytes) (p : FilePath) (m : ℕ) (c : Bytes) (fs : Files)
    → no_folders dir fs ≡ true
    → no_folders dir (insert p (file m c) fs) ≡ true
unfolding no_folders insert is_dir
no_folders-insert dir p m c [] h = ground (arith)
no_folders-insert dir p m c ((j, k) ∷ fs) h = ground (arith, h, no_folders-insert dir p m c fs)

pub no_folders-lookup :
    (dir : Bytes) (p : FilePath) (fs : Files)
    → no_folders dir fs ≡ true
    → p.dir ≡ dir
    → lookup p fs ≢ some folder
unfolding no_folders lookup is_dir
no_folders-lookup dir p [] h d e = ground (arith, e)
no_folders-lookup dir p ((j, k) ∷ fs) h d e = ground (arith, h, d, e, no_folders-lookup dir p fs)

-- What a call does at most.
pub record Eases (s s' : Spool) : Type 0 where
  pub count : pos_part s'.queue.count ≤ pos_part s.queue.count
  pub faults : length s'.disk.faults ≤ length s.disk.faults
  pub dead_dir : s'.queue.dead_dir ≡ s.queue.dead_dir
  pub limits : s'.queue.limits ≡ s.queue.limits
  pub folders :
      (dir : Bytes) → no_folders dir s.disk.files ≡ true → no_folders dir s'.disk.files ≡ true

pub Eases-refl : (s : Spool) → Eases s s
Eases-refl s = record {
  count = omega arith;
  faults = omega arith;
  dead_dir = refl;
  limits = refl;
  folders = λ dir h. h;
}

pub Eases-trans : (s t u : Spool) → Eases s t → Eases t u → Eases s u
Eases-trans s t u a b = record {
  count = omega (arith, a.count, b.count);
  faults = omega (arith, a.faults, b.faults);
  dead_dir = b.dead_dir ∙ a.dead_dir;
  limits = b.limits ∙ a.limits;
  folders = λ dir h. b.folders dir (a.folders dir h);
}

pub discharge-count : (n : ℕ) (q : Queue) → pos_part (discharge n q).count ≤ pos_part q.count
unfolding discharge ◌-ℤ◌
discharge-count n q = ground (arith)

pub Eases-Takes :
    (p : FilePath) (s : Spool) {s' : Spool}
    → length s'.disk.faults ≤ length s.disk.faults
    → Takes p s s'
    → Eases s s'
unfolding discharge
Eases-Takes p s {s' = s'} small (stays f q) = record {
  count = rw q (omega arith);
  faults = small;
  dead_dir = ap (λ (k : Queue). k.dead_dir) q;
  limits = ap (λ (k : Queue). k.limits) q;
  folders = λ dir h. rw f h;
}
Eases-Takes p s {s' = s'} small (goes m c k l n f q) = record {
  count = rw q (discharge-count k s.queue);
  faults = small;
  dead_dir = ap (λ (k : Queue). k.dead_dir) q;
  limits = ap (λ (k : Queue). k.limits) q;
  folders = λ dir h. rw f (no_folders-erase dir p s.disk.files h);
}
Eases-Takes p s {s' = s'} small (buried m c k l n f q) = record {
  count = rw q (discharge-count k s.queue);
  faults = small;
  dead_dir = ap (λ (k : Queue). k.dead_dir) q;
  limits = ap (λ (k : Queue). k.limits) q;
  folders = λ dir h. rw f (no_folders-insert dir _ m c _ (no_folders-erase dir p s.disk.files h));
}
