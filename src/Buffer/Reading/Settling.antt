-- ===== src/Buffer/Reading/Settling.antt =====
-- internal/buffer/buffer.go: Ack and DeadLetter on a batch.
use shadow_twin.Prelude.{◌≡◌, refl, ◌≢◌, Option, none, some, List, [], ◌∷◌, arith, All, ◌∙◌}
use mathlib.Core.Path.{subst, subst⁻¹}
use shadow_twin.Fs.{FilePath, path_eq, file, lookup, remove, size}
use shadow_twin.Fs.Laws.{NodupKeys, lookup-erase_ne, lookup-erase_self, lookup-erase-none}
use shadow_twin.Buffer.{Spool, QueueError, file_size}
use shadow_twin.Buffer.Reading.{ack_file, ack, dead_letter_file, dead_letter, first_of}
use shadow_twin.Buffer.Tally.{Tally}
use shadow_twin.Buffer.Tally.Calls.{files-file_size, file_size-le, Tally-same}
use shadow_twin.Buffer.Reading.Files.{
  IsEventPath, Takes, ack_file-Takes, dead_letter_file-Takes, Takes-Tally, Takes-frame,
}

-- A spool after a step, with the same folder.
IsEventPath-frame :
    (s s' : Spool) (ps : List FilePath)
    → s'.queue.dir ≡ s.queue.dir
    → All (IsEventPath s.queue.dir) ps
    → All (IsEventPath s'.queue.dir) ps
IsEventPath-frame s s' ps e h = rw e h

-- If the counters are true and the paths are event paths of the folder, the counters are true after
-- Ack, whatever calls fail and whatever error it had met before.
pub ack-Tally :
    (ps : List FilePath) (first : Option QueueError) (s : Spool)
    → All (IsEventPath s.queue.dir) ps
    → Tally s
    → Tally (ack ps first s).1
unfolding ack
ack-Tally [] first s h t = t
ack-Tally (p ∷ ps) first s (h, hs) t =
    let k = ack_file-Takes p s in
    ack-Tally ps (first_of first (ack_file p s).0) (ack_file p s).1
      (IsEventPath-frame s (ack_file p s).1 ps (Takes-frame p s k).0 hs) (Takes-Tally p s h t k)

-- One round of DeadLetter.
abbrev bury : FilePath → Spool → Option QueueError × Spool
bury p s = dead_letter_file p (file_size p s.disk).0 (record s { disk = (file_size p s.disk).1 })

pub bury-Takes :
    (p : FilePath) (s : Spool) → Takes p (record s { disk = (file_size p s.disk).1 }) (bury p s).1
bury-Takes p s =
    dead_letter_file-Takes p (file_size p s.disk).0 (record s { disk = (file_size p s.disk).1 })
      (λ m c l.
        unfold size in file_size-le p s.disk (file m c) (rw (files-file_size p s.disk) at l))

-- If the counters are true and the paths are event paths of the folder, the counters are true after
-- DeadLetter, whatever calls fail and whatever error it had met before.
pub dead_letter-Tally :
    (ps : List FilePath) (first : Option QueueError) (s : Spool)
    → All (IsEventPath s.queue.dir) ps
    → Tally s
    → Tally (dead_letter ps first s).1
unfolding dead_letter
dead_letter-Tally [] first s h t = t
dead_letter-Tally (p ∷ ps) first s (h, hs) t =
    let k = bury-Takes p s in
    let t1 = Tally-same s (file_size p s.disk).1 t (files-file_size p s.disk) in
    dead_letter-Tally ps (first_of first (bury p s).0) (bury p s).1
      (IsEventPath-frame s (bury p s).1 ps (Takes-frame p _ k).0 hs)
      (Takes-Tally p (record s { disk = (file_size p s.disk).1 }) h t1 k)

ack_file-other :
    (p q : FilePath) (s : Spool)
    → q ≢ p
    → lookup q (ack_file p s).1.disk.files ≡ lookup q s.disk.files
unfolding ack_file remove
ack_file-other p q s n =
    ground (arith, files-file_size p s.disk, lookup-erase_ne q p s.disk.files n)

-- Ack leaves the file of every path alone that is not in the batch.
pub ack-other :
    (ps : List FilePath) (first : Option QueueError) (s : Spool) (q : FilePath)
    → All (λ p. q ≢ p) ps
    → lookup q (ack ps first s).1.disk.files ≡ lookup q s.disk.files
unfolding ack
ack-other [] first s q h = refl
ack-other (p ∷ ps) first s q (h, hs) = ack-other ps _ (ack_file p s).1 q hs ∙ ack_file-other p q s h

ack_file-gone :
    (p : FilePath) (s : Spool)
    → NodupKeys s.disk.files
    → (ack_file p s).0 ≡ none
    → lookup p (ack_file p s).1.disk.files ≡ none
unfolding ack_file remove
ack_file-gone p s u h = ground (arith, files-file_size p s.disk, lookup-erase_self p s.disk.files u)

ack_file-absent :
    (p q : FilePath) (s : Spool)
    → lookup q s.disk.files ≡ none
    → lookup q (ack_file p s).1.disk.files ≡ none
unfolding ack_file remove
ack_file-absent p q s l =
    ground (arith, files-file_size p s.disk, lookup-erase-none p q s.disk.files l)

ack-absent :
    (ps : List FilePath) (first : Option QueueError) (s : Spool) (q : FilePath)
    → lookup q s.disk.files ≡ none
    → lookup q (ack ps first s).1.disk.files ≡ none
unfolding ack
ack-absent [] first s q l = l
ack-absent (p ∷ ps) first s q l = ack-absent ps _ (ack_file p s).1 q (ack_file-absent p q s l)

-- An error, once met, is what Ack returns.
ack-first : (ps : List FilePath) (e : QueueError) (s : Spool) → (ack ps (some e) s).0 ≡ some e
unfolding ack
ack-first [] e s = refl
ack-first (p ∷ ps) e s = ack-first ps e (ack_file p s).1

first_error :
    (ps : List FilePath) (o : Option QueueError) (s : Spool) → (ack ps o s).0 ≡ none → o ≡ none
first_error ps none s e = refl
first_error ps (some x) s e = cc (ack-first ps x s)

-- If the counters are true, the paths are event paths of the folder and Ack returns no error, no
-- file of the batch is left.
pub ack-gone :
    (ps : List FilePath) (s : Spool)
    → All (IsEventPath s.queue.dir) ps
    → Tally s
    → (ack ps none s).0 ≡ none
    → All (λ p. lookup p (ack ps none s).1.disk.files ≡ none) ps
unfolding ack
ack-gone [] s h t e = tt
ack-gone (p ∷ ps) s (h, hs) t e =
    let s1 = (ack_file p s).1 in
    let k = ack_file-Takes p s in
    let f : (ack_file p s).0 ≡ none = first_error ps _ s1 e in
    let rest =
      ack-gone ps s1 (IsEventPath-frame s s1 ps (Takes-frame p s k).0 hs) (Takes-Tally p s h t k)
        (subst (λ o. (ack ps o s1).0 ≡ none) f e) in
    let here = ack-absent ps none s1 p (ack_file-gone p s t.unique f) in
    subst⁻¹ (λ o. All (λ r. lookup r (ack ps o s1).1.disk.files ≡ none) (p ∷ ps)) f (here, rest)
