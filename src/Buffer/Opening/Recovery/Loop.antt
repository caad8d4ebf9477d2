-- ===== src/Buffer/Opening/Recovery/Loop.antt =====
-- internal/buffer/buffer.go: the loop of Open's scan.
use shadow_twin.Prelude.{
  ℕ, ◌+◌, ◌≡◌, refl, inr, Bytes, true, false, some, List, [], ◌∷◌, arith, All, ◌∙◌, length,
  bytes_eq,
}
use shadow_twin.Prelude.Int.{ℤ, pos}
use shadow_twin.Fs.{path_eq, Node, size, Files, Disk, Result, ok, err, lookup}
use shadow_twin.Buffer.{QueueError, at, is_pending, pending_names}
use shadow_twin.Buffer.Opening.{scan_loop}
use shadow_twin.Buffer.Opening.Recovery.{
  Swept, Swept-refl, Swept-trans, skipped, counted, failed, scan_entry-Scans, scanned, not_tmp,
  listed_bytes,
}

module _ (dir : Bytes) where
  -- The event files of a listing are where it says.
  abbrev pub IsPresent : Files → Bytes × Node → Type 0
  IsPresent fs (name, node) = is_pending name node ≡ true → lookup (at dir name) fs ≡ some node

  IsPresent-Swept :
      (fs gs : Files)
      → Swept dir fs gs
      → (es : List (Bytes × Node)) → All (IsPresent fs) es
      → All (IsPresent gs) es
  IsPresent-Swept fs gs w [] h = tt
  IsPresent-Swept fs gs w ((name, node) ∷ es) (h, hs) =
      (λ p. w.keeps (at dir name) (inr (not_tmp name node p)) ∙ h p, IsPresent-Swept fs gs w es hs)

  abbrev ok_pair : ℕ → ℕ → Result QueueError (ℤ × ℤ)
  ok_pair c b = ok (pos c, pos b)

  nothing_listed :
      (c b : ℕ) → ok_pair c b ≡ ok_pair (c + length (pending_names [])) (b + listed_bytes [])
  unfolding pending_names listed_bytes
  nothing_listed c b = ground (arith)

  -- How the loop ends.
  pub data Loops (es : List (Bytes × Node)) (c b : ℕ) (d : Disk) (r : Result QueueError (ℤ × ℤ))
      (d' : Disk) : Type 0 where
    finished :
        r ≡ ok (pos (c + length (pending_names es)), pos (b + listed_bytes es))
        → Swept dir d.files d'.files
        → Loops es c b d r d'
    gave_up : (e : QueueError) → r ≡ err e → Swept dir d.files d'.files → Loops es c b d r d'

  module _ (name : Bytes) (node : Node) (es : List (Bytes × Node)) (c b : ℕ) where
    passed_over :
        is_pending name node ≡ false
        → ok_pair (c + length (pending_names es)) (b + listed_bytes es)
          ≡ ok_pair
              (c + length (pending_names ((name, node) ∷ es)))
              (b + listed_bytes ((name, node) ∷ es))
    unfolding pending_names listed_bytes
    passed_over p = ground (arith, p)

    taken_up :
        is_pending name node ≡ true
        → ok_pair (c + 1 + length (pending_names es)) (b + size node + listed_bytes es)
          ≡ ok_pair
              (c + length (pending_names ((name, node) ∷ es)))
              (b + listed_bytes ((name, node) ∷ es))
    unfolding pending_names listed_bytes
    taken_up p = ground (arith, p)

    Loops-passed :
        {d d1 d2 : Disk} {r : Result QueueError (ℤ × ℤ)}
        → is_pending name node ≡ false
        → Swept dir d.files d1.files
        → Loops es c b d1 r d2
        → Loops ((name, node) ∷ es) c b d r d2
    Loops-passed p w (finished e v) = finished (e ∙ passed_over p) (Swept-trans dir _ _ _ w v)
    Loops-passed p w (gave_up x e v) = gave_up x e (Swept-trans dir _ _ _ w v)

    Loops-taken :
        {d d1 d2 : Disk} {r : Result QueueError (ℤ × ℤ)}
        → is_pending name node ≡ true
        → Swept dir d.files d1.files
        → Loops es (c + 1) (b + size node) d1 r d2
        → Loops ((name, node) ∷ es) c b d r d2
    Loops-taken p w (finished e v) = finished (e ∙ taken_up p) (Swept-trans dir _ _ _ w v)
    Loops-taken p w (gave_up x e v) = gave_up x e (Swept-trans dir _ _ _ w v)

  pub scan_loop-Loops :
      (es : List (Bytes × Node)) (c b : ℕ) (d : Disk)
      → All (IsPresent d.files) es
      → Loops es c b d (scan_loop dir es (pos c, pos b) d).0 (scan_loop dir es (pos c, pos b) d).1
  unfolding scan_loop
  scan_loop-Loops [] c b d h = finished (nothing_listed c b) (Swept-refl dir d.files d.files refl)
  scan_loop-Loops ((name, node) ∷ es) c b d (h, hs) =
      elim (scan_entry-Scans dir name node c b d h) [
        | failed e x w ↦ rw (x, scan_loop) (gave_up e refl w)
        | skipped p x w ↦
            rw (x, scan_loop)
              (Loops-passed name node es c b p w (
                scan_loop-Loops es c b (scanned dir name node c b d).1
                  (IsPresent-Swept _ _ w es hs)))
        | counted p x f ↦
            let w = Swept-refl dir d.files (scanned dir name node c b d).1.files f in
            rw (x, scan_loop)
              (Loops-taken name node es c b p w (
                scan_loop-Loops es (c + 1) (b + size node) (scanned dir name node c b d).1
                  (IsPresent-Swept _ _ w es hs)))
      ]
