-- ===== src/Buffer/Tally/Losses.antt =====
-- internal/buffer/buffer.go: what making room can lose.
use shadow_twin.Prelude.{
  ℕ, zero, suc, ◌≡◌, refl, ◌⊎◌, inl, inr, Bytes, Bool, true, false, none, arith, ap, ◌∙◌,
  Bool-cases,
}
use shadow_twin.Fs.{FilePath, path_eq, Node, Files, Result, ok, err, lookup, erase}
use shadow_twin.Fs.Laws.{NodupKeys, lookup-erase_ne, lookup-erase_self}
use shadow_twin.Text.{has_suffix}
use shadow_twin.Buffer.{
  Spool, Queue, QueueError, at, is_pending, file_suffix, discharge, drop_oldest, enforce_limits,
  after_drop, over_limit,
}
use shadow_twin.Buffer.Tally.{Tally}
use shadow_twin.Buffer.Tally.Dropping.{
  Drops, failed, nothing_left, gone, drop_oldest-Drops, Drops-Tally,
}

-- A path keeps its file, or an event file of the folder is gone from it.
abbrev pub KeptOrLost : Bytes → Files → Files → FilePath → Type 0
KeptOrLost dir fs fs' q =
    (lookup q fs' ≡ lookup q fs)
    ⊎ ((lookup q fs' ≡ none) × (q.dir ≡ dir) × (has_suffix q.name file_suffix ≡ true))

abbrev pub Loses : Bytes → Files → Files → Type 0
Loses dir fs fs' = (q : FilePath) → KeptOrLost dir fs fs' q

-- A path that a second change does not touch.
pub KeptOrLost-then :
    (dir : Bytes) (fs gs hs : Files) (q : FilePath)
    → KeptOrLost dir fs gs q
    → lookup q hs ≡ lookup q gs
    → KeptOrLost dir fs hs q
KeptOrLost-then dir fs gs hs q (inl e) h = inl (h ∙ e)
KeptOrLost-then dir fs gs hs q (inr (l, d, n)) h = inr (h ∙ l, d, n)

Loses-refl : (dir : Bytes) (fs fs' : Files) → fs' ≡ fs → Loses dir fs fs'
Loses-refl dir fs fs' e q = inl (ap (lookup q) e)

Loses-trans : (dir : Bytes) (fs gs hs : Files) → Loses dir fs gs → Loses dir gs hs → Loses dir fs hs
Loses-trans dir fs gs hs a b q = elim (b q) [
  | inr l ↦ inr l
  | inl e ↦ elim (a q) [ inl e' ↦ inl (e ∙ e') | inr (l, d, n) ↦ inr (e ∙ l, d, n) ]
]

pub pending_suffix :
    (name : Bytes) (n : Node) → is_pending name n ≡ true → has_suffix name file_suffix ≡ true
unfolding is_pending
pending_suffix name n h = ground arith

Loses-erase :
    (dir name : Bytes) (n : Node) (fs : Files)
    → NodupKeys fs
    → is_pending name n ≡ true
    → Loses dir fs (erase (at dir name) fs)
Loses-erase dir name n fs u pending q = elim (path_eq.dec q (at dir name)) [
  | yes e ↦ inr (
    rw e (lookup-erase_self (at dir name) fs u),
    ap (λ (p : FilePath). p.dir) e,
    rw (ap (λ (p : FilePath). p.name) e) (pending_suffix name n pending),
  )
  | no h ↦ inl (lookup-erase_ne q (at dir name) fs h)
]

-- The folder and the limits stay, and only event files go.
pub record Kept (s s' : Spool) : Type 0 where
  pub dir : s'.queue.dir ≡ s.queue.dir
  pub dead_dir : s'.queue.dead_dir ≡ s.queue.dead_dir
  pub limits : s'.queue.limits ≡ s.queue.limits
  pub loses : Loses s.queue.dir s.disk.files s'.disk.files

Kept-refl : (s : Spool) → Kept s s
Kept-refl s = record { dir = refl; dead_dir = refl; limits = refl; loses = Loses-refl _ _ _ refl }

Kept-trans : (s t u : Spool) → Kept s t → Kept t u → Kept s u
Kept-trans s t u a b = record {
  dir = b.dir ∙ a.dir;
  dead_dir = b.dead_dir ∙ a.dead_dir;
  limits = b.limits ∙ a.limits;
  loses = Loses-trans s.queue.dir _ _ _ a.loses (rw (← a.dir) b.loses);
}

pub Drops-Kept :
    (s : Spool) {r : Result QueueError Bool} {s' : Spool}
    → NodupKeys s.disk.files
    → Drops s r s'
    → Kept s s'
unfolding discharge
Drops-Kept s {s' = s'} u (failed e h n f q) = record {
  dir = ap (λ (k : Queue). k.dir) q;
  dead_dir = ap (λ (k : Queue). k.dead_dir) q;
  limits = ap (λ (k : Queue). k.limits) q;
  loses = Loses-refl _ _ _ f;
}
Drops-Kept s {s' = s'} u (nothing_left h c f q) = record {
  dir = ap (λ (k : Queue). k.dir) q;
  dead_dir = ap (λ (k : Queue). k.dead_dir) q;
  limits = ap (λ (k : Queue). k.limits) q;
  loses = Loses-refl _ _ _ f;
}
Drops-Kept s {s' = s'} u (gone name n i found pending small h f q) = record {
  dir = ap (λ (k : Queue). k.dir) q;
  dead_dir = ap (λ (k : Queue). k.dead_dir) q;
  limits = ap (λ (k : Queue). k.limits) q;
  loses = rw f (Loses-erase s.queue.dir name n s.disk.files u pending);
}

after_drop-Kept :
    (s s1 : Spool) (r : Result QueueError Bool) (rest : Result QueueError (Unit {0}) × Spool)
    → Kept s s1
    → Kept s rest.1
    → Kept s (after_drop r s1 rest).1
unfolding after_drop
after_drop-Kept s s1 (err e) rest a b = a
after_drop-Kept s s1 (ok false) rest a b = a
after_drop-Kept s s1 (ok true) rest a b = b

pub enforce_limits-Kept :
    (fuel incoming : ℕ) (s : Spool) → Tally s → Kept s (enforce_limits fuel incoming s).1
unfolding enforce_limits
enforce_limits-Kept zero incoming s t = Kept-refl s
enforce_limits-Kept (suc fuel) incoming s t =
    let d = drop_oldest-Drops s t.unique in
    let a = Drops-Kept s t.unique d in
    elim (Bool-cases (over_limit incoming s.queue)) [
      | inr e ↦ rw (e, enforce_limits) (Kept-refl s)
      | inl e ↦
          rw (e, enforce_limits)
            (after_drop-Kept s _ _ _ a (
              Kept-trans s _ _ a
                (enforce_limits-Kept fuel incoming (drop_oldest s).1 (Drops-Tally s t d))))
    ]
