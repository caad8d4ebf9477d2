-- ===== src/Auth/Lifecycle/Stopping.antt =====
-- internal/collectors/auth/auth.go: what Stop gives when it cancels the context while run ends.
use shadow_twin.Prelude.{
  ◌≡◌, refl, ◌≢◌, ◌⊎◌, inl, inr, Bool, true, false, Option, none, some, List, [], ◌∷◌, arith, ◌∙◌,
  Bool-cases, sym,
}
use mathlib.Core.Path.{subst}
use shadow_twin.Auth.Lifecycle.{
  Collector, CollectError, Phase, idle, working, closing, closed, storing, Action, cancels, checks,
  stores, closes, Step, cancelling, checking, failing, ending, Runs, still, step, failure,
  after_look, conclude, store_err, stop_result,
}

-- What decides the error of a collector that is at work: the first of a cancel and of run's look at
-- the context.
abbrev pub verdict : List Action → Option CollectError
verdict [] = none
verdict (cancels ∷ t) = none
verdict (checks scan_failed wait_failed ∷ t) = failure scan_failed wait_failed
verdict (stores ∷ t) = verdict t
verdict (closes ∷ t) = verdict t

-- The error that a collector without one ends with, from where its goroutine is.
abbrev expected : Phase → Bool → Option CollectError → List Action → Option CollectError
expected idle cancelled error t = none
expected working true error t = none
expected working false error t = verdict t
expected (storing e) cancelled error t = some e
expected closing cancelled error t = error
expected closed cancelled error t = error

abbrev error_of : Collector → List Action → Option CollectError
error_of c t = expected c.phase c.is_cancelled c.error t

-- A collector that has started, and that has no error while it is at work.
abbrev Fresh : Phase → Option CollectError → Type 0
Fresh idle error = ⊥
Fresh working error = error ≡ none
Fresh (storing e) error = Unit
Fresh closing error = Unit
Fresh closed error = Unit

abbrev IsFresh : Collector → Type 0
IsFresh c = Fresh c.phase c.error

after_look-expected :
    (o error : Option CollectError) (k : Bool) (t : List Action)
    → error ≡ none
    → expected (after_look o) k error t ≡ o
after_look-expected none error k t n = n
after_look-expected (some e) error k t n = refl

conclude-expected :
    (s w : Bool) (t : List Action) (c : Collector)
    → c.phase ≡ working
    → c.error ≡ none
    → error_of (conclude s w c) t ≡ error_of c (checks s w ∷ t)
unfolding conclude
conclude-expected s w t c p n = elim (Bool-cases c.is_cancelled) [
  | inl h ↦ rw (h, p) n
  | inr h ↦ rw (h, p) (after_look-expected (failure s w) c.error false t n)
]

cancels-expected :
    (p : Phase) (k : Bool) (error : Option CollectError) (t : List Action)
    → expected p true error t ≡ expected p k error (cancels ∷ t)
cancels-expected idle k error t = refl
cancels-expected working true error t = refl
cancels-expected working false error t = refl
cancels-expected (storing e) k error t = refl
cancels-expected closing k error t = refl
cancels-expected closed k error t = refl

-- A step keeps the error that is expected.
Step-expected :
    (a : Action) (t : List Action) (c d : Collector)
    → Step c a d
    → IsFresh c
    → error_of d t ≡ error_of c (a ∷ t)
unfolding store_err
Step-expected a t c d cancelling f = cancels-expected c.phase c.is_cancelled c.error t
Step-expected a t c d (checking s w p) f =
    conclude-expected s w t c p (subst (λ q. Fresh q c.error) p f)
Step-expected a t c d (failing e p) f = ground (arith, p)
Step-expected a t c d (ending p) f = ground (arith, p)

after_look-Fresh :
    (o : Option CollectError) (error : Option CollectError) → Fresh (after_look o) error
after_look-Fresh none error = tt
after_look-Fresh (some e) error = tt

conclude-IsFresh : (s w : Bool) (c : Collector) → IsFresh (conclude s w c)
unfolding conclude
conclude-IsFresh s w c = elim (Bool-cases c.is_cancelled) [
  | inl h ↦ rw h tt
  | inr h ↦ rw h (after_look-Fresh (failure s w) c.error)
]

Step-IsFresh : (a : Action) (c d : Collector) → Step c a d → IsFresh c → IsFresh d
unfolding store_err
Step-IsFresh a c d cancelling f = f
Step-IsFresh a c d (checking s w p) f = conclude-IsFresh s w c
Step-IsFresh a c d (failing e p) f = tt
Step-IsFresh a c d (ending p) f = tt

-- What a run of steps leaves.
Runs-expected :
    (t : List Action) (c d : Collector)
    → Runs c t d
    → IsFresh c
    → (error_of d [] ≡ error_of c t) × IsFresh d
Runs-expected t c d still f = (refl, f)
Runs-expected _ c e (step {a = a} {t = t} {d = d} s r) f =
    let (same, fresh) = Runs-expected t d e r (Step-IsFresh a c d s f) in
    (same ∙ Step-expected a t c d s f, fresh)

-- Run itself has a step left.
abbrev pub HasStep : Collector → Type 0
HasStep c = (a : Action) × (a ≢ cancels) × (d : Collector) × Step c a d

Fresh-returns :
    (c : Collector) (p : Phase)
    → c.phase ≡ p
    → IsFresh c
    → (stop_result c ≡ some (error_of c [])) ⊎ ((stop_result c ≡ none) × HasStep c)
unfolding stop_result
Fresh-returns c idle h f = absurd (subst (λ q. Fresh q c.error) h f)
Fresh-returns c working h f =
    inr (ground (arith, h), (checks false false, (λ x. cc), _, checking false false h))
Fresh-returns c (storing e) h f = inr (ground (arith, h), (stores, (λ x. cc), _, failing e h))
Fresh-returns c closing h f = inr (ground (arith, h), (closes, (λ x. cc), _, ending h))
Fresh-returns c closed h f = inl (ground (arith, h))

-- Let a collector be at work, with no error and its context not cancelled. Then after every
-- interleaving of cancels, by Stop or from outside, with run's look at the context, storeErr and
-- the closing of the channels: either run is gone, and Stop returns what the first of a cancel and
-- run's look at the context decides, which is no error for a cancel, whatever the scan and the
-- process end with, and for the look the error of the scan, or else that of the process, or none;
-- or Stop waits, and run has a next step.
pub stop_result-verdict :
    (t : List Action) (c d : Collector)
    → Runs c t d
    → c.phase ≡ working
    → c.is_cancelled ≡ false
    → c.error ≡ none
    → (stop_result d ≡ some (verdict t)) ⊎ ((stop_result d ≡ none) × HasStep d)
stop_result-verdict t c d r p k n =
    let (same, fresh) = Runs-expected t c d r (subst (λ q. Fresh q c.error) (sym p) n) in
    let decided : error_of c t ≡ verdict t = ground (arith, p, k) in
    subst (λ e. (stop_result d ≡ some e) ⊎ ((stop_result d ≡ none) × HasStep d)) (same ∙ decided)
      (Fresh-returns d d.phase refl fresh)
