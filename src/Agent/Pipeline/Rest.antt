-- ===== src/Agent/Pipeline/Rest.antt =====
-- cmd/agent/main.go: runAgent's goroutines, and where they come to rest.
use shadow_twin.Prelude.{
  ℕ, suc, ◌+◌, ◌*◌, ◌≤◌, ◌≡◌, refl, ◌⊎◌, inl, inr, Bytes, Option, none, some, List, [], ◌∷◌, length,
  arith, ap, Option-cases,
}
use shadow_twin.Fs.{FilePath}
use shadow_twin.Collectors.Event.{Event}
use shadow_twin.Buffer.{Codec}
use shadow_twin.Auth.Entry.{Fields}
use shadow_twin.Auth.Scan.{Line}
use shadow_twin.Agent.Pipeline.{
  Stage, reading, offering, storing, stopped, Pipeline, entry_of, cursor_stored, event_stored,
  Moves, passes_over, parses, sends, gives_up, stores_cursor, ends, stores_event, Turns, reads,
  settles, cancels, Runs, start, move, turn,
}

abbrev pub stage_steps : Stage → ℕ
stage_steps reading = 1
stage_steps (offering ev cursor) = 4
stage_steps (storing ev cursor) = 2
stage_steps (stopped evs) = 0

abbrev pub hand_steps : Option Event → ℕ
hand_steps none = 0
hand_steps (some ev) = 1

-- A bound on the steps that are left: four for each line, and those of the entry under way.
abbrev pub steps_left : Pipeline → ℕ
steps_left s = length s.lines * 4 + stage_steps s.stage + hand_steps s.hand

-- scan has returned and the producer's hand is empty.
pub record AtRest (s : Pipeline) : Type 0 where
  pub left : List Event
  pub over : s.stage ≡ stopped left
  pub idle : s.hand ≡ none

module _ (codec : Codec) (unmarshal : Bytes → Option Fields) (p : FilePath) where
  steps_left-Moves :
      {s t : Pipeline} → Moves codec unmarshal p s t → suc (steps_left t) ≤ steps_left s
  unfolding cursor_stored event_stored
  steps_left-Moves {s} (passes_over line lines e l n) = rw (ap length l) (omega arith)
  steps_left-Moves {s} (parses line lines ev cursor e l n) = rw (ap length l) (rw e (omega arith))
  steps_left-Moves (sends ev cursor e h) = rw e (rw h (omega arith))
  steps_left-Moves (gives_up ev cursor e c) = rw e (omega arith)
  steps_left-Moves (stores_cursor ev cursor e) = rw e (omega arith)
  steps_left-Moves (ends e) = rw e (omega arith)
  steps_left-Moves (stores_event ev h) = rw h (omega arith)

  steps_left-Turns : {s t : Pipeline} → Turns codec unmarshal p s t → steps_left t ≡ steps_left s
  steps_left-Turns (reads max_n max_bytes) = refl
  steps_left-Turns (settles outcome batch) = refl
  steps_left-Turns cancels = refl

  steps_left-Runs :
      {s : Pipeline} {n : ℕ} {t : Pipeline}
      → Runs codec unmarshal p s n t
      → n + steps_left t ≤ steps_left s
  steps_left-Runs start = omega arith
  steps_left-Runs (move r m) = omega (arith, steps_left-Runs r, steps_left-Moves m)
  steps_left-Runs (turn r m) = omega (arith, steps_left-Runs r, steps_left-Turns m)

  next_line :
      (s : Pipeline) (ls : List Line)
      → s.stage ≡ reading
      → s.lines ≡ ls
      → (t : Pipeline) × Moves codec unmarshal p s t
  next_line s [] e l = (_, ends e)
  next_line s (line ∷ lines) e l = elim (Option-cases (entry_of unmarshal line)) [
    | inl n ↦ (_, passes_over line lines e l n)
    | inr ((ev, cursor), n) ↦ (_, parses line lines ev cursor e l n)
  ]

  next_of :
      (s : Pipeline) (x : Stage) (h : Option Event)
      → s.stage ≡ x
      → s.hand ≡ h
      → AtRest s ⊎ ((t : Pipeline) × Moves codec unmarshal p s t)
  next_of s x (some ev) e h = inr (_, stores_event ev h)
  next_of s reading none e h = inr (next_line s s.lines e refl)
  next_of s (offering ev cursor) none e h = inr (_, sends ev cursor e h)
  next_of s (storing ev cursor) none e h = inr (_, stores_cursor ev cursor e)
  next_of s (stopped evs) none e h = inl (record { left = evs; over = e; idle = h })

  -- From any state, the steps of the collector and the producer in a run, with the bound on those
  -- that are left, are at most the bound at its start: four for each line, and those of the entry
  -- under way. And at the end of every run the collector has returned and the producer's hand is
  -- empty, or one of the two has a next step.
  pub Runs-rest :
      {n : ℕ} (s t : Pipeline)
      → Runs codec unmarshal p s n t
      → (n + steps_left t ≤ steps_left s)
        × (AtRest t ⊎ ((u : Pipeline) × Moves codec unmarshal p t u))
  Runs-rest s t r = (steps_left-Runs r, next_of t t.stage t.hand refl refl)
