-- ===== src/Agent/Pipeline/Scanning.antt =====
-- internal/collectors/auth/auth.go: scan by itself, and as one of the goroutines.
use shadow_twin.Prelude.{
  ℕ, ◌≡◌, refl, Bytes, true, false, Option, none, some, List, [], ◌∷◌, arith, sym, inl, inr,
  Option-cases, Bool-cases,
}
use mathlib.Core.Path.{subst}
use shadow_twin.Text.{trim_space}
use shadow_twin.Fs.{FilePath, Disk}
use shadow_twin.Collectors.Event.{Event}
use shadow_twin.Buffer.{Spool, Codec}
use shadow_twin.Auth.Entry.{Fields}
use shadow_twin.Auth.Scan.{Line, Scanned, emit, scan}
use shadow_twin.Auth.Scan.Cursor.{List-cases}
use shadow_twin.Agent.Pipeline.{
  reading, offering, Pipeline, started, entry_of, cursor_stored, event_stored, passes_over, parses,
  sends, gives_up, stores_cursor, ends, stores_event, cancels, Runs, start, move, turn,
}
use shadow_twin.Agent.Pipeline.Rest.{AtRest}

module _ (unmarshal : Bytes → Option Fields) (p : FilePath) where
  scan-entry_none :
      (line : Line) (lines : List Line) (s : Scanned)
      → entry_of unmarshal line ≡ none
      → scan unmarshal p (line ∷ lines) s ≡ scan unmarshal p lines s
  unfolding scan entry_of
  scan-entry_none line lines s h = elim (List-cases (trim_space line.content)) [
    | inl e ↦ rw (e, scan) refl
    | inr (c, cs, e) ↦ ground (arith, h, e)
  ]

  scan-entry_some :
      (line : Line) (lines : List Line) (ev : Event) (cursor : Bytes) (s : Scanned)
      → entry_of unmarshal line ≡ some (ev, cursor)
      → scan unmarshal p (line ∷ lines) s ≡ elim line.cancelled [
        | true ↦ s
        | false ↦ scan unmarshal p lines (emit unmarshal p ev cursor s)
      ]
  unfolding scan entry_of
  scan-entry_some line lines ev cursor s h = elim (List-cases (trim_space line.content)) [
    | inl e ↦ absurd (ground (arith, h, e))
    | inr (c, cs, e) ↦ ground (arith, h, e)
  ]

  module _ (codec : Codec) (s0 : Pipeline) where
    -- The steps end at rest, with the disk and the events of a scan.
    pub record Reaches (r : Scanned) : Type 0 where
      pub steps : ℕ
      pub end : Pipeline
      pub run : Runs codec unmarshal p s0 steps end
      pub disk : end.disk ≡ r.disk
      pub written : end.written ≡ r.emitted
      pub rest : AtRest end

    gives_up-Reaches :
        (ev : Event) (cursor : Bytes) (n : ℕ) (s : Pipeline)
        → Runs codec unmarshal p s0 n s
        → s.stage ≡ offering ev cursor
        → s.hand ≡ none
        → Reaches (record { emitted = s.written; disk = s.disk })
    gives_up-Reaches ev cursor n s r e h = record {
      steps = _;
      end = _;
      run = move (turn r cancels) (gives_up ev cursor e refl);
      disk = refl;
      written = refl;
      rest = record { left = ev ∷ []; over = refl; idle = h };
    }

    scan-Reaches :
        (lines : List Line) (n : ℕ) (s : Pipeline)
        → Runs codec unmarshal p s0 n s
        → s.stage ≡ reading
        → s.hand ≡ none
        → s.lines ≡ lines
        → Reaches (scan unmarshal p lines (record { emitted = s.written; disk = s.disk }))
    unfolding scan emit cursor_stored event_stored
    scan-Reaches [] n s r e h l = record {
      steps = _;
      end = _;
      run = move r (ends e);
      disk = refl;
      written = refl;
      rest = record { left = []; over = refl; idle = h };
    }
    scan-Reaches (line ∷ lines) n s r e h l = elim (Option-cases (entry_of unmarshal line)) [
      | inl g ↦
          subst Reaches (sym (scan-entry_none line lines _ g))
            (scan-Reaches lines _ _ (move r (passes_over line lines e l g)) e h refl)
      | inr ((ev, cursor), g) ↦
          let parsed = move r (parses line lines ev cursor e l g) in
          subst Reaches (sym (scan-entry_some line lines ev cursor _ g))
            (elim (Bool-cases line.cancelled) [
              | inl y ↦ rw y (gives_up-Reaches ev cursor _ _ parsed refl h)
              | inr k ↦ rw k (
                  scan-Reaches lines _ _
                    (move (move (move parsed (sends ev cursor refl h)) (stores_event ev refl))
                      (stores_cursor ev cursor refl))
                    refl refl refl)
            ])
    ]

module _ (codec : Codec) (unmarshal : Bytes → Option Fields) (p : FilePath) where
  -- For every journal, disk and queue, a run of the collector, the producer and the consumer from
  -- their start ends at rest with the cursor's disk that scan by itself leaves, and the events that
  -- Write has returned from are those that scan sends out: what scan does, with the shutdowns that
  -- its lines carry, is one of the interleavings.
  pub scan-Runs :
      (lines : List Line) (d : Disk) (q : Spool)
      → Reaches unmarshal p codec
          (started lines d q)
          (scan unmarshal p lines (record { emitted = []; disk = d }))
  unfolding started
  scan-Runs lines d q =
      scan-Reaches unmarshal p codec (started lines d q) lines 0 _ start refl refl refl
