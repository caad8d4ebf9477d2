-- ===== src/Agent/Pipeline/Trail.antt =====
-- internal/collectors/auth/auth.go: the cursor on the disk, against the events that the producer of
-- cmd/agent/main.go has taken.
use shadow_twin.Prelude.{ℕ, ◌≡◌, refl, Bytes, Option, none, some, List, [], ◌∷◌, ◌++◌, ap, sym, ◌∙◌}
use mathlib.Core.Path.{subst}
use mathlib.Core.List.{append_assoc, append-nil}
use shadow_twin.Fs.{FilePath, file, Files, lookup, Disk}
use shadow_twin.Fs.Replacing.{as_before, replaced}
use shadow_twin.Collectors.Event.{Event}
use shadow_twin.Buffer.{Spool, Codec}
use shadow_twin.Auth.{write_cursor}
use shadow_twin.Auth.Entry.{Fields}
use shadow_twin.Auth.Scan.{Line}
use shadow_twin.Auth.Scan.Cursor.{stored, ne_tmp_path, write_cursor-Replaces}
use shadow_twin.Agent.Pipeline.{
  Stage, reading, offering, storing, stopped, Pipeline, started, entry_of, cursor_stored,
  event_stored, Moves, passes_over, parses, sends, gives_up, stores_cursor, ends, stores_event,
  Turns, reads, settles, cancels, Runs, start, move, turn,
}
use shadow_twin.Agent.Pipeline.Stream.{in_hand, cons_entry, journal_events}

-- The events that Write has returned from, and the one that the producer has in its hand.
abbrev pub taken : Pipeline → List Event
taken s = s.written ++ in_hand s.hand

taken-sends :
    (ev : Event) (written : List Event) (hand : Option Event)
    → hand ≡ none
    → written ++ ev ∷ [] ≡ (written ++ in_hand hand) ++ ev ∷ []
taken-sends ev written hand n = rw n (sym (append_assoc written [] (ev ∷ [])))

taken-stores :
    (ev : Event) (written : List Event) (hand : Option Event)
    → hand ≡ some ev
    → (written ++ ev ∷ []) ++ [] ≡ written ++ in_hand hand
taken-stores ev written hand h = rw h (append_assoc written (ev ∷ []) [])

module _ (unmarshal : Bytes → Option Fields) where
  cons_entry-append :
      (e : Option (Event × Bytes)) (evs more : List Event) {all : List Event}
      → all ≡ evs ++ more
      → cons_entry unmarshal e all ≡ cons_entry unmarshal e evs ++ more
  cons_entry-append none evs more h = h
  cons_entry-append (some (ev, cursor)) evs more h = ap (λ evs. ev ∷ evs) h

  journal_events-snoc :
      (ahead : List Line) (line : Line)
      → journal_events unmarshal (ahead ++ line ∷ [])
        ≡ journal_events unmarshal ahead ++ cons_entry unmarshal (entry_of unmarshal line) []
  unfolding journal_events
  journal_events-snoc [] line = refl
  journal_events-snoc (l ∷ ahead) line =
      cons_entry-append (entry_of unmarshal l) (journal_events unmarshal ahead) _
        (journal_events-snoc ahead line)

  module _ (journal : List Line) where
    -- A line of the journal with the lines ahead of it and behind it, its event and its cursor.
    pub record Entry (ahead behind : List Line) (ev : Event) (cursor : Bytes) : Type 0 where
      pub line : Line
      pub place : journal ≡ ahead ++ line ∷ behind
      pub parsed : entry_of unmarshal line ≡ some (ev, cursor)

    module _ (p : FilePath) (fs0 : Files) where
      -- The cursor file is as it was, or has the cursor of an entry whose event has been taken, after
      -- all the events of the lines ahead of it.
      pub data Trails (fs : Files) (evs : List Event) : Type 0 where
        unmoved : lookup p fs ≡ lookup p fs0 → Trails fs evs
        at_entry :
            (ahead behind : List Line) (ev : Event) (cursor : Bytes) (m : ℕ) (more : List Event)
            → Entry ahead behind ev cursor
            → lookup p fs ≡ some (file m (stored cursor))
            → evs ≡ journal_events unmarshal ahead ++ (ev ∷ more)
            → Trails fs evs

      -- Where the collector stands in the journal, against the events that have been taken.
      abbrev IsHeld : Stage → List Line → List Event → Type 0
      IsHeld reading lines evs =
          (passed : List Line) × (journal ≡ passed ++ lines)
          × (evs ≡ journal_events unmarshal passed)
      IsHeld (offering ev cursor) lines evs =
          (ahead : List Line) × Entry ahead lines ev cursor × (evs ≡ journal_events unmarshal ahead)
      IsHeld (storing ev cursor) lines evs =
          (ahead : List Line) × Entry ahead lines ev cursor
          × (evs ≡ journal_events unmarshal ahead ++ ev ∷ [])
      IsHeld (stopped left) lines evs = Unit {0}

      record Sound (s : Pipeline) : Type 0 where
        held : IsHeld s.stage s.lines (taken s)
        trails : Trails s.disk.files (taken s)

      IsHeld-at : (s : Pipeline) {x : Stage} → s.stage ≡ x → Sound s → IsHeld x s.lines (taken s)
      IsHeld-at s e h = subst (λ y. IsHeld y s.lines (taken s)) e h.held

      -- The collector goes on behind a line.
      IsHeld-next :
          (ahead : List Line) (line : Line) (lines : List Line) (evs : List Event)
          → journal ≡ ahead ++ line ∷ lines
          → evs
            ≡ journal_events unmarshal ahead ++ cons_entry unmarshal (entry_of unmarshal line) []
          → IsHeld reading lines evs
      IsHeld-next ahead line lines evs e h = (
        ahead ++ line ∷ [],
        e ∙ sym (append_assoc ahead (line ∷ []) lines),
        h ∙ sym (journal_events-snoc ahead line),
      )

      Trails-grows :
          {fs : Files} {evs : List Event} (f : Event) → Trails fs evs → Trails fs (evs ++ f ∷ [])
      Trails-grows f (unmoved l) = unmoved l
      Trails-grows f (at_entry ahead behind ev cursor m more g l h) =
          at_entry ahead behind ev cursor m (more ++ f ∷ []) g l (
            ap (λ evs. evs ++ f ∷ []) h
            ∙ append_assoc (journal_events unmarshal ahead) (ev ∷ more) _)

      Trails-kept :
          {fs gs : Files} {evs : List Event}
          → lookup p gs ≡ lookup p fs
          → Trails fs evs
          → Trails gs evs
      Trails-kept f (unmoved l) = unmoved (f ∙ l)
      Trails-kept f (at_entry ahead behind ev cursor m more g l h) =
          at_entry ahead behind ev cursor m more g (f ∙ l) h

      Trails-stores :
          (ahead behind : List Line) (ev : Event) (cursor : Bytes) (evs : List Event) (d : Disk)
          → Entry ahead behind ev cursor
          → evs ≡ journal_events unmarshal ahead ++ ev ∷ []
          → Trails d.files evs
          → Trails (write_cursor p cursor d).1.files evs
      Trails-stores ahead behind ev cursor evs d g h t = elim (write_cursor-Replaces p cursor d) [
        | replaced m l f ↦ at_entry ahead behind ev cursor m [] g l h
        | as_before f ↦ Trails-kept (f p (ne_tmp_path p)) t
      ]

      module _ (codec : Codec) where
        Sound-Moves : {s t : Pipeline} → Moves codec unmarshal p s t → Sound s → Sound t
        unfolding event_stored cursor_stored
        Sound-Moves {s} (passes_over line lines e l n) h =
            let (passed, place, seen) = IsHeld-at s e h in
            record {
              held =
                  subst (λ y. IsHeld y lines (taken s)) (sym e)
                    (IsHeld-next passed line lines (taken s) (place ∙ ap (λ ls. passed ++ ls) l)
                      (rw n (seen ∙ sym (append-nil _))));
              trails = h.trails;
            }
        Sound-Moves {s} (parses line lines ev cursor e l n) h =
            let (passed, place, seen) = IsHeld-at s e h in
            record {
              held = (
                passed,
                record { line = line; place = place ∙ ap (λ ls. passed ++ ls) l; parsed = n },
                seen,
              );
              trails = h.trails;
            }
        Sound-Moves {s} (sends ev cursor e n) h =
            let (ahead, g, seen) = IsHeld-at s e h in
            let grown = taken-sends ev s.written s.hand n in
            record {
              held = (ahead, g, grown ∙ ap (λ evs. evs ++ ev ∷ []) seen);
              trails =
                  subst (λ evs. Trails s.disk.files evs) (sym grown) (Trails-grows ev h.trails);
            }
        Sound-Moves (gives_up ev cursor e c) h = record { held = tt; trails = h.trails }
        Sound-Moves {s} (stores_cursor ev cursor e) h =
            let (ahead, g, seen) = IsHeld-at s e h in
            record {
              held = IsHeld-next ahead g.line s.lines (taken s) g.place (rw g.parsed seen);
              trails = Trails-stores ahead s.lines ev cursor (taken s) s.disk g seen h.trails;
            }
        Sound-Moves (ends e) h = record { held = tt; trails = h.trails }
        Sound-Moves {s} (stores_event ev n) h =
            let same = sym (taken-stores ev s.written s.hand n) in
            record {
              held = subst (λ evs. IsHeld s.stage s.lines evs) same h.held;
              trails = subst (λ evs. Trails s.disk.files evs) same h.trails;
            }

        Sound-Turns : {s t : Pipeline} → Turns codec unmarshal p s t → Sound s → Sound t
        Sound-Turns (reads max_n max_bytes) h = record { held = h.held; trails = h.trails }
        Sound-Turns (settles outcome batch) h = record { held = h.held; trails = h.trails }
        Sound-Turns cancels h = record { held = h.held; trails = h.trails }

        Sound-Runs :
            {s : Pipeline} {n : ℕ} {t : Pipeline} → Runs codec unmarshal p s n t → Sound s → Sound t
        Sound-Runs start h = h
        Sound-Runs (move r m) h = Sound-Moves m (Sound-Runs r h)
        Sound-Runs (turn r m) h = Sound-Turns m (Sound-Runs r h)

module _ (codec : Codec) (unmarshal : Bytes → Option Fields) (p : FilePath) where
  -- Let the collector and the producer start over any journal, disk and queue. Then in every state
  -- that they and the consumer reach, however their steps interleave, whatever calls on the disk
  -- fail and whenever the shutdown comes: the cursor file is as it was at the start, or it holds,
  -- whole, the cursor of an entry of the journal, and the events that Write has returned from, with
  -- the one in the producer's hand, are those of all the lines ahead of this entry, in their order,
  -- then its own, then later ones.
  pub Runs-Trails :
      {n : ℕ} (lines : List Line) (d : Disk) (q : Spool) (t : Pipeline)
      → Runs codec unmarshal p (started lines d q) n t
      → Trails unmarshal lines p d.files t.disk.files (taken t)
  unfolding started journal_events
  Runs-Trails lines d q t r =
      (Sound-Runs unmarshal lines p d.files codec r
        (record { held = ([], refl, refl); trails = unmoved refl })).trails
