-- ===== src/Agent/Pipeline/Restart.antt =====
-- internal/collectors/auth/auth.go: a Start on the files of an earlier run of cmd/agent/main.go.
use shadow_twin.Prelude.{
  ℕ, ◌≡◌, ◌≢◌, Bytes, codes, true, Option, none, some, List, [], ◌∷◌, ◌++◌, arith, ap, ◌∙◌, All,
  bytes_eq, ◌==◌, Bool-cases, Option-cases, inl, inr,
}
use mathlib.Core.Path.{subst}
use shadow_twin.Text.{trim_space}
use shadow_twin.Fs.{Disk, Result, ok, lookup}
use shadow_twin.Collectors.Event.{Event}
use shadow_twin.Buffer.{Spool, Codec}
use shadow_twin.Auth.Entry.{Host, Fields, parse_entry, parse_fields, string_field, parse_realtime}
use shadow_twin.Auth.Scan.{Line}
use shadow_twin.Auth.Lifecycle.{Collector, Exec, StartError, Process, start}
use shadow_twin.Auth.Lifecycle.Resuming.{resume_args, start-stored, start-same}
use shadow_twin.Agent.Pipeline.{Pipeline, started, entry_of, Runs}
use shadow_twin.Agent.Pipeline.Stream.{journal_events}
use shadow_twin.Agent.Pipeline.Trail.{taken, Entry, unmoved, at_entry, Runs-Trails}

-- A cursor of the line has no white space around it.
abbrev pub IsTrimmed : (Bytes → Option Fields) → Line → Type 0
IsTrimmed unmarshal line =
    (ev : Event) (cursor : Bytes)
    → entry_of unmarshal line ≡ some (ev, cursor)
    → trim_space cursor ≡ cursor

All-middle :
    {A : Type 0} (P : A → Type 0) (xs : List A) (y : A) (zs : List A) → All P (xs ++ y ∷ zs) → P y
All-middle P [] y zs h = h.0
All-middle P (x ∷ xs) y zs h = All-middle P xs y zs h.1

module _ (unmarshal : Bytes → Option Fields) where
  parse_fields-cursor :
      (h : Host) (fields : Fields) (ev : Event) (cursor : Bytes)
      → parse_fields h fields ≡ some (ev, cursor)
      → cursor ≢ []
  unfolding parse_fields bytes_eq
  parse_fields-cursor h fields ev cursor g e =
      elim (Bool-cases (string_field fields (codes "__CURSOR") == [])) [
        | inl y ↦ absurd (ground (arith, g, y))
        | inr n ↦
            elim (Option-cases
              (parse_realtime (string_field fields (codes "__REALTIME_TIMESTAMP")))) [
                | inl r ↦ absurd (ground (arith, g, n, r))
                | inr (ts, r) ↦
                    let same : string_field fields (codes "__CURSOR") ≡ cursor =
                      ground (arith, g, n, r) in
                    ground (arith, n, same ∙ e)
              ]
      ]

  by_content :
      (b : Bytes) (parsed : Option (Event × Bytes)) (y : Event × Bytes)
      → ◌≡◌ {A = Option (Event × Bytes)} (elim b [ [] ↦ none | _ ∷ _ ↦ parsed ]) (some y)
      → parsed ≡ some y
  by_content [] parsed y h = absurd (cc)
  by_content (_ ∷ _) parsed y h = h

  entry_of-cursor :
      (line : Line) (ev : Event) (cursor : Bytes)
      → entry_of unmarshal line ≡ some (ev, cursor)
      → cursor ≢ []
  unfolding entry_of parse_entry
  entry_of-cursor line ev cursor h =
      let parsed = by_content (trim_space line.content) _ (ev, cursor) h in
      elim (Option-cases (unmarshal line.content)) [
        | inl u ↦ absurd (ground (arith, parsed, u))
        | inr (fields, u) ↦
            parse_fields-cursor line.host fields ev cursor (ground (arith, parsed, u))
      ]

  -- Where a later Start goes on: as at the beginning, or after an entry whose event had been taken
  -- behind all the events ahead of it.
  pub data Resumes (journal : List Line) (x : Exec) (path : Bytes)
      (first : Result StartError Process) (evs : List Event) (r : Result StartError Process)
      : Type 0 where
    as_first : r ≡ first → Resumes journal x path first evs r
    after :
        (ahead behind : List Line) (ev : Event) (cursor : Bytes) (more : List Event)
        → Entry unmarshal journal ahead behind ev cursor
        → r ≡ ok (record { path = path; args = resume_args cursor })
        → evs ≡ journal_events unmarshal ahead ++ (ev ∷ more)
        → Resumes journal x path first evs r

  -- Let the cursors of the journal's entries have no white space around them, let journalctl be
  -- there and start, and let no call fail when a collector starts. Let the agent then run and end
  -- at any state that it can reach, a crash included. A later Start on the files that it leaves,
  -- with no failing call, goes on where the first one did, or it asks for what comes after an entry
  -- of the journal whose event, and before it all those of the lines ahead, had reached Write or
  -- the producer's hand.
  pub Runs-Resumes :
      (codec : Codec) (x : Exec) (path : Bytes) (c : Collector) {n : ℕ} (lines : List Line)
      (d0 d e : Disk) (q : Spool) (t : Pipeline)
      → All (IsTrimmed unmarshal) lines
      → x.look_path (codes "journalctl") ≡ some path
      → x.has_pipe ≡ true
      → x.starts ≡ true
      → d.files ≡ d0.files
      → Runs codec unmarshal c.cursor_file (started lines d q) n t
      → e.files ≡ t.disk.files
      → d0.faults ≡ []
      → e.faults ≡ []
      → Resumes lines x path (start x c d0).0.0 (taken t) (start x c e).0.0
  Runs-Resumes codec x path c lines d0 d e q t trimmed found pipe comes same r crash calm calm' =
      let left = ap (lookup c.cursor_file) crash in
      elim (Runs-Trails codec unmarshal c.cursor_file lines d q t r) [
        | unmoved l ↦
            as_first (start-same x c d0 e (left ∙ (l ∙ ap (lookup c.cursor_file) same)) calm calm')
        | at_entry ahead behind ev cursor m more g l h ↦
            after ahead behind ev cursor more g
              (start-stored x path c cursor m e
                (All-middle (IsTrimmed unmarshal) ahead g.line behind
                  (subst (All (IsTrimmed unmarshal)) g.place trimmed) ev cursor g.parsed)
                (entry_of-cursor g.line ev cursor g.parsed) (left ∙ l) calm' found pipe comes)
              h
      ]
