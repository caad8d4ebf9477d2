-- ===== src/Auth/Scan/Cursor.antt =====
-- internal/collectors/auth/auth.go: the cursor file, as scan writes it and readCursor reads it.
use shadow_twin.Prelude.{
  ℕ, ◌≡◌, refl, ◌≢◌, ◌⊎◌, inl, inr, Bytes, codes, true, false, Option, none, some, List, [], ◌∷◌,
  ◌++◌, arith, ap, sym, ◌∙◌, Option-cases, nat_eq, bytes_eq, if◌then◌else◌, Bool-cases, length,
  length-append, ◌+◌,
}
use mathlib.Core.List.{append-nil, append_assoc}
use shadow_twin.Text.{trim_space, trim_right_space, trim_left_space, is_one_space, is_space}
use shadow_twin.Fs.{FilePath, file, Files, Disk, FsError, Result, ok, lookup, write_file, read_file}
use shadow_twin.Fs.Effects.{write_file-Writes, rename-Renames, Writes, untouched, partly, whole}
use shadow_twin.Fs.Replacing.{Replaces, as_before, replaced, Replaces-Writes, Replaces-Renames}
use shadow_twin.Collectors.Event.{Event}
use shadow_twin.Auth.{tmp_path, write_cursor, read_cursor}
use shadow_twin.Auth.Entry.{Host, Fields, parse_entry}
use shadow_twin.Auth.Scan.{Line, Scanned, emit, scan}

abbrev pub stored : Bytes → Bytes
stored cursor = cursor ++ codes "\n"

pub List-cases : {A : Type 0} (l : List A) → (l ≡ []) ⊎ ((a : A) × (as' : List A) × (l ≡ a ∷ as'))
List-cases [] = inl refl
List-cases (a ∷ l) = inr (a, l, refl)

pub ne_tmp_path : (p : FilePath) → p ≢ tmp_path p
ne_tmp_path p e =
    let n : length p.name ≡ length p.name + 4 =
      ap (λ (q : FilePath). length q.name) e ∙ length-append p.name (codes ".tmp") in
    omega (arith, n)

module _ (p : FilePath) (cursor : Bytes) (d : Disk) where
  abbrev tmp_written : Result FsError (Unit {0}) × Disk
  tmp_written = write_file (tmp_path p) (stored cursor) 0o600 d

  write_cursor-Replaces_from :
      Writes (tmp_path p) (stored cursor) d.files tmp_written.0 tmp_written.1.files
      → Replaces (tmp_path p) p (stored cursor) d.files (write_cursor p cursor d).1.files
  unfolding write_cursor
  write_cursor-Replaces_from (untouched x h f) =
      rw (h, write_cursor)
        (Replaces-Writes (tmp_path p) p (stored cursor) d.files (untouched x h f))
  write_cursor-Replaces_from (partly x m k h f) =
      rw (h, write_cursor)
        (Replaces-Writes (tmp_path p) p (stored cursor) d.files (partly x m k h f))
  write_cursor-Replaces_from (whole m h f) =
      rw (h, write_cursor)
        (Replaces-Renames (tmp_path p) p (stored cursor) d.files tmp_written.1.files m f
          (rename-Renames (tmp_path p) p tmp_written.1))

  -- However writeCursor ends, every path but the temporary one is as before, except that the cursor
  -- file may hold the new cursor with its newline, whole.
  pub write_cursor-Replaces :
      Replaces (tmp_path p) p (stored cursor) d.files (write_cursor p cursor d).1.files
  write_cursor-Replaces =
      write_cursor-Replaces_from (write_file-Writes (tmp_path p) (stored cursor) 0o600 d)

trim_right-newline : (s : Bytes) → trim_right_space (s ++ 10 ∷ []) ≡ trim_right_space s
unfolding trim_right_space is_one_space is_space nat_eq
trim_right-newline [] = refl
trim_right-newline (c ∷ s) =
    ap (λ r. if is_one_space (c ∷ r) then [] else c ∷ r) (trim_right-newline s)

trim_space-newline : (s : Bytes) → trim_space (stored s) ≡ trim_space s
unfolding trim_space
trim_space-newline s = ap (trim_left_space 0) (trim_right-newline s)

-- If a cursor has no white space around it, and the cursor file holds it as writeCursor stores it,
-- then readCursor gives that cursor, when no call fails.
pub write_cursor-read_cursor :
    (p : FilePath) (cursor : Bytes) (m : ℕ) (d : Disk)
    → trim_space cursor ≡ cursor
    → lookup p d.files ≡ some (file m (stored cursor))
    → d.faults ≡ []
    → (read_cursor p d).0 ≡ ok cursor
unfolding read_cursor read_file
write_cursor-read_cursor p cursor m d t l f = ground (arith, trim_space-newline cursor)

-- A cursor of the journal and the event of its entry, which went out.
module _ (unmarshal : Bytes → Option Fields) (p : FilePath) (fs0 : Files) where
  abbrev IsEmitted : Event → List Event → Type 0
  IsEmitted ev [] = ⊥
  IsEmitted ev (e ∷ es) = (ev ≡ e) ⊎ IsEmitted ev es

  IsEmitted-still : (ev : Event) (es fs : List Event) → IsEmitted ev es → IsEmitted ev (es ++ fs)
  IsEmitted-still ev [] fs x = absurd x
  IsEmitted-still ev (e ∷ es) fs (inl h) = inl h
  IsEmitted-still ev (e ∷ es) fs (inr h) = inr (IsEmitted-still ev es fs h)

  IsEmitted-last : (ev : Event) (es : List Event) → IsEmitted ev (es ++ ev ∷ [])
  IsEmitted-last ev [] = inl refl
  IsEmitted-last ev (e ∷ es) = inr (IsEmitted-last ev es)

  -- The cursor file is as it was, or has the cursor of an entry whose event went out.
  data Behind (s : Scanned) : Type 0 where
    unmoved : lookup p s.disk.files ≡ lookup p fs0 → Behind s
    at_entry :
        (ev : Event) (cursor line : Bytes) (h : Host) (m : ℕ)
        → parse_entry unmarshal h line ≡ some (ev, cursor)
        → IsEmitted ev s.emitted
        → lookup p s.disk.files ≡ some (file m (stored cursor))
        → Behind s

  Behind-emit :
      (ev : Event) (cursor line : Bytes) (h : Host) (s : Scanned)
      → parse_entry unmarshal h line ≡ some (ev, cursor)
      → Behind s
      → Behind (emit unmarshal p ev cursor s)
  unfolding emit
  Behind-emit ev cursor line h s e b = elim (write_cursor-Replaces p cursor s.disk) [
    | replaced m l f ↦ at_entry ev cursor line h m e (IsEmitted-last ev s.emitted) l
    | as_before f ↦ elim b [
      | unmoved l ↦ unmoved (f p (ne_tmp_path p) ∙ l)
      | at_entry ev' cursor' line' h' m e' i l ↦
          at_entry ev' cursor' line' h' m e' (IsEmitted-still ev' s.emitted (ev ∷ []) i)
            (f p (ne_tmp_path p) ∙ l)
    ]
  ]

  scan-Behind : (lines : List Line) (s : Scanned) → Behind s → Behind (scan unmarshal p lines s)
  unfolding scan
  scan-Behind [] s b = b
  scan-Behind (line ∷ lines) s b = elim (List-cases (trim_space line.content)) [
    | inl e ↦ rw (e, scan) (scan-Behind lines s b)
    | inr (c, cs, e) ↦ elim (Option-cases (parse_entry unmarshal line.host line.content)) [
      | inl g ↦ rw (e, scan) (rw (g, scan) (scan-Behind lines s b))
      | inr ((ev, cursor), g) ↦ elim (Bool-cases line.cancelled) [
        | inl k ↦ rw (e, scan) (rw (g, scan) (rw (k, scan) b))
        | inr k ↦
            rw (e, scan)
              (rw (g, scan)
                (rw (k, scan)
                  (scan-Behind lines _ (Behind-emit ev cursor line.content line.host s g b))))
      ]
    ]
  ]

module _ (unmarshal : Bytes → Option Fields) (p : FilePath) where
  -- Whatever calls on the disk fail, and wherever the lines of the journal end: the cursor file is
  -- as it was when the collector started, or it holds, whole, the cursor of an entry whose event
  -- has gone out.
  scan-Cursor :
      (lines : List Line) (d : Disk)
      → Behind unmarshal p d.files (scan unmarshal p lines (record { emitted = []; disk = d }))
  scan-Cursor lines d =
      scan-Behind unmarshal p d.files lines (record { emitted = []; disk = d }) (unmoved refl)

  -- The event of a line: a blank line and a malformed entry have none.
  pub event_of : Line → Option Event
  event_of line = elim (trim_space line.content) [
    | [] ↦ none
    | _ ∷ _ ↦ elim (parse_entry unmarshal line.host line.content) [
      | none ↦ none
      | some (ev, _) ↦ some ev
    ]
  ]

  events_of : List Line → List Event
  unfolding event_of
  events_of [] = []
  events_of (line ∷ lines) = elim (event_of line) [
    | none ↦ events_of lines
    | some ev ↦ elim line.cancelled [ true ↦ [] | false ↦ ev ∷ events_of lines ]
  ]

  passed_over :
      (line : Line) (lines : List Line)
      → (trim_space line.content ≡ []) ⊎ (parse_entry unmarshal line.host line.content ≡ none)
      → events_of (line ∷ lines) ≡ events_of lines
  unfolding events_of event_of
  passed_over line lines h = ground (arith, h)

  goes_out :
      (line : Line) (lines : List Line) (c : ℕ) (cs : Bytes) (ev : Event) (cursor : Bytes)
      → trim_space line.content ≡ c ∷ cs
      → parse_entry unmarshal line.host line.content ≡ some (ev, cursor)
      → events_of (line ∷ lines) ≡ (if line.cancelled then [] else ev ∷ events_of lines)
  unfolding events_of event_of
  goes_out line lines c cs ev cursor e g = ground (arith, e, g)

  scan-events_of :
      (lines : List Line) (s : Scanned)
      → (scan unmarshal p lines s).emitted ≡ s.emitted ++ events_of lines
  unfolding scan emit events_of
  scan-events_of [] s = sym (append-nil s.emitted)
  scan-events_of (line ∷ lines) s = elim (List-cases (trim_space line.content)) [
    | inl e ↦ rw (passed_over line lines (inl e)) (rw (e, scan) (scan-events_of lines s))
    | inr (c, cs, e) ↦ elim (Option-cases (parse_entry unmarshal line.host line.content)) [
      | inl g ↦
          rw (passed_over line lines (inr g)) (rw (e, scan) (rw (g, scan) (scan-events_of lines s)))
      | inr ((ev, cursor), g) ↦
          rw (goes_out line lines c cs ev cursor e g) (elim (Bool-cases line.cancelled) [
            | inl k ↦ rw (e, scan) (rw (g, scan) (rw (k, scan) (sym (append-nil s.emitted))))
            | inr k ↦
                rw (e, scan)
                  (rw (g, scan)
                    (rw (k, scan)
                      (scan-events_of lines (emit unmarshal p ev cursor s)
                        ∙ append_assoc s.emitted (ev ∷ []) _)))
          ])
    ]
  ]

  -- The events that the collector sends out are those of the lines, in their order, up to the entry
  -- at which the shutdown comes: a blank line and a malformed entry have no event, and no failing
  -- call on the disk matters.
  scan-emitted :
      (lines : List Line) (d : Disk)
      → (scan unmarshal p lines (record { emitted = []; disk = d })).emitted ≡ events_of lines
  scan-emitted lines d = scan-events_of lines (record { emitted = []; disk = d })
