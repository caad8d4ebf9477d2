-- ===== src/Auth/Scan.antt =====
-- internal/collectors/auth/auth.go: the loop over the journal's lines.
pub mod Cursor
use shadow_twin.Prelude.{
  Bytes, Bool, true, false, Option, none, some, List, [], ◌∷◌, ◌++◌, ◌==◌, bytes_eq, if◌then◌else◌,
}
use shadow_twin.Text.{trim_space}
use shadow_twin.Fs.{FilePath, Disk}
use shadow_twin.Collectors.Event.{Event}
use shadow_twin.Auth.{write_cursor}
use shadow_twin.Auth.Entry.{Host, Fields, parse_entry}

-- A line of the journal, what NewEvent would read at that moment, and whether the shutdown comes
-- before the channel takes the event.
pub record Line : Type 0 where
  pub content : Bytes
  pub host : Host
  pub cancelled : Bool

-- The events that went into the channel, in their order, and the disk.
pub record Scanned : Type 0 where
  pub emitted : List Event
  pub disk : Disk

module _ (unmarshal : Bytes → Option Fields) (cursor_file : FilePath) where
  -- A line that is an entry: its event goes out first, and its cursor is stored then.
  unfoldable pub emit : Event → Bytes → Scanned → Scanned
  emit ev cursor s = record {
    emitted = s.emitted ++ ev ∷ [];
    disk = (write_cursor cursor_file cursor s.disk).1;
  }

  -- scan; an error of the scanner ends the list.
  unfoldable pub scan : List Line → Scanned → Scanned
  scan [] s = s
  scan (line ∷ lines) s = elim (trim_space line.content) [
    | [] ↦ scan lines s
    | _ ∷ _ ↦ elim (parse_entry unmarshal line.host line.content) [
      | none ↦ scan lines s
      | some (ev, cursor) ↦ elim line.cancelled [ true ↦ s | false ↦ scan lines (emit ev cursor s) ]
    ]
  ]
