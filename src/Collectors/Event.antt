-- ===== src/Collectors/Event.antt =====
-- internal/collectors/event.go
use shadow_twin.Prelude.{Bytes, List, Option, none, some, ◌==◌, bytes_eq, codes, [], if◌then◌else◌}
use shadow_twin.Prelude.Int.{ℤ}

-- A time.Time in nanoseconds since the Unix epoch, in UTC.
abbrev pub Time : Type 0
Time = ℤ

-- A payload holds strings alone: no collector puts another value into it.
pub record Event : Type 0 where
  pub id : Bytes
  pub source : Bytes
  pub timestamp : Time
  pub collected_at : Time
  pub host : Bytes
  pub payload : List (Bytes × Bytes)

-- os.Hostname fails with `none`.
unfoldable pub resolve_hostname : Option Bytes → Bytes
resolve_hostname none = codes "unknown"
resolve_hostname (some h) = if h == [] then codes "unknown" else h

-- The identifier and the clock are read by the caller: newUUID() and time.Now().
unfoldable pub new_event : Bytes → Time → Bytes → Bytes → Time → List (Bytes × Bytes) → Event
new_event id now host source ts payload = record {
  id = id;
  source = source;
  timestamp = ts;
  collected_at = now;
  host = host;
  payload = payload;
}
