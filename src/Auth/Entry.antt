-- ===== src/Auth/Entry.antt =====
-- internal/collectors/auth/parse.go: an entry of the journal as an event.
use shadow_twin.Prelude.{
  ℕ, ◌+◌, ◌-◌, ◌*◌, ◌^◌, zero, suc, ◌>>=◌, Bytes, codes, ◌&&◌, Option, none, some, List, [], ◌∷◌,
  ◌==◌, nat_eq, bytes_eq, leb, ltb, if◌then◌else◌,
}
use shadow_twin.Prelude.Int.{ℤ, pos, negsuc}
use shadow_twin.Collectors.Event.{Event, Time, new_event}
use shadow_twin.Auth.{name}

-- A value of the JSON object: a text, or something that the collector skips.
pub data Json : Type 0 where
  text : Bytes → Json
  other : Json

abbrev pub Fields : Type 0
Fields = List (Bytes × Json)

unfoldable pub field : Bytes → Fields → Option Json
field key [] = none
field key ((k, v) ∷ fields) = if key == k then some v else field key fields

-- stringField
unfoldable pub string_field : Fields → Bytes → Bytes
unfolding field
string_field fields key = elim (field key fields) [
  | none ↦ []
  | some other ↦ []
  | some (text v) ↦ v
]

-- journalFieldMap
abbrev pub journal_field_map : List (Bytes × Bytes)
journal_field_map =
    (codes "MESSAGE", codes "message")
    ∷ (codes "PRIORITY", codes "priority")
    ∷ (codes "SYSLOG_FACILITY", codes "syslog_facility")
    ∷ (codes "SYSLOG_IDENTIFIER", codes "syslog_identifier")
    ∷ (codes "_COMM", codes "comm")
    ∷ (codes "_EXE", codes "exe")
    ∷ (codes "_PID", codes "pid")
    ∷ (codes "_UID", codes "uid")
    ∷ (codes "_SYSTEMD_UNIT", codes "systemd_unit")
    ∷ (codes "_HOSTNAME", codes "source_hostname")
    ∷ (codes "_TRANSPORT", codes "transport")
    ∷ (codes "_BOOT_ID", codes "boot_id")
    ∷ []

-- The loop of buildPayload. The order in which Go walks the map does not matter to the payload,
-- which is a map too.
unfoldable pub payload_of : Fields → List (Bytes × Bytes) → List (Bytes × Bytes)
payload_of fields [] = []
payload_of fields ((journal_key, out_key) ∷ keys) =
    let v = string_field fields journal_key in
    let rest = payload_of fields keys in if v == [] then rest else (out_key, v) ∷ rest

-- buildPayload
unfoldable pub build_payload : Fields → List (Bytes × Bytes)
build_payload fields = payload_of fields journal_field_map

-- The digits of strconv.ParseInt in base 10.
unfoldable pub digits : ℕ → Bytes → Option ℕ
digits n [] = some n
digits n (c ∷ s) =
    let rest = digits (n * 10 + (c - b'0')) s in if leb b'0' c && leb c b'9' then rest else none

unfoldable pub unsigned : Bytes → Option ℕ
unfolding digits
unsigned [] = none
unsigned (c ∷ s) = digits 0 (c ∷ s)

-- The number with its sign, in the range of an int64.
abbrev pub positive : Option ℕ → Option ℤ
positive none = none
positive (some n) = if ltb n (2 ^ 63) then some (pos n) else none

abbrev pub negative : Option ℕ → Option ℤ
negative none = none
negative (some zero) = some (pos 0)
negative (some (suc n)) = if ltb n (2 ^ 63) then some (negsuc n) else none

unfoldable pub parse_int : Bytes → Option ℤ
parse_int [] = none
parse_int (c ∷ s) =
    if c == b'-'
    then negative (unsigned s)
    else if c == b'+'
    then positive (unsigned s)
    else positive (unsigned (c ∷ s))

-- time.UnixMicro, in nanoseconds.
unfoldable pub unix_micro : ℤ → Time
unix_micro (pos n) = pos (n * 1000)
unix_micro (negsuc n) = negsuc (n * 1000 + 999)

-- parseRealtime
unfoldable pub parse_realtime : Bytes → Option Time
parse_realtime s = do micros ← parse_int s; some (unix_micro micros)

-- What NewEvent reads of the host: a new identifier, the clock and the host's name.
pub record Host : Type 0 where
  pub id : Bytes
  pub now : Time
  pub host : Bytes

-- parseEntry, on the object that json.Unmarshal gives.
unfoldable pub parse_fields : Host → Fields → Option (Event × Bytes)
parse_fields h fields =
    let cursor = string_field fields (codes "__CURSOR") in
    if cursor == []
    then none
    else elim (parse_realtime (string_field fields (codes "__REALTIME_TIMESTAMP"))) [
      | none ↦ none
      | some ts ↦ some (new_event h.id h.now h.host name ts (build_payload fields), cursor)
    ]

-- parseEntry
unfoldable pub parse_entry : (Bytes → Option Fields) → Host → Bytes → Option (Event × Bytes)
parse_entry unmarshal h line = do fields ← unmarshal line; parse_fields h fields
