-- ===== src/Tests.antt =====
-- The concrete data of the tests: a queue of two events, one file that does not parse, a platform.
pub mod Buffers
pub mod Consumer
pub mod Remote
pub mod Exchange
pub mod Host
pub mod Journal
pub mod Pipeline
pub mod Installer
pub mod Installing
pub mod Agents
use shadow_twin.Prelude.{
  ℕ, ◌≡◌, refl, ◌≢◌, ◌⊎◌, inl, inr, ap, Bytes, codes, Bool, true, false, Option, none, some, List,
  [], ◌∷◌, arith, nat_eq, bytes_eq, length, ◌==◌, if◌then◌else◌,
}
use shadow_twin.Prelude.Int.{pos, pos_part, neg_part}
use shadow_twin.Fs.{FilePath, path_eq, Node, file, Files, Disk, lookup, is_dir, size}
use shadow_twin.Fs.Laws.{weigh, weight_at}
use shadow_twin.Text.{has_suffix}
use shadow_twin.Collectors.Event.{Event}
use shadow_twin.Buffer.{Spool, Queue, Limits, Codec, at, is_pending}
use shadow_twin.Buffer.Tally.{Tally, pending_count, pending_bytes, count_weight, byte_weight}

abbrev pub event : Bytes → Event
event id = record {
  id = id;
  source = codes "auth.journald";
  timestamp = pos 7;
  collected_at = pos 9;
  host = codes "h";
  payload = [];
}

-- An event is stored as its identifier; a file that begins with the byte 0 does not parse.
abbrev parsed : Bytes → Option Event
parsed [] = none
parsed (c ∷ s) = if c == 0 then none else some (event (c ∷ s))

abbrev pub codec : Codec
codec = record { marshal = λ ev. some ev.id; unmarshal = parsed }

abbrev pub dir : Bytes
dir = codes "q"

abbrev pub files : Files
files =
    (at dir (codes "1.json"), file 0o600 (codes "a"))
    ∷ (at dir (codes "2.json"), file 0o600 (0 ∷ []))
    ∷ (at dir (codes "3.json"), file 0o600 (codes "b"))
    ∷ []

-- Three files, with room for three events.
abbrev pub spool : Spool
spool = record {
  queue = record {
    dir = dir;
    dead_dir = codes "q/dead";
    limits = record { max_events = 3; max_bytes = 0 };
    count = pos 3;
    bytes = pos 3;
    dropped = 0;
  };
  disk = record { files = files; faults = [] };
}

pub spool-Tally : Tally spool
unfolding pending_count pending_bytes weigh count_weight byte_weight is_pending is_dir size
    has_suffix nat_eq bytes_eq path_eq lookup
spool-Tally = record {
  unique = (refl, (refl, (refl, tt)));
  counted = refl;
  sized = omega arith;
  apart = λ e. omega (arith, ap length e);
}
