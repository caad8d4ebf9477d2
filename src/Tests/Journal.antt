-- ===== src/Tests/Journal.antt =====
-- The collector of the journal on three lines.
use shadow_twin.Prelude.{
  ◌≡◌, refl, Bytes, codes, false, Option, some, List, [], ◌∷◌, nat_eq, bytes_eq,
}
use shadow_twin.Prelude.Int.{pos}
use shadow_twin.Text.{
  trim_space, trim_left_space, trim_right_space, is_one_space, space_width, is_space, is_space2,
  is_space3,
}
use shadow_twin.Fs.{FilePath, path_eq, Disk, refused}
use shadow_twin.Auth.{cursor_path}
use shadow_twin.Auth.Entry.{Fields, text}
use shadow_twin.Auth.Scan.{Line}

abbrev pub cursor_file : FilePath
cursor_file = cursor_path (codes "s")

-- The first write is refused.
abbrev pub disk : Disk
disk = record { files = []; faults = some refused ∷ [] }

abbrev pub unmarshal : Bytes → Option Fields
unmarshal b =
    some ((codes "__CURSOR", text b) ∷ (codes "__REALTIME_TIMESTAMP", text (codes "12")) ∷ [])

abbrev pub line : Bytes → Line
line b = record {
  content = b;
  host = record { id = b; now = pos 1; host = codes "h" };
  cancelled = false;
}

abbrev pub journal : List Line
journal = line (codes "a") ∷ line (codes " ") ∷ line (codes "b") ∷ []

pub a_trimmed : trim_space (codes "a") ≡ codes "a"
unfolding trim_space trim_left_space trim_right_space is_one_space space_width is_space is_space2
    is_space3 nat_eq
a_trimmed = refl
