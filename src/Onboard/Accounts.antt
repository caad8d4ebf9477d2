-- ===== src/Onboard/Accounts.antt =====
-- cmd/agent/onboard.go: the service account.
use shadow_twin.Prelude.{
  Bytes, codes, Bool, true, false, ◌||◌, Option, none, some, List, [], ◌∷◌, ◌==◌, bytes_eq,
  if◌then◌else◌,
}
use shadow_twin.Fs.{FilePath, Disk}
use shadow_twin.Onboard.{file_exists}

-- nologinShell; `locate` finds the file that a path names.
unfoldable pub first_there : (Bytes → FilePath) → List Bytes → Disk → Bytes × Disk
first_there locate [] d = (codes "/bin/false", d)
first_there locate (p ∷ ps) d =
    let (there, d1) = file_exists (locate p) d in
    elim there [ true ↦ (p, d1) | false ↦ first_there locate ps d1 ]

unfoldable pub nologin_shell : (Bytes → FilePath) → Disk → Bytes × Disk
nologin_shell locate d =
    first_there locate (codes "/usr/sbin/nologin" ∷ codes "/sbin/nologin" ∷ codes "/bin/false" ∷ [])
      d

-- What packages os/user and os/exec know of the host; `group_ids` fails for a user that is not there.
pub record Users : Type 0 where
  pub user_exists : Bytes → Bool
  pub group_ids : Bytes → Option (List Bytes)
  pub group_id : Bytes → Option Bytes
  pub command_exists : Bytes → Bool

-- userInGroup
unfoldable pub is_among : Bytes → List Bytes → Bool
is_among gid [] = false
is_among gid (id ∷ ids) = id == gid || is_among gid ids

unfoldable pub user_in_group : Users → Bytes → Bytes → Bool
user_in_group u user_name group = elim (u.group_ids user_name) [
  | none ↦ false
  | some ids ↦ elim (u.group_id group) [ none ↦ false | some gid ↦ is_among gid ids ]
]

-- ensureUser and ensureUserInGroup: the command that they run, or why they run none.
pub data Setup : Type 0 where
  nothing_to_do : Setup
  missing_tool : Bytes → Setup
  missing_group : Bytes → Setup
  command : List Bytes → Setup

unfoldable pub ensure_user : Users → Bytes → Bytes → Setup
ensure_user u shell user_name =
    if u.user_exists user_name
    then nothing_to_do
    else if u.command_exists (codes "useradd")
    then command (
        codes "useradd"
        ∷ codes "--system"
        ∷ codes "--no-create-home"
        ∷ codes "--shell"
        ∷ shell
        ∷ user_name
        ∷ [])
    else missing_tool (codes "useradd")

unfoldable pub ensure_user_in_group : Users → Bytes → Bytes → Setup
ensure_user_in_group u user_name group = elim (u.group_id group) [
  | none ↦ missing_group group
  | some _ ↦
      if u.command_exists (codes "usermod")
      then command (codes "usermod" ∷ codes "-aG" ∷ group ∷ user_name ∷ [])
      else missing_tool (codes "usermod")
]
