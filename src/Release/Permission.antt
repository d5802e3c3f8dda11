-- ===== src/Release/Permission.antt =====
-- internal/util/file.go: `SetFilePermission`.
pub mod Octal
mod Tests
use bscp_go.Prelude.{
  ℕ, ◌+◌, ◌-◌, ◌*◌, ◌/◌, ◌%◌, ◌^◌, Bool, not, ◌||◌, Option, none, some, [], ◌∷◌, ltb, leb, ◌==◌,
  if◌then◌else◌, Text,
}

-- The digits of `strconv.ParseInt` in base 8, with the value that was read; `none` for another character
-- or a value above the largest int64.
pub octal_digits : Text → ℕ → Option ℕ
octal_digits [] value = some value
octal_digits (c ∷ s) value =
    let rest = octal_digits s (8 * value + (c - b'0')) in
    if ltb c b'0' || ltb b'7' c || leb (2 ^ 63) (8 * value + (c - b'0')) then none else rest

-- `ParseInt("0" + privilege, 8, 64)`
pub parse_privilege : Text → Option ℕ
parse_privilege privilege = octal_digits (b'0' ∷ privilege) 0

-- How the other calls go: the open, the two changes, and the ids that are looked up and read as numbers.
pub record Calls : Type 0 where
  pub opens : Bool
  pub chmod_ok : Bool
  pub user_id : Option ℕ
  pub group_id : Option ℕ
  pub chown_ok : Bool

pub data PermissionErr : Type 0 where
  open_failed parse_failed chmod_failed user_failed group_failed chown_failed : PermissionErr

-- The mode and the owner of the file, as far as they were set.
pub record Mode : Type 0 where
  pub mode : Option ℕ
  pub owner : Option (ℕ × ℕ)

-- `SetFilePermission` from the change of the owner on.
pub set_owner : Calls → Mode → Option PermissionErr × Mode
set_owner c m = elim c.user_id [
  | none ↦ (some user_failed, m)
  | some uid ↦ elim c.group_id [
    | none ↦ (some group_failed, m)
    | some gid ↦
        if c.chown_ok then (none, record m { owner = some (uid, gid) }) else (some chown_failed, m)
  ]
]

-- `os.FileMode(mode)` and the bits that `Chmod` gives to the system: the nine bits of the permission, and
-- Go's `ModeSetuid`, `ModeSetgid` and `ModeSticky`, which are other bits than the system's.
pub syscall_mode : ℕ → ℕ
syscall_mode mode =
    mode % 512
    + (if mode / 2 ^ 23 % 2 == 1 then 2048 else 0)
    + (if mode / 2 ^ 22 % 2 == 1 then 1024 else 0)
    + (if mode / 2 ^ 20 % 2 == 1 then 512 else 0)

-- `SetFilePermission`
pub set_file_permission : Calls → Text → Mode → Option PermissionErr × Mode
unfolding syscall_mode
set_file_permission c privilege m =
    if not c.opens then (some open_failed, m) else elim (parse_privilege privilege) [
      | none ↦ (some parse_failed, m)
      | some mode ↦
          if not c.chmod_ok
          then (some chmod_failed, m)
          else set_owner c (record m { mode = some (syscall_mode (mode % 2 ^ 32)) })
    ]
