-- ===== src/Fs/Access.antt =====
-- kernel/src/fs/vfs.rs: paths on the volume and the permission check.
use alaphi_os.Base.{
  ℕ, Bool, false, not, ◌&&◌, ◌||◌, Option, none, some, List, [], ◌∷◌, ◌==◌, if◌then◌else◌, Result,
  ok, err,
}
use alaphi_os.Base.Map.{get, nat_key}
use alaphi_os.Base.Bytes.{Bytes, bytes_key}
use alaphi_os.Fs.Overlay.{PermEntry, PermsDb, Rwx, can_read, can_write}
use alaphi_os.Fs.Volume.{FsError, permission_denied}

abbrev pub slash : ℕ
slash = b'/'

-- `trim_start_matches('/')`
unfoldable pub trim_slashes : Bytes → Bytes
trim_slashes [] = []
trim_slashes (c ∷ p) = let rest = trim_slashes p in if c == slash then rest else c ∷ p

unfoldable pub to_fat_path : Bytes → Option Bytes
to_fat_path [] = none
to_fat_path (c ∷ p) = if c == slash then some (trim_slashes p) else none

unfoldable pub any : {A : Type 0} → (A → Bool) → List A → Bool
any p [] = false
any p (x ∷ xs) = p x || any p xs

unfoldable pub rwx_for : PermEntry → ℕ → ℕ → Rwx
rwx_for entry uid gid =
    if uid == entry.uid
    then entry.owner_rwx
    else (if gid == entry.gid then entry.group_rwx else entry.world_rwx)

unfoldable pub check_entry : PermEntry → ℕ → ℕ → Bool → Result (Unit {0}) FsError
check_entry entry uid gid want_write =
    let rwx = rwx_for entry uid gid in
    if want_write && not (can_write rwx)
    then err permission_denied
    else (if not want_write && not (can_read rwx) then err permission_denied else ok tt)

unfoldable pub check_perm : PermsDb → Bytes → ℕ → ℕ → Bool → Result (Unit {0}) FsError
check_perm perms path uid gid want_write =
    if uid == 0
    then ok tt
    else elim (get path perms) [ none ↦ ok tt | some entry ↦ check_entry entry uid gid want_write ]
