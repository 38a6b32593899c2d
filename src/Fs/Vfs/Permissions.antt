-- ===== src/Fs/Vfs/Permissions.antt =====
-- kernel/src/fs/vfs.rs: what the permission check admits, and which calls it stands before.
use Prim.Native.Nat.{bit_and}
use alaphi_os.Base.{ℕ, ◌≡◌, ◌↔◌, ◌≢◌, Bool, true, false, none, some, ok, ==_iff, arith}
use alaphi_os.Base.Map.{get}
use alaphi_os.Base.Bytes.{Bytes, bytes_key}
use alaphi_os.Fs.Overlay.{PermEntry, PermsDb, Rwx, can_read, can_write}
use alaphi_os.Fs.Access.{rwx_for, check_entry, check_perm}

-- The class of a caller, and the bits of that class alone.
pub data Class (entry : PermEntry) (uid gid : ℕ) : Rwx → Type 0 where
  owner : uid ≡ entry.uid → Class entry uid gid entry.owner_rwx
  group : uid ≢ entry.uid → gid ≡ entry.gid → Class entry uid gid entry.group_rwx
  world : uid ≢ entry.uid → gid ≢ entry.gid → Class entry uid gid entry.world_rwx

-- Reading takes bit 2, writing bit 1.
unfoldable pub Permits : Rwx → Bool → Type 0
Permits r true = bit_and r 2 ≢ 0
Permits r false = bit_and r 4 ≢ 0

Class-bits : (entry : PermEntry) (uid gid r : ℕ) → Class entry uid gid r → rwx_for entry uid gid ≡ r
unfolding rwx_for
Class-bits entry uid gid _ (owner e) = ground (arith, ==_iff uid entry.uid)
Class-bits entry uid gid _ (group e e') = ground (arith, ==_iff uid entry.uid, ==_iff gid entry.gid)
Class-bits entry uid gid _ (world e e') = ground (arith, ==_iff uid entry.uid, ==_iff gid entry.gid)

check_entry_iff :
    (entry : PermEntry) (uid gid : ℕ) (want_write : Bool)
    → (check_entry entry uid gid want_write ≡ ok tt) ↔ Permits (rwx_for entry uid gid) want_write
unfolding check_entry can_read can_write Permits
check_entry_iff entry uid gid true =
    let bits = ==_iff (bit_and (rwx_for entry uid gid) 2) 0 in (ground arith, ground arith)
check_entry_iff entry uid gid false =
    let bits = ==_iff (bit_and (rwx_for entry uid gid) 4) 0 in (ground arith, ground arith)

pub check_perm-eq-ok :
    (perms : PermsDb) (path : Bytes) (uid gid : ℕ) (want_write : Bool)
    → get path perms ≡ none
    → check_perm perms path uid gid want_write ≡ ok tt
unfolding check_perm
check_perm-eq-ok perms path uid gid want_write free = rw free ground arith

check_perm-check_entry :
    (perms : PermsDb) (path : Bytes) (entry : PermEntry) (uid gid : ℕ) (want_write : Bool)
    → get path perms ≡ some entry
    → uid ≢ 0
    → check_perm perms path uid gid want_write ≡ check_entry entry uid gid want_write
unfolding check_perm
check_perm-check_entry perms path entry uid gid want_write at nonroot =
    let root = ==_iff uid 0 in rw at ground arith

-- A caller that is not root, at a path with a recorded entry, passes the check exactly when the bits
-- of its own class (owner, else group, else world) permit the access. A class of more bits that the
-- caller also belongs to does not help.
pub check_perm_exact :
    (perms : PermsDb) (path : Bytes) (entry : PermEntry) (uid gid r : ℕ) (want_write : Bool)
    → get path perms ≡ some entry
    → uid ≢ 0
    → Class entry uid gid r
    → (check_perm perms path uid gid want_write ≡ ok tt) ↔ Permits r want_write
check_perm_exact perms path entry uid gid r want_write at nonroot c =
    rw
      (
        check_perm-check_entry perms path entry uid gid want_write at nonroot,
        ← Class-bits entry uid gid r c,
      )
      (check_entry_iff entry uid gid want_write)
