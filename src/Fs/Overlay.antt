-- ===== src/Fs/Overlay.antt =====
-- kernel/src/fs/overlay.rs: permission records and password hashes kept beside the FAT volume. The
-- hash function is a parameter.
use Prim.Native.Nat.{bit_and}
use alaphi_os.Base.{ℕ, Bool, false, none, some, ◌++◌, not, ◌==◌, replicate}
use alaphi_os.Base.Map.{Map, get, insert, nat_key}
use alaphi_os.Base.Bytes.{Bytes, bytes_eq, bytes_key}

-- `Rwx(u8)`
abbrev pub Rwx : Type 0
Rwx = ℕ

unfoldable pub can_read : Rwx → Bool
can_read r = not (bit_and r 4 == 0)

unfoldable pub can_write : Rwx → Bool
can_write r = not (bit_and r 2 == 0)

pub record PermEntry : Type 0 where
  pub uid : ℕ
  pub gid : ℕ
  pub owner_rwx : Rwx
  pub group_rwx : Rwx
  pub world_rwx : Rwx

abbrev pub PermsDb : Type 0
PermsDb = Map Bytes PermEntry

pub record AuthEntry : Type 0 where
  pub uid : ℕ
  pub salt : Bytes
  pub hash : Bytes

abbrev pub AuthDb : Type 0
AuthDb = Map ℕ AuthEntry

module _ (sha256 : Bytes → Bytes) where
  unfoldable pub new_auth : ℕ → Bytes → AuthEntry
  new_auth uid password =
      let salt = replicate 16 0 in
      record { uid = uid; salt = salt; hash = sha256 (salt ++ password) }

  unfoldable pub verify : AuthDb → ℕ → Bytes → Bool
  verify db uid password = elim (get uid db) [
    | none ↦ false
    | some entry ↦ bytes_eq (sha256 (entry.salt ++ password)) entry.hash
  ]

unfoldable pub insert_auth : AuthEntry → AuthDb → AuthDb
insert_auth entry db = insert entry.uid entry db
