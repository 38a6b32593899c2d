-- ===== src/Syscall/Paths.antt =====
-- kernel/src/syscall/dispatch.rs: the calls on paths. The volume and `str::to_lowercase` are
-- parameters.
use Prim.Native.Nat.{bit_and}
use alaphi_os.Base.{
  ℕ, zero, suc, ◌+◌, ◌-◌, ◌/◌, ◌%◌, ◌^◌, Bool, true, false, Option, none, some, List, [], ◌∷◌, ◌++◌,
  min, length, take, replicate, if◌then◌else◌, ◌==◌, flat, map,
}
use alaphi_os.Base.Map.{get, insert}
use alaphi_os.Base.Bytes.{Bytes, bytes_key}
use alaphi_os.Fs.Directories
use alaphi_os.Fs.Overlay.{PermEntry}
use alaphi_os.Fs.Vfs
use alaphi_os.Fs.Volume.{LogicalFs, Fat}
use alaphi_os.Syscall.{Args, Call, answer, copy_to, str_from_user, is_bad_buffer}
use alaphi_os.Syscall.Errno.{pos, efault, as_isize}
use alaphi_os.Syscall.Files.{on_fs, zero_for, with_path}

-- `bits as u8`, shifted and masked
unfoldable pub sys_chmod : {D : Type 0} → Args → Call D
sys_chmod a = with_path a.arg0 a.arg1 λ p.
    let bits = a.arg2 % 256 in
    on_fs (Vfs.chmod p (bit_and (bits / 64) 7) (bit_and (bits / 8) 7) (bit_and bits 7)) zero_for

-- the entry that `chown` leaves
unfoldable pub owned : ℕ → ℕ → Option PermEntry → PermEntry
owned uid gid none = record { uid = uid; gid = gid; owner_rwx = 7; group_rwx = 5; world_rwx = 5 }
owned uid gid (some entry) = record entry { uid = uid; gid = gid }

unfoldable pub chown : {D : Type 0} → Bytes → ℕ → ℕ → LogicalFs D → LogicalFs D
chown p uid gid s = record s { perms = insert p (owned uid gid (get p s.perms)) s.perms }

unfoldable pub sys_chown : {D : Type 0} → Args → Call D
sys_chown a =
    with_path a.arg0 a.arg1
      λ p k. answer (pos 0) (record k { fs = chown p (a.arg2 % 2 ^ 32) (a.arg3 % 2 ^ 32) k.fs })

unfoldable pub sys_mark_shared : {D : Type 0} → Args → Call D
sys_mark_shared a = with_path a.arg0 a.arg1 λ p. on_fs (Vfs.mark_shared p) zero_for

abbrev pub name_max : ℕ
name_max = 64

abbrev pub record_size : ℕ
record_size = name_max + 1

unfoldable pub byte_of : Bool → ℕ
byte_of true = 1
byte_of false = 0

-- a record of `SYS_GETDENTS`: the name cut or filled to 64 bytes, and the kind
unfoldable pub dirent : Bytes × Bool → Bytes
dirent (name, is_dir) =
    let copy_len = min (length name) name_max in
    take copy_len name ++ replicate (name_max - copy_len) 0 ++ byte_of is_dir ∷ []

unfoldable pub dirents : List (Bytes × Bool) → Bytes
dirents entries = flat (map dirent entries)

-- the `n` bytes of a number, the lowest first
unfoldable pub le_bytes : ℕ → ℕ → Bytes
le_bytes zero a = []
le_bytes (suc n) a = a % 256 ∷ le_bytes n (a / 256)

-- `Stat` as it lies in memory (`repr(C)`), with the four bytes that fill it up to its alignment
unfoldable pub stat_bytes : Bytes → Directories.Stat → Bytes
stat_bytes padding s =
    le_bytes 8 s.size
    ++ (byte_of s.is_dir ∷ s.owner_rwx ∷ s.group_rwx ∷ s.world_rwx ∷ [])
    ++ le_bytes 4 s.uid
    ++ le_bytes 4 s.gid
    ++ take 4 padding

module _ {D : Type 0} (fat : Fat D) (lower : Bytes → Bytes) where
  unfoldable pub sys_delete : Args → Call D
  sys_delete a = with_path a.arg0 a.arg1 λ p. on_fs (Vfs.delete fat lower p) zero_for

  unfoldable pub sys_mkdir : Args → Call D
  sys_mkdir a = with_path a.arg0 a.arg1 λ p. on_fs (Vfs.mkdir fat lower p) zero_for

  unfoldable pub rename_pair : Option Bytes → Option Bytes → Call D
  rename_pair (some old) (some new) = on_fs (Vfs.rename fat lower old new) zero_for
  rename_pair _ _ = answer efault

  unfoldable pub sys_rename : Args → Call D
  sys_rename a k =
      rename_pair (str_from_user k.memory a.arg0 a.arg1) (str_from_user k.memory a.arg2 a.arg3) k

  -- As many records as the buffer holds.
  unfoldable pub fill : ℕ → ℕ → List (Bytes × Bool) → Call D
  fill ptr len entries k =
      let n = min (length entries) (len / record_size) in
      answer (as_isize n) (record k { memory = copy_to k.memory ptr (dirents (take n entries)) })

  unfoldable pub list_into : ℕ → ℕ → Bytes → Call D
  list_into ptr len p =
      if is_bad_buffer ptr len
      then answer efault
      else on_fs (Directories.getdents fat p) (fill ptr len)

  unfoldable pub sys_getdents : Args → Call D
  sys_getdents a = with_path a.arg0 a.arg1 (list_into a.arg2 a.arg3)

  -- `write_to_user`; what the padding holds is not defined.
  unfoldable pub sys_stat : Bytes → Args → Call D
  sys_stat padding a = with_path a.arg0 a.arg1 λ p.
      if a.arg2 == 0
      then answer efault
      else on_fs (Directories.stat fat p) λ s k.
        answer (pos 0) (record k { memory = copy_to k.memory a.arg2 (stat_bytes padding s) })
