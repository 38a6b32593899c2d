-- ===== src/Fs/Vfs/Tests.antt =====
-- Runs of the file operations on a small volume.
use alaphi_os.Base.{ℕ, ◌≡◌, ◌↔◌, refl, true, false, none, some, [], ◌∷◌, ok, is_ok, length, arith}
use alaphi_os.Base.Map.{Map, get, insert, remove, nat_key}
use alaphi_os.Base.Bytes.{Bytes, bytes_key}
use alaphi_os.Fs.Overlay.{PermEntry}
use alaphi_os.Fs.Tables.{Fcb, alloc_for, alloc, table_or_new, new_table, open_fcb, new_fcb}
use alaphi_os.Fs.Volume.{LogicalFs, Fat, new, mount_disk, ◌>>=◌, state, fail_if, ok_or}
use alaphi_os.Fs.Access.{slash, to_fat_path, trim_slashes, check_perm, any}
use alaphi_os.Fs.Vfs.{open_path, claim, lock_fcb, mark_shared, case_conflict, disk_mut, require}
use alaphi_os.Fs.Vfs.Descriptors.{path_at, next_of}
use alaphi_os.Fs.Vfs.Histories.{
  Reachable, mounts, opens, starts, calls, descriptors_exclusive, Reachable-Exclusive,
}
use alaphi_os.Fs.Vfs.Permissions.{Permits, owner, check_perm_exact}
use alaphi_os.Fs.Vfs.Contention.{open_path_busy, open_path_alias}

-- A volume of files without directories.
abbrev volume : Fat (Map Bytes Bytes)
volume = record {
  open_file = λ d p. elim (get p d) [ none ↦ false | some bytes ↦ true ];
  seek_read = λ d p cursor len. (d, get p d);
  seek_write = λ d p cursor buf. (insert p buf d, true);
  file_size = λ d p. elim (get p d) [ none ↦ none | some bytes ↦ some (length bytes) ];
  open_dir = λ d p. none;
  create_file = λ d p. (insert p [] d, true);
  remove_entry = λ d p. (remove p d, true);
  rename_entry = λ d p q. (d, false);
  create_dir = λ d p. (d, false);
}

abbrev lower : Bytes → Bytes
lower p = p

-- "a" on the volume, "/a" and "//a" for the calls
abbrev fat_a : Bytes
fat_a = b'a' ∷ []

abbrev path_a : Bytes
path_a = slash ∷ fat_a

abbrev disk_a : Map Bytes Bytes
disk_a = (fat_a, 1 ∷ 2 ∷ []) ∷ []

-- Process 1 holds "/a" as descriptor 3.
abbrev held_a : LogicalFs (Map Bytes Bytes)
held_a = (open_path volume lower path_a 1 0 0 (mount_disk new disk_a)).0

held_a-Reachable : Reachable volume lower held_a
unfolding new mount_disk next_of table_or_new new_table
held_a-Reachable = calls _ _ (calls _ _ starts (mounts disk_a)) (opens path_a 1 0 0 (omega arith))

held_a_at : path_at held_a.fds 1 3 ≡ some path_a
unfolding open_path claim lock_fcb new mount_disk path_at state fail_if require check_perm ok_or
    disk_mut open_fcb new_fcb alloc_for alloc table_or_new new_table to_fat_path trim_slashes
    case_conflict any ◌>>=◌
held_a_at = refl

descriptors_exclusive_example : (◌≡◌ {A = ℕ} 1 1) × (◌≡◌ {A = ℕ} 3 3)
descriptors_exclusive_example =
    descriptors_exclusive volume lower held_a 1 3 1 3 path_a held_a-Reachable held_a_at held_a_at

open_path_busy_example : is_ok (open_path volume lower path_a 2 0 0 held_a).1 ≡ false
open_path_busy_example =
    open_path_busy volume lower held_a path_a 1 3 2 0 0
      (Reachable-Exclusive volume lower held_a held_a-Reachable) held_a_at

abbrev fcb_a : Fcb
fcb_a = record {
  path = path_a;
  cursor = 0;
  open_count = 1;
  dirty = false;
  locked_by = some 1;
  is_shared = true;
}

abbrev shared_a : LogicalFs (Map Bytes Bytes)
shared_a = (mark_shared path_a held_a).0

open_path_alias_example : is_ok (open_path volume lower (slash ∷ path_a) 2 9 9 held_a).1 ≡ true
unfolding open_path claim lock_fcb new mount_disk state fail_if require check_perm ok_or disk_mut
    open_fcb new_fcb alloc_for alloc table_or_new new_table to_fat_path trim_slashes case_conflict
    any ◌>>=◌
open_path_alias_example =
    open_path_alias volume lower held_a disk_a fat_a 2 9 9 refl refl refl refl refl

-- The owner may read, the group may write.
abbrev entry_a : PermEntry
entry_a = record { uid = 5; gid = 6; owner_rwx = 4; group_rwx = 6; world_rwx = 0 }

check_perm_exact_example :
    (check_perm ((path_a, entry_a) ∷ []) path_a 5 6 true ≡ ok tt) ↔ Permits 4 true
check_perm_exact_example =
    check_perm_exact ((path_a, entry_a) ∷ []) path_a entry_a 5 6 4 true refl (λ e. omega arith)
      (owner refl)
