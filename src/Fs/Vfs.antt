-- ===== src/Fs/Vfs.antt =====
-- kernel/src/fs/vfs.rs: the operations of `LogicalFs` on files. `str::to_lowercase` is a parameter.
pub mod Contention
pub mod Descriptors
pub mod Exclusive
pub mod Histories
pub mod Steps
pub mod Locking
pub mod Permissions
mod Tests
use alaphi_os.Base.{
  ℕ, ◌+◌, ◌-◌, ◌%◌, ◌^◌, Option, Bool, true, false, not, ◌&&◌, none, some, ◌==◌, if◌then◌else◌,
  Result, ok, err, is_some, length,
}
use alaphi_os.Base.Map.{get, insert, remove, keys, nat_key}
use alaphi_os.Base.Bytes.{Bytes, bytes_eq, bytes_key}
use alaphi_os.Fs.Tables.{Fcb, FcbTable, open_fcb, alloc_for, get_for, remove_for}
use alaphi_os.Fs.Volume.{
  FsError, not_found, already_exists, locked, is_shared, not_open, invalid_path, not_mounted, Fat,
  LogicalFs, M, ◌>>=◌, ◌>>◌, pure, fail_if, ok_or, state,
}
use alaphi_os.Fs.Access.{to_fat_path, any, check_perm}

-- `self.check_perm(…)?`
unfoldable pub require : {D A : Type 0} → Result A FsError → M D A
require r s = (s, r)

-- `table_for(pid).get(fd)…ok_or(NotOpen)?`
unfoldable pub path_of : {D : Type 0} → ℕ → ℕ → M D Bytes
path_of fd pid s = let (p, fds) = get_for s.fds pid fd in ok_or p not_open (record s { fds = fds })

-- `self.fcbs.get_mut(&path).ok_or(NotOpen)?`
unfoldable pub fcb_of : {D : Type 0} → Bytes → M D Fcb
fcb_of path s = ok_or (get path s.fcbs) not_open s

-- a write through the `&mut Fcb`
unfoldable pub write_fcb : {D : Type 0} → Bytes → Fcb → M D (Unit {0})
write_fcb path fcb s = (record s { fcbs = insert path fcb s.fcbs }, ok tt)

unfoldable pub disk_mut : {D : Type 0} → M D D
disk_mut s = ok_or s.disk not_mounted s

unfoldable pub put_disk : {D : Type 0} → D → M D (Unit {0})
put_disk d s = (record s { disk = some d }, ok tt)

-- the end of `delete`
unfoldable pub forget : {D : Type 0} → Bytes → M D (Unit {0})
forget path s = (record s { fcbs = remove path s.fcbs; perms = remove path s.perms }, ok tt)

-- the end of `open` and of `create`, on the block that `FcbTable::open` gives: it is locked and
-- counted, and gets a descriptor
unfoldable pub lock_fcb : {D : Type 0} → Bytes → ℕ → Fcb → M D ℕ
lock_fcb path pid fcb s =
    let fcbs = insert path fcb s.fcbs in
    if is_some fcb.locked_by
    then (record s { fcbs = fcbs }, err locked)
    else let (fd, fds) = alloc_for s.fds pid path in
      (
        record s {
          fcbs =
              insert path
                (record fcb { locked_by = some pid; open_count = (fcb.open_count + 1) % 2 ^ 32 })
                fcbs;
          fds = fds;
        },
        ok fd,
      )

unfoldable pub claim : {D : Type 0} → Bytes → ℕ → M D ℕ
claim path pid s = lock_fcb path pid (open_fcb path (get path s.fcbs)) s

-- `close` once the descriptor is gone, on the block of its path
unfoldable pub drop_fcb : {D : Type 0} → Bytes → ℕ → Option Fcb → LogicalFs D → LogicalFs D
drop_fcb path pid none s = s
drop_fcb path pid (some fcb) s =
    let count = fcb.open_count - 1 in
    let mine : Bool = elim fcb.locked_by [ none ↦ false | some p ↦ p == pid ] in
    let fcb' = record fcb {
      open_count = count;
      locked_by = if mine then none else fcb.locked_by;
    } in
    if count == 0
    then record s { fcbs = remove path (insert path fcb' s.fcbs) }
    else record s { fcbs = insert path fcb' s.fcbs }

unfoldable pub release : {D : Type 0} → Bytes → ℕ → LogicalFs D → LogicalFs D
release path pid s = drop_fcb path pid (get path s.fcbs) s

unfoldable pub close : {D : Type 0} → ℕ → ℕ → M D (Unit {0})
close fd pid s =
    let (p, fds) = remove_for s.fds pid fd in
    let s' = record s { fds = fds } in
    elim p [ none ↦ (s', err not_open) | some path ↦ (release path pid s', ok tt) ]

unfoldable pub seek : {D : Type 0} → ℕ → ℕ → ℕ → M D (Unit {0})
seek fd pid offset = do
  path ← path_of fd pid
  fcb ← fcb_of path
  write_fcb path (record fcb { cursor = offset })

unfoldable pub mark_shared : {D : Type 0} → Bytes → M D (Unit {0})
mark_shared path s = elim (get path s.fcbs) [
  | none ↦ (s, err not_found)
  | some fcb ↦ write_fcb path (record fcb { is_shared = true }) s
]

unfoldable pub chmod : {D : Type 0} → Bytes → ℕ → ℕ → ℕ → M D (Unit {0})
chmod path owner group world s = elim (get path s.perms) [
  | none ↦ (s, ok tt)
  | some entry ↦ (
    record s {
      perms =
          insert path (record entry { owner_rwx = owner; group_rwx = group; world_rwx = world })
            s.perms;
    },
    ok tt,
  )
]

-- `if let Some(fcb) = self.fcbs.get_mut(path) { if fcb.is_shared { return Err(IsShared) } }`
unfoldable pub shared_at : FcbTable → Bytes → Bool
shared_at fcbs path = elim (get path fcbs) [ none ↦ false | some fcb ↦ fcb.is_shared ]

module _ {D : Type 0} (fat : Fat D) (lower : Bytes → Bytes) where
  unfoldable pub case_conflict : LogicalFs D → Bytes → Bool
  case_conflict s path =
      any (λ p. not (bytes_eq p path) && bytes_eq (lower p) (lower path)) (keys s.fcbs)

  unfoldable pub open_path : Bytes → ℕ → ℕ → ℕ → M D ℕ
  open_path path pid uid gid = do
    s ← state
    fail_if (case_conflict s path) already_exists
    require (check_perm s.perms path uid gid false)
    fat_path ← ok_or (to_fat_path path) invalid_path
    d ← disk_mut
    fail_if (not (fat.open_file d fat_path)) not_found
    claim path pid

  unfoldable pub create : Bytes → ℕ → M D ℕ
  create path pid = do
    s ← state
    fail_if (case_conflict s path) already_exists
    fat_path ← ok_or (to_fat_path path) invalid_path
    d ← disk_mut
    let made = fat.create_file d fat_path
    put_disk made.0
    fail_if (not made.1) invalid_path
    claim path pid

  -- The bytes read, which the caller's buffer takes.
  unfoldable pub read : ℕ → ℕ → ℕ → ℕ → ℕ → M D Bytes
  read fd pid uid gid len = do
    path ← path_of fd pid
    s ← state
    require (check_perm s.perms path uid gid false)
    fcb ← fcb_of path
    fat_path ← ok_or (to_fat_path path) invalid_path
    d ← disk_mut
    fail_if (not (fat.open_file d fat_path)) not_found
    let got = fat.seek_read d fat_path fcb.cursor len
    put_disk got.0
    bytes ← ok_or got.1 invalid_path
    write_fcb path (record fcb { cursor = (fcb.cursor + length bytes) % 2 ^ 64 })
    pure bytes

  unfoldable pub write : ℕ → ℕ → ℕ → ℕ → Bytes → M D ℕ
  write fd pid uid gid buf = do
    path ← path_of fd pid
    fcb ← fcb_of path
    fail_if fcb.is_shared is_shared
    s ← state
    require (check_perm s.perms path uid gid true)
    fat_path ← ok_or (to_fat_path path) invalid_path
    d ← disk_mut
    fail_if (not (fat.open_file d fat_path)) not_found
    let done = fat.seek_write d fat_path fcb.cursor buf
    put_disk done.0
    fail_if (not done.1) invalid_path
    write_fcb path (record fcb { cursor = (fcb.cursor + length buf) % 2 ^ 64; dirty = true })
    pure (length buf)

  unfoldable pub delete : Bytes → M D (Unit {0})
  delete path = do
    s ← state
    fail_if (shared_at s.fcbs path) is_shared
    fat_path ← ok_or (to_fat_path path) invalid_path
    d ← disk_mut
    let gone = fat.remove_entry d fat_path
    put_disk gone.0
    fail_if (not gone.1) not_found
    forget path

  unfoldable pub rename : Bytes → Bytes → M D (Unit {0})
  rename old new = do
    s ← state
    fail_if (case_conflict s new) already_exists
    fail_if (shared_at s.fcbs old) is_shared
    old_fat ← ok_or (to_fat_path old) invalid_path
    new_fat ← ok_or (to_fat_path new) invalid_path
    d ← disk_mut
    let moved = fat.rename_entry d old_fat new_fat
    put_disk moved.0
    fail_if (not moved.1) not_found

  unfoldable pub mkdir : Bytes → M D (Unit {0})
  mkdir path = do
    s ← state
    fail_if (case_conflict s path) already_exists
    fat_path ← ok_or (to_fat_path path) invalid_path
    d ← disk_mut
    let made = fat.create_dir d fat_path
    put_disk made.0
    fail_if (not made.1) already_exists
