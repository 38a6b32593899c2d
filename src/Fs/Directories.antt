-- ===== src/Fs/Directories.antt =====
-- kernel/src/fs/vfs.rs: directories and metadata.
use alaphi_os.Base.{
  ℕ, Bool, true, false, ◌||◌, Option, none, some, List, [], ◌∷◌, if◌then◌else◌, Result, ok, err,
  is_some,
}
use alaphi_os.Base.Map.{get, nat_key}
use alaphi_os.Base.Bytes.{Bytes, bytes_eq, bytes_key}
use alaphi_os.Fs.Overlay.{PermEntry}
use alaphi_os.Fs.Overlay.{PermEntry}
use alaphi_os.Fs.Volume.{FsError, not_found, invalid_path, Fat, M, ◌>>=◌, pure, ok_or, state}
use alaphi_os.Fs.Access.{to_fat_path}
use alaphi_os.Fs.Vfs.{disk_mut, require}

pub record Stat : Type 0 where
  pub size : ℕ
  pub is_dir : Bool
  pub uid : ℕ
  pub gid : ℕ
  pub owner_rwx : ℕ
  pub group_rwx : ℕ
  pub world_rwx : ℕ

-- `.filter(|(name, _)| name != "." && name != "..")`
unfoldable pub without_dots : List (Bytes × Bool) → List (Bytes × Bool)
without_dots [] = []
without_dots ((name, d) ∷ es) =
    let rest = without_dots es in
    if bytes_eq name (b'.' ∷ []) || bytes_eq name (b'.' ∷ b'.' ∷ []) then rest else (name, d) ∷ rest

-- A path without a recorded entry has the fields of `Stat::default()`.
unfoldable pub stat_of : ℕ × Bool → Option PermEntry → Stat
stat_of (n, d) none = record {
  size = n;
  is_dir = d;
  uid = 0;
  gid = 0;
  owner_rwx = 0;
  group_rwx = 0;
  world_rwx = 0;
}
stat_of (n, d) (some entry) = record {
  size = n;
  is_dir = d;
  uid = entry.uid;
  gid = entry.gid;
  owner_rwx = entry.owner_rwx;
  group_rwx = entry.group_rwx;
  world_rwx = entry.world_rwx;
}

module _ {D : Type 0} (fat : Fat D) where
  unfoldable pub getdents : Bytes → M D (List (Bytes × Bool))
  getdents path = do
    fat_path ← ok_or (to_fat_path path) invalid_path
    d ← disk_mut
    entries ← ok_or (fat.open_dir d fat_path) not_found
    pure (without_dots entries)

  -- The size and the kind of what lies at the path; a file comes before a directory.
  unfoldable pub kind_of : D → Bytes → Result (ℕ × Bool) FsError
  kind_of d fat_path =
      if fat.open_file d fat_path
      then elim (fat.file_size d fat_path) [
        | none ↦ err invalid_path
        | some size ↦ ok (size, false)
      ]
      else (if is_some (fat.open_dir d fat_path) then ok (0, true) else err not_found)

  unfoldable pub stat : Bytes → M D Stat
  stat path = do
    fat_path ← ok_or (to_fat_path path) invalid_path
    d ← disk_mut
    found ← require (kind_of d fat_path)
    s ← state
    pure (stat_of found (get path s.perms))
