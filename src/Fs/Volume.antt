-- ===== src/Fs/Volume.antt =====
-- kernel/src/fs/vfs.rs: the state of `LogicalFs`, and its methods as functions from the state to the
-- state and a result: what one wrote before an error stays written. The FAT volume (crate `fatfs`)
-- is a parameter.
use alaphi_os.Base.{ℕ, Bool, true, false, Option, none, some, List, [], Result, ok, err}
use alaphi_os.Base.Map.{nat_key}
use alaphi_os.Base.Bytes.{Bytes, bytes_key}
use alaphi_os.Fs.Overlay.{PermsDb, AuthDb}
use alaphi_os.Fs.Tables.{FcbTable, FdRegistry}

pub data FsError : Type 0 where
  not_found already_exists permission_denied locked is_shared not_open invalid_path : FsError
  not_a_directory is_a_directory not_mounted : FsError

-- What the code asks of the volume, over its states `D`. A path has no leading slash here.
pub record Fat (D : Type 0) : Type 0 where
  pub open_file : D → Bytes → Bool
  pub seek_read : D → Bytes → ℕ → ℕ → D × Option Bytes
  pub seek_write : D → Bytes → ℕ → Bytes → D × Bool
  pub file_size : D → Bytes → Option ℕ
  pub open_dir : D → Bytes → Option (List (Bytes × Bool))
  pub create_file : D → Bytes → D × Bool
  pub remove_entry : D → Bytes → D × Bool
  pub rename_entry : D → Bytes → Bytes → D × Bool
  pub create_dir : D → Bytes → D × Bool

pub record LogicalFs (D : Type 0) : Type 0 where
  pub fcbs : FcbTable
  pub fds : FdRegistry
  pub perms : PermsDb
  pub auth : AuthDb
  pub disk : Option D

unfoldable pub new : {D : Type 0} → LogicalFs D
new = record { fcbs = []; fds = []; perms = []; auth = []; disk = none }

unfoldable pub mount_disk : {D : Type 0} → LogicalFs D → D → LogicalFs D
mount_disk s d = record s { disk = some d }

-- A method: the state to the state and a result.
abbrev pub M : Type 0 → Type 0 → Type 0
M D A = LogicalFs D → LogicalFs D × Result A FsError

infixl 5 ◌>>=◌ ◌>>◌
unfoldable pub ◌>>=◌ : {D A B : Type 0} → M D A → (A → M D B) → M D B
◌>>=◌ m f s = let (s', r) = m s in elim r [ ok a ↦ f a s' | err e ↦ (s', err e) ]

abbrev pub ◌>>◌ : {D A B : Type 0} → M D A → M D B → M D B
m >> k = m >>= λ _. k

unfoldable pub pure : {D A : Type 0} → A → M D A
pure a s = (s, ok a)

-- `if test { return Err(e) }`
unfoldable pub fail_if : {D : Type 0} → Bool → FsError → M D (Unit {0})
fail_if true e s = (s, err e)
fail_if false e s = (s, ok tt)

-- `.ok_or(e)?`
unfoldable pub ok_or : {D A : Type 0} → Option A → FsError → M D A
ok_or none e s = (s, err e)
ok_or (some a) e s = (s, ok a)

unfoldable pub state : {D : Type 0} → M D (LogicalFs D)
state s = (s, ok s)
