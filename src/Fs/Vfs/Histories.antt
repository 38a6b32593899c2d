-- ===== src/Fs/Vfs/Histories.antt =====
-- kernel/src/fs/vfs.rs: the states that calls of the file operations reach, and what their
-- descriptors exclude.
use alaphi_os.Base.{ℕ, ◌+◌, ◌^◌, ◌<◌, ◌≡◌, some, Result, ok, err, arith}
use alaphi_os.Base.Map.{nat_key}
use alaphi_os.Base.Bytes.{Bytes, bytes_key}
use alaphi_os.Fs.Tables.{table_or_new, new_table}
use alaphi_os.Fs.Volume.{LogicalFs, Fat, new, mount_disk, FsError}
use alaphi_os.Fs.Vfs.{
  seek, close, read, write, rename, mkdir, mark_shared, chmod, open_path, create,
}
use alaphi_os.Fs.Vfs.Descriptors.{path_at, next_of}
use alaphi_os.Fs.Vfs.Exclusive.{Exclusive, Exclusive-one}
use alaphi_os.Fs.Vfs.Steps.{Post}
use alaphi_os.Fs.Vfs.Locking.{
  seek-Triple, close-Triple, read-Triple, write-Triple, rename-Triple, mkdir-Triple,
  mark_shared-Triple, open_path-Triple, create-Triple,
}

module _ {D : Type 0} (fat : Fat D) (lower : Bytes → Bytes) where
  -- One call, whatever it returns. A process opens fewer than 2^64 - 3 files.
  pub data Call (s : LogicalFs D) : LogicalFs D → Type 0 where
    mounts : (d : D) → Call s (mount_disk s d)
    opens :
        (path : Bytes) (pid uid gid : ℕ)
        → next_of s.fds pid + 1 < 2 ^ 64
        → Call s (open_path fat lower path pid uid gid s).0
    creates :
        (path : Bytes) (pid : ℕ)
        → next_of s.fds pid + 1 < 2 ^ 64
        → Call s (create fat lower path pid s).0
    closes : (fd pid : ℕ) → Call s (close fd pid s).0
    reads : (fd pid uid gid len : ℕ) → Call s (read fat lower fd pid uid gid len s).0
    writes : (fd pid uid gid : ℕ) (buf : Bytes) → Call s (write fat lower fd pid uid gid buf s).0
    seeks : (fd pid offset : ℕ) → Call s (seek fd pid offset s).0
    shares : (path : Bytes) → Call s (mark_shared path s).0
    changes : (path : Bytes) (owner group world : ℕ) → Call s (chmod path owner group world s).0
    renames : (old new : Bytes) → Call s (rename fat lower old new s).0
    makes : (path : Bytes) → Call s (mkdir fat lower path s).0

  pub data Reachable : LogicalFs D → Type 0 where
    starts : Reachable new
    calls : (s t : LogicalFs D) → Reachable s → Call s t → Reachable t

  after :
      {A : Type 0} (x : LogicalFs D × Result A FsError)
      → Post (λ a. Exclusive) x
      → Exclusive x.0.fcbs x.0.fds
  unfolding Post
  after (s, ok a) p = p
  after (s, err e) p = p

  chmod_quiet :
      (path : Bytes) (owner group world : ℕ) (s : LogicalFs D)
      → ((chmod path owner group world s).0.fcbs ≡ s.fcbs)
        × ((chmod path owner group world s).0.fds ≡ s.fds)
  unfolding chmod
  chmod_quiet path owner group world s = (ground arith, ground arith)

  Call-Exclusive : (s t : LogicalFs D) → Call s t → Exclusive s.fcbs s.fds → Exclusive t.fcbs t.fds
  unfolding mount_disk
  Call-Exclusive s _ (mounts d) w = w
  Call-Exclusive s _ (opens path pid uid gid room) w =
      after _ ((open_path-Triple fat lower path pid uid gid).run s (w, room))
  Call-Exclusive s _ (creates path pid room) w =
      after _ ((create-Triple fat lower path pid).run s (w, room))
  Call-Exclusive s _ (closes fd pid) w = after _ ((close-Triple fd pid).run s w)
  Call-Exclusive s _ (reads fd pid uid gid len) w =
      after _ ((read-Triple fat lower fd pid uid gid len).run s w)
  Call-Exclusive s _ (writes fd pid uid gid buf) w =
      after _ ((write-Triple fat lower fd pid uid gid buf).run s w)
  Call-Exclusive s _ (seeks fd pid offset) w = after _ ((seek-Triple fd pid offset).run s w)
  Call-Exclusive s _ (shares path) w = after _ ((mark_shared-Triple path).run s w)
  Call-Exclusive s _ (changes path owner group world) w =
      let (blocks, numbers) = chmod_quiet path owner group world s in rw (blocks, numbers) w
  Call-Exclusive s _ (renames old new) w = after _ ((rename-Triple fat lower old new).run s w)
  Call-Exclusive s _ (makes path) w = after _ ((mkdir-Triple fat lower path).run s w)

  new-Exclusive : Exclusive (new {D = D}).fcbs (new {D = D}).fds
  unfolding new path_at table_or_new new_table
  new-Exclusive = record {
    owned = λ q x p h. ground arith;
    counted = λ p f h. ground arith;
    single = λ q x y p h h'. ground arith;
    below = λ q x p h. ground arith;
  }

  pub Reachable-Exclusive : (s : LogicalFs D) → Reachable s → Exclusive s.fcbs s.fds
  Reachable-Exclusive _ starts = new-Exclusive
  Reachable-Exclusive _ (calls s t r c) = Call-Exclusive s t c (Reachable-Exclusive s r)

  -- Whatever sequence of calls the processes make from the empty state (every operation on files but
  -- `delete`, with fewer than 2^64 - 4 descriptors of one process), no two open descriptors of the
  -- whole system stand for the same path: the path determines the process and the descriptor.
  pub descriptors_exclusive :
      (s : LogicalFs D) (pid fd q x : ℕ) (p : Bytes)
      → Reachable s
      → path_at s.fds pid fd ≡ some p
      → path_at s.fds q x ≡ some p
      → (q ≡ pid) × (x ≡ fd)
  descriptors_exclusive s pid fd q x p r =
      Exclusive-one s.fcbs s.fds pid fd q x p (Reachable-Exclusive s r)
