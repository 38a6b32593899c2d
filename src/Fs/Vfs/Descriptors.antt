-- ===== src/Fs/Vfs/Descriptors.antt =====
-- kernel/src/fs/fd_table.rs: the paths that descriptors stand for, before and after a change.
use alaphi_os.Base.{
  ℕ, ◌+◌, ◌%◌, ◌^◌, ◌≡◌, ◌&&◌, ◌⊎◌, Option, none, some, ◌==◌, ==_iff, if◌then◌else◌, arith,
}
use alaphi_os.Base.Map.{get, insert, remove, get-insert, get-remove, nat_key}
use alaphi_os.Base.Bytes.{Bytes, bytes_key}
use alaphi_os.Fs.Tables.{
  ProcFdTable, FdRegistry, table_or_new, alloc, alloc_for, get_for, remove_for,
}

-- The path that a descriptor of a process stands for.
unfoldable pub path_at : FdRegistry → ℕ → ℕ → Option Bytes
path_at fds pid fd = get fd (table_or_new (get pid fds)).map

unfoldable pub next_of : FdRegistry → ℕ → ℕ
next_of fds pid = (table_or_new (get pid fds)).next_fd

path_at-insert :
    (fds : FdRegistry) (pid : ℕ) (t : ProcFdTable) (q x : ℕ)
    → path_at (insert pid t fds) q x ≡ (if q == pid then get x t.map else path_at fds q x)
unfolding path_at table_or_new
path_at-insert fds pid t q x = rw (get-insert pid q t fds) ground arith

next_of-insert :
    (fds : FdRegistry) (pid : ℕ) (t : ProcFdTable) (q : ℕ)
    → next_of (insert pid t fds) q ≡ (if q == pid then t.next_fd else next_of fds q)
unfolding next_of table_or_new
next_of-insert fds pid t q = rw (next_of, get-insert pid q t fds) ground arith

pub path_at-get_for :
    (fds : FdRegistry) (pid fd q x : ℕ) → path_at (get_for fds pid fd).1 q x ≡ path_at fds q x
unfolding get_for path_at
path_at-get_for fds pid fd q x =
    rw (path_at-insert fds pid (table_or_new (get pid fds)) q x) ground (arith, ==_iff q pid)

pub next_of-get_for :
    (fds : FdRegistry) (pid fd q : ℕ) → next_of (get_for fds pid fd).1 q ≡ next_of fds q
unfolding get_for next_of
next_of-get_for fds pid fd q =
    rw (next_of-insert fds pid (table_or_new (get pid fds)) q) ground (arith, ==_iff q pid)

pub path_at-alloc_for :
    (fds : FdRegistry) (pid : ℕ) (path : Bytes) (q x : ℕ)
    → path_at (alloc_for fds pid path).1 q x
      ≡ (if q == pid && x == next_of fds pid then some path else path_at fds q x)
unfolding alloc_for alloc next_of path_at
path_at-alloc_for fds pid path q x =
    let t = table_or_new (get pid fds) in
    let at = get-insert t.next_fd x path t.map in
    rw (path_at-insert fds pid (alloc t path).1 q x) ground (arith, ==_iff q pid)

pub next_of-alloc_for :
    (fds : FdRegistry) (pid : ℕ) (path : Bytes) (q : ℕ)
    → next_of (alloc_for fds pid path).1 q
      ≡ (if q == pid then (next_of fds pid + 1) % 2 ^ 64 else next_of fds q)
unfolding alloc_for alloc next_of
next_of-alloc_for fds pid path q =
    next_of-insert fds pid (alloc (table_or_new (get pid fds)) path).1 q

pub path_at-remove_for :
    (fds : FdRegistry) (pid fd : ℕ) (q x : ℕ)
    → path_at (remove_for fds pid fd).1 q x
      ≡ (if q == pid && x == fd then none else path_at fds q x)
unfolding remove_for path_at
path_at-remove_for fds pid fd q x =
    let t = table_or_new (get pid fds) in
    let at = get-remove fd x t.map in
    rw (path_at-insert fds pid (record t { map = remove fd t.map }) q x) ground
      (arith, ==_iff q pid)

pub next_of-remove_for :
    (fds : FdRegistry) (pid fd q : ℕ) → next_of (remove_for fds pid fd).1 q ≡ next_of fds q
unfolding remove_for next_of
next_of-remove_for fds pid fd q =
    let t = table_or_new (get pid fds) in
    rw (next_of-insert fds pid (record t { map = remove fd t.map }) q) ground (arith, ==_iff q pid)

pub alloc_for-cases :
    (fds : FdRegistry) (pid : ℕ) (path : Bytes) (q x : ℕ) (p : Bytes)
    → path_at (alloc_for fds pid path).1 q x ≡ some p
    → ((q ≡ pid) × (x ≡ next_of fds pid) × (p ≡ path)) ⊎ (path_at fds q x ≡ some p)
alloc_for-cases fds pid path q x p h =
    let new = path_at-alloc_for fds pid path q x in
    ground (arith, ==_iff q pid, ==_iff x (next_of fds pid))
