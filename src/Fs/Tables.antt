-- ===== src/Fs/Tables.antt =====
-- kernel/src/fs/fcb.rs and fd_table.rs: open files by path, and descriptors by process.
use alaphi_os.Base.{ℕ, ◌+◌, ◌%◌, ◌^◌, Bool, false, Option, none, some, []}
use alaphi_os.Base.Map.{Map, get, insert, remove, nat_key}
use alaphi_os.Base.Bytes.{Bytes, bytes_key}

pub record Fcb : Type 0 where
  pub path : Bytes
  pub cursor : ℕ
  pub open_count : ℕ  -- u32
  pub dirty : Bool
  pub locked_by : Option ℕ
  pub is_shared : Bool

abbrev pub FcbTable : Type 0
FcbTable = Map Bytes Fcb

unfoldable pub new_fcb : Bytes → Fcb
new_fcb path = record {
  path = path;
  cursor = 0;
  open_count = 0;
  dirty = false;
  locked_by = none;
  is_shared = false;
}

-- `FcbTable::open`: the block that lies there, or a new one.
unfoldable pub open_fcb : Bytes → Option Fcb → Fcb
open_fcb path none = new_fcb path
open_fcb path (some fcb) = fcb

-- `map` holds the path of each `FdEntry`.
pub record ProcFdTable : Type 0 where
  pub next_fd : ℕ
  pub map : Map ℕ Bytes

unfoldable pub new_table : ProcFdTable
new_table = record { next_fd = 3; map = [] }

unfoldable pub alloc : ProcFdTable → Bytes → ℕ × ProcFdTable
alloc t path =
    (t.next_fd, record { next_fd = (t.next_fd + 1) % 2 ^ 64; map = insert t.next_fd path t.map })

abbrev pub FdRegistry : Type 0
FdRegistry = Map ℕ ProcFdTable

-- `table_for`: the table of the process, or a new one.
unfoldable pub table_or_new : Option ProcFdTable → ProcFdTable
table_or_new none = new_table
table_or_new (some t) = t

-- `table_for(pid).alloc(path)`
unfoldable pub alloc_for : FdRegistry → ℕ → Bytes → ℕ × FdRegistry
alloc_for fds pid path =
    let (fd, t) = alloc (table_or_new (get pid fds)) path in (fd, insert pid t fds)

-- `table_for(pid).get(fd)`; the registry keeps the table that `table_for` made.
unfoldable pub get_for : FdRegistry → ℕ → ℕ → Option Bytes × FdRegistry
get_for fds pid fd = let t = table_or_new (get pid fds) in (get fd t.map, insert pid t fds)

-- `table_for(pid).remove(fd)`
unfoldable pub remove_for : FdRegistry → ℕ → ℕ → Option Bytes × FdRegistry
remove_for fds pid fd =
    let t = table_or_new (get pid fds) in
    (get fd t.map, insert pid (record t { map = remove fd t.map }) fds)
