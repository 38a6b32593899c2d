-- ===== src/Ipc/Table.antt =====
-- kernel/src/ipc/table.rs: channels by handle. `none` is a panic.
pub mod Handles
use alaphi_os.Base.{ℕ, ◌+◌, ◌^◌, Option, none, some, [], ltb, if◌then◌else◌}
use alaphi_os.Base.Map.{Map, nat_key}
use alaphi_os.Base.Map

pub record IpcTable (C : Type 0) : Type 0 where
  pub next_handle : ℕ
  pub map : Map ℕ C

unfoldable pub new : {C : Type 0} → IpcTable C
new = record { next_handle = 0; map = [] }

-- `checked_add(1).expect(…)`
unfoldable pub checked_next : ℕ → Option ℕ
checked_next n = if ltb (n + 1) (2 ^ 64) then some (n + 1) else none

unfoldable pub insert : {C : Type 0} → IpcTable C → C → Option (ℕ × IpcTable C)
insert t ch = elim (checked_next t.next_handle) [
  | none ↦ none
  | some next ↦
      some (t.next_handle, record { next_handle = next; map = Map.insert t.next_handle ch t.map })
]

unfoldable pub get : {C : Type 0} → IpcTable C → ℕ → Option C
get t handle = Map.get handle t.map

unfoldable pub remove : {C : Type 0} → IpcTable C → ℕ → IpcTable C
remove t handle = record t { map = Map.remove handle t.map }
