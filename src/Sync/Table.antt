-- ===== src/Sync/Table.antt =====
-- kernel/src/sync/resource_table.rs: user locks by handle. `none` is a panic.
use alaphi_os.Base.{ℕ, ◌+◌, ◌^◌, Option, none, some, [], ltb, if◌then◌else◌}
use alaphi_os.Base.Map.{Map, nat_key}
use alaphi_os.Base.Map
use alaphi_os.Sync.Resource.{QueuedResource}

pub record ResourceTable : Type 0 where
  pub next_handle : ℕ
  pub map : Map ℕ QueuedResource

unfoldable pub new : ResourceTable
new = record { next_handle = 0; map = [] }

unfoldable pub insert : ResourceTable → QueuedResource → Option (ℕ × ResourceTable)
insert t res =
    if ltb (t.next_handle + 1) (2 ^ 64)
    then some (
      t.next_handle,
      record { next_handle = t.next_handle + 1; map = Map.insert t.next_handle res t.map },
    )
    else none

unfoldable pub get : ResourceTable → ℕ → Option QueuedResource
get t handle = Map.get handle t.map

-- a call through the `Arc` that the table holds
unfoldable pub write : ResourceTable → ℕ → QueuedResource → ResourceTable
write t handle res = record t { map = Map.insert handle res t.map }

unfoldable pub remove : ResourceTable → ℕ → ResourceTable
remove t handle = record t { map = Map.remove handle t.map }
