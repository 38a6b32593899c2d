-- ===== src/Io/Device.antt =====
-- kernel/src/io/device.rs: the table of devices.
use alaphi_os.Base.{
  ℕ, suc, Bool, true, Option, none, some, List, [], ◌∷◌, ◌++◌, length, get_elem?, set,
  if◌then◌else◌,
}
use alaphi_os.Base.Bytes.{Bytes, bytes_eq}

abbrev pub dev_fd_offset : ℕ
dev_fd_offset = 65536

abbrev pub ioctl_set_nonblock : ℕ
ioctl_set_nonblock = 1

abbrev pub ioctl_set_block : ℕ
ioctl_set_block = 2

pub record DeviceStatus : Type 0 where
  pub name : Bytes
  pub blocking : Bool

pub record DeviceTable : Type 0 where
  pub entries : List DeviceStatus

unfoldable pub new : DeviceTable
new = record { entries = [] }

unfoldable pub register : DeviceTable → Bytes → ℕ × DeviceTable
register t name = (
  length t.entries,
  record { entries = t.entries ++ record { name = name; blocking = true } ∷ [] },
)

-- `position(|e| e.name == name)`
unfoldable pub position : Bytes → List DeviceStatus → Option ℕ
position name [] = none
position name (e ∷ es) =
    let rest = position name es in
    if bytes_eq e.name name then some 0 else elim rest [ none ↦ none | some i ↦ some (suc i) ]

unfoldable pub find : DeviceTable → Bytes → Option ℕ
find t name = position name t.entries

unfoldable pub get_mut : DeviceTable → ℕ → Option DeviceStatus
get_mut t idx = get_elem? t.entries idx

-- a write through the reference that `get_mut` gives
unfoldable pub write_status : DeviceTable → ℕ → DeviceStatus → DeviceTable
write_status t idx status = record { entries = set t.entries idx status }

unfoldable pub is_blocking : DeviceTable → ℕ → Bool
is_blocking t idx = elim (get_elem? t.entries idx) [ none ↦ true | some e ↦ e.blocking ]
