-- ===== src/Memory/Swap.antt =====
-- kernel/src/memory/swap.rs: the swap partition, slots of eight sectors on a disk in memory. A page
-- is its 4096 bytes. `none` is a panic.
pub mod Sectors
pub mod Slots
pub mod RoundTrip
mod Tests
use alaphi_os.Base.{
  ℕ, zero, suc, ◌+◌, ◌*◌, ◌%◌, Bool, true, false, Option, none, some, List, [], ◌∷◌, ◌++◌, Result,
  ok, err, length, take, drop, set, replicate, get_or, get_elem?, if◌then◌else◌,
}
use alaphi_os.Base.Bytes.{Bytes}
use alaphi_os.Io.Disk.{RamDisk, DiskError, Read, read_sector, write_sector}
use alaphi_os.Io.Disk

abbrev pub page_size : ℕ
page_size = 4096

abbrev pub sector_size : ℕ
sector_size = 512

abbrev pub sectors_per_page : ℕ
sectors_per_page = 8

-- `free`: true for a slot that is available.
pub record SwapPartition : Type 0 where
  pub disk : RamDisk
  pub free : List Bool
  pub cursor : ℕ

unfoldable pub new : ℕ → SwapPartition
new pages = record {
  disk = Disk.new (pages * sectors_per_page) sector_size;
  free = replicate pages true;
  cursor = 0;
}

-- the loop of `alloc_slot` over the offsets from `i` on
unfoldable pub search : List Bool → ℕ → ℕ → ℕ → Option ℕ
search free cursor zero i = none
search free cursor (suc n) i =
    let idx = (cursor + i) % length free in
    let rest = search free cursor n (i + 1) in if get_or free idx false then some idx else rest

unfoldable pub take_slot : SwapPartition → Option ℕ → Option ℕ × SwapPartition
take_slot s none = (none, s)
take_slot s (some idx) =
    (some idx, record s { free = set s.free idx false; cursor = (idx + 1) % length s.free })

unfoldable pub alloc_slot : SwapPartition → Option ℕ × SwapPartition
alloc_slot s = take_slot s (search s.free s.cursor (length s.free) 0)

-- The sectors from number `lba` on take the bytes, 512 each, until one fails.
abbrev pub Written : Type 0
Written = RamDisk × Result (Unit {0}) DiskError

unfoldable pub then_write : (RamDisk → Option Written) → Option Written → Option Written
then_write next none = none
then_write next (some (d, ok _)) = next d
then_write next (some (d, err e)) = some (d, err e)

unfoldable pub write_sectors : ℕ → ℕ → Bytes → RamDisk → Option Written
write_sectors zero lba bytes d = some (d, ok tt)
write_sectors (suc n) lba bytes d =
    then_write (write_sectors n (lba + 1) (drop sector_size bytes))
      (write_sector d lba (take sector_size bytes))

-- A sector that fails leaves the slot taken.
unfoldable pub written_out : SwapPartition → ℕ → Option Written → Option (Option ℕ × SwapPartition)
written_out s slot none = none
written_out s slot (some (d, ok _)) = some (some slot, record s { disk = d })
written_out s slot (some (d, err _)) = some (none, record s { disk = d })

unfoldable pub swap_out_to : Bytes → Option ℕ × SwapPartition → Option (Option ℕ × SwapPartition)
swap_out_to page (none, s) = some (none, s)
swap_out_to page (some slot, s) =
    written_out s slot (write_sectors sectors_per_page (slot * sectors_per_page) page s.disk)

unfoldable pub swap_out : SwapPartition → Bytes → Option (Option ℕ × SwapPartition)
swap_out s page = swap_out_to page (alloc_slot s)

unfoldable pub free_slot : SwapPartition → ℕ → SwapPartition
free_slot s slot = record s { free = set s.free slot true }

-- `.expect("swap_in: read failed")`, and the sectors that follow
unfoldable pub then_read : Option Bytes → Option Read → Option Bytes
then_read none r = none
then_read (some rest) none = none
then_read (some rest) (some (buf, ok _)) = some (buf ++ rest)
then_read (some rest) (some (buf, err _)) = none

-- The bytes of the sectors from number `lba` on, over what the page held.
unfoldable pub read_sectors : ℕ → ℕ → Bytes → RamDisk → Option Bytes
read_sectors zero lba page d = some []
read_sectors (suc n) lba page d =
    then_read (read_sectors n (lba + 1) (drop sector_size page) d)
      (read_sector d lba (take sector_size page))

unfoldable pub read_in : SwapPartition → ℕ → Option Bytes → Option (Bytes × SwapPartition)
read_in s slot none = none
read_in s slot (some page) = some (page, free_slot s slot)

-- The page after the call.
unfoldable pub swap_in : SwapPartition → ℕ → Bytes → Option (Bytes × SwapPartition)
swap_in s slot page =
    read_in s slot (read_sectors sectors_per_page (slot * sectors_per_page) page s.disk)
