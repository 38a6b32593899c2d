-- ===== src/Memory/Swap/Tests.antt =====
-- kernel/src/memory/swap.rs and kernel/src/io/disk.rs at concrete inputs.
use alaphi_os.Base.{
  ℕ, ◌*◌, ◌<◌, ◌≡◌, ◌≢◌, refl, true, false, some, [], ◌∷◌, length, get_or, set, replicate,
  length-replicate, arith, ok, if◌then◌else◌, ◌==◌,
}
use alaphi_os.Base.Bytes.{Bytes}
use alaphi_os.Io.Disk.{RamDisk, read_sector, write_sector}
use alaphi_os.Io.Disk.ReadWrite.{Formatted, read_sector-write_sector}
use alaphi_os.Memory.Swap
use alaphi_os.Memory.Swap.{SwapPartition, swap_out, swap_in, free_slot, read_sectors}
use alaphi_os.Memory.Swap.RoundTrip.{swap_in-swap_out, new-IsPartition}

-- A disk of two sectors of two bytes.
abbrev disk : RamDisk
disk = record {
  bytes = 0 ∷ 0 ∷ 0 ∷ 0 ∷ [];
  byte_len = 4;
  sector_size = 2;
  cursor = 0;
  crcs = 0 ∷ 0 ∷ [];
}

disk-Formatted : Formatted disk 2
disk-Formatted = record { content = refl; size = refl; checksums = refl; addressable = omega arith }

read_sector-write_sector_example :
    (d' : RamDisk) × (write_sector disk 1 (5 ∷ 6 ∷ []) ≡ some (d', ok tt))
    × Formatted d' 2
    × (d'.sector_size ≡ 2)
    × ((other : ℕ) (old : Bytes)
        → other < 2
        → length old ≡ 2
        → read_sector d' other old
          ≡ (if other == 1 then some (5 ∷ 6 ∷ [], ok tt) else read_sector disk other old))
read_sector-write_sector_example =
    read_sector-write_sector disk 2 1 (5 ∷ 6 ∷ []) disk-Formatted (omega arith) refl

first_free : get_or (Swap.new 2).free 0 false ≡ true
unfolding Swap.new
first_free = refl

swap_in-swap_out_example :
    (slot : ℕ) × (s' : SwapPartition) × (swap_out (Swap.new 2) (replicate 4096 7)
      ≡ some (some slot, s'))
    × (get_or (Swap.new 2).free slot false ≡ true)
    × (s'.free ≡ set (Swap.new 2).free slot false)
    × ((old : Bytes)
        → length old ≡ 4096
        → swap_in s' slot old ≡ some (replicate 4096 7, free_slot s' slot))
    × ((other : ℕ) (old : Bytes)
        → other < 2
        → other ≢ slot
        → length old ≡ 4096
        → read_sectors 8 (other * 8) old s'.disk ≡ read_sectors 8 (other * 8) old (Swap.new 2).disk)
swap_in-swap_out_example =
    swap_in-swap_out (Swap.new 2) 2 0 (replicate 4096 7)
      (new-IsPartition 2 (omega arith) (omega arith)) (omega arith) first_free
      (length-replicate {A = ℕ} 4096 7)
