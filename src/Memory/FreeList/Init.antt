-- ===== src/Memory/FreeList/Init.antt =====
-- kernel/src/memory/free_list.rs: `init`, which frees the usable frames of the memory map but for
-- those that were taken at boot.
use alaphi_os.Base.{ℕ, zero, suc, ◌+◌, ◌-◌, ◌*◌, ◌/◌, Option, none, some, List, [], ◌∷◌}
use alaphi_os.Memory.FreeList.{Words, FreeListAllocator, containing_address, phys_addr, deallocate}
use alaphi_os.Memory.Regions.{MemoryRegionKind, usable, other, MemoryRegion}

-- The memory, the allocator and what is left of `skip`.
abbrev pub Filling : Type 0
Filling = Words × FreeListAllocator × ℕ

-- `if skip > 0 { skip -= 1 } else { self.deallocate(…) }`
unfoldable pub skip_or_free : ℕ → Filling → Filling
skip_or_free addr (m, s, suc skip) = (m, s, skip)
skip_or_free addr (m, s, zero) =
    let (m', s') = deallocate m s (containing_address addr) in (m', s', 0)

-- the rounds of `while addr + 4096 <= end`
unfoldable pub free_from : ℕ → ℕ → Filling → Filling
free_from zero addr st = st
free_from (suc n) addr st = free_from n (addr + 4096) (skip_or_free addr st)

-- A region, over `PhysAddr::new` of its start and its end and of the sum of the last test.
unfoldable pub free_between : Option ℕ → Option ℕ → Option ℕ → Filling → Option Filling
free_between none end tested st = none
free_between (some start) none tested st = none
free_between (some start) (some end) none st = none
free_between (some start) (some end) (some tested) st =
    some (free_from ((end - start) / 4096) start st)

unfoldable pub free_region : MemoryRegionKind → ℕ → ℕ → Filling → Option Filling
free_region usable start end st =
    free_between (phys_addr start) (phys_addr end)
      (phys_addr (start + ((end - start) / 4096 + 1) * 4096)) st
free_region other start end st = some st

unfoldable pub then_regions : (Filling → Option Filling) → Option Filling → Option Filling
then_regions next none = none
then_regions next (some st) = next st

unfoldable pub free_regions : List MemoryRegion → Filling → Option Filling
free_regions [] st = some st
free_regions (r ∷ rs) st = then_regions (free_regions rs) (free_region r.kind r.start r.end st)

unfoldable pub init : Words → FreeListAllocator → List MemoryRegion → ℕ → ℕ → Option Filling
init m s regions phys_offset skip =
    free_regions regions (m, record s { phys_offset = phys_offset }, skip)
