-- ===== src/Memory/Boot.antt =====
-- kernel/src/memory/frame_allocator.rs: the frames that the kernel takes at boot from the memory map.
-- A frame is its start address; `none` is a panic.
pub mod Order
pub mod Claims
pub mod Handover
mod Tests
use alaphi_os.Base.{
  ℕ, suc, ◌+◌, ◌-◌, ◌%◌, ◌^◌, Option, none, some, List, [], ◌∷◌, drop, leb, ◌==◌, if◌then◌else◌,
}
use alaphi_os.Memory.FreeList.{phys_addr, containing_address}
use alaphi_os.Memory.Regions.{MemoryRegionKind, usable, other, MemoryRegion}

pub record BootFrameAllocator : Type 0 where
  pub regions : List MemoryRegion
  pub region_idx : ℕ
  pub cursor : Option ℕ
  pub frames_consumed : ℕ

-- `self.cursor.unwrap_or(start_frame)`
unfoldable pub cursor_or : Option ℕ → ℕ → ℕ
cursor_or none start_frame = start_frame
cursor_or (some c) start_frame = c

-- the candidate of a usable region, if it is not beyond its last frame, over `PhysAddr::new` of the
-- first and of the last address
unfoldable pub candidate_in : Option ℕ → Option ℕ → Option ℕ → Option (Option ℕ)
candidate_in cursor none last = none
candidate_in cursor (some start) none = none
candidate_in cursor (some start) (some last) =
    let candidate = cursor_or cursor (containing_address start) in
    if leb candidate (containing_address last) then some (some candidate) else some none

unfoldable pub candidate_of : Option ℕ → MemoryRegionKind → ℕ → ℕ → Option (Option ℕ)
candidate_of cursor usable start end =
    candidate_in cursor (phys_addr start) (if end == 0 then none else phys_addr (end - 1))
candidate_of cursor other start end = some none

unfoldable pub stop_at : ℕ → Option (ℕ × Option ℕ) → Option (Option ℕ) → Option (ℕ × Option ℕ)
stop_at idx rest none = none
stop_at idx rest (some none) = rest
stop_at idx rest (some (some candidate)) = some (idx, some candidate)

-- The loop over the regions from number `idx` on; the cursor is that of the first of them.
unfoldable pub seek : List MemoryRegion → ℕ → Option ℕ → Option (ℕ × Option ℕ)
seek [] idx cursor = some (idx, none)
seek (r ∷ rs) idx cursor =
    stop_at idx (seek rs (suc idx) none) (candidate_of cursor r.kind r.start r.end)

unfoldable pub sought : BootFrameAllocator → Option (ℕ × Option ℕ) → Option BootFrameAllocator
sought s none = none
sought s (some (idx, cursor)) = some (record s { region_idx = idx; cursor = cursor })

unfoldable pub seek_to_first_usable_frame : BootFrameAllocator → Option BootFrameAllocator
seek_to_first_usable_frame s = sought s (seek (drop s.region_idx s.regions) s.region_idx s.cursor)

unfoldable pub new : List MemoryRegion → Option BootFrameAllocator
new regions =
    seek_to_first_usable_frame
      (record { regions = regions; region_idx = 0; cursor = none; frames_consumed = 0 })

unfoldable pub handed_out : ℕ → Option BootFrameAllocator → Option (Option ℕ × BootFrameAllocator)
handed_out frame none = none
handed_out frame (some s) = some (some frame, s)

-- `frame + 1`, which panics beyond 52 bits, and the rest of `allocate`
unfoldable pub advanced : ℕ → BootFrameAllocator → Option ℕ → Option (Option ℕ × BootFrameAllocator)
advanced frame s none = none
advanced frame s (some next) = handed_out frame (
    seek_to_first_usable_frame
      (record s { cursor = some next; frames_consumed = (s.frames_consumed + 1) % 2 ^ 64 }))

-- `let frame = self.cursor?`
unfoldable pub allocate_at : BootFrameAllocator → Option ℕ → Option (Option ℕ × BootFrameAllocator)
allocate_at s none = some (none, s)
allocate_at s (some frame) = advanced frame s (phys_addr (frame + 4096))

unfoldable pub allocate : BootFrameAllocator → Option (Option ℕ × BootFrameAllocator)
allocate s = allocate_at s s.cursor
