-- ===== src/Memory/Fault.antt =====
-- kernel/src/memory/vmm.rs: `handle_fault`, over an interface of the page mapper. `none` is a
-- panic. A copy reads the old bytes, also where the source would overlap with the new frame.
pub mod Copies
pub mod Mapping
pub mod Confinement
mod Tests
use Prim.Native.Nat.{bit_and}
use alaphi_os.Base.{
  ℕ, zero, suc, ◌+◌, ◌-◌, Bool, true, false, Option, none, some, List, [], ◌∷◌, Result, ok, err,
  get_or, ltb, leb, ◌==◌, ◌&&◌, ◌||◌, not, if◌then◌else◌,
}
use alaphi_os.Base.Map.{get, remove, nat_key}
use alaphi_os.Base.Bytes.{Bytes}
use alaphi_os.Memory.Area.{Vmm, VmArea, find_area}
use alaphi_os.Memory.FreeList.{FreeListAllocator, allocate, containing_address}
use alaphi_os.Memory.Paging.{Mapper, Frames, page_size, writable}
use alaphi_os.Memory.Swap.{SwapPartition, swap_in}

abbrev pub phys_mem_offset : ℕ
phys_mem_offset = 18446603336221196288

pub record Machine (P : Type 0) : Type 0 where
  pub vmm : Vmm
  pub tables : P
  pub frames : Frames
  pub swap : SwapPartition

abbrev pub Handled : Type 0 → Type 0
Handled P = Option (Result (Unit {0}) (Unit {0}) × Machine P)

unfoldable pub failed : {P : Type 0} → Machine P → Handled P
failed s = some (err tt, s)

-- The page at `dst` takes this content.
unfoldable pub fill_page : (ℕ → ℕ) → ℕ → (ℕ → ℕ) → ℕ → ℕ
fill_page bytes dst content a =
    if leb dst a && ltb a (dst + page_size) then content (a - dst) else bytes a

unfoldable pub read_bytes : (ℕ → ℕ) → ℕ → ℕ → Bytes
read_bytes bytes zero a = []
read_bytes bytes (suc n) a = bytes a ∷ read_bytes bytes n (a + 1)

-- the memory with these bytes
unfoldable pub with_bytes : {P : Type 0} → Machine P → (ℕ → ℕ) → Machine P
with_bytes s bytes = record s { frames = record s.frames { bytes = bytes } }

-- the page of the frame with this content
unfoldable pub fill_frame : {P : Type 0} → Machine P → ℕ → (ℕ → ℕ) → Machine P
fill_frame s frame content =
    with_bytes s (fill_page s.frames.bytes (phys_mem_offset + frame) content)

-- `frame_alloc.allocate().ok_or(())?`
unfoldable pub with_frame :
    {P : Type 0}
    → Machine P
    → (ℕ → Machine P → Handled P)
    → Option (Option ℕ × FreeListAllocator)
    → Handled P
with_frame s next none = none
with_frame s next (some (none, a)) =
    failed (record s { frames = record s.frames { allocator = a } })
with_frame s next (some (some frame, a)) =
    next frame (record s { frames = record s.frames { allocator = a } })

unfoldable pub mapped : {P : Type 0} → Machine P → Option (P × Frames) → Handled P
mapped s none = none
mapped s (some (p, f)) = some (ok tt, record s { tables = p; frames = f })

module _ {P : Type 0} (m : Mapper P) where
  unfoldable pub map_now : ℕ → ℕ → ℕ → Machine P → Handled P
  map_now page flags frame s = mapped s (m.map_page s.tables s.frames page frame flags)

  unfoldable pub map_swapped : ℕ → ℕ → ℕ → Machine P → Option (Bytes × SwapPartition) → Handled P
  map_swapped page flags frame s none = none
  map_swapped page flags frame s (some (content, part)) =
      map_now page flags frame
        (fill_frame (record s { swap = part }) frame (λ i. get_or content i 0))

  -- a page that is swapped out comes back
  unfoldable pub fault_in : ℕ → ℕ → ℕ → ℕ → Machine P → Handled P
  fault_in page slot flags frame s =
      map_swapped page flags frame s
        (swap_in s.swap slot (read_bytes s.frames.bytes page_size (phys_mem_offset + frame)))

  unfoldable pub remap : ℕ → ℕ → ℕ → Machine P → Option (ℕ × P) → Handled P
  remap page flags frame s none = none
  remap page flags frame s (some (_, p)) = map_now page flags frame (record s { tables = p })

  -- a copy of the 4096 bytes from `phys` on, in place of the page
  unfoldable pub copy_frame : ℕ → ℕ → ℕ → ℕ → Machine P → Handled P
  copy_frame page phys flags frame s =
      remap page flags frame (fill_frame s frame (λ i. s.frames.bytes (phys_mem_offset + phys + i)))
        (m.unmap_page s.tables page)

  unfoldable pub zero_fill : ℕ → ℕ → ℕ → Machine P → Handled P
  zero_fill page flags frame s = map_now page flags frame (fill_frame s frame (λ _. 0))

  -- a fault in an area, over what the address translates to
  unfoldable pub fault_at : ℕ → Bool → Machine P → VmArea → Option ℕ → Handled P
  fault_at page is_write s area none =
      with_frame s (zero_fill page area.flags) (allocate s.frames.words s.frames.allocator)
  fault_at page is_write s area (some phys) =
      if not is_write || bit_and area.flags writable == 0
      then failed s
      else with_frame s (copy_frame page phys area.flags)
          (allocate s.frames.words s.frames.allocator)

  unfoldable pub fault_in_area : ℕ → Bool → Machine P → Option VmArea → Handled P
  fault_in_area fault_addr is_write s none = failed s
  fault_in_area fault_addr is_write s (some area) =
      fault_at (containing_address fault_addr) is_write s area
        (m.translate_addr s.tables fault_addr)

  -- The entry of a swapped page is removed before a frame is asked for.
  unfoldable pub fault_of : ℕ → Bool → Machine P → Option (ℕ × ℕ) → Handled P
  fault_of fault_addr is_write s none =
      fault_in_area fault_addr is_write s (find_area s.vmm.areas fault_addr)
  fault_of fault_addr is_write s (some (slot, flags)) =
      let page = containing_address fault_addr in
      let v = s.vmm in
      let s' : Machine P = record s { vmm = record v { swapped = remove page v.swapped } } in
      with_frame s' (fault_in page slot flags) (allocate s.frames.words s.frames.allocator)

  unfoldable pub handle_fault : ℕ → Bool → Machine P → Handled P
  handle_fault fault_addr is_write s =
      fault_of fault_addr is_write s (get (containing_address fault_addr) s.vmm.swapped)
