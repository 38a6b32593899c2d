-- ===== src/Memory/Fault/Copies.antt =====
-- kernel/src/memory/vmm.rs, `handle_fault`: what a write to a shared page copies.
use Prim.Native.Nat.{bit_and}
use alaphi_os.Base.{
  ℕ, ◌+◌, ◌-◌, ◌%◌, ◌<◌, ◌≡◌, ◌∙◌, refl, ap, true, false, none, some, ok, ltb, leb, ◌==◌, ◌&&◌,
  arith,
}
use alaphi_os.Base.Map.{get, nat_key}
use alaphi_os.Memory.Area.{VmArea, find_area}
use alaphi_os.Memory.FreeList.{FreeListAllocator, allocate, containing_address}
use alaphi_os.Memory.Paging.{Mapper, Frames, page_size, writable}
use alaphi_os.Memory.Fault.{
  phys_mem_offset, Machine, fill_page, with_frame, mapped, remap, copy_frame, fault_at,
  fault_in_area, fault_of, handle_fault, fill_frame, with_bytes, map_now, mapped,
}

fill_page_inside :
    (bytes : ℕ → ℕ) (dst : ℕ) (content : ℕ → ℕ) (i : ℕ)
    → i < page_size
    → fill_page bytes dst content (dst + i) ≡ content i
unfolding fill_page
fill_page_inside bytes dst content i h =
    let e : (leb dst (dst + i) && ltb (dst + i) (dst + page_size)) ≡ true = ground (arith, h) in
    let back : dst + i - dst ≡ i = omega arith in rw (e, back) refl

-- The memory that the page is mapped in: the frame `new` is taken and has the bytes from `phys` on.
abbrev pub copied : {P : Type 0} → Machine P → FreeListAllocator → ℕ → ℕ → Frames
copied s a new phys = record s.frames {
  allocator = a;
  bytes =
      fill_page s.frames.bytes (phys_mem_offset + new)
        (λ i. s.frames.bytes (phys_mem_offset + phys + i));
}

-- A write to a page that is present and not swapped out, in a writable area, at an address that is
-- `fault_addr % 4096` bytes into its page, when a frame is free, the page can be unmapped and
-- mapped, and the mapping does not write to the page that it maps: byte `i` of the new page is byte
-- `fault_addr % 4096 + i` from the start of the old frame. So the copy is shifted, and its end
-- comes from the next frame, unless the address is a multiple of 4096.
pub cow_copy_shifted :
    {P : Type 0} (m : Mapper P) (s : Machine P) (fault_addr old new : ℕ) (area : VmArea)
    (a : FreeListAllocator) (unmapped : ℕ) (p p' : P) (f : Frames)
    → get (containing_address fault_addr) s.vmm.swapped ≡ none
    → find_area s.vmm.areas fault_addr ≡ some area
    → (bit_and area.flags writable == 0) ≡ false
    → m.translate_addr s.tables fault_addr ≡ some (old + fault_addr % 4096)
    → allocate s.frames.words s.frames.allocator ≡ some (some new, a)
    → m.unmap_page s.tables (containing_address fault_addr) ≡ some (unmapped, p)
    → m.map_page p
        (copied s a new (old + fault_addr % 4096))
        (containing_address fault_addr)
        new
        area.flags
      ≡ some (p', f)
    → ((i : ℕ)
        → i < page_size
        → f.bytes (phys_mem_offset + new + i)
          ≡ (copied s a new (old + fault_addr % 4096)).bytes (phys_mem_offset + new + i))
    → (s' : Machine P) × (handle_fault m fault_addr true s ≡ some (ok tt, s'))
      × ((i : ℕ)
          → i < page_size
          → s'.frames.bytes (phys_mem_offset + new + i)
            ≡ s.frames.bytes (phys_mem_offset + (old + fault_addr % 4096) + i))
unfolding handle_fault fault_of fault_in_area fault_at with_frame copy_frame remap map_now mapped
    fill_frame with_bytes
cow_copy_shifted m s fault_addr old new area a unmapped p p' f resident within writes at free out
      inn keeps =
    let page = containing_address fault_addr in
    let phys = old + fault_addr % 4096 in
    let u : Machine _ = record s { frames = copied s a new phys } in
    (
      record s { tables = p'; frames = f },
      ap (fault_of m fault_addr true s) resident
          ∙ ap (fault_in_area m fault_addr true s) within
          ∙ ap (fault_at m page true s area) at
          ∙ rw writes (
              ap (with_frame s (copy_frame m page phys area.flags)) free
              ∙ ap (remap m page area.flags new u) out
              ∙ ap (mapped (record u { tables = p })) inn),
      λ i h.
          keeps i h
          ∙ fill_page_inside s.frames.bytes (phys_mem_offset + new)
              (λ j. s.frames.bytes (phys_mem_offset + phys + j)) i h,
    )
