-- ===== src/Memory/Paging.antt =====
-- kernel/src/memory/vmm.rs: what the operations of `Vmm` do to page tables. `PageMapper` wraps the
-- tables of the crate x86_64, a parameter; `none` is a panic.
use Prim.Native.Nat.{bit_and}
use alaphi_os.Base.{ℕ, zero, suc, ◌+◌, ◌-◌, ◌/◌, Option, none, some, List, [], ◌∷◌}
use alaphi_os.Base.Bits.{bit_not}
use alaphi_os.Memory.Area
use alaphi_os.Memory.Area.{Vmm, VmArea, mprotect, set_heap_end, add_area}
use alaphi_os.Memory.FreeList.{FreeListAllocator, Words, deallocate, containing_address}

-- Physical memory with the free frames: the words in which the links of the free list lie, and the
-- bytes of the frames, each at its address in the kernel.
pub record Frames : Type 0 where
  pub words : Words
  pub allocator : FreeListAllocator
  pub bytes : ℕ → ℕ

-- What the code asks of a page mapper, over its states `P`: an address that is mapped has a frame,
-- and a new mapping may take frames for tables and writes to the frames of the tables.
pub record Mapper (P : Type 0) : Type 0 where
  pub translate_addr : P → ℕ → Option ℕ
  pub map_page : P → Frames → ℕ → ℕ → ℕ → Option (P × Frames)
  pub unmap_page : P → ℕ → Option (ℕ × P)
  pub remap_flags : P → ℕ → ℕ → Option P

abbrev pub page_size : ℕ
page_size = 4096

abbrev pub writable : ℕ
writable = 2

-- the rounds of `while addr < end { …; addr += 4096 }`
unfoldable pub rounds : ℕ → ℕ → ℕ
rounds addr end = (end - addr + 4095) / page_size

unfoldable pub freed : {P : Type 0} → Frames → Option (ℕ × P) → Option (P × Frames)
freed f none = none
freed f (some (frame, p)) =
    let (words, allocator) = deallocate f.words f.allocator frame in
    some (p, record f { words = words; allocator = allocator })

unfoldable pub then_next :
    {P : Type 0} → (P → Frames → Option (P × Frames)) → Option (P × Frames) → Option (P × Frames)
then_next next none = none
then_next next (some (p, f)) = next p f

module _ {P : Type 0} (m : Mapper P) where
  -- a round of `shrink_heap`: a page that is mapped is unmapped and its frame given back
  unfoldable pub unmap_at : ℕ → Option ℕ → P → Frames → Option (P × Frames)
  unmap_at addr none p f = some (p, f)
  unmap_at addr (some _) p f = freed f (m.unmap_page p (containing_address addr))

  unfoldable pub unmap_from : ℕ → ℕ → P → Frames → Option (P × Frames)
  unmap_from zero addr p f = some (p, f)
  unmap_from (suc n) addr p f =
      then_next (unmap_from n (addr + page_size)) (unmap_at addr (m.translate_addr p addr) p f)

  unfoldable pub shrunk : Vmm → Option (P × Frames) → Option (Vmm × P × Frames)
  shrunk v none = none
  shrunk v (some (p, f)) = some (v, p, f)

  unfoldable pub shrink_heap : Vmm → ℕ → ℕ → ℕ → ℕ → P → Frames → Option (Vmm × P × Frames)
  shrink_heap v heap_start new_end old_end flags p f =
      shrunk (set_heap_end v heap_start new_end flags)
        (unmap_from (rounds new_end old_end) new_end p f)

  -- a round of the loop of `mprotect`
  unfoldable pub remap_at : ℕ → ℕ → Option ℕ → P → Option P
  remap_at addr flags none p = some p
  remap_at addr flags (some _) p = m.remap_flags p (containing_address addr) flags

  unfoldable pub remap_from : ℕ → ℕ → ℕ → P → Option P
  remap_from zero addr flags p = some p
  remap_from (suc n) addr flags p =
      let next = remap_from n (addr + page_size) flags in
      elim (remap_at addr flags (m.translate_addr p addr) p) [ none ↦ none | some p' ↦ next p' ]

  -- a round of `fork_cow`, on the mappers of the child and of the parent: a page that is mapped is
  -- read-only in both
  unfoldable pub share_at : ℕ → ℕ → Option ℕ → P → P → Frames → Option (P × P × Frames)
  share_at addr ro none child parent f = some (child, parent, f)
  share_at addr ro (some phys) child parent f =
      let page = containing_address addr in
      elim (m.remap_flags parent page ro) [
        | none ↦ none
        | some parent' ↦ elim (m.map_page child f page (containing_address phys) ro) [
          | none ↦ none
          | some (child', f') ↦ some (child', parent', f')
        ]
      ]

  unfoldable pub share_from : ℕ → ℕ → ℕ → P → P → Frames → Option (P × P × Frames)
  share_from zero addr ro child parent f = some (child, parent, f)
  share_from (suc n) addr ro child parent f =
      let next = share_from n (addr + page_size) ro in
      elim (share_at addr ro (m.translate_addr parent addr) child parent f) [
        | none ↦ none
        | some (child', parent', f') ↦ next child' parent' f'
      ]

  unfoldable pub share_areas : List VmArea → Vmm → P → P → Frames → Option (Vmm × P × P × Frames)
  share_areas [] v child parent f = some (v, child, parent, f)
  share_areas (a ∷ areas) v child parent f =
      let ro = bit_and a.flags (bit_not 64 writable) in
      let next = share_areas areas (add_area v a) in
      elim (share_from (rounds a.start a.end) a.start ro child parent f) [
        | none ↦ none
        | some (child', parent', f') ↦ next child' parent' f'
      ]

  -- The address space of the child; the parent keeps its areas.
  unfoldable pub fork_cow : Vmm → P → P → Frames → Option (Vmm × P × P × Frames)
  fork_cow v child parent f = share_areas v.areas Area.new child parent f
