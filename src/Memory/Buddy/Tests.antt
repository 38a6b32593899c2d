-- ===== src/Memory/Buddy/Tests.antt =====
-- kernel/src/memory/buddy_allocator.rs at a concrete input: one free block of 128 bytes.
use alaphi_os.Base.{◌+◌, ◌≤◌, ◌≡◌, refl, some, [], ◌∷◌, replicate}
use alaphi_os.Memory.Buddy.{
  BuddyAllocator, alloc_inner, dealloc_inner, order_of, order_from, block_size, padded, find_order,
  take_found, take_block, split, add_to_free_list, is_nil,
}
use alaphi_os.Memory.Buddy.Conservation.{total}
use alaphi_os.Memory.Buddy.Requests.{dealloc_inner-alloc_inner}

abbrev one_block : BuddyAllocator
one_block = record {
  free_lists = [] ∷ [] ∷ (128 ∷ []) ∷ replicate 16 [];
  heap_start = 0;
  heap_size = 256;
}

-- The halves of 64 and of 32 bytes are split off.
abbrev two_blocks : BuddyAllocator
two_blocks = record {
  free_lists = (160 ∷ []) ∷ (192 ∷ []) ∷ [] ∷ replicate 16 [];
  heap_start = 0;
  heap_size = 256;
}

allocated : alloc_inner one_block 20 8 ≡ (some 128, two_blocks)
unfolding alloc_inner order_of order_from block_size padded find_order take_found take_block split
    add_to_free_list is_nil
allocated = refl

dealloc_inner-alloc_inner_example :
    (20 ≤ block_size (order_of 20 8))
    × (8 ≤ block_size (order_of 20 8))
    × (total two_blocks.free_lists + block_size (order_of 20 8) ≡ total one_block.free_lists)
    × (total (dealloc_inner two_blocks 128 20 8).free_lists ≡ total one_block.free_lists)
dealloc_inner-alloc_inner_example =
    dealloc_inner-alloc_inner one_block two_blocks 20 8 128 refl allocated
