-- ===== src/Memory/Buddy.antt =====
-- kernel/src/memory/buddy_allocator.rs: the kernel heap, blocks of 32 * 2^order bytes. The links of a
-- free list lie in its blocks; here a list is the chain of blocks that its links spell out. A null
-- pointer is `none`.
pub mod Conservation
pub mod Requests
mod Tests
use Prim.Native.Nat.{bit_and, bit_xor}
use alaphi_os.Base.{
  ℕ, zero, suc, ◌+◌, ◌-◌, ◌*◌, ◌/◌, ◌^◌, min, max, Bool, true, false, Option, none, some, List, [],
  ◌∷◌, replicate, get_or, set, ltb, leb, ◌==◌, ◌&&◌, if◌then◌else◌,
}

abbrev pub max_order : ℕ
max_order = 18

abbrev pub min_block_size : ℕ
min_block_size = 32

abbrev pub FreeLists : Type 0
FreeLists = List (List ℕ)

pub record BuddyAllocator : Type 0 where
  pub free_lists : FreeLists
  pub heap_start : ℕ
  pub heap_size : ℕ

unfoldable pub empty : BuddyAllocator
empty = record { free_lists = replicate (max_order + 1) []; heap_start = 0; heap_size = 0 }

-- `MIN_BLOCK_SIZE << ord`
unfoldable pub block_size : ℕ → ℕ
block_size ord = min_block_size * 2 ^ ord

unfoldable pub add_to_free_list : FreeLists → ℕ → ℕ → FreeLists
add_to_free_list lists order ptr = set lists order (ptr ∷ get_or lists order [])

-- the inner loop of `init`: the largest order above 0 whose block fits and is aligned, or 0
unfoldable pub fitting_order : ℕ → ℕ → ℕ → ℕ
fitting_order zero curr end = 0
fitting_order (suc ord) curr end =
    let size = block_size (suc ord) in
    let smaller = fitting_order ord curr end in
    if leb (curr + size) end && bit_and curr (size - 1) == 0 then suc ord else smaller

-- The outer loop of `init`. A round goes on by 32 bytes or more, so one round for every 32 bytes and
-- one more are enough.
unfoldable pub fill : ℕ → ℕ → ℕ → FreeLists → FreeLists
fill zero curr end lists = lists
fill (suc n) curr end lists =
    let ord = fitting_order max_order curr end in
    let size = block_size ord in
    let rest = fill n (curr + size) end (add_to_free_list lists ord curr) in
    if ltb curr end && leb (curr + size) end then rest else lists

unfoldable pub init : BuddyAllocator → ℕ → ℕ → BuddyAllocator
init s heap_start heap_size = record {
  free_lists =
      fill (heap_size / min_block_size + 1) heap_start (heap_start + heap_size) s.free_lists;
  heap_start = heap_start;
  heap_size = heap_size;
}

-- `while ord < MAX_ORDER && (MIN_BLOCK_SIZE << ord) < size`, over the rounds left
unfoldable pub order_from : ℕ → ℕ → ℕ → ℕ
order_from zero ord size = ord
order_from (suc n) ord size =
    let larger = order_from n (suc ord) size in if ltb (block_size ord) size then larger else ord

unfoldable pub padded : ℕ → ℕ → ℕ
padded size align = max (max size align) min_block_size

unfoldable pub order_of : ℕ → ℕ → ℕ
order_of size align = order_from max_order 0 (padded size align)

unfoldable pub is_nil : List ℕ → Bool
is_nil [] = true
is_nil (_ ∷ _) = false

-- the search for a list that is not empty, over the orders left
unfoldable pub find_order : ℕ → ℕ → FreeLists → Option ℕ
find_order zero found lists = none
find_order (suc n) found lists =
    let rest = find_order n (suc found) lists in
    if is_nil (get_or lists found []) then rest else some found

-- The upper halves of the block go to the lists below, the largest first.
unfoldable pub split : ℕ → ℕ → ℕ → FreeLists → FreeLists
split zero ord block lists = lists
split (suc n) ord block lists =
    split n ord block (add_to_free_list lists (ord + n) (block + block_size (ord + n)))

-- the first block of the list found, split down to the order asked for
unfoldable pub take_block : FreeLists → ℕ → ℕ → List ℕ → Option ℕ × FreeLists
take_block lists ord found [] = (none, lists)
take_block lists ord found (block ∷ rest) =
    (some block, split (found - ord) ord block (set lists found rest))

unfoldable pub take_found : FreeLists → ℕ → Option ℕ → Option ℕ × FreeLists
take_found lists ord none = (none, lists)
take_found lists ord (some found) = take_block lists ord found (get_or lists found [])

unfoldable pub alloc_inner : BuddyAllocator → ℕ → ℕ → Option ℕ × BuddyAllocator
alloc_inner s size align =
    let ord = order_of size align in
    let (block, lists) =
      take_found s.free_lists ord (find_order (max_order + 1 - ord) ord s.free_lists) in
    if ltb (block_size ord) (padded size align)
    then (none, s)
    else (block, record s { free_lists = lists })

unfoldable pub keep : ℕ → Option (List ℕ) → Option (List ℕ)
keep p none = none
keep p (some ps) = some (p ∷ ps)

-- The list without the block, if the block is in it.
unfoldable pub unlink : ℕ → List ℕ → Option (List ℕ)
unlink ptr [] = none
unlink ptr (p ∷ ps) = let rest = unlink ptr ps in if p == ptr then some ps else keep p rest

-- `if is_free { … } else { break }`
unfoldable pub joined : FreeLists → (List ℕ → FreeLists) → Option (List ℕ) → FreeLists
joined lists next none = lists
joined lists next (some rest) = next rest

-- The loop of `dealloc_inner` over the orders left: a block whose buddy is free joins it.
unfoldable pub merge : ℕ → ℕ → ℕ → FreeLists → FreeLists
merge zero ord ptr lists = add_to_free_list lists ord ptr
merge (suc n) ord ptr lists =
    let buddy = bit_xor ptr (block_size ord) in
    joined (add_to_free_list lists ord ptr)
      (λ rest. merge n (suc ord) (min ptr buddy) (set lists ord rest))
      (unlink buddy (get_or lists ord []))

unfoldable pub dealloc_inner : BuddyAllocator → ℕ → ℕ → ℕ → BuddyAllocator
dealloc_inner s ptr size align =
    let ord = order_of size align in
    record s { free_lists = merge (max_order - ord) ord ptr s.free_lists }
