-- ===== src/Memory/Buddy/Requests.antt =====
-- kernel/src/memory/buddy_allocator.rs: `alloc_inner` and `dealloc_inner` on a request.
use alaphi_os.Base.{
  ℕ, zero, suc, ◌+◌, ◌-◌, ◌≤◌, ◌<◌, ◌≡◌, ◌∙◌, refl, ap, subst, Option, none, some, List, [], ◌∷◌,
  length, get_or, set, ltb, arith, inl, inr, Bool-cases, length-set,
}
use alaphi_os.Memory.Buddy.{
  FreeLists, BuddyAllocator, block_size, order_from, order_of, padded, is_nil, find_order, split,
  take_block, take_found, alloc_inner, dealloc_inner,
}
use alaphi_os.Memory.Buddy.Conservation.{
  weight, total, total-set, total-split, total-merge, length-split,
}

order_from-le : (n ord size : ℕ) → order_from n ord size ≤ ord + n
unfolding order_from
order_from-le zero ord size = omega arith
order_from-le (suc n) ord size = elim (Bool-cases (ltb (block_size ord) size)) [
  | inl e ↦ rw e (omega (arith, order_from-le n (suc ord) size))
  | inr e ↦ rw e (omega arith)
]

order_of-le : (size align : ℕ) → order_of size align ≤ 18
unfolding order_of
order_of-le size align = omega (arith, order_from-le 18 0 (padded size align))

-- What an allocation of a block of order `ord` has done.
Taken : FreeLists → ℕ → Option ℕ × FreeLists → Type 0
Taken ls ord (none, ls') = ls' ≡ ls
Taken ls ord (some block, ls') = (total ls' + block_size ord ≡ total ls) × (length ls' ≡ length ls)

take_block-Taken :
    (ls : FreeLists) (ord found : ℕ) (l : List ℕ)
    → get_or ls found [] ≡ l
    → ord ≤ found
    → found < length ls
    → Taken ls ord (take_block ls ord found l)
unfolding take_block Taken
take_block-Taken ls ord found [] e h k = refl
take_block-Taken ls ord found (block ∷ rest) e h k =
    let same : ord + (found - ord) ≡ found = omega arith in
    let w = ap (λ l. weight l found) e in
    (
      omega (
        arith,
        w,
        total-set ls found rest k,
        subst
            (λ t.
              total (split (found - ord) ord block (set ls found rest)) + block_size ord
              ≡ total (set ls found rest) + block_size t)
            same
            (total-split (found - ord) ord block (set ls found rest)
              (omega (arith, length-set ls found rest))),
      ),
      length-split (found - ord) ord block (set ls found rest) ∙ length-set ls found rest,
    )

find_order-Taken :
    (n ord found : ℕ) (ls : FreeLists)
    → ord ≤ found
    → found + n ≤ length ls
    → Taken ls ord (take_found ls ord (find_order n found ls))
unfolding find_order take_found Taken
find_order-Taken zero ord found ls h k = refl
find_order-Taken (suc n) ord found ls h k = elim (Bool-cases (is_nil (get_or ls found []))) [
  | inl e ↦ rw e (find_order-Taken n ord (suc found) ls (omega arith) (omega arith))
  | inr e ↦ rw e (take_block-Taken ls ord found (get_or ls found []) refl h (omega arith))
]

-- What a call of `alloc_inner` has done: nothing, or it has taken a block that is large enough.
Allocates : BuddyAllocator → ℕ → ℕ → Option ℕ × BuddyAllocator → Type 0
Allocates s size align (none, s') = s'.free_lists ≡ s.free_lists
Allocates s size align (some block, s') =
    (padded size align ≤ block_size (order_of size align))
    × (total s'.free_lists + block_size (order_of size align) ≡ total s.free_lists)
    × (length s'.free_lists ≡ length s.free_lists)

alloc_inner-Allocates :
    (s : BuddyAllocator) (size align : ℕ)
    → length s.free_lists ≡ 19
    → Allocates s size align (alloc_inner s size align)
unfolding alloc_inner Allocates Taken
alloc_inner-Allocates s size align h =
    let ord = order_of size align in
    let found = find_order (19 - ord) ord s.free_lists in
    elim (Bool-cases (ltb (block_size ord) (padded size align))) [
      | inl e ↦ rw e refl
      | inr e ↦ rw e (
          settled (take_found s.free_lists ord found)
            (find_order-Taken (19 - ord) ord ord s.free_lists (omega arith)
              (omega (arith, order_of-le size align)))
            (ground (arith, e)))
    ]
  where
    settled :
        (r : Option ℕ × FreeLists)
        → Taken s.free_lists (order_of size align) r
        → padded size align ≤ block_size (order_of size align)
        → Allocates s size align (r.0, record s { free_lists = r.1 })
    settled (none, ls) t room = t
    settled (some block, ls) t room = (room, t.0, t.1)

-- When `alloc_inner` gives a block, the block is as large as the request and its alignment ask for,
-- and the free lists hold exactly its size less; when `dealloc_inner` then takes it back, whatever it
-- merges, they hold as many bytes as before.
pub dealloc_inner-alloc_inner :
    (s s' : BuddyAllocator) (size align block : ℕ)
    → length s.free_lists ≡ 19
    → alloc_inner s size align ≡ (some block, s')
    → (size ≤ block_size (order_of size align))
      × (align ≤ block_size (order_of size align))
      × (total s'.free_lists + block_size (order_of size align) ≡ total s.free_lists)
      × (total (dealloc_inner s' block size align).free_lists ≡ total s.free_lists)
unfolding dealloc_inner Allocates padded
dealloc_inner-alloc_inner s s' size align block h e =
    let (room, less, same) =
      subst (Allocates s size align) e (alloc_inner-Allocates s size align h) in
    let ord = order_of size align in
    (
      omega (arith, room),
      omega (arith, room),
      less,
      omega (
        arith,
        less,
        total-merge (18 - ord) ord block s'.free_lists
            (omega (arith, order_of-le size align, same, h)),
      ),
    )
