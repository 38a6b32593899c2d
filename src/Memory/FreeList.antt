-- ===== src/Memory/FreeList.antt =====
-- kernel/src/memory/free_list.rs: free frames of 4096 bytes in a list whose links lie in the frames
-- themselves. A frame is its start address. `PhysAddr::new` of the crate x86_64 panics beyond 52 bits;
-- `none` is that panic.
pub mod Links
pub mod Stack
pub mod Init
pub mod Filled
use alaphi_os.Base.{ℕ, ◌+◌, ◌-◌, ◌%◌, ◌^◌, Option, none, some, ◌==◌, ltb, if◌then◌else◌}

-- The 64-bit word at each virtual address.
abbrev pub Words : Type 0
Words = ℕ → ℕ

-- `ptr::write`
unfoldable pub put_word : Words → ℕ → ℕ → Words
put_word m a v x = if x == a then v else m x

pub record FreeListAllocator : Type 0 where
  pub head : Option ℕ
  pub free_count : ℕ
  pub phys_offset : ℕ

unfoldable pub empty : FreeListAllocator
empty = record { head = none; free_count = 0; phys_offset = 0 }

-- `PhysFrame::containing_address`
unfoldable pub containing_address : ℕ → ℕ
containing_address a = a - a % 4096

unfoldable pub virt : ℕ → ℕ → ℕ
virt phys_offset a = (phys_offset + a) % 2 ^ 64

unfoldable pub phys_addr : ℕ → Option ℕ
phys_addr a = if ltb a (2 ^ 52) then some a else none

-- `match next_phys { 0 => None, _ => Some(PhysAddr::new(next_phys)) }`
unfoldable pub next_head : ℕ → Option (Option ℕ)
next_head next =
    if next == 0 then some none else elim (phys_addr next) [ none ↦ none | some a ↦ some (some a) ]

-- the end of `allocate`, on the next head
unfoldable pub take_head :
    FreeListAllocator → ℕ → Option (Option ℕ) → Option (Option ℕ × FreeListAllocator)
take_head s head_phys none = none
take_head s head_phys (some next) = some (
  some (containing_address head_phys),
  record s { head = next; free_count = (s.free_count + (2 ^ 64 - 1)) % 2 ^ 64 },
)

-- `let head_phys = self.head?`
unfoldable pub allocate_from :
    Words → FreeListAllocator → Option ℕ → Option (Option ℕ × FreeListAllocator)
allocate_from m s none = some (none, s)
allocate_from m s (some head_phys) =
    take_head s head_phys (next_head (m (virt s.phys_offset head_phys)))

unfoldable pub allocate : Words → FreeListAllocator → Option (Option ℕ × FreeListAllocator)
allocate m s = allocate_from m s s.head

-- `self.head.map(|x| x.as_u64()).unwrap_or(0)`
unfoldable pub link_of : Option ℕ → ℕ
link_of none = 0
link_of (some a) = a

unfoldable pub deallocate : Words → FreeListAllocator → ℕ → Words × FreeListAllocator
deallocate m s frame = (
  put_word m (virt s.phys_offset frame) (link_of s.head),
  record s { head = some frame; free_count = (s.free_count + 1) % 2 ^ 64 },
)
