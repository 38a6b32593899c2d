-- ===== src/Memory/Fault/Tests.antt =====
-- kernel/src/memory/vmm.rs, `handle_fault`, on page tables that are a function: a write at byte 8 of
-- a page.
use alaphi_os.Base.{
  ℕ, ◌+◌, ◌-◌, ◌%◌, ◌<◌, ◌≡◌, refl, true, Option, none, some, [], ◌∷◌, ok, ◌==◌, if◌then◌else◌,
}
use alaphi_os.Memory.Area.{VmArea, anonymous, find_area, covers}
use alaphi_os.Memory.FreeList.{
  FreeListAllocator, containing_address, allocate, allocate_from, take_head, next_head, virt,
}
use alaphi_os.Memory.Paging.{Mapper, Frames, page_size}
use alaphi_os.Memory.Swap
use alaphi_os.Memory.Fault.{
  Machine, handle_fault, phys_mem_offset, fault_of, fault_in_area, fault_at, with_frame, copy_frame,
  remap, map_now, mapped, fill_frame, with_bytes,
}
use alaphi_os.Memory.Fault.Copies.{cow_copy_shifted, copied}
use alaphi_os.Memory.Fault.Mapping.{SamePage, Maps}
use alaphi_os.Memory.Fault.Confinement.{handle_fault-Spares}
use alaphi_os.Memory.FreeList.Links.{Linked}
use alaphi_os.Memory.FreeList.{link_of}
use alaphi_os.Memory.FreeList.Stack.{Represents}
use alaphi_os.Base.Distinct.{Nodup-of_differ}
use mathlib.Core.List.{Nodup-cons}
use mathlib.Core.Option.{some-injective}
use alaphi_os.Base.{Result, err, sym, ap, arith}

-- The frame of each page.
abbrev Tables : Type 0
Tables = ℕ → Option ℕ

abbrev put : Tables → ℕ → Option ℕ → Tables
put t page o a = if a == page then o else t a

abbrev byte_of : ℕ → Option ℕ → Option ℕ
byte_of a none = none
byte_of a (some frame) = some (frame + a % 4096)

abbrev taken_out : Tables → ℕ → Option ℕ → Option (ℕ × Tables)
taken_out t page none = none
taken_out t page (some frame) = some (frame, put t page none)

abbrev tables_mapper : Mapper Tables
tables_mapper = record {
  translate_addr = λ t a. byte_of a (t (a - a % 4096));
  map_page = λ t f page frame flags. some (put t page (some frame), f);
  unmap_page = λ t page. taken_out t page (t page);
  remap_flags = λ t page flags. some t;
}

abbrev shared_at_two : Tables
shared_at_two a = if a == 8192 then some 40960 else none

abbrev heap : VmArea
heap = record { start = 8192; end = 12288; flags = 7; kind = anonymous }

abbrev one_free : Frames
one_free = record {
  words = λ _. 0;
  allocator = record { head = some 4096; free_count = 1; phys_offset = 0 };
  bytes = λ a. a % 256;
}

abbrev none_free : FreeListAllocator
none_free = record { head = none; free_count = 0; phys_offset = 0 }

abbrev forked : Machine Tables
forked = record {
  vmm = record { areas = heap ∷ []; swapped = [] };
  tables = shared_at_two;
  frames = one_free;
  swap = Swap.new 1;
}

abbrev in_page_apart : Tables
in_page_apart = put shared_at_two 8192 none

in_area : find_area forked.vmm.areas 8200 ≡ some heap
unfolding find_area covers
in_area = refl

last_free : allocate one_free.words one_free.allocator ≡ some (some 4096, none_free)
unfolding allocate allocate_from take_head next_head virt containing_address
last_free = refl

page_two : containing_address 8200 ≡ 8192
unfolding containing_address
page_two = refl

-- The page is copied and mapped again.
abbrev resolved : Machine Tables
resolved = record forked {
  tables = put in_page_apart 8192 (some 4096);
  frames = copied forked none_free 4096 (40960 + 8200 % 4096);
}

cow_copy_shifted_example :
    (s' : Machine Tables) × (handle_fault tables_mapper 8200 true forked ≡ some (ok tt, s'))
    × ((i : ℕ)
        → i < page_size
        → s'.frames.bytes (phys_mem_offset + 4096 + i)
          ≡ forked.frames.bytes (phys_mem_offset + (40960 + 8200 % 4096) + i))
unfolding containing_address
cow_copy_shifted_example =
    cow_copy_shifted tables_mapper forked 8200 40960 4096 heap none_free 40960 in_page_apart
      (put in_page_apart 8192 (some 4096)) (copied forked none_free 4096 (40960 + 8200 % 4096)) refl
      in_area refl refl last_free refl refl (λ i _. refl)

handled : handle_fault tables_mapper 8200 true forked ≡ some (ok tt, resolved)
unfolding handle_fault fault_of fault_in_area fault_at with_frame copy_frame remap map_now mapped
    fill_frame with_bytes containing_address find_area covers allocate allocate_from take_head
    next_head virt
handled = refl

-- The tables lie in one frame.
abbrev IsTable : Tables → ℕ → Type 0
IsTable t g = g ≡ 53248

lawful : Maps tables_mapper IsTable
lawful = record {
  maps = λ p p' f f' fs page frame flags g e _ _ _ _ i _.
      ap (λ (r : Tables × Frames). r.1.bytes (phys_mem_offset + g + i))
        (sym (some-injective _ _ e));
  unmaps = λ p p' page frame g e q. q;
}

one_free-Represents : Represents one_free.words one_free.allocator (4096 ∷ [])
unfolding Linked virt link_of
one_free-Represents = record {
  linked = (
    refl,
    record { positive = omega arith; bits = omega arith; aligned = refl },
    none,
    refl,
    refl,
  );
  distinct = Nodup-of_differ (4096 ∷ []) (omega arith);
  counted = refl;
  fits = omega arith;
}

-- The page that the fork shares keeps its bytes.
handle_fault-Spares_example :
    SamePage 40960 forked.frames.bytes resolved.frames.bytes
    × (◌≡◌ {A = Result (Unit {0}) (Unit {0})} (ok tt) (err tt)
        → resolved.frames.bytes ≡ forked.frames.bytes)
handle_fault-Spares_example =
    handle_fault-Spares tables_mapper IsTable forked resolved (4096 ∷ []) 40960 8200 true (ok tt)
      lawful one_free-Represents
      (record { positive = omega arith; bits = omega arith; aligned = refl })
      (Nodup-cons.0 (Nodup-of_differ (40960 ∷ 4096 ∷ []) (omega arith))).0
      (λ e. absurd (omega arith)) handled
