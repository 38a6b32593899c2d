-- ===== src/Memory/Boot/Tests.antt =====
-- kernel/src/memory/mod.rs at a memory map of five usable frames.
use mathlib.Core.List.{Mem, Nodup-cons}
use alaphi_os.Base.Distinct.{Nodup-of_differ}
use alaphi_os.Base.{◌≡◌, refl, some, List, [], ◌∷◌, arith}
use alaphi_os.Memory.Regions.{MemoryRegion, usable, other, frames, IsPaged}
use alaphi_os.Memory.FreeList.{Words, FreeListAllocator}
use alaphi_os.Memory.FreeList.Stack.{Represents}
use alaphi_os.Memory.Boot.Handover.{init, init_hands_over}

abbrev zeros : Words
zeros a = 0

abbrev memory_map : List MemoryRegion
memory_map =
    record { start = 0; end = 4096; kind = other }
    ∷ record { start = 4096; end = 16384; kind = usable }
    ∷ record { start = 16384; end = 20480; kind = other }
    ∷ record { start = 20480; end = 28672; kind = usable }
    ∷ []

first-IsPaged : IsPaged 4096 16384
first-IsPaged = record {
  start_aligned = refl;
  end_aligned = refl;
  ordered = omega arith;
  positive = omega arith;
  bits = omega arith;
}

second-IsPaged : IsPaged 20480 28672
second-IsPaged = record {
  start_aligned = refl;
  end_aligned = refl;
  ordered = omega arith;
  positive = omega arith;
  bits = omega arith;
}

map_frames : frames memory_map ≡ 4096 ∷ 8192 ∷ 12288 ∷ 20480 ∷ 24576 ∷ []
map_frames = refl

zero_apart : ¬ Mem 0 (frames memory_map)
zero_apart = (Nodup-cons.0 (Nodup-of_differ (0 ∷ frames memory_map) (omega arith))).0

-- Two frames at boot, the second region and the last frame of the first one are then free.
init_hands_over_example :
    (m' : Words) × (s : FreeListAllocator) × (init zeros memory_map 1000 2
      ≡ some (4096 ∷ 8192 ∷ [], m', s))
    × Represents m' s (24576 ∷ 20480 ∷ 12288 ∷ [])
init_hands_over_example =
    init_hands_over zeros memory_map 1000 2 (tt, (first-IsPaged, (tt, (second-IsPaged, tt))))
      (Nodup-of_differ (frames memory_map) (omega arith)) zero_apart (omega arith) (omega arith)
