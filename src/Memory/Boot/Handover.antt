-- ===== src/Memory/Boot/Handover.antt =====
-- kernel/src/memory/mod.rs: `init` takes frames at boot for the kernel heap and gives the others to
-- the list of free frames.
use mathlib.Core.List.{Mem, Nodup, Nodup-nil, reverse}
use alaphi_os.Base.{
  ℕ, ◌^◌, ◌≤◌, ◌<◌, ◌≡◌, refl, sym, ap, subst, Option, none, some, List, [], All, length, take,
  drop, arith,
}
use alaphi_os.Memory.Regions.{MemoryRegion, frames, Fits}
use alaphi_os.Memory.FreeList.{Words, FreeListAllocator}
use alaphi_os.Memory.FreeList
use alaphi_os.Memory.FreeList.Links.{Linked}
use alaphi_os.Memory.FreeList.Stack.{Represents}
use alaphi_os.Memory.FreeList.Init.{Filling}
use alaphi_os.Memory.FreeList.Init
use alaphi_os.Memory.FreeList.Filled.{init-Represents}
use alaphi_os.Memory.Boot.{BootFrameAllocator, new}
use alaphi_os.Memory.Boot.Claims.{claims, Claimed, claims-Claimed}
use alaphi_os.Memory.Boot.Order.{New, new-New}

-- The frames taken at boot, and the memory and the allocator after them.
abbrev pub Handed : Type 0
Handed = List ℕ × Words × FreeListAllocator

unfoldable pub with_claims : ℕ → Option BootFrameAllocator → Option (List ℕ × BootFrameAllocator)
with_claims k none = none
with_claims k (some s) = claims k s

unfoldable pub kept : List ℕ → Option Filling → Option Handed
kept taken none = none
kept taken (some (m, s, _)) = some (taken, m, s)

unfoldable pub fill_rest :
    Words → List MemoryRegion → ℕ → Option (List ℕ × BootFrameAllocator) → Option Handed
fill_rest m regions phys_offset none = none
fill_rest m regions phys_offset (some (taken, s)) =
    kept taken (Init.init m FreeList.empty regions phys_offset s.frames_consumed)

-- `init`, where the heap and its page tables take `k` frames.
unfoldable pub init : Words → List MemoryRegion → ℕ → ℕ → Option Handed
init m regions phys_offset k = fill_rest m regions phys_offset (with_claims k (new regions))

empty-Represents :
    (m : Words) (phys_offset : ℕ)
    → Represents m (record FreeList.empty { phys_offset = phys_offset }) []
unfolding Linked FreeList.empty
empty-Represents m phys_offset = record {
  linked = refl;
  distinct = Nodup-nil;
  counted = refl;
  fits = omega arith;
}

Split : List MemoryRegion → ℕ → Option Handed → Type 0
Split regions k none = ⊥
Split regions k (some (taken, m, s)) =
    (taken ≡ take k (frames regions)) × Represents m s (reverse (drop k (frames regions)))

module _ (m : Words) (regions : List MemoryRegion) (phys_offset k : ℕ) (fit : All Fits regions)
    (distinct : Nodup (frames regions)) (zero_not : ¬ Mem 0 (frames regions))
    (room : length (frames regions) < 2 ^ 64) (enough : k ≤ length (frames regions)) where
  fill_rest-Split :
      (t : BootFrameAllocator) (o : Option (List ℕ × BootFrameAllocator))
      → t.frames_consumed ≡ 0
      → Claimed t k (frames regions) o
      → Split regions k (fill_rest m regions phys_offset o)
  unfolding fill_rest Claimed Split kept
  fill_rest-Split t none zero c = c
  fill_rest-Split t (some (taken, s)) zero (first, same, count) =
      let consumed : s.frames_consumed ≡ k = omega (arith, count, zero) in
      let (st, e, r) =
        init-Represents m FreeList.empty regions phys_offset s.frames_consumed
          (empty-Represents m phys_offset) fit distinct zero_not room in
      subst (λ o. Split regions k (kept taken o)) (sym e)
        (first, subst (λ n. Represents st.0 st.1 (reverse (drop n (frames regions)))) consumed r)

  init-Split :
      (o : Option BootFrameAllocator)
      → New regions o
      → Split regions k (fill_rest m regions phys_offset (with_claims k o))
  unfolding with_claims New
  init-Split none n = absurd n
  init-Split (some s) (ready, zero) =
      fill_rest-Split s (claims k s) zero
        (claims-Claimed k s (frames regions) ready enough (omega (arith, zero)))

Split-equation :
    (regions : List MemoryRegion) (k : ℕ) (o : Option Handed)
    → Split regions k o
    → (m : Words) × (s : FreeListAllocator) × (o ≡ some (take k (frames regions), m, s))
      × Represents m s (reverse (drop k (frames regions)))
unfolding Split
Split-equation regions k none h = absurd h
Split-equation regions k (some (taken, m, s)) (first, r) =
    (m, s, ap (λ fs. some (fs, m, s)) first, r)

-- When the usable regions are of whole frames, end below 2^52 - 4096, do not overlap and do not
-- hold the frame at address 0, and they have `k` frames or more (and fewer than 2^64): `init` does
-- not panic, the `k` frames taken at boot are the first ones of the map, and the links of the free
-- list spell out exactly the others, the last one first. So no frame is both taken at boot and
-- free, and none is lost.
pub init_hands_over :
    (m : Words) (regions : List MemoryRegion) (phys_offset k : ℕ)
    → All Fits regions
    → Nodup (frames regions)
    → ¬ Mem 0 (frames regions)
    → length (frames regions) < 2 ^ 64
    → k ≤ length (frames regions)
    → (m' : Words) × (s : FreeListAllocator) × (init m regions phys_offset k
        ≡ some (take k (frames regions), m', s))
      × Represents m' s (reverse (drop k (frames regions)))
unfolding init
init_hands_over m regions phys_offset k fit distinct zero_not room enough =
    Split-equation regions k (fill_rest m regions phys_offset (with_claims k (new regions))) (
      init-Split m regions phys_offset k fit distinct zero_not room enough (new regions)
        (new-New regions fit))
