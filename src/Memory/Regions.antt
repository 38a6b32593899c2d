-- ===== src/Memory/Regions.antt =====
-- The memory map of the crate bootloader_api, and the usable frames of 4096 bytes in it.
use alaphi_os.Base.{ℕ, zero, suc, ◌+◌, ◌-◌, ◌/◌, ◌%◌, ◌^◌, ◌≤◌, ◌<◌, ◌≡◌, List, [], ◌∷◌, ◌++◌}

-- Of the kinds of a region the code tells only `Usable` from the others.
pub data MemoryRegionKind : Type 0 where
  usable : MemoryRegionKind
  other : MemoryRegionKind

-- `end` is exclusive.
pub record MemoryRegion : Type 0 where
  pub start : ℕ
  pub end : ℕ
  pub kind : MemoryRegionKind

-- `n` frames from the address `a` on.
abbrev pub frames_from : ℕ → ℕ → List ℕ
frames_from zero a = []
frames_from (suc n) a = a ∷ frames_from n (a + 4096)

abbrev pub frames_as : MemoryRegionKind → ℕ → ℕ → List ℕ
frames_as usable start end = frames_from ((end - start) / 4096) start
frames_as other start end = []

-- The frames of the usable regions, in the order of the map.
abbrev pub frames : List MemoryRegion → List ℕ
frames [] = []
frames (r ∷ rs) = frames_as r.kind r.start r.end ++ frames rs

-- A usable region of whole frames, which ends two frames below the limit of 52 bits.
pub record IsPaged (start end : ℕ) : Type 0 where
  pub start_aligned : start % 4096 ≡ 0
  pub end_aligned : end % 4096 ≡ 0
  pub ordered : start ≤ end
  pub positive : 0 < end
  pub bits : end + 4096 < 2 ^ 52

abbrev pub FitsAs : MemoryRegionKind → ℕ → ℕ → Type 0
FitsAs usable start end = IsPaged start end
FitsAs other start end = Unit

abbrev pub Fits : MemoryRegion → Type 0
Fits r = FitsAs r.kind r.start r.end
