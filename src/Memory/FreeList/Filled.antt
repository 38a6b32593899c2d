-- ===== src/Memory/FreeList/Filled.antt =====
-- kernel/src/memory/free_list.rs: which frames `init` frees.
use mathlib.Core.List.{Mem, mem-cons, Nodup, Nodup-cons, not-mem-nil, reverse_aux}
use mathlib.Core.Logic.Or
use alaphi_os.Base.{
  ℕ, zero, suc, ◌+◌, ◌-◌, ◌*◌, ◌/◌, ◌%◌, ◌^◌, ◌<◌, ◌≡◌, ◌∙◌, refl, ap, sym, subst, some, List, [],
  ◌∷◌, ◌++◌, All, All-append, length, drop, ltb, true, arith,
}
use alaphi_os.Memory.Regions.{
  MemoryRegionKind, usable, other, MemoryRegion, frames_from, frames_as, frames, Fits, FitsAs,
}
use alaphi_os.Memory.FreeList.{Words, FreeListAllocator, phys_addr, deallocate}
use alaphi_os.Memory.FreeList.Links.{IsFrame, containing_address_self}
use alaphi_os.Memory.FreeList.Stack.{Represents, deallocate_pushes}
use alaphi_os.Memory.FreeList.Init.{
  Filling, skip_or_free, free_from, free_between, free_region, then_regions, free_regions, init,
}

-- The frames of a list, one by one.
abbrev pour : List ℕ → Filling → Filling
pour [] st = st
pour (f ∷ fs) st = pour fs (skip_or_free f st)

pour-append : (fs gs : List ℕ) (st : Filling) → pour (fs ++ gs) st ≡ pour gs (pour fs st)
pour-append [] gs st = refl
pour-append (f ∷ fs) gs st = pour-append fs gs (skip_or_free f st)

free_from-pour : (n a : ℕ) (st : Filling) → free_from n a st ≡ pour (frames_from n a) st
unfolding free_from
free_from-pour zero a st = refl
free_from-pour (suc n) a st = free_from-pour n (a + 4096) (skip_or_free a st)

in_bits : (a : ℕ) → a < 2 ^ 52 → phys_addr a ≡ some a
unfolding phys_addr
in_bits a h = let e : ltb a (2 ^ 52) ≡ true = ground (arith, h) in rw e refl

free_region-pour :
    (k : MemoryRegionKind) (start end : ℕ) (st : Filling)
    → FitsAs k start end
    → free_region k start end st ≡ some (pour (frames_as k start end) st)
unfolding free_region free_between
free_region-pour usable start end st p =
    let first : start < 2 ^ 52 = omega (arith, p.ordered, p.bits) in
    let last : end < 2 ^ 52 = omega (arith, p.bits) in
    let tested : start + ((end - start) / 4096 + 1) * 4096 < 2 ^ 52 =
      omega (arith, p.ordered, p.bits) in
    rw
      (
        in_bits start first,
        in_bits end last,
        in_bits (start + ((end - start) / 4096 + 1) * 4096) tested,
      )
      (ap some (free_from-pour ((end - start) / 4096) start st))
free_region-pour other start end st p = refl

pub free_regions-pour :
    (rs : List MemoryRegion) (st : Filling)
    → All Fits rs
    → free_regions rs st ≡ some (pour (frames rs) st)
unfolding free_regions then_regions
free_regions-pour [] st h = refl
free_regions-pour (r ∷ rs) st h =
    let here = free_region-pour r.kind r.start r.end st h.0 in
    let fs = frames_as r.kind r.start r.end in
    ap (then_regions (free_regions rs)) here
    ∙ free_regions-pour rs (pour fs st) h.1
    ∙ ap some (sym (pour-append fs (frames rs) st))

skip_or_free-free :
    (m : Words) (s : FreeListAllocator) (f : ℕ)
    → IsFrame f
    → skip_or_free f (m, s, 0) ≡ ((deallocate m s f).0, (deallocate m s f).1, 0)
unfolding skip_or_free
skip_or_free-free m s f frame =
    ap (λ c. ((deallocate m s c).0, (deallocate m s c).1, 0)) (containing_address_self f frame)

-- The free frames once `fs` have been passed over or freed: what `skip` leaves of them, the last one
-- first, before those that were free.
pour-Represents :
    (fs gs : List ℕ) (m : Words) (s : FreeListAllocator) (skip : ℕ)
    → Represents m s gs
    → All IsFrame fs
    → Nodup fs
    → ((x : ℕ) → Mem x fs → ¬ Mem x gs)
    → length fs + length gs < 2 ^ 64
    → Represents (pour fs (m, s, skip)).0 (pour fs (m, s, skip)).1 (reverse_aux (drop skip fs) gs)
unfolding skip_or_free
pour-Represents [] gs m s zero r frame distinct apart room = r
pour-Represents [] gs m s (suc skip) r frame distinct apart room = r
pour-Represents (f ∷ fs) gs m s (suc skip) r frame distinct apart room =
    pour-Represents fs gs m s skip r frame.1 (Nodup-cons.0 distinct).1
      (λ x h. apart x (mem-cons.1 (Or.inr h))) (omega arith)
pour-Represents (f ∷ fs) gs m s zero r frame distinct apart room =
    let (new, others) = Nodup-cons.0 distinct in
    subst (λ st. Represents (pour fs st).0 (pour fs st).1 (reverse_aux fs (f ∷ gs)))
      (sym (skip_or_free-free m s f frame.0))
      (pour-Represents fs (f ∷ gs) (deallocate m s f).0 (deallocate m s f).1 0
        (deallocate_pushes m s f gs r frame.0 (apart f (mem-cons.1 (Or.inl refl))) (omega arith))
        frame.1 others
        (λ x h k.
          Or.elim (hlevel) (mem-cons.0 k) (λ e. new (subst (λ y. Mem y fs) e h))
            (λ k'. apart x (mem-cons.1 (Or.inr h)) k'))
        (omega arith))

-- Frames are aligned and have 52 bits.
abbrev Small : ℕ → Type 0
Small a = (a < 2 ^ 52) × (a % 4096 ≡ 0)

frames_from-Small : (n a : ℕ) → a % 4096 ≡ 0 → a + n * 4096 < 2 ^ 52 → All Small (frames_from n a)
frames_from-Small zero a al h = tt
frames_from-Small (suc n) a al h =
    ((omega arith, al), frames_from-Small n (a + 4096) (omega arith) (omega arith))

frames_as-Small :
    (k : MemoryRegionKind) (start end : ℕ) → FitsAs k start end → All Small (frames_as k start end)
frames_as-Small usable start end p =
    frames_from-Small ((end - start) / 4096) start p.start_aligned
      (omega (arith, p.ordered, p.bits))
frames_as-Small other start end p = tt

frames-Small : (rs : List MemoryRegion) → All Fits rs → All Small (frames rs)
frames-Small [] h = tt
frames-Small (r ∷ rs) h =
    All-append Small (frames_as r.kind r.start r.end) (frames rs)
      (frames_as-Small r.kind r.start r.end h.0) (frames-Small rs h.1)

Small-IsFrame : (fs : List ℕ) → ¬ Mem 0 fs → All Small fs → All IsFrame fs
Small-IsFrame [] h k = tt
Small-IsFrame (zero ∷ fs) h k = absurd (h (mem-cons.1 (Or.inl refl)))
Small-IsFrame (suc f ∷ fs) h k = (
  record { positive = omega arith; bits = k.0.0; aligned = k.0.1 },
  Small-IsFrame fs (λ z. h (mem-cons.1 (Or.inr z))) k.1,
)

-- With usable regions of whole frames that do not overlap or hold the frame at address 0: `init` of
-- an allocator without frames does not panic, and the free frames are those of the regions but for
-- the first `skip`.
pub init-Represents :
    (m : Words) (s : FreeListAllocator) (rs : List MemoryRegion) (phys_offset skip : ℕ)
    → Represents m (record s { phys_offset = phys_offset }) []
    → All Fits rs
    → Nodup (frames rs)
    → ¬ Mem 0 (frames rs)
    → length (frames rs) < 2 ^ 64
    → (st : Filling) × (init m s rs phys_offset skip ≡ some st)
      × Represents st.0 st.1 (reverse_aux (drop skip (frames rs)) [])
unfolding init
init-Represents m s rs phys_offset skip r fit distinct zero_not room = (
  pour (frames rs) (m, record s { phys_offset = phys_offset }, skip),
  free_regions-pour rs (m, record s { phys_offset = phys_offset }, skip) fit,
  pour-Represents (frames rs) [] m (record s { phys_offset = phys_offset }) skip r
      (Small-IsFrame (frames rs) zero_not (frames-Small rs fit)) distinct (λ x _. not-mem-nil)
      (omega arith),
)
