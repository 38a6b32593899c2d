-- ===== src/Memory/Fault/Mapping.antt =====
-- kernel/src/memory/vmm.rs, `handle_fault`: the pages that a mapping and a filled page leave alone.
use mathlib.Core.List.{Mem}
use alaphi_os.Base.{
  ℕ, ◌+◌, ◌<◌, ◌≤◌, ◌⊎◌, ◌≡◌, ◌≢◌, refl, inl, inr, false, some, List, ltb, leb, ◌&&◌, Bool-cases,
  arith,
}
use alaphi_os.Base.Map.{nat_key}
use alaphi_os.Memory.FreeList.Links.{IsFrame}
use alaphi_os.Memory.FreeList.Stack.{Represents}
use alaphi_os.Memory.Paging.{Mapper, Frames, page_size}
use alaphi_os.Memory.Fault.{phys_mem_offset, fill_page}

-- The bytes of the page of the frame `g` are the same.
abbrev pub SamePage : ℕ → (ℕ → ℕ) → (ℕ → ℕ) → Type 0
SamePage g bytes bytes' =
    (i : ℕ) → i < page_size → bytes' (phys_mem_offset + g + i) ≡ bytes (phys_mem_offset + g + i)

-- What the code relies on of a page mapper, where `IsTable p g` says that the tables `p` lie in the
-- frame `g` among others: a mapping writes to the frames of the tables and to free frames that become
-- tables, and to nothing else, and an unmapping adds no frame to the tables.
pub record Maps {P : Type 0} (m : Mapper P) (IsTable : P → ℕ → Type 0) : Type 0 where
  pub maps :
      (p p' : P) (f f' : Frames) (fs : List ℕ) (page frame flags g : ℕ)
      → m.map_page p f page frame flags ≡ some (p', f')
      → Represents f.words f.allocator fs
      → IsFrame g
      → ¬ Mem g fs
      → ¬ IsTable p g
      → SamePage g f.bytes f'.bytes
  pub unmaps :
      (p p' : P) (page frame g : ℕ)
      → m.unmap_page p page ≡ some (frame, p')
      → IsTable p' g
      → IsTable p g

-- Two frames do not overlap.
far :
    (frame g : ℕ) → IsFrame frame → IsFrame g → g ≢ frame → (g + 4096 ≤ frame) ⊎ (frame + 4096 ≤ g)
far frame g af ag apart = elim (Bool-cases (ltb g frame)) [
  | inl e ↦ let l : g < frame = ground (arith, e) in inl (omega (arith, af.aligned, ag.aligned, l))
  | inr e ↦
      let l : frame ≤ g = ground (arith, e) in
      let n : frame < g = omega (arith, l, apart) in inr (omega (arith, af.aligned, ag.aligned, n))
]

pub fill_page_outside :
    (bytes content : ℕ → ℕ) (frame g : ℕ)
    → IsFrame frame
    → IsFrame g
    → g ≢ frame
    → SamePage g bytes (fill_page bytes (phys_mem_offset + frame) content)
unfolding fill_page
fill_page_outside bytes content frame g af ag apart i h =
    let out : (leb (phys_mem_offset + frame) (phys_mem_offset + g + i)
          && ltb (phys_mem_offset + g + i) (phys_mem_offset + frame + page_size))
        ≡ false =
      elim (far frame g af ag apart) [
        | inl d ↦ ground (arith, d, h)
        | inr d ↦ ground (arith, d, h)
      ] in
    rw out refl
