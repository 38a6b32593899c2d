-- ===== src/Memory/Area.antt =====
-- kernel/src/memory/vmm.rs: the areas of `Vmm`. Addresses are numbers and flags are the bits of a
-- page-table entry. The page tables are not part of the state.
pub mod Protect
mod Tests
use alaphi_os.Base.{
  ℕ, Bool, Option, none, some, List, [], ◌∷◌, ◌++◌, ◌&&◌, ltb, leb, ◌==◌, if◌then◌else◌,
}
use alaphi_os.Base.Map.{Map, insert, nat_key}

-- `VmAreaKind` has the one value `Anonymous`.
pub data VmAreaKind : Type 0 where
  anonymous : VmAreaKind

pub record VmArea : Type 0 where
  pub start : ℕ
  pub end : ℕ
  pub flags : ℕ
  pub kind : VmAreaKind

-- `swapped`: page address ↦ (swap slot, flags to restore).
pub record Vmm : Type 0 where
  pub areas : List VmArea
  pub swapped : Map ℕ (ℕ × ℕ)

unfoldable pub new : Vmm
new = record { areas = []; swapped = [] }

unfoldable pub add_area : Vmm → VmArea → Vmm
add_area v area = record v { areas = v.areas ++ area ∷ [] }

unfoldable pub record_swapped : Vmm → ℕ → ℕ → ℕ → Vmm
record_swapped v page_vaddr slot flags = record v {
  swapped = insert page_vaddr (slot, flags) v.swapped;
}

-- `a.start <= addr && addr < a.end`
unfoldable pub covers : VmArea → ℕ → Bool
covers a addr = leb a.start addr && ltb addr a.end

-- The area of a fault: the first one that contains the address.
unfoldable pub find_area : List VmArea → ℕ → Option VmArea
find_area [] addr = none
find_area (a ∷ areas) addr = if covers a addr then some a else find_area areas addr

-- `replacements`
unfoldable pub replacements : VmArea → ℕ → ℕ → ℕ → List VmArea
replacements area addr end new_flags =
    (if ltb area.start addr then record area { end = addr } ∷ [] else [])
    ++ (record area { start = addr; end = end; flags = new_flags }
        ∷ (if ltb end area.end then record area { start = end } ∷ [] else []))

-- The areas after `mprotect` of the addresses from `addr` to `end`, which is `addr + len`: the first
-- one that contains `addr` is taken out and the replacements go in at its place.
unfoldable pub mprotect : List VmArea → ℕ → ℕ → ℕ → Option (List VmArea)
mprotect [] addr end new_flags = none
mprotect (a ∷ areas) addr end new_flags =
    let rest = mprotect areas addr end new_flags in
    if covers a addr
    then (if ltb a.end end then none else some (replacements a addr end new_flags ++ areas))
    else elim rest [ none ↦ none | some bs ↦ some (a ∷ bs) ]

-- The first area that starts at the heap takes the new end.
unfoldable pub move_end : List VmArea → ℕ → ℕ → Option (List VmArea)
move_end [] heap_start new_end = none
move_end (a ∷ areas) heap_start new_end =
    let rest = move_end areas heap_start new_end in
    if a.start == heap_start
    then some (record a { end = new_end } ∷ areas)
    else elim rest [ none ↦ none | some bs ↦ some (a ∷ bs) ]

unfoldable pub set_heap_end : Vmm → ℕ → ℕ → ℕ → Vmm
set_heap_end v heap_start new_end flags = elim (move_end v.areas heap_start new_end) [
  | some bs ↦ record v { areas = bs }
  | none ↦
      if ltb heap_start new_end
      then add_area v
          (record { start = heap_start; end = new_end; flags = flags; kind = anonymous })
      else v
]
