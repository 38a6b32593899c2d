-- ===== src/Memory/Fault/Confinement.antt =====
-- kernel/src/memory/vmm.rs, `handle_fault`: the pages that a fault leaves alone.
use mathlib.Core.List.{Mem, mem-cons}
use mathlib.Core.Logic.Or
use Prim.Native.Nat.{bit_and}
use alaphi_os.Base.{
  ℕ, ◌+◌, ◌≡◌, ◌≢◌, ◌∙◌, refl, ap, sym, subst, inl, inr, Bool, Option, none, some, List, [], ◌∷◌,
  Result, ok, err, ◌==◌, ◌||◌, not, Bool-cases, get_or,
}
use alaphi_os.Base.Map.{get, remove, nat_key}
use alaphi_os.Base.Bytes.{Bytes}
use alaphi_os.Memory.Area.{VmArea, find_area}
use alaphi_os.Memory.FreeList.{allocate, containing_address}
use alaphi_os.Memory.FreeList.Links.{IsFrame, Linked}
use alaphi_os.Memory.FreeList.Stack.{Represents, allocate_pops, allocate-none}
use alaphi_os.Memory.Paging.{Mapper, Frames, page_size, writable}
use alaphi_os.Memory.Swap.{SwapPartition, swap_in}
use alaphi_os.Memory.Fault.{
  phys_mem_offset, Machine, Handled, failed, fill_page, fill_frame, with_bytes, with_frame, mapped,
  map_now, map_swapped, fault_in, remap, copy_frame, zero_fill, read_bytes, fault_at, fault_in_area,
  fault_of, handle_fault,
}
use alaphi_os.Memory.Fault.Mapping.{SamePage, Maps, fill_page_outside}

-- What a handler does to the page of `g`, from these bytes.
unfoldable pub Spares : {P : Type 0} → ℕ → (ℕ → ℕ) → Handled P → Type 0
Spares g bytes none = Unit {0}
Spares g bytes (some (err _, s')) = s'.frames.bytes ≡ bytes
Spares g bytes (some (ok _, s')) = SamePage g bytes s'.frames.bytes

module _ {P : Type 0} (m : Mapper P) (IsTable : P → ℕ → Type 0) (law : Maps m IsTable) (g : ℕ)
    (frame_g : IsFrame g) where
  -- A machine whose free frames are `fs`, in which `g` is in use and holds no table.
  record InUse (u : Machine P) (fs : List ℕ) : Type 0 where
    free : Represents u.frames.words u.frames.allocator fs
    apart : ¬ Mem g fs
    no_table : ¬ IsTable u.tables g

  map_now-Spares :
      (page flags frame : ℕ) (u : Machine P) (fs : List ℕ) (content : ℕ → ℕ)
      → InUse u fs
      → IsFrame frame
      → g ≢ frame
      → Spares g u.frames.bytes (map_now m page flags frame (fill_frame u frame content))
  unfolding map_now fill_frame with_bytes mapped Spares
  map_now-Spares page flags frame u fs content use' af apart =
      go (m.map_page u.tables filled page frame flags) refl
    where
      filled : Frames
      filled = record u.frames {
        bytes = fill_page u.frames.bytes (phys_mem_offset + frame) content;
      }

      go :
          (o : Option (P × Frames))
          → m.map_page u.tables filled page frame flags ≡ o
          → Spares g u.frames.bytes (mapped (record u { frames = filled }) o)
      go none e = tt
      go (some (p, f)) e = λ i h.
          law.maps u.tables p filled f fs page frame flags g e use'.free frame_g use'.apart
            use'.no_table i h
          ∙ fill_page_outside u.frames.bytes content frame g af frame_g apart i h

  -- With the next free frame in hand: a handler that spares `g` then, spares it.
  with_frame-Spares :
      (t : Machine P) (fs : List ℕ) (next : ℕ → Machine P → Handled P)
      → InUse t fs
      → ((frame : ℕ) (rest : List ℕ) (u : Machine P)
          → u.frames.bytes ≡ t.frames.bytes
          → InUse u rest
          → IsFrame frame
          → g ≢ frame
          → Spares g t.frames.bytes (next frame u))
      → Spares g t.frames.bytes (with_frame t next (allocate t.frames.words t.frames.allocator))
  unfolding with_frame failed Spares Linked
  with_frame-Spares t [] next use' h =
      subst (λ o. Spares g t.frames.bytes (with_frame t next o))
        (sym (allocate-none t.frames.words t.frames.allocator use'.free)) refl
  with_frame-Spares t (f ∷ fs) next use' h =
      let (a, now, after) = allocate_pops t.frames.words t.frames.allocator f fs use'.free in
      subst (λ o. Spares g t.frames.bytes (with_frame t next o)) (sym now)
        (h f fs (record t { frames = record t.frames { allocator = a } }) refl
          (record {
            free = after;
            apart = λ q. use'.apart (mem-cons.1 (Or.inr q));
            no_table = use'.no_table;
          })
          (use'.free.linked.1) (λ e. use'.apart (mem-cons.1 (Or.inl e))))

  zero_fill-Spares :
      (page flags frame : ℕ) (u : Machine P) (fs : List ℕ)
      → InUse u fs
      → IsFrame frame
      → g ≢ frame
      → Spares g u.frames.bytes (zero_fill m page flags frame u)
  unfolding zero_fill
  zero_fill-Spares page flags frame u fs = map_now-Spares page flags frame u fs (λ _. 0)

  copy_frame-Spares :
      (page phys flags frame : ℕ) (u : Machine P) (fs : List ℕ)
      → InUse u fs
      → IsFrame frame
      → g ≢ frame
      → Spares g u.frames.bytes (copy_frame m page phys flags frame u)
  unfolding copy_frame remap Spares fill_frame with_bytes
  copy_frame-Spares page phys flags frame u fs use' af apart = go (m.unmap_page u.tables page) refl
    where
      content : ℕ → ℕ
      content i = u.frames.bytes (phys_mem_offset + phys + i)

      go :
          (o : Option (ℕ × P))
          → m.unmap_page u.tables page ≡ o
          → Spares g u.frames.bytes (remap m page flags frame (fill_frame u frame content) o)
      go none e = tt
      go (some (old, p)) e =
          map_now-Spares page flags frame (record u { tables = p }) fs content
            (record {
              free = use'.free;
              apart = use'.apart;
              no_table = λ q. use'.no_table (law.unmaps u.tables p page old g e q);
            })
            af apart

  fault_in-Spares :
      (page slot flags frame : ℕ) (u : Machine P) (fs : List ℕ)
      → InUse u fs
      → IsFrame frame
      → g ≢ frame
      → Spares g u.frames.bytes (fault_in m page slot flags frame u)
  unfolding fault_in map_swapped Spares
  fault_in-Spares page slot flags frame u fs use' af apart =
      go (swap_in u.swap slot (read_bytes u.frames.bytes page_size (phys_mem_offset + frame)))
    where
      go :
          (o : Option (Bytes × SwapPartition))
          → Spares g u.frames.bytes (map_swapped m page flags frame u o)
      go none = tt
      go (some (content, part)) =
          map_now-Spares page flags frame (record u { swap = part }) fs (λ i. get_or content i 0)
            (record { free = use'.free; apart = use'.apart; no_table = use'.no_table }) af apart

  module _ (s : Machine P) (fs : List ℕ) (use' : InUse s fs) where
    spared :
        (frame : ℕ) (rest : List ℕ) (u : Machine P) (next : ℕ → Machine P → Handled P)
        → u.frames.bytes ≡ s.frames.bytes
        → Spares g u.frames.bytes (next frame u)
        → Spares g s.frames.bytes (next frame u)
    spared frame rest u next e q = subst (λ b. Spares g b (next frame u)) e q

    fault_at-Spares :
        (page : ℕ) (is_write : Bool) (area : VmArea) (o : Option ℕ)
        → Spares g s.frames.bytes (fault_at m page is_write s area o)
    unfolding fault_at failed Spares
    fault_at-Spares page is_write area none =
        with_frame-Spares s fs (zero_fill m page area.flags) use' (λ frame rest u e w af apart.
          spared frame rest u (zero_fill m page area.flags) e
            (zero_fill-Spares page area.flags frame u rest w af apart))
    fault_at-Spares page is_write area (some phys) =
        elim (Bool-cases (not is_write || bit_and area.flags writable == 0)) [
          | inl e ↦ rw e refl
          | inr e ↦ rw e (
              with_frame-Spares s fs (copy_frame m page phys area.flags) use'
                (λ frame rest u e' w af apart.
                  spared frame rest u (copy_frame m page phys area.flags) e'
                    (copy_frame-Spares page phys area.flags frame u rest w af apart)))
        ]

    fault_of-Spares :
        (fault_addr : ℕ) (is_write : Bool) (o : Option (ℕ × ℕ))
        → Spares g s.frames.bytes (fault_of m fault_addr is_write s o)
    unfolding fault_of fault_in_area failed Spares
    fault_of-Spares fault_addr is_write none = go (find_area s.vmm.areas fault_addr)
      where
        go : (o : Option VmArea) → Spares g s.frames.bytes (fault_in_area m fault_addr is_write s o)
        go none = refl
        go (some area) =
            fault_at-Spares (containing_address fault_addr) is_write area
              (m.translate_addr s.tables fault_addr)
    fault_of-Spares fault_addr is_write (some (slot, flags)) =
        let page = containing_address fault_addr in
        let v = s.vmm in
        with_frame-Spares (record s { vmm = record v { swapped = remove page v.swapped } }) fs
          (fault_in m page slot flags)
          (record { free = use'.free; apart = use'.apart; no_table = use'.no_table })
          (λ frame rest u e w af apart.
            spared frame rest u (fault_in m page slot flags) e
              (fault_in-Spares page slot flags frame u rest w af apart))

Spares-result :
    {P : Type 0} (g : ℕ) (bytes : ℕ → ℕ) (r : Result (Unit {0}) (Unit {0})) (s' : Machine P)
    → Spares g bytes (some (r, s'))
    → SamePage g bytes s'.frames.bytes × (r ≡ err tt → s'.frames.bytes ≡ bytes)
unfolding Spares
Spares-result g bytes (ok _) s' q = (q, λ e. cc)
Spares-result g bytes (err _) s' q = (λ i _. ap (λ b. b (phys_mem_offset + g + i)) q, λ _. q)

-- Let the free list hold the frames `fs`, let `g` be another frame (not the one at address 0), in
-- which no page table lies, and let the mapper write only to its tables and to free frames, and an
-- unmapping add no frame to the tables. When a fault then returns, whatever the address, the
-- access, the areas and the swap, the page of `g` has the bytes that it had: no page in use
-- changes, the one that a fork shares included, as long as its frame is not on the free list. A
-- fault that is refused changes no byte at all.
pub handle_fault-Spares :
    {P : Type 0} (m : Mapper P) (IsTable : P → ℕ → Type 0) (s s' : Machine P) (fs : List ℕ)
    (g fault_addr : ℕ) (is_write : Bool) (r : Result (Unit {0}) (Unit {0}))
    → Maps m IsTable
    → Represents s.frames.words s.frames.allocator fs
    → IsFrame g
    → ¬ Mem g fs
    → ¬ IsTable s.tables g
    → handle_fault m fault_addr is_write s ≡ some (r, s')
    → SamePage g s.frames.bytes s'.frames.bytes × (r ≡ err tt → s'.frames.bytes ≡ s.frames.bytes)
unfolding handle_fault
handle_fault-Spares m IsTable s s' fs g fault_addr is_write r law free frame_g apart no_table e =
    Spares-result g s.frames.bytes r s' (
      subst (Spares g s.frames.bytes) e (
        fault_of-Spares m IsTable law g frame_g s fs
          (record { free = free; apart = apart; no_table = no_table }) fault_addr is_write
          (get (containing_address fault_addr) s.vmm.swapped)))
