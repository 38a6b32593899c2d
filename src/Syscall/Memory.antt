-- ===== src/Syscall/Memory.antt =====
-- kernel/src/syscall/dispatch.rs: `SYS_BRK` and `SYS_MPROTECT`, over the page tables of the running
-- task and the free frames beside the state of the kernel.
pub mod Bounds
use Prim.Native.Nat.{bit_and, bit_or}
use alaphi_os.Base.{
  ℕ, ◌+◌, ◌-◌, ◌*◌, ◌%◌, ◌^◌, Bool, true, Option, none, some, List, ltb, leb, ◌==◌, ◌&&◌, ◌||◌, not,
  if◌then◌else◌,
}
use alaphi_os.Lifecycle.{System, registry_get, current_tid}
use alaphi_os.Memory.Area.{Vmm, VmArea, set_heap_end}
use alaphi_os.Memory.Area
use alaphi_os.Memory.Paging.{Frames, Mapper, shrink_heap, remap_from, rounds}
use alaphi_os.Process.Task.{Task}
use alaphi_os.Scheduler.{Arc, update}
use alaphi_os.Syscall.{Kernel, Args, Reply, returns}
use alaphi_os.Syscall.Errno.{ℤ, pos, ebadf, efault, as_isize}

-- `USER_STACK_TOP` and `USER_STACK_SIZE` of kernel/src/process/loader.rs
abbrev pub user_stack_top : ℕ
user_stack_top = 140737488351232

abbrev pub user_stack_size : ℕ
user_stack_size = 65536

abbrev pub stack_bottom : ℕ
stack_bottom = user_stack_top - user_stack_size

-- present, writable, user accessible
abbrev pub heap_flags : ℕ
heap_flags = 7

-- `(a + 0xFFF) & !0xFFF`
unfoldable pub align_up : ℕ → ℕ
align_up a = let b = (a + 4095) % 2 ^ 64 in b - b % 4096

-- `VirtAddr::new` panics unless the upper bits repeat bit 47, a sum of addresses also when it overflows.
unfoldable pub is_canonical : ℕ → Bool
is_canonical a = ltb a (2 ^ 47) || (leb (2 ^ 64 - 2 ^ 47) a && ltb a (2 ^ 64))

abbrev pub Space : Type 0 → Type 0
Space P = P × Frames

abbrev pub Result : Type 0 → Type 0 → Type 0
Result D P = Option (Kernel D × Space P × Reply)

unfoldable pub write_back : {D : Type 0} → Kernel D → Arc → Task → Kernel D
write_back k arc t =
    let s = k.system in record k { system = record s { heap = update s.heap arc t } }

unfoldable pub unchanged : {D P : Type 0} → ℤ → Kernel D → Space P → Result D P
unchanged v k sp = some (k, sp, returns v)

-- the end of `SYS_BRK`
unfoldable pub moved : {D P : Type 0} → ℕ → Arc → Kernel D → Option (Vmm × P × Frames) → Result D P
moved aligned arc k none = none
moved aligned arc k (some (v, p, f)) = some (
  write_back k arc (record (k.system.heap arc) { vmm = v; brk = aligned }),
  (p, f),
  returns (as_isize aligned),
)

-- the areas and the pages once the heap ends at `aligned`
unfoldable pub resized : {P : Type 0} → Mapper P → ℕ → Task → Space P → Option (Vmm × P × Frames)
resized m aligned t (p, f) =
    if ltb t.brk aligned
    then some (set_heap_end t.vmm t.heap_start aligned heap_flags, p, f)
    else (if ltb aligned t.brk
        then shrink_heap m t.vmm t.heap_start aligned t.brk heap_flags p f
        else some (t.vmm, p, f))

-- the flags that `SYS_MPROTECT` makes of `prot`
unfoldable pub prot_flags : ℕ → ℕ
prot_flags prot = if bit_and prot 2 == 0 then 5 else bit_or 5 2

module _ {D P : Type 0} (m : Mapper P) where
  unfoldable pub brk_of : ℕ → Kernel D → Space P → Option Arc → Result D P
  brk_of new_brk k sp none = unchanged ebadf k sp
  brk_of new_brk k sp (some arc) =
      let t = k.system.heap arc in
      let aligned = align_up new_brk in
      if new_brk == 0
      then unchanged (as_isize t.brk) k sp
      else (if ltb aligned t.heap_start || leb stack_bottom aligned
          then unchanged (as_isize t.brk) k sp
          else moved aligned arc k (resized m aligned t sp))

  unfoldable pub brk_by : Args → Kernel D → Space P → Option ℕ → Result D P
  brk_by a k sp none = none
  brk_by a k sp (some tid) = brk_of a.arg0 k sp (registry_get k.system.table tid)

  unfoldable pub sys_brk : Args → Kernel D → Space P → Result D P
  sys_brk a k sp = brk_by a k sp (current_tid k.system)

  -- `Vmm::mprotect`: the areas, then the pages that are mapped
  unfoldable pub protected :
      ℕ → ℕ → ℕ → Arc → Kernel D → Space P → Option (List VmArea) → Result D P
  protected addr end flags arc k sp none = unchanged efault k sp
  protected addr end flags arc k (p, f) (some areas) =
      let t = k.system.heap arc in
      let v = t.vmm in
      elim (remap_from m (rounds addr end) addr flags p) [
        | none ↦ none
        | some p' ↦ some (
          write_back k arc (record t { vmm = record v { areas = areas } }),
          (p', f),
          returns (pos 0),
        )
      ]

  unfoldable pub mprotect_of : ℕ → ℕ → ℕ → Kernel D → Space P → Option Arc → Result D P
  mprotect_of addr aligned_len flags k sp none = unchanged ebadf k sp
  mprotect_of addr aligned_len flags k sp (some arc) =
      let end = addr + aligned_len in
      let areas = Area.mprotect (k.system.heap arc).vmm.areas addr end flags in
      if not (is_canonical addr) || not (is_canonical end)
      then none
      else protected addr end flags arc k sp areas

  unfoldable pub mprotect_by : Args → Kernel D → Space P → Option ℕ → Result D P
  mprotect_by a k sp none = none
  mprotect_by a k sp (some tid) =
      mprotect_of a.arg0 (align_up a.arg1) (prot_flags a.arg2) k sp
        (registry_get k.system.table tid)

  unfoldable pub sys_mprotect : Args → Kernel D → Space P → Result D P
  sys_mprotect a k sp =
      if not (bit_and a.arg0 4095 == 0) || a.arg1 == 0
      then unchanged efault k sp
      else mprotect_by a k sp (current_tid k.system)
