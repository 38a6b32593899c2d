-- ===== src/Syscall/Memory/Bounds.antt =====
-- kernel/src/syscall/dispatch.rs, `SYS_BRK`: where the heap of a task can end.
use alaphi_os.Base.{
  ℕ, ◌%◌, ◌≤◌, ◌<◌, ◌≡◌, ◌≢◌, ◌⊎◌, ◌∙◌, refl, ap, sym, subst, false, Option, none, some, ltb, leb,
  ◌==◌, ◌||◌, inl, inr, Bool-cases, arith, ==_refl, ne→==,
}
use alaphi_os.Lifecycle.{registry_get, current_tid}
use alaphi_os.Memory.Area.{Vmm}
use alaphi_os.Memory.Paging.{Frames, Mapper}
use alaphi_os.Scheduler.{Arc}
use alaphi_os.Syscall.{Kernel, Args, Reply, returns}
use alaphi_os.Syscall.Errno.{as_isize}
use alaphi_os.Syscall.Memory.{
  Space, Result, align_up, stack_bottom, write_back, unchanged, moved, resized, brk_of, brk_by,
  sys_brk,
}

-- What a call has done to the heap of the task at `arc`, and to no other task.
pub record Grown {D : Type 0} (k k' : Kernel D) (arc : Arc) (reply : Reply) : Type 0 where
  pub others : (b : Arc) → b ≢ arc → k'.system.heap b ≡ k.system.heap b
  pub starts : (k'.system.heap arc).heap_start ≡ (k.system.heap arc).heap_start
  pub replies : reply ≡ returns (as_isize (k'.system.heap arc).brk)
  pub ends :
      ((k'.system.heap arc).brk ≡ (k.system.heap arc).brk)
      ⊎ (((k.system.heap arc).heap_start ≤ (k'.system.heap arc).brk)
          × ((k'.system.heap arc).brk < stack_bottom)
          × ((k'.system.heap arc).brk % 4096 ≡ 0))

Grows : {D P : Type 0} → Kernel D → Arc → Result D P → Type 0
Grows k arc none = Unit {0}
Grows k arc (some (k', _, reply)) = Grown k k' arc reply

align_up-multiple : (a : ℕ) → align_up a % 4096 ≡ 0
unfolding align_up
align_up-multiple a = omega arith

in_range : (a low high : ℕ) → (ltb a low || leb high a) ≡ false → (low ≤ a) × (a < high)
in_range a low high h = ground arith

same-Grown :
    {D : Type 0} (k : Kernel D) (arc : Arc)
    → Grown k k arc (returns (as_isize (k.system.heap arc).brk))
same-Grown k arc = record { others = λ b _. refl; starts = refl; replies = refl; ends = inl refl }

module _ {D P : Type 0} (k : Kernel D) (arc : Arc) where
  moved-Grows :
      (aligned : ℕ) (o : Option (Vmm × P × Frames))
      → (k.system.heap arc).heap_start ≤ aligned
      → aligned < stack_bottom
      → aligned % 4096 ≡ 0
      → Grows k arc (moved aligned arc k o)
  unfolding Grows moved write_back
  moved-Grows aligned none h p q = tt
  moved-Grows aligned (some (v, p', f)) h p q = record {
    others = λ b apart. rw (ne→== b arc apart) refl;
    starts = rw (==_refl arc) refl;
    replies = rw (==_refl arc) refl;
    ends = inr (rw (==_refl arc) h, rw (==_refl arc) p, rw (==_refl arc) q);
  }

  brk_of-Grows :
      (m : Mapper P) (new_brk : ℕ) (sp : Space P) → Grows k arc (brk_of m new_brk k sp (some arc))
  unfolding brk_of unchanged Grows
  brk_of-Grows m new_brk sp =
      let t = k.system.heap arc in
      let aligned = align_up new_brk in
      elim (Bool-cases (new_brk == 0)) [
        | inl e ↦ rw e (same-Grown k arc)
        | inr e ↦ elim (Bool-cases (ltb aligned t.heap_start || leb stack_bottom aligned)) [
          | inl f ↦ rw (e, f) (same-Grown k arc)
          | inr f ↦
              let range = in_range aligned t.heap_start stack_bottom f in
              rw (e, f)
                (moved-Grows aligned (resized m aligned t sp) (range.0) (range.1)
                  (align_up-multiple new_brk))
        ]
      ]

-- When a `SYS_BRK` of a task in the table returns, whatever the argument and the page tables: no
-- other task has changed, the heap starts where it did, and the call gives the end of the heap. The end
-- is where it was, or it is a multiple of 4096 that is not below the start of the heap and is below
-- the stack.
pub sys_brk-Grown :
    {D P : Type 0} (m : Mapper P) (a : Args) (k k' : Kernel D) (sp sp' : Space P) (reply : Reply)
    (tid : ℕ) (arc : Arc)
    → current_tid k.system ≡ some tid
    → registry_get k.system.table tid ≡ some arc
    → sys_brk m a k sp ≡ some (k', sp', reply)
    → Grown k k' arc reply
unfolding sys_brk brk_by Grows
sys_brk-Grown m a k k' sp sp' reply tid arc runs listed h =
    subst (Grows k arc)
      (sym (ap (brk_of m a.arg0 k sp) listed) ∙ sym (ap (brk_by m a k sp) runs) ∙ h)
      (brk_of-Grows k arc m a.arg0 sp)
