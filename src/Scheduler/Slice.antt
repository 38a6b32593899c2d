-- ===== src/Scheduler/Slice.antt =====
-- kernel/src/scheduler/mlfq.rs: the time slice of the running task.
use alaphi_os.Base.{
  ℕ, zero, suc, ◌+◌, ◌-◌, ◌*◌, ◌≤◌, ◌<◌, ◌≡◌, refl, ◌∙◌, ◌||◌, none, some, leb, get_elem?, arith,
}
use alaphi_os.Scheduler.{
  Arc, Heap, MlfqScheduler, time_slices, num_queues, tick, count_down, boost_priorities,
}

-- The slice of each level is a square.
pub slice_of_level : (p : ℕ) → p < num_queues → get_elem? time_slices p ≡ some ((p + 1) * (p + 1))
slice_of_level zero h = refl
slice_of_level (suc zero) h = refl
slice_of_level (suc (suc zero)) h = refl
slice_of_level (suc (suc (suc zero))) h = refl
slice_of_level (suc (suc (suc (suc zero)))) h = refl
slice_of_level (suc (suc (suc (suc (suc zero))))) h = refl
slice_of_level (suc (suc (suc (suc (suc (suc zero)))))) h = refl
slice_of_level (suc (suc (suc (suc (suc (suc (suc zero))))))) h = refl
slice_of_level (suc (suc (suc (suc (suc (suc (suc (suc p)))))))) h = absurd (omega arith)

abbrev pub ticks : ℕ → Heap × MlfqScheduler → Heap × MlfqScheduler
ticks zero p = p
ticks (suc n) p = ticks n (tick p.0 p.1)

tick_running :
    (h : Heap) (s : MlfqScheduler) (a : Arc)
    → s.current ≡ some a
    → ((tick h s).1.current ≡ some a)
      × ((tick h s).1.ticks_remaining ≡ s.ticks_remaining - 1)
      × ((tick h s).1.needs_reschedule ≡ (leb s.ticks_remaining 1 || s.needs_reschedule))
unfolding tick count_down boost_priorities
tick_running h s a e = ground arith

-- While a task runs, a switch is asked for after `n` ticks exactly if it was asked for before or
-- the slice was at most `n` ticks (for `n` above 0), whether boosts fall among them or not.
pub slice_expires :
    (n : ℕ) (h : Heap) (s : MlfqScheduler) (a : Arc)
    → s.current ≡ some a
    → (ticks (suc n) (h, s)).1.needs_reschedule
      ≡ (leb s.ticks_remaining (suc n) || s.needs_reschedule)
slice_expires zero h s a e = (tick_running h s a e).2
slice_expires (suc n) h s a e =
    let (c, r, w) = tick_running h s a e in
    slice_expires n (tick h s).0 (tick h s).1 a c ∙ ground (arith, r, w)

pub no_slice : (p : ℕ) → num_queues ≤ p → get_elem? time_slices p ≡ none
no_slice zero h = absurd (omega arith)
no_slice (suc zero) h = absurd (omega arith)
no_slice (suc (suc zero)) h = absurd (omega arith)
no_slice (suc (suc (suc zero))) h = absurd (omega arith)
no_slice (suc (suc (suc (suc zero)))) h = absurd (omega arith)
no_slice (suc (suc (suc (suc (suc zero))))) h = absurd (omega arith)
no_slice (suc (suc (suc (suc (suc (suc zero)))))) h = absurd (omega arith)
no_slice (suc (suc (suc (suc (suc (suc (suc zero))))))) h = absurd (omega arith)
no_slice (suc (suc (suc (suc (suc (suc (suc (suc p)))))))) h = refl
