-- ===== src/Scheduler/Tests.antt =====
-- kernel/src/scheduler/mlfq.rs at concrete inputs.
use mathlib.Core.List.{Nodup, Perm}
use alaphi_os.Base.{
  ℕ, ◌≡◌, refl, true, ◌||◌, leb, none, some, [], ◌∷◌, arith, length, replicate, if◌then◌else◌, ◌==◌,
}
use alaphi_os.Base.Distinct.{Nodup-of_differ}
use alaphi_os.Process.Task.{Task, TaskState, ready, blocked}
use alaphi_os.Scheduler.{
  Heap, MlfqScheduler, Switched, num_queues, new, remove_current, push, push_back, tick,
  should_reschedule, prepare_switch, count_down, boost_priorities, boost_queues, append_each,
}
use alaphi_os.Scheduler.Slice.{ticks, slice_expires}
use alaphi_os.Scheduler.Switch.{everyone, Ensures, prepare_switch-perm}
use alaphi_os.Scheduler.WellFormed.{WellFormed, prepare_switch-WellFormed, tick-WellFormed}
use alaphi_os.Scheduler.Policy.{
  RunsNext, IsDemoted, prepare_switch-RunsNext, prepare_switch-IsDemoted,
}

abbrev task_at : ℕ → TaskState → Task
task_at priority state = record {
  pid = 1;
  tid = 1;
  thread_group = 1;
  state = state;
  cr3 = 0;
  priority = priority;
  parent = none;
  exit_code = none;
  vmm = record { areas = []; swapped = [] };
  user_entry = 0;
  user_stack = 0;
  uid = 0;
  gid = 0;
  heap_start = 0;
  brk = 0;
  signals = record { pending = 0; handlers = [] };
}

-- Task 1 runs but has marked itself blocked; 2 and 3 wait at level 0, 4 at level 2.
abbrev heap : Heap
heap a = if a == 4 then task_at 2 ready else (if a == 1 then task_at 0 blocked else task_at 0 ready)

abbrev state : MlfqScheduler
state = record {
  queues = (2 ∷ 3 ∷ []) ∷ [] ∷ (4 ∷ []) ∷ replicate 5 [];
  current = some 1;
  ticks_remaining = 1;
  total_ticks = 99;
  needs_reschedule = true;
}

distinct : Nodup (everyone state)
distinct = Nodup-of_differ (everyone state) (omega arith)

well_formed : WellFormed heap state
well_formed = record {
  eight = refl;
  distinct = distinct;
  levelled = omega arith;
  running_level = omega arith;
}

-- The tick is the hundredth, so it boosts: 4 comes down to level 1.
boosted : (tick heap state).1.queues ≡ (2 ∷ 3 ∷ []) ∷ (4 ∷ []) ∷ replicate 6 []
unfolding tick boost_priorities boost_queues append_each count_down
boosted = refl

-- A new scheduler that is given a task of each kind.
started :
    let s = push heap (push heap new 2) 4 in
    (s.queues ≡ (2 ∷ []) ∷ [] ∷ (4 ∷ []) ∷ replicate 5 [])
    × ((remove_current (should_reschedule heap s)).0 ≡ none)
unfolding new push push_back should_reschedule remove_current
started = (refl, refl)

slice_expires_example : (ticks 3 (heap, state)).1.needs_reschedule ≡ (leb 1 3 || true)
slice_expires_example = slice_expires 2 heap state 1 refl

prepare_switch-perm_example :
    Ensures
      (λ _ s'. Perm (everyone s') (everyone state) × (length s'.queues ≡ num_queues))
      (prepare_switch heap state)
prepare_switch-perm_example = prepare_switch-perm heap state refl

prepare_switch-WellFormed_example :
    (r : Switched) × (prepare_switch heap state ≡ some r) × WellFormed r.0 r.1
prepare_switch-WellFormed_example = prepare_switch-WellFormed heap state well_formed

tick-WellFormed_example : WellFormed (tick heap state).0 (tick heap state).1
tick-WellFormed_example = tick-WellFormed heap state well_formed

prepare_switch-RunsNext_example :
    (r : Switched) × (prepare_switch heap state ≡ some r) × RunsNext heap state 2 r
prepare_switch-RunsNext_example =
    prepare_switch-RunsNext heap state 2 (3 ∷ 4 ∷ []) well_formed refl refl

-- The blocked task 1 is `Ready` at level 1 afterwards.
prepare_switch-IsDemoted_example :
    (r : Switched) × (prepare_switch heap state ≡ some r) × IsDemoted heap 1 r
prepare_switch-IsDemoted_example =
    prepare_switch-IsDemoted heap state 2 1 (3 ∷ 4 ∷ []) well_formed refl refl refl

-- A thread cloned with priority 200.
abbrev reckless : Heap
reckless a = task_at 200 ready
