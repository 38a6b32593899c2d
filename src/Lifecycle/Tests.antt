-- ===== src/Lifecycle/Tests.antt =====
-- kernel/src/process/lifecycle.rs at a concrete input: task 5 runs, its parent 10 waits for it, and
-- the idle task is ready.
use mathlib.Core.List.{Mem, mem-cons, not-mem-nil}
use mathlib.Core.Logic.Or
use alaphi_os.Base.{ℕ, ◌≡◌, refl, false, Option, none, some, [], ◌∷◌, arith, if◌then◌else◌, ◌==◌}
use alaphi_os.Base.Distinct.{Nodup-of_differ}
use alaphi_os.Process.Task.{Task, TaskState, running, ready, blocked}
use alaphi_os.Scheduler.{Arc, Heap, push, push_back}
use alaphi_os.Lifecycle.{
  System, registry_get, registry_remove, is_blocked, unblock_tid, exit, wait_round, minus_one, wake,
}
use alaphi_os.Lifecycle.Wakeups.{Sound, Awoken, unblock_tid_exact}
use alaphi_os.Lifecycle.Exits.{Exiting, wait_round-exit}

abbrev task_of : ℕ → TaskState → ℕ → Option ℕ → Task
task_of id state priority parent = record {
  pid = id;
  tid = id;
  thread_group = id;
  state = state;
  cr3 = 0;
  priority = priority;
  parent = parent;
  exit_code = none;
  vmm = record { areas = []; swapped = [] };
  user_entry = 0;
  user_stack = 0;
  uid = 0;
  gid = 0;
  heap_start = 0;
  brk = 0;
  signals = record { pending = 0; handlers = [] };
}

abbrev heap : Heap
heap a =
    if a == 1
    then task_of 5 running 0 (some 10)
    else (if a == 2 then task_of 10 blocked 1 none else task_of 1 ready 7 none)

abbrev system : System
system = record {
  heap = heap;
  next_arc = 4;
  table = (1, 3) ∷ (5, 1) ∷ (10, 2) ∷ [];
  sched = record {
    queues = [] ∷ [] ∷ [] ∷ [] ∷ [] ∷ [] ∷ [] ∷ (3 ∷ []) ∷ [];
    current = some 1;
    ticks_remaining = 1;
    total_ticks = 7;
    needs_reschedule = false;
  };
  preempt_count = 0;
}

awake : (a : Arc) → Mem a (1 ∷ 3 ∷ []) → is_blocked (heap a).state ≡ false
unfolding is_blocked
awake a m =
    Or.elim (hlevel) (mem-cons.0 m) (λ e. rw e refl)
      (λ n. Or.elim (hlevel) (mem-cons.0 n) (λ e. rw e refl) (λ k. absurd (not-mem-nil k)))

system-Sound : Sound system
unfolding registry_get
system-Sound = record {
  well_formed = record {
    eight = refl;
    distinct = Nodup-of_differ (1 ∷ 3 ∷ []) (omega arith);
    levelled = omega arith;
    running_level = omega arith;
  };
  awake = awake;
  bounded = λ tid a _. ground arith;
}

-- The waiting parent enters the queue of its level.
parent_woken :
    (unblock_tid system 10).sched.queues ≡ [] ∷ (2 ∷ []) ∷ [] ∷ [] ∷ [] ∷ [] ∷ [] ∷ (3 ∷ []) ∷ []
unfolding unblock_tid wake push push_back registry_get is_blocked
parent_woken = refl

unblock_tid_exact_example : Awoken system (unblock_tid system 10) 2
unfolding registry_get is_blocked
unblock_tid_exact_example = ((unblock_tid_exact system 10 system-Sound).1 2 refl).0 refl

exiting : Exiting system 1 5
unfolding registry_get
exiting = record { runs = refl; tid_of = refl; listed = refl; alone = λ t b e f. ground arith }

wait_round-exit_example :
    (s' : System) × (exit system 3 ≡ some s')
    × (let rest : System = record s' { table = registry_remove s'.table 5 } in
        (wait_round s' 5 ≡ (some 3, rest)) × ((wait_round rest 5).0 ≡ some minus_one))
wait_round-exit_example = wait_round-exit system 1 5 3 system-Sound exiting
