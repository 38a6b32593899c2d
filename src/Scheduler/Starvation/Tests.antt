-- ===== src/Scheduler/Starvation/Tests.antt =====
-- kernel/src/scheduler/mlfq.rs: a task that waits at level 1 while nothing runs, for 700 ticks and a
-- switch.
use mathlib.Core.List.{Mem}
use alaphi_os.Base.{ℕ, ◌≡◌, ◌⊎◌, refl, true, false, none, some, [], ◌∷◌, arith, replicate}
use alaphi_os.Process.Task.{Task, ready, running}
use alaphi_os.Scheduler.{
  Heap, MlfqScheduler, update, tick, count_down, boost_priorities, boost_heap, boost_queues,
  append_each, demote_all, set_priorities, prepare_switch, pick_next, switch_to, put_out, switched,
}
use alaphi_os.Scheduler.Runs.{ticks, switches, step, run, then_run, noted}
use alaphi_os.Scheduler.Starvation.{queued_runs}

abbrev waiting : Task
waiting = record {
  pid = 1;
  tid = 1;
  thread_group = 1;
  state = ready;
  cr3 = 0;
  priority = 1;
  parent = none;
  exit_code = none;
  vmm = record { areas = []; swapped = [] };
  user_entry = 0;
  user_stack = 0;
  uid = 0;
  gid = 0;
  heap_start = 0;
  brk = 0;
  signals = record { pending = 0; handlers = [] };
}

abbrev heap : Heap
heap a = waiting

abbrev start : MlfqScheduler
start = record {
  queues = [] ∷ (4 ∷ []) ∷ replicate 6 [];
  current = none;
  ticks_remaining = 0;
  total_ticks = 0;
  needs_reschedule = true;
}

abbrev raised : Heap
raised = update heap 4 (record waiting { priority = 0 })

abbrev later : MlfqScheduler
later = record start { queues = (4 ∷ []) ∷ replicate 7 []; total_ticks = 700 }

abbrev resumed : Heap
resumed = update raised 4 (record waiting { priority = 0; state = running })

abbrev in_time : MlfqScheduler
in_time = record later {
  queues = replicate 8 [];
  current = some 4;
  ticks_remaining = 1;
  needs_reschedule = false;
}

waits : run (replicate 700 ticks) heap start ≡ some ([], raised, later)
unfolding run then_run noted step tick count_down boost_priorities boost_heap boost_queues
    append_each demote_all set_priorities
waits = refl

resumes : run (switches ∷ []) raised later ≡ some (4 ∷ [], resumed, in_time)
unfolding run then_run noted step prepare_switch pick_next switch_to put_out switched
resumes = refl

queued_runs_example : Mem {A = ℕ} 4 [] ⊎ Mem {A = ℕ} 4 (4 ∷ [])
queued_runs_example =
    queued_runs (replicate 700 ticks) (switches ∷ []) 4 1 0 heap raised resumed start later in_time
      [] (4 ∷ []) refl (omega arith) refl waits (omega arith) resumes (omega arith)
