-- ===== src/Lifecycle.antt =====
-- kernel/src/process/table.rs, kernel/src/process/lifecycle.rs and kernel/src/scheduler/mod.rs: the
-- task table, the tasks on the heap and the scheduler together. `none` is a panic: no task runs, or a
-- priority is out of range. A switch of the stacks is the change of `current`; a call that waits is
-- a sequence of rounds, between which other tasks run.
pub mod Keeps
pub mod Exits
pub mod Lookup
pub mod Wakeups
mod Tests
use alaphi_os.Base.{
  ℕ, ◌+◌, ◌-◌, ◌^◌, Bool, true, false, Option, none, some, List, [], ◌∷◌, ltb, ◌==◌, if◌then◌else◌,
}
use alaphi_os.Base.Map
use alaphi_os.Base.Map.{Map, nat_key, keys}
use alaphi_os.Process.Task
use alaphi_os.Process.Task.{Task, TaskState, Ids, running, ready, blocked, zombie}
use alaphi_os.Scheduler
use alaphi_os.Scheduler.{
  Arc, Heap, MlfqScheduler, Switched, update, push, set_current, num_queues, should_reschedule,
  prepare_switch,
}

-- `TASK_TABLE`, `SCHEDULER`, the tasks and the next free address. `preempt_count` counts the locks
-- held.
pub record System : Type 0 where
  pub heap : Heap
  pub next_arc : Arc
  pub table : Map ℕ Arc
  pub sched : MlfqScheduler
  pub preempt_count : ℕ

-- `BTreeTaskRegistry`
unfoldable pub registry_insert : Heap → Map ℕ Arc → Arc → Map ℕ Arc
registry_insert heap table task = Map.insert (heap task).tid task table

unfoldable pub registry_get : Map ℕ Arc → ℕ → Option Arc
registry_get table tid = Map.get tid table

unfoldable pub registry_remove : Map ℕ Arc → ℕ → Map ℕ Arc
registry_remove table tid = Map.remove tid table

unfoldable pub all_tids : Map ℕ Arc → List ℕ
all_tids table = keys table

-- `Arc::new(Spinlock::new(task))`
unfoldable pub new_arc : System → Task → Arc × System
new_arc s task =
    (s.next_arc, record s { heap = update s.heap s.next_arc task; next_arc = s.next_arc + 1 })

unfoldable pub spawn : System → Task → System
spawn s task =
    let (arc, s') = new_arc s task in
    record s' { table = registry_insert s'.heap s'.table arc; sched = push s'.heap s'.sched arc }

-- The first task runs, and the idle task waits at the lowest level. `cr3` is what the register holds.
unfoldable pub init : ℕ → Ids → System → Option (System × Ids)
init cr3 ids s =
    let (boot_task, ids') = Task.new ids cr3 0 none in
    let (arc, s') = new_arc s boot_task in
    let (idle, ids'') = Task.new ids' cr3 (num_queues - 1) none in
    elim (set_current s'.heap s'.sched arc) [
      | none ↦ none
      | some (heap, sched) ↦ some (
        spawn
            (record s' { heap = heap; table = registry_insert s'.heap s'.table arc; sched = sched })
            idle,
        ids'',
      )
    ]

unfoldable pub tick : System → System
tick s =
    let (heap, sched) = Scheduler.tick s.heap s.sched in record s { heap = heap; sched = sched }

-- the end of `schedule`, on what `prepare_switch` gives
unfoldable pub scheduled : System → Option Switched → Option System
scheduled s none = none
scheduled s (some (heap, sched, _)) = some (record s { heap = heap; sched = sched })

unfoldable pub schedule : System → Option System
schedule s =
    if ltb 0 s.preempt_count
    then some s
    else scheduled s (prepare_switch s.heap (should_reschedule s.heap s.sched))

unfoldable pub current_pid : System → Option ℕ
current_pid s = elim s.sched.current [ none ↦ none | some a ↦ some (s.heap a).pid ]

unfoldable pub current_tid : System → Option ℕ
current_tid s = elim s.sched.current [ none ↦ none | some a ↦ some (s.heap a).tid ]

unfoldable pub current_ppid : System → Option ℕ
current_ppid s = elim s.sched.current [ none ↦ none | some a ↦ (s.heap a).parent ]

unfoldable pub remove_current : System → System
remove_current s = record s { sched = (Scheduler.remove_current s.sched).1 }

unfoldable pub is_blocked : TaskState → Bool
is_blocked blocked = true
is_blocked _ = false

-- `unblock_tid` on the task that the table gives
unfoldable pub wake : System → Option Arc → System
wake s none = s
wake s (some a) =
    let heap = update s.heap a (record (s.heap a) { state = ready }) in
    if is_blocked (s.heap a).state then record s { heap = heap; sched = push heap s.sched a } else s

unfoldable pub unblock_tid : System → ℕ → System
unblock_tid s tid = wake s (registry_get s.table tid)

-- `.map(|task| task.lock().pid == pid).unwrap_or(false)`
unfoldable pub pid_is : System → ℕ → Option Arc → Bool
pid_is s pid none = false
pid_is s pid (some a) = (s.heap a).pid == pid

unfoldable pub has_pid : System → ℕ → ℕ → Bool
has_pid s pid tid = pid_is s pid (registry_get s.table tid)

-- `.find(…)` over the thread ids
unfoldable pub find_pid : System → ℕ → List ℕ → Option ℕ
find_pid s pid [] = none
find_pid s pid (t ∷ ts) = if has_pid s pid t then some t else find_pid s pid ts

unfoldable pub unblock_found : System → Option ℕ → System
unblock_found s none = s
unblock_found s (some tid) = unblock_tid s tid

unfoldable pub unblock_pid : System → ℕ → System
unblock_pid s pid = unblock_found s (find_pid s pid (all_tids s.table))

-- a write to the task of a thread id, if the table has one
unfoldable pub write_task : System → (Task → Task) → Option Arc → System
write_task s f none = s
write_task s f (some a) = record s { heap = update s.heap a (f (s.heap a)) }

-- `mark_blocked` of kernel/src/sync/resource.rs
unfoldable pub mark_blocked : System → ℕ → System
mark_blocked s tid = write_task s (λ t. record t { state = blocked }) (registry_get s.table tid)

-- the parent of the exiting task, which a task outside the table lacks
unfoldable pub parent_at : System → Option Arc → Option ℕ
parent_at s none = none
parent_at s (some a) = (s.heap a).parent

unfoldable pub wake_parent : System → Option ℕ → System
wake_parent s none = s
wake_parent s (some pid) = unblock_pid s pid

-- `exit` of the task `curr_tid` up to the call of the scheduler
unfoldable pub leave : System → ℕ → ℕ → System
leave s exit_code curr_tid =
    let task = registry_get s.table curr_tid in
    let s' = write_task s (λ t. record t { state = zombie; exit_code = some exit_code }) task in
    remove_current (wake_parent s' (parent_at s task))

-- `exit` once the current thread id is known; `none` is the panic of `current_tid`
unfoldable pub exit_of : System → ℕ → Option ℕ → Option System
exit_of s exit_code none = none
exit_of s exit_code (some curr_tid) = schedule (leave s exit_code curr_tid)

-- `i32` values are their bit patterns.
unfoldable pub exit : System → ℕ → Option System
exit s exit_code = exit_of s exit_code (current_tid s)

abbrev pub minus_one : ℕ
minus_one = 2 ^ 32 - 1

-- `task.exit_code.unwrap_or(-1)`
unfoldable pub code_of : Option ℕ → ℕ
code_of none = minus_one
code_of (some code) = code

unfoldable pub is_zombie : TaskState → Bool
is_zombie zombie = true
is_zombie _ = false

-- The round of `wait` and of `wait_tid` on the task found: the exit code that the call returns, or
-- `none` when it goes on.
unfoldable pub reap : System → ℕ → Option Arc → Option ℕ × System
reap s tid none = (some minus_one, s)
reap s tid (some a) =
    if is_zombie (s.heap a).state
    then (some (code_of (s.heap a).exit_code), record s { table = registry_remove s.table tid })
    else (none, s)

unfoldable pub wait_tid_round : System → ℕ → Option ℕ × System
wait_tid_round s target_tid = reap s target_tid (registry_get s.table target_tid)

unfoldable pub reap_found : System → Option ℕ → Option ℕ × System
reap_found s none = (some minus_one, s)
reap_found s (some tid) = reap s tid (registry_get s.table tid)

unfoldable pub wait_round : System → ℕ → Option ℕ × System
wait_round s child_pid = reap_found s (find_pid s child_pid (all_tids s.table))

-- what a round does that does not return: the task blocks and gives the processor away
unfoldable pub wait_more : System → ℕ → Option System
wait_more s curr_tid = schedule (mark_blocked s curr_tid)
