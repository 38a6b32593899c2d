-- ===== src/Scheduler.antt =====
-- kernel/src/scheduler/mlfq.rs, `MlfqScheduler`. An `Arc<Spinlock<Task>>` is an address, and a
-- `Heap` says which task lies there, so that queues, `current` and the task table alias one task.
-- A panic (an index out of range) is `none`.
pub mod Queues
pub mod Boost
pub mod Levels
pub mod Slice
pub mod Switch
pub mod WellFormed
pub mod Policy
pub mod Places
pub mod Runs
pub mod Held
pub mod Starvation
mod Tests
use alaphi_os.Base.{
  ℕ, zero, suc, ◌+◌, ◌-◌, ◌*◌, ◌%◌, ◌^◌, min, Bool, true, false, Option, none, some, List, [], ◌∷◌,
  ◌++◌, ltb, ◌==◌, if◌then◌else◌, get_elem?, get_or, set, map, replicate, not,
}
use alaphi_os.Process.Task.{Task, TaskState, running, ready, blocked, zombie}

abbrev pub Arc : Type 0
Arc = ℕ

abbrev pub Heap : Type 0
Heap = Arc → Task

-- A write through a lock guard.
abbrev pub update : Heap → Arc → Task → Heap
update h a t b = if b == a then t else h b

abbrev pub num_queues : ℕ
num_queues = 8

abbrev pub boost_period : ℕ
boost_period = 100

abbrev pub squares : ℕ → ℕ → List ℕ
squares zero i = []
squares (suc n) i = (i + 1) * (i + 1) ∷ squares n (i + 1)

-- `TIME_SLICES`
abbrev pub time_slices : List ℕ
time_slices = squares num_queues 0

pub record MlfqScheduler : Type 0 where
  pub queues : List (List Arc)
  pub current : Option Arc
  pub ticks_remaining : ℕ
  pub total_ticks : ℕ  -- u32
  pub needs_reschedule : Bool

unfoldable pub new : MlfqScheduler
new = record {
  queues = replicate num_queues [];
  current = none;
  ticks_remaining = get_or time_slices 0 0;
  total_ticks = 0;
  needs_reschedule = false;
}

-- `ticks_remaining = TIME_SLICES[priority]`; a priority out of range panics.
unfoldable pub set_current : Heap → MlfqScheduler → Arc → Option (Heap × MlfqScheduler)
set_current h s task = elim (get_elem? time_slices (h task).priority) [
  | none ↦ none
  | some slice ↦ some (
    update h task (record (h task) { state = running }),
    record s { current = some task; ticks_remaining = slice },
  )
]

unfoldable pub remove_current : MlfqScheduler → Option Arc × MlfqScheduler
remove_current s = elim s.current [
  | none ↦ (none, s)
  | some a ↦ (some a, record s { current = none; ticks_remaining = 0; needs_reschedule = true })
]

-- `queues[i].push_back(task)`
unfoldable pub push_back : List (List Arc) → ℕ → Arc → List (List Arc)
push_back queues i task = set queues i (get_or queues i [] ++ (task ∷ []))

unfoldable pub push : Heap → MlfqScheduler → Arc → MlfqScheduler
push h s task =
    let priority = (h task).priority in
    if ltb priority num_queues
    then record s { queues = push_back s.queues priority task }
    else record s { queues = push_back s.queues (num_queues - 1) task }

-- `task_guard.priority = priority` for each task of the queue
unfoldable pub set_priorities : Heap → ℕ → List Arc → Heap
set_priorities h priority [] = h
set_priorities h priority (a ∷ as') =
    set_priorities (update h a (record (h a) { priority = priority })) priority as'

-- the first loop of `boost_priorities`, over the queues from index `i + 1` on
unfoldable pub demote_all : Heap → ℕ → List (List Arc) → Heap
demote_all h i [] = h
demote_all h i (q ∷ qs) = demote_all (set_priorities h i q) (i + 1) qs

-- the second loop: `queues[i].append(&mut promoted_queues[i])`
unfoldable pub append_each : List (List Arc) → List (List Arc) → List (List Arc)
append_each (q ∷ qs) (p ∷ ps) = (q ++ p) ∷ append_each qs ps
append_each qs _ = qs

-- The queues above the first are taken whole, and go one place down.
unfoldable pub boost_queues : List (List Arc) → List (List Arc)
boost_queues [] = []
boost_queues (q ∷ qs) = append_each (q ∷ map (λ _. []) qs) qs

unfoldable pub boost_heap : Heap → List (List Arc) → Heap
boost_heap h [] = h
boost_heap h (q ∷ qs) = demote_all h 0 qs

unfoldable pub boost_priorities : Heap → MlfqScheduler → Heap × MlfqScheduler
boost_priorities h s = (boost_heap h s.queues, record s { queues = boost_queues s.queues })

-- the part of `tick` on the running task's slice
unfoldable pub count_down : MlfqScheduler → MlfqScheduler
count_down s = elim s.current [
  | none ↦ s
  | some _ ↦
      let left = s.ticks_remaining - 1 in
      if left == 0
      then record s { ticks_remaining = left; needs_reschedule = true }
      else record s { ticks_remaining = left }
]

-- `total_ticks` is a `u32`
unfoldable pub tick : Heap → MlfqScheduler → Heap × MlfqScheduler
tick h s =
    let counted = record s { total_ticks = (s.total_ticks + 1) % 2 ^ 32 } in
    let (h', s') =
      if counted.total_ticks % boost_period == 0
      then boost_priorities h counted
      else (h, counted) in
    (h', count_down s')

unfoldable pub is_stopped : TaskState → Bool
is_stopped blocked = true
is_stopped zombie = true
is_stopped _ = false

unfoldable pub should_reschedule : Heap → MlfqScheduler → MlfqScheduler
should_reschedule h s = elim s.current [
  | none ↦ s
  | some a ↦ if is_stopped (h a).state then record s { needs_reschedule = true } else s
]

unfoldable pub pick_next : List (List Arc) → Option (Arc × List (List Arc))
pick_next [] = none
pick_next ([] ∷ qs) = elim (pick_next qs) [ none ↦ none | some (a, rest) ↦ some (a, [] ∷ rest) ]
pick_next ((a ∷ q) ∷ qs) = some (a, q ∷ qs)

-- the outgoing task: one level down, `Ready`, at the back of its queue; `priority` is a `u8`
unfoldable pub put_out : Heap → List (List Arc) → Option Arc → Heap × List (List Arc)
put_out h queues none = (h, queues)
put_out h queues (some out) =
    let prio = min (((h out).priority + 1) % 256) (num_queues - 1) in
    (update h out (record (h out) { priority = prio; state = ready }), push_back queues prio out)

abbrev pub Switched : Type 0
Switched = Heap × MlfqScheduler × Option (Option Arc × Arc)

-- the state once the outgoing task is queued and `task` runs
unfoldable pub switched : Heap → MlfqScheduler → Arc → List (List Arc) → ℕ → Switched
switched h s task queues slice = (
  update h task (record (h task) { state = running }),
  record s {
    queues = queues;
    current = some task;
    ticks_remaining = slice;
    needs_reschedule = false;
  },
  some (s.current, task),
)

-- the part of `prepare_switch` after `pick_next`; a priority out of range panics
unfoldable pub switch_to : Heap → MlfqScheduler → Arc → List (List Arc) → Option Switched
switch_to h s task rest =
    let (h', queues) = put_out h rest s.current in
    elim (get_elem? time_slices (h' task).priority) [
      | none ↦ none
      | some slice ↦ some (switched h' s task queues slice)
    ]

-- The pair names the task that leaves, if one ran, and the one that comes in.
unfoldable pub prepare_switch : Heap → MlfqScheduler → Option Switched
prepare_switch h s =
    if not s.needs_reschedule then some (h, s, none) else elim (pick_next s.queues) [
      | none ↦ some (h, record s { needs_reschedule = false }, none)
      | some (task, rest) ↦ switch_to h s task rest
    ]
