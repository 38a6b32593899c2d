-- ===== src/Scheduler/Runs.antt =====
-- kernel/src/scheduler/mlfq.rs: runs of the operations of the scheduler, with the tasks that their
-- switches choose.
use alaphi_os.Base.{ℕ, ◌+◌, Option, none, some, List, [], ◌∷◌}
use alaphi_os.Process.Task.{Task}
use alaphi_os.Scheduler.{
  Arc, Heap, MlfqScheduler, Switched, update, push, tick, remove_current, should_reschedule,
  prepare_switch,
}

-- An operation: a tick, the push of a task (new or woken up), the end of the running task, the test
-- for a stopped task, a switch, and a write to a task by another part of the kernel.
pub data Step : Type 0 where
  ticks : Step
  pushes : Arc → Step
  leaves : Step
  tests : Step
  switches : Step
  writes : Arc → Task → Step

unfoldable pub step : Step → Heap → MlfqScheduler → Option Switched
step ticks h s = let (h', s') = tick h s in some (h', s', none)
step (pushes a) h s = some (h, push h s a, none)
step leaves h s = some (h, (remove_current s).1, none)
step tests h s = some (h, should_reschedule h s, none)
step switches h s = prepare_switch h s
step (writes a t) h s = some (update h a t, s, none)

-- The tasks that the switches of a run choose, in order, and the state after it.
abbrev pub Run : Type 0
Run = Option (List Arc × Heap × MlfqScheduler)

abbrev pub chosen : Option (Option Arc × Arc) → List Arc → List Arc
chosen none cs = cs
chosen (some (_, a)) cs = a ∷ cs

unfoldable pub noted : Option (Option Arc × Arc) → Run → Run
noted p none = none
noted p (some (cs, h, s)) = some (chosen p cs, h, s)

unfoldable pub then_run : (Heap → MlfqScheduler → Run) → Option Switched → Run
then_run next none = none
then_run next (some (h, s, p)) = noted p (next h s)

unfoldable pub run : List Step → Heap → MlfqScheduler → Run
run [] h s = some ([], h, s)
run (x ∷ xs) h s = then_run (run xs) (step x h s)

abbrev pub ticks_of : Step → ℕ
ticks_of ticks = 1
ticks_of _ = 0

abbrev pub ticks_in : List Step → ℕ
ticks_in [] = 0
ticks_in (x ∷ xs) = ticks_of x + ticks_in xs
