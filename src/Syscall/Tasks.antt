-- ===== src/Syscall/Tasks.antt =====
-- kernel/src/syscall/dispatch.rs: the calls on tasks and signals.
use Prim.Native.Nat.{bit_and}
use alaphi_os.Base.{ℕ, ◌%◌, ◌^◌, Bool, false, Option, none, some, ltb, ◌==◌, if◌then◌else◌}
use alaphi_os.Lifecycle.{
  System, registry_get, current_ppid, schedule, spawn, exit, wait_round, wait_tid_round, wait_more,
  write_task, find_pid, all_tids, is_blocked, unblock_tid,
}
use alaphi_os.Process.Signal.{max_signals, set_pending, set_handler}
use alaphi_os.Process.Task.{Task, clone_thread}
use alaphi_os.Scheduler.{Arc}
use alaphi_os.Syscall.{
  Kernel, Args, Call, Waiting, returns, blocks, waits_pid, waits_tid, answer, with_tid, with_pid,
}
use alaphi_os.Syscall.Errno.{pos, negsuc, enosys, ebadf, efault, enoent, as_isize, i32_as_isize}
use alaphi_os.Syscall.Locks.{sleep}

unfoldable pub sys_getpid : {D : Type 0} → Call D
sys_getpid = with_pid λ pid. answer (as_isize pid)

unfoldable pub sys_getppid : {D : Type 0} → Call D
sys_getppid k = elim (current_ppid k.system) [
  | none ↦ answer (negsuc 0) k
  | some ppid ↦ answer (as_isize ppid) k
]

unfoldable pub sys_gettid : {D : Type 0} → Call D
sys_gettid = with_tid λ tid. answer (as_isize tid)

unfoldable pub sys_yield : {D : Type 0} → Call D
sys_yield k = sleep k (schedule k.system) (returns (pos 0))

-- `exit` never returns to its task, and another task goes on.
unfoldable pub sys_exit : {D : Type 0} → Args → Kernel D → Option (Kernel D)
sys_exit a k = elim (exit k.system (a.arg0 % 2 ^ 32)) [
  | none ↦ none
  | some s ↦ some (record k { system = s })
]

-- A round of `wait` or `wait_tid`: the exit code, or the task blocks.
unfoldable pub waited : {D : Type 0} → Waiting → ℕ → Option ℕ × System → Call D
waited w tid (some code, s) k = answer (i32_as_isize code) (record k { system = s })
waited w tid (none, s) k = sleep k (wait_more s tid) (blocks w)

unfoldable pub sys_waitpid : {D : Type 0} → Args → Call D
sys_waitpid a = with_tid λ tid k. waited (waits_pid a.arg0) tid (wait_round k.system a.arg0) k

unfoldable pub sys_join : {D : Type 0} → Args → Call D
sys_join a = with_tid λ tid k. waited (waits_tid a.arg0) tid (wait_tid_round k.system a.arg0) k

abbrev pub clone_vm : ℕ
clone_vm = 256

abbrev pub clone_sighand : ℕ
clone_sighand = 2048

-- `CLONE_SIGHAND`
unfoldable pub share_handlers : ℕ → Task → Task → Task
share_handlers flags parent t =
    if bit_and flags clone_sighand == 0
    then t
    else record t { signals = record t.signals { handlers = parent.signals.handlers } }

-- the new thread of the task that the table gives
unfoldable pub clone_of : {D : Type 0} → Args → Option Arc → Call D
clone_of a none k = answer ebadf k
clone_of a (some arc) k =
    let parent = k.system.heap arc in
    let (t, ids) = clone_thread k.ids parent (a.arg2 % 256) in
    answer (as_isize t.tid)
      (record k { system = spawn k.system (share_handlers a.arg0 parent t); ids = ids })

unfoldable pub sys_clone : {D : Type 0} → Args → Call D
sys_clone a k =
    if bit_and a.arg0 clone_vm == 0
    then answer enosys k
    else with_tid (λ tid k. clone_of a (registry_get k.system.table tid) k) k

unfoldable pub add_pending : ℕ → Task → Task
add_pending signum t = record t { signals = set_pending t.signals signum }

unfoldable pub blocked_at : System → Option Arc → Bool
blocked_at s none = false
blocked_at s (some a) = is_blocked (s.heap a).state

-- The signal is pending for the first task of the process, which wakes up if it is blocked.
unfoldable pub signal_task : System → ℕ → ℕ → System
signal_task s signum tid =
    let task = registry_get s.table tid in
    let s' = write_task s (add_pending signum) task in
    if blocked_at s task then unblock_tid s' tid else s'

unfoldable pub kill_found : {D : Type 0} → ℕ → Option ℕ → Call D
kill_found signum none k = answer enoent k
kill_found signum (some tid) k =
    answer (pos 0) (record k { system = signal_task k.system signum tid })

unfoldable pub sys_kill : {D : Type 0} → Args → Call D
sys_kill a k =
    let signum = a.arg1 % 256 in
    if ltb signum max_signals
    then kill_found signum (find_pid k.system a.arg0 (all_tids k.system.table)) k
    else answer efault k

unfoldable pub handler_of : {D : Type 0} → ℕ → ℕ → Option Arc → Call D
handler_of signum handler none k = answer ebadf k
handler_of signum handler (some arc) k = answer (pos 0) (record k {
  system =
      write_task k.system (λ t. record t { signals = set_handler t.signals signum handler })
        (some arc);
})

unfoldable pub sys_signal : {D : Type 0} → Args → Call D
sys_signal a k =
    let signum = a.arg0 % 256 in
    if ltb signum max_signals
    then with_tid (λ tid k. handler_of signum a.arg1 (registry_get k.system.table tid) k) k
    else answer efault k
