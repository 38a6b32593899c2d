-- ===== src/Syscall/Locks.antt =====
-- kernel/src/syscall/dispatch.rs: the calls on user locks.
use alaphi_os.Base.{ℕ, Option, none, some, if◌then◌else◌}
use alaphi_os.Lifecycle.{System, mark_blocked, unblock_tid, schedule}
use alaphi_os.Sync.Condvar.{unblock_all}
use alaphi_os.Sync.Resource
use alaphi_os.Sync.Resource.{
  QueuedResource, lock_round, try_lock, unlock, wait_round, signal, broadcast,
}
use alaphi_os.Sync.Table.{insert, get, write}
use alaphi_os.Syscall.{
  Kernel, Args, Call, Reply, returns, blocks, locks, awaits, answer, or_answer, with_tid,
}
use alaphi_os.Syscall.Errno.{pos, ebadf, eagain, as_isize}

unfoldable pub sys_getresource : {D : Type 0} → Call D
sys_getresource k = elim (insert k.resources Resource.new) [
  | none ↦ none
  | some (handle, resources) ↦ some (record k { resources = resources }, returns (as_isize handle))
]

-- `RESOURCE_TABLE.lock().get(arg0)` and the call on what it gives
unfoldable pub with_resource : {D : Type 0} → ℕ → (QueuedResource → Call D) → Call D
with_resource handle f k = or_answer ebadf f (get k.resources handle) k

unfoldable pub put_resource : {D : Type 0} → Kernel D → ℕ → QueuedResource → Kernel D
put_resource k handle r = record k { resources = write k.resources handle r }

-- the call of the scheduler of a task that waits
unfoldable pub sleep : {D : Type 0} → Kernel D → Option System → Reply → Option (Kernel D × Reply)
sleep k none reply = none
sleep k (some s) reply = some (record k { system = s }, reply)

-- A round of `lock`; one that does not take the lock blocks the task.
unfoldable pub lock_by : {D : Type 0} → ℕ → ℕ → QueuedResource → Call D
lock_by handle tid r k =
    let (acquired, r') = lock_round tid r in
    let k' = put_resource k handle r' in
    if acquired
    then answer (pos 0) k'
    else sleep k' (schedule (mark_blocked k.system tid)) (blocks (locks handle))

unfoldable pub sys_mutex_lock : {D : Type 0} → Args → Call D
sys_mutex_lock a = with_resource a.arg0 λ r. with_tid λ tid. lock_by a.arg0 tid r

unfoldable pub sys_trylock : {D : Type 0} → Args → Call D
sys_trylock a = with_resource a.arg0 λ r k.
    let (acquired, r') = try_lock r in
    if acquired then answer (pos 0) (put_resource k a.arg0 r') else answer eagain k

unfoldable pub wake_waiter : System → Option ℕ → System
wake_waiter s none = s
wake_waiter s (some tid) = unblock_tid s tid

unfoldable pub sys_mutex_unlock : {D : Type 0} → Args → Call D
sys_mutex_unlock a = with_resource a.arg0 λ r k.
    let (waiter, r') = unlock r in
    answer (pos 0) (record (put_resource k a.arg0 r') { system = wake_waiter k.system waiter })

-- `wait` up to its rounds of `lock`
unfoldable pub sys_condvar_wait : {D : Type 0} → Args → Call D
sys_condvar_wait a = with_resource a.arg0 λ r. with_tid λ tid k.
    let (waiter, r') = wait_round tid r in
    sleep (put_resource k a.arg0 r') (schedule (wake_waiter (mark_blocked k.system tid) waiter))
      (blocks (awaits a.arg0))

unfoldable pub sys_condvar_signal : {D : Type 0} → Args → Call D
sys_condvar_signal a = with_resource a.arg0 λ r k.
    let (waiter, r') = signal r in
    answer (pos 0) (record (put_resource k a.arg0 r') { system = wake_waiter k.system waiter })

unfoldable pub sys_condvar_broadcast : {D : Type 0} → Args → Call D
sys_condvar_broadcast a = with_resource a.arg0 λ r k.
    let (woken, r') = broadcast r in
    answer (pos 0) (record (put_resource k a.arg0 r') { system = unblock_all woken k.system })
