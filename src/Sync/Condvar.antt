-- ===== src/Sync/Condvar.antt =====
-- kernel/src/sync/condvar.rs: the waiters of a condition variable of the kernel. A wait is what it
-- does before it gives up the lock; a wake-up is through the task table.
use alaphi_os.Base.{ℕ, List, [], ◌∷◌, ◌++◌}
use alaphi_os.Lifecycle.{System, mark_blocked, unblock_tid}

pub record CondVar : Type 0 where
  pub waiters : List ℕ

unfoldable pub new : CondVar
new = record { waiters = [] }

-- up to the call of the scheduler
unfoldable pub wait : CondVar → System → ℕ → CondVar × System
wait c s curr_tid = (record { waiters = c.waiters ++ curr_tid ∷ [] }, mark_blocked s curr_tid)

unfoldable pub signal_first : List ℕ → System → CondVar × System
signal_first [] s = (record { waiters = [] }, s)
signal_first (t ∷ ts) s = (record { waiters = ts }, unblock_tid s t)

unfoldable pub signal : CondVar → System → CondVar × System
signal c s = signal_first c.waiters s

-- the loop of `broadcast`
unfoldable pub unblock_all : List ℕ → System → System
unblock_all [] s = s
unblock_all (t ∷ ts) s = unblock_all ts (unblock_tid s t)

unfoldable pub broadcast : CondVar → System → CondVar × System
broadcast c s = (record { waiters = [] }, unblock_all c.waiters s)
