-- ===== src/Sync/Resource.antt =====
-- kernel/src/sync/resource.rs: `QueuedResource`, by the sections that hold its inner lock. The tasks
-- that a section blocks or wakes through the task table are part of its result.
pub mod Exclusion
use alaphi_os.Base.{ℕ, Bool, true, false, Option, none, some, List, [], ◌∷◌, ◌++◌, if◌then◌else◌}

abbrev pub Tid : Type 0
Tid = ℕ

pub record QueuedResource : Type 0 where
  pub locked : Bool
  pub waiters : List Tid
  pub cond_waiters : List Tid

unfoldable pub new : QueuedResource
new = record { locked = false; waiters = []; cond_waiters = [] }

-- One round of the loop of `lock`: whether the lock is taken. The loop ends with the first round that
-- takes it; a round that does not blocks the task.
unfoldable pub lock_round : Tid → QueuedResource → Bool × QueuedResource
lock_round tid s =
    if s.locked
    then (false, record s { waiters = s.waiters ++ tid ∷ [] })
    else (true, record s { locked = true })

unfoldable pub try_lock : QueuedResource → Bool × QueuedResource
try_lock s = if s.locked then (false, s) else (true, record s { locked = true })

-- `pop_front`
unfoldable pub pop_front : List Tid → Option Tid × List Tid
pop_front [] = (none, [])
pop_front (t ∷ ts) = (some t, ts)

-- The task that is woken.
unfoldable pub unlock : QueuedResource → Option Tid × QueuedResource
unlock s =
    let (waiter, rest) = pop_front s.waiters in
    (waiter, record s { locked = false; waiters = rest })

-- `wait` up to the call of the scheduler; it goes on with the rounds of `lock`.
unfoldable pub wait_round : Tid → QueuedResource → Option Tid × QueuedResource
wait_round tid s = unlock (record s { cond_waiters = s.cond_waiters ++ tid ∷ [] })

unfoldable pub signal : QueuedResource → Option Tid × QueuedResource
signal s =
    let (waiter, rest) = pop_front s.cond_waiters in (waiter, record s { cond_waiters = rest })

-- All the waiters are woken, in order.
unfoldable pub broadcast : QueuedResource → List Tid × QueuedResource
broadcast s = (s.cond_waiters, record s { cond_waiters = [] })
