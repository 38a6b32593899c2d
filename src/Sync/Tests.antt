-- ===== src/Sync/Tests.antt =====
-- A run of two tasks on a resource.
use alaphi_os.Base.{ℕ, ◌≡◌, refl, true, some, [], ◌∷◌, length}
use alaphi_os.Sync.Resource.{QueuedResource, new, lock_round, unlock, pop_front}
use alaphi_os.Sync.Resource.Exclusion.{Holds, starts, locks, count, Holds-count}

-- Task 2 waits for task 1.
abbrev contended : QueuedResource
contended = (lock_round 2 (lock_round 1 new).1).1

one_waits : contended ≡ record { locked = true; waiters = 2 ∷ []; cond_waiters = [] }
unfolding lock_round new
one_waits = refl

hands_over : (unlock contended).0 ≡ some 2
unfolding unlock lock_round new pop_front
hands_over = refl

contended-Holds : Holds contended (1 ∷ [])
unfolding lock_round new
contended-Holds = locks _ _ 2 (locks _ _ 1 starts)

Holds-count_example : length {A = ℕ} (1 ∷ []) ≡ count contended.locked
Holds-count_example = Holds-count contended (1 ∷ []) contended-Holds
