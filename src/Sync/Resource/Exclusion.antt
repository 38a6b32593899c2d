-- ===== src/Sync/Resource/Exclusion.antt =====
-- kernel/src/sync/resource.rs: who holds the lock.
use alaphi_os.Base.{
  ℕ, ◌≡◌, ◌≤◌, refl, Bool, true, false, List, [], ◌∷◌, ◌++◌, if◌then◌else◌, arith, length,
  length-append,
}
use alaphi_os.Sync.Resource.{
  Tid, QueuedResource, new, lock_round, try_lock, unlock, wait_round, signal, broadcast,
}

-- The calls of tasks one after another, with the tasks that hold the lock. Only a holder unlocks, or
-- waits on the condition.
pub data Holds : QueuedResource → List Tid → Type 0 where
  starts : Holds new []
  locks :
      (s : QueuedResource) (hs : List Tid) (t : Tid)
      → Holds s hs
      → Holds (lock_round t s).1 (if (lock_round t s).0 then t ∷ hs else hs)
  tries :
      (s : QueuedResource) (hs : List Tid) (t : Tid)
      → Holds s hs
      → Holds (try_lock s).1 (if (try_lock s).0 then t ∷ hs else hs)
  unlocks :
      (s : QueuedResource) (hs gs : List Tid) (t : Tid)
      → Holds s (hs ++ t ∷ gs)
      → Holds (unlock s).1 (hs ++ gs)
  waits :
      (s : QueuedResource) (hs gs : List Tid) (t : Tid)
      → Holds s (hs ++ t ∷ gs)
      → Holds (wait_round t s).1 (hs ++ gs)
  signals : (s : QueuedResource) (hs : List Tid) → Holds s hs → Holds (signal s).1 hs
  broadcasts : (s : QueuedResource) (hs : List Tid) → Holds s hs → Holds (broadcast s).1 hs

-- What the lock says of the number of its holders.
unfoldable pub count : Bool → ℕ
count false = 0
count true = 1

count-lock_round :
    (s : QueuedResource) (hs : List Tid) (t : Tid)
    → length hs ≡ count s.locked
    → length (if (lock_round t s).0 then t ∷ hs else hs) ≡ count (lock_round t s).1.locked
unfolding lock_round count
count-lock_round s hs t h = ground arith

count-try_lock :
    (s : QueuedResource) (hs : List Tid) (t : Tid)
    → length hs ≡ count s.locked
    → length (if (try_lock s).0 then t ∷ hs else hs) ≡ count (try_lock s).1.locked
unfolding try_lock count
count-try_lock s hs t h = ground arith

count_le : (b : Bool) → count b ≤ 1
unfolding count
count_le true = omega arith
count_le false = omega arith

released :
    (b : Bool) (hs gs : List Tid) (t : Tid)
    → length (hs ++ t ∷ gs) ≡ count b
    → length (hs ++ gs) ≡ 0
released b hs gs t h = omega (arith, count_le b, length-append hs (t ∷ gs), length-append hs gs)

-- As long as only a task that holds the lock unlocks it or waits on its condition, at most one task
-- holds it: after any sequence of calls the lock is taken exactly if one task holds it, and free
-- exactly if none does.
pub Holds-count : (s : QueuedResource) (hs : List Tid) → Holds s hs → length hs ≡ count s.locked
unfolding new unlock wait_round signal broadcast count
Holds-count _ _ starts = refl
Holds-count _ _ (locks s hs t h) = count-lock_round s hs t (Holds-count s hs h)
Holds-count _ _ (tries s hs t h) = count-try_lock s hs t (Holds-count s hs h)
Holds-count _ _ (unlocks s hs gs t h) = released s.locked hs gs t (Holds-count s (hs ++ t ∷ gs) h)
Holds-count _ _ (waits s hs gs t h) = released s.locked hs gs t (Holds-count s (hs ++ t ∷ gs) h)
Holds-count _ _ (signals s hs h) = Holds-count s hs h
Holds-count _ _ (broadcasts s hs h) = Holds-count s hs h
