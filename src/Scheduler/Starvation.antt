-- ===== src/Scheduler/Starvation.antt =====
-- kernel/src/scheduler/mlfq.rs: when a run chooses a queued task.
mod Tests
use mathlib.Core.List.{Mem, mem-cons, mem-cons_self}
use mathlib.Core.Logic.Or
use alaphi_os.Base.{
  ℕ, zero, suc, ◌+◌, ◌-◌, ◌*◌, ◌%◌, ◌^◌, ◌≤◌, ◌<◌, ◌≡◌, ◌⊎◌, ◌∙◌, refl, sym, ap, subst, inl, inr,
  Option, none, some, List, [], ◌∷◌, ◌++◌, length, get_elem?, get_or, arith, Bool-cases, ltb, ◌≢◌,
  min, true, false, ◌==◌, if◌then◌else◌,
}
use alaphi_os.Process.Task.{Task}
use alaphi_os.Scheduler.{
  Arc, Heap, MlfqScheduler, Switched, update, num_queues, push, push_back, tick, count_down,
  boost_priorities, boost_period, boost_queues, remove_current, should_reschedule, prepare_switch,
  pick_next, switch_to, put_out, switched,
}
use alaphi_os.Scheduler.Places.{Stands, Picks, push_back-Stands, boost-Stands, pick_next-Picks}
use alaphi_os.Scheduler.Switch.{prepare_switch_rule, switch_to_rule}
use alaphi_os.Scheduler.Runs.{
  Step, ticks, pushes, leaves, tests, switches, writes, step, Run, chosen, noted, then_run, run,
  ticks_of, ticks_in,
}
use alaphi_os.Scheduler.Held.{Held, Held-trans, same-Held, Stepped, step-Stepped}

-- What a run has done to it.
Ran : Arc → ℕ → ℕ → ℕ → ℕ → Run → Type 0
Ran a i k c n none = Unit {0}
Ran a i k c n (some (cs, h, s)) = Mem a cs ⊎ Held a i k c n (length cs) s

module _ (a : Arc) (i k c n n' : ℕ) where
  noted-Ran :
      (p : Option (Option Arc × Arc)) (m : ℕ) (t : MlfqScheduler) (r : Run)
      → ((cs : List Arc) → m + length cs ≡ length (chosen p cs))
      → ((cs : List Arc) → Mem a cs → Mem a (chosen p cs))
      → (g : Held a i k c n m t) → Ran a g.level g.place (t.total_ticks % 100) n' r
      → Ran a i k c (n + n') (noted p r)
  unfolding Ran noted
  noted-Ran p m t none count more g q = tt
  noted-Ran p m t (some (cs, h, s)) count more g (inl q) = inl (more cs q)
  noted-Ran p m t (some (cs, h, s)) count more g (inr q) = inr (
      subst (λ l. Held a i k c (n + n') l s) (count cs)
        (Held-trans a i k c n m n' (length cs) t s g q))

  noted_hit-Ran : (out : Option Arc) (r : Run) → Ran a i k c (n + n') (noted (some (out, a)) r)
  unfolding Ran noted
  noted_hit-Ran out none = tt
  noted_hit-Ran out (some (cs, h, s)) = inl mem-cons_self

  then_run-Ran :
      (next : Heap → MlfqScheduler → Run) (o : Option Switched)
      → ((i' k' : ℕ) (h : Heap) (t : MlfqScheduler)
          → t.total_ticks < 2 ^ 32
          → Stands t.queues i' k' a
          → Ran a i' k' (t.total_ticks % 100) n' (next h t))
      → Stepped a i k c n o
      → Ran a i k c (n + n') (then_run next o)
  unfolding Ran Stepped then_run noted
  then_run-Ran next none ih p = tt
  then_run-Ran next (some (h, t, none)) ih g =
      noted-Ran none 0 t (next h t) (λ cs. omega arith) (λ cs q. q) g
        (ih g.level g.place h t g.counts g.stands)
  then_run-Ran next (some (h, t, some (out, b))) ih (inl e) =
      subst (λ b. Ran a i k c (n + n') (noted (some (out, b)) (next h t))) (sym e)
        (noted_hit-Ran out (next h t))
  then_run-Ran next (some (h, t, some (out, b))) ih (inr g) =
      noted-Ran (some (out, b)) 1 t (next h t) (λ cs. omega arith) (λ cs q. mem-cons.1 (Or.inr q)) g
        (ih g.level g.place h t g.counts g.stands)

run-Ran :
    (xs : List Step) (a : Arc) (i k : ℕ) (h : Heap) (s : MlfqScheduler)
    → s.total_ticks < 2 ^ 32
    → Stands s.queues i k a
    → Ran a i k (s.total_ticks % 100) (ticks_in xs) (run xs h s)
unfolding run Ran
run-Ran [] a i k h s small st = inr (same-Held a i k s s refl refl small st)
run-Ran (x ∷ xs) a i k h s small st =
    then_run-Ran a i k (s.total_ticks % 100) (ticks_of x) (ticks_in xs) (run xs) (step x h s)
      (λ i' k' h' t small' st'. run-Ran xs a i' k' h' t small' st')
      (step-Stepped x a i k h s small st)

level_below : (qs : List (List Arc)) (i k : ℕ) (a : Arc) → Stands qs i k a → i < length qs
level_below [] i k a e = cc
level_below (q ∷ qs) zero k a e = omega arith
level_below (q ∷ qs) (suc i) k a e = omega (arith, level_below qs i k a e)

place_below : (q : List Arc) (k : ℕ) (a : Arc) → get_elem? q k ≡ some a → k < length q
place_below [] k a e = cc
place_below (x ∷ q) zero a e = omega arith
place_below (x ∷ q) (suc k) a e = omega (arith, place_below q k a e)

-- Seven hundred ticks bring a task that has not been chosen to the top queue.
top_after :
    (a : Arc) (i k c n m : ℕ) (s : MlfqScheduler)
    → i < 8
    → 700 ≤ n
    → (g : Held a i k c n m s) → g.level ≡ 0
top_after a i k c n m s low long g = elim g.sinks [ inl z ↦ z | inr h ↦ omega arith ]

-- In the top queue a task is chosen before as many switches have chosen one as stand there.
chosen_in_time :
    (ys : List Step) (a : Arc) (k : ℕ) (h h' : Heap) (s s' : MlfqScheduler) (ds : List Arc)
    → s.total_ticks < 2 ^ 32
    → Stands s.queues 0 k a
    → run ys h s ≡ some (ds, h', s')
    → k < length ds
    → Mem a ds
unfolding Ran
chosen_in_time ys a k h h' s s' ds small st e more =
    elim (subst (Ran a 0 k (s.total_ticks % 100) (ticks_in ys)) e (run-Ran ys a 0 k h s small st)) [
      | inl q ↦ q
      | inr g ↦ absurd (omega (arith, (g.top refl).1))
    ]

-- No task that is queued starves, whatever tasks are pushed, end, are written to and are switched
-- meanwhile (in runs that do not panic, with eight queues and a count of ticks of 32 bits): in a
-- run with 700 ticks or more, followed by one in which switches choose a task at least as many
-- times as the top queue has tasks after the first run, the task is chosen in the one or the other.
pub queued_runs :
    (xs ys : List Step) (a : Arc) (i k : ℕ) (h h' h'' : Heap) (s s' s'' : MlfqScheduler)
    (cs ds : List Arc)
    → length s.queues ≡ num_queues
    → s.total_ticks < 2 ^ 32
    → Stands s.queues i k a
    → run xs h s ≡ some (cs, h', s')
    → 700 ≤ ticks_in xs
    → run ys h' s' ≡ some (ds, h'', s'')
    → length (get_or s'.queues 0 []) ≤ length ds
    → Mem a cs ⊎ Mem a ds
unfolding Ran
queued_runs xs ys a i k h h' h'' s s' s'' cs ds eight small st e long f more =
    elim (subst (Ran a i k (s.total_ticks % 100) (ticks_in xs)) e (run-Ran xs a i k h s small st)) [
      | inl q ↦ inl q
      | inr g ↦
          let z =
            top_after a i k (s.total_ticks % 100) (ticks_in xs) (length cs) s'
              (omega (arith, eight, level_below s.queues i k a st)) long g in
          let top = subst (λ l. Stands s'.queues l g.place a) z g.stands in
          inr (
            chosen_in_time ys a g.place h' h'' s' s'' ds g.counts top f
              (omega (arith, more, place_below (get_or s'.queues 0 []) g.place a top)))
    ]
