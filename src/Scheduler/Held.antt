-- ===== src/Scheduler/Held.antt =====
-- kernel/src/scheduler/mlfq.rs: how an operation moves a task that it does not choose.
use alaphi_os.Base.{
  ℕ, zero, suc, ◌+◌, ◌-◌, ◌*◌, ◌%◌, ◌^◌, ◌≤◌, ◌<◌, ◌≡◌, ◌⊎◌, ◌∙◌, refl, sym, ap, subst, inl, inr,
  Option, none, some, List, arith, Bool-cases, ltb, ◌≢◌, min, false, ◌==◌,
}
use alaphi_os.Scheduler.{
  Arc, Heap, MlfqScheduler, Switched, num_queues, push, push_back, tick, count_down,
  boost_priorities, boost_period, boost_queues, remove_current, should_reschedule, prepare_switch,
  switch_to, put_out, switched,
}
use alaphi_os.Scheduler.Places.{Stands, Picks, push_back-Stands, boost-Stands, pick_next-Picks}
use alaphi_os.Scheduler.Switch.{prepare_switch_rule, switch_to_rule}
use alaphi_os.Scheduler.Runs.{Step, ticks, pushes, leaves, tests, switches, writes, step, ticks_of}

-- A task that stood in queue `i` behind `k` others, `c` ticks after a boost, has not been chosen in `n`
-- ticks and `m` switches: a hundred ticks take it one queue down, and in the top queue each switch
-- takes it one place nearer.
pub record Held (a : Arc) (i k c n m : ℕ) (s : MlfqScheduler) : Type 0 where
  pub level : ℕ
  pub place : ℕ
  pub stands : Stands s.queues level place a
  pub sinks : (level ≡ 0) ⊎ (100 * level + c + n ≤ 100 * i + s.total_ticks % 100)
  pub top : i ≡ 0 → (level ≡ 0) × (place + m ≡ k)
  pub counts : s.total_ticks < 2 ^ 32

pub Held-trans :
    (a : Arc) (i k c n m n' m' : ℕ) (s t : MlfqScheduler)
    → (g : Held a i k c n m s) → Held a g.level g.place (s.total_ticks % 100) n' m' t
    → Held a i k c (n + n') (m + m') t
Held-trans a i k c n m n' m' s t g g' = record {
  level = g'.level;
  place = g'.place;
  stands = g'.stands;
  sinks = sinks g.sinks g'.sinks;
  top = λ z. let (l, p) = g.top z in let (l', p') = g'.top l in (l', omega (arith, p, p'));
  counts = g'.counts;
}
  where
    sinks :
        (g.level ≡ 0) ⊎ (100 * g.level + c + n ≤ 100 * i + s.total_ticks % 100)
        → (g'.level ≡ 0)
          ⊎ (100 * g'.level + s.total_ticks % 100 + n' ≤ 100 * g.level + t.total_ticks % 100)
        → (g'.level ≡ 0) ⊎ (100 * g'.level + c + (n + n') ≤ 100 * i + t.total_ticks % 100)
    sinks (inl z) q = inl ((g'.top z).0)
    sinks (inr p) (inl z) = inl z
    sinks (inr p) (inr q) = inr (omega arith)

-- The step leaves the queues and the count of ticks.
pub same-Held :
    (a : Arc) (i k : ℕ) (s t : MlfqScheduler)
    → t.queues ≡ s.queues
    → t.total_ticks ≡ s.total_ticks
    → s.total_ticks < 2 ^ 32
    → Stands s.queues i k a
    → Held a i k (s.total_ticks % 100) 0 0 t
same-Held a i k s t q e small h = record {
  level = i;
  place = k;
  stands = subst (λ l. Stands l i k a) (sym q) h;
  sinks = inr (omega (arith, e));
  top = λ z. (z, omega arith);
  counts = omega (arith, e, small);
}

push-Held :
    (a b : Arc) (i k : ℕ) (h : Heap) (s : MlfqScheduler)
    → s.total_ticks < 2 ^ 32
    → Stands s.queues i k a
    → Held a i k (s.total_ticks % 100) 0 0 (push h s b)
unfolding push
push-Held a b i k h s small st = elim (Bool-cases (ltb (h b).priority num_queues)) [
  | inl e ↦ rw (e, push) (queued (h b).priority)
  | inr e ↦ rw (e, push) (queued (num_queues - 1))
]
  where
    queued :
        (j : ℕ)
        → Held a i k (s.total_ticks % 100) 0 0 (record s { queues = push_back s.queues j b })
    queued j = record {
      level = i;
      place = k;
      stands = push_back-Stands s.queues i k j a b st;
      sinks = inr (omega arith);
      top = λ z. (z, omega arith);
      counts = small;
    }

count_down-same :
    (s : MlfqScheduler)
    → ((count_down s).queues ≡ s.queues) × ((count_down s).total_ticks ≡ s.total_ticks)
unfolding count_down
count_down-same s = ground arith

-- The tick that boosts, and the one that does not.
boosted-Held :
    (a : Arc) (i k : ℕ) (s t : MlfqScheduler)
    → Stands s.queues i k a
    → t.queues ≡ boost_queues s.queues
    → t.total_ticks ≡ (s.total_ticks + 1) % 2 ^ 32
    → t.total_ticks % 100 ≡ 0
    → Held a i k (s.total_ticks % 100) 1 0 t
boosted-Held a i k s t st q e z =
    let (k', st', same) = boost-Stands s.queues i k a st in
    record {
      level = i - 1;
      place = k';
      stands = subst (λ l. Stands l (i - 1) k' a) (sym q) st';
      sinks = lower i;
      top = λ y. (omega arith, omega (arith, same y));
      counts = omega (arith, e);
    }
  where
    lower :
        (i : ℕ)
        → (i - 1 ≡ 0) ⊎ (100 * (i - 1) + s.total_ticks % 100 + 1 ≤ 100 * i + t.total_ticks % 100)
    lower zero = inl (omega arith)
    lower (suc i) = inr (omega (arith, z))

counted-Held :
    (a : Arc) (i k : ℕ) (s t : MlfqScheduler)
    → s.total_ticks < 2 ^ 32
    → Stands s.queues i k a
    → t.queues ≡ s.queues
    → t.total_ticks ≡ (s.total_ticks + 1) % 2 ^ 32
    → t.total_ticks % 100 ≢ 0
    → Held a i k (s.total_ticks % 100) 1 0 t
counted-Held a i k s t small st q e nz = record {
  level = i;
  place = k;
  stands = subst (λ l. Stands l i k a) (sym q) st;
  sinks = inr (omega (arith, e, nz));
  top = λ z. (z, omega arith);
  counts = omega (arith, e);
}

tick-Held :
    (a : Arc) (i k : ℕ) (h : Heap) (s : MlfqScheduler)
    → s.total_ticks < 2 ^ 32
    → Stands s.queues i k a
    → Held a i k (s.total_ticks % 100) 1 0 (tick h s).1
unfolding tick boost_priorities
tick-Held a i k h s small st =
    let counted = record s { total_ticks = (s.total_ticks + 1) % 2 ^ 32 } in
    elim (Bool-cases (counted.total_ticks % boost_period == 0)) [
      | inl now ↦
          let b = (boost_priorities h counted).1 in
          let (q, t) = count_down-same b in
          let zero_left : (s.total_ticks + 1) % 2 ^ 32 % 100 ≡ 0 = ground (arith, now) in
          rw (now, tick)
            (boosted-Held a i k s (count_down b) st q t (ap (λ n. n % 100) t ∙ zero_left))
      | inr later ↦
          let (q, t) = count_down-same counted in
          let left : (s.total_ticks + 1) % 2 ^ 32 % 100 ≢ 0 = λ z. ground (arith, later, z) in
          rw (later, tick)
            (counted-Held a i k s (count_down counted) small st q t
              (λ z. left (sym (ap (λ n. n % 100) t) ∙ z)))
    ]

-- What a step has done to a task that stands in queue `i` behind `k` others.
unfoldable pub Stepped : Arc → ℕ → ℕ → ℕ → ℕ → Option Switched → Type 0
Stepped a i k c n none = Unit {0}
Stepped a i k c n (some (h', s', none)) = Held a i k c n 0 s'
Stepped a i k c n (some (h', s', some (_, b))) = (b ≡ a) ⊎ Held a i k c n 1 s'

put_out-Stands :
    (h : Heap) (rest : List (List Arc)) (out : Option Arc) (i k : ℕ) (a : Arc)
    → Stands rest i k a
    → Stands (put_out h rest out).1 i k a
unfolding put_out
put_out-Stands h rest none i k a st = st
put_out-Stands h rest (some out) i k a st =
    push_back-Stands rest i k (min (((h out).priority + 1) % 256) (num_queues - 1)) a out st

switch_to-Stepped :
    (a b : Arc) (i k : ℕ) (h : Heap) (s : MlfqScheduler) (rest : List (List Arc))
    → s.total_ticks < 2 ^ 32
    → Picks i k a (some (b, rest))
    → Stepped a i k (s.total_ticks % 100) 0 (switch_to h s b rest)
unfolding Picks Stepped switched
switch_to-Stepped a b i k h s rest small (inl e) =
    switch_to_rule (Stepped a i k (s.total_ticks % 100) 0) h s b rest tt (λ slice _. inl e)
switch_to-Stepped a b i k h s rest small (inr (k', st, near)) =
    switch_to_rule (Stepped a i k (s.total_ticks % 100) 0) h s b rest tt (λ slice _. inr (record {
      level = i;
      place = k';
      stands = put_out-Stands h rest s.current i k' a st;
      sinks = inr (omega arith);
      top = λ z. (z, near z);
      counts = small;
    }))

prepare_switch-Stepped :
    (a : Arc) (i k : ℕ) (h : Heap) (s : MlfqScheduler)
    → s.total_ticks < 2 ^ 32
    → Stands s.queues i k a
    → Stepped a i k (s.total_ticks % 100) 0 (prepare_switch h s)
unfolding Stepped
prepare_switch-Stepped a i k h s small st =
    prepare_switch_rule (Stepped a i k (s.total_ticks % 100) 0) h s
      (λ _. same-Held a i k s s refl refl small st)
      (λ _. same-Held a i k s (record s { needs_reschedule = false }) refl refl small st)
      (λ b rest _ e _.
        switch_to-Stepped a b i k h s rest small
          (subst (Picks i k a) e (pick_next-Picks s.queues i k a st)))

remove_current-same :
    (s : MlfqScheduler)
    → ((remove_current s).1.queues ≡ s.queues) × ((remove_current s).1.total_ticks ≡ s.total_ticks)
unfolding remove_current
remove_current-same s = ground arith

should_reschedule-same :
    (h : Heap) (s : MlfqScheduler)
    → ((should_reschedule h s).queues ≡ s.queues)
      × ((should_reschedule h s).total_ticks ≡ s.total_ticks)
unfolding should_reschedule
should_reschedule-same h s = ground arith

pub step-Stepped :
    (x : Step) (a : Arc) (i k : ℕ) (h : Heap) (s : MlfqScheduler)
    → s.total_ticks < 2 ^ 32
    → Stands s.queues i k a
    → Stepped a i k (s.total_ticks % 100) (ticks_of x) (step x h s)
unfolding step Stepped
step-Stepped ticks a i k h s small st = tick-Held a i k h s small st
step-Stepped (pushes b) a i k h s small st = push-Held a b i k h s small st
step-Stepped leaves a i k h s small st =
    let (q, t) = remove_current-same s in same-Held a i k s (remove_current s).1 q t small st
step-Stepped tests a i k h s small st =
    let (q, t) = should_reschedule-same h s in
    same-Held a i k s (should_reschedule h s) q t small st
step-Stepped switches a i k h s small st = prepare_switch-Stepped a i k h s small st
step-Stepped (writes b t) a i k h s small st = same-Held a i k s s refl refl small st
