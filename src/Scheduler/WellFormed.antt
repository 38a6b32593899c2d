-- ===== src/Scheduler/WellFormed.antt =====
-- kernel/src/scheduler/mlfq.rs: the invariant of the scheduler with its heap.
use mathlib.Core.List.{Mem, mem-cons, mem-append_left, Nodup, Nodup-cons, Nodup-append, perm_middle}
use mathlib.Core.List.Perm
use mathlib.Core.Logic.Or
use mathlib.Core.Path.{ap₂}
use alaphi_os.Base.{
  ◌+◌, ◌*◌, ◌%◌, ◌^◌, ◌<◌, ◌≡◌, refl, ap, sym, ◌∙◌, min, false, Option, none, some, List, ◌∷◌, ◌++◌,
  length, flat, All, arith, ◌==◌, inl, inr, get_elem?, subst, ne→==, ==_refl, Bool-cases,
}
use alaphi_os.Process.Task.{Task, running, ready}
use alaphi_os.Scheduler.{
  Arc, Heap, update, MlfqScheduler, num_queues, time_slices, pick_next, put_out, prepare_switch,
  Switched, switched, switch_to, tick, count_down, boost_priorities, boost_heap, boost_period,
}
use alaphi_os.Scheduler.Queues.{in_order, length-pick_next}
use alaphi_os.Scheduler.Levels.{
  Levelled, Levelled-update, Levelled-update_same, Levelled-push_back, Levelled-pick_next,
  Levelled-boost, boost_heap_other,
}
use alaphi_os.Scheduler.Boost.{flat-boost_queues, length-boost_queues}
use alaphi_os.Scheduler.Slice.{slice_of_level}
use alaphi_os.Scheduler.Switch.{
  opt_list, everyone, prepare_switch_rule, switched_perm, put_out_perm,
}

-- What every operation keeps: eight queues, no task twice, each queued task at the level of its
-- queue and the running one at a level that exists.
pub record WellFormed (h : Heap) (s : MlfqScheduler) : Type 0 where
  pub eight : length s.queues ≡ num_queues
  pub distinct : Nodup (everyone s)
  pub levelled : Levelled h 0 s.queues
  pub running_level : All (λ a. (h a).priority < num_queues) (opt_list s.current)

put_out-Levelled :
    (h : Heap) (queues : List (List Arc)) (out : Option Arc)
    → Nodup (opt_list out ++ flat queues)
    → Levelled h 0 queues
    → Levelled (put_out h queues out).0 0 (put_out h queues out).1
unfolding put_out
put_out-Levelled h queues none nd lev = lev
put_out-Levelled h queues (some out) nd lev =
    let prio = min (((h out).priority + 1) % 256) 7 in
    let t = record (h out) { priority = prio; state = ready } in
    Levelled-push_back (update h out t) 0 prio out queues (rw (==_refl out) (omega arith))
      (Levelled-update h out t 0 queues (Nodup-cons.0 nd).0 lev)

-- The outgoing task is the only one that `put_out` writes to.
pub put_out_other :
    (h : Heap) (queues : List (List Arc)) (out : Option Arc) (a : Arc)
    → ¬ Mem a (opt_list out)
    → (put_out h queues out).0 a ≡ h a
unfolding put_out
put_out_other h queues none a apart = refl
put_out_other h queues (some out) a apart = rw (ne→== a out (λ e. apart (mem-cons.1 (Or.inl e))))

module _ (h : Heap) (s : MlfqScheduler) (a : Arc) (rest : List (List Arc)) (w : WellFormed h s)
    (e : pick_next s.queues ≡ some (a, rest)) (f : in_order s ≡ a ∷ flat rest) where
  pub picked_apart : (¬ Mem a (opt_list s.current)) × Nodup (opt_list s.current ++ flat rest)
  picked_apart =
      let nd : Nodup (opt_list s.current ++ a ∷ flat rest) =
        subst (λ t. Nodup (opt_list s.current ++ t)) f w.distinct in
      let (apart, nd') =
        Nodup-cons.0 (Perm.nodup (perm_middle (opt_list s.current) (flat rest)) nd) in
      (λ m. apart (mem-append_left (flat rest) m), nd')

  pub picked_same : (put_out h rest s.current).0 a ≡ h a
  picked_same = put_out_other h rest s.current a picked_apart.0

  picked_level : Levelled h 0 rest × ((h a).priority < num_queues)
  picked_level =
      let (lev, _, high) = Levelled-pick_next h 0 s.queues rest a e w.levelled in
      (lev, omega (arith, w.eight))

  -- The state that a switch reaches.
  abbrev pub reached : Switched
  reached =
      switched (put_out h rest s.current).0 s a (put_out h rest s.current).1
        (((h a).priority + 1) * ((h a).priority + 1))

  pub switch_to-eq-some : switch_to h s a rest ≡ some reached
  unfolding switch_to
  switch_to-eq-some =
      let slice : get_elem? time_slices ((put_out h rest s.current).0 a).priority
          ≡ some (((h a).priority + 1) * ((h a).priority + 1)) =
        ap (λ (t : Task). get_elem? time_slices t.priority) picked_same
        ∙ slice_of_level (h a).priority picked_level.1 in
      rw (slice, switch_to)

  reached-WellFormed : WellFormed reached.0 reached.1
  unfolding switched
  reached-WellFormed =
      let out = put_out h rest s.current in
      record {
        eight = (put_out_perm h rest s.current (length-pick_next s.queues rest a e ∙ w.eight)).1;
        distinct = Perm.nodup (Perm.symm (switched_perm h s a rest e f w.eight)) w.distinct;
        levelled =
            Levelled-update_same out.0 a (record (out.0 a) { state = running }) 0 out.1 refl
              (put_out-Levelled h rest s.current picked_apart.1 picked_level.0);
        running_level = (
          rw (==_refl a)
              (subst (λ (t : Task). t.priority < num_queues) (sym picked_same) picked_level.1),
          tt,
        );
      }

-- In a well-formed state a switch never panics, and the state after it is well formed.
pub prepare_switch-WellFormed :
    (h : Heap) (s : MlfqScheduler)
    → WellFormed h s
    → (r : Switched) × (prepare_switch h s ≡ some r) × WellFormed r.0 r.1
prepare_switch-WellFormed h s w =
    prepare_switch_rule (λ o. (r : Switched) × (o ≡ some r) × WellFormed r.0 r.1) h s
      (λ _. ((h, s, none), refl, w))
      (λ _. (
        (h, record s { needs_reschedule = false }, none),
        refl,
        record {
          eight = w.eight;
          distinct = w.distinct;
          levelled = w.levelled;
          running_level = w.running_level;
        },
      ))
      (λ a rest _ e f. (
        reached h s a rest w e f,
        switch_to-eq-some h s a rest w e f,
        reached-WellFormed h s a rest w e f,
      ))

count_down_tasks :
    (s : MlfqScheduler) → ((count_down s).queues ≡ s.queues) × ((count_down s).current ≡ s.current)
unfolding count_down
count_down_tasks s = ground arith

-- A write to nothing but the slice and the flags.
same_tasks :
    (h : Heap) (s t : MlfqScheduler)
    → t.queues ≡ s.queues
    → t.current ≡ s.current
    → WellFormed h s
    → WellFormed h t
same_tasks h s t q c w = record {
  eight = ap length q ∙ w.eight;
  distinct = subst Nodup (sym (ap₂ (λ c q. opt_list c ++ flat q) c q)) w.distinct;
  levelled = subst (Levelled h 0) (sym q) w.levelled;
  running_level =
      subst (λ c. All (λ a. (h a).priority < num_queues) (opt_list c)) (sym c) w.running_level;
}

running_untouched :
    (h h' : Heap) (current : Option Arc) (qs : List Arc)
    → ((b : Arc) → ¬ Mem b qs → h' b ≡ h b)
    → Nodup (opt_list current ++ qs)
    → All (λ a. (h a).priority < num_queues) (opt_list current)
    → All (λ a. (h' a).priority < num_queues) (opt_list current)
running_untouched h h' none qs same nd all = tt
running_untouched h h' (some a) qs same nd all =
    (subst (λ (t : Task). t.priority < num_queues) (sym (same a (Nodup-cons.0 nd).0)) all.0, tt)

boost-WellFormed :
    (h : Heap) (s : MlfqScheduler)
    → WellFormed h s
    → WellFormed (boost_priorities h s).0 (boost_priorities h s).1
unfolding boost_priorities
boost-WellFormed h s w =
    let run = flat-boost_queues s.queues in
    record {
      eight = length-boost_queues s.queues ∙ w.eight;
      distinct = subst (λ t. Nodup (opt_list s.current ++ t)) (sym run) w.distinct;
      levelled = Levelled-boost h s.queues (Nodup-append.0 w.distinct).1 w.levelled;
      running_level =
          running_untouched h (boost_heap h s.queues) s.current (flat s.queues)
            (boost_heap_other h s.queues) w.distinct w.running_level;
    }

-- A tick keeps the state well formed, whether it boosts or not.
pub tick-WellFormed :
    (h : Heap) (s : MlfqScheduler) → WellFormed h s → WellFormed (tick h s).0 (tick h s).1
unfolding tick
tick-WellFormed h s w =
    let counted = record s { total_ticks = (s.total_ticks + 1) % 2 ^ 32 } in
    let w' = same_tasks h s counted refl refl w in
    elim (Bool-cases (counted.total_ticks % boost_period == 0)) [
      | inl now ↦
          rw (now, tick)
            (counted_down (boost_priorities h counted).0 (boost_priorities h counted).1
              (boost-WellFormed h counted w'))
      | inr later ↦ rw (later, tick) (counted_down h counted w')
    ]
  where
    counted_down : (g : Heap) (t : MlfqScheduler) → WellFormed g t → WellFormed g (count_down t)
    counted_down g t v =
        same_tasks g t (count_down t) (count_down_tasks t).0 (count_down_tasks t).1 v
