-- ===== src/Scheduler/Policy.antt =====
-- kernel/src/scheduler/mlfq.rs: which task a switch chooses, and what becomes of the one that leaves.
use mathlib.Core.List.{Mem, mem-cons, mem-cons_self}
use mathlib.Core.List.Perm
use mathlib.Core.Logic.Or
use alaphi_os.Base.{
  ◌+◌, ◌*◌, ◌%◌, ◌<◌, ◌≤◌, ◌≡◌, ◌≢◌, refl, ap, sym, ◌∙◌, min, true, false, Option, none, some, List,
  ◌∷◌, flat, get_elem?, subst, arith, ==_refl, ne→==, length, All,
}
use alaphi_os.Process.Task.{Task, running, ready}
use alaphi_os.Scheduler.{
  Arc, Heap, MlfqScheduler, Switched, num_queues, time_slices, prepare_switch, switch_to, switched,
  put_out,
}
use alaphi_os.Scheduler.Queues.{in_order, flat-push_back, length-pick_next}
use alaphi_os.Scheduler.Switch.{prepare_switch_rule, opt_list}
use alaphi_os.Scheduler.WellFormed.{
  WellFormed, reached, switch_to-eq-some, picked_apart, put_out_other,
}
use alaphi_os.Scheduler.Slice.{no_slice}

-- What a switch to `a` must do: `a` runs with the full slice of its level, no further switch is
-- due, and the two tasks for the context switch are the one that ran and `a`.
abbrev pub RunsNext : Heap → MlfqScheduler → Arc → Switched → Type 0
RunsNext h s a r =
    (r.1.current ≡ some a)
    × ((r.0 a).state ≡ running)
    × (r.1.ticks_remaining ≡ ((h a).priority + 1) * ((h a).priority + 1))
    × (r.1.needs_reschedule ≡ false)
    × (r.2 ≡ some (s.current, a))

-- In a well-formed state, a switch that is due while a task is queued does not panic; it chooses the
-- first task of the run order, so the oldest one of the highest queue that is not empty, and lets it
-- run with the full slice of its level.
pub prepare_switch-RunsNext :
    (h : Heap) (s : MlfqScheduler) (a : Arc) (order : List Arc)
    → WellFormed h s
    → s.needs_reschedule ≡ true
    → in_order s ≡ a ∷ order
    → (r : Switched) × (prepare_switch h s ≡ some r) × RunsNext h s a r
unfolding switched
prepare_switch-RunsNext h s a order w on first =
    prepare_switch_rule (λ o. (r : Switched) × (o ≡ some r) × RunsNext h s a r) h s (λ off. cc)
      (λ idle. cc)
      λ b rest _ e f.
        let same : b ≡ a = cc in
        subst (λ a. (r : Switched) × (switch_to h s b rest ≡ some r) × RunsNext h s a r) same
          (
            reached h s b rest w e f,
            switch_to-eq-some h s b rest w e f,
            (refl, rw (==_refl b), refl, refl, refl),
          )

-- What becomes of the task that leaves.
abbrev pub IsDemoted : Heap → Arc → Switched → Type 0
IsDemoted h out r =
    ((r.0 out).state ≡ ready)
    × ((r.0 out).priority ≡ min ((h out).priority + 1) 7)
    × Mem out (in_order r.1)

demoted :
    (h : Heap) (queues : List (List Arc)) (current : Option Arc) (out : Arc)
    → length queues ≡ num_queues
    → (h out).priority < num_queues
    → current ≡ some out
    → ((put_out h queues current).0 out
        ≡ record (h out) { priority = min ((h out).priority + 1) 7; state = ready })
      × Mem out (flat (put_out h queues current).1)
unfolding put_out
demoted h queues current out n low c =
    subst
      (λ c.
        ((put_out h queues c).0 out
          ≡ record (h out) { priority = min ((h out).priority + 1) 7; state = ready })
        × Mem out (flat (put_out h queues c).1))
      (sym c)
      (
        rw (==_refl out) (ap (λ p. record (h out) { priority = p; state = ready }) (omega arith)),
        (Perm.mem_iff (
              Perm.symm
                (flat-push_back queues (min (((h out).priority + 1) % 256) 7) out (omega arith)))).0
            mem-cons_self,
      )

-- In a well-formed state, at a switch that is due while a task is queued, the task that leaves is made
-- `Ready` one level down (the last level stays) and queued again, whatever its state was: a task that
-- marked itself `Blocked` is not kept off the processor.
pub prepare_switch-IsDemoted :
    (h : Heap) (s : MlfqScheduler) (a out : Arc) (order : List Arc)
    → WellFormed h s
    → s.needs_reschedule ≡ true
    → in_order s ≡ a ∷ order
    → s.current ≡ some out
    → (r : Switched) × (prepare_switch h s ≡ some r) × IsDemoted h out r
unfolding switched
prepare_switch-IsDemoted h s a out order w on first c =
    prepare_switch_rule (λ o. (r : Switched) × (o ≡ some r) × IsDemoted h out r) h s (λ off. cc)
      (λ idle. cc)
      λ b rest _ e f.
        let low : (h out).priority < num_queues =
          (subst (λ o. All (λ a. (h a).priority < num_queues) (opt_list o)) c w.running_level).0 in
        let (written, queued) =
          demoted h rest s.current out (length-pick_next s.queues rest b e ∙ w.eight) low c in
        let apart : out ≢ b = λ same.
          (picked_apart h s b rest w e f).0
            (subst (λ o. Mem b (opt_list o)) (sym c) (mem-cons.1 (Or.inl (sym same)))) in
        (
          reached h s b rest w e f,
          switch_to-eq-some h s b rest w e f,
          (
            rw (ne→== out b apart) (ap (λ (t : Task). t.state) written),
            rw (ne→== out b apart) (ap (λ (t : Task). t.priority) written),
            queued,
          ),
        )

-- A task that was queued with a priority beyond the last level, which `push` accepts and `SYS_CLONE`
-- takes from the caller, makes the switch to it panic.
pub prepare_switch_panics :
    (h : Heap) (s : MlfqScheduler) (a : Arc) (order : List Arc)
    → s.needs_reschedule ≡ true
    → in_order s ≡ a ∷ order
    → ¬ Mem a (opt_list s.current)
    → num_queues ≤ (h a).priority
    → prepare_switch h s ≡ none
unfolding switch_to
prepare_switch_panics h s a order on first apart high =
    prepare_switch_rule (λ o. o ≡ none) h s (λ off. cc) (λ idle. cc)
      λ b rest _ e f.
        let same : b ≡ a = cc in
        let kept : (put_out h rest s.current).0 b ≡ h b =
          put_out_other h rest s.current b
            (λ m. apart (subst (λ x. Mem x (opt_list s.current)) same m)) in
        let out : get_elem? time_slices ((put_out h rest s.current).0 b).priority ≡ none =
          ap (λ (t : Task). get_elem? time_slices t.priority) kept
          ∙ no_slice (h b).priority (subst (λ x. num_queues ≤ (h x).priority) (sym same) high) in
        rw (out, switch_to)
