-- ===== src/Lifecycle/Keeps.antt =====
-- kernel/src/scheduler/mod.rs: what a wake-up and a switch leave as it was.
use mathlib.Core.List.{Mem, mem-cons, not-mem-nil, mem-append_right}
use mathlib.Core.Logic.Or
use alaphi_os.Base.{
  ℕ, ◌+◌, ◌*◌, ◌≡◌, ◌≢◌, ◌∙◌, refl, sym, ap, subst, true, false, Option, none, some, List, ◌∷◌, ltb,
  flat, arith, ==_iff, ne→==, inl, inr, Bool-cases,
}
use alaphi_os.Process.Task.{Task, running, ready}
use alaphi_os.Scheduler.{
  Arc, Heap, MlfqScheduler, update, push, prepare_switch, should_reschedule, put_out, switched,
}
use alaphi_os.Scheduler.Queues.{in_order}
use alaphi_os.Scheduler.Switch.{opt_list, everyone, prepare_switch_rule}
use alaphi_os.Scheduler.WellFormed.{WellFormed, switch_to-eq-some, put_out_other}
use alaphi_os.Lifecycle.{
  System, registry_get, is_blocked, wake, unblock_tid, unblock_pid, unblock_found, find_pid,
  all_tids, schedule, scheduled, wake_parent,
}
use alaphi_os.Lifecycle.Wakeups.{Sound, unblock_pid-Sound}

-- What a step leaves as it was: the table, the process ids, and the task `a`.
pub record Keeps (a : Arc) (s s' : System) : Type 0 where
  pub table : s'.table ≡ s.table
  pub pids : (b : Arc) → (s'.heap b).pid ≡ (s.heap b).pid
  pub task : s'.heap a ≡ s.heap a

pub Keeps-refl : (a : Arc) (s : System) → Keeps a s s
Keeps-refl a s = record { table = refl; pids = λ b. refl; task = refl }

pub Keeps-trans : (a : Arc) (s t u : System) → Keeps a s t → Keeps a t u → Keeps a s u
Keeps-trans a s t u k l = record {
  table = l.table ∙ k.table;
  pids = λ b. l.pids b ∙ k.pids b;
  task = l.task ∙ k.task;
}

pub update_pid :
    (h : Heap) (a b : Arc) (t : Task) → t.pid ≡ (h a).pid → (update h a t b).pid ≡ (h b).pid
update_pid h a b t e = ground (arith, ==_iff b a)

update_other : (h : Heap) (a b : Arc) (t : Task) → b ≢ a → update h a t b ≡ h b
update_other h a b t apart = rw (ne→== b a apart) refl

current-push : (h : Heap) (s : MlfqScheduler) (a : Arc) → (push h s a).current ≡ s.current
unfolding push
current-push h s a = ground arith

awake_apart :
    (s : System) (a b : Arc)
    → is_blocked (s.heap a).state ≡ false
    → is_blocked (s.heap b).state ≡ true
    → a ≢ b
awake_apart s a b h e same = let f = subst (λ c. is_blocked (s.heap c).state ≡ false) same h in cc

-- A task that is not blocked is out of the reach of a wake-up.
wake-Keeps :
    (a : Arc) (s : System) (o : Option Arc)
    → is_blocked (s.heap a).state ≡ false
    → Keeps a s (wake s o) × ((wake s o).sched.current ≡ s.sched.current)
unfolding wake
wake-Keeps a s none h = (Keeps-refl a s, refl)
wake-Keeps a s (some b) h =
    let t = record (s.heap b) { state = ready } in
    elim (Bool-cases (is_blocked (s.heap b).state)) [
      | inl e ↦ rw e (
        record {
          table = refl;
          pids = λ c. update_pid s.heap b c t refl;
          task = update_other s.heap b a t (awake_apart s a b h e);
        },
        current-push (update s.heap b t) s.sched b,
      )
      | inr e ↦ rw e (Keeps-refl a s, refl)
    ]

pub wake_parent-Keeps :
    (a : Arc) (s : System) (parent : Option ℕ)
    → is_blocked (s.heap a).state ≡ false
    → Keeps a s (wake_parent s parent) × ((wake_parent s parent).sched.current ≡ s.sched.current)
unfolding wake_parent unblock_pid unblock_found unblock_tid
wake_parent-Keeps a s none h = (Keeps-refl a s, refl)
wake_parent-Keeps a s (some pid) h = found (find_pid s pid (all_tids s.table))
  where
    found :
        (o : Option ℕ)
        → Keeps a s (unblock_found s o) × ((unblock_found s o).sched.current ≡ s.sched.current)
    found none = (Keeps-refl a s, refl)
    found (some tid) = wake-Keeps a s (registry_get s.table tid) h

pub wake_parent-Sound : (s : System) (parent : Option ℕ) → Sound s → Sound (wake_parent s parent)
unfolding wake_parent
wake_parent-Sound s none sound = sound
wake_parent-Sound s (some pid) sound = unblock_pid-Sound s pid sound

-- With no task running, the scheduler takes one out of its queues and writes to that one only.
should_reschedule_idle :
    (h : Heap) (s : MlfqScheduler) → s.current ≡ none → should_reschedule h s ≡ s
unfolding should_reschedule
should_reschedule_idle h s e = ground arith

unfoldable pub Resumes : Arc → System → Option System → Type 0
Resumes a s o = (s' : System) × (o ≡ some s') × Keeps a s s'

prepare_switch-Keeps :
    (a : Arc) (s : System)
    → s.sched.current ≡ none
    → WellFormed s.heap s.sched
    → ¬ Mem a (everyone s.sched)
    → Resumes a s (scheduled s (prepare_switch s.heap s.sched))
unfolding Resumes scheduled switched
prepare_switch-Keeps a s idle w apart =
    prepare_switch_rule (λ o. Resumes a s (scheduled s o)) s.heap s.sched
      (λ _. (s, refl, Keeps-refl a s))
      (λ _. (_, refl, record { table = refl; pids = λ b. refl; task = refl }))
      (λ b rest _ e f.
        subst (λ o. Resumes a s (scheduled s o))
          (sym (switch_to-eq-some s.heap s.sched b rest w e f)) (_, refl, switched-Keeps b rest f))
  where
    out_same :
        (rest : List (List Arc)) (c : Arc) → (put_out s.heap rest s.sched.current).0 c ≡ s.heap c
    out_same rest c =
        put_out_other s.heap rest s.sched.current c
          (λ m. not-mem-nil (subst (λ o. Mem c (opt_list o)) idle m))

    picked : (b : Arc) (rest : List (List Arc)) → in_order s.sched ≡ b ∷ flat rest → a ≢ b
    picked b rest f same = apart (
        mem-append_right (opt_list s.sched.current)
          (subst (Mem a) (sym f) (mem-cons.1 (Or.inl same))))

    switched-Keeps :
        (b : Arc) (rest : List (List Arc)) (f : in_order s.sched ≡ b ∷ flat rest)
        → Keeps a s (record s {
          heap =
              (switched
                (put_out s.heap rest s.sched.current).0
                s.sched
                b
                (put_out s.heap rest s.sched.current).1
                (((s.heap b).priority + 1) * ((s.heap b).priority + 1))).0;
          sched =
              (switched
                (put_out s.heap rest s.sched.current).0
                s.sched
                b
                (put_out s.heap rest s.sched.current).1
                (((s.heap b).priority + 1) * ((s.heap b).priority + 1))).1;
        })
    switched-Keeps b rest f =
        let h' = (put_out s.heap rest s.sched.current).0 in
        let t = record (h' b) { state = running } in
        record {
          table = refl;
          pids = λ c. update_pid h' b c t refl ∙ ap (λ (t : Task). t.pid) (out_same rest c);
          task = update_other h' b a t (picked b rest f) ∙ out_same rest a;
        }

pub schedule-Keeps :
    (a : Arc) (s : System)
    → s.sched.current ≡ none
    → WellFormed s.heap s.sched
    → ¬ Mem a (everyone s.sched)
    → Resumes a s (schedule s)
unfolding schedule Resumes
schedule-Keeps a s idle w apart = elim (Bool-cases (ltb 0 s.preempt_count)) [
  | inl e ↦ rw e (s, refl, Keeps-refl a s)
  | inr e ↦
      rw (e, should_reschedule_idle s.heap s.sched idle) (prepare_switch-Keeps a s idle w apart)
]
