-- ===== src/Lifecycle/Wakeups.antt =====
-- kernel/src/scheduler/mod.rs: `unblock_tid` and `unblock_pid` queue a task once.
use mathlib.Core.List.{
  Mem, mem-cons, mem-append_left, mem-append_right, Nodup, Nodup-cons, perm_middle, Perm,
}
use mathlib.Core.List.Perm
use mathlib.Core.Logic.Or
use alaphi_os.Base.{
  ℕ, ◌<◌, ◌≡◌, ◌≢◌, refl, ◌∙◌, sym, subst, ap, true, false, Option, none, some, ◌∷◌, All, arith,
  ==_refl, ne→==, inl, inr, Bool-cases,
}
use alaphi_os.Process.Task.{Task, ready}
use alaphi_os.Scheduler.{Arc, Heap, MlfqScheduler, update, push, push_back, num_queues}
use alaphi_os.Scheduler.Queues.{in_order, flat-push_back, length-push_back}
use alaphi_os.Scheduler.Switch.{opt_list, everyone}
use alaphi_os.Scheduler.Levels.{Levelled-update, Levelled-push_back}
use alaphi_os.Scheduler.WellFormed.{WellFormed}
use alaphi_os.Lifecycle.{
  System, registry_get, is_blocked, wake, unblock_tid, unblock_pid, unblock_found, find_pid,
  all_tids,
}

-- The scheduler is well formed, no task that runs or is queued is blocked, and the tasks of the table
-- have a level that exists.
pub record Sound (s : System) : Type 0 where
  pub well_formed : WellFormed s.heap s.sched
  pub awake : (a : Arc) → Mem a (everyone s.sched) → is_blocked (s.heap a).state ≡ false
  pub bounded :
      (tid : ℕ) (a : Arc) → registry_get s.table tid ≡ some a → (s.heap a).priority < num_queues

push_here :
    (h : Heap) (s : MlfqScheduler) (a : Arc)
    → (h a).priority < num_queues
    → push h s a ≡ record s { queues = push_back s.queues (h a).priority a }
unfolding push
push_here h s a low = ground arith

push_perm :
    (h : Heap) (s : MlfqScheduler) (a : Arc)
    → (h a).priority < num_queues
    → WellFormed h s
    → Perm (everyone (push h s a)) (a ∷ everyone s)
push_perm h s a low w = rw (push_here h s a low) (
    Perm.trans
      (Perm.append_left (opt_list s.current)
        (flat-push_back s.queues (h a).priority a (omega (arith, w.eight))))
      (perm_middle (opt_list s.current) (in_order s)))

push-WellFormed :
    (h : Heap) (s : MlfqScheduler) (a : Arc)
    → (h a).priority < num_queues
    → ¬ Mem a (everyone s)
    → WellFormed h s
    → WellFormed h (push h s a)
push-WellFormed h s a low apart w =
    let queued : MlfqScheduler = record s { queues = push_back s.queues (h a).priority a } in
    subst (WellFormed h) (sym (push_here h s a low)) (record {
      eight = length-push_back s.queues (h a).priority a ∙ w.eight;
      distinct =
          subst (λ t. Nodup (everyone t)) (push_here h s a low)
            (Perm.nodup (Perm.symm (push_perm h s a low w)) (Nodup-cons.1 (apart, w.distinct)));
      levelled = Levelled-push_back h 0 (h a).priority a s.queues (omega arith) w.levelled;
      running_level = w.running_level;
    })

update-running :
    (h : Heap) (a : Arc) (t : Task) (current : Option Arc)
    → ¬ Mem a (opt_list current)
    → All (λ b. (h b).priority < num_queues) (opt_list current)
    → All (λ b. (update h a t b).priority < num_queues) (opt_list current)
update-running h a t none apart all = tt
update-running h a t (some b) apart all =
    (rw (ne→== b a (λ e. apart (mem-cons.1 (Or.inl (sym e))))) all.0, tt)

-- A write to a task that neither runs nor is queued.
pub update-WellFormed :
    (h : Heap) (s : MlfqScheduler) (a : Arc) (t : Task)
    → ¬ Mem a (everyone s)
    → WellFormed h s
    → WellFormed (update h a t) s
update-WellFormed h s a t apart w = record {
  eight = w.eight;
  distinct = w.distinct;
  levelled =
      Levelled-update h a t 0 s.queues (λ m. apart (mem-append_right (opt_list s.current) m))
        w.levelled;
  running_level =
      update-running h a t s.current (λ m. apart (mem-append_left (in_order s) m)) w.running_level;
}

woken : System → Arc → System
woken s a =
    let heap = update s.heap a (record (s.heap a) { state = ready }) in
    record s { heap = heap; sched = push heap s.sched a }

wake_rule {ℓ} :
    (P : System → Type ℓ) (s : System) (a : Arc)
    → (is_blocked (s.heap a).state ≡ true → P (woken s a))
    → (is_blocked (s.heap a).state ≡ false → P s)
    → P (wake s (some a))
unfolding wake woken
wake_rule P s a yes' no' = elim (Bool-cases (is_blocked (s.heap a).state)) [
  | inl e ↦ simp (e, wake) (yes' e)
  | inr e ↦ simp (e, wake) (no' e)
]

blocked_apart :
    (s : System) (a : Arc)
    → Sound s
    → is_blocked (s.heap a).state ≡ true
    → ¬ Mem a (everyone s.sched)
blocked_apart s a sound e m = let f = sound.awake a m in cc

woken-Sound :
    (s : System) (a : Arc)
    → (s.heap a).priority < num_queues
    → is_blocked (s.heap a).state ≡ true
    → Sound s
    → Sound (woken s a)
unfolding is_blocked woken push
woken-Sound s a low e sound =
    let apart = blocked_apart s a sound e in
    let t = record (s.heap a) { state = ready } in
    let heap = update s.heap a t in
    let low' : (heap a).priority < num_queues = rw (==_refl a) low in
    let w : WellFormed heap s.sched =
      update-WellFormed s.heap s.sched a t apart sound.well_formed in
    record {
      well_formed = push-WellFormed heap s.sched a low' apart w;
      awake = λ b m. woken-awake b ((Perm.mem_iff (push_perm heap s.sched a low' w)).0 m);
      bounded = λ tid b f. woken-low b (sound.bounded tid b f);
    }
  where
    t : Task
    t = record (s.heap a) { state = ready }

    woken-awake :
        (b : Arc) → Mem b (a ∷ everyone s.sched) → is_blocked (update s.heap a t b).state ≡ false
    woken-awake b m =
        Or.elim (hlevel) (mem-cons.0 m) (λ same. rw (same, ==_refl a) refl)
          (λ queued.
            rw
              (ne→== b a (λ same.
                blocked_apart s a sound e (subst (λ c. Mem c (everyone s.sched)) same queued)))
              (sound.awake b queued))

    woken-low :
        (b : Arc) → (s.heap b).priority < num_queues → (update s.heap a t b).priority < num_queues
    woken-low b h = ground arith

wake-Sound :
    (s : System) (tid : ℕ) (o : Option Arc)
    → registry_get s.table tid ≡ o
    → Sound s
    → Sound (wake s o)
unfolding wake
wake-Sound s tid none f sound = sound
wake-Sound s tid (some a) f sound =
    wake_rule Sound s a (λ e. woken-Sound s a (sound.bounded tid a f) e sound) (λ _. sound)

pub unblock_tid-Sound : (s : System) (tid : ℕ) → Sound s → Sound (unblock_tid s tid)
unfolding unblock_tid
unblock_tid-Sound s tid sound = wake-Sound s tid (registry_get s.table tid) refl sound

pub unblock_pid-Sound : (s : System) (pid : ℕ) → Sound s → Sound (unblock_pid s pid)
unfolding unblock_pid unblock_found
unblock_pid-Sound s pid sound = unblock_found-Sound (find_pid s pid (all_tids s.table))
  where
    unblock_found-Sound : (o : Option ℕ) → Sound (unblock_found s o)
    unblock_found-Sound none = sound
    unblock_found-Sound (some tid) = unblock_tid-Sound s tid sound

-- What a wake-up of the blocked task `a` has done.
pub record Awoken (s s' : System) (a : Arc) : Type 0 where
  pub task : s'.heap a ≡ record (s.heap a) { state = ready }
  pub others : (b : Arc) → b ≢ a → s'.heap b ≡ s.heap b
  pub table : s'.table ≡ s.table
  pub running : s'.sched.current ≡ s.sched.current
  pub queued : s'.sched.queues ≡ push_back s.sched.queues (s.heap a).priority a
  pub absent : ¬ Mem a (everyone s.sched)
  pub once : Perm (everyone s'.sched) (a ∷ everyone s.sched)

woken-Awoken :
    (s : System) (a : Arc)
    → (s.heap a).priority < num_queues
    → is_blocked (s.heap a).state ≡ true
    → Sound s
    → Awoken s (woken s a) a
unfolding woken
woken-Awoken s a low e sound =
    let apart = blocked_apart s a sound e in
    let t = record (s.heap a) { state = ready } in
    let heap = update s.heap a t in
    let low' : (heap a).priority < num_queues = rw (==_refl a) low in
    let w : WellFormed heap s.sched =
      update-WellFormed s.heap s.sched a t apart sound.well_formed in
    let here = push_here heap s.sched a low' in
    record {
      task = rw (==_refl a) refl;
      others = λ b ne. rw (ne→== b a ne) refl;
      table = refl;
      running = ap (λ (u : MlfqScheduler). u.current) here;
      queued = ap (λ (u : MlfqScheduler). u.queues) here ∙ rw (==_refl a) refl;
      absent = apart;
      once = push_perm heap s.sched a low' w;
    }

-- What `wake` does on what the table gives.
Wakes : System → Option Arc → System → Type 0
Wakes s none s' = s' ≡ s
Wakes s (some a) s' =
    (is_blocked (s.heap a).state ≡ true → Awoken s s' a)
    × (is_blocked (s.heap a).state ≡ false → s' ≡ s)

wake-Wakes :
    (s : System) (tid : ℕ) (o : Option Arc)
    → registry_get s.table tid ≡ o
    → Sound s
    → Wakes s o (wake s o)
unfolding wake Wakes
wake-Wakes s tid none f sound = refl
wake-Wakes s tid (some a) f sound =
    wake_rule
      (λ s'.
        (is_blocked (s.heap a).state ≡ true → Awoken s s' a)
        × (is_blocked (s.heap a).state ≡ false → s' ≡ s))
      s a (λ e. (λ _. woken-Awoken s a (sound.bounded tid a f) e sound, λ e'. cc))
      (λ e. (λ e'. cc, λ _. refl))

-- In a sound system (the scheduler is well formed, no task that runs or is queued is blocked, and
-- the tasks of the table have a level below 8), `unblock_tid` of a thread whose task is blocked
-- makes the task ready and puts it, once, at the back of the queue of its level; no other task
-- changes, and the table and the running task stay. For a task that is not blocked, or an unknown
-- id, nothing changes. The system stays sound.
pub unblock_tid_exact :
    (s : System) (tid : ℕ)
    → Sound s
    → Sound (unblock_tid s tid)
      × ((a : Arc)
          → registry_get s.table tid ≡ some a
          → (is_blocked (s.heap a).state ≡ true → Awoken s (unblock_tid s tid) a)
            × (is_blocked (s.heap a).state ≡ false → unblock_tid s tid ≡ s))
      × (registry_get s.table tid ≡ none → unblock_tid s tid ≡ s)
unfolding unblock_tid Wakes
unblock_tid_exact s tid sound = (
  unblock_tid-Sound s tid sound,
  λ a e.
      subst (λ o. Wakes s o (wake s (registry_get s.table tid))) e
        (wake-Wakes s tid (registry_get s.table tid) refl sound),
  λ e.
      subst (λ o. Wakes s o (wake s (registry_get s.table tid))) e
        (wake-Wakes s tid (registry_get s.table tid) refl sound),
)
