-- ===== src/Lifecycle/Exits.antt =====
-- kernel/src/process/lifecycle.rs: `exit` of a task, then `wait` for its process.
use mathlib.Core.List.{Mem, Nodup, Nodup-cons}
use alaphi_os.Base.{
  ℕ, ◌≡◌, ◌∙◌, refl, sym, ap, subst, true, false, Option, none, some, ◌∷◌, ◌++◌, All-mono, arith,
  ◌==◌, ==_iff, ==_refl, inl, inr, Bool-cases, Option-cases,
}
use alaphi_os.Base.Map.{keys, get, nat_key, get-remove_here, get-remove_apart}
use alaphi_os.Process.Task.{Task, zombie}
use alaphi_os.Scheduler.{
  Arc, Heap, MlfqScheduler, Switched, update, push, prepare_switch, should_reschedule, put_out,
  switched, switch_to, pick_next,
}
use alaphi_os.Scheduler
use alaphi_os.Scheduler.Levels.{Levelled-update_same}
use alaphi_os.Scheduler.Queues.{in_order}
use alaphi_os.Scheduler.Switch.{opt_list, everyone}
use alaphi_os.Scheduler.WellFormed.{WellFormed}
use alaphi_os.Lifecycle.{
  System, registry_get, registry_remove, is_blocked, is_zombie, find_pid, has_pid, all_tids,
  write_task, wake_parent, parent_at, leave, remove_current, exit, exit_of, pid_is, current_tid,
  code_of, reap, reap_found, wait_round, minus_one,
}
use alaphi_os.Lifecycle.Lookup.{mem-keys, find_pid_unique, find_pid_absent}
use alaphi_os.Lifecycle.Wakeups.{Sound}
use alaphi_os.Lifecycle.Keeps.{
  Keeps, Keeps-trans, update_pid, wake_parent-Keeps, wake_parent-Sound, Resumes, schedule-Keeps,
}

-- The exiting task runs and is the one task of its process in the table.
pub record Exiting (s : System) (a : Arc) (tid : ℕ) : Type 0 where
  pub runs : s.sched.current ≡ some a
  pub tid_of : (s.heap a).tid ≡ tid
  pub listed : registry_get s.table tid ≡ some a
  pub alone :
      (t : ℕ) (b : Arc)
      → registry_get s.table t ≡ some b
      → (s.heap b).pid ≡ (s.heap a).pid
      → t ≡ tid

-- `leave` up to the wake-up of the parent
marked : System → ℕ → Arc → System
marked s code a = write_task s (λ t. record t { state = zombie; exit_code = some code }) (some a)

marked-Sound : (s : System) (code : ℕ) (a : Arc) → Sound s → Sound (marked s code a)
unfolding marked write_task is_blocked
marked-Sound s code a sound =
    let t = record (s.heap a) { state = zombie; exit_code = some code } in
    record {
      well_formed = record {
        eight = sound.well_formed.eight;
        distinct = sound.well_formed.distinct;
        levelled = Levelled-update_same s.heap a t 0 s.sched.queues refl sound.well_formed.levelled;
        running_level =
            All-mono _ _ (opt_list s.sched.current) (λ b h. ground arith)
              sound.well_formed.running_level;
      };
      awake = λ b m. marked-awake b (sound.awake b m);
      bounded = λ tid b e. let h = sound.bounded tid b e in ground arith;
    }
  where
    marked-awake :
        (b : Arc)
        → is_blocked (s.heap b).state ≡ false
        → is_blocked
            (update s.heap a (record (s.heap a) { state = zombie; exit_code = some code }) b).state
          ≡ false
    marked-awake b h = elim (Bool-cases (b == a)) [ inl e ↦ rw e refl | inr e ↦ rw e h ]

removed :
    (s : MlfqScheduler) (a : Arc)
    → s.current ≡ some a
    → (Scheduler.remove_current s).1
      ≡ record s { current = none; ticks_remaining = 0; needs_reschedule = true }
unfolding Scheduler.remove_current
removed s a e = ground arith

-- A system whose task `a` has just been taken off the processor.
record Left (a : Arc) (s u : System) : Type 0 where
  idle : u.sched.current ≡ none
  well_formed : WellFormed u.heap u.sched
  gone : ¬ Mem a (everyone u.sched)
  keeps : Keeps a s u

remove_current-Left :
    (s : System) (a : Arc) → s.sched.current ≡ some a → Sound s → Left a s (remove_current s)
unfolding remove_current
remove_current-Left s a e sound =
    let nd : Nodup (a ∷ in_order s.sched) =
      subst (λ o. Nodup (opt_list o ++ in_order s.sched)) e sound.well_formed.distinct in
    subst (λ t. Left a s (record s { sched = t })) (sym (removed s.sched a e))
      (record {
        idle = refl;
        well_formed = record {
          eight = sound.well_formed.eight;
          distinct = (Nodup-cons.0 nd).1;
          levelled = sound.well_formed.levelled;
          running_level = tt;
        };
        gone = (Nodup-cons.0 nd).0;
        keeps = record { table = refl; pids = λ b. refl; task = refl };
      })

module _ (s : System) (a : Arc) (tid code : ℕ) (sound : Sound s) (x : Exiting s a tid) where
  abbrev gone_task : Task
  gone_task = record (s.heap a) { state = zombie; exit_code = some code }

  marked_task : (marked s code a).heap a ≡ gone_task
  unfolding marked write_task
  marked_task = rw (==_refl a) refl

  marked_awake : is_blocked ((marked s code a).heap a).state ≡ false
  unfolding is_blocked
  marked_awake = rw marked_task refl

  leave_parent-Left :
      (parent : Option ℕ)
      → Left a (marked s code a) (remove_current (wake_parent (marked s code a) parent))
  unfolding marked write_task
  leave_parent-Left parent =
      let (k, cur) = wake_parent-Keeps a (marked s code a) parent marked_awake in
      let sound' = wake_parent-Sound (marked s code a) parent (marked-Sound s code a sound) in
      let left =
        remove_current-Left (wake_parent (marked s code a) parent) a (cur ∙ marked_runs) sound' in
      record {
        idle = left.idle;
        well_formed = left.well_formed;
        gone = left.gone;
        keeps =
            Keeps-trans a (marked s code a) (wake_parent (marked s code a) parent) _ k left.keeps;
      }
    where
      marked_runs : (marked s code a).sched.current ≡ some a
      marked_runs = x.runs

  leave-Left : Left a (marked s code a) (leave s code tid)
  unfolding leave marked
  leave-Left =
      subst
        (λ o. Left a (marked s code a) (
          remove_current (
            wake_parent (write_task s (λ t. record t { state = zombie; exit_code = some code }) o)
              (parent_at s o))))
        (sym x.listed) (leave_parent-Left (parent_at s (some a)))

  current_tid-some : current_tid s ≡ some tid
  unfolding current_tid
  current_tid-some =
      ap (λ o. elim o as (λ x. Option ℕ) [ none ↦ none | some b ↦ some (s.heap b).tid ]) x.runs
      ∙ ap some x.tid_of

  exits : (s' : System) × (exit s code ≡ some s') × Keeps a (marked s code a) s'
  unfolding exit exit_of Resumes
  exits =
      let l = leave-Left in
      let (s', e, k) = schedule-Keeps a (leave s code tid) l.idle l.well_formed l.gone in
      (
        s',
        ap (exit_of s code) current_tid-some ∙ e,
        Keeps-trans a (marked s code a) (leave s code tid) s' l.keeps k,
      )

  module _ (s' : System) (k : Keeps a (marked s code a) s') where
    same_table : s'.table ≡ s.table
    unfolding marked write_task
    same_table = k.table

    same_pid : (b : Arc) → (s'.heap b).pid ≡ (s.heap b).pid
    unfolding marked write_task
    same_pid b = k.pids b ∙ update_pid s.heap a b gone_task refl

    same_get : (t : ℕ) → registry_get s'.table t ≡ registry_get s.table t
    same_get t = ap (λ m. registry_get m t) same_table

    has_pid_here : has_pid s' (s.heap a).pid tid ≡ true
    unfolding has_pid pid_is
    has_pid_here =
        ap (pid_is s' (s.heap a).pid) (same_get tid ∙ x.listed)
        ∙ (rw (same_pid a) (==_refl (s.heap a).pid))

    has_pid_only : (t : ℕ) → has_pid s' (s.heap a).pid t ≡ true → t ≡ tid
    unfolding has_pid pid_is
    has_pid_only t h = elim (Option-cases (registry_get s.table t)) [
      | inl e ↦ let f = sym h ∙ ap (pid_is s' (s.heap a).pid) (same_get t ∙ e) in cc
      | inr (b, e) ↦
          let f = sym (ap (pid_is s' (s.heap a).pid) (same_get t ∙ e)) ∙ h in
          x.alone t b e (sym (same_pid b) ∙ (==_iff (s'.heap b).pid (s.heap a).pid).0 f)
    ]

    found : find_pid s' (s.heap a).pid (all_tids s'.table) ≡ some tid
    unfolding all_tids registry_get
    found =
        find_pid_unique s' (s.heap a).pid tid (keys s'.table) has_pid_here has_pid_only
          (mem-keys tid a s'.table (same_get tid ∙ x.listed))

    zombie_left : s'.heap a ≡ gone_task
    zombie_left = k.task ∙ marked_task

    reaped : reap s' tid (some a) ≡ (some code, record s' { table = registry_remove s'.table tid })
    unfolding reap is_zombie code_of
    reaped = rw zombie_left refl

    abbrev after : System
    after = record s' { table = registry_remove s'.table tid }

    reaped_after : (t : ℕ) → has_pid after (s.heap a).pid t ≡ false
    unfolding has_pid registry_get registry_remove pid_is
    reaped_after t = elim (Bool-cases (t == tid)) [
      | inl e ↦ ap (pid_is after (s.heap a).pid) (get-remove_here tid t s'.table e)
      | inr e ↦
          ap (pid_is after (s.heap a).pid) (get-remove_apart tid t s'.table e)
          ∙ same_test (get t s'.table)
          ∙ other t e
    ]
      where
        same_test : (o : Option Arc) → pid_is after (s.heap a).pid o ≡ pid_is s' (s.heap a).pid o
        same_test none = refl
        same_test (some b) = refl

        other : (t : ℕ) → (t == tid) ≡ false → has_pid s' (s.heap a).pid t ≡ false
        other t e = elim (Bool-cases (has_pid s' (s.heap a).pid t)) [
          | inl f ↦ let g = (==_iff t tid).1 (has_pid_only t f) in cc
          | inr f ↦ f
        ]

-- In a sound system (the scheduler is well formed, so that every task in a queue has the level of its
-- queue and the running one a level below 8; no task that runs or is queued is blocked; the tasks of
-- the table have a level below 8): when a task that runs, and that is the only one of its process in
-- the table, calls `exit`, the call does not panic, whether it wakes a parent and whether another
-- task is ready to run. After it, a round of `wait` for the process ends the wait with the exit code
-- and takes the task out of the table, and a round of a second `wait` ends with -1: the code is
-- handed out once.
pub wait_round-exit :
    (s : System) (a : Arc) (tid code : ℕ)
    → Sound s
    → Exiting s a tid
    → (s' : System) × (exit s code ≡ some s')
      × (let pid = (s.heap a).pid in
          let rest : System = record s' { table = registry_remove s'.table tid } in
          (wait_round s' pid ≡ (some code, rest)) × ((wait_round rest pid).0 ≡ some minus_one))
unfolding wait_round reap_found
wait_round-exit s a tid code sound x =
    let (s', e, k) = exits s a tid code sound x in
    let rest : System = record s' { table = registry_remove s'.table tid } in
    (
      s',
      e,
      (
        ap (reap_found s') (found s a tid code sound x s' k)
            ∙ ap (reap s' tid) (same_get s a tid code sound x s' k tid ∙ x.listed)
            ∙ reaped s a tid code sound x s' k,
        ap (λ o. (reap_found rest o).0)
            (find_pid_absent rest (s.heap a).pid (all_tids rest.table)
              (reaped_after s a tid code sound x s' k)),
      ),
    )
