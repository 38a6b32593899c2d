-- ===== src/Scheduler/Switch.antt =====
-- kernel/src/scheduler/mlfq.rs, `prepare_switch` and `tick` over whole states: which task runs next,
-- and what every operation keeps.
use mathlib.Core.List.{Perm, perm_middle}
use mathlib.Core.List.Perm
use alaphi_os.Base.{
  ℕ, ◌+◌, ◌%◌, ◌≡◌, ◌∙◌, min, true, false, Option, none, some, List, [], ◌∷◌, ◌++◌, length, flat,
  arith, inl, inr, get_elem?, Bool-cases, Option-cases,
}
use alaphi_os.Scheduler.{
  Arc, Heap, MlfqScheduler, num_queues, time_slices, pick_next, put_out, prepare_switch, Switched,
  switched, switch_to,
}
use alaphi_os.Scheduler.Queues.{
  in_order, pick_next-flat, length-pick_next, flat-push_back, length-push_back,
}

abbrev pub opt_list : Option Arc → List Arc
opt_list none = []
opt_list (some a) = a ∷ []

-- The task that runs, if any, and then the queued ones in run order.
abbrev pub everyone : MlfqScheduler → List Arc
everyone s = opt_list s.current ++ in_order s

pub put_out_perm :
    (h : Heap) (queues : List (List Arc)) (out : Option Arc)
    → length queues ≡ num_queues
    → Perm (flat (put_out h queues out).1) (opt_list out ++ flat queues)
      × (length (put_out h queues out).1 ≡ num_queues)
unfolding put_out
put_out_perm h queues none e = (Perm.refl (flat queues), e)
put_out_perm h queues (some out) e =
    let prio = min (((h out).priority + 1) % 256) 7 in
    (flat-push_back queues prio out (omega arith), length-push_back queues prio out ∙ e)

-- Every way through `prepare_switch`.
pub prepare_switch_rule {ℓ} :
    (P : Option Switched → Type ℓ) (h : Heap) (s : MlfqScheduler)
    → (s.needs_reschedule ≡ false → P (some (h, s, none)))
    → (in_order s ≡ [] → P (some (h, record s { needs_reschedule = false }, none)))
    → ((a : Arc) (rest : List (List Arc))
        → s.needs_reschedule ≡ true
        → pick_next s.queues ≡ some (a, rest)
        → in_order s ≡ a ∷ flat rest
        → P (switch_to h s a rest))
    → P (prepare_switch h s)
unfolding prepare_switch
prepare_switch_rule P h s quiet idle found = elim (Bool-cases s.needs_reschedule) [
  | inr off ↦ simp (off, prepare_switch) (quiet off)
  | inl on ↦ elim (pick_next-flat s.queues) [
    | inl (e, f) ↦ simp (on, e, prepare_switch) (idle f)
    | inr (a, rest, e, f) ↦ simp (on, e, prepare_switch) (found a rest on e f)
  ]
]

pub switch_to_rule {ℓ} :
    (P : Option Switched → Type ℓ) (h : Heap) (s : MlfqScheduler) (a : Arc) (rest : List (List Arc))
    → P none
    → ((slice : ℕ)
        → let (h', queues) = put_out h rest s.current in
          get_elem? time_slices (h' a).priority ≡ some slice
          → P (some (switched h' s a queues slice)))
    → P (switch_to h s a rest)
unfolding switch_to
switch_to_rule P h s a rest panics goes =
    elim (Option-cases (get_elem? time_slices ((put_out h rest s.current).0 a).priority)) [
      | inl e ↦ rw (e, switch_to) panics
      | inr (slice, e) ↦ rw (e, switch_to) (goes slice e)
    ]

-- What holds of the state that is reached, if the code does not panic.
abbrev pub Ensures : (Heap → MlfqScheduler → Type 0) → Option Switched → Type 0
Ensures P none = Unit {0}
Ensures P (some (h, s, pair)) = P h s

pub switched_perm :
    (h : Heap) (s : MlfqScheduler) (a : Arc) (rest : List (List Arc))
    → pick_next s.queues ≡ some (a, rest)
    → in_order s ≡ a ∷ flat rest
    → length s.queues ≡ num_queues
    → Perm (a ∷ flat (put_out h rest s.current).1) (everyone s)
switched_perm h s a rest e f n =
    let (p, _) = put_out_perm h rest s.current (length-pick_next s.queues rest a e ∙ n) in
    rw f (Perm.trans (Perm.cons a p) (Perm.symm (perm_middle (opt_list s.current) (flat rest))))

-- A switch neither loses nor duplicates a task: the tasks that run or wait are the same ones, and
-- there are still eight queues.
pub prepare_switch-perm :
    (h : Heap) (s : MlfqScheduler)
    → length s.queues ≡ num_queues
    → Ensures
        (λ _ s'. Perm (everyone s') (everyone s) × (length s'.queues ≡ num_queues))
        (prepare_switch h s)
unfolding switched
prepare_switch-perm h s n =
    prepare_switch_rule
      (Ensures (λ _ s'. Perm (everyone s') (everyone s) × (length s'.queues ≡ num_queues))) h s
      (λ _. (Perm.refl (everyone s), n)) (λ _. (Perm.refl (everyone s), n))
      λ a rest _ e f.
        switch_to_rule
          (Ensures (λ _ s'. Perm (everyone s') (everyone s) × (length s'.queues ≡ num_queues))) h s
          a rest tt
          λ slice _. (
            switched_perm h s a rest e f n,
            (put_out_perm h rest s.current (length-pick_next s.queues rest a e ∙ n)).1,
          )
