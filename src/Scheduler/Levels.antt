-- ===== src/Scheduler/Levels.antt =====
-- kernel/src/scheduler/mlfq.rs: each queued task's `priority` is the index of its queue.
use mathlib.Core.List.{
  Mem, mem-cons, mem-cons_self, mem-append_left, mem-append_right, Disjoint, Nodup, Nodup-append,
}
use mathlib.Core.Logic.Or
use alaphi_os.Base.{
  ℕ, zero, suc, ◌+◌, ◌≤◌, ◌<◌, ◌≡◌, ◌≢◌, refl, ap, sym, ◌∙◌, Option, none, some, List, [], ◌∷◌,
  ◌++◌, length, flat, All, All-append, All-mono, arith, inl, inr, subst, ne→==, ==_refl,
}
use alaphi_os.Process.Task.{Task}
use alaphi_os.Scheduler.{
  Arc, Heap, update, push_back, pick_next, set_priorities, demote_all, boost_heap, boost_queues,
  append_each,
}
use alaphi_os.Scheduler.Boost.{boost_queues_shift}
use alaphi_os.Scheduler.Queues.{pick_next-flat}

abbrev pub Levelled : Heap → ℕ → List (List Arc) → Type 0
Levelled h i [] = Unit {0}
Levelled h i (q ∷ qs) = All (λ a. (h a).priority ≡ i) q × Levelled h (i + 1) qs

-- A write to a task that stands in no queue, and a write that keeps the priority.
All-update :
    (P : Task → Type 0) (h : Heap) (b : Arc) (t : Task) (q : List Arc)
    → ¬ Mem b q
    → All (λ a. P (h a)) q
    → All (λ a. P (update h b t a)) q
All-update P h b t [] out all = tt
All-update P h b t (x ∷ q) out all =
    let apart : x ≢ b = λ e. out (mem-cons.1 (Or.inl (sym e))) in
    (rw (ne→== x b apart) all.0, All-update P h b t q (λ m. out (mem-cons.1 (Or.inr m))) all.1)

pub Levelled-update :
    (h : Heap) (b : Arc) (t : Task) (i : ℕ) (qs : List (List Arc))
    → ¬ Mem b (flat qs)
    → Levelled h i qs
    → Levelled (update h b t) i qs
Levelled-update h b t i [] out lev = tt
Levelled-update h b t i (q ∷ qs) out lev = (
  All-update (λ t. t.priority ≡ i) h b t q (λ m. out (mem-append_left (flat qs) m)) lev.0,
  Levelled-update h b t (i + 1) qs (λ m. out (mem-append_right q m)) lev.1,
)

pub Levelled-update_same :
    (h : Heap) (b : Arc) (t : Task) (i : ℕ) (qs : List (List Arc))
    → t.priority ≡ (h b).priority
    → Levelled h i qs
    → Levelled (update h b t) i qs
Levelled-update_same h b t i [] same lev = tt
Levelled-update_same h b t i (q ∷ qs) same lev = (
  All-mono (λ a. (h a).priority ≡ i) (λ a. (update h b t a).priority ≡ i) q (λ a e. ground arith)
      lev.0,
  Levelled-update_same h b t (i + 1) qs same lev.1,
)

pub Levelled-push_back :
    (h : Heap) (i k : ℕ) (a : Arc) (qs : List (List Arc))
    → (h a).priority ≡ i + k
    → Levelled h i qs
    → Levelled h i (push_back qs k a)
unfolding push_back
Levelled-push_back h i k a [] e lev = tt
Levelled-push_back h i zero a (q ∷ qs) e lev =
    (All-append (λ a. (h a).priority ≡ i) q (a ∷ []) lev.0 (omega arith, tt), lev.1)
Levelled-push_back h i (suc k) a (q ∷ qs) e lev =
    (lev.0, Levelled-push_back h (i + 1) k a qs (omega arith) lev.1)

some_inj {ℓ} : {A : Type ℓ} {x y : A} → some x ≡ some y → x ≡ y
some_inj {x = x} e = ap (λ o. elim o [ none ↦ x | some z ↦ z ]) e

abbrev Picked : Type 0
Picked = Option (Arc × List (List Arc))

-- The task that is picked has the level of its queue, and the rest stays levelled.
pub Levelled-pick_next :
    (h : Heap) (i : ℕ) (qs rest : List (List Arc)) (a : Arc)
    → pick_next qs ≡ some (a, rest)
    → Levelled h i qs
    → Levelled h i rest × (i ≤ (h a).priority) × ((h a).priority < i + length qs)
unfolding pick_next
Levelled-pick_next h i [] rest a e lev = cc
Levelled-pick_next h i ((b ∷ q) ∷ qs) rest a e lev =
    subst
      (λ p.
        Levelled h i p.1 × (i ≤ (h p.0).priority) × ((h p.0).priority < i + length ((b ∷ q) ∷ qs)))
      (some_inj e) ((lev.0.1, lev.1), omega (arith, lev.0.0), omega (arith, lev.0.0))
Levelled-pick_next h i ([] ∷ qs) rest a e lev = elim (pick_next-flat qs) [
  | inl (n, _) ↦ let bad : ◌≡◌ {A = Picked} none (some (a, rest)) = rw (n, pick_next) at e in cc
  | inr (b, r, p, _) ↦
      let (lev', low, high) = Levelled-pick_next h (i + 1) qs r b p lev.1 in
      let e' : ◌≡◌ {A = Picked} (some (b, [] ∷ r)) (some (a, rest)) = rw (p, pick_next) at e in
      subst
        (λ p. Levelled h i p.1 × (i ≤ (h p.0).priority) × ((h p.0).priority < i + length ([] ∷ qs)))
        (some_inj e') ((tt, lev'), omega arith, omega arith)
]

-- The priorities that `boost_priorities` writes.
set_priorities_other :
    (h : Heap) (p : ℕ) (q : List Arc) (b : Arc) → ¬ Mem b q → set_priorities h p q b ≡ h b
unfolding set_priorities
set_priorities_other h p [] b out = refl
set_priorities_other h p (x ∷ q) b out =
    let apart : b ≢ x = λ e. out (mem-cons.1 (Or.inl e)) in
    let written = update h x (record (h x) { priority = p }) in
    set_priorities_other written p q b (λ m. out (mem-cons.1 (Or.inr m))) ∙ rw (ne→== b x apart)

set_priorities_keep :
    (h : Heap) (p : ℕ) (q : List Arc) (b : Arc)
    → (h b).priority ≡ p
    → (set_priorities h p q b).priority ≡ p
unfolding set_priorities
set_priorities_keep h p [] b e = e
set_priorities_keep h p (x ∷ q) b e =
    set_priorities_keep (update h x (record (h x) { priority = p })) p q b (ground arith)

set_priorities_self :
    (h : Heap) (p : ℕ) (q : List Arc) → All (λ a. (set_priorities h p q a).priority ≡ p) q
unfolding set_priorities
set_priorities_self h p [] = tt
set_priorities_self h p (x ∷ q) = (
  set_priorities_keep (update h x (record (h x) { priority = p })) p q x (rw (==_refl x)),
  set_priorities_self (update h x (record (h x) { priority = p })) p q,
)

demote_all_other :
    (h : Heap) (i : ℕ) (qs : List (List Arc)) (b : Arc)
    → ¬ Mem b (flat qs)
    → demote_all h i qs b ≡ h b
unfolding demote_all
demote_all_other h i [] b out = refl
demote_all_other h i (q ∷ qs) b out =
    demote_all_other (set_priorities h i q) (i + 1) qs b (λ m. out (mem-append_right q m))
    ∙ set_priorities_other h i q b (λ m. out (mem-append_left (flat qs) m))

-- A fact about tasks that the demotion does not touch.
All-untouched :
    (h h' : Heap) (p : ℕ) (q : List Arc) (others : List Arc)
    → ((b : Arc) → ¬ Mem b others → h' b ≡ h b)
    → Disjoint q others
    → All (λ a. (h a).priority ≡ p) q
    → All (λ a. (h' a).priority ≡ p) q
All-untouched h h' p [] others same apart all = tt
All-untouched h h' p (x ∷ q) others same apart all = (
  ap (λ t. t.priority) (same x (apart x mem-cons_self)) ∙ all.0,
  All-untouched h h' p q others same (λ a m. apart a (mem-cons.1 (Or.inr m))) all.1,
)

demote_all-Levelled :
    (h : Heap) (i : ℕ) (qs : List (List Arc)) → Nodup (flat qs) → Levelled (demote_all h i qs) i qs
unfolding demote_all
demote_all-Levelled h i [] nd = tt
demote_all-Levelled h i (q ∷ qs) nd =
    let parts = Nodup-append.0 nd in
    (
      All-untouched (set_priorities h i q) (demote_all (set_priorities h i q) (i + 1) qs) i q
          (flat qs) (demote_all_other (set_priorities h i q) (i + 1) qs) parts.2
          (set_priorities_self h i q),
      demote_all-Levelled (set_priorities h i q) (i + 1) qs parts.1,
    )

Levelled-snoc_empty :
    (h : Heap) (i : ℕ) (qs : List (List Arc)) → Levelled h i qs → Levelled h i (qs ++ ([] ∷ []))
Levelled-snoc_empty h i [] lev = (tt, tt)
Levelled-snoc_empty h i (q ∷ qs) lev = (lev.0, Levelled-snoc_empty h (i + 1) qs lev.1)

-- A boost writes to each task the index of the queue that it ends in.
pub Levelled-boost :
    (h : Heap) (qs : List (List Arc))
    → Nodup (flat qs)
    → Levelled h 0 qs
    → Levelled (boost_heap h qs) 0 (boost_queues qs)
unfolding boost_heap boost_queues append_each demote_all
Levelled-boost h [] nd lev = lev
Levelled-boost h (q ∷ []) nd lev = lev
Levelled-boost h (q ∷ p ∷ ps) nd lev =
    let parts = Nodup-append.0 nd in
    let h' = demote_all h 0 (p ∷ ps) in
    let (here, above) = demote_all-Levelled h 0 (p ∷ ps) parts.1 in
    subst (Levelled h' 0) (sym (boost_queues_shift q p ps)) (
      All-append (λ a. (h' a).priority ≡ 0) q p
          (All-untouched h h' 0 q (flat (p ∷ ps)) (demote_all_other h 0 (p ∷ ps)) parts.2 lev.0)
          here,
      Levelled-snoc_empty h' 1 ps above,
    )

-- A boost writes to queued tasks alone.
pub boost_heap_other :
    (h : Heap) (qs : List (List Arc)) (b : Arc) → ¬ Mem b (flat qs) → boost_heap h qs b ≡ h b
unfolding boost_heap
boost_heap_other h [] b out = refl
boost_heap_other h (q ∷ qs) b out = demote_all_other h 0 qs b (λ m. out (mem-append_right q m))
