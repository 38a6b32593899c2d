-- ===== src/Scheduler/Queues.antt =====
-- kernel/src/scheduler/mlfq.rs: the eight queues as one run order, the higher queue first.
use mathlib.Core.List.{Perm, perm_middle}
use mathlib.Core.List.Perm
use alaphi_os.Base.{
  ℕ, zero, suc, ◌<◌, ◌≡◌, ◌⊎◌, inl, inr, refl, none, some, List, [], ◌∷◌, ◌++◌, get_or, length,
  flat, append_assoc, arith, length-set,
}
use alaphi_os.Scheduler.{Arc, MlfqScheduler, pick_next, push_back}

-- The run order of the queues.
abbrev pub in_order : MlfqScheduler → List Arc
in_order s = flat s.queues

-- `pick_next` takes the first task of the run order and keeps the rest in order.
pub pick_next-flat :
    (qs : List (List Arc))
    → ((pick_next qs ≡ none) × (flat qs ≡ []))
      ⊎ ((a : Arc) × (rest : List (List Arc)) × (pick_next qs ≡ some (a, rest))
          × (flat qs ≡ a ∷ flat rest))
unfolding pick_next
pick_next-flat [] = inl (refl, refl)
pick_next-flat ((a ∷ q) ∷ qs) = inr (a, q ∷ qs, refl, refl)
pick_next-flat ([] ∷ qs) = elim (pick_next-flat qs) [
  | inl (e, f) ↦ inl (rw (e, pick_next), f)
  | inr (a, rest, e, f) ↦ inr (a, [] ∷ rest, rw (e, pick_next), f)
]

pub length-pick_next :
    (qs rest : List (List Arc)) (a : Arc) → pick_next qs ≡ some (a, rest) → length rest ≡ length qs
unfolding pick_next
length-pick_next [] rest a h = ground arith
length-pick_next ((b ∷ q) ∷ qs) rest a h = ground arith
length-pick_next ([] ∷ qs) rest a h = elim (pick_next-flat qs) [
  | inl (e, _) ↦ ground arith
  | inr (b, r, e, _) ↦ ground (arith, length-pick_next qs r b e)
]

pub flat-push_back :
    (qs : List (List Arc)) (i : ℕ) (a : Arc)
    → i < length qs
    → Perm (flat (push_back qs i a)) (a ∷ flat qs)
unfolding push_back
flat-push_back [] i a h = absurd (omega arith)
flat-push_back (q ∷ qs) zero a h = rw (append_assoc q (a ∷ []) (flat qs)) (perm_middle q (flat qs))
flat-push_back (q ∷ qs) (suc i) a h =
    Perm.trans (Perm.append_left q (flat-push_back qs i a (omega arith))) (perm_middle q (flat qs))

pub length-push_back :
    (qs : List (List Arc)) (i : ℕ) (a : Arc) → length (push_back qs i a) ≡ length qs
unfolding push_back
length-push_back qs i a = length-set qs i (get_or qs i [] ++ (a ∷ []))
