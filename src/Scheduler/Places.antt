-- ===== src/Scheduler/Places.antt =====
-- kernel/src/scheduler/mlfq.rs: where a queued task stands, and how its place changes.
use mathlib.Core.Option.{some-injective}
use alaphi_os.Base.{
  ℕ, zero, suc, ◌+◌, ◌-◌, ◌≡◌, ◌⊎◌, refl, sym, subst, inl, inr, Option, none, some, List, [], ◌∷◌,
  ◌++◌, length, get_elem?, get_or, arith,
}
use alaphi_os.Scheduler.{Arc, push_back, boost_queues, append_each, pick_next}
use alaphi_os.Scheduler.Boost.{boost_queues_shift}

-- The task stands in queue `level`, behind `place` others.
abbrev pub Stands : List (List Arc) → ℕ → ℕ → Arc → Type 0
Stands qs level place a = get_elem? (get_or qs level []) place ≡ some a

get_elem-left :
    (xs ys : List Arc) (k : ℕ) (a : Arc) → get_elem? xs k ≡ some a → get_elem? (xs ++ ys) k ≡ some a
get_elem-left [] ys k a e = cc
get_elem-left (x ∷ xs) ys zero a e = e
get_elem-left (x ∷ xs) ys (suc k) a e = get_elem-left xs ys k a e

get_elem-right :
    (xs ys : List Arc) (k : ℕ) (a : Arc)
    → get_elem? ys k ≡ some a
    → get_elem? (xs ++ ys) (length xs + k) ≡ some a
get_elem-right [] ys k a e = let z : 0 + k ≡ k = omega arith in rw z e
get_elem-right (x ∷ xs) ys k a e =
    let z : suc (length xs) + k ≡ suc (length xs + k) = omega arith in
    rw z (get_elem-right xs ys k a e)

pub push_back-Stands :
    (qs : List (List Arc)) (i k j : ℕ) (a b : Arc)
    → Stands qs i k a
    → Stands (push_back qs j b) i k a
unfolding push_back
push_back-Stands [] i k j a b e = cc
push_back-Stands (q ∷ qs) zero k zero a b e = get_elem-left q (b ∷ []) k a e
push_back-Stands (q ∷ qs) zero k (suc j) a b e = e
push_back-Stands (q ∷ qs) (suc i) k zero a b e = e
push_back-Stands (q ∷ qs) (suc i) k (suc j) a b e = push_back-Stands qs i k j a b e

snoc-Stands :
    (qs : List (List Arc)) (i k : ℕ) (a : Arc) → Stands qs i k a → Stands (qs ++ ([] ∷ [])) i k a
snoc-Stands [] i k a e = cc
snoc-Stands (q ∷ qs) zero k a e = e
snoc-Stands (q ∷ qs) (suc i) k a e = snoc-Stands qs i k a e

-- A boost takes the task one queue down, and leaves one in the top queue at its place.
pub boost-Stands :
    (qs : List (List Arc)) (i k : ℕ) (a : Arc)
    → Stands qs i k a
    → (k' : ℕ) × Stands (boost_queues qs) (i - 1) k' a × (i ≡ 0 → k' ≡ k)
unfolding boost_queues append_each
boost-Stands [] i k a e = cc
boost-Stands (q ∷ []) zero k a e = (k, e, λ _. refl)
boost-Stands (q ∷ []) (suc i) k a e = cc
boost-Stands (q ∷ p ∷ ps) zero k a e = (
  k,
  subst (λ l. Stands l 0 k a) (sym (boost_queues_shift q p ps)) (get_elem-left q p k a e),
  λ _. refl,
)
boost-Stands (q ∷ p ∷ ps) (suc zero) k a e = (
  length q + k,
  subst (λ l. Stands l 0 (length q + k) a) (sym (boost_queues_shift q p ps))
      (get_elem-right q p k a e),
  λ z. absurd (omega arith),
)
boost-Stands (q ∷ p ∷ ps) (suc (suc i)) k a e =
    let down : suc (suc i) - 1 ≡ suc i = omega arith in
    (
      k,
      subst (λ j. Stands (boost_queues (q ∷ p ∷ ps)) j k a) (sym down)
          (subst (λ l. Stands l (suc i) k a) (sym (boost_queues_shift q p ps))
            (snoc-Stands ps i k a e)),
      λ z. absurd (omega arith),
    )

-- What `pick_next` has done to a task that stands in queue `level`: it was picked, or it keeps its
-- queue, and in the top queue it is one place nearer.
unfoldable pub Picks : ℕ → ℕ → Arc → Option (Arc × List (List Arc)) → Type 0
Picks i k a none = ⊥
Picks i k a (some (b, rest)) = (b ≡ a) ⊎ ((k' : ℕ) × Stands rest i k' a × (i ≡ 0 → k' + 1 ≡ k))

pub pick_next-Picks :
    (qs : List (List Arc)) (i k : ℕ) (a : Arc) → Stands qs i k a → Picks i k a (pick_next qs)
unfolding pick_next Picks
pick_next-Picks [] i k a e = cc
pick_next-Picks ((b ∷ q) ∷ qs) zero zero a e = inl (some-injective _ _ e)
pick_next-Picks ((b ∷ q) ∷ qs) zero (suc k) a e = inr (k, e, λ _. omega arith)
pick_next-Picks ((b ∷ q) ∷ qs) (suc i) k a e = inr (k, e, λ z. absurd (omega arith))
pick_next-Picks ([] ∷ qs) zero k a e = cc
pick_next-Picks ([] ∷ qs) (suc i) k a e = lifted (pick_next qs) (pick_next-Picks qs i k a e)
  where
    lifted :
        (o : Option (Arc × List (List Arc)))
        → Picks i k a o
        → Picks (suc i) k a (elim o [ none ↦ none | some (b, rest) ↦ some (b, [] ∷ rest) ])
    lifted none p = p
    lifted (some (b, rest)) (inl e) = inl e
    lifted (some (b, rest)) (inr (k', e, _)) = inr (k', e, λ z. absurd (omega arith))
