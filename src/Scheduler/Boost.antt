-- ===== src/Scheduler/Boost.antt =====
-- kernel/src/scheduler/mlfq.rs, `boost_priorities`: every queue goes one place down.
use alaphi_os.Base.{
  suc, ◌≡◌, refl, ap, ◌∙◌, List, [], ◌∷◌, ◌++◌, map, length, flat, append_assoc, append-nil, arith,
  flat-append, length-append,
}
use alaphi_os.Scheduler.{Arc, append_each, boost_queues}

append_each-empty :
    (p : List Arc) (ps : List (List Arc))
    → append_each (map (λ _. []) (p ∷ ps)) ps ≡ ps ++ ([] ∷ [])
unfolding append_each
append_each-empty p [] = refl
append_each-empty p (r ∷ ps) = ap (λ t. r ∷ t) (append_each-empty r ps)

-- The second queue is appended to the first, and the last is left empty.
pub boost_queues_shift :
    (q p : List Arc) (ps : List (List Arc))
    → boost_queues (q ∷ p ∷ ps) ≡ (q ++ p) ∷ (ps ++ ([] ∷ []))
unfolding boost_queues append_each
boost_queues_shift q p ps = ap (λ t. (q ++ p) ∷ t) (append_each-empty p ps)

-- A boost moves no task past another: the run order stays as it is.
pub flat-boost_queues : (qs : List (List Arc)) → flat (boost_queues qs) ≡ flat qs
unfolding boost_queues append_each
flat-boost_queues [] = refl
flat-boost_queues (q ∷ []) = refl
flat-boost_queues (q ∷ p ∷ ps) =
    ap flat (boost_queues_shift q p ps)
    ∙ ap (λ t. (q ++ p) ++ t) (flat-append ps ([] ∷ []) ∙ append-nil (flat ps))
    ∙ append_assoc q p (flat ps)

pub length-boost_queues : (qs : List (List Arc)) → length (boost_queues qs) ≡ length qs
unfolding boost_queues append_each
length-boost_queues [] = refl
length-boost_queues (q ∷ []) = refl
length-boost_queues (q ∷ p ∷ ps) =
    ap length (boost_queues_shift q p ps) ∙ ap suc (length-append ps ([] ∷ []) ∙ omega arith)
