-- ===== src/Lifecycle/Lookup.antt =====
-- kernel/src/process/table.rs and kernel/src/scheduler/mod.rs: the search of the table by process id.
use mathlib.Core.List.{Mem, mem-cons, not-mem-nil}
use mathlib.Core.Logic.Or
use alaphi_os.Base.{
  ℕ, ◌≡◌, refl, subst, true, false, none, some, List, [], ◌∷◌, arith, ◌==◌, ==_iff, inl, inr,
  Bool-cases,
}
use alaphi_os.Base.Map.{Map, get, keys, nat_key}
use alaphi_os.Lifecycle.{System, has_pid, find_pid}

pub mem-keys : {V : Type 0} (k : ℕ) (v : V) (m : Map ℕ V) → get k m ≡ some v → Mem k (keys m)
mem-keys k v [] h = ground arith
mem-keys k v ((j, w) ∷ m) h = elim (Bool-cases (k == j)) [
  | inl e ↦ mem-cons.1 (Or.inl ((==_iff k j).0 e))
  | inr e ↦
      let rest : get k m ≡ some v = ground (arith, e, h) in
      mem-cons.1 (Or.inr (mem-keys k v m rest))
]

-- The search finds the one thread id of a process.
pub find_pid_unique :
    (s : System) (pid tid : ℕ) (ts : List ℕ)
    → has_pid s pid tid ≡ true
    → ((t : ℕ) → has_pid s pid t ≡ true → t ≡ tid)
    → Mem tid ts
    → find_pid s pid ts ≡ some tid
unfolding find_pid
find_pid_unique s pid tid [] here only m = absurd (not-mem-nil m)
find_pid_unique s pid tid (t ∷ ts) here only m = elim (Bool-cases (has_pid s pid t)) [
  | inl e ↦ rw (e, only t e) refl
  | inr e ↦ rw e (
      Or.elim (hlevel) (mem-cons.0 m) (λ same. absurd (apart t tid e here same))
        (λ rest. find_pid_unique s pid tid ts here only rest))
]
  where
    apart : (t u : ℕ) → has_pid s pid t ≡ false → has_pid s pid u ≡ true → u ≡ t → ⊥
    apart t u e f same = let g = subst (λ v. has_pid s pid v ≡ true) same f in cc

pub find_pid_absent :
    (s : System) (pid : ℕ) (ts : List ℕ)
    → ((t : ℕ) → has_pid s pid t ≡ false)
    → find_pid s pid ts ≡ none
unfolding find_pid
find_pid_absent s pid [] out = refl
find_pid_absent s pid (t ∷ ts) out = rw (out t) (find_pid_absent s pid ts out)
