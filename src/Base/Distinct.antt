-- ===== src/Base/Distinct.antt =====
-- `Nodup` and `Mem` of lists of numbers at concrete data, by comparisons that `omega` proves.
use mathlib.Core.List.{Mem, Nodup, Nodup-cons, Nodup-nil, not-mem-nil, mem-cons}
use mathlib.Core.Logic.Or
use mathlib.Core.HLevel.{⊥_prop}
use alaphi_os.Base.{ℕ, ◌≢◌, List, [], ◌∷◌}

abbrev pub DiffersFrom : ℕ → List ℕ → Type 0
DiffersFrom n [] = Unit {0}
DiffersFrom n (x ∷ xs) = (n ≢ x) × DiffersFrom n xs

abbrev pub AllDiffer : List ℕ → Type 0
AllDiffer [] = Unit {0}
AllDiffer (x ∷ xs) = DiffersFrom x xs × AllDiffer xs

pub not-mem : (n : ℕ) (xs : List ℕ) → DiffersFrom n xs → ¬ Mem n xs
not-mem n [] d m = not-mem-nil m
not-mem n (x ∷ xs) d m = Or.elim ⊥_prop (mem-cons.0 m) (λ e. d.0 e) (λ r. not-mem n xs d.1 r)

pub Nodup-of_differ : (xs : List ℕ) → AllDiffer xs → Nodup xs
Nodup-of_differ [] d = Nodup-nil
Nodup-of_differ (x ∷ xs) d = Nodup-cons.1 (not-mem x xs d.0, Nodup-of_differ xs d.1)
