-- ===== src/Memory/Swap/Slots.antt =====
-- kernel/src/memory/swap.rs, `alloc_slot`: a round over the slots from the cursor on.
use native.Mathlib.Nat.{mod-eq_of_lt, add-mod_right}
use alaphi_os.Base.{
  ℕ, zero, suc, ◌+◌, ◌-◌, ◌%◌, ◌≤◌, ◌<◌, ◌≡◌, ◌⊎◌, ◌∙◌, refl, ap, sym, true, false, Bool, none,
  some, List, [], ◌∷◌, length, get_or, set, arith, Bool-cases, inl, inr, ltb, ◌==◌,
}
use alaphi_os.Memory.Swap.{SwapPartition, search, take_slot, alloc_slot}

-- The search gives a slot that is free, or passes over none that is.
search_cases :
    (free : List Bool) (cursor n i : ℕ)
    → ((idx : ℕ) × (search free cursor n i ≡ some idx) × (get_or free idx false ≡ true))
      ⊎ ((search free cursor n i ≡ none)
          × ((k : ℕ) → i ≤ k → k < i + n → get_or free ((cursor + k) % length free) false ≡ false))
unfolding search
search_cases free cursor zero i = inr (refl, λ k p q. absurd (omega arith))
search_cases free cursor (suc n) i =
    elim (Bool-cases (get_or free ((cursor + i) % length free) false)) [
      | inl e ↦ inl ((cursor + i) % length free, rw e refl, e)
      | inr e ↦ elim (search_cases free cursor n (i + 1)) [
        | inl (idx, f, g) ↦ inl (idx, rw e f, g)
        | inr (f, g) ↦ inr (
          rw e f,
          λ k p q. elim (Bool-cases (k == i)) [
            | inl same ↦ let s : k ≡ i = ground (arith, same) in rw s e
            | inr apart ↦ g k (ground (arith, apart, p)) (omega arith)
          ],
        )
      ]
    ]

get_or-in : (free : List Bool) (idx : ℕ) → get_or free idx false ≡ true → idx < length free
get_or-in [] idx h = ground arith
get_or-in (b ∷ free) zero h = omega arith
get_or-in (b ∷ free) (suc idx) h = omega (arith, get_or-in free idx h)

-- A round from the cursor on meets every slot.
round_meets : (cursor j n : ℕ) → cursor < n → j < n → (k : ℕ) × (k < n) × ((cursor + k) % n ≡ j)
round_meets cursor j n h p = elim (Bool-cases (ltb j cursor)) [
  | inl e ↦ (
    j + n - cursor,
    ground (arith, e),
    ap (λ t. t % n) (ground (arith, e)) ∙ add-mod_right j n ∙ mod-eq_of_lt p,
  )
  | inr e ↦ (j - cursor, omega arith, ap (λ t. t % n) (ground (arith, e)) ∙ mod-eq_of_lt p)
]

-- With its cursor in range, `alloc_slot` gives a slot that was free and marks it taken, or, when it
-- gives none, every slot is taken and nothing has changed.
pub alloc_slot_cases :
    (s : SwapPartition)
    → s.cursor < length s.free
    → ((idx : ℕ) × (idx < length s.free)
        × (get_or s.free idx false ≡ true)
        × (alloc_slot s ≡ (
          some idx,
          record s { free = set s.free idx false; cursor = (idx + 1) % length s.free },
        )))
      ⊎ ((alloc_slot s ≡ (none, s)) × ((j : ℕ) → j < length s.free → get_or s.free j false ≡ false))
unfolding alloc_slot take_slot
alloc_slot_cases s h = elim (search_cases s.free s.cursor (length s.free) 0) [
  | inl (idx, e, f) ↦ inl (idx, get_or-in s.free idx f, f, ap (take_slot s) e)
  | inr (e, f) ↦ inr (
    ap (take_slot s) e,
    λ j p.
        let (k, q, m) = round_meets s.cursor j (length s.free) h p in
        sym (ap (λ t. get_or s.free t false) m) ∙ f k (omega arith) (omega arith),
  )
]
