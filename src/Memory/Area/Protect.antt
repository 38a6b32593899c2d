-- ===== src/Memory/Area/Protect.antt =====
-- kernel/src/memory/vmm.rs: the flags of every address after `mprotect`.
use alaphi_os.Base.{
  ℕ, ◌≤◌, ◌<◌, ◌≡◌, true, false, Option, none, some, List, [], ◌∷◌, ◌++◌, ◌&&◌, ◌⊎◌, ltb, leb,
  if◌then◌else◌, All, All-mono, arith, Bool-cases, Option-cases, inl, inr, subst,
}
use alaphi_os.Memory.Area.{VmArea, covers, replacements, mprotect}

-- The flags with which a fault at the address maps its page.
unfoldable pub flags_at : List VmArea → ℕ → Option ℕ
flags_at [] x = none
flags_at (a ∷ areas) x = if covers a x then some a.flags else flags_at areas x

unfoldable pub Disjoint : List VmArea → Type 0
Disjoint [] = Unit {0}
Disjoint (a ∷ areas) =
    All (λ b. (x : ℕ) → covers b x ≡ true → covers a x ≡ false) areas × Disjoint areas

flags_at-replacements :
    (a : VmArea) (areas : List VmArea) (addr end new_flags x : ℕ)
    → covers a addr ≡ true
    → addr ≤ end
    → end ≤ a.end
    → flags_at (replacements a addr end new_flags ++ areas) x
      ≡ (if leb addr x && ltb x end then some new_flags else flags_at (a ∷ areas) x)
unfolding flags_at replacements covers
flags_at-replacements a areas addr end new_flags x here up fits = ground arith

-- The ways in which `mprotect` succeeds.
mprotect_cases :
    (a : VmArea) (areas bs : List VmArea) (addr end new_flags : ℕ)
    → mprotect (a ∷ areas) addr end new_flags ≡ some bs
    → ((covers a addr ≡ true) × (end ≤ a.end) × (replacements a addr end new_flags ++ areas ≡ bs))
      ⊎ ((covers a addr ≡ false)
          × (cs : List VmArea) × (mprotect areas addr end new_flags ≡ some cs)
          × (a ∷ cs ≡ bs))
unfolding mprotect
mprotect_cases a areas bs addr end new_flags e = elim (Bool-cases (covers a addr)) [
  | inl here ↦ inl (here, ground arith, ground arith)
  | inr apart ↦ elim (Option-cases (mprotect areas addr end new_flags)) [
    | inl nothing ↦ absurd (ground arith)
    | inr (cs, found) ↦ inr (apart, cs, found, ground arith)
  ]
]

inside :
    (a : VmArea) (addr end x : ℕ)
    → covers a addr ≡ true
    → end ≤ a.end
    → addr ≤ x
    → x < end
    → covers a x ≡ true
unfolding covers
inside a addr end x here fits low high = ground arith

-- An area that has nothing of the range.
flags_at_kept :
    (a : VmArea) (areas cs : List VmArea) (addr end new_flags x : ℕ)
    → flags_at cs x ≡ (if leb addr x && ltb x end then some new_flags else flags_at areas x)
    → (addr ≤ x → x < end → covers a x ≡ false)
    → flags_at (a ∷ cs) x
      ≡ (if leb addr x && ltb x end then some new_flags else flags_at (a ∷ areas) x)
unfolding flags_at
flags_at_kept a areas cs addr end new_flags x rest apart = ground arith

-- What `mprotect` covers lies in one of the areas.
mprotect_covered :
    (P : Type 0) (areas bs : List VmArea) (addr end new_flags x : ℕ)
    → All (λ b. covers b x ≡ true → P) areas
    → mprotect areas addr end new_flags ≡ some bs
    → addr ≤ x
    → x < end
    → P
unfolding mprotect
mprotect_covered P [] bs addr end new_flags x all e low high = absurd (ground arith)
mprotect_covered P (a ∷ areas) bs addr end new_flags x all e low high =
    elim (mprotect_cases a areas bs addr end new_flags e) [
      | inl (here, fits, made) ↦ all.0 (inside a addr end x here fits low high)
      | inr (apart, cs, found, made) ↦
          mprotect_covered P areas cs addr end new_flags x all.1 found low high
    ]

-- In an address space whose areas do not overlap, a successful `mprotect` gives exactly the addresses
-- of its range the new flags; every other address keeps its flags, and none is added or dropped.
pub mprotect_exact :
    (areas bs : List VmArea) (addr end new_flags x : ℕ)
    → Disjoint areas
    → addr ≤ end
    → mprotect areas addr end new_flags ≡ some bs
    → flags_at bs x ≡ (if leb addr x && ltb x end then some new_flags else flags_at areas x)
unfolding mprotect Disjoint
mprotect_exact [] bs addr end new_flags x apart up e = absurd (ground arith)
mprotect_exact (a ∷ areas) bs addr end new_flags x apart up e =
    elim (mprotect_cases a areas bs addr end new_flags e) [
      | inl (here, fits, made) ↦
          subst
            (λ t.
              flags_at t x
              ≡ (if leb addr x && ltb x end then some new_flags else flags_at (a ∷ areas) x))
            made (flags_at-replacements a areas addr end new_flags x here up fits)
      | inr (away, cs, found, made) ↦
          subst
            (λ t.
              flags_at t x
              ≡ (if leb addr x && ltb x end then some new_flags else flags_at (a ∷ areas) x))
            made
            (flags_at_kept a areas cs addr end new_flags x
              (mprotect_exact areas cs addr end new_flags x apart.1 up found)
              (mprotect_covered (covers a x ≡ false) areas cs addr end new_flags x
                (All-mono (λ b. (z : ℕ) → covers b z ≡ true → covers a z ≡ false)
                  (λ b. covers b x ≡ true → covers a x ≡ false) areas (λ b h. h x) apart.0)
                found))
    ]
