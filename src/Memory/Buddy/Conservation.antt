-- ===== src/Memory/Buddy/Conservation.antt =====
-- kernel/src/memory/buddy_allocator.rs: no byte of the heap is lost.
use Prim.Native.Nat.{bit_xor}
use native.Mathlib.Nat.{pow-suc}
use alaphi_os.Base.{
  ℕ, zero, suc, ◌+◌, ◌≤◌, ◌<◌, ◌≡◌, ◌∙◌, refl, subst, min, Option, none, some, List, [], ◌∷◌,
  length, get_or, set, ◌==◌, arith, inl, inr, Bool-cases, length-set,
}
use alaphi_os.Memory.Buddy.{
  FreeLists, block_size, add_to_free_list, split, keep, unlink, joined, merge,
}

-- The bytes of the blocks of a list, and of all the lists from order `b` on.
abbrev pub weight : List ℕ → ℕ → ℕ
weight [] ord = 0
weight (p ∷ ps) ord = block_size ord + weight ps ord

abbrev pub total_from : ℕ → FreeLists → ℕ
total_from b [] = 0
total_from b (l ∷ ls) = weight l b + total_from (suc b) ls

abbrev pub total : FreeLists → ℕ
total lists = total_from 0 lists

block_size-suc : (k : ℕ) → block_size (suc k) ≡ block_size k + block_size k
unfolding block_size
block_size-suc k = omega (arith, pow-suc 2 k)

total_from-set :
    (b : ℕ) (ls : FreeLists) (i : ℕ) (l : List ℕ)
    → i < length ls
    → total_from b (set ls i l) + weight (get_or ls i []) (b + i)
      ≡ total_from b ls + weight l (b + i)
total_from-set b [] i l h = absurd (omega arith)
total_from-set b (m ∷ ls) zero l h = let e : b + 0 ≡ b = omega arith in rw e (omega arith)
total_from-set b (m ∷ ls) (suc i) l h =
    let e : b + suc i ≡ suc b + i = omega arith in
    rw e (omega (arith, total_from-set (suc b) ls i l (omega arith)))

pub total-set :
    (ls : FreeLists) (i : ℕ) (l : List ℕ)
    → i < length ls
    → total (set ls i l) + weight (get_or ls i []) i ≡ total ls + weight l i
total-set ls i l h =
    let e : 0 + i ≡ i = omega arith in
    subst (λ k. total (set ls i l) + weight (get_or ls i []) k ≡ total ls + weight l k) e
      (total_from-set 0 ls i l h)

total-add_to_free_list :
    (ls : FreeLists) (ord ptr : ℕ)
    → ord < length ls
    → total (add_to_free_list ls ord ptr) ≡ total ls + block_size ord
unfolding add_to_free_list
total-add_to_free_list ls ord ptr h = omega (arith, total-set ls ord (ptr ∷ get_or ls ord []) h)

length-add_to_free_list :
    (ls : FreeLists) (ord ptr : ℕ) → length (add_to_free_list ls ord ptr) ≡ length ls
unfolding add_to_free_list
length-add_to_free_list ls ord ptr = length-set ls ord (ptr ∷ get_or ls ord [])

-- A block of order `ord + n` is one of order `ord` and the halves split off.
pub total-split :
    (n ord block : ℕ) (ls : FreeLists)
    → ord + n ≤ length ls
    → total (split n ord block ls) + block_size ord ≡ total ls + block_size (ord + n)
unfolding split
total-split zero ord block ls h = let e : ord + 0 ≡ ord = omega arith in rw e refl
total-split (suc n) ord block ls h =
    let next = add_to_free_list ls (ord + n) (block + block_size (ord + n)) in
    let e : ord + suc n ≡ suc (ord + n) = omega arith in
    rw e (
      omega (
        arith,
        block_size-suc (ord + n),
        total-add_to_free_list ls (ord + n) (block + block_size (ord + n)) (omega arith),
        total-split n ord block next
            (omega (arith, length-add_to_free_list ls (ord + n) (block + block_size (ord + n)))),
      ))

pub length-split : (n ord block : ℕ) (ls : FreeLists) → length (split n ord block ls) ≡ length ls
unfolding split
length-split zero ord block ls = refl
length-split (suc n) ord block ls =
    length-split n ord block (add_to_free_list ls (ord + n) (block + block_size (ord + n)))
    ∙ length-add_to_free_list ls (ord + n) (block + block_size (ord + n))

-- What is left of a list when a block is taken out.
Lighter : List ℕ → ℕ → Option (List ℕ) → Type 0
Lighter l ord none = Unit {0}
Lighter l ord (some rest) = weight l ord ≡ block_size ord + weight rest ord

keep-Lighter :
    (p ord : ℕ) (l : List ℕ) (o : Option (List ℕ))
    → Lighter l ord o
    → Lighter (p ∷ l) ord (keep p o)
unfolding Lighter keep
keep-Lighter p ord l none h = tt
keep-Lighter p ord l (some rest) h = omega arith

unlink-Lighter : (ptr ord : ℕ) (l : List ℕ) → Lighter l ord (unlink ptr l)
unfolding unlink Lighter
unlink-Lighter ptr ord [] = tt
unlink-Lighter ptr ord (p ∷ ps) = elim (Bool-cases (p == ptr)) [
  | inl e ↦ rw e refl
  | inr e ↦ rw e (keep-Lighter p ord ps (unlink ptr ps) (unlink-Lighter ptr ord ps))
]

pub total-merge :
    (n ord ptr : ℕ) (ls : FreeLists)
    → ord + n < length ls
    → total (merge n ord ptr ls) ≡ total ls + block_size ord
unfolding merge joined Lighter
total-merge zero ord ptr ls h = total-add_to_free_list ls ord ptr (omega arith)
total-merge (suc n) ord ptr ls h =
    either (unlink buddy (get_or ls ord [])) (unlink-Lighter buddy ord (get_or ls ord [])) (λ rest.
      total-merge n (suc ord) (min ptr buddy) (set ls ord rest)
        (omega (arith, length-set ls ord rest)))
  where
    buddy : ℕ
    buddy = bit_xor ptr (block_size ord)

    either :
        (o : Option (List ℕ))
        → Lighter (get_or ls ord []) ord o
        → ((rest : List ℕ)
            → total (merge n (suc ord) (min ptr buddy) (set ls ord rest))
              ≡ total (set ls ord rest) + block_size (suc ord))
        → total (
            joined
              (add_to_free_list ls ord ptr)
              (λ rest. merge n (suc ord) (min ptr buddy) (set ls ord rest))
              o)
          ≡ total ls + block_size ord
    either none lighter deeper = total-add_to_free_list ls ord ptr (omega arith)
    either (some rest) lighter deeper =
        omega (arith, block_size-suc ord, total-set ls ord rest (omega arith), deeper rest)
