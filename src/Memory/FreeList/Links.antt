-- ===== src/Memory/FreeList/Links.antt =====
-- kernel/src/memory/free_list.rs: the list that the links in memory spell out.
use mathlib.Core.List.{Mem, mem-cons}
use mathlib.Core.Logic.Or
use alaphi_os.Base.{
  ℕ, ◌%◌, ◌^◌, ◌<◌, ◌≡◌, ◌≢◌, refl, sym, Option, none, some, List, [], ◌∷◌, ◌==◌, ltb, true, false,
  arith, ne→==,
}
use alaphi_os.Memory.FreeList.{
  Words, put_word, containing_address, virt, phys_addr, next_head, link_of,
}

-- A frame that the list can hold: aligned, of 52 bits, and not the one at address 0.
pub record IsFrame (a : ℕ) : Type 0 where
  pub positive : 0 < a
  pub bits : a < 2 ^ 52
  pub aligned : a % 4096 ≡ 0

-- The links from a head on pass through these frames, in this order.
unfoldable pub Linked : Words → ℕ → Option ℕ → List ℕ → Type 0
Linked m offset head [] = head ≡ none
Linked m offset head (f ∷ fs) =
    (head ≡ some f)
    × IsFrame f
    × (next : Option ℕ) × (m (virt offset f) ≡ link_of next)
    × Linked m offset next fs

virt-ne : (offset a b : ℕ) → a ≢ b → a < 2 ^ 52 → b < 2 ^ 52 → virt offset a ≢ virt offset b
unfolding virt
virt-ne offset a b ne ha hb e = ne (omega arith)

-- A write into another frame.
pub Linked-put_word :
    (m : Words) (offset : ℕ) (head : Option ℕ) (fs : List ℕ) (g v : ℕ)
    → g < 2 ^ 52
    → ¬ Mem g fs
    → Linked m offset head fs
    → Linked (put_word m (virt offset g) v) offset head fs
unfolding Linked put_word
Linked-put_word m offset head [] g v small apart l = l
Linked-put_word m offset head (f ∷ fs) g v small apart (at, frame, next, link, rest) =
    let ne : f ≢ g = λ e. apart (mem-cons.1 (Or.inl (sym e))) in
    let other = virt-ne offset f g ne frame.bits small in
    (
      at,
      frame,
      next,
      rw (ne→== (virt offset f) (virt offset g) other) link,
      Linked-put_word m offset next fs g v small (λ h. apart (mem-cons.1 (Or.inr h))) rest,
    )

pub next_head_zero : next_head 0 ≡ some none
unfolding next_head
next_head_zero = refl

next_head_frame : (f : ℕ) → IsFrame f → next_head f ≡ some (some f)
unfolding next_head phys_addr
next_head_frame f frame =
    let positive : (f == 0) ≡ false = ground (arith, frame.positive) in
    let small : ltb f (2 ^ 52) ≡ true = ground (arith, frame.bits) in rw (positive, small) refl

pub next_head-link_of :
    (m : Words) (offset : ℕ) (next : Option ℕ) (fs : List ℕ)
    → Linked m offset next fs
    → next_head (link_of next) ≡ some next
unfolding link_of Linked
next_head-link_of m offset next [] l = rw l next_head_zero
next_head-link_of m offset next (f ∷ fs) (at, frame, after, link, rest) =
    rw at (next_head_frame f frame)

pub containing_address_self : (a : ℕ) → IsFrame a → containing_address a ≡ a
unfolding containing_address
containing_address_self a frame = let zero_low = frame.aligned in omega arith
