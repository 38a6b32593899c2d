-- ===== src/Syscall/Buffers.antt =====
-- kernel/src/syscall/dispatch.rs: what the calls write to user memory.
use alaphi_os.Base.{
  ℕ, zero, suc, ◌+◌, ◌-◌, ◌*◌, ◌≤◌, ◌<◌, ◌≡◌, ◌⊎◌, ◌∙◌, refl, ap, min, Bool, List, [], ◌∷◌, ◌++◌,
  length, take, replicate, arith, length-append, length-take, length-replicate, inl, inr, ==_refl,
  ne→==,
}
use alaphi_os.Base.Bytes.{Bytes}
use alaphi_os.Syscall.{copy_to, from_raw_parts}
use alaphi_os.Syscall.Paths.{dirent, dirents, byte_of}

-- Outside the bytes from `ptr` on.
abbrev pub Outside : ℕ → ℕ → ℕ → Type 0
Outside ptr len a = (a < ptr) ⊎ (ptr + len ≤ a)

pub copy_to-Outside :
    (memory : ℕ → ℕ) (ptr len : ℕ) (bytes : Bytes) (a : ℕ)
    → length bytes ≤ len
    → Outside ptr len a
    → copy_to memory ptr bytes a ≡ memory a
unfolding copy_to
copy_to-Outside memory ptr len [] a h out = refl
copy_to-Outside memory ptr zero (b ∷ bytes) a h out = absurd (omega arith)
copy_to-Outside memory ptr (suc len) (b ∷ bytes) a h out =
    rw (ne→== a ptr (λ e. omega (arith, out, e))) (
      copy_to-Outside memory (ptr + 1) len bytes a (omega arith)
        (elim out [ inl p ↦ inl (omega arith) | inr p ↦ inr (omega arith) ]))

from_raw_parts_same :
    (m m' : ℕ → ℕ) (ptr n : ℕ)
    → ((a : ℕ) → ptr ≤ a → m a ≡ m' a)
    → from_raw_parts m ptr n ≡ from_raw_parts m' ptr n
unfolding from_raw_parts
from_raw_parts_same m m' ptr zero h = refl
from_raw_parts_same m m' ptr (suc n) h =
    rw (h ptr (omega arith), from_raw_parts_same m m' (ptr + 1) n (λ a p. h a (omega arith))) refl

-- What was written is read back.
pub from_raw_parts-copy_to :
    (memory : ℕ → ℕ) (ptr : ℕ) (bytes : Bytes)
    → from_raw_parts (copy_to memory ptr bytes) ptr (length bytes) ≡ bytes
unfolding from_raw_parts copy_to
from_raw_parts-copy_to memory ptr [] = refl
from_raw_parts-copy_to memory ptr (b ∷ bytes) = rw (==_refl ptr) (
    ap (λ t. b ∷ t)
      (from_raw_parts_same _ (copy_to memory (ptr + 1) bytes) (ptr + 1) (length bytes)
          (λ a p. rw (ne→== a ptr (λ e. omega (arith, e))) refl)
        ∙ from_raw_parts-copy_to memory (ptr + 1) bytes))

pub length-from_raw_parts : (memory : ℕ → ℕ) (ptr n : ℕ) → length (from_raw_parts memory ptr n) ≡ n
unfolding from_raw_parts
length-from_raw_parts memory ptr zero = refl
length-from_raw_parts memory ptr (suc n) = ap suc (length-from_raw_parts memory (ptr + 1) n)

length-dirent : (e : Bytes × Bool) → length (dirent e) ≡ 65
unfolding dirent
length-dirent (name, d) =
    let n = min (length name) 64 in
    omega (
      arith,
      length-append (take n name ++ replicate (64 - n) 0) (byte_of d ∷ []),
      length-append (take n name) (replicate (64 - n) 0),
      length-take n name,
      length-replicate {A = ℕ} (64 - n) 0,
    )

pub length-dirents : (es : List (Bytes × Bool)) → length (dirents es) ≡ length es * 65
unfolding dirents
length-dirents [] = refl
length-dirents (e ∷ es) =
    omega (arith, length-append (dirent e) (dirents es), length-dirent e, length-dirents es)
