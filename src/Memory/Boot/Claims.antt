-- ===== src/Memory/Boot/Claims.antt =====
-- kernel/src/memory/frame_allocator.rs: several frames in a row.
use alaphi_os.Base.{
  ℕ, zero, suc, ◌+◌, ◌%◌, ◌^◌, ◌≤◌, ◌<◌, ◌≡◌, ◌∙◌, refl, ap, Option, none, some, List, [], ◌∷◌,
  length, take, arith,
}
use alaphi_os.Memory.Boot.{BootFrameAllocator, allocate}
use alaphi_os.Memory.Boot.Order.{Ready, Allocated, allocate-Allocated}

-- `k` calls of `allocate` that all give a frame, with the frames.
unfoldable pub claimed :
    (BootFrameAllocator → Option (List ℕ × BootFrameAllocator))
    → Option (Option ℕ × BootFrameAllocator)
    → Option (List ℕ × BootFrameAllocator)
claimed next none = none
claimed next (some (none, s)) = none
claimed next (some (some f, s)) = elim (next s) [ none ↦ none | some (fs, s') ↦ some (f ∷ fs, s') ]

unfoldable pub claims : ℕ → BootFrameAllocator → Option (List ℕ × BootFrameAllocator)
claims zero s = some ([], s)
claims (suc k) s = claimed (claims k) (allocate s)

unfoldable pub Claimed :
    BootFrameAllocator → ℕ → List ℕ → Option (List ℕ × BootFrameAllocator) → Type 0
Claimed s k fs none = ⊥
Claimed s k fs (some (gs, s')) =
    (gs ≡ take k fs) × (s'.regions ≡ s.regions) × (s'.frames_consumed ≡ s.frames_consumed + k)

pub claims-Claimed :
    (k : ℕ) (s : BootFrameAllocator) (fs : List ℕ)
    → Ready s fs
    → k ≤ length fs
    → s.frames_consumed + k < 2 ^ 64
    → Claimed s k fs (claims k s)
unfolding claims claimed Claimed Allocated
claims-Claimed zero s fs r le room = (refl, refl, omega arith)
claims-Claimed (suc k) s [] r le room = absurd (omega arith)
claims-Claimed (suc k) s (f ∷ fs) r le room =
    go (λ t ready room'. claims-Claimed k t fs ready (omega arith) room') (allocate s)
      (allocate-Allocated s f fs r)
  where
    keep :
        (g : ℕ) (t : BootFrameAllocator) (o : Option (List ℕ × BootFrameAllocator))
        → g ≡ f
        → t.regions ≡ s.regions
        → t.frames_consumed ≡ (s.frames_consumed + 1) % 2 ^ 64
        → Claimed t k fs o
        → Claimed s (suc k) (f ∷ fs) (elim o [ none ↦ none | some (gs, s') ↦ some (g ∷ gs, s') ])
    keep g t none e same count c = c
    keep g t (some (gs, s')) e same count (took, kept, added) =
        (ap (λ h. h ∷ gs) e ∙ ap (λ l. f ∷ l) took, kept ∙ same, omega arith)

    go :
        ((t : BootFrameAllocator)
          → Ready t fs
          → t.frames_consumed + k < 2 ^ 64
          → Claimed t k fs (claims k t))
        → (o : Option (Option ℕ × BootFrameAllocator)) → Allocated s f fs o
        → Claimed s (suc k) (f ∷ fs) (claimed (claims k) o)
    go ih none a = a
    go ih (some (none, t)) a = a
    go ih (some (some g, t)) (e, ready, same, count) =
        keep g t (claims k t) e same count (ih t ready (omega arith))
