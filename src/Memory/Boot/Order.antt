-- ===== src/Memory/Boot/Order.antt =====
-- kernel/src/memory/frame_allocator.rs: the frames go out in the order of the memory map.
use mathlib.Core.List.{head-eq_of_cons-eq, tail-eq_of_cons-eq}
use alaphi_os.Base.{
  ℕ, zero, suc, ◌+◌, ◌-◌, ◌/◌, ◌%◌, ◌^◌, ◌≤◌, ◌<◌, ◌≡◌, ◌⊎◌, ◌∙◌, refl, ap, sym, subst, inl, inr,
  true, false, Option, none, some, List, [], ◌∷◌, ◌++◌, All, length, drop, leb, ltb, ◌==◌,
  if◌then◌else◌, Bool-cases, arith,
}
use alaphi_os.Memory.FreeList.{phys_addr, containing_address}
use alaphi_os.Memory.Regions.{
  MemoryRegionKind, usable, other, MemoryRegion, frames_from, frames, IsPaged, Fits, FitsAs,
}
use alaphi_os.Memory.Boot.{
  BootFrameAllocator, cursor_or, candidate_in, candidate_of, stop_at, seek, sought,
  seek_to_first_usable_frame, new, handed_out, advanced, allocate_at, allocate,
}

-- The frames that are left to a cursor in the first of the regions.
abbrev pub Offers : List MemoryRegion → Option ℕ → List ℕ → Type 0
Offers rs none fs = fs ≡ []
Offers [] (some c) fs = ⊥
Offers (r ∷ rs) (some c) fs =
    (r.kind ≡ usable)
    × (c % 4096 ≡ 0)
    × (c + 4096 ≤ r.end)
    × (fs ≡ frames_from ((r.end - c) / 4096) c ++ frames rs)

pub record Ready (s : BootFrameAllocator) (fs : List ℕ) : Type 0 where
  pub fit : All Fits s.regions
  pub offers : Offers (drop s.region_idx s.regions) s.cursor fs

abbrev Found : List MemoryRegion → List ℕ → Option (ℕ × Option ℕ) → Type 0
Found regions fs none = ⊥
Found regions fs (some (idx, cursor)) = Offers (drop idx regions) cursor fs

phys_addr_small : (a : ℕ) → a < 2 ^ 52 → phys_addr a ≡ some a
unfolding phys_addr
phys_addr_small a h = let e : ltb a (2 ^ 52) ≡ true = ground (arith, h) in rw e refl

last_frame :
    (end c : ℕ)
    → 0 < end
    → end % 4096 ≡ 0
    → c % 4096 ≡ 0
    → leb c (containing_address (end - 1)) ≡ leb (c + 4096) end
unfolding containing_address
last_frame end c positive aligned al =
    let whole : (end - 1) - (end - 1) % 4096 ≡ end - 4096 = omega arith in
    elim (Bool-cases (leb (c + 4096) end)) [
      | inl e ↦ rw (e, whole) (ground (arith, e))
      | inr e ↦ rw (e, whole) (ground (arith, e))
    ]

containing_aligned : (a : ℕ) → a % 4096 ≡ 0 → containing_address a ≡ a
unfolding containing_address
containing_aligned a h = omega arith

-- With whole frames, a candidate is not beyond the last frame when it ends in the region.
usable_candidate :
    (cursor : Option ℕ) (start end c : ℕ)
    → IsPaged start end
    → cursor_or cursor start ≡ c
    → c % 4096 ≡ 0
    → candidate_of cursor usable start end
      ≡ (if leb (c + 4096) end then some (some c) else some none)
unfolding candidate_of candidate_in
usable_candidate cursor start end c p at al =
    let nonzero : (end == 0) ≡ false = ground (arith, p.positive) in
    let low : start < 2 ^ 52 = omega (arith, p.ordered, p.bits) in
    let high : end - 1 < 2 ^ 52 = omega (arith, p.bits) in
    rw
      (
        nonzero,
        phys_addr_small start low,
        phys_addr_small (end - 1) high,
        containing_aligned start p.start_aligned,
        at,
        last_frame end c p.positive p.end_aligned al,
      )
      refl

drop-suc : (n : ℕ) (xs : List MemoryRegion) → drop (suc n) xs ≡ drop 1 (drop n xs)
drop-suc zero xs = refl
drop-suc (suc n) [] = refl
drop-suc (suc n) (x ∷ xs) = drop-suc n xs

kind_cases : (k : MemoryRegionKind) → (k ≡ usable) ⊎ (k ≡ other)
kind_cases usable = inl refl
kind_cases other = inr refl

-- The loop at a region of whole frames, with the cursor on the frame `c`.
candidate-Found :
    (regions rs : List MemoryRegion) (r : MemoryRegion) (idx c : ℕ) (cursor : Option ℕ)
    (rest : Option (ℕ × Option ℕ))
    → drop idx regions ≡ r ∷ rs
    → r.kind ≡ usable
    → IsPaged r.start r.end
    → cursor_or cursor r.start ≡ c
    → c % 4096 ≡ 0
    → c ≤ r.end
    → Found regions (frames rs) rest
    → Found regions
        (frames_from ((r.end - c) / 4096) c ++ frames rs)
        (stop_at idx rest (candidate_of cursor usable r.start r.end))
unfolding stop_at
candidate-Found regions rs r idx c cursor rest d u p at al le after =
    rw (usable_candidate cursor r.start r.end c p at al) (elim (Bool-cases (leb (c + 4096) r.end)) [
      | inl e ↦ rw e (
          subst (λ l. Offers l (some c) (frames_from ((r.end - c) / 4096) c ++ frames rs)) (sym d)
            (u, al, ground (arith, e), refl))
      | inr e ↦
          let over : (r.end - c) / 4096 ≡ 0 = ground (arith, e, p.end_aligned) in rw (e, over) after
    ])

seek-Found :
    (regions rs : List MemoryRegion) (idx : ℕ)
    → drop idx regions ≡ rs
    → All Fits rs
    → Found regions (frames rs) (seek rs idx none)
unfolding seek stop_at candidate_of cursor_or
seek-Found regions [] idx d fit = refl
seek-Found regions (r ∷ rs) idx d fit =
    let next = drop-suc idx regions ∙ ap (drop 1) d in
    let after = seek-Found regions rs (suc idx) next fit.1 in
    elim (kind_cases r.kind) [
      | inl u ↦
          let p = subst (λ k. FitsAs k r.start r.end) u fit.0 in
          rw u (
            candidate-Found regions rs r idx r.start none (seek rs (suc idx) none) d u p refl
              p.start_aligned p.ordered after)
      | inr o ↦ rw o after
    ]

-- What `allocate` does when the frame `f` is next and the frames `fs` follow.
unfoldable pub Allocated :
    BootFrameAllocator → ℕ → List ℕ → Option (Option ℕ × BootFrameAllocator) → Type 0
Allocated s f fs none = ⊥
Allocated s f fs (some (none, s')) = ⊥
Allocated s f fs (some (some g, s')) =
    (g ≡ f)
    × Ready s' fs
    × (s'.regions ≡ s.regions)
    × (s'.frames_consumed ≡ (s.frames_consumed + 1) % 2 ^ 64)

module _ (s : BootFrameAllocator) (f : ℕ) (fs : List ℕ) where
  sought-Allocated :
      (c : ℕ) (t : BootFrameAllocator) (o : Option (ℕ × Option ℕ))
      → c ≡ f
      → t.regions ≡ s.regions
      → t.frames_consumed ≡ (s.frames_consumed + 1) % 2 ^ 64
      → All Fits t.regions
      → Found t.regions fs o
      → Allocated s f fs (handed_out c (sought t o))
  unfolding sought handed_out Allocated
  sought-Allocated c t none e same count fit found = found
  sought-Allocated c t (some (idx, cursor)) e same count fit found =
      (e, record { fit = fit; offers = found }, same, count)

  allocate_at-Allocated :
      (rs : List MemoryRegion) (cursor : Option ℕ)
      → drop s.region_idx s.regions ≡ rs
      → All Fits s.regions
      → All Fits rs
      → Offers rs cursor (f ∷ fs)
      → Allocated s f fs (allocate_at s cursor)
  unfolding allocate_at advanced seek_to_first_usable_frame seek cursor_or
  allocate_at-Allocated rs none d all fit o = absurd (omega (arith, ap length o))
  allocate_at-Allocated [] (some c) d all fit o = absurd o
  allocate_at-Allocated (r ∷ rs) (some c) d all fit (u, al, room, e) =
      let p = subst (λ k. FitsAs k r.start r.end) u fit.0 in
      let next = drop-suc s.region_idx s.regions ∙ ap (drop 1) d in
      let more : (r.end - c) / 4096 ≡ suc ((r.end - (c + 4096)) / 4096) = omega arith in
      let e' = e ∙ ap (λ n. frames_from n c ++ frames rs) more in
      let small : c + 4096 < 2 ^ 52 = omega (arith, p.bits) in
      let after = seek-Found s.regions rs (suc s.region_idx) next fit.1 in
      let rest = seek rs (suc s.region_idx) none in
      let found =
        candidate-Found s.regions rs r s.region_idx (c + 4096) (some (c + 4096)) rest d u p refl
          (omega arith) room after in
      rw (phys_addr_small (c + 4096) small, d, u)
        (sought-Allocated c
          (record s {
            cursor = some (c + 4096);
            frames_consumed = (s.frames_consumed + 1) % 2 ^ 64;
          })
          (stop_at s.region_idx rest (candidate_of (some (c + 4096)) usable r.start r.end))
          (sym (head-eq_of_cons-eq e')) refl refl all
          (subst
            (λ l.
              Found s.regions l
                (stop_at s.region_idx rest (candidate_of (some (c + 4096)) usable r.start r.end)))
            (sym (tail-eq_of_cons-eq e')) found))

drop-All : (n : ℕ) (rs : List MemoryRegion) → All Fits rs → All Fits (drop n rs)
drop-All zero rs h = h
drop-All (suc n) [] h = tt
drop-All (suc n) (r ∷ rs) h = drop-All n rs h.1

pub allocate-Allocated :
    (s : BootFrameAllocator) (f : ℕ) (fs : List ℕ)
    → Ready s (f ∷ fs)
    → Allocated s f fs (allocate s)
unfolding allocate
allocate-Allocated s f fs r =
    allocate_at-Allocated s f fs (drop s.region_idx s.regions) s.cursor refl r.fit
      (drop-All s.region_idx s.regions r.fit) r.offers

-- A new allocator over these regions has all their frames to give.
unfoldable pub New : List MemoryRegion → Option BootFrameAllocator → Type 0
New regions none = ⊥
New regions (some s) = Ready s (frames regions) × (s.frames_consumed ≡ 0)

pub new-New : (regions : List MemoryRegion) → All Fits regions → New regions (new regions)
unfolding new seek_to_first_usable_frame New sought
new-New regions fit = settled (seek regions 0 none) (seek-Found regions regions 0 refl fit)
  where
    start : BootFrameAllocator
    start = record { regions = regions; region_idx = 0; cursor = none; frames_consumed = 0 }

    settled :
        (o : Option (ℕ × Option ℕ))
        → Found regions (frames regions) o
        → New regions (sought start o)
    settled none f = f
    settled (some (idx, cursor)) f = (record { fit = fit; offers = f }, refl)
