-- ===== src/Memory/FreeList/Stack.antt =====
-- kernel/src/memory/free_list.rs: the links in memory implement a stack of frames.
use mathlib.Core.List.{Mem, Nodup, Nodup-cons}
use alaphi_os.Base.{
  subst, ℕ, ◌+◌, ◌-◌, ◌%◌, ◌^◌, ◌<◌, ◌≡◌, refl, sym, ◌∙◌, ap, Option, none, some, List, [], ◌∷◌,
  length, arith, ==_refl,
}
use alaphi_os.Memory.FreeList.{
  Words, put_word, FreeListAllocator, virt, next_head, link_of, allocate, allocate_from, deallocate,
  take_head,
}
use alaphi_os.Memory.FreeList.Links.{
  IsFrame, Linked, Linked-put_word, next_head-link_of, next_head_zero, containing_address_self,
}

-- The frames that the allocator holds, the next one to go out first.
pub record Represents (m : Words) (s : FreeListAllocator) (fs : List ℕ) : Type 0 where
  pub linked : Linked m s.phys_offset s.head fs
  pub distinct : Nodup fs
  pub counted : s.free_count ≡ length fs
  pub fits : length fs < 2 ^ 64

put_word_here : (m : Words) (a v : ℕ) → put_word m a v a ≡ v
unfolding put_word
put_word_here m a v = rw (==_refl a) refl

-- `allocate` pops: of the frames that the links spell out it returns the first, does not panic, and
-- leaves the others.
pub allocate_pops :
    (m : Words) (s : FreeListAllocator) (f : ℕ) (fs : List ℕ)
    → Represents m s (f ∷ fs)
    → (s' : FreeListAllocator) × (allocate m s ≡ some (some f, s')) × Represents m s' fs
unfolding Linked allocate allocate_from take_head
allocate_pops m s f fs r =
    let (at, frame, next, link, rest) = r.linked in
    (
      record s { head = next; free_count = (s.free_count + (2 ^ 64 - 1)) % 2 ^ 64 },
      ap (allocate_from m s) at
          ∙ ap (λ w. take_head s f (next_head w)) link
          ∙ ap (take_head s f) (next_head-link_of m s.phys_offset next fs rest)
          ∙ ap
              (λ a. some (
                some a,
                record s { head = next; free_count = (s.free_count + (2 ^ 64 - 1)) % 2 ^ 64 },
              ))
              (containing_address_self f frame),
      record {
        linked = rest;
        distinct = (Nodup-cons.0 r.distinct).1;
        counted = omega (arith, r.counted, r.fits);
        fits = omega (arith, r.fits);
      },
    )

-- `deallocate` pushes: a frame that is not among the free ones, nor the one at address 0, is the
-- next one to go out, before those that were free (fewer than 2^64 - 1).
pub deallocate_pushes :
    (m : Words) (s : FreeListAllocator) (f : ℕ) (fs : List ℕ)
    → Represents m s fs
    → IsFrame f
    → ¬ Mem f fs
    → length fs + 1 < 2 ^ 64
    → Represents (deallocate m s f).0 (deallocate m s f).1 (f ∷ fs)
unfolding Linked deallocate
deallocate_pushes m s f fs r frame apart room = record {
  linked = (
    refl,
    frame,
    s.head,
    put_word_here m (virt s.phys_offset f) (link_of s.head),
    Linked-put_word m s.phys_offset s.head fs f (link_of s.head) frame.bits apart r.linked,
  );
  distinct = Nodup-cons.1 (apart, r.distinct);
  counted = omega (arith, r.counted);
  fits = omega arith;
}

-- `allocate` on an allocator without frames returns `None` and changes nothing.
pub allocate-none :
    (m : Words) (s : FreeListAllocator) → Represents m s [] → allocate m s ≡ some (none, s)
unfolding Linked allocate allocate_from
allocate-none m s r = ap (allocate_from m s) r.linked

-- What is asked of the allocator.
pub data Request : Type 0 where
  frees : ℕ → Request
  takes : Request

-- The answers of a list of requests, one for each `takes`, on the allocator and on an ordinary stack.
abbrev pub Run : Type 0
Run = Option (List (Option ℕ) × Words × FreeListAllocator)

unfoldable pub answered :
    (Words → FreeListAllocator → Run) → Words → Option (Option ℕ × FreeListAllocator) → Run
answered next m none = none
answered next m (some (o, s)) = elim (next m s) [
  | none ↦ none
  | some (os, m', s') ↦ some (o ∷ os, m', s')
]

unfoldable pub run : List Request → Words → FreeListAllocator → Run
run [] m s = some ([], m, s)
run (frees f ∷ rs) m s = run rs (deallocate m s f).0 (deallocate m s f).1
run (takes ∷ rs) m s = answered (run rs) m (allocate m s)

abbrev pub stack_answers : List Request → List ℕ → List (Option ℕ)
stack_answers [] fs = []
stack_answers (frees f ∷ rs) fs = stack_answers rs (f ∷ fs)
stack_answers (takes ∷ rs) [] = none ∷ stack_answers rs []
stack_answers (takes ∷ rs) (f ∷ fs) = some f ∷ stack_answers rs fs

abbrev pub stack_left : List Request → List ℕ → List ℕ
stack_left [] fs = fs
stack_left (frees f ∷ rs) fs = stack_left rs (f ∷ fs)
stack_left (takes ∷ rs) [] = stack_left rs []
stack_left (takes ∷ rs) (f ∷ fs) = stack_left rs fs

-- No frame is freed while it is free, nor the one at address 0.
abbrev pub Allowed : List Request → List ℕ → Type 0
Allowed [] fs = Unit {0}
Allowed (frees f ∷ rs) fs =
    IsFrame f × (¬ Mem f fs) × (length fs + 1 < 2 ^ 64) × Allowed rs (f ∷ fs)
Allowed (takes ∷ rs) [] = Allowed rs []
Allowed (takes ∷ rs) (f ∷ fs) = Allowed rs fs

Agrees : List (Option ℕ) → List ℕ → Run → Type 0
Agrees os gs r =
    (m' : Words) × (s' : FreeListAllocator) × (r ≡ some (os, m', s')) × Represents m' s' gs

answered-Agrees :
    (next : Words → FreeListAllocator → Run) (m : Words) (s : FreeListAllocator) (o : Option ℕ)
    (os : List (Option ℕ)) (gs : List ℕ)
    → Agrees os gs (next m s)
    → Agrees (o ∷ os) gs (answered next m (some (o, s)))
unfolding answered Agrees
answered-Agrees next m s o os gs (m', s', e, r) = (m', s', rw (answered, e) refl, r)

-- Whatever frames are asked for and given back (none given back while it is free, never the one at
-- address 0, and always fewer than 2^64 - 1 free), by an allocator whose links spell out the frames
-- `fs`: it does not panic, each `allocate` answers with the frame that an ordinary stack with `fs`
-- in it would pop, or with `None` when that is empty, and at the end the links spell out what is
-- left on the stack.
pub run-Represents :
    (m : Words) (s : FreeListAllocator) (fs : List ℕ) (rs : List Request)
    → Represents m s fs
    → Allowed rs fs
    → (m' : Words) × (s' : FreeListAllocator) × (run rs m s ≡ some (stack_answers rs fs, m', s'))
      × Represents m' s' (stack_left rs fs)
unfolding run Agrees
run-Represents m s fs [] r ok' = (m, s, refl, r)
run-Represents m s fs (frees f ∷ rs) r (frame, apart, room, more) =
    run-Represents (deallocate m s f).0 (deallocate m s f).1 (f ∷ fs) rs
      (deallocate_pushes m s f fs r frame apart room) more
run-Represents m s [] (takes ∷ rs) r more =
    subst (λ o. Agrees (none ∷ stack_answers rs []) (stack_left rs []) (answered (run rs) m o))
      (sym (allocate-none m s r))
      (answered-Agrees (run rs) m s none (stack_answers rs []) (stack_left rs [])
        (run-Represents m s [] rs r more))
run-Represents m s (f ∷ fs) (takes ∷ rs) r more =
    let (s', now, after) = allocate_pops m s f fs r in
    subst (λ o. Agrees (some f ∷ stack_answers rs fs) (stack_left rs fs) (answered (run rs) m o))
      (sym now)
      (answered-Agrees (run rs) m s' (some f) (stack_answers rs fs) (stack_left rs fs)
        (run-Represents m s' fs rs after more))

-- The frame at address 0 ends the list: when it is freed and then another frame, whatever was free
-- before, taking that other frame leaves an empty list.
pub frame_zero_loses :
    (m : Words) (s : FreeListAllocator) (f : ℕ)
    → IsFrame f
    → (s' : FreeListAllocator) × (allocate
          (deallocate (deallocate m s 0).0 (deallocate m s 0).1 f).0
          (deallocate (deallocate m s 0).0 (deallocate m s 0).1 f).1
        ≡ some (some f, s'))
      × (s'.head ≡ none)
unfolding allocate allocate_from take_head deallocate link_of
frame_zero_loses m s f frame =
    let t : FreeListAllocator = (deallocate (deallocate m s 0).0 (deallocate m s 0).1 f).1 in
    (
      record t { head = none; free_count = (t.free_count + (2 ^ 64 - 1)) % 2 ^ 64 },
      ap (λ w. take_head t f (next_head w))
            (put_word_here (deallocate m s 0).0 (virt s.phys_offset f) 0)
          ∙ ap (take_head t f) next_head_zero
          ∙ ap
              (λ a. some (
                some a,
                record t { head = none; free_count = (t.free_count + (2 ^ 64 - 1)) % 2 ^ 64 },
              ))
              (containing_address_self f frame),
      refl,
    )
