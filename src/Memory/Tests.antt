-- ===== src/Memory/Tests.antt =====
-- Runs of the frame allocator.
use mathlib.Core.List.{not-mem-nil}
use alaphi_os.Base.Distinct.{Nodup-of_differ}
use alaphi_os.Base.{ℕ, ◌≡◌, refl, none, some, List, [], ◌∷◌, arith}
use alaphi_os.Memory.FreeList.{Words, FreeListAllocator}
use alaphi_os.Memory.FreeList.Links.{IsFrame, Linked}
use alaphi_os.Memory.FreeList.Stack.{Represents, Request, frees, takes, run, run-Represents}

abbrev zeros : Words
zeros a = 0

abbrev no_frames : FreeListAllocator
no_frames = record { head = none; free_count = 0; phys_offset = 1000 }

no_frames-Represents : Represents zeros no_frames []
unfolding Linked
no_frames-Represents = record {
  linked = refl;
  distinct = Nodup-of_differ [] tt;
  counted = refl;
  fits = omega arith;
}

abbrev second_frame : ℕ
second_frame = 4096

second_frame-IsFrame : IsFrame second_frame
second_frame-IsFrame = record { positive = omega arith; bits = omega arith; aligned = refl }

-- A frame is freed and taken, and the next call finds none.
abbrev requests : List Request
requests = frees 4096 ∷ takes ∷ takes ∷ []

run-Represents_example :
    (m' : Words) × (s' : FreeListAllocator) × (run requests zeros no_frames
      ≡ some (some 4096 ∷ none ∷ [], m', s'))
    × Represents m' s' []
run-Represents_example =
    run-Represents zeros no_frames [] requests no_frames-Represents
      (second_frame-IsFrame, not-mem-nil, omega arith, tt)
