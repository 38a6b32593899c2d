-- ===== src/Memory/Area/Tests.antt =====
-- Runs on two areas.
use alaphi_os.Base.{ℕ, ◌≡◌, refl, some, List, [], ◌∷◌, ◌&&◌, ltb, leb, if◌then◌else◌, arith}
use alaphi_os.Memory.Area.{VmArea, anonymous, covers, mprotect, replacements}
use alaphi_os.Memory.Area.Protect.{flags_at, Disjoint, mprotect_exact}

abbrev area : ℕ → ℕ → ℕ → VmArea
area from to flags = record { start = from; end = to; flags = flags; kind = anonymous }

abbrev two_areas : List VmArea
two_areas = area 0 4096 1 ∷ area 8192 20480 3 ∷ []

abbrev after_mprotect : List VmArea
after_mprotect = area 0 4096 1 ∷ area 8192 12288 3 ∷ area 12288 16384 5 ∷ area 16384 20480 3 ∷ []

splits_in_three : mprotect two_areas 12288 16384 5 ≡ some after_mprotect
unfolding mprotect replacements covers
splits_in_three = refl

two_areas-Disjoint : Disjoint two_areas
unfolding Disjoint covers
two_areas-Disjoint = (((λ x h. ground arith), tt), (tt, tt))

mprotect_exact_example :
    flags_at after_mprotect 13000
    ≡ (if leb 12288 13000 && ltb 13000 16384 then some 5 else flags_at two_areas 13000)
mprotect_exact_example =
    mprotect_exact two_areas after_mprotect 12288 16384 5 13000 two_areas-Disjoint (omega arith)
      splits_in_three
