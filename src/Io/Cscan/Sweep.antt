-- ===== src/Io/Cscan/Sweep.antt =====
-- kernel/src/io/scheduler.rs: C-SCAN serves every request once, upwards from the head and then from
-- the lowest address.
use mathlib.Core.List.{Perm, perm_middle}
use mathlib.Core.List.Perm
use alaphi_os.Base.{
  ℕ, ◌≤◌, ◌<◌, ◌≡◌, refl, List, [], ◌∷◌, ◌++◌, All, append-nil, All-mono, All-left, subst, ltb,
  arith, take, drop, take-append-drop, Bool-cases, inl, inr,
}
use alaphi_os.Io.Request.{DiskRequest}
use alaphi_os.Io.Cscan.{CscanScheduler, insert_by_lba, sort_by_lba, split_at, drain}

insert_by_lba-perm : (r : DiskRequest) (xs : List DiskRequest) → Perm (insert_by_lba r xs) (r ∷ xs)
unfolding insert_by_lba
insert_by_lba-perm r [] = Perm.refl (r ∷ [])
insert_by_lba-perm r (x ∷ xs) = elim (Bool-cases (ltb x.lba r.lba)) [
  | inl e ↦ rw e (Perm.trans (Perm.cons x (insert_by_lba-perm r xs)) (perm_middle (x ∷ []) xs))
  | inr e ↦ rw e (Perm.refl (r ∷ x ∷ xs))
]

sort_by_lba-perm : (xs : List DiskRequest) → Perm (sort_by_lba xs) xs
unfolding sort_by_lba
sort_by_lba-perm [] = Perm.refl []
sort_by_lba-perm (r ∷ rs) =
    Perm.trans (insert_by_lba-perm r (sort_by_lba rs)) (Perm.cons r (sort_by_lba-perm rs))

-- Addresses do not go down.
unfoldable pub Rising : List DiskRequest → Type 0
Rising [] = Unit {0}
Rising (x ∷ xs) = All (λ y. x.lba ≤ y.lba) xs × Rising xs

insert_by_lba-All :
    (n : ℕ) (r : DiskRequest) (xs : List DiskRequest)
    → n ≤ r.lba
    → All (λ y. n ≤ y.lba) xs
    → All (λ y. n ≤ y.lba) (insert_by_lba r xs)
unfolding insert_by_lba
insert_by_lba-All n r [] h a = (h, tt)
insert_by_lba-All n r (x ∷ xs) h a = elim (Bool-cases (ltb x.lba r.lba)) [
  | inl e ↦ rw e (a.0, insert_by_lba-All n r xs h a.1)
  | inr e ↦ rw e (h, a)
]

insert_by_lba-Rising :
    (r : DiskRequest) (xs : List DiskRequest) → Rising xs → Rising (insert_by_lba r xs)
unfolding insert_by_lba Rising
insert_by_lba-Rising r [] h = (tt, tt)
insert_by_lba-Rising r (x ∷ xs) h = elim (Bool-cases (ltb x.lba r.lba)) [
  | inl e ↦ rw e (insert_by_lba-All x.lba r xs ground arith h.0, insert_by_lba-Rising r xs h.1)
  | inr e ↦
      let low : r.lba ≤ x.lba = ground arith in
      rw e
        ((low, All-mono (λ y. x.lba ≤ y.lba) (λ y. r.lba ≤ y.lba) xs (λ y k. omega arith) h.0), h)
]

sort_by_lba-Rising : (xs : List DiskRequest) → Rising (sort_by_lba xs)
unfolding sort_by_lba Rising
sort_by_lba-Rising [] = tt
sort_by_lba-Rising (r ∷ rs) = insert_by_lba-Rising r (sort_by_lba rs) (sort_by_lba-Rising rs)

-- Below and from an address on.
Rising-split :
    (h : ℕ) (xs : List DiskRequest)
    → Rising xs
    → All (λ y. y.lba < h) (take (split_at h xs) xs)
      × All (λ y. h ≤ y.lba) (drop (split_at h xs) xs)
      × Rising (take (split_at h xs) xs)
      × Rising (drop (split_at h xs) xs)
unfolding split_at Rising
Rising-split h [] up = (tt, tt, tt, tt)
Rising-split h (x ∷ xs) up =
    let (below, above, up_below, up_above) = Rising-split h xs up.1 in
    elim (Bool-cases (ltb x.lba h)) [
      | inl e ↦
          let low : x.lba < h = ground arith in
          let rest : All (λ y. x.lba ≤ y.lba) (take (split_at h xs) xs ++ drop (split_at h xs) xs) =
            rw (take-append-drop (split_at h xs) xs) up.0 in
          rw e (
            (low, below),
            above,
            (
              All-left (λ y. x.lba ≤ y.lba) (take (split_at h xs) xs) (drop (split_at h xs) xs)
                  rest,
              up_below,
            ),
            up_above,
          )
      | inr e ↦
          let high : h ≤ x.lba = ground arith in
          rw e (
            tt,
            (high, All-mono (λ y. x.lba ≤ y.lba) (λ y. h ≤ y.lba) xs (λ y k. omega arith) up.0),
            tt,
            up,
          )
    ]

append_turned : (xs ys : List DiskRequest) → Perm (xs ++ ys) (ys ++ xs)
append_turned [] ys = rw (append-nil ys) (Perm.refl ys)
append_turned (x ∷ xs) ys =
    Perm.trans (Perm.cons x (append_turned xs ys)) (Perm.symm (perm_middle ys xs))

-- An order of service: first upwards from the head to the last address, then upwards again from the
-- lowest, without reaching the head.
pub record Sweep (head : ℕ) (served : List DiskRequest) : Type 0 where
  pub first : List DiskRequest
  pub second : List DiskRequest
  pub parts : served ≡ first ++ second
  pub first_up : Rising first
  pub second_up : Rising second
  pub from_head : All (λ r. head ≤ r.lba) first
  pub below_head : All (λ r. r.lba < head) second

-- `CscanScheduler::drain` leaves no request pending and serves each pending request exactly once, in
-- the order of a sweep: by rising address from the head upwards, then by rising address those below
-- the head.
pub drain_sweeps :
    (s : CscanScheduler)
    → Perm (drain s).0 s.pending × ((drain s).1.pending ≡ []) × Sweep s.head (drain s).0
unfolding drain
drain_sweeps s =
    let sorted = sort_by_lba s.pending in
    let n = split_at s.head sorted in
    let (below, above, up_below, up_above) =
      Rising-split s.head sorted (sort_by_lba-Rising s.pending) in
    let turned : Perm (drop n sorted ++ take n sorted) sorted =
      subst (Perm (drop n sorted ++ take n sorted)) (take-append-drop n sorted)
        (append_turned (drop n sorted) (take n sorted)) in
    (
      Perm.trans turned (sort_by_lba-perm s.pending),
      refl,
      record {
        first = drop n sorted;
        second = take n sorted;
        parts = refl;
        first_up = up_above;
        second_up = up_below;
        from_head = above;
        below_head = below;
      },
    )
