-- ===== src/Ipc/Table/Handles.antt =====
-- kernel/src/ipc/table.rs: a new handle is one that no channel has.
use alaphi_os.Base.{
  ℕ, ◌+◌, ◌^◌, ◌<◌, ◌≡◌, ap, Option, none, some, arith, ==_iff, ◌==◌, if◌then◌else◌, Option-cases,
  inl, inr,
}
use alaphi_os.Base.Map
use alaphi_os.Base.Map.{nat_key, get-insert, get-remove}
use alaphi_os.Ipc.Table.{IpcTable, checked_next, insert, get, remove}

-- Handles in use are below the next one.
abbrev pub Below : {C : Type 0} → IpcTable C → Type 0
Below {C = C} t = (h : ℕ) (c : C) → get t h ≡ some c → h < t.next_handle

checked_next-some : (n : ℕ) → n + 1 < 2 ^ 64 → checked_next n ≡ some (n + 1)
unfolding checked_next
checked_next-some n room = ground arith

module _ {C : Type 0} where
  insert-some :
      (t : IpcTable C) (c : C)
      → t.next_handle + 1 < 2 ^ 64
      → insert t c
        ≡ some (
          t.next_handle,
          record { next_handle = t.next_handle + 1; map = Map.insert t.next_handle c t.map },
        )
  unfolding insert
  insert-some t c room =
      ap
        (λ n. elim n as (λ x. Option (ℕ × IpcTable C)) [
          | none ↦ none
          | some k ↦
              some
                (t.next_handle, record { next_handle = k; map = Map.insert t.next_handle c t.map })
        ])
        (checked_next-some t.next_handle room)

  next_unused : (t : IpcTable C) → Below t → get t t.next_handle ≡ none
  next_unused t below = elim (Option-cases (get t t.next_handle)) [
    | inl e ↦ e
    | inr (c, e) ↦ absurd (omega (arith, below t.next_handle c e))
  ]

  -- As long as the 64-bit counter has room, `IpcTable::insert` succeeds with a handle that no channel
  -- had, under which the new channel is found; every other handle finds what it found, and the
  -- handles in use stay below the next one.
  pub insert_fresh :
      (t : IpcTable C) (c : C)
      → Below t
      → t.next_handle + 1 < 2 ^ 64
      → (t' : IpcTable C) × (insert t c ≡ some (t.next_handle, t'))
        × (get t t.next_handle ≡ none)
        × ((h : ℕ) → get t' h ≡ (if h == t.next_handle then some c else get t h))
        × Below t'
  unfolding get
  insert_fresh t c below room = (
    record { next_handle = t.next_handle + 1; map = Map.insert t.next_handle c t.map },
    insert-some t c room,
    next_unused t below,
    λ h. get-insert t.next_handle h c t.map,
    λ h d e.
        let was = below h d in
        let now = get-insert t.next_handle h c t.map in ground (arith, ==_iff h t.next_handle),
  )

  -- `IpcTable::remove` takes away the one handle and no other, and keeps the handles in use below the
  -- next one.
  pub remove_exact :
      (t : IpcTable C) (handle : ℕ)
      → ((h : ℕ) → get (remove t handle) h ≡ (if h == handle then none else get t h))
        × (Below t → Below (remove t handle))
  unfolding remove get
  remove_exact t handle = (
    λ h. get-remove handle h t.map,
    λ below h c e. let was = below h c in let now = get-remove handle h t.map in ground arith,
  )
