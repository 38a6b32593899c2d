-- ===== src/Process/Signal/Pending.antt =====
-- Which signal `next_pending` answers, and what setting and clearing do to the pending bits.
use native.Mathlib.Nat.{pow-suc, one-le-pow, pow-le-pow_right}
use alaphi_os.Base.{
  ℕ, zero, suc, ◌^◌, ◌/◌, ◌%◌, ◌<◌, ◌≡◌, ◌≢◌, ◌⊎◌, inl, inr, refl, Option, none, some, lt→ltb, ◌==◌,
  if◌then◌else◌, get_or, arith, Bool-cases,
}
use alaphi_os.Base.Bits.{
  bit, bit-zero, bit-le-one, bit-bit_or, bit-bit_and, bit-bit_not, bit_not, bit_or_lt, bit_and-le,
}
use alaphi_os.Process.Signal.{
  SignalState, max_signals, set_pending, clear_pending, trailing_zeros, next_pending,
}

-- The bit that `1 << k` sets.
bit-pow : (i k : ℕ) → bit i (2 ^ k) ≡ (if i == k then 1 else 0)
bit-pow zero zero = refl
bit-pow (suc i) zero = ground (arith, bit-zero i)
bit-pow zero (suc k) = ground (arith, pow-suc 2 k)
bit-pow (suc i) (suc k) =
    let half : 2 ^ suc k / 2 ≡ 2 ^ k = omega (arith, pow-suc 2 k) in
    rw half (ground (arith, bit-pow i k))

pow_lt : (k : ℕ) → k < 32 → 2 ^ k < 2 ^ 32
pow_lt k h = omega (
  arith,
  pow-le-pow_right {n = 2} (omega arith) {i = suc k} {j = 32} h,
  pow-suc 2 k,
  one-le-pow k 2 (omega arith),
)

trailing_zeros_set :
    (n a : ℕ) → a < 2 ^ n → a ≢ 0 → (trailing_zeros n a < n) × (bit (trailing_zeros n a) a ≡ 1)
unfolding trailing_zeros
trailing_zeros_set zero a h nz = absurd (omega arith)
trailing_zeros_set (suc n) a h nz = elim (Bool-cases (a % 2 == 0)) [
  | inl even ↦
      let ih = trailing_zeros_set n (a / 2) (omega (arith, pow-suc 2 n)) (ground arith) in
      rw even (omega (arith, ih.0), ih.1)
  | inr odd ↦ rw odd (ground arith)
]

trailing_zeros_below : (n a i : ℕ) → i < trailing_zeros n a → bit i a ≡ 0
unfolding trailing_zeros
trailing_zeros_below zero a i h = absurd (omega arith)
trailing_zeros_below (suc n) a zero h = ground arith
trailing_zeros_below (suc n) a (suc i) h = ground (arith, trailing_zeros_below n (a / 2) i)

-- `answer` is the lowest pending signal with its handler, or `none` if nothing is pending.
abbrev pub IsLowest : SignalState → Option (ℕ × ℕ) → Type 0
IsLowest s answer =
    ((s.pending ≡ 0) × (answer ≡ none))
    ⊎ ((signum : ℕ) × (answer ≡ some (signum, get_or s.handlers signum 0))
        × (signum < max_signals)
        × (bit signum s.pending ≡ 1)
        × ((i : ℕ) → i < signum → bit i s.pending ≡ 0))

-- The signal that is answered is pending, is in range, and no lower one is pending; without a
-- pending signal nothing is answered.
pub next_pending-IsLowest : (s : SignalState) → s.pending < 2 ^ 32 → IsLowest s (next_pending s)
unfolding next_pending
next_pending-IsLowest s h = elim (Bool-cases (s.pending == 0)) [
  | inl e ↦ inl (ground arith, rw e)
  | inr e ↦ inr (
    trailing_zeros 32 s.pending,
    rw e,
    (trailing_zeros_set 32 s.pending h (ground arith)).0,
    (trailing_zeros_set 32 s.pending h (ground arith)).1,
    trailing_zeros_below 32 s.pending,
  )
]

-- Setting and clearing touch the bit of their own signal and no other, and stay within the `u32`.
pub pending_bits :
    (s : SignalState) (signum i : ℕ)
    → s.pending < 2 ^ 32
    → signum < max_signals
    → i < max_signals
    → (bit i (set_pending s signum).pending ≡ (if i == signum then 1 else bit i s.pending))
      × (bit i (clear_pending s signum).pending ≡ (if i == signum then 0 else bit i s.pending))
      × ((set_pending s signum).pending < 2 ^ 32)
      × ((clear_pending s signum).pending < 2 ^ 32)
unfolding set_pending clear_pending
pending_bits s signum i fits h k =
    let small = pow_lt signum h in
    rw (lt→ltb signum 32 h) (
      ground (arith, bit-bit_or i s.pending (2 ^ signum), bit-pow i signum, bit-le-one i s.pending),
      ground (
        arith,
        bit-bit_and i s.pending (bit_not 32 (2 ^ signum)),
        bit-bit_not 32 i (2 ^ signum) k small,
        bit-pow i signum,
        bit-le-one i s.pending,
      ),
      bit_or_lt 32 s.pending (2 ^ signum) fits small,
      omega (arith, bit_and-le s.pending (bit_not 32 (2 ^ signum))),
    )
