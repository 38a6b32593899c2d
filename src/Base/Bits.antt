-- ===== src/Base/Bits.antt =====
-- `&`, `|`, `^` and `!` at variables.
use Prim.Native.Nat.{
  ℕ, zero, suc, ◌+◌, ◌-◌, ◌*◌, ◌/◌, ◌%◌, ◌^◌, ◌≤◌, ◌<◌, min, max, bit_and, bit_or, digits,
  bit_and-bitwise, bit_or-bitwise,
}
use mathlib.Core.Path.{◌≡◌, refl, ap, sym, ◌∙◌}
use mathlib.Core.WellFounded
use native.Mathlib.Nat.{pow-suc}
use native.Mathlib.Omega.{arith}
use alaphi_os.Base.Order.{lt_wf}

-- The library defines the three operations by `digits`, whose count may exceed the first argument.
module _ (rest : ℕ → ℕ) (f : ℕ → ℕ → ℕ) where
  digits_spare : (n k a b : ℕ) → k ≤ n → a ≤ k → digits rest f k a b ≡ digits rest f a a b
  digits_spare n zero zero b p q = refl
  digits_spare n (suc k) zero b p q = refl
  digits_spare n zero (suc a) b p q = absurd (omega arith)
  digits_spare zero (suc k) (suc a) b p q = absurd (omega arith)
  digits_spare (suc n) (suc k) (suc a) b p q =
      let long = digits_spare n k (suc a / 2) (b / 2) (omega arith) (omega arith) in
      let short = digits_spare n a (suc a / 2) (b / 2) (omega arith) (omega arith) in
      omega (arith, long, short)

  digits_lowest :
      (a b : ℕ)
      → rest b ≡ rest (b / 2) * 2 + f 0 (b % 2)
      → digits rest f a a b ≡ digits rest f (a / 2) (a / 2) (b / 2) * 2 + f (a % 2) (b % 2)
  digits_lowest zero b e = e
  digits_lowest (suc a) b e =
      omega (arith, digits_spare a a (suc a / 2) (b / 2) (omega arith) (omega arith))

-- The lowest digit of `&` and of `|`, and the digits above it.
pub bit_and_step : (x y : ℕ) → bit_and x y ≡ bit_and (x / 2) (y / 2) * 2 + min (x % 2) (y % 2)
bit_and_step x y =
    bit_and-bitwise x y
    ∙ digits_lowest (λ _. 0) min x y (omega arith)
    ∙ ap (λ t. t * 2 + min (x % 2) (y % 2)) (sym (bit_and-bitwise (x / 2) (y / 2)))

pub bit_or_step : (x y : ℕ) → bit_or x y ≡ bit_or (x / 2) (y / 2) * 2 + max (x % 2) (y % 2)
bit_or_step x y =
    bit_or-bitwise x y
    ∙ digits_lowest (λ d. d) max x y (omega arith)
    ∙ ap (λ t. t * 2 + max (x % 2) (y % 2)) (sym (bit_or-bitwise (x / 2) (y / 2)))

pub zero-bit_or : (b : ℕ) → bit_or 0 b ≡ b
zero-bit_or b = bit_or-bitwise 0 b

pub zero-bit_and : (b : ℕ) → bit_and 0 b ≡ 0
zero-bit_and b = bit_and-bitwise 0 b

-- By induction on a number of digits that holds both arguments.
pub bit_and-zero : (n a : ℕ) → a ≤ n → bit_and a 0 ≡ 0
bit_and-zero n zero h = refl
bit_and-zero zero (suc a) h = absurd (omega arith)
bit_and-zero (suc n) (suc a) h =
    omega (arith, bit_and_step (suc a) 0, bit_and-zero n (suc a / 2) (omega arith))

pub bit_and_self : (n a : ℕ) → a ≤ n → bit_and a a ≡ a
bit_and_self n zero h = refl
bit_and_self zero (suc a) h = absurd (omega arith)
bit_and_self (suc n) (suc a) h =
    omega (arith, bit_and_step (suc a) (suc a), bit_and_self n (suc a / 2) (omega arith))

pub bit_and_comm : (a b : ℕ) → bit_and a b ≡ bit_and b a
bit_and_comm a = WellFounded.induction lt_wf {C = λ a. (b : ℕ) → bit_and a b ≡ bit_and b a} a step
  where
    step :
        (n : ℕ)
        → ((m : ℕ) → m < n → (b : ℕ) → bit_and m b ≡ bit_and b m)
        → (b : ℕ) → bit_and n b ≡ bit_and b n
    step zero ih b = omega (arith, zero-bit_and b, bit_and-zero b b (omega arith))
    step (suc n) ih b = omega (
      arith,
      bit_and_step (suc n) b,
      bit_and_step b (suc n),
      ih (suc n / 2) (omega arith) (b / 2),
    )

-- Bit `i` of a number, 0 or 1.
abbrev pub bit : ℕ → ℕ → ℕ
bit zero a = a % 2
bit (suc i) a = bit i (a / 2)

pub bit-le-one : (i a : ℕ) → bit i a ≤ 1
bit-le-one zero a = omega arith
bit-le-one (suc i) a = bit-le-one i (a / 2)

pub bit-bit_and : (i a b : ℕ) → bit i (bit_and a b) ≡ min (bit i a) (bit i b)
bit-bit_and zero a b = omega (arith, bit_and_step a b)
bit-bit_and (suc i) a b =
    let half : bit_and a b / 2 ≡ bit_and (a / 2) (b / 2) = omega (arith, bit_and_step a b) in
    rw half (bit-bit_and i (a / 2) (b / 2))

pub bit-bit_or : (i a b : ℕ) → bit i (bit_or a b) ≡ max (bit i a) (bit i b)
bit-bit_or zero a b = omega (arith, bit_or_step a b)
bit-bit_or (suc i) a b =
    let half : bit_or a b / 2 ≡ bit_or (a / 2) (b / 2) = omega (arith, bit_or_step a b) in
    rw half (bit-bit_or i (a / 2) (b / 2))

pub bit-zero : (i : ℕ) → bit i 0 ≡ 0
bit-zero zero = refl
bit-zero (suc i) = bit-zero i

-- A number is its bits.
bit_ext_fuel : (n a b : ℕ) → a ≤ n → b ≤ n → ((i : ℕ) → bit i a ≡ bit i b) → a ≡ b
bit_ext_fuel zero a b p q h = omega arith
bit_ext_fuel (suc n) zero zero p q h = refl
bit_ext_fuel (suc n) zero (suc b) p q h =
    omega (arith, h 0, bit_ext_fuel n 0 (suc b / 2) (omega arith) (omega arith) (λ i. h (suc i)))
bit_ext_fuel (suc n) (suc a) b p q h =
    omega
      (arith, h 0, bit_ext_fuel n (suc a / 2) (b / 2) (omega arith) (omega arith) (λ i. h (suc i)))

pub bit_ext : (a b : ℕ) → ((i : ℕ) → bit i a ≡ bit i b) → a ≡ b
bit_ext a b h = bit_ext_fuel (max a b) a b (omega arith) (omega arith) h

-- `!a` at a width of `w` bits.
abbrev pub bit_not : ℕ → ℕ → ℕ
bit_not w a = 2 ^ w - 1 - a

pub bit-bit_not : (w i a : ℕ) → i < w → a < 2 ^ w → bit i (bit_not w a) ≡ 1 - bit i a
bit-bit_not zero i a h k = absurd (omega arith)
bit-bit_not (suc w) zero a h k = omega (arith, pow-suc 2 w)
bit-bit_not (suc w) (suc i) a h k =
    let half : bit_not (suc w) a / 2 ≡ bit_not w (a / 2) = omega (arith, pow-suc 2 w) in
    rw half (bit-bit_not w i (a / 2) (omega arith) (omega (arith, pow-suc 2 w)))

-- Bits above the width are 0.
pub bit_above : (w i a : ℕ) → w ≤ i → a < 2 ^ w → bit i a ≡ 0
bit_above zero i a h k = let e : a ≡ 0 = omega arith in rw e (bit-zero i)
bit_above (suc w) zero a h k = absurd (omega arith)
bit_above (suc w) (suc i) a h k = bit_above w i (a / 2) (omega arith) (omega (arith, pow-suc 2 w))

-- `x & m == m`: every bit of `m` is set in `x`.
pub bit_of_mask : (i x m : ℕ) → bit_and x m ≡ m → bit i m ≤ bit i x
bit_of_mask i x m h = omega (arith, bit-bit_and i x m, ap (bit i) h)

pub mask_of_bit : (x m : ℕ) → ((i : ℕ) → bit i m ≤ bit i x) → bit_and x m ≡ m
mask_of_bit x m h = bit_ext (bit_and x m) m (λ i. omega (arith, bit-bit_and i x m, h i))

pub bit_and-bit_or : (a b : ℕ) → bit_and (bit_or a b) b ≡ b
bit_and-bit_or a b = mask_of_bit (bit_or a b) b (λ i. omega (arith, bit-bit_or i a b))

-- `|` and `&` stay inside the width.
pub bit_or_lt : (w a b : ℕ) → a < 2 ^ w → b < 2 ^ w → bit_or a b < 2 ^ w
bit_or_lt zero a b h k = let e : a ≡ 0 = omega arith in rw e (rw zero-bit_or k)
bit_or_lt (suc w) a b h k = omega (
  arith,
  bit_or_step a b,
  pow-suc 2 w,
  bit_or_lt w (a / 2) (b / 2) (omega (arith, pow-suc 2 w)) (omega (arith, pow-suc 2 w)),
)

bit_and-le_fuel : (n a b : ℕ) → a ≤ n → bit_and a b ≤ a
bit_and-le_fuel n zero b h = omega (arith, zero-bit_and b)
bit_and-le_fuel zero (suc a) b h = absurd (omega arith)
bit_and-le_fuel (suc n) (suc a) b h =
    omega (arith, bit_and_step (suc a) b, bit_and-le_fuel n (suc a / 2) (b / 2) (omega arith))

pub bit_and-le : (a b : ℕ) → bit_and a b ≤ a
bit_and-le a b = bit_and-le_fuel a a b (omega arith)
