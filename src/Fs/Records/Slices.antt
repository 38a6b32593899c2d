-- ===== src/Fs/Records/Slices.antt =====
-- kernel/src/fs/system_domain.rs: the fields of a record, cut out of its bytes.
use alaphi_os.Base.{
  ℕ, zero, suc, ◌+◌, ◌^◌, ◌<◌, ◌≡◌, ◌∙◌, ap, refl, [], ◌∷◌, ◌++◌, length, take, get_or, arith,
  take_left, drop_left,
}
use alaphi_os.Base.Bytes.{Bytes}
use alaphi_os.Fs.Records.{to_le_bytes, from_le_bytes, slice}

pub from_le_bytes-to_le_bytes : (n : ℕ) → n < 2 ^ 32 → from_le_bytes (to_le_bytes n) ≡ n
unfolding from_le_bytes to_le_bytes
from_le_bytes-to_le_bytes n h = omega arith

pub take_whole : (n : ℕ) (xs : Bytes) → n ≡ length xs → take n xs ≡ xs
take_whole zero [] h = refl
take_whole (suc n) [] h = refl
take_whole zero (x ∷ xs) h = absurd (omega arith)
take_whole (suc n) (x ∷ xs) h = ap (λ t. x ∷ t) (take_whole n xs (omega arith))

pub length-to_le_bytes : (n : ℕ) → 4 ≡ length (to_le_bytes n)
unfolding to_le_bytes
length-to_le_bytes n = refl

pub length_head : (status n : ℕ) → 5 ≡ length (status ∷ to_le_bytes n)
unfolding to_le_bytes
length_head status n = refl

pub slice_middle :
    (from n : ℕ) (a b c : Bytes) → from ≡ length a → n ≡ length b → slice from n (a ++ (b ++ c)) ≡ b
unfolding slice
slice_middle from n a b c e e' = rw (drop_left a (b ++ c) from e) (take_left b c n e')

pub slice_end :
    (from n : ℕ) (a b : Bytes) → from ≡ length a → n ≡ length b → slice from n (a ++ b) ≡ b
unfolding slice
slice_end from n a b e e' = rw (drop_left a b from e) (take_whole n b e')

zero_left : (k : ℕ) → 0 + k ≡ k
zero_left k = omega arith

pub get_or-append : (a b : Bytes) (i k : ℕ) → i ≡ length a + k → get_or (a ++ b) i 0 ≡ get_or b k 0
get_or-append [] b i k h = ap (λ n. get_or b n 0) (h ∙ zero_left k)
get_or-append (y ∷ a) b zero k h = absurd (omega arith)
get_or-append (y ∷ a) b (suc i) k h = get_or-append a b i k (omega arith)

pub uid_slice :
    (n : ℕ) (a b : Bytes) (from : ℕ)
    → from ≡ length a
    → n < 2 ^ 32
    → from_le_bytes (slice from 4 (a ++ (to_le_bytes n ++ b))) ≡ n
uid_slice n a b from e h =
    rw (slice_middle from 4 a (to_le_bytes n) b e (length-to_le_bytes n))
      (from_le_bytes-to_le_bytes n h)
