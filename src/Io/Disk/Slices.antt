-- ===== src/Io/Disk/Slices.antt =====
-- A copy over a part of a sequence of bytes, as the sectors of kernel/src/io/disk.rs see it.
use alaphi_os.Base.{
  ℕ, zero, suc, ◌+◌, ◌≤◌, ◌<◌, ◌≡◌, ◌≢◌, ◌∙◌, refl, ap, some, List, [], ◌∷◌, ◌++◌, length, take,
  drop, set, get_elem?, arith, take_left, append-nil, append_assoc, length-append, length-take,
  length-drop,
}
use alaphi_os.Base.Bytes.{Bytes}
use alaphi_os.Io.Disk.{overwrite}

overwrite-suc :
    (x : ℕ) (bytes : Bytes) (s : ℕ) (part : Bytes)
    → overwrite (x ∷ bytes) (suc s) part ≡ x ∷ overwrite bytes s part
unfolding overwrite
overwrite-suc x bytes s part =
    let e : suc s + length part ≡ suc (s + length part) = omega arith in rw e refl

overwrite-zero : (bytes part : Bytes) → overwrite bytes 0 part ≡ part ++ drop (length part) bytes
unfolding overwrite
overwrite-zero bytes part = let e : 0 + length part ≡ length part = omega arith in rw e refl

pub length-overwrite :
    (bytes : Bytes) (start : ℕ) (part : Bytes)
    → start + length part ≤ length bytes
    → length (overwrite bytes start part) ≡ length bytes
unfolding overwrite
length-overwrite bytes start part h = omega (
  arith,
  length-append (take start bytes ++ part) (drop (start + length part) bytes),
  length-append (take start bytes) part,
  length-take start bytes,
  length-drop (start + length part) bytes,
)

-- The part itself is read back.
pub overwrite_here :
    (bytes : Bytes) (start : ℕ) (part : Bytes)
    → start ≤ length bytes
    → take (length part) (drop start (overwrite bytes start part)) ≡ part
overwrite_here bytes zero part h =
    ap (take (length part)) (overwrite-zero bytes part)
    ∙ take_left part (drop (length part) bytes) (length part) refl
overwrite_here [] (suc s) part h = absurd (omega arith)
overwrite_here (x ∷ bytes) (suc s) part h =
    ap (λ t. take (length part) (drop (suc s) t)) (overwrite-suc x bytes s part)
    ∙ overwrite_here bytes s part (omega arith)

take_before :
    (bytes rest : Bytes) (n start : ℕ)
    → n ≤ start
    → start ≤ length bytes
    → take n (take start bytes ++ rest) ≡ take n bytes
take_before bytes rest zero start h k = refl
take_before bytes rest (suc n) zero h k = absurd (omega arith)
take_before [] rest (suc n) (suc start) h k = absurd (omega arith)
take_before (x ∷ bytes) rest (suc n) (suc start) h k =
    ap (λ t. x ∷ t) (take_before bytes rest n start (omega arith) (omega arith))

drop_beyond : (xs : Bytes) (s : ℕ) → length xs ≤ s → drop s xs ≡ []
drop_beyond [] zero h = refl
drop_beyond [] (suc s) h = refl
drop_beyond (x ∷ xs) zero h = absurd (omega arith)
drop_beyond (x ∷ xs) (suc s) h = drop_beyond xs s (omega arith)

drop_after :
    (part bytes : Bytes) (s : ℕ)
    → length part ≤ s
    → drop s (part ++ drop (length part) bytes) ≡ drop s bytes
drop_after [] bytes s h = refl
drop_after (x ∷ part) bytes zero h = absurd (omega arith)
drop_after (x ∷ part) [] (suc s) h =
    ap (drop s) (append-nil part) ∙ drop_beyond part s (omega arith)
drop_after (x ∷ part) (y ∷ bytes) (suc s) h = drop_after part bytes s (omega arith)

-- What lies before the part stays.
pub overwrite_before :
    (bytes : Bytes) (start : ℕ) (part : Bytes) (s n : ℕ)
    → s + n ≤ start
    → start ≤ length bytes
    → take n (drop s (overwrite bytes start part)) ≡ take n (drop s bytes)
unfolding overwrite
overwrite_before bytes start part zero n h k =
    ap (take n) (append_assoc (take start bytes) part (drop (start + length part) bytes))
    ∙ take_before bytes _ n start (omega arith) k
overwrite_before bytes zero part (suc s) n h k = absurd (omega arith)
overwrite_before [] (suc start) part (suc s) n h k = absurd (omega arith)
overwrite_before (x ∷ bytes) (suc start) part (suc s) n h k =
    ap (λ t. take n (drop (suc s) t)) (overwrite-suc x bytes start part)
    ∙ overwrite_before bytes start part s n (omega arith) (omega arith)

-- What lies after the part stays.
pub overwrite_after :
    (bytes : Bytes) (start : ℕ) (part : Bytes) (s n : ℕ)
    → start + length part ≤ s
    → start ≤ length bytes
    → take n (drop s (overwrite bytes start part)) ≡ take n (drop s bytes)
unfolding overwrite
overwrite_after bytes zero part s n h k =
    ap (λ t. take n (drop s t)) (overwrite-zero bytes part)
    ∙ ap (take n) (drop_after part bytes s (omega arith))
overwrite_after bytes (suc start) part zero n h k = absurd (omega arith)
overwrite_after [] (suc start) part (suc s) n h k = absurd (omega arith)
overwrite_after (x ∷ bytes) (suc start) part (suc s) n h k =
    ap (λ t. take n (drop (suc s) t)) (overwrite-suc x bytes start part)
    ∙ overwrite_after bytes start part s n (omega arith) (omega arith)

-- A whole buffer is replaced.
pub overwrite_whole :
    (bytes part : Bytes) → length part ≡ length bytes → overwrite bytes 0 part ≡ part
overwrite_whole bytes part h =
    overwrite-zero bytes part
    ∙ ap (λ t. part ++ t) (drop_beyond bytes (length part) (omega arith))
    ∙ append-nil part

module _ {ℓ} {A : Type ℓ} where
  pub get_elem?-some : (xs : List A) (i : ℕ) → i < length xs → (x : A) × (get_elem? xs i ≡ some x)
  get_elem?-some [] i h = absurd (omega arith)
  get_elem?-some (x ∷ xs) zero h = (x, refl)
  get_elem?-some (x ∷ xs) (suc i) h = get_elem?-some xs i (omega arith)

  pub get_elem?-set_self :
      (xs : List A) (i : ℕ) (v : A) → i < length xs → get_elem? (set xs i v) i ≡ some v
  get_elem?-set_self [] i v h = absurd (omega arith)
  get_elem?-set_self (x ∷ xs) zero v h = refl
  get_elem?-set_self (x ∷ xs) (suc i) v h = get_elem?-set_self xs i v (omega arith)

  pub get_elem?-set_ne :
      (xs : List A) (i j : ℕ) (v : A) → i ≢ j → get_elem? (set xs i v) j ≡ get_elem? xs j
  get_elem?-set_ne [] i j v h = refl
  get_elem?-set_ne (x ∷ xs) zero zero v h = absurd (h refl)
  get_elem?-set_ne (x ∷ xs) zero (suc j) v h = refl
  get_elem?-set_ne (x ∷ xs) (suc i) zero v h = refl
  get_elem?-set_ne (x ∷ xs) (suc i) (suc j) v h = get_elem?-set_ne xs i j v (λ e. h (ap suc e))
